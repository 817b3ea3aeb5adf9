-- ===== src/Notifications/Tests.antt =====
-- Notifications at concrete inputs.
use wire_app.Common.{◌+◌, ◌≡◌, refl, arith, List, [], ◌∷◌, none, some, Text, text, text_eq, length}
use wire_app.Notifications.{
  Kind, message, transfer, info, Group, Spec, empty_store, advance, push_command, upsert_command,
  dismiss_command,
}
use wire_app.Notifications.Groups.{occurrences}
use wire_app.Notifications.Valid.{IsValid}
use wire_app.Notifications.Runs.{Event, commands, frame, click, happen, run, run-IsValid}
use wire_app.Notifications.Leaving.{advance-leaves}

abbrev spec : Kind → Text → Text → Spec
spec kind key body = record {
  group_key = some key;
  kind = kind;
  title = text "Wire";
  body = body;
  progress = none;
  action = none;
  buttons = [];
}

abbrev busy : List Event
busy =
    commands
      (push_command (spec message (text "ann") (text "hello"))
        ∷ push_command (spec message (text "ann") (text "again"))
        ∷ push_command (spec info (text "i") (text "1"))
        ∷ push_command (spec info (text "i") (text "2"))
        ∷ push_command (spec info (text "i") (text "3"))
        ∷ push_command (spec info (text "i") (text "4"))
        ∷ upsert_command (spec transfer (text "file") (text "10 %"))
        ∷ [])
      100
    ∷ frame 200
    ∷ click 2 300
    ∷ frame 620
    ∷ commands (dismiss_command (text "ann") ∷ []) 700
    ∷ []

busy_shape :
    (length (run busy empty_store).visible ≡ 4)
    × (length (run busy empty_store).pending ≡ 1)
    × ((run busy empty_store).next_id ≡ 7)
unfolding happen text_eq
busy_shape = (refl, refl, refl)

run-IsValid_example : IsValid (run busy empty_store)
run-IsValid_example = run-IsValid busy

abbrev one_message : List Event
one_message = commands (push_command (spec message (text "ann") (text "hello")) ∷ []) 100 ∷ []

abbrev hello : Group
hello = record {
  id = 1;
  key = some (text "ann");
  kind = message;
  entries =
      record { title = text "Wire"; body = text "hello"; progress = none; action = none } ∷ [];
  hidden_entries = 0;
  buttons = [];
  created_at = 100;
  expires_at = some 7_100;
  leaving_at = none;
}

one_visible : (run one_message empty_store).visible ≡ hello ∷ []
unfolding happen text_eq
one_visible = refl

advance-leaves_example :
    occurrences 1 (advance 7_500 (advance 7_100 (run one_message empty_store))).visible
      + occurrences 1 (advance 7_500 (advance 7_100 (run one_message empty_store))).pending
    ≡ 0
advance-leaves_example =
    advance-leaves (run one_message empty_store) [] [] hello 7_100 7_500 (run-IsValid one_message)
      one_visible refl (omega arith)
