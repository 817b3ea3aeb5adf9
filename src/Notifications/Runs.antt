-- ===== src/Notifications/Runs.antt =====
-- The runs of the store: commands, frames, clicks and the end of the overlay, in any order and at
-- any times.
use wire_app.Common.{ℕ, ◌≡◌, arith, Bool, not, ◌==◌, List, [], ◌∷◌, map, keep_if}
use wire_app.Notifications.{
  Group, Store, empty_store, leave, dismiss_id, clear, expire, has_left, shown, advance, Command,
  push_command, upsert_command, dismiss_command, apply_command, apply_commands,
}
use wire_app.Notifications.Groups.{
  occurrences-keep_if, length-keep_if, All-keep_if, length-map, All-map, update_first-Search,
  occurrences-map, fill-occurrences, fill-length, fill-All,
}
use wire_app.Notifications.Valid.{
  GroupIsValid, Waits, IsValid, with_visible-IsValid, push-IsValid, upsert_transfer-IsValid,
  leave-GroupIsValid, dismiss_key-IsValid,
}

dismiss_id-IsValid : (id now : ℕ) (s : Store) → IsValid s → IsValid (dismiss_id id now s)
unfolding dismiss_id
dismiss_id-IsValid id now s v =
    with_visible-IsValid (λ g. g.id == id) (leave now) s s _ (λ g. ground arith)
      (λ g e h. leave-GroupIsValid now g h)
      (update_first-Search (λ g. g.id == id) (leave now) s.visible) v v

clear-IsValid : (s : Store) → IsValid s → IsValid (clear s)
unfolding clear
clear-IsValid s v = record {
  room = omega arith;
  numbers = λ n. omega arith;
  visible_valid = tt;
  pending_valid = tt;
}

abbrev staying : ℕ → Store → List Group
staying now s = keep_if (λ g. not (has_left now g.leaving_at)) (map (expire now) s.visible)

expire-id : (now : ℕ) (g : Group) → (expire now g).id ≡ g.id
expire-id now g = ground arith

shown-GroupIsValid : (now : ℕ) (g : Group) → Waits g → GroupIsValid (shown now g)
shown-GroupIsValid now g h = h.0

advance-IsValid : (now : ℕ) (s : Store) → IsValid s → IsValid (advance now s)
unfolding advance
advance-IsValid now s v =
    let left : Group → Bool = λ g. not (has_left now g.leaving_at) in
    let gs = map (expire now) s.visible in
    let all =
      fill-All GroupIsValid Waits now (shown-GroupIsValid now) s.pending (staying now s)
        v.pending_valid
        (All-keep_if GroupIsValid left gs (
          All-map GroupIsValid GroupIsValid (expire now) (λ g h. ground arith) s.visible
            v.visible_valid)) in
    record {
      room =
          fill-length now s.pending (staying now s)
            (omega (arith, v.room, length-keep_if left gs, length-map (expire now) s.visible));
      numbers = λ n. omega (
        arith,
        v.numbers n,
        fill-occurrences n now s.pending (staying now s),
        occurrences-keep_if n left gs,
        occurrences-map (expire now) (expire-id now) n s.visible,
      );
      visible_valid = all.0;
      pending_valid = all.1;
    }

apply_command-IsValid :
    (c : Command) (now : ℕ) (s : Store) → IsValid s → IsValid (apply_command c now s)
unfolding apply_command
apply_command-IsValid (push_command spec) now s v = push-IsValid spec now s v
apply_command-IsValid (upsert_command spec) now s v = upsert_transfer-IsValid spec now s v
apply_command-IsValid (dismiss_command key) now s v = dismiss_key-IsValid key now s v

apply_commands-IsValid :
    (cs : List Command) (now : ℕ) (s : Store) → IsValid s → IsValid (apply_commands cs now s).0
unfolding apply_commands
apply_commands-IsValid [] now s v = v
apply_commands-IsValid (c ∷ cs) now s v =
    apply_commands-IsValid cs now _ (apply_command-IsValid c now s v)

-- What happens to the store, each at an instant.
pub data Event : Type 0 where
  commands : List Command → ℕ → Event
  frame : ℕ → Event
  click : ℕ → ℕ → Event
  hidden : Event

unfoldable pub happen : Event → Store → Store
unfolding apply_commands advance dismiss_id clear
happen (commands cs now) s = (apply_commands cs now s).0
happen (frame now) s = advance now s
happen (click id now) s = dismiss_id id now s
happen hidden s = clear s

abbrev pub run : List Event → Store → Store
run [] s = s
run (e ∷ es) s = run es (happen e s)

happen-IsValid : (e : Event) (s : Store) → IsValid s → IsValid (happen e s)
unfolding happen
happen-IsValid (commands cs now) s v = apply_commands-IsValid cs now s v
happen-IsValid (frame now) s v = advance-IsValid now s v
happen-IsValid (click id now) s v = dismiss_id-IsValid id now s v
happen-IsValid hidden s v = clear-IsValid s v

run-extends : (es : List Event) (s : Store) → IsValid s → IsValid (run es s)
run-extends [] s v = v
run-extends (e ∷ es) s v = run-extends es (happen e s) (happen-IsValid e s v)

-- After any commands, frames, clicks and endings, at any times: at most four groups are on the screen, no
-- two groups have one number, none has a number that is still to be given, each shows one to four
-- messages and hides others only behind four of a conversation, and no waiting group is leaving.
pub run-IsValid : (es : List Event) → IsValid (run es empty_store)
run-IsValid es = run-extends es empty_store (record {
  room = omega arith;
  numbers = λ n. omega arith;
  visible_valid = tt;
  pending_valid = tt;
})
