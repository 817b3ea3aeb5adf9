-- ===== src/Chat/Sessions/Tests.antt =====
-- The pool of warm sessions at concrete inputs.
use wire_app.Common.{
  ℕ, ◌≤◌, ◌<◌, ◌-◌, ◌≡◌, refl, Bool, true, false, List, [], ◌∷◌, Option, none, some, arith, Text,
  text, length, suc,
}
use wire_app.Common.Map
use wire_app.Chat.Sessions.{
  Sessions, sweep_locked, oldest, oldest_from, evict_rounds, evict_locked, insert, touch, get,
  forget_if, dialled,
}
use wire_app.Chat.Sessions.Bounds.{Call, inserted, touched, dial_ended, calls, calls_bound}
use wire_app.Chat.Sessions.Reuse.{get-touch, forget_if-get}

abbrev pool : Sessions
pool =
    (text "ann", record { connection = 1; last_used = 1_000 })
    ∷ (text "bob", record { connection = 2; last_used = 70_000 })
    ∷ []

abbrev nine : List Call
nine =
    inserted 10 (text "a") 1
    ∷ inserted 20 (text "b") 2
    ∷ inserted 30 (text "c") 3
    ∷ inserted 40 (text "d") 4
    ∷ inserted 50 (text "e") 5
    ∷ touched 55 (text "a")
    ∷ inserted 60 (text "f") 6
    ∷ inserted 70 (text "g") 7
    ∷ inserted 80 (text "h") 8
    ∷ dial_ended 90 91 (text "i") 9
    ∷ []

-- The ninth session takes the place of the one that was used the longest ago.
evicted : Map.get (text "b") (calls nine []) ≡ none
unfolding insert touch get dialled sweep_locked evict_locked evict_rounds oldest oldest_from Map.get
    Map.insert Map.alter Map.remove Map.retain wire_app.Common.text_eq wire_app.Common.text_lt
evicted = refl

kept : Map.get (text "a") (calls nine []) ≡ some (record { connection = 1; last_used = 55 })
unfolding insert touch get dialled sweep_locked evict_locked evict_rounds oldest oldest_from Map.get
    Map.insert Map.alter Map.remove Map.retain wire_app.Common.text_eq wire_app.Common.text_lt
kept = refl

calls_bound_example : length (calls nine []) ≤ 8
calls_bound_example = calls_bound nine

get-touch_example : (get 100_000 (text "ann") (touch 61_500 (text "ann") pool)).1 ≡ some 1
get-touch_example =
    get-touch 61_500 100_000 (text "ann") pool (record { connection = 1; last_used = 1_000 })
      (unfold Map.get wire_app.Common.text_eq in refl) (omega arith)

forget_if-get_example :
    Map.get (text "bob") (forget_if (text "bob") 9 pool) ≡ Map.get (text "bob") pool
unfolding Map.get wire_app.Common.text_eq
forget_if-get_example = forget_if-get (text "bob") 9 pool (text "bob")
