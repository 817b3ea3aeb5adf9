-- ===== src/Chat/Schedule.antt =====
-- Timers by conversation, as `retry_state` and `control_retries` of chat.rs hold them: the ones that
-- are due, and rounds that leave none of them due.
use wire_app.Common.{
  ℕ, ◌<◌, ◌≡◌, true, false, List, [], ◌∷◌, none, some, arith, Text, text_eq, text_eq_iff,
  text_eq_refl, ◌⊎◌, leb, if◌then◌else◌, Bool-cases, Option-cases, inl, inr, subst,
}
use wire_app.Common.Map.{Map, get, alter, get-alter, get-remove, map_option}
use wire_app.Common.Map
use wire_app.Common.Set

module _ {V : Type 0} (next : V → ℕ) where
  -- The conversations whose time has come.
  abbrev pub due_by : ℕ → Map V → List Text
  due_by now [] = []
  due_by now ((c, r) ∷ m) = let rest = due_by now m in if leb (next r) now then c ∷ rest else rest

  -- No schedule of the conversation is due.
  abbrev pub IsQuiet : ℕ → Text → Map V → Type 0
  IsQuiet now c m = (r : V) → get c m ≡ some r → now < next r

  -- What a round leaves of the schedules: the one of `c` is gone or armed anew, the others stay.
  pub data Round (now : ℕ) (c : Text) (m m' : Map V) : Type 0 where
    absent : get c m ≡ none → m' ≡ m → Round now c m m'
    dropped : m' ≡ Map.remove c m → Round now c m m'
    rearmed : (f : V → V) → ((r : V) → now < next (f r)) → m' ≡ alter c f m → Round now c m m'

  -- Reads of one key before and after a round.
  pub IsQuiet-Round : {now : ℕ} {c : Text} {m m' : Map V} → Round now c m m' → IsQuiet now c m'
  IsQuiet-Round {c} (absent e f) r g = ground arith
  IsQuiet-Round {c} {m} (dropped f) r g = ground (arith, get-remove c c m, text_eq_refl c)
  IsQuiet-Round {c} {m} (rearmed f h e) r g = elim (Option-cases (get c m)) [
    | inl no_value ↦ ground (arith, get-alter c c f m, text_eq_refl c)
    | inr (q, found) ↦ ground (arith, get-alter c c f m, text_eq_refl c, h q)
  ]

  pub IsQuiet-keeps :
      {now : ℕ} {c : Text} {m m' : Map V} (k : Text)
      → Round now c m m'
      → IsQuiet now k m
      → IsQuiet now k m'
  IsQuiet-keeps {m} k (absent e f) q r g = q r (rw f at g)
  IsQuiet-keeps {c} {m} k (dropped f) q r g = elim (Bool-cases (text_eq c k)) [
    | inl same ↦ ground (arith, get-remove k c m)
    | inr other ↦ q r (ground (arith, get-remove k c m))
  ]
  IsQuiet-keeps {now} {c} {m} {m'} k (rearmed f h e) q r g = elim (Bool-cases (text_eq c k)) [
    | inl same ↦
        subst (λ x. IsQuiet now x m') ((text_eq_iff c k).0 same) (IsQuiet-Round (rearmed f h e)) r g
    | inr other ↦ q r (ground (arith, get-alter k c f m))
  ]

  -- A schedule is in the round, or it is not due.
  pub due_by-cases :
      (now : ℕ) (m : Map V) (k : Text) → (Set.contains k (due_by now m) ≡ true) ⊎ IsQuiet now k m
  unfolding Set.contains get
  due_by-cases now [] k = inr (λ r g. absurd (let f : none ≡ some r = g in cc))
  due_by-cases now ((c, r) ∷ m) k = elim (Bool-cases (text_eq c k)) [
    | inl same ↦ elim (Bool-cases (leb (next r) now)) [
      | inl passed ↦ inl (rw passed (rw same))
      | inr ahead ↦ inr (λ q g. ground arith)
    ]
    | inr other ↦ elim (due_by-cases now m k) [
      | inl listed ↦ inl (ground arith)
      | inr quiet ↦ inr (λ q g. quiet q (rw (other, get) at g))
    ]
  ]

-- A round for each conversation of a list, on a state that holds the schedules.
module _ {V S : Type 0} (next : V → ℕ) (held : S → Map V) (now : ℕ) (one : S → Text → S)
    (round : (s : S) (c : Text) → Round next now c (held s) (held (one s c))) where
  abbrev pub each : List Text → S → S
  each [] s = s
  each (c ∷ cs) s = each cs (one s c)

  each-keeps :
      (cs : List Text) (s : S) (k : Text)
      → IsQuiet next now k (held s)
      → IsQuiet next now k (held (each cs s))
  each-keeps [] s k q = q
  each-keeps (c ∷ cs) s k q = each-keeps cs (one s c) k (IsQuiet-keeps next k (round s c) q)

  each-contains :
      (cs : List Text) (s : S) (k : Text)
      → Set.contains k cs ≡ true
      → IsQuiet next now k (held (each cs s))
  unfolding Set.contains
  each-contains [] s k h = absurd (let f : false ≡ true = h in cc)
  each-contains (c ∷ cs) s k h = elim (Bool-cases (text_eq c k)) [
    | inl same ↦ each-keeps cs (one s c) k (
        subst (λ x. IsQuiet next now x (held (one s c))) ((text_eq_iff c k).0 same)
          (IsQuiet-Round next (round s c)))
    | inr other ↦ each-contains cs (one s c) k (rw other at h)
  ]

  -- After a round for every conversation that is due, none is.
  pub each-IsQuiet :
      (s : S) (k : Text) → IsQuiet next now k (held (each (due_by next now (held s)) s))
  each-IsQuiet s k = elim (due_by-cases next now (held s) k) [
    | inl listed ↦ each-contains (due_by next now (held s)) s k listed
    | inr quiet ↦ each-keeps (due_by next now (held s)) s k quiet
  ]
