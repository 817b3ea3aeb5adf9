-- ===== src/Common/Map/Ascending.antt =====
-- The keys of a `BTreeMap` ascend, so that none stands twice.
use wire_app.Common.{
  Bool, ◌≡◌, refl, subst, true, false, [], ◌∷◌, arith, Text, text_eq, text_lt, text_eq_iff,
  text_lt_asym, text_lt_trans, text_lt_total, Option, none, some, if◌then◌else◌, Bool-cases,
  Option-cases, inl, inr,
}
use wire_app.Common.Map.{Map, get, insert, contains_key, is_some, retain, alter}

module _ {ℓ} {V : Type ℓ} where
  abbrev pub IsAbove : Text → Map V → Type 0
  IsAbove k [] = Unit
  IsAbove k ((j, w) ∷ m) = (text_lt k j ≡ true) × IsAbove k m

  abbrev pub IsAscending : Map V → Type 0
  IsAscending [] = Unit
  IsAscending ((k, v) ∷ m) = IsAbove k m × IsAscending m

  IsAbove-insert :
      (i k : Text) (v : V) (m : Map V) → text_lt i k ≡ true → IsAbove i m → IsAbove i (insert k v m)
  unfolding insert
  IsAbove-insert i k v [] h a = (h, tt)
  IsAbove-insert i k v ((j, w) ∷ m) h a = elim (Bool-cases (text_eq j k)) [
    | inl e ↦ rw e (h, a.1)
    | inr e ↦ elim (Bool-cases (text_lt k j)) [
      | inl f ↦ rw (e, f) (h, a)
      | inr f ↦ rw (e, f) (a.0, IsAbove-insert i k v m h a.1)
    ]
  ]

  IsAbove-trans : (i k : Text) (m : Map V) → text_lt i k ≡ true → IsAbove k m → IsAbove i m
  IsAbove-trans i k [] h a = tt
  IsAbove-trans i k ((j, w) ∷ m) h a = (text_lt_trans i k j h a.0, IsAbove-trans i k m h a.1)

  pub IsAscending-insert :
      (k : Text) (v : V) (m : Map V) → IsAscending m → IsAscending (insert k v m)
  unfolding insert
  IsAscending-insert k v [] h = (tt, tt)
  IsAscending-insert k v ((j, w) ∷ m) h = elim (Bool-cases (text_eq j k)) [
    | inl e ↦ rw e (subst (λ i. IsAbove i m) ((text_eq_iff j k).0 e) h.0, h.1)
    | inr e ↦ elim (Bool-cases (text_lt k j)) [
      | inl f ↦ rw (e, f) ((f, IsAbove-trans k j m f h.0), h)
      | inr f ↦
          rw (e, f)
            (
              IsAbove-insert j k v m (ground (arith, text_lt_total j k, text_eq_iff j k)) h.0,
              IsAscending-insert k v m h.1,
            )
    ]
  ]

  pub IsAbove-contains_key : (k : Text) (m : Map V) → IsAbove k m → contains_key k m ≡ false
  unfolding get
  IsAbove-contains_key k [] a = refl
  IsAbove-contains_key k ((j, w) ∷ m) a =
      ground (arith, IsAbove-contains_key k m a.1, text_eq_iff j k, text_lt_asym k j)

  IsAbove-retain :
      (i : Text) (p : Text → V → Bool) (m : Map V) → IsAbove i m → IsAbove i (retain p m)
  unfolding retain
  IsAbove-retain i p [] a = tt
  IsAbove-retain i p ((j, w) ∷ m) a = elim (Bool-cases (p j w)) [
    | inl e ↦ rw e (a.0, IsAbove-retain i p m a.1)
    | inr e ↦ rw e (IsAbove-retain i p m a.1)
  ]

  pub IsAscending-retain :
      (p : Text → V → Bool) (m : Map V) → IsAscending m → IsAscending (retain p m)
  unfolding retain
  IsAscending-retain p [] h = tt
  IsAscending-retain p ((j, w) ∷ m) h = elim (Bool-cases (p j w)) [
    | inl e ↦ rw e (IsAbove-retain j p m h.0, IsAscending-retain p m h.1)
    | inr e ↦ rw e (IsAscending-retain p m h.1)
  ]

  -- An entry is left where the test holds of it.
  abbrev pub kept_by : (V → Bool) → Option V → Option V
  kept_by p none = none
  kept_by p (some v) = if p v then some v else none

  IsAbove-get : (k : Text) (m : Map V) → IsAbove k m → get k m ≡ none
  IsAbove-get k m a = elim (Option-cases (get k m)) [
    | inl e ↦ e
    | inr (v, e) ↦ absurd (let f : is_some (get k m) ≡ false = IsAbove-contains_key k m a in cc)
  ]

  pub get-retain :
      (k : Text) (p : Text → V → Bool) (m : Map V)
      → IsAscending m
      → get k (retain p m) ≡ kept_by (p k) (get k m)
  unfolding get retain
  get-retain k p [] h = refl
  get-retain k p ((j, w) ∷ m) h = elim (Bool-cases (text_eq j k)) [
    | inr e ↦ elim (Bool-cases (p j w)) [
      | inl f ↦ rw (e, f) (rw e (get-retain k p m h.1))
      | inr f ↦ rw (e, f) (get-retain k p m h.1)
    ]
    | inl e ↦
        let same : j ≡ k = (text_eq_iff j k).0 e in
        elim (Bool-cases (p j w)) [
          | inl f ↦ rw (e, f) (rw e (rw (subst (λ i. p i w ≡ true) same f) refl))
          | inr f ↦
              rw (e, f)
                (rw (subst (λ i. p i w ≡ false) same f) (
                  IsAbove-get k (retain p m)
                    (subst (λ i. IsAbove i (retain p m)) same (IsAbove-retain j p m h.0))))
        ]
  ]

  IsAbove-alter : (i k : Text) (f : V → V) (m : Map V) → IsAbove i m → IsAbove i (alter k f m)
  unfolding alter
  IsAbove-alter i k f [] a = tt
  IsAbove-alter i k f ((j, w) ∷ m) a = elim (Bool-cases (text_eq j k)) [
    | inl e ↦ rw e (a.0, IsAbove-alter i k f m a.1)
    | inr e ↦ rw e (a.0, IsAbove-alter i k f m a.1)
  ]

  pub IsAscending-alter :
      (k : Text) (f : V → V) (m : Map V) → IsAscending m → IsAscending (alter k f m)
  unfolding alter
  IsAscending-alter k f [] h = tt
  IsAscending-alter k f ((j, w) ∷ m) h = elim (Bool-cases (text_eq j k)) [
    | inl e ↦ rw e (IsAbove-alter j k f m h.0, IsAscending-alter k f m h.1)
    | inr e ↦ rw e (IsAbove-alter j k f m h.0, IsAscending-alter k f m h.1)
  ]
