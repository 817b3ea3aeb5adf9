-- ===== src/Update/Choice.antt =====
-- The release that is offered: newer than the running version, and none is newer than it.
use wire_app.Common.{
  ◌≡◌, refl, subst, sym, true, false, List, [], ◌∷◌, Option, none, some, arith, Option-cases,
  Bool-cases, inl, inr, ◌⊎◌,
}
use wire_app.Update.{
  Version, newer, ReleaseInfo, FileEntry, release_from_file, candidates, greatest, max_release,
  latest_newer_release,
}
use wire_app.Update.Order.{newer_trans, newer_asym, newer_irrefl, newer_trans_false}

-- A file of the list reads as this release.
abbrev pub IsOffered : Version × ReleaseInfo → List FileEntry → Type 0
IsOffered r [] = ⊥
IsOffered r (f ∷ fs) = (release_from_file f ≡ some r) ⊎ IsOffered r fs

abbrev IsIn : Version × ReleaseInfo → List (Version × ReleaseInfo) → Type 0
IsIn r [] = ⊥
IsIn r (x ∷ xs) = (x ≡ r) ⊎ IsIn r xs

candidates_sound :
    (current : Version) (fs : List FileEntry) (r : Version × ReleaseInfo)
    → IsIn r (candidates current fs)
    → IsOffered r fs × (newer r.0 current ≡ true)
unfolding candidates
candidates_sound current [] r h = absurd h
candidates_sound current (f ∷ fs) r h = elim (Option-cases (release_from_file f)) [
  | inl e ↦
      let (offered, new) = candidates_sound current fs r (rw (e, candidates) at h) in
      (inr offered, new)
  | inr (x, e) ↦ elim (Bool-cases (newer x.0 current)) [
    | inr g ↦
        let (offered, new) = candidates_sound current fs r (rw (e, g, candidates) at h) in
        (inr offered, new)
    | inl g ↦ elim (rw (e, g, candidates) at h) [
      | inl same ↦ (inl (ground arith), ground arith)
      | inr later ↦ let (offered, new) = candidates_sound current fs r later in (inr offered, new)
    ]
  ]
]

candidates_complete :
    (current : Version) (fs : List FileEntry) (r : Version × ReleaseInfo)
    → IsOffered r fs
    → newer r.0 current ≡ true
    → IsIn r (candidates current fs)
unfolding candidates
candidates_complete current [] r h n = h
candidates_complete current (f ∷ fs) r (inl e) n = rw (e, n, candidates) (inl refl)
candidates_complete current (f ∷ fs) r (inr h) n = elim (Option-cases (release_from_file f)) [
  | inl e ↦ rw (e, candidates) (candidates_complete current fs r h n)
  | inr (x, e) ↦ elim (Bool-cases (newer x.0 current)) [
    | inr g ↦ rw (e, g, candidates) (candidates_complete current fs r h n)
    | inl g ↦ rw (e, g, candidates) (inr (candidates_complete current fs r h n))
  ]
]

greatest-stay :
    (best x : Version × ReleaseInfo) (rs : List (Version × ReleaseInfo))
    → newer best.0 x.0 ≡ true
    → greatest best (x ∷ rs) ≡ greatest best rs
unfolding greatest
greatest-stay best x rs e = rw e refl

greatest-change :
    (best x : Version × ReleaseInfo) (rs : List (Version × ReleaseInfo))
    → newer best.0 x.0 ≡ false
    → greatest best (x ∷ rs) ≡ greatest x rs
unfolding greatest
greatest-change best x rs e = rw e refl

greatest-nil : (best : Version × ReleaseInfo) → greatest best [] ≡ best
unfolding greatest
greatest-nil best = refl

greatest-IsIn :
    (best : Version × ReleaseInfo) (rs : List (Version × ReleaseInfo))
    → IsIn (greatest best rs) (best ∷ rs)
greatest-IsIn best [] = inl (sym (greatest-nil best))
greatest-IsIn best (r ∷ rs) = elim (Bool-cases (newer best.0 r.0)) [
  | inl e ↦
      subst (λ x. IsIn x (best ∷ r ∷ rs)) (sym (greatest-stay best r rs e))
        (elim (greatest-IsIn best rs) [ inl g ↦ inl g | inr g ↦ inr (inr g) ])
  | inr e ↦
      subst (λ x. IsIn x (best ∷ r ∷ rs)) (sym (greatest-change best r rs e))
        (inr (greatest-IsIn r rs))
]

-- None of the list is newer than the greatest.
greatest_max :
    (best : Version × ReleaseInfo) (rs : List (Version × ReleaseInfo)) (r : Version × ReleaseInfo)
    → IsIn r (best ∷ rs)
    → newer r.0 (greatest best rs).0 ≡ false
unfolding greatest
greatest_max best [] r h = elim h [
  | inl e ↦ subst (λ (x : Version × ReleaseInfo). newer x.0 best.0 ≡ false) e (newer_irrefl best.0)
  | inr e ↦ absurd e
]
greatest_max best (x ∷ rs) r h = elim (Bool-cases (newer best.0 x.0)) [
  | inl e ↦ rw e (elim h [
    | inl f ↦ greatest_max best rs r (inl f)
    | inr (inl f) ↦
        let top = (greatest best rs).0 in
        subst (λ (y : Version × ReleaseInfo). newer y.0 top ≡ false) f
          (ground (arith, newer_trans best.0 x.0 top e, greatest_max best rs best (inl refl)))
    | inr (inr f) ↦ greatest_max best rs r (inr f)
  ])
  | inr e ↦ rw e (elim h [
    | inl f ↦
        let top = (greatest x rs).0 in
        subst (λ (y : Version × ReleaseInfo). newer y.0 top ≡ false) f
          (newer_trans_false best.0 x.0 top e (greatest_max x rs x (inl refl)))
    | inr f ↦ greatest_max x rs r f
  ])
]

-- What the choice has to satisfy.
pub data Choice (fs : List FileEntry) (current : Version) : Option ReleaseInfo → Type 0 where
  up_to_date :
      ((r : Version × ReleaseInfo) → IsOffered r fs → newer r.0 current ≡ false)
      → Choice fs current none
  update :
      (v : Version) (info : ReleaseInfo)
      → IsOffered (v, info) fs
      → newer v current ≡ true
      → ((r : Version × ReleaseInfo) → IsOffered r fs → newer r.0 v ≡ false)
      → Choice fs current (some info)

chosen :
    (fs : List FileEntry) (current : Version) (cs : List (Version × ReleaseInfo))
    → candidates current fs ≡ cs
    → Choice fs current (max_release cs)
chosen fs current [] e = up_to_date (λ r offered. elim (Bool-cases (newer r.0 current)) [
  | inl new ↦ absurd (rw e at (candidates_complete current fs r offered new))
  | inr old ↦ old
])
chosen fs current (c ∷ cs) e =
    let best = greatest c cs in
    let (offered, new) =
      candidates_sound current fs best (subst (IsIn best) (sym e) (greatest-IsIn c cs)) in
    update best.0 best.1 offered new (λ r listed. elim (Bool-cases (newer r.0 current)) [
      | inl further ↦
          greatest_max c cs r (subst (IsIn r) e (candidates_complete current fs r listed further))
      | inr old ↦ newer_trans_false r.0 current best.0 old (newer_asym best.0 current new)
    ])

-- The release that is offered is one of the listed files, newer than the running version, and no
-- listed file has a newer version; if none is offered, no listed file has a version newer than the
-- running one.
pub latest_newer_release-Choice :
    (fs : List FileEntry) (current : Version) → Choice fs current (latest_newer_release fs current)
unfolding latest_newer_release
latest_newer_release-Choice fs current = chosen fs current (candidates current fs) refl
