-- ===== src/Recording/Session/Stem.antt =====
-- What a display name becomes in the name of a file.
use wire_app.Common.{
  ℕ, zero, suc, ◌≤◌, ◌≡◌, refl, Bool, true, false, not, ◌&&◌, ◌||◌, List, [], ◌∷◌, ◌++◌, arith,
  Text, if◌then◌else◌, map, take, length, is_empty, All, All-append, All-take, Bool-cases, inl, inr,
}
use wire_app.Recording.Session.{
  is_whitespace, is_kept, words, join, is_trimmed, trim_front, trim_back, sanitize_file_stem,
}

abbrev pub starts_well : Text → Bool
starts_well [] = false
starts_well (c ∷ s) = not (is_trimmed c)

module _ (is_alphanumeric : ℕ → Bool) where
  abbrev pub IsAllowed : ℕ → Type 0
  IsAllowed c = (is_alphanumeric c || is_kept c) ≡ true

  cleaned-IsAllowed :
      (name : Text)
      → All IsAllowed (map (λ (c : ℕ). if is_alphanumeric c || is_kept c then c else 0x2d) name)
  cleaned-IsAllowed [] = tt
  cleaned-IsAllowed (c ∷ name) = (
    elim (Bool-cases (is_alphanumeric c || is_kept c)) [
      | inl e ↦ rw e e
      | inr e ↦ rw e (ground arith)
    ],
    cleaned-IsAllowed name,
  )

  words-IsAllowed :
      (word s : Text) → All IsAllowed word → All IsAllowed s → All (All IsAllowed) (words word s)
  unfolding words
  words-IsAllowed word [] h g = elim (Bool-cases (is_empty word)) [
    | inl e ↦ rw e tt
    | inr e ↦ rw e (h, tt)
  ]
  words-IsAllowed word (c ∷ s) h g = elim (Bool-cases (not (is_whitespace c))) [
    | inl e ↦
        rw e (
          words-IsAllowed (word ++ c ∷ []) s (All-append IsAllowed word (c ∷ []) (h, (g.0, tt)))
            g.1)
    | inr e ↦ elim (Bool-cases (is_empty word)) [
      | inl f ↦ rw (e, f) (words-IsAllowed [] s tt g.1)
      | inr f ↦ rw (e, f) (h, words-IsAllowed [] s tt g.1)
    ]
  ]

  space-IsAllowed : IsAllowed 0x20
  space-IsAllowed = ground arith

  join-IsAllowed : (ws : List Text) → All (All IsAllowed) ws → All IsAllowed (join ws)
  unfolding join
  join-IsAllowed [] h = tt
  join-IsAllowed (w ∷ []) h = h.0
  join-IsAllowed (w ∷ v ∷ ws) h =
      All-append IsAllowed w (0x20 ∷ join (v ∷ ws))
        (h.0, (space-IsAllowed, join-IsAllowed (v ∷ ws) h.1))

  trim_front-IsAllowed : (s : Text) → All IsAllowed s → All IsAllowed (trim_front s)
  unfolding trim_front
  trim_front-IsAllowed [] h = tt
  trim_front-IsAllowed (c ∷ s) h = elim (Bool-cases (is_trimmed c)) [
    | inl e ↦ rw e (trim_front-IsAllowed s h.1)
    | inr e ↦ rw e h
  ]

  trim_back-IsAllowed : (s : Text) → All IsAllowed s → All IsAllowed (trim_back s)
  unfolding trim_back
  trim_back-IsAllowed [] h = tt
  trim_back-IsAllowed (c ∷ s) h = elim (Bool-cases (is_empty (trim_back s) && is_trimmed c)) [
    | inl e ↦ rw e tt
    | inr e ↦ rw e (h.0, trim_back-IsAllowed s h.1)
  ]

  trim_front-starts_well :
      (s : Text) → (is_empty (trim_front s) || starts_well (trim_front s)) ≡ true
  unfolding trim_front
  trim_front-starts_well [] = refl
  trim_front-starts_well (c ∷ s) = elim (Bool-cases (is_trimmed c)) [
    | inl e ↦ rw e (trim_front-starts_well s)
    | inr e ↦ rw e (rw e refl)
  ]

  trim_back-starts_well :
      (s : Text)
      → (is_empty s || starts_well s) ≡ true
      → (is_empty (trim_back s) || starts_well (trim_back s)) ≡ true
  unfolding trim_back
  trim_back-starts_well [] h = refl
  trim_back-starts_well (c ∷ s) h = ground arith

  take-starts_well :
      (s : Text)
      → (is_empty s || starts_well s) ≡ true
      → is_empty s ≡ false
      → starts_well (take 48 s) ≡ true
  take-starts_well [] h e = absurd (let f : true ≡ false = e in cc)
  take-starts_well (c ∷ s) h e = h

  take_upper : (n : ℕ) (s : Text) → length (take n s) ≤ n
  take_upper zero s = omega arith
  take_upper (suc n) [] = omega arith
  take_upper (suc n) (c ∷ s) = let h = take_upper n s in omega (arith, h)

  take-length :
      (n : ℕ) (s : Text)
      → is_empty s ≡ false
      → (1 ≤ length (take (suc n) s)) × (length (take (suc n) s) ≤ suc n)
  take-length n [] e = absurd (let f : true ≡ false = e in cc)
  take-length n (c ∷ s) e = (omega arith, (let h = take_upper n s in omega (arith, h)))

  pub record IsSafe (stem : Text) : Type 0 where
    pub allowed : All IsAllowed stem
    pub starts : starts_well stem ≡ true
    pub lower : 1 ≤ length stem
    pub upper : length stem ≤ 48

  -- The part of a file name that a display name becomes is safe on every file system: it has 1 to 48
  -- characters, each alphanumeric or a space, `-`, `_` or `.`, and the first is neither a dot nor a
  -- space. The letters a to z are alphanumeric.
  pub sanitize_file_stem-IsSafe :
      (name : Text)
      → ((c : ℕ) → 0x61 ≤ c → c ≤ 0x7a → is_alphanumeric c ≡ true)
      → IsSafe (sanitize_file_stem is_alphanumeric name)
  unfolding sanitize_file_stem
  sanitize_file_stem-IsSafe name letters =
      let cleaned = map (λ (c : ℕ). if is_alphanumeric c || is_kept c then c else 0x2d) name in
      let whole = join (words [] cleaned) in
      let trimmed = trim_back (trim_front whole) in
      let allowed = trim_back-IsAllowed (trim_front whole) (
        trim_front-IsAllowed whole (
          join-IsAllowed (words [] cleaned)
            (words-IsAllowed [] cleaned tt (cleaned-IsAllowed name)))) in
      let front = trim_back-starts_well (trim_front whole) (trim_front-starts_well whole) in
      let letter : (c : ℕ) → 0x61 ≤ c → c ≤ 0x7a → IsAllowed c = λ c l h. rw (letters c l h) refl in
      elim (Bool-cases (is_empty trimmed)) [
        | inl e ↦ rw e (record {
          allowed = (
            letter 115 (omega arith) (omega arith),
            (
              letter 112 (omega arith) (omega arith),
              (
                letter 101 (omega arith) (omega arith),
                (
                  letter 97 (omega arith) (omega arith),
                  (
                    letter 107 (omega arith) (omega arith),
                    (
                      letter 101 (omega arith) (omega arith),
                      (letter 114 (omega arith) (omega arith), tt),
                    ),
                  ),
                ),
              ),
            ),
          );
          starts = refl;
          lower = omega arith;
          upper = omega arith;
        })
        | inr e ↦ rw e (record {
          allowed = All-take IsAllowed 48 trimmed allowed;
          starts = take-starts_well trimmed front e;
          lower = (take-length 47 trimmed e).0;
          upper = (take-length 47 trimmed e).1;
        })
      ]
