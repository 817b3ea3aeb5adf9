-- ===== src/Recording/Session/Names.antt =====
-- The file of a speaker carries the index of the speaker.
use wire_app.Common.{
  ℕ, zero, suc, ◌+◌, ◌-◌, ◌*◌, ◌/◌, ◌%◌, ◌<◌, ◌≡◌, refl, ap, subst, ◌∙◌, Bool, true, false, [], ◌∷◌,
  ◌++◌, none, some, arith, Text, text, text_eq, ltb, ◌==◌, if◌then◌else◌, Bool-cases, inl, inr,
}
use wire_app.Common.Map.{Map, is_some}
use wire_app.Recording.Session.{
  decimal, two_digits, file_name_of, SpeakerRecorder, Stopped, rename_to, recorded,
  sanitize_file_stem,
}

-- The number in front of the first dash.
unfoldable pub read_index : ℕ → Text → ℕ
read_index n [] = n
read_index n (c ∷ s) =
    let rest = read_index (n * 10 + (c - 0x30)) s in if c == 0x2d then n else rest

not_dash : (d : ℕ) → d < 10 → (0x30 + d == 0x2d) ≡ false
not_dash d h = ground arith

back : (d : ℕ) → 0x30 + d - 0x30 ≡ d
back d = omega arith

pub read_index_end : (n : ℕ) → read_index n [] ≡ n
unfolding read_index
read_index_end n = refl

read_index_dash : (n : ℕ) (s : Text) → read_index n (0x2d ∷ s) ≡ n
unfolding read_index
read_index_dash n s = refl

read_index_digit :
    (n d : ℕ) (s : Text) → d < 10 → read_index n ((0x30 + d) ∷ s) ≡ read_index (n * 10 + d) s
unfolding read_index
read_index_digit n d s h = rw (not_dash d h, back d) refl

read_index_first : (d : ℕ) (s : Text) → d < 10 → read_index 0 ((0x30 + d) ∷ s) ≡ read_index d s
read_index_first d s h =
    read_index_digit 0 d s h ∙ ap (λ k. read_index k s) (let e : 0 * 10 + d ≡ d = omega arith in e)

pub read_index-decimal :
    (fuel n : ℕ) (acc s : Text)
    → n < fuel
    → read_index 0 (decimal fuel n acc ++ s) ≡ read_index n (acc ++ s)
unfolding decimal
read_index-decimal zero n acc s h = absurd (omega (arith, h))
read_index-decimal (suc fuel) n acc s h = elim (Bool-cases (ltb n 10)) [
  | inl e ↦ rw e (read_index_first n (acc ++ s) (ground arith))
  | inr e ↦
      let rest = read_index-decimal fuel (n / 10) ((0x30 + n % 10) ∷ acc) s (ground arith) in
      let value : n / 10 * 10 + n % 10 ≡ n = omega arith in
      rw e (
        rest
        ∙ read_index_digit (n / 10) (n % 10) (acc ++ s) (omega arith)
        ∙ ap (λ k. read_index k (acc ++ s)) value)
]

read_index-two_digits : (n : ℕ) (s : Text) → read_index 0 (two_digits n ++ 0x2d ∷ s) ≡ n
unfolding two_digits
read_index-two_digits n s = elim (Bool-cases (ltb n 10)) [
  | inl e ↦ rw e (
      read_index_first 0 ((0x30 + n) ∷ 0x2d ∷ s) (omega arith)
      ∙ read_index_first n (0x2d ∷ s) (ground arith)
      ∙ read_index_dash n s)
  | inr e ↦ rw e (read_index-decimal (suc n) n [] (0x2d ∷ s) (omega arith) ∙ read_index_dash n s)
]

-- The index stands in the name.
pub read_index-file_name_of :
    (is_alphanumeric : ℕ → Bool) (index : ℕ) (name : Text)
    → read_index 0 (file_name_of is_alphanumeric index name) ≡ index
unfolding file_name_of
read_index-file_name_of is_alphanumeric index name =
    read_index-two_digits index (sanitize_file_stem is_alphanumeric name ++ text ".wav")

some_same : {t u : Text} → some t ≡ some u → t ≡ u
some_same {t} h = ap (λ o. elim o [ none ↦ t | some v ↦ v ]) h

module _ (is_alphanumeric : ℕ → Bool) where
  rename_to-read_index :
      (renames : Text → Text → Bool) (provisional name : Text) (index : ℕ) (t : Text)
      → read_index 0 provisional ≡ index
      → rename_to is_alphanumeric renames provisional name index ≡ some t
      → read_index 0 t ≡ index
  unfolding rename_to
  rename_to-read_index renames provisional name index t h e =
      let final = file_name_of is_alphanumeric index name in
      let named = read_index-file_name_of is_alphanumeric index name in
      elim (Bool-cases (text_eq final provisional)) [
        | inl a ↦ subst (λ u. read_index 0 u ≡ index) (some_same (rw a at e)) h
        | inr a ↦ elim (Bool-cases (renames provisional final)) [
          | inl b ↦ subst (λ u. read_index 0 u ≡ index) (some_same (rw (a, b) at e)) named
          | inr b ↦ subst (λ u. read_index 0 u ≡ index) (some_same (rw (a, b) at e)) h
        ]
      ]

  -- The file of a speaker has its index.
  pub recorded-read_index :
      (renames : Text → Text → Bool) (names : Map Text) (stopped : Text → Stopped) (node : Text)
      (r : SpeakerRecorder) (t : Text)
      → read_index 0 r.file_name ≡ r.index
      → (recorded is_alphanumeric renames names stopped node r).file_name ≡ some t
      → read_index 0 t ≡ r.index
  unfolding recorded
  recorded-read_index renames names stopped node r t h e =
      elim (Bool-cases (stopped node).created) [
        | inl c ↦ rename_to-read_index renames r.file_name _ r.index t h (rw c at e)
        | inr c ↦
            absurd
              (let g : none ≡ some t = (rw c at e) in let f : false ≡ true = ap is_some g in cc)
      ]
