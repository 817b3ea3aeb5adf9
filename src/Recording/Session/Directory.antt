-- ===== src/Recording/Session/Directory.antt =====
-- The directory of a recording: `create_session_dir` of recording.rs, under a root that exists.
use wire_app.Common.{
  ℕ, zero, suc, ◌+◌, ◌≤◌, ◌<◌, ◌≡◌, ◌≢◌, refl, sym, ap, ◌∙◌, Bool, true, false, List, [], ◌∷◌, ◌++◌,
  Text, ◌==◌, if◌then◌else◌, All, length, drop, append-nil, arith, Bool-cases, inl, inr,
}
use wire_app.Recording.Session.{decimal}
use wire_app.Recording.Session.Names.{read_index, read_index-decimal, read_index_end}

-- How the search for a directory ends: one is made, the making of one fails, or all attempts are taken.
pub data Directory : Type 0 where
  made not_made : Text → Directory
  none_free : Directory

unfoldable pub attempt_name : Text → ℕ → Text
attempt_name stem attempt =
    if attempt == 0 then stem else stem ++ 0x2d ∷ decimal (suc attempt) attempt []

-- `exists` and `fails` are what `fs::create_dir` answers: the directory is there, or another error.
unfoldable pub create_from : (Text → Bool) → (Text → Bool) → Text → ℕ → ℕ → Directory
create_from exists fails stem attempt zero = none_free
create_from exists fails stem attempt (suc left) =
    let next = create_from exists fails stem (attempt + 1) left in
    let name = attempt_name stem attempt in
    if exists name then next else if fails name then not_made name else made name

unfoldable pub create_session_dir : (Text → Bool) → (Text → Bool) → Text → Directory
create_session_dir exists fails stem = create_from exists fails stem 0 64

unfoldable pub names_from : Text → ℕ → ℕ → List Text
names_from stem attempt zero = []
names_from stem attempt (suc left) = attempt_name stem attempt ∷ names_from stem (attempt + 1) left

-- The names before the chosen one are taken, and it is free; or all are taken.
pub data Chosen (exists fails : Text → Bool) : List Text → Directory → Type 0 where
  all_taken : Chosen exists fails [] none_free
  taken :
      (name : Text) {names : List Text} {d : Directory}
      → exists name ≡ true
      → Chosen exists fails names d
      → Chosen exists fails (name ∷ names) d
  free :
      (name : Text) {names : List Text}
      → exists name ≡ false
      → fails name ≡ false
      → Chosen exists fails (name ∷ names) (made name)
  denied :
      (name : Text) {names : List Text}
      → exists name ≡ false
      → fails name ≡ true
      → Chosen exists fails (name ∷ names) (not_made name)

create_from-Chosen :
    (exists fails : Text → Bool) (stem : Text) (attempt left : ℕ)
    → Chosen exists fails
        (names_from stem attempt left)
        (create_from exists fails stem attempt left)
unfolding create_from names_from
create_from-Chosen exists fails stem attempt zero = all_taken
create_from-Chosen exists fails stem attempt (suc left) =
    elim (Bool-cases (exists (attempt_name stem attempt))) [
      | inl e ↦ rw e (
          taken (attempt_name stem attempt) e
            (create_from-Chosen exists fails stem (attempt + 1) left))
      | inr e ↦ elim (Bool-cases (fails (attempt_name stem attempt))) [
        | inl f ↦ rw (e, f) (denied (attempt_name stem attempt) e f)
        | inr f ↦ rw (e, f) (free (attempt_name stem attempt) e f)
      ]
    ]

-- The names that are tried, from the given number: the stem for 0, and the stem with a dash and the number else.
pub data Numbered (stem : Text) : ℕ → List Text → Type 0 where
  done : (n : ℕ) → Numbered stem n []
  plain :
      (n : ℕ) {names : List Text}
      → n ≡ 0
      → Numbered stem (n + 1) names
      → Numbered stem n (stem ∷ names)
  suffixed :
      (n : ℕ) (digits : Text) {names : List Text}
      → 0 < n
      → read_index 0 digits ≡ n
      → Numbered stem (n + 1) names
      → Numbered stem n ((stem ++ 0x2d ∷ digits) ∷ names)

abbrev pub HasDistinctNames : List Text → Type 0
HasDistinctNames [] = Unit
HasDistinctNames (x ∷ xs) = All (λ (y : Text). x ≢ y) xs × HasDistinctNames xs

number_read : (n : ℕ) → read_index 0 (decimal (suc n) n []) ≡ n
number_read n =
    rw⁻¹ (append-nil (decimal (suc n) n []))
      (read_index-decimal (suc n) n [] [] (omega arith) ∙ read_index_end n)

names_from-Numbered : (stem : Text) (n left : ℕ) → Numbered stem n (names_from stem n left)
unfolding names_from attempt_name
names_from-Numbered stem n zero = done n
names_from-Numbered stem n (suc left) = elim (Bool-cases (n == 0)) [
  | inl e ↦ rw e (plain n (ground arith) (names_from-Numbered stem (n + 1) left))
  | inr e ↦ rw e (
      suffixed n (decimal (suc n) n []) (ground arith) (number_read n)
        (names_from-Numbered stem (n + 1) left))
]

-- The number of a name.
number_of : Text → Text → ℕ
number_of stem name = read_index 0 (drop (suc (length stem)) name)

drop_all : (s : Text) → drop (suc (length s)) s ≡ []
drop_all [] = refl
drop_all (c ∷ s) = drop_all s

drop_stem : (s : Text) (c : ℕ) (digits : Text) → drop (suc (length s)) (s ++ c ∷ digits) ≡ digits
drop_stem [] c digits = refl
drop_stem (d ∷ s) c digits = drop_stem s c digits

number_of-stem : (stem : Text) → number_of stem stem ≡ 0
unfolding number_of
number_of-stem stem = rw (drop_all stem, read_index_end 0) refl

number_of-suffixed :
    (stem digits : Text) → number_of stem (stem ++ 0x2d ∷ digits) ≡ read_index 0 digits
unfolding number_of
number_of-suffixed stem digits = rw (drop_stem stem 0x2d digits) refl

all_lower :
    (stem : Text) (n : ℕ) (names : List Text)
    → All (λ (y : Text). n + 1 ≤ number_of stem y) names
    → All (λ (y : Text). n ≤ number_of stem y) names
all_lower stem n [] h = tt
all_lower stem n (y ∷ names) h = (omega (arith, h.0), all_lower stem n names h.1)

Numbered-number_of :
    {stem : Text} {n : ℕ} {names : List Text}
    → Numbered stem n names
    → All (λ (y : Text). n ≤ number_of stem y) names
Numbered-number_of (done n) = tt
Numbered-number_of {stem} (plain n {names} e h) =
    (omega (arith, e), all_lower stem n names (Numbered-number_of h))
Numbered-number_of {stem} (suffixed n digits {names} p e h) = (
  omega (arith, e, number_of-suffixed stem digits),
  all_lower stem n names (Numbered-number_of h),
)

all_other :
    (stem x : Text) (n : ℕ) (names : List Text)
    → number_of stem x ≡ n
    → All (λ (y : Text). n + 1 ≤ number_of stem y) names
    → All (λ (y : Text). x ≢ y) names
all_other stem x n [] e h = tt
all_other stem x n (y ∷ names) e h = (
  λ same.
      let f : number_of stem x ≡ number_of stem y = ap (number_of stem) same in
      absurd (omega (arith, e, f, h.0)),
  all_other stem x n names e h.1,
)

Numbered-HasDistinctNames :
    {stem : Text} {n : ℕ} {names : List Text} → Numbered stem n names → HasDistinctNames names
Numbered-HasDistinctNames (done n) = tt
Numbered-HasDistinctNames {stem} (plain n {names} e h) = (
  all_other stem stem n names (number_of-stem stem ∙ sym e) (Numbered-number_of h),
  Numbered-HasDistinctNames h,
)
Numbered-HasDistinctNames {stem} (suffixed n digits {names} p e h) = (
  all_other stem (stem ++ 0x2d ∷ digits) n names (number_of-suffixed stem digits ∙ e)
      (Numbered-number_of h),
  Numbered-HasDistinctNames h,
)

length-names_from : (stem : Text) (n left : ℕ) → length (names_from stem n left) ≡ left
unfolding names_from
length-names_from stem n zero = refl
length-names_from stem n (suc left) = ap suc (length-names_from stem (n + 1) left)

-- What a search for a directory does.
pub record IsSearch (exists fails : Text → Bool) (stem : Text) (d : Directory) : Type 0 where
  pub names : List Text
  pub counted : length names ≡ 64
  pub numbered : Numbered stem 0 names
  pub distinct : HasDistinctNames names
  pub chosen : Chosen exists fails names d

-- A recording gets the first of 64 names that is not taken: there are 64 names, the stem itself and then the
-- stem with a dash and each number from 1 to 63, no two of them the same; the directory that is made was not
-- there before, and those of all names before it were; an error of another kind ends the search at its name, and
-- the search fails only if all 64 are taken.
pub create_session_dir-IsSearch :
    (exists fails : Text → Bool) (stem : Text)
    → IsSearch exists fails stem (create_session_dir exists fails stem)
unfolding create_session_dir
create_session_dir-IsSearch exists fails stem = record {
  names = names_from stem 0 64;
  counted = length-names_from stem 0 64;
  numbered = names_from-Numbered stem 0 64;
  distinct = Numbered-HasDistinctNames (names_from-Numbered stem 0 64);
  chosen = create_from-Chosen exists fails stem 0 64;
}
