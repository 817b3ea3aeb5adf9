-- ===== src/Update.antt =====
-- wire-app/src/update.rs: versions, and the choice of the release to update to. Downloads, staging
-- and the relaunch are left out.
pub mod Order
pub mod Choice
pub mod Peer
mod Tests
use wire_app.Common.{
  ℕ, ◌+◌, ◌-◌, ◌*◌, ◌^◌, ◌≡◌, Bool, true, false, ◌&&◌, ◌||◌, List, [], ◌∷◌, Option, none, some,
  Text, text, text_eq, strip_prefix, ltb, leb, ◌==◌, if◌then◌else◌,
}

-- `?` on options.
infixl 5 ◌>>=◌
abbrev ◌>>=◌ {ℓ κ} : {A : Type ℓ} {B : Type κ} → Option A → (A → Option B) → Option B
none >>= next = none
some a >>= next = next a

-- `[u64; 3]`.
pub record Version : Type 0 where
  pub major : ℕ
  pub minor : ℕ
  pub patch : ℕ

-- `>` on arrays.
unfoldable pub newer : Version → Version → Bool
newer a b =
    if a.major == b.major
    then (if a.minor == b.minor then ltb b.patch a.patch else ltb b.minor a.minor)
    else ltb b.major a.major

abbrev is_digit : ℕ → Bool
is_digit c = leb 48 c && leb c 57

abbrev accumulate : ℕ → ℕ → Option ℕ
accumulate n c =
    if is_digit c && ltb (n * 10 + (c - 48)) (2 ^ 64) then some (n * 10 + (c - 48)) else none

-- The digits of `u64::from_str`, which refuses one that overflows.
unfoldable pub digits : ℕ → Text → Option ℕ
digits n [] = some n
digits n (c ∷ s) = elim (accumulate n c) [ none ↦ none | some n' ↦ digits n' s ]

-- `u64::from_str`: a plus sign may come first, and there is a digit at least.
unfoldable pub parse_u64 : Text → Option ℕ
parse_u64 [] = none
parse_u64 (c ∷ []) = digits 0 (c ∷ [])
parse_u64 (c ∷ d ∷ s) = if c == 43 then digits 0 (d ∷ s) else digits 0 (c ∷ d ∷ s)

abbrev cons_part : ℕ → List Text → List Text
cons_part c [] = (c ∷ []) ∷ []
cons_part c (p ∷ ps) = (c ∷ p) ∷ ps

-- `split('.')`.
unfoldable pub split_dot : Text → List Text
split_dot [] = [] ∷ []
split_dot (c ∷ s) = let rest = split_dot s in if c == 46 then [] ∷ rest else cons_part c rest

unfoldable pub version_of_parts : List Text → Option Version
version_of_parts (a ∷ b ∷ c ∷ []) = do
  major ← parse_u64 a
  minor ← parse_u64 b
  patch ← parse_u64 c
  some (record { major = major; minor = minor; patch = patch })
version_of_parts parts = none

unfoldable pub parse_version : Text → Option Version
parse_version value = version_of_parts (split_dot value)

unfoldable pub is_version_newer : Text → Text → Bool
is_version_newer candidate current = elim (parse_version candidate) [
  | none ↦ false
  | some v ↦ elim (parse_version current) [ none ↦ false | some w ↦ newer v w ]
]

pub data Ordering : Type 0 where
  less equal greater : Ordering

abbrev pub ordering : Version → Version → Ordering
ordering a b = if newer a b then greater else if newer b a then less else equal

unfoldable pub compare_versions : Text → Text → Ordering
compare_versions left right = elim (parse_version left) [
  | none ↦ equal
  | some v ↦ elim (parse_version right) [ none ↦ equal | some w ↦ ordering v w ]
]

pub record ReleaseInfo : Type 0 where
  pub id : Text
  pub version : Text
  pub sha256 : Text

pub record FileEntry : Type 0 where
  pub id : Text
  pub original_name : Text
  pub sha256 : Text

abbrev cons_to : ℕ → Option Text → Option Text
cons_to c none = none
cons_to c (some s) = some (c ∷ s)

-- `strip_suffix`.
unfoldable pub strip_suffix : Text → Text → Option Text
strip_suffix suffix [] = if text_eq suffix [] then some [] else none
strip_suffix suffix (c ∷ s) =
    let rest = strip_suffix suffix s in if text_eq suffix (c ∷ s) then some [] else cons_to c rest

unfoldable pub release_from_file : FileEntry → Option (Version × ReleaseInfo)
release_from_file file = do
  tail ← strip_prefix (text "wire-app-v") file.original_name
  version ← strip_suffix (text ".zip") tail
  parsed ← parse_version version
  some (parsed, record { id = file.id; version = version; sha256 = file.sha256 })

-- `filter_map` and `filter`.
unfoldable pub candidates : Version → List FileEntry → List (Version × ReleaseInfo)
candidates current [] = []
candidates current (f ∷ fs) =
    let rest = candidates current fs in
    elim (release_from_file f) [
      | none ↦ rest
      | some r ↦ if newer r.0 current then r ∷ rest else rest
    ]

-- `max_by_key`: the last of the greatest.
unfoldable pub greatest :
    Version × ReleaseInfo → List (Version × ReleaseInfo) → Version × ReleaseInfo
greatest best [] = best
greatest best (r ∷ rs) =
    let stay = greatest best rs in
    let change = greatest r rs in if newer best.0 r.0 then stay else change

abbrev pub max_release : List (Version × ReleaseInfo) → Option ReleaseInfo
max_release [] = none
max_release (r ∷ rs) = some (greatest r rs).1

unfoldable pub latest_newer_release : List FileEntry → Version → Option ReleaseInfo
latest_newer_release files current = max_release (candidates current files)
