-- ===== src/Profile.antt =====
-- wire-app/src/profile.rs: the identity snapshot and what is accepted of one.
pub mod Accent
pub mod Base64
mod Tests
use wire_app.Common.{
  ℕ, ◌+◌, ◌-◌, ◌/◌, Bool, true, false, not, ◌&&◌, ◌||◌, List, [], ◌∷◌, ◌++◌, Option, none, some,
  Text, text, strip_prefix, ltb, leb, ◌==◌, if◌then◌else◌, length, is_empty, all, map,
}
use wire_app.Common.Whitespace.{trim}

abbrev pub max_display_name_len : ℕ
max_display_name_len = 32

-- `ProfileSnapshot`.
pub record ProfileSnapshot : Type 0 where
  pub display_name : Option Text
  pub avatar_hash : Option Text
  pub accent_color : Option Text

abbrev pub is_ascii_hexdigit : ℕ → Bool
is_ascii_hexdigit b =
    leb b'0' b && leb b b'9' || leb b'a' b && leb b b'f' || leb b'A' b && leb b b'F'

abbrev pub to_ascii_uppercase : ℕ → ℕ
to_ascii_uppercase b = if leb b'a' b && leb b b'z' then b - 32 else b

abbrev doubled : Text → Text
doubled [] = []
doubled (c ∷ s) = c ∷ c ∷ doubled s

abbrev pub or_self : Option Text → Text → Text
or_self none s = s
or_self (some t) s = t

-- What the colour check makes of the text behind an optional `#`.
unfoldable pub expand_hex : Text → Option Text
expand_hex hex =
    if length hex == 3 && all is_ascii_hexdigit hex
    then some (doubled hex)
    else if length hex == 6 && all is_ascii_hexdigit hex
    then some hex
    else none

abbrev pub hash_sign : Text
hash_sign = b'#' ∷ []

unfoldable pub sanitize_accent_color : Text → Option Text
sanitize_accent_color raw =
    elim (expand_hex (or_self (strip_prefix hash_sign (trim raw)) (trim raw))) [
      | none ↦ none
      | some expanded ↦ some (b'#' ∷ map to_ascii_uppercase expanded)
    ]

-- `chars().count()`: the bytes that do not continue a character.
unfoldable pub char_count : Text → ℕ
char_count [] = 0
char_count (b ∷ s) = if b / 64 == 2 then char_count s else char_count s + 1

pub data ProfileError : Type 0 where
  bad_display_name bad_avatar_hash bad_accent_color : ProfileError

abbrev is_some_and : Option Text → (Text → Bool) → Bool
is_some_and none p = false
is_some_and (some t) p = p t

abbrev is_none : Option Text → Bool
is_none none = true
is_none (some t) = false

-- `ProfileSnapshot::validate`: `none` where it returns `Ok(())`.
unfoldable pub validate : ProfileSnapshot → Option ProfileError
validate p =
    if is_some_and p.display_name
      (λ name. ltb max_display_name_len (char_count name) || is_empty (trim name))
    then some bad_display_name
    else if is_some_and p.avatar_hash (λ hash. ltb 128 (length hash) || is_empty (trim hash))
    then some bad_avatar_hash
    else if is_some_and p.accent_color (λ color. is_none (sanitize_accent_color color))
    then some bad_accent_color
    else none
