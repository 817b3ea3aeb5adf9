-- ===== src/Common/Whitespace.antt =====
-- `str::trim` on UTF-8 bytes: the characters of Unicode's `White_Space` at both ends.
use wire_app.Common.{
  ap, ◌∙◌, ◌≤◌, ◌<◌, ◌≡◌, refl, arith, All, ℕ, zero, suc, Bool, ◌&&◌, ◌||◌, [], ◌∷◌, Option, none,
  some, Text, leb, ◌==◌, if◌then◌else◌, length, is_empty,
}

abbrev is_ascii_space : ℕ → Bool
is_ascii_space b = leb 0x09 b && leb b 0x0d || b == 0x20

-- U+0085 and U+00A0.
abbrev is_space_2 : ℕ → ℕ → Bool
is_space_2 a b = a == 0xc2 && (b == 0x85 || b == 0xa0)

-- U+1680, U+2000 to U+200A, U+2028, U+2029, U+202F, U+205F and U+3000.
abbrev is_space_3 : ℕ → ℕ → ℕ → Bool
is_space_3 a b c =
    a == 0xe1 && b == 0x9a && c == 0x80
    || a == 0xe2 && b == 0x80 && (leb 0x80 c && leb c 0x8a || c == 0xa8 || c == 0xa9 || c == 0xaf)
    || a == 0xe2 && b == 0x81 && c == 0x9f
    || a == 0xe3 && b == 0x80 && c == 0x80

-- The text behind one whitespace character.
unfoldable pub skip_space : Text → Option Text
skip_space [] = none
skip_space (a ∷ []) = if is_ascii_space a then some [] else none
skip_space (a ∷ b ∷ []) =
    if is_ascii_space a then some (b ∷ []) else if is_space_2 a b then some [] else none
skip_space (a ∷ b ∷ c ∷ s) =
    if is_ascii_space a
    then some (b ∷ c ∷ s)
    else if is_space_2 a b
    then some (c ∷ s)
    else if is_space_3 a b c
    then some s
    else none

unfoldable pub trim_from : ℕ → Text → Text
trim_from zero s = s
trim_from (suc fuel) s = elim (skip_space s) [ none ↦ s | some rest ↦ trim_from fuel rest ]

-- Each round takes a byte at least, so the length is fuel enough.
unfoldable pub trim_start : Text → Text
trim_start s = trim_from (length s) s

unfoldable pub trim_end : Text → Text
trim_end [] = []
trim_end (b ∷ s) = let rest = trim_end s in if is_empty (trim_start (b ∷ s)) then [] else b ∷ rest

unfoldable pub trim : Text → Text
trim s = trim_end (trim_start s)

-- Printable ASCII other than the space.
abbrev pub IsVisible : ℕ → Type 0
IsVisible b = (0x21 ≤ b) × (b < 0x80)

skip_space_visible : (b : ℕ) (s : Text) → IsVisible b → skip_space (b ∷ s) ≡ none
unfolding skip_space
skip_space_visible b [] h = ground arith
skip_space_visible b (c ∷ []) h = ground arith
skip_space_visible b (c ∷ d ∷ s) h = ground arith

trim_start_visible : (b : ℕ) (s : Text) → IsVisible b → trim_start (b ∷ s) ≡ b ∷ s
unfolding trim_start trim_from
trim_start_visible b s h = rw (skip_space_visible b s h, trim_from)

trim_end_visible : (s : Text) → All IsVisible s → trim_end s ≡ s
unfolding trim_end
trim_end_visible [] h = refl
trim_end_visible (b ∷ s) h = rw (trim_start_visible b s h.0, trim_end_visible s h.1)

-- Nothing is trimmed from a text of visible ASCII.
pub trim_visible : (s : Text) → All IsVisible s → trim s ≡ s
unfolding trim trim_end trim_start trim_from
trim_visible [] h = refl
trim_visible (b ∷ s) h = ap trim_end (trim_start_visible b s h.0) ∙ trim_end_visible (b ∷ s) h
