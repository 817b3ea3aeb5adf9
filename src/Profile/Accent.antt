-- ===== src/Profile/Accent.antt =====
-- The canonical form of an accent colour.
use wire_app.Common.{
  ◌+◌, subst, ℕ, suc, ◌≡◌, refl, ap, ◌∙◌, true, false, ◌&&◌, ◌||◌, List, [], ◌∷◌, none, some, arith,
  Text, strip_prefix, Bool-cases, Option-cases, inl, inr, leb, length, all, map, All,
}
use wire_app.Common.Whitespace.{trim, IsVisible, trim_visible}
use wire_app.Profile.{
  is_ascii_hexdigit, to_ascii_uppercase, doubled, or_self, hash_sign, expand_hex,
  sanitize_accent_color,
}

-- `0` to `9` or `A` to `F`.
abbrev pub IsUpperHex : ℕ → Type 0
IsUpperHex b = (leb b'0' b && leb b b'9' || leb b'A' b && leb b b'F') ≡ true

-- `#` and six digits, in capitals.
pub data IsCanonical : Text → Type 0 where
  canonical : {s : Text} → length s ≡ 6 → All IsUpperHex s → IsCanonical (b'#' ∷ s)

uppercase-IsUpperHex : (b : ℕ) → is_ascii_hexdigit b ≡ true → IsUpperHex (to_ascii_uppercase b)
uppercase-IsUpperHex b h = ground arith

map-uppercase-IsUpperHex :
    (s : Text) → all is_ascii_hexdigit s ≡ true → All IsUpperHex (map to_ascii_uppercase s)
map-uppercase-IsUpperHex [] h = tt
map-uppercase-IsUpperHex (b ∷ s) h = elim (Bool-cases (is_ascii_hexdigit b)) [
  | inl e ↦ (uppercase-IsUpperHex b e, map-uppercase-IsUpperHex s (rw e at h))
  | inr e ↦ absurd (let f : false ≡ true = rw e at h in cc)
]

length-map {ℓ κ} :
    {A : Type ℓ} {B : Type κ} (f : A → B) (xs : List A) → length (map f xs) ≡ length xs
length-map f [] = refl
length-map f (x ∷ xs) = ap suc (length-map f xs)

all-doubled : (s : Text) → all is_ascii_hexdigit s ≡ true → all is_ascii_hexdigit (doubled s) ≡ true
all-doubled [] h = refl
all-doubled (b ∷ s) h = ground (arith, all-doubled s)

length-doubled : (s : Text) → length (doubled s) ≡ length s + length s
length-doubled [] = omega arith
length-doubled (b ∷ s) = omega (arith, length-doubled s)

expand_hex_lem :
    (hex t : Text) → expand_hex hex ≡ some t → (length t ≡ 6) × (all is_ascii_hexdigit t ≡ true)
unfolding expand_hex
expand_hex_lem hex t h = ground (arith, length-doubled hex, all-doubled hex)

-- Whatever is accepted comes out as `#` and six hexadecimal digits in capitals.
pub sanitize_accent_color-IsCanonical :
    (raw c : Text) → sanitize_accent_color raw ≡ some c → IsCanonical c
unfolding sanitize_accent_color
sanitize_accent_color-IsCanonical raw c e =
    elim (Option-cases (expand_hex (or_self (strip_prefix hash_sign (trim raw)) (trim raw)))) [
      | inl no_hex ↦ absurd (let f : none ≡ some c = rw (no_hex, sanitize_accent_color) at e in cc)
      | inr (t, hex) ↦
          let f : some (b'#' ∷ map to_ascii_uppercase t) ≡ some c =
            rw (hex, sanitize_accent_color) at e in
          let (six, digits) = expand_hex_lem _ t hex in
          let shape : IsCanonical (b'#' ∷ map to_ascii_uppercase t) =
            canonical (length-map to_ascii_uppercase t ∙ six) (map-uppercase-IsUpperHex t digits) in
          let g : b'#' ∷ map to_ascii_uppercase t ≡ c = cc f in subst IsCanonical g shape
    ]

IsUpperHex-IsVisible : (s : Text) → All IsUpperHex s → All IsVisible s
IsUpperHex-IsVisible [] h = tt
IsUpperHex-IsVisible (b ∷ s) h = (ground arith, IsUpperHex-IsVisible s h.1)

all-IsUpperHex : (s : Text) → All IsUpperHex s → all is_ascii_hexdigit s ≡ true
all-IsUpperHex [] h = refl
all-IsUpperHex (b ∷ s) h = ground (arith, all-IsUpperHex s)

map-IsUpperHex : (s : Text) → All IsUpperHex s → map to_ascii_uppercase s ≡ s
map-IsUpperHex [] h = refl
map-IsUpperHex (b ∷ s) h = ground (arith, map-IsUpperHex s)

-- A canonical colour is accepted as it stands.
pub sanitize_accent_color-canonical : (c : Text) → IsCanonical c → sanitize_accent_color c ≡ some c
unfolding sanitize_accent_color expand_hex strip_prefix
sanitize_accent_color-canonical c (canonical {s} six digits) =
    let visible =
      trim_visible (b'#' ∷ s) ((omega arith, omega arith), IsUpperHex-IsVisible s digits) in
    rw (visible, sanitize_accent_color)
      (rw (six, all-IsUpperHex s digits, expand_hex) (rw (map-IsUpperHex s digits)))

-- Checking an accepted colour again accepts it unchanged.
pub sanitize_accent_color_idem :
    (raw c : Text) → sanitize_accent_color raw ≡ some c → sanitize_accent_color c ≡ some c
sanitize_accent_color_idem raw c e =
    sanitize_accent_color-canonical c (sanitize_accent_color-IsCanonical raw c e)
