-- ===== src/Video/Bitstream.antt =====
-- wire/src/video/bitstream.rs: H.264 access units with Annex B start codes or with four-byte AVCC
-- lengths. The index of a loop is modelled by the bytes from it on, so that `i + 4 <= len` reads
-- `4 ≤ length s`. A loop's fuel is the length of the input, which each round shortens.
pub mod Avcc
use Prim.Native.Nat.{bit_and}
use wire_app.Common.{
  ℕ, zero, suc, Bool, true, false, ◌||◌, List, [], ◌∷◌, ◌++◌, Option, none, some, Text,
  strip_prefix, ltb, leb, ◌==◌, if◌then◌else◌, length, is_empty, take, drop, any,
}
use wire_app.Common.Bytes.{from_be_bytes}

abbrev starts_with : Text → Text → Bool
starts_with p s = elim (strip_prefix p s) [ none ↦ false | some _ ↦ true ]

-- `data.windows(p.len()).any(|w| w == p)` for a window `p` that is not empty.
unfoldable pub has_window : Text → List ℕ → Bool
unfolding strip_prefix
has_window p [] = false
has_window p (b ∷ bs) = starts_with p (b ∷ bs) || has_window p bs

abbrev long_code : List ℕ
long_code = 0 ∷ 0 ∷ 0 ∷ 1 ∷ []

abbrev short_code : List ℕ
short_code = 0 ∷ 0 ∷ 1 ∷ []

unfoldable pub has_annex_b_start_code : List ℕ → Bool
unfolding has_window
has_annex_b_start_code s = has_window long_code s || has_window short_code s

-- The low five bits of the first byte.
abbrev nal_type : List ℕ → Option ℕ
nal_type [] = none
nal_type (b ∷ bs) = some (bit_and b 0x1f)

-- The type of the unit whose start code stands at the head.
nal_type_at : List ℕ → Option ℕ
unfolding strip_prefix
nal_type_at s =
    if starts_with long_code s
    then nal_type (drop 4 s)
    else if starts_with short_code s
    then nal_type (drop 3 s)
    else none

abbrev push_some : Option ℕ → List ℕ → List ℕ
push_some none ts = ts
push_some (some t) ts = t ∷ ts

unfoldable pub annex_b_nal_types : List ℕ → List ℕ
unfolding nal_type_at
annex_b_nal_types [] = []
annex_b_nal_types (b ∷ bs) = push_some (nal_type_at (b ∷ bs)) (annex_b_nal_types bs)

abbrev is_idr_type : Option ℕ → Bool
is_idr_type none = false
is_idr_type (some t) = t == 5

-- The `while` loop of `contains_idr`.
unfoldable pub avcc_idr : ℕ → List ℕ → Bool
avcc_idr zero s = false
avcc_idr (suc fuel) s =
    let len = from_be_bytes (take 4 s) in
    let s' = drop 4 s in
    let rest = avcc_idr fuel (drop len s') in
    if leb 4 (length s)
    then (if len == 0 || ltb (length s') len
        then false
        else if is_idr_type (nal_type s')
        then true
        else rest)
    else false

unfoldable pub contains_idr : List ℕ → Bool
unfolding has_annex_b_start_code annex_b_nal_types avcc_idr
contains_idr s =
    if has_annex_b_start_code s
    then any (λ t. t == 5) (annex_b_nal_types s)
    else avcc_idr (length s) s

-- The `while` loop of `avcc_to_annex_b`.
unfoldable pub avcc_loop : ℕ → List ℕ → List ℕ → List ℕ
avcc_loop zero s out = out
avcc_loop (suc fuel) s out =
    let len = from_be_bytes (take 4 s) in
    let s' = drop 4 s in
    let rest = avcc_loop fuel (drop len s') (out ++ (long_code ++ take len s')) in
    if leb 4 (length s) then (if len == 0 || ltb (length s') len then out else rest) else out

unfoldable pub avcc_to_annex_b : List ℕ → Option (List ℕ)
avcc_to_annex_b s = let out = avcc_loop (length s) s [] in if is_empty out then none else some out

abbrev or_else : Option (List ℕ) → List ℕ → List ℕ
or_else none s = s
or_else (some out) s = out

unfoldable pub normalize_h264_for_decode : List ℕ → List ℕ
normalize_h264_for_decode s = if has_annex_b_start_code s then s else or_else (avcc_to_annex_b s) s
