-- ===== src/Colour.antt =====
-- wire-app/src/yuv_convert.rs, as it is built for other systems than Windows: BGRA to NV12 and back.
-- Bytes are natural numbers. A sum in `i32` here stays far from its bounds for bytes.
pub mod Pixels
pub mod Rows
pub mod Frames
mod Tests
use wire_app.Common.{
  ℕ, ◌+◌, ◌-◌, ◌*◌, ◌/◌, min, leb, if◌then◌else◌, List, [], ◌∷◌, map, length, Option, none, some,
}
use wire_app.Common.Int.{ℤ, pos, negsuc, pos_part, sub_ℕ}

-- `>> n` on `i32` rounds down, and the divisor is `2 ^ n`.
abbrev pub shifted : ℤ → ℕ → ℤ
shifted (pos n) m = pos (n / m)
shifted (negsuc n) m = negsuc (n / m)

-- `clamp(0, 255) as u8`.
abbrev pub clamped : ℤ → ℕ
clamped z = min (pos_part z) 255

abbrev pub plus : ℤ → ℕ → ℤ
plus (pos n) k = pos (n + k)
plus (negsuc n) k = sub_ℕ k (n + 1)

unfoldable pub luma : ℕ → ℕ → ℕ → ℕ
luma r g b = clamped (plus (shifted (pos (47 * r + 157 * g + 16 * b + 128)) 256) 16)

unfoldable pub chroma_u : ℕ → ℕ → ℕ → ℕ
chroma_u r g b = clamped (plus (shifted (sub_ℕ (112 * b + 128) (26 * r + 87 * g)) 256) 128)

unfoldable pub chroma_v : ℕ → ℕ → ℕ → ℕ
chroma_v r g b = clamped (plus (shifted (sub_ℕ (112 * r + 128) (102 * g + 10 * b)) 256) 128)

-- Back: `1836 * v` and the others are taken from the byte less 128, `1192 * (y - 16)` from the luma.
unfoldable pub red : ℕ → ℕ → ℕ → ℕ
red y u v = clamped (shifted (sub_ℕ (1_192 * y + 1_836 * v) (1_192 * 16 + 1_836 * 128)) 1_024)

unfoldable pub green : ℕ → ℕ → ℕ → ℕ
green y u v =
    clamped
      (shifted (sub_ℕ (1_192 * y + 218 * 128 + 546 * 128) (1_192 * 16 + 218 * u + 546 * v)) 1_024)

unfoldable pub blue : ℕ → ℕ → ℕ → ℕ
blue y u v = clamped (shifted (sub_ℕ (1_192 * y + 2_163 * u) (1_192 * 16 + 2_163 * 128)) 1_024)

-- The bytes of one pixel.
pub record Pixel : Type 0 where
  pub r : ℕ
  pub g : ℕ
  pub b : ℕ

-- A row of BGRA bytes as luma bytes.
unfoldable pub luma_row : List ℕ → List ℕ
unfolding luma
luma_row (b ∷ g ∷ r ∷ a ∷ row) = luma r g b ∷ luma_row row
luma_row rest = []

abbrev pub quarter : ℕ → ℕ → ℕ → ℕ → ℕ
quarter a b c d = (a + b + c + d) / 4

-- `avg_rgb` of the two by two block at the front of two rows.
unfoldable pub avg_rgb : Pixel → Pixel → Pixel → Pixel → Pixel
avg_rgb p q p' q' = record {
  r = quarter p.r q.r p'.r q'.r;
  g = quarter p.g q.g p'.g q'.g;
  b = quarter p.b q.b p'.b q'.b;
}

abbrev pub with_block : Pixel → Option (List ℕ) → Option (List ℕ)
with_block p none = none
with_block p (some uv) = some (chroma_u p.r p.g p.b ∷ chroma_v p.r p.g p.b ∷ uv)

-- Two rows of BGRA bytes as a row of chroma bytes; none where an index would be out of range, as in a row of
-- an odd width.
unfoldable pub uv_row : List ℕ → List ℕ → Option (List ℕ)
unfolding chroma_u chroma_v avg_rgb
uv_row (b ∷ g ∷ r ∷ a ∷ b1 ∷ g1 ∷ r1 ∷ a1 ∷ row) (c ∷ h ∷ s ∷ d ∷ c1 ∷ h1 ∷ s1 ∷ d1 ∷ row') =
    with_block
      (avg_rgb (record { r = r; g = g; b = b }) (record { r = r1; g = g1; b = b1 })
        (record { r = s; g = h; b = c }) (record { r = s1; g = h1; b = c1 }))
      (uv_row row row')
uv_row [] row' = some []
uv_row row row' = none

abbrev pub with_pixels : ℕ → ℕ → ℕ → ℕ → Option (List ℕ) → Option (List ℕ)
with_pixels y y1 u v none = none
with_pixels y y1 u v (some out) = some (
    red y u v
    ∷ green y u v
    ∷ blue y u v
    ∷ 255
    ∷ red y1 u v
    ∷ green y1 u v
    ∷ blue y1 u v
    ∷ 255
    ∷ out)

-- A row of luma bytes with its row of chroma bytes as RGBA bytes.
unfoldable pub rgba_row : List ℕ → List ℕ → Option (List ℕ)
unfolding red green blue
rgba_row (y ∷ y1 ∷ ys) (u ∷ v ∷ uv) = with_pixels y y1 u v (rgba_row ys uv)
rgba_row [] uv = some []
rgba_row ys uv = none

abbrev pub cons_row : Option (List ℕ) → Option (List (List ℕ)) → Option (List (List ℕ))
cons_row none rows = none
cons_row (some row) none = none
cons_row (some row) (some rows) = some (row ∷ rows)

-- The loop over every second row; a last row without a partner is its own.
unfoldable pub uv_plane : List (List ℕ) → Option (List (List ℕ))
unfolding uv_row
uv_plane [] = some []
uv_plane (row ∷ []) = cons_row (uv_row row row) (some [])
uv_plane (row ∷ row' ∷ rows) = cons_row (uv_row row row') (uv_plane rows)

-- The chroma plane has room for half as many bytes as there are pixels.
unfoldable pub in_room :
    ℕ → ℕ → List (List ℕ) → Option (List (List ℕ)) → Option (List (List ℕ) × List (List ℕ))
in_room width height ys none = none
in_room width height ys (some uv) =
    if leb (width * length uv) (width * height / 2) then some (ys, uv) else none

-- `bgra_to_nv12` of the rows of a frame: the rows of the two planes, or none for a panic.
unfoldable pub bgra_to_nv12 : ℕ → List (List ℕ) → Option (List (List ℕ) × List (List ℕ))
unfolding in_room uv_plane luma_row
bgra_to_nv12 width rows = in_room width (length rows) (map luma_row rows) (uv_plane rows)

-- The loop over blocks of two rows of luma, each with its row of chroma.
unfoldable pub block_rows : List (List ℕ) → List (List ℕ) → Option (List (List ℕ))
unfolding rgba_row
block_rows [] uvs = some []
block_rows (y ∷ []) (uv ∷ uvs) = cons_row (rgba_row y uv) (some [])
block_rows (y ∷ y' ∷ ys) (uv ∷ uvs) =
    cons_row (rgba_row y uv) (cons_row (rgba_row y' uv) (block_rows ys uvs))
block_rows (y ∷ ys) [] = none

-- `nv12_to_rgba` of the rows of the planes; `chunks_mut` of no bytes panics.
unfoldable pub nv12_to_rgba : ℕ → List (List ℕ) → List (List ℕ) → Option (List (List ℕ))
unfolding block_rows
nv12_to_rgba width ys uvs = if leb 1 width then block_rows ys uvs else none
