-- ===== src/Colour/Rows.antt =====
-- Rows of blocks of one colour, in NV12 and back.
use wire_app.Common.{ℕ, ◌≡◌, refl, ap, arith, List, [], ◌∷◌, some, All}
use wire_app.Colour.{
  luma, chroma_u, chroma_v, Pixel, luma_row, quarter, avg_rgb, with_block, uv_row, with_pixels,
  rgba_row,
}
use wire_app.Colour.Pixels.{AreBytes, Near, back, red-back, green-back, blue-back}

-- A row in which each colour stands twice, as BGRA bytes.
abbrev pub doubled : List Pixel → List ℕ
doubled [] = []
doubled (p ∷ ps) = p.b ∷ p.g ∷ p.r ∷ 255 ∷ p.b ∷ p.g ∷ p.r ∷ 255 ∷ doubled ps

-- RGBA bytes in which each colour stands twice, close to what it was, and opaque.
pub data Restored : List Pixel → List ℕ → Type 0 where
  no_more : Restored [] []
  two_pixels :
      (p q : Pixel) {ps : List Pixel} {out : List ℕ}
      → Near 4 p.r q.r
      → Near 4 p.g q.g
      → Near 4 p.b q.b
      → Restored ps out
      → Restored (p ∷ ps) (q.r ∷ q.g ∷ q.b ∷ 255 ∷ q.r ∷ q.g ∷ q.b ∷ 255 ∷ out)

abbrev pub lumas : List Pixel → List ℕ
lumas [] = []
lumas (p ∷ ps) = luma p.r p.g p.b ∷ luma p.r p.g p.b ∷ lumas ps

abbrev pub chromas : List Pixel → List ℕ
chromas [] = []
chromas (p ∷ ps) = chroma_u p.r p.g p.b ∷ chroma_v p.r p.g p.b ∷ chromas ps

abbrev pub backs : List Pixel → List ℕ
backs [] = []
backs (p ∷ ps) = let q = back p in q.r ∷ q.g ∷ q.b ∷ 255 ∷ q.r ∷ q.g ∷ q.b ∷ 255 ∷ backs ps

pub luma_row-doubled : (ps : List Pixel) → luma_row (doubled ps) ≡ lumas ps
unfolding luma_row
luma_row-doubled [] = refl
luma_row-doubled (p ∷ ps) = ap (λ t. luma p.r p.g p.b ∷ luma p.r p.g p.b ∷ t) (luma_row-doubled ps)

four : (n : ℕ) → quarter n n n n ≡ n
four n = omega arith

avg_rgb_same : (p : Pixel) → avg_rgb p p p p ≡ p
unfolding avg_rgb
avg_rgb_same p = rw (four p.r, four p.g, four p.b) refl

pub uv_row-doubled : (ps : List Pixel) → uv_row (doubled ps) (doubled ps) ≡ some (chromas ps)
unfolding uv_row
uv_row-doubled [] = refl
uv_row-doubled (p ∷ ps) = rw (avg_rgb_same p) (ap (with_block p) (uv_row-doubled ps))

pub rgba_row-backs : (ps : List Pixel) → rgba_row (lumas ps) (chromas ps) ≡ some (backs ps)
unfolding rgba_row
rgba_row-backs [] = refl
rgba_row-backs (p ∷ ps) =
    ap
      (with_pixels (luma p.r p.g p.b) (luma p.r p.g p.b) (chroma_u p.r p.g p.b)
        (chroma_v p.r p.g p.b))
      (rgba_row-backs ps)

pub backs-Restored : (ps : List Pixel) → All AreBytes ps → Restored ps (backs ps)
backs-Restored [] h = no_more
backs-Restored (p ∷ ps) h =
    two_pixels p (back p) (red-back p h.0) (green-back p h.0) (blue-back p h.0)
      (backs-Restored ps h.1)
