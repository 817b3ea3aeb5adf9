-- ===== src/Colour/Frames.antt =====
-- Frames of blocks of one colour, in NV12 and back.
use wire_app.Common.{
  ℕ, ◌*◌, ◌/◌, ◌≤◌, ◌≡◌, refl, sym, subst, arith, true, leb, List, [], ◌∷◌, map, length, Option,
  none, some, All,
}
use wire_app.Common.Tests.{le→leb}
use wire_app.Colour.{Pixel, luma_row, block_rows, uv_plane, in_room, bgra_to_nv12, nv12_to_rgba}
use wire_app.Colour.Pixels.{AreBytes}
use wire_app.Colour.Rows.{
  doubled, Restored, lumas, chromas, backs, luma_row-doubled, uv_row-doubled, rgba_row-backs,
  backs-Restored,
}

-- A picture at twice its size, as rows of BGRA bytes.
abbrev pub enlarged : List (List Pixel) → List (List ℕ)
enlarged [] = []
enlarged (ps ∷ rows) = doubled ps ∷ doubled ps ∷ enlarged rows

-- Each row comes back twice.
pub data RestoredRows : List (List Pixel) → List (List ℕ) → Type 0 where
  no_row : RestoredRows [] []
  two_rows :
      (ps : List Pixel) (row : List ℕ) {rows : List (List Pixel)} {out : List (List ℕ)}
      → Restored ps row
      → RestoredRows rows out
      → RestoredRows (ps ∷ rows) (row ∷ row ∷ out)

abbrev luma_rows : List (List Pixel) → List (List ℕ)
luma_rows [] = []
luma_rows (ps ∷ rows) = lumas ps ∷ lumas ps ∷ luma_rows rows

abbrev chroma_rows : List (List Pixel) → List (List ℕ)
chroma_rows [] = []
chroma_rows (ps ∷ rows) = chromas ps ∷ chroma_rows rows

abbrev back_rows : List (List Pixel) → List (List ℕ)
back_rows [] = []
back_rows (ps ∷ rows) = backs ps ∷ backs ps ∷ back_rows rows

map-luma_row : (rows : List (List Pixel)) → map luma_row (enlarged rows) ≡ luma_rows rows
map-luma_row [] = refl
map-luma_row (ps ∷ rows) = rw (luma_row-doubled ps, map-luma_row rows) refl

uv_plane-enlarged : (rows : List (List Pixel)) → uv_plane (enlarged rows) ≡ some (chroma_rows rows)
unfolding uv_plane
uv_plane-enlarged [] = refl
uv_plane-enlarged (ps ∷ rows) = rw (uv_row-doubled ps, uv_plane-enlarged rows) refl

length-enlarged :
    (rows : List (List Pixel)) → length (enlarged rows) ≡ 2 * length (chroma_rows rows)
length-enlarged [] = refl
length-enlarged (ps ∷ rows) = omega (arith, length-enlarged rows)

half_of : (w n : ℕ) → leb (w * n) (w * (2 * n) / 2) ≡ true
half_of w n = ground arith

half : (w n m : ℕ) → m ≡ 2 * n → leb (w * n) (w * m / 2) ≡ true
half w n m e = subst (λ k. leb (w * n) (w * k / 2) ≡ true) (sym e) (half_of w n)

block_rows-back :
    (rows : List (List Pixel))
    → block_rows (luma_rows rows) (chroma_rows rows) ≡ some (back_rows rows)
unfolding block_rows
block_rows-back [] = refl
block_rows-back (ps ∷ rows) = rw (rgba_row-backs ps, block_rows-back rows) refl

nv12_to_rgba-back :
    (width : ℕ) (rows : List (List Pixel))
    → 1 ≤ width
    → nv12_to_rgba width (luma_rows rows) (chroma_rows rows) ≡ some (back_rows rows)
unfolding nv12_to_rgba
nv12_to_rgba-back width rows h = rw (le→leb 1 width h) (block_rows-back rows)

back-RestoredRows :
    (rows : List (List Pixel)) → All (All AreBytes) rows → RestoredRows rows (back_rows rows)
back-RestoredRows [] h = no_row
back-RestoredRows (ps ∷ rows) h =
    two_rows ps (backs ps) (backs-Restored ps h.0) (back-RestoredRows rows h.1)

bgra_to_nv12-enlarged :
    (width : ℕ) (rows : List (List Pixel))
    → bgra_to_nv12 width (enlarged rows) ≡ some (luma_rows rows, chroma_rows rows)
unfolding bgra_to_nv12 in_room
bgra_to_nv12-enlarged width rows =
    rw
      (
        uv_plane-enlarged rows,
        map-luma_row rows,
        half width (length (chroma_rows rows)) (length (enlarged rows)) (length-enlarged rows),
      )
      refl

-- Both conversions on a frame.
unfoldable pub round_trip : ℕ → List (List ℕ) → Option (List (List ℕ))
unfolding bgra_to_nv12 nv12_to_rgba
round_trip width frame = elim (bgra_to_nv12 width frame) [
  | none ↦ none
  | some planes ↦ nv12_to_rgba width planes.0 planes.1
]

pub data Back (rows : List (List Pixel)) : Option (List (List ℕ)) → Type 0 where
  back_again : {out : List (List ℕ)} → RestoredRows rows out → Back rows (some out)

-- A frame of width one or more, in which each pixel of a picture fills two by two pixels, goes to NV12 and back
-- without a panic: it has its shape again, each red, green and blue is off by four at most, and it is
-- opaque. The colours of the picture are bytes.
pub round_trip-Back :
    (width : ℕ) (rows : List (List Pixel))
    → 1 ≤ width
    → All (All AreBytes) rows
    → Back rows (round_trip width (enlarged rows))
unfolding round_trip
round_trip-Back width rows w h =
    rw (bgra_to_nv12-enlarged width rows, round_trip)
      (rw (nv12_to_rgba-back width rows w) (back_again (back-RestoredRows rows h)))
