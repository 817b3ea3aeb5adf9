-- ===== src/Colour/Tests.antt =====
-- Colours at concrete inputs.
use wire_app.Common.{◌≡◌, refl, arith, List, [], ◌∷◌, none}
use wire_app.Colour.{Pixel, luma, chroma_u, bgra_to_nv12}
use wire_app.Colour.Frames.{enlarged, round_trip, Back, round_trip-Back}

abbrev colours : List (List Pixel)
colours =
    (record { r = 255; g = 255; b = 255 } ∷ record { r = 200; g = 30; b = 7 } ∷ [])
    ∷ (record { r = 0; g = 0; b = 0 } ∷ record { r = 255; g = 255; b = 0 } ∷ [])
    ∷ []

white : luma 255 255 255 ≡ 235
unfolding luma
white = refl

-- The weights of `u` sum to -1: white has 127, and yellow leaves the limited range.
yellow : (chroma_u 255 255 255 ≡ 127) × (chroma_u 255 255 0 ≡ 15)
unfolding chroma_u
yellow = (refl, refl)

-- Of an odd height the last row of chroma has no room.
odd_height : bgra_to_nv12 2 ((0 ∷ 0 ∷ 0 ∷ 255 ∷ 0 ∷ 0 ∷ 0 ∷ 255 ∷ []) ∷ []) ≡ none
unfolding bgra_to_nv12
odd_height = refl

round_trip-Back_example : Back colours (round_trip 4 (enlarged colours))
round_trip-Back_example = round_trip-Back 4 colours (omega arith) (
  ((omega arith, omega arith, omega arith), ((omega arith, omega arith, omega arith), tt)),
  (((omega arith, omega arith, omega arith), ((omega arith, omega arith, omega arith), tt)), tt),
)
