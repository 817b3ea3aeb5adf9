-- ===== src/Colour/Pixels.antt =====
-- A pixel in NV12 and back.
use wire_app.Common.{ℕ, ◌+◌, ◌*◌, ◌≤◌, arith}
use wire_app.Colour.{luma, chroma_u, chroma_v, red, green, blue, Pixel}

abbrev pub AreBytes : Pixel → Type 0
AreBytes p = (p.r ≤ 255) × (p.g ≤ 255) × (p.b ≤ 255)

abbrev pub Near : ℕ → ℕ → ℕ → Type 0
Near n a b = (a ≤ b + n) × (b ≤ a + n)

-- Limited range, but for yellow: the weights of `u` sum to -1, so that it can be 15.
pub luma_range : (p : Pixel) → AreBytes p → (16 ≤ luma p.r p.g p.b) × (luma p.r p.g p.b ≤ 235)
unfolding luma
luma_range p h = ground arith

pub chroma_u_range :
    (p : Pixel) → AreBytes p → (15 ≤ chroma_u p.r p.g p.b) × (chroma_u p.r p.g p.b ≤ 240)
unfolding chroma_u
chroma_u_range p h = ground arith

pub chroma_v_range :
    (p : Pixel) → AreBytes p → (16 ≤ chroma_v p.r p.g p.b) × (chroma_v p.r p.g p.b ≤ 240)
unfolding chroma_v
chroma_v_range p h = ground arith

-- The colour that comes back.
abbrev pub back : Pixel → Pixel
back p =
    let y = luma p.r p.g p.b in
    let u = chroma_u p.r p.g p.b in
    let v = chroma_v p.r p.g p.b in record { r = red y u v; g = green y u v; b = blue y u v }

pub red-back : (p : Pixel) → AreBytes p → Near 4 p.r (back p).r
unfolding red luma chroma_u chroma_v
red-back p h = ground arith

green-back_low : (p : Pixel) → AreBytes p → p.g ≤ (back p).g + 4
unfolding green luma chroma_u chroma_v
green-back_low p h = ground arith

-- What rounding leaves of the three sums, as bounds without divisions.
luma_above :
    (p : Pixel) → AreBytes p → 256 * luma p.r p.g p.b ≤ 47 * p.r + 157 * p.g + 16 * p.b + 4_224
unfolding luma
luma_above p h = ground arith

chroma_u_below :
    (p : Pixel) → AreBytes p → 112 * p.b + 32_641 ≤ 256 * chroma_u p.r p.g p.b + 26 * p.r + 87 * p.g
unfolding chroma_u
chroma_u_below p h = ground arith

chroma_v_below :
    (p : Pixel)
    → AreBytes p
    → 112 * p.r + 32_641 ≤ 256 * chroma_v p.r p.g p.b + 102 * p.g + 10 * p.b
unfolding chroma_v
chroma_v_below p h = ground arith

green_above :
    (y u v r g b : ℕ)
    → r ≤ 255
    → g ≤ 255
    → b ≤ 255
    → 256 * y ≤ 47 * r + 157 * g + 16 * b + 4_224
    → 112 * b + 32_641 ≤ 256 * u + 26 * r + 87 * g
    → 112 * r + 32_641 ≤ 256 * v + 102 * g + 10 * b
    → green y u v ≤ g + 4
unfolding green
green_above y u v r g b hr hg hb hy hu hv = ground arith

green-back_high : (p : Pixel) → AreBytes p → (back p).g ≤ p.g + 4
green-back_high p h =
    green_above (luma p.r p.g p.b) (chroma_u p.r p.g p.b) (chroma_v p.r p.g p.b) p.r p.g p.b h.0 h.1
      h.2 (luma_above p h) (chroma_u_below p h) (chroma_v_below p h)

pub green-back : (p : Pixel) → AreBytes p → Near 4 p.g (back p).g
green-back p h = (green-back_low p h, green-back_high p h)

pub blue-back : (p : Pixel) → AreBytes p → Near 4 p.b (back p).b
unfolding blue luma chroma_u chroma_v
blue-back p h = ground arith
