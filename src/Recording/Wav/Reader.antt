-- ===== src/Recording/Wav/Reader.antt =====
-- A reader of canonical WAV files, independent of the writer: it finds each field by its place, and
-- takes as many bytes of samples as the header says.
use wire_app.Common.{
  ℕ, ◌+◌, ◌*◌, ◌/◌, ◌%◌, ◌<◌, ◌≡◌, refl, arith, Bool, true, false, ◌&&◌, ◌==◌, leb, if◌then◌else◌,
  List, [], ◌∷◌, map, Option, none, some, length, take, drop,
}
use wire_app.Recording.Wav.{to_le_bytes, pcm}

unfoldable pub from_le_bytes : List ℕ → ℕ
from_le_bytes [] = 0
from_le_bytes (b ∷ bs) = b + 256 * from_le_bytes bs

abbrev pub field : ℕ → ℕ → List ℕ → List ℕ
field at size bytes = take size (drop at bytes)

abbrev pub number : ℕ → ℕ → List ℕ → ℕ
number at size bytes = from_le_bytes (field at size bytes)

abbrev pub same : List ℕ → List ℕ → Bool
same [] [] = true
same [] (y ∷ ys) = false
same (x ∷ xs) [] = false
same (x ∷ xs) (y ∷ ys) = (x == y) && same xs ys

pub record Wav : Type 0 where
  pub channels : ℕ
  pub sample_rate : ℕ
  pub bits_per_sample : ℕ
  pub samples : List ℕ

-- Two bytes for a sample, the low one first.
unfoldable pub pairs : List ℕ → List ℕ
pairs [] = []
pairs (a ∷ []) = []
pairs (a ∷ b ∷ bytes) = (a + 256 * b) ∷ pairs bytes

abbrev pub is_canonical : List ℕ → Bool
is_canonical b =
    same (field 0 4 b) (82 ∷ 73 ∷ 70 ∷ 70 ∷ [])
    && same (field 8 4 b) (87 ∷ 65 ∷ 86 ∷ 69 ∷ [])
    && same (field 12 4 b) (102 ∷ 109 ∷ 116 ∷ 32 ∷ [])
    && (number 16 4 b == 16)
    && (number 20 2 b == 1)
    && (number 28 4 b == number 24 4 b * number 22 2 b * (number 34 2 b / 8))
    && (number 32 2 b == number 22 2 b * (number 34 2 b / 8))
    && same (field 36 4 b) (100 ∷ 97 ∷ 116 ∷ 97 ∷ [])
    && (number 4 4 b == number 40 4 b + 36)
    && leb (number 40 4 b + 44) (length b)

unfoldable pub read_wav : List ℕ → Option Wav
unfolding from_le_bytes pairs
read_wav b =
    if is_canonical b
    then some (record {
      channels = number 22 2 b;
      sample_rate = number 24 4 b;
      bits_per_sample = number 34 2 b;
      samples = pairs (field 44 (number 40 4 b) b);
    })
    else none

pub from_le_bytes-to_le_bytes : (n : ℕ) → n < 4_294_967_296 → from_le_bytes (to_le_bytes 4 n) ≡ n
unfolding from_le_bytes to_le_bytes
from_le_bytes-to_le_bytes n h = omega arith

module _ {Sample : Type 0} (sample_to_i16 : Sample → ℕ) where
  pub length-pcm : (ss : List Sample) → length (pcm sample_to_i16 ss) ≡ 2 * length ss
  unfolding pcm to_le_bytes
  length-pcm [] = refl
  length-pcm (s ∷ ss) = omega (arith, length-pcm ss)

  -- The samples are read back where they have 16 bits.
  pub pairs-pcm :
      ((s : Sample) → sample_to_i16 s < 65_536)
      → (ss : List Sample) → pairs (pcm sample_to_i16 ss) ≡ map sample_to_i16 ss
  unfolding pairs pcm to_le_bytes
  pairs-pcm h [] = refl
  pairs-pcm h (s ∷ ss) =
      let low : sample_to_i16 s % 256 + 256 * (sample_to_i16 s / 256 % 256) ≡ sample_to_i16 s =
        omega (arith, h s) in
      rw (low, pairs-pcm h ss) refl
