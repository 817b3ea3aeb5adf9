-- ===== src/Profile/Base64.antt =====
-- `base64_encode` and `base64_decode` of wire-app/src/profile.rs, which carry the avatar in the answer to a
-- request for a profile. A string is its characters, as code points. Where the source has `|`, the bits of
-- the operands are disjoint, and the model adds.
pub mod RoundTrip
use wire_app.Common.{
  ℕ, ◌+◌, ◌-◌, ◌*◌, ◌/◌, ◌%◌, ◌^◌, Bool, ◌&&◌, ◌||◌, List, [], ◌∷◌, ◌++◌, Option, none, some, Text,
  text, ltb, leb, ◌==◌, if◌then◌else◌,
}

abbrev pub alphabet : Text
alphabet = text "ABCDEFGHIJKLMNOPQRSTUVWXYZabcdefghijklmnopqrstuvwxyz0123456789+/"

-- `ALPHABET[n]`; all indices are below 64.
abbrev pub symbol_of : Text → ℕ → ℕ
symbol_of [] n = 0
symbol_of (c ∷ cs) n = if n == 0 then c else symbol_of cs (n - 1)

unfoldable pub symbol : ℕ → ℕ
symbol n = symbol_of alphabet n

abbrev pub triple : ℕ → ℕ → ℕ → ℕ
triple b0 b1 b2 = b0 * 65_536 + b1 * 256 + b2

unfoldable pub base64_encode : List ℕ → List ℕ
unfolding symbol
base64_encode [] = []
base64_encode (b0 ∷ []) =
    let t = triple b0 0 0 in symbol (t / 262_144 % 64) ∷ symbol (t / 4_096 % 64) ∷ b'=' ∷ b'=' ∷ []
base64_encode (b0 ∷ b1 ∷ []) =
    let t = triple b0 b1 0 in
    symbol (t / 262_144 % 64) ∷ symbol (t / 4_096 % 64) ∷ symbol (t / 64 % 64) ∷ b'=' ∷ []
base64_encode (b0 ∷ b1 ∷ b2 ∷ bytes) =
    let t = triple b0 b1 b2 in
    symbol (t / 262_144 % 64)
    ∷ symbol (t / 4_096 % 64)
    ∷ symbol (t / 64 % 64)
    ∷ symbol (t % 64)
    ∷ base64_encode bytes

-- The code points of Unicode's `White_Space`.
abbrev pub is_whitespace : ℕ → Bool
is_whitespace c =
    leb 9 c && leb c 13
    || c == 32
    || c == 133
    || c == 160
    || c == 5_760
    || leb 8_192 c && leb c 8_202
    || c == 8_232
    || c == 8_233
    || c == 8_239
    || c == 8_287
    || c == 12_288

-- What a character is to the decoder.
pub data CharValue : Type 0 where
  digit : ℕ → CharValue
  padding space invalid : CharValue

unfoldable pub char_value : ℕ → CharValue
char_value c =
    if leb b'A' c && leb c b'Z'
    then digit (c - b'A')
    else if leb b'a' c && leb c b'z'
    then digit (c - b'a' + 26)
    else if leb b'0' c && leb c b'9'
    then digit (c - b'0' + 52)
    else if c == b'+'
    then digit 62
    else if c == b'/'
    then digit 63
    else if c == b'='
    then padding
    else if is_whitespace c
    then space
    else invalid

-- `buffer` and `bits`.
pub record Decoder : Type 0 where
  pub buffer : ℕ
  pub bits : ℕ

-- What a digit adds to the output, and the decoder after it.
unfoldable pub shift_in : ℕ → Decoder → List ℕ × Decoder
shift_in value d =
    let buffer = d.buffer * 64 % 2 ^ 32 + value in
    let bits = d.bits + 6 in
    if leb 8 bits
    then (
      buffer / 2 ^ (bits - 8) % 256 ∷ [],
      record { buffer = if ltb 0 (bits - 8) then buffer % 2 ^ (bits - 8) else 0; bits = bits - 8 },
    )
    else ([], record { buffer = buffer; bits = bits })

abbrev pub with_output : List ℕ → Option (List ℕ) → Option (List ℕ)
with_output out none = none
with_output out (some more) = some (out ++ more)

-- The loop; none for its error.
unfoldable pub decode_from : Decoder → List ℕ → Option (List ℕ)
unfolding shift_in char_value
decode_from d [] = some []
decode_from d (c ∷ input) = elim (char_value c) [
  | digit v ↦ let next = shift_in v d in with_output next.0 (decode_from next.1 input)
  | padding ↦ some []
  | space ↦ decode_from d input
  | invalid ↦ none
]

unfoldable pub base64_decode : List ℕ → Option (List ℕ)
unfolding decode_from
base64_decode input = decode_from (record { buffer = 0; bits = 0 }) input
