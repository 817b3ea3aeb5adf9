-- ===== src/Profile/Base64/RoundTrip.antt =====
-- Base64 there and back.
use wire_app.Common.{
  ℕ, zero, suc, ◌+◌, ◌*◌, ◌/◌, ◌%◌, ◌<◌, ◌≡◌, refl, sym, ap, subst, inl, inr, Bool, true, false,
  ◌&&◌, ◌==◌, List, [], ◌∷◌, some, arith,
}
use wire_app.Common.Tests.{==_iff, Bool-cases}
use wire_app.Common.Bytes.{AreBytes}
use wire_app.Profile.Base64.{
  symbol, triple, base64_encode, CharValue, digit, padding, space, invalid, char_value, Decoder,
  shift_in, with_output, decode_from, base64_decode,
}

abbrev decoder : ℕ → ℕ → Decoder
decoder buffer bits = record { buffer = buffer; bits = bits }

abbrev reads : ℕ → CharValue → Bool
reads n (digit v) = v == n
reads n other = false

abbrev all_below : ℕ → Bool
all_below zero = true
all_below (suc n) = all_below n && reads n (char_value (symbol n))

all_64 : all_below 64 ≡ true
unfolding char_value symbol
all_64 = refl

both : (a b : Bool) → (a && b) ≡ true → (a ≡ true) × (b ≡ true)
both a b e = ground arith

below : (k n : ℕ) → n < k → all_below k ≡ true → reads n (char_value (symbol n)) ≡ true
below zero n h e = ground arith
below (suc k) n h e =
    let parts = both (all_below k) (reads k (char_value (symbol k))) e in
    elim (Bool-cases (n == k)) [
      | inl p ↦ subst (λ m. reads m (char_value (symbol m)) ≡ true) (sym ((==_iff n k).0 p)) parts.1
      | inr p ↦ below k n (ground arith) parts.0
    ]

reads_digit : (n : ℕ) (r : CharValue) → reads n r ≡ true → r ≡ digit n
reads_digit n (digit v) e = ap digit (omega (arith, (==_iff v n).0 e))
reads_digit n padding e = ground arith
reads_digit n space e = ground arith
reads_digit n invalid e = ground arith

-- The decoder reads each symbol of the encoder as its index.
char_value-symbol : (n : ℕ) → n < 64 → char_value (symbol n) ≡ digit n
char_value-symbol n h = reads_digit n (char_value (symbol n)) (below 64 n h all_64)

-- One symbol through the loop.
decode_symbol :
    (d : Decoder) (n m : ℕ) (input : List ℕ)
    → n ≡ m
    → m < 64
    → decode_from d (symbol n ∷ input)
      ≡ with_output (shift_in m d).0 (decode_from (shift_in m d).1 input)
unfolding decode_from
decode_symbol d n m input e h = rw (e, decode_from, char_value-symbol m h) refl

shifted :
    (value : ℕ) (d : Decoder) (out : List ℕ) (d' : Decoder)
    → shift_in value d ≡ (out, d')
    → (input : List ℕ)
    → with_output (shift_in value d).0 (decode_from (shift_in value d).1 input)
      ≡ with_output out (decode_from d' input)
shifted value d out d' e input = rw e refl

emitted :
    (bits : ℕ) {b b' c c' : ℕ}
    → b ≡ b'
    → c ≡ c'
    → ◌≡◌ {A = List ℕ × Decoder} (b ∷ [], decoder c bits) (b' ∷ [], decoder c' bits)
emitted bits p q = rw (p, q) refl

first : (b0 : ℕ) → b0 < 256 → shift_in (b0 / 4) (decoder 0 0) ≡ ([], decoder (b0 / 4) 6)
unfolding shift_in
first b0 h = ap (λ b. ([], decoder b 6)) (omega arith)

second :
    (b0 b1 : ℕ)
    → b0 < 256
    → b1 < 256
    → shift_in (b0 % 4 * 16 + b1 / 16) (decoder (b0 / 4) 6) ≡ (b0 ∷ [], decoder (b1 / 16) 4)
unfolding shift_in
second b0 b1 h0 h1 = emitted 4 (omega arith) (omega arith)

third :
    (b1 b2 : ℕ)
    → b1 < 256
    → b2 < 256
    → shift_in (b1 % 16 * 4 + b2 / 64) (decoder (b1 / 16) 4) ≡ (b1 ∷ [], decoder (b2 / 64) 2)
unfolding shift_in
third b1 b2 h1 h2 = emitted 2 (omega arith) (omega arith)

fourth : (b2 : ℕ) → b2 < 256 → shift_in (b2 % 64) (decoder (b2 / 64) 2) ≡ (b2 ∷ [], decoder 0 0)
unfolding shift_in
fourth b2 h2 = ap (λ b. (b ∷ [], decoder 0 0)) (omega arith)

-- Of three bytes the first two symbols give the first byte, and each further symbol gives one more.
two_symbols :
    (b0 b1 b2 : ℕ) (input : List ℕ)
    → b0 < 256
    → b1 < 256
    → b2 < 256
    → decode_from
        (decoder 0 0)
        (symbol (triple b0 b1 b2 / 262_144 % 64) ∷ symbol (triple b0 b1 b2 / 4_096 % 64) ∷ input)
      ≡ with_output [] (with_output (b0 ∷ []) (decode_from (decoder (b1 / 16) 4) input))
two_symbols b0 b1 b2 input h0 h1 h2 =
    rw
      (
        decode_symbol (decoder 0 0) (triple b0 b1 b2 / 262_144 % 64) (b0 / 4)
            (symbol (triple b0 b1 b2 / 4_096 % 64) ∷ input) (omega arith) (omega arith),
        first b0 h0,
        decode_symbol (decoder (b0 / 4) 6) (triple b0 b1 b2 / 4_096 % 64) (b0 % 4 * 16 + b1 / 16)
            input (omega arith) (omega arith),
        second b0 b1 h0 h1,
      )
      refl

third_symbol :
    (b0 b1 b2 : ℕ) (input : List ℕ)
    → b0 < 256
    → b1 < 256
    → b2 < 256
    → decode_from (decoder (b1 / 16) 4) (symbol (triple b0 b1 b2 / 64 % 64) ∷ input)
      ≡ with_output (b1 ∷ []) (decode_from (decoder (b2 / 64) 2) input)
third_symbol b0 b1 b2 input h0 h1 h2 =
    rw
      (
        decode_symbol (decoder (b1 / 16) 4) (triple b0 b1 b2 / 64 % 64) (b1 % 16 * 4 + b2 / 64)
            input (omega arith) (omega arith),
        third b1 b2 h1 h2,
      )
      refl

fourth_symbol :
    (b0 b1 b2 : ℕ) (input : List ℕ)
    → b2 < 256
    → decode_from (decoder (b2 / 64) 2) (symbol (triple b0 b1 b2 % 64) ∷ input)
      ≡ with_output (b2 ∷ []) (decode_from (decoder 0 0) input)
fourth_symbol b0 b1 b2 input h2 =
    rw
      (
        decode_symbol (decoder (b2 / 64) 2) (triple b0 b1 b2 % 64) (b2 % 64) input (omega arith)
            (omega arith),
        fourth b2 h2,
      )
      refl

decode_padding : (d : Decoder) (input : List ℕ) → decode_from d (b'=' ∷ input) ≡ some []
unfolding decode_from char_value
decode_padding d input = refl

decode_from-encode :
    (bytes : List ℕ) → AreBytes bytes → decode_from (decoder 0 0) (base64_encode bytes) ≡ some bytes
unfolding base64_encode
decode_from-encode [] h = unfold decode_from in refl
decode_from-encode (b0 ∷ []) h =
    rw
      (
        two_symbols b0 0 0 (b'=' ∷ b'=' ∷ []) h.0 (omega arith) (omega arith),
        decode_padding (decoder 0 4) (b'=' ∷ []),
      )
      refl
decode_from-encode (b0 ∷ b1 ∷ []) h =
    rw
      (
        two_symbols b0 b1 0 (symbol (triple b0 b1 0 / 64 % 64) ∷ b'=' ∷ []) h.0 h.1.0 (omega arith),
        third_symbol b0 b1 0 (b'=' ∷ []) h.0 h.1.0 (omega arith),
        decode_padding (decoder 0 2) [],
      )
      refl
decode_from-encode (b0 ∷ b1 ∷ b2 ∷ bytes) h =
    rw
      (
        two_symbols b0 b1 b2
            (symbol (triple b0 b1 b2 / 64 % 64)
              ∷ symbol (triple b0 b1 b2 % 64)
              ∷ base64_encode bytes)
            h.0 h.1.0 h.1.1.0,
        third_symbol b0 b1 b2 (symbol (triple b0 b1 b2 % 64) ∷ base64_encode bytes) h.0 h.1.0
            h.1.1.0,
        fourth_symbol b0 b1 b2 (base64_encode bytes) h.1.1.0,
        decode_from-encode bytes h.1.1.1,
      )
      refl

-- Bytes of any number, encoded and decoded, are the same bytes, and the decoder has no error.
pub base64_decode-base64_encode :
    (bytes : List ℕ) → AreBytes bytes → base64_decode (base64_encode bytes) ≡ some bytes
unfolding base64_decode
base64_decode-base64_encode bytes h = decode_from-encode bytes h
