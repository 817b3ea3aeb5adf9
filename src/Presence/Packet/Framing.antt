-- ===== src/Presence/Packet/Framing.antt =====
-- `write_packet` and `read_packet`, over the JSON coding of the packet.
use wire_app.Common.{
  ℕ, ◌<◌, ◌≤◌, ◌≡◌, refl, false, ◌||◌, List, [], ◌∷◌, ◌++◌, Option, none, some, arith, ltb, leb,
  ◌==◌, if◌then◌else◌, length, take, drop, is_empty, length-append, take-length-append,
  drop-length-append, le→leb, append_assoc,
}
use wire_app.Common.Bytes.{
  to_be_bytes, from_be_bytes, length-to_be_bytes, from_be_bytes-to_be_bytes,
}
use wire_app.Presence.Packet.{max_packet_bytes}

infixl 5 ◌>>=◌
abbrev ◌>>=◌ {ℓ κ} : {A : Type ℓ} {B : Type κ} → Option A → (A → Option B) → Option B
none >>= f = none
some a >>= f = f a

-- `read_exact`: the bytes read and the stream behind them.
unfoldable pub read_exact : ℕ → List ℕ → Option (List ℕ × List ℕ)
read_exact n s = if leb n (length s) then some (take n s, drop n s) else none

read_exact-append :
    (n : ℕ) (xs rest : List ℕ) → length xs ≡ n → read_exact n (xs ++ rest) ≡ some (xs, rest)
unfolding read_exact
read_exact-append n xs rest e = rw (
  ← e,
  le→leb (length xs) (length (xs ++ rest)) (omega (arith, length-append xs rest)),
  take-length-append xs rest,
  drop-length-append xs rest,
)

length_accepted :
    (n : ℕ) → 0 < n → n ≤ max_packet_bytes → (n == 0 || ltb max_packet_bytes n) ≡ false
length_accepted n h k = ground arith

-- `serde_json` at the type of the packet.
module _ {ℓ} {A : Type ℓ} (to_vec : A → Option (List ℕ)) (from_slice : List ℕ → Option A) where
  -- The bytes written, or `none` for an error.
  unfoldable pub write_packet : A → Option (List ℕ)
  write_packet p = do
    bytes ← to_vec p
    (if is_empty bytes || ltb max_packet_bytes (length bytes)
        then none
        else some (to_be_bytes 4 (length bytes) ++ bytes))

  -- The packet and the stream behind it, or `none` for an error.
  unfoldable pub read_packet : List ℕ → Option (A × List ℕ)
  read_packet s = do
    (prefix, s') ← read_exact 4 s
    let len = from_be_bytes prefix
    (bytes, s'') ← (if len == 0 || ltb max_packet_bytes len then none else read_exact len s')
    p ← from_slice bytes
    some (p, s'')

  write_packet_lem :
      (p : A) (bs bytes : List ℕ)
      → write_packet p ≡ some bs
      → to_vec p ≡ some bytes
      → (0 < length bytes)
        × (length bytes ≤ max_packet_bytes)
        × (bs ≡ to_be_bytes 4 (length bytes) ++ bytes)
  unfolding write_packet
  write_packet_lem p bs [] w e = absurd (let f : none ≡ some bs = rw e at w in cc)
  write_packet_lem p bs (b ∷ bytes) w e =
      let f : (if ltb max_packet_bytes (length (b ∷ bytes))
            then none
            else some (to_be_bytes 4 (length (b ∷ bytes)) ++ (b ∷ bytes)))
          ≡ some bs =
        rw e at w in
      (omega arith, ground arith, ground arith)

  -- What `write_packet` wrote, with anything behind it, `read_packet` reads back, provided that the
  -- JSON coding reads back what it produced for this packet. The bytes behind are left as they are.
  pub read_packet-write_packet :
      (p : A) (bs rest bytes : List ℕ)
      → to_vec p ≡ some bytes
      → from_slice bytes ≡ some p
      → write_packet p ≡ some bs
      → read_packet (bs ++ rest) ≡ some (p, rest)
  unfolding read_packet
  read_packet-write_packet p bs rest bytes enc dec w =
      let (pos_len, small, e) = write_packet_lem p bs bytes w enc in
      let n = length bytes in
      rw (
        e,
        append_assoc,
        read_exact-append 4 (to_be_bytes 4 n) (bytes ++ rest) (length-to_be_bytes 4 n),
        from_be_bytes-to_be_bytes 4 n (omega arith),
        length_accepted n pos_len small,
        read_exact-append n bytes rest refl,
        dec,
      )
