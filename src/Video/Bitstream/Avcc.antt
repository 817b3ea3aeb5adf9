-- ===== src/Video/Bitstream/Avcc.antt =====
-- The AVCC side of the bitstream helpers, against the units that an access unit consists of.
use wire_app.Common.{
  ℕ, zero, suc, ◌/◌, ◌%◌, ◌^◌, ◌≤◌, ◌<◌, ◌≡◌, refl, sym, ap, ◌∙◌, ◌⊎◌, inl, inr, Bool, true, false,
  ◌||◌, List, [], ◌∷◌, ◌++◌, some, arith, ltb, leb, ◌==◌, length, take, drop, any, All,
  take-length-append, drop-length-append, length-append, append_assoc, append-nil, Bool-cases,
}
use wire_app.Common.Bytes.{
  to_be_bytes, from_be_bytes, length-to_be_bytes, from_be_bytes-to_be_bytes,
}
use wire_app.Video.Bitstream.{
  long_code, is_idr_type, nal_type, has_annex_b_start_code, avcc_idr, contains_idr, avcc_loop,
  avcc_to_annex_b, normalize_h264_for_decode,
}

-- The two forms of an access unit.
abbrev pub avcc : List (List ℕ) → List ℕ
avcc [] = []
avcc (nal ∷ nals) = to_be_bytes 4 (length nal) ++ (nal ++ avcc nals)

abbrev pub annex_b : List (List ℕ) → List ℕ
annex_b [] = []
annex_b (nal ∷ nals) = long_code ++ (nal ++ annex_b nals)

-- A unit that a four-byte length can describe.
abbrev pub IsNal : List ℕ → Type 0
IsNal nal = (0 < length nal) × (length nal < 256 ^ 4)

-- One round: what the head of the input looks like.
record Head (nal rest : List ℕ) : Type 0 where
  four : leb 4 (length (to_be_bytes 4 (length nal) ++ (nal ++ rest))) ≡ true
  len : from_be_bytes (take 4 (to_be_bytes 4 (length nal) ++ (nal ++ rest))) ≡ length nal
  behind : drop 4 (to_be_bytes 4 (length nal) ++ (nal ++ rest)) ≡ nal ++ rest
  accepted : ((length nal == 0) || ltb (length (nal ++ rest)) (length nal)) ≡ false

Head-of : (nal rest : List ℕ) → IsNal nal → Head nal rest
Head-of nal rest h =
    let e = length-to_be_bytes 4 (length nal) in
    let l = length-append (to_be_bytes 4 (length nal)) (nal ++ rest) in
    record {
      four = ground (arith, e, l);
      len =
          ap from_be_bytes (rw e at (take-length-append (to_be_bytes 4 (length nal)) (nal ++ rest)))
          ∙ from_be_bytes-to_be_bytes 4 (length nal) h.1;
      behind = rw e at (drop-length-append (to_be_bytes 4 (length nal)) (nal ++ rest));
      accepted = ground (arith, length-append nal rest);
    }

avcc_loop-avcc :
    (nals : List (List ℕ)) (fuel : ℕ) (out : List ℕ)
    → All IsNal nals
    → length nals ≤ fuel
    → avcc_loop fuel (avcc nals) out ≡ out ++ annex_b nals
unfolding avcc_loop
avcc_loop-avcc [] zero out v h = sym (append-nil out)
avcc_loop-avcc [] (suc fuel) out v h = sym (append-nil out)
avcc_loop-avcc (nal ∷ nals) zero out v h = absurd (omega arith)
avcc_loop-avcc (nal ∷ nals) (suc fuel) out v h =
    let hd = Head-of nal (avcc nals) v.0 in
    rw
      (
        hd.four,
        hd.len,
        hd.behind,
        hd.accepted,
        take-length-append nal (avcc nals),
        drop-length-append nal (avcc nals),
      )
      (avcc_loop-avcc nals fuel (out ++ (long_code ++ nal)) v.1 (omega arith)
        ∙ append_assoc out (long_code ++ nal) (annex_b nals))

length-avcc : (nals : List (List ℕ)) → All IsNal nals → length nals ≤ length (avcc nals)
length-avcc [] v = omega arith
length-avcc (nal ∷ nals) v = omega (
  arith,
  length-append (to_be_bytes 4 (length nal)) (nal ++ avcc nals),
  length-append nal (avcc nals),
  length-to_be_bytes 4 (length nal),
  length-avcc nals v.1,
)

-- The conversion turns the units of an AVCC access unit, in their order and unchanged, into an
-- Annex B stream with a four-byte start code before each.
avcc_to_annex_b-avcc :
    (nal : List ℕ) (nals : List (List ℕ))
    → All IsNal (nal ∷ nals)
    → avcc_to_annex_b (avcc (nal ∷ nals)) ≡ some (annex_b (nal ∷ nals))
unfolding avcc_to_annex_b
avcc_to_annex_b-avcc nal nals v =
    rw (avcc_loop-avcc (nal ∷ nals) _ [] v (length-avcc (nal ∷ nals) v))

-- An AVCC access unit in which no start code shows is converted whole before decoding: each unit
-- stands, in order and unchanged, behind a four-byte start code.
pub normalize-avcc :
    (nal : List ℕ) (nals : List (List ℕ))
    → All IsNal (nal ∷ nals)
    → has_annex_b_start_code (avcc (nal ∷ nals)) ≡ false
    → normalize_h264_for_decode (avcc (nal ∷ nals)) ≡ annex_b (nal ∷ nals)
unfolding normalize_h264_for_decode
normalize-avcc nal nals v h = rw (h, avcc_to_annex_b-avcc nal nals v)

nal_type-append : (nal rest : List ℕ) → 0 < length nal → nal_type (nal ++ rest) ≡ nal_type nal
nal_type-append [] rest h = absurd (omega arith)
nal_type-append (b ∷ bs) rest h = refl

abbrev pub is_idr : List ℕ → Bool
is_idr nal = is_idr_type (nal_type nal)

avcc_idr-avcc :
    (nals : List (List ℕ)) (fuel : ℕ)
    → All IsNal nals
    → length nals ≤ fuel
    → avcc_idr fuel (avcc nals) ≡ any is_idr nals
unfolding avcc_idr
avcc_idr-avcc [] zero v h = refl
avcc_idr-avcc [] (suc fuel) v h = refl
avcc_idr-avcc (nal ∷ nals) zero v h = absurd (omega arith)
avcc_idr-avcc (nal ∷ nals) (suc fuel) v h =
    let hd = Head-of nal (avcc nals) v.0 in
    rw
      (
        hd.four,
        hd.len,
        hd.behind,
        hd.accepted,
        nal_type-append nal (avcc nals) v.0.0,
        drop-length-append nal (avcc nals),
      )
      (ground (arith, avcc_idr-avcc nals fuel v.1))

-- On an AVCC access unit in which no start code shows, `contains_idr` answers whether one of its
-- units is an IDR picture.
pub contains_idr-avcc :
    (nals : List (List ℕ))
    → All IsNal nals
    → has_annex_b_start_code (avcc nals) ≡ false
    → contains_idr (avcc nals) ≡ any is_idr nals
unfolding contains_idr
contains_idr-avcc nals v h = rw (h, avcc_idr-avcc nals _ v (length-avcc nals v))

-- Nothing was written, or what was written begins with a start code.
abbrev IsMarked : List ℕ → Type 0
IsMarked out = (out ≡ []) ⊎ ((tl : List ℕ) × (out ≡ long_code ++ tl))

IsMarked-append : (out xs : List ℕ) → IsMarked out → IsMarked (out ++ (long_code ++ xs))
IsMarked-append out xs (inl e) = inr (xs, rw e)
IsMarked-append out xs (inr (tl, e)) = inr (tl ++ (long_code ++ xs), rw e)

avcc_loop-IsMarked : (fuel : ℕ) (s out : List ℕ) → IsMarked out → IsMarked (avcc_loop fuel s out)
unfolding avcc_loop
avcc_loop-IsMarked zero s out m = m
avcc_loop-IsMarked (suc fuel) s out m =
    let len = from_be_bytes (take 4 s) in
    let s' = drop 4 s in
    let further =
      avcc_loop-IsMarked fuel (drop len s') (out ++ (long_code ++ take len s'))
        (IsMarked-append out (take len s') m) in
    elim (Bool-cases (leb 4 (length s))) [
      | inr short ↦ rw short m
      | inl long ↦ rw long (elim (Bool-cases ((len == 0) || ltb (length s') len)) [
        | inl bad ↦ rw bad m
        | inr good ↦ rw good further
      ])
    ]

normalize_marked : (s : List ℕ) → has_annex_b_start_code s ≡ true → normalize_h264_for_decode s ≡ s
unfolding normalize_h264_for_decode
normalize_marked s h = rw h

normalize-cases :
    (s : List ℕ)
    → (normalize_h264_for_decode s ≡ s)
      ⊎ (has_annex_b_start_code (normalize_h264_for_decode s) ≡ true)
unfolding normalize_h264_for_decode avcc_to_annex_b
normalize-cases s = elim (Bool-cases (has_annex_b_start_code s)) [
  | inl h ↦ inl (rw h)
  | inr h ↦ elim (avcc_loop-IsMarked (length s) s [] (inl refl)) [
    | inl e ↦ inl (rw (h, e))
    | inr (tl, e) ↦ inr (rw (h, e) (unfold has_annex_b_start_code in refl))
  ]
]

-- Normalising twice is normalising once, on every input.
pub normalize_idem :
    (s : List ℕ)
    → normalize_h264_for_decode (normalize_h264_for_decode s) ≡ normalize_h264_for_decode s
normalize_idem s = elim (normalize-cases s) [
  | inl e ↦ ap normalize_h264_for_decode e
  | inr h ↦ normalize_marked (normalize_h264_for_decode s) h
]

short_length_marked :
    (n : ℕ) (rest : List ℕ)
    → 256 ≤ n
    → n < 512
    → has_annex_b_start_code (to_be_bytes 4 n ++ rest) ≡ true
unfolding has_annex_b_start_code to_be_bytes
short_length_marked n rest lo hi =
    let zero_high : n / 256 / 256 / 256 % 256 ≡ 0 = omega arith in
    let zero_next : n / 256 / 256 % 256 ≡ 0 = omega arith in
    let one : n / 256 % 256 ≡ 1 = omega arith in rw (zero_high, zero_next, one) (ground arith)

-- An AVCC access unit whose first unit has 256 to 511 bytes is not converted: its length prefix
-- begins with the bytes 0, 0, 1, which pass for a start code, and the input comes back as it was.
pub normalize-short_unit :
    (nal : List ℕ) (nals : List (List ℕ))
    → 256 ≤ length nal
    → length nal < 512
    → normalize_h264_for_decode (avcc (nal ∷ nals)) ≡ avcc (nal ∷ nals)
normalize-short_unit nal nals lo hi =
    normalize_marked _ (short_length_marked (length nal) (nal ++ avcc nals) lo hi)
