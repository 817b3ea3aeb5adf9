-- ===== src/Video/Transport/RoundTrip.antt =====
-- What `recv_frame` makes of the bytes that `send_frame` writes.
use Prim.Native.Nat.{bit_and}
use native.Mathlib.Nat.{add-sub_cancel_left}
use wire_app.Common.{
  text_eq, ℕ, ◌+◌, ◌*◌, ◌%◌, ◌^◌, ◌≤◌, ◌<◌, ◌≡◌, refl, Bool, true, false, List, ◌++◌, some, arith,
  length, take-length-append, drop-length-append, length-append, append_assoc, leb, ◌&&◌, ◌↔◌,
  le→leb, if◌then◌else◌, ◌==◌, not,
}
use wire_app.Common.Bytes.{
  to_be_bytes, from_be_bytes, length-to_be_bytes, from_be_bytes-to_be_bytes,
}
use wire_app.Video.Transport.{
  EncodedVideoFrame, ensure, unsupported_flags, frame_too_large, ok, err, frame_header, frame_bytes,
  send_frame, recv_body, recv_frame, read_exact, check_header, decode_frame, video_frame_header_len,
  max_video_frame_len,
}

-- Every field is in the range of its Rust type.
pub record Fits (f : EncodedVideoFrame) : Type 0 where
  pub sequence_fits : f.sequence < 256 ^ 8
  pub sent_fits : f.sent_at_micros < 256 ^ 8
  pub width_fits : f.width < 256 ^ 2
  pub height_fits : f.height < 256 ^ 2
  pub fps_fits : f.fps < 256 ^ 2

length-frame_header : (f : EncodedVideoFrame) → length (frame_header f) ≡ 26
unfolding frame_header to_be_bytes
length-frame_header f = refl

read_exact-append :
    (n : ℕ) (xs rest : List ℕ) → length xs ≡ n → read_exact n (xs ++ rest) ≡ ok (xs, rest)
unfolding read_exact
read_exact-append n xs rest e = rw (
  ← e,
  le→leb (length xs) (length (xs ++ rest)) (omega (arith, length-append xs rest)),
  take-length-append xs rest,
  drop-length-append xs rest,
)

flag_check :
    (b : Bool)
    → ensure (bit_and (0 * 256 + (if b then 1 else 0)) 254 == 0) unsupported_flags ≡ ok tt
flag_check true = refl
flag_check false = refl

check_header-frame_header : (f : EncodedVideoFrame) → check_header (frame_header f) ≡ ok tt
unfolding check_header frame_header to_be_bytes from_be_bytes text_eq
check_header-frame_header f = flag_check f.keyframe

keyframe_flag : (b : Bool) → not (bit_and (0 * 256 + (if b then 1 else 0)) 1 == 0) ≡ b
keyframe_flag true = refl
keyframe_flag false = refl

decode_frame-frame_header :
    (f : EncodedVideoFrame) → Fits f → decode_frame (frame_header f) f.payload ≡ f
unfolding decode_frame frame_header to_be_bytes from_be_bytes
decode_frame-frame_header f v i = record {
  sequence = from_be_bytes-to_be_bytes 8 f.sequence v.sequence_fits i;
  sent_at_micros = from_be_bytes-to_be_bytes 8 f.sent_at_micros v.sent_fits i;
  keyframe = keyframe_flag f.keyframe i;
  width = from_be_bytes-to_be_bytes 2 f.width v.width_fits i;
  height = from_be_bytes-to_be_bytes 2 f.height v.height_fits i;
  fps = from_be_bytes-to_be_bytes 2 f.fps v.fps_fits i;
  payload = f.payload;
}

size_accepted :
    (n : ℕ)
    → video_frame_header_len + n ≤ max_video_frame_len
    → (leb video_frame_header_len (video_frame_header_len + n)
        && leb (video_frame_header_len + n) max_video_frame_len)
      ≡ true
size_accepted n h = ground arith

recv_body-frame_header :
    (f : EncodedVideoFrame) (rest : List ℕ)
    → Fits f
    → video_frame_header_len + length f.payload ≤ max_video_frame_len
    → recv_body (26 + length f.payload) (frame_header f ++ (f.payload ++ rest)) ≡ ok (some f, rest)
unfolding recv_body
recv_body-frame_header f rest v h = rw (
  size_accepted (length f.payload) h,
  read_exact-append 26 (frame_header f) (f.payload ++ rest) (length-frame_header f),
  check_header-frame_header f,
  add-sub_cancel_left 26 (length f.payload),
  read_exact-append (length f.payload) f.payload rest refl,
  decode_frame-frame_header f v,
)

recv_frame-append :
    (prefix rest : List ℕ)
    → length prefix ≡ 4
    → recv_frame (prefix ++ rest) ≡ recv_body (from_be_bytes prefix) rest
unfolding recv_frame
recv_frame-append prefix rest e = rw (
  le→leb 4 (length (prefix ++ rest)) (omega (arith, length-append prefix rest)),
  ← e,
  take-length-append prefix rest,
  drop-length-append prefix rest,
)

recv_frame-frame_bytes :
    (f : EncodedVideoFrame) (rest : List ℕ)
    → Fits f
    → video_frame_header_len + length f.payload ≤ max_video_frame_len
    → recv_frame (frame_bytes f ++ rest) ≡ ok (some f, rest)
unfolding frame_bytes
recv_frame-frame_bytes f rest v h =
    let n = (26 + length f.payload) % 2 ^ 32 in
    let small : n ≡ 26 + length f.payload = omega arith in
    rw
      (
        append_assoc,
        append_assoc,
        recv_frame-append (to_be_bytes 4 n) _ (length-to_be_bytes 4 n),
        from_be_bytes-to_be_bytes 4 n (omega arith),
        small,
      )
      (recv_body-frame_header f rest v h)

send_frame-eq-frame_bytes :
    (f : EncodedVideoFrame) (bs : List ℕ)
    → send_frame f ≡ ok bs
    → (video_frame_header_len + length f.payload ≤ max_video_frame_len) × (bs ≡ frame_bytes f)
unfolding send_frame
send_frame-eq-frame_bytes f bs e = ground arith

-- What a successful `send_frame` wrote, with anything behind it, `recv_frame` reads back as the
-- same frame, and it leaves exactly the bytes behind.
pub recv_frame-send_frame :
    (f : EncodedVideoFrame) (bs rest : List ℕ)
    → Fits f
    → send_frame f ≡ ok bs
    → recv_frame (bs ++ rest) ≡ ok (some f, rest)
recv_frame-send_frame f bs rest v e =
    let (small, eq) = send_frame-eq-frame_bytes f bs e in
    rw eq (recv_frame-frame_bytes f rest v small)

-- `send_frame` refuses a frame exactly when header and payload pass 16 MiB, and the error is then
-- `frame_too_large`, the payload of a `Vec` being shorter than 2^63 bytes.
pub send_frame-err_iff :
    (f : EncodedVideoFrame)
    → length f.payload < 2 ^ 63
    → (send_frame f ≡ err frame_too_large)
      ↔ (max_video_frame_len < video_frame_header_len + length f.payload)
unfolding send_frame
send_frame-err_iff f h = (λ e. ground arith, λ big. ground arith)
