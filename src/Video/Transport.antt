-- ===== src/Video/Transport.antt =====
-- wire/src/video/transport.rs: one encoded frame on a QUIC stream. A stream is the list of the
-- bytes that are still to be read; what is sent is the list of the bytes written.
pub mod RoundTrip
pub mod Gate
use Prim.Native.Nat.{bit_and}
use wire_app.Common.{
  ℕ, ◌+◌, ◌-◌, ◌*◌, ◌%◌, ◌^◌, min, Bool, true, false, not, ◌&&◌, List, [], ◌∷◌, ◌++◌, Option, none,
  some, ltb, leb, ◌==◌, if◌then◌else◌, length, take, drop, u64_mod, text, Text, text_eq,
}
use wire_app.Common.Bytes.{to_be_bytes, from_be_bytes}

abbrev pub video_protocol_magic : Text
video_protocol_magic = text "WV"

abbrev pub video_protocol_version : ℕ
video_protocol_version = 2

abbrev pub video_flag_keyframe : ℕ
video_flag_keyframe = 1

abbrev pub video_frame_header_len : ℕ
video_frame_header_len = 26

abbrev pub max_video_frame_len : ℕ
max_video_frame_len = 16 * 1024 * 1024

pub record EncodedVideoFrame : Type 0 where
  pub sequence : ℕ  -- u64
  pub sent_at_micros : ℕ  -- u64
  pub keyframe : Bool
  pub width : ℕ  -- u16
  pub height : ℕ  -- u16
  pub fps : ℕ  -- u16
  pub payload : List ℕ

-- `EncodedVideoFrame::new` at the clock reading `now`.
unfoldable pub new : ℕ → ℕ → Bool → List ℕ → ℕ → ℕ → ℕ → EncodedVideoFrame
new now sequence keyframe payload width height fps = record {
  sequence = sequence;
  sent_at_micros = now;
  keyframe = keyframe;
  width = min width 65535;
  height = min height 65535;
  fps = min fps 65535;
  payload = payload;
}

pub data Error : Type 0 where
  length_overflow frame_too_large unexpected_eof invalid_length invalid_magic : Error
  unsupported_version unsupported_flags : Error

-- `anyhow::Result`, with the error's kind.
pub data Result {ℓ} (A : Type ℓ) : Type ℓ where
  err : Error → Result A
  ok : A → Result A

infixl 5 ◌>>=◌
abbrev pub ◌>>=◌ {ℓ κ} : {A : Type ℓ} {B : Type κ} → Result A → (A → Result B) → Result B
◌>>=◌ m next = elim m [ ok a ↦ next a | err e ↦ err e ]

abbrev pub ensure : Bool → Error → Result (Unit {0})
ensure true e = ok tt
ensure false e = err e

-- The fixed part of a frame, and what `send_frame` writes once the length is accepted.
unfoldable pub frame_header : EncodedVideoFrame → List ℕ
frame_header f =
    video_protocol_magic
    ++ (video_protocol_version
        ∷ (if f.keyframe then video_flag_keyframe else 0)
        ∷ (to_be_bytes 8 f.sequence
            ++ (to_be_bytes 8 f.sent_at_micros
                ++ (to_be_bytes 2 f.width ++ (to_be_bytes 2 f.height ++ to_be_bytes 2 f.fps)))))

unfoldable pub frame_bytes : EncodedVideoFrame → List ℕ
frame_bytes f =
    to_be_bytes 4 ((video_frame_header_len + length f.payload) % 2 ^ 32)
    ++ (frame_header f ++ f.payload)

-- `send_frame` on a stream that takes every byte.
unfoldable pub send_frame : EncodedVideoFrame → Result (List ℕ)
unfolding frame_bytes
send_frame f = do
  _ ← ensure (ltb (video_frame_header_len + length f.payload) u64_mod) length_overflow
  _ ← ensure (leb (video_frame_header_len + length f.payload) max_video_frame_len) frame_too_large
  ok (frame_bytes f)

-- `read_exact`: the bytes read and the stream behind them.
unfoldable pub read_exact : ℕ → List ℕ → Result (List ℕ × List ℕ)
read_exact n s = if leb n (length s) then ok (take n s, drop n s) else err unexpected_eof

abbrev byte_at : List ℕ → ℕ → ℕ
byte_at bs i = from_be_bytes (take 1 (drop i bs))

-- The checks of `recv_frame` on the fixed part, in its order.
unfoldable pub check_header : List ℕ → Result (Unit {0})
check_header header = do
  _ ← ensure (text_eq (take 2 header) video_protocol_magic) invalid_magic
  _ ← ensure (byte_at header 2 == video_protocol_version) unsupported_version
  ensure (bit_and (byte_at header 3) (255 - video_flag_keyframe) == 0) unsupported_flags

unfoldable pub decode_frame : List ℕ → List ℕ → EncodedVideoFrame
decode_frame header body = record {
  sequence = from_be_bytes (take 8 (drop 4 header));
  sent_at_micros = from_be_bytes (take 8 (drop 12 header));
  keyframe = not (bit_and (byte_at header 3) video_flag_keyframe == 0);
  width = from_be_bytes (take 2 (drop 20 header));
  height = from_be_bytes (take 2 (drop 22 header));
  fps = from_be_bytes (take 2 (drop 24 header));
  payload = body;
}

-- `recv_frame` behind the length prefix.
unfoldable pub recv_body : ℕ → List ℕ → Result (Option EncodedVideoFrame × List ℕ)
recv_body len s = do
  _ ← ensure (leb video_frame_header_len len && leb len max_video_frame_len) invalid_length
  (header, s') ← read_exact video_frame_header_len s
  _ ← check_header header
  (body, s'') ← read_exact (len - video_frame_header_len) s'
  ok (some (decode_frame header body), s'')

-- A stream that ends within the length prefix is the regular end: `Ok(None)`.
unfoldable pub recv_frame : List ℕ → Result (Option EncodedVideoFrame × List ℕ)
recv_frame s =
    if leb 4 (length s) then recv_body (from_be_bytes (take 4 s)) (drop 4 s) else ok (none, [])

-- `KeyframeGate`.
pub record KeyframeGate : Type 0 where
  pub waiting : Bool

unfoldable pub waiting_gate : KeyframeGate
waiting_gate = record { waiting = true }

unfoldable pub require_keyframe : KeyframeGate → KeyframeGate
require_keyframe g = record g { waiting = true }

unfoldable pub accept : KeyframeGate → EncodedVideoFrame → KeyframeGate × Bool
accept g f =
    if g.waiting && not f.keyframe then (g, false) else (record g { waiting = false }, true)
