-- ===== src/Video/Tests.antt =====
-- Runs of the video code, and its theorems at concrete inputs.
use wire_app.Common.{
  ◌≡◌, refl, ◌↔◌, ◌<◌, ◌+◌, ◌++◌, true, false, List, [], ◌∷◌, some, arith, length, ℕ, any,
}
use wire_app.Common.Bytes.{to_be_bytes}
use wire_app.Video.Transport.{
  EncodedVideoFrame, ok, err, invalid_magic, send_frame, frame_bytes, recv_frame, accept,
  read_exact, recv_body, check_header,
}
use wire_app.Video.Transport.RoundTrip.{Fits, recv_frame-send_frame}
use wire_app.Video.Transport.Gate.{passed, accept-open}
use wire_app.Video.Bitstream.{has_annex_b_start_code, normalize_h264_for_decode, contains_idr}
use wire_app.Video.Bitstream.Avcc.{avcc}

abbrev frame : EncodedVideoFrame
frame = record {
  sequence = 42;
  sent_at_micros = 123_456;
  keyframe = true;
  width = 1920;
  height = 1080;
  fps = 60;
  payload = 1 ∷ 2 ∷ 3 ∷ 4 ∷ [];
}

abbrev delta : EncodedVideoFrame
delta = record frame { sequence = 41; keyframe = false }

frame-Fits : Fits frame
frame-Fits = record {
  sequence_fits = omega arith;
  sent_fits = omega arith;
  width_fits = omega arith;
  height_fits = omega arith;
  fps_fits = omega arith;
}

frame_sent : send_frame frame ≡ ok (frame_bytes frame)
unfolding send_frame
frame_sent = refl

recv_frame-send_frame_example : recv_frame (frame_bytes frame ++ 9 ∷ []) ≡ ok (some frame, 9 ∷ [])
recv_frame-send_frame_example =
    recv_frame-send_frame frame (frame_bytes frame) (9 ∷ []) frame-Fits frame_sent

held_back : passed (record { waiting = true }) (delta ∷ frame ∷ delta ∷ []) ≡ frame ∷ delta ∷ []
unfolding passed accept
held_back = refl

accept-open_example : passed (accept (record { waiting = true }) frame).0 (delta ∷ []) ≡ delta ∷ []
accept-open_example =
    accept-open (record { waiting = true }) frame (delta ∷ []) (unfold accept in refl)

-- A header of zeros is refused.
zeros : recv_frame (0 ∷ 0 ∷ 0 ∷ 26 ∷ to_be_bytes 26 0) ≡ err invalid_magic
unfolding recv_frame recv_body read_exact check_header to_be_bytes
    wire_app.Common.Bytes.from_be_bytes wire_app.Common.text_eq
zeros = refl

abbrev idr_unit : List ℕ
idr_unit = 0x65 ∷ 1 ∷ []

abbrev other_unit : List ℕ
other_unit = 0x41 ∷ 2 ∷ 3 ∷ []

no_code : has_annex_b_start_code (avcc (other_unit ∷ idr_unit ∷ [])) ≡ false
unfolding has_annex_b_start_code wire_app.Video.Bitstream.has_window wire_app.Common.strip_prefix
    to_be_bytes
no_code = refl

zeros_of : ℕ → List ℕ
zeros_of ℕ.zero = []
zeros_of (ℕ.suc n) = 0 ∷ zeros_of n
