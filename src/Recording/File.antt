-- ===== src/Recording/File.antt =====
-- The tap and the writer of one speaker together: the ticks of the engine on one side, the bytes of
-- the file on the other.
use wire_app.Common.{ℕ, ◌+◌, ◌*◌, ◌<◌, ◌≤◌, ◌≡◌, arith, true, List, [], ◌∷◌, length, All-append}
use wire_app.Recording.Wav.{frame_samples, Faults, whole, write_loop}
use wire_app.Recording.Wav.Finish.{AreFrames, Recorded, write_loop-Recorded}
use wire_app.Recording.Tap.{Step, ticks, receives, ends, stops, run, start_speaker_writer}
use wire_app.Recording.Tap.Timeline.{
  Subsequence, done, keeps, skips, frames_of, frames, length-frame, run-Timeline, before_more,
  Subsequence-trans,
}

module _ {Sample : Type 0} (sample_to_i16 : Sample → ℕ) (silence : Sample)
    (mono : Sample → Sample → Sample) where
  frames-AreFrames :
      (ss : List (Step silence mono)) → AreFrames sample_to_i16 (frames silence mono ss)
  frames-AreFrames [] = tt
  frames-AreFrames (s ∷ ss) =
      All-append (λ x. length x ≡ frame_samples) (frames_of silence mono s) (frames silence mono ss)
        (one s, frames-AreFrames ss)
    where
      one : (s : Step silence mono) → AreFrames sample_to_i16 (frames_of silence mono s)
      one (ticks buf) = (length-frame silence mono buf, tt)
      one receives = tt
      one ends = tt
      one stops = tt

  Subsequence-AreFrames :
      {xs ys : List (List Sample)}
      → Subsequence xs ys
      → AreFrames sample_to_i16 ys
      → AreFrames sample_to_i16 xs
  Subsequence-AreFrames done h = tt
  Subsequence-AreFrames (keeps x s) h = (h.0, Subsequence-AreFrames s h.1)
  Subsequence-AreFrames (skips y s) h = Subsequence-AreFrames s h.1

  Subsequence-length : {xs ys : List (List Sample)} → Subsequence xs ys → length xs ≤ length ys
  Subsequence-length done = omega arith
  Subsequence-length (keeps x s) = omega (arith, Subsequence-length s)
  Subsequence-length (skips y s) = omega (arith, Subsequence-length s)

  written-Recorded :
      ((s : Sample) → sample_to_i16 s < 65_536)
      → (e : Faults) (xs fs : List (List Sample)) → Subsequence xs fs
      → AreFrames sample_to_i16 fs
      → 1 ≤ length xs
      → e.opens ≡ true
      → e.header ≡ whole
      → e.riff_size ≡ whole
      → e.data_size ≡ whole
      → 1_920 * length fs + 36 < 4_294_967_296
      → Recorded sample_to_i16 xs (write_loop sample_to_i16 e xs)
  written-Recorded h16 e [] fs s f some_frame opens header riff size small = absurd (omega arith)
  written-Recorded h16 e (x ∷ xs) fs s f some_frame opens header riff size small =
      write_loop-Recorded sample_to_i16 h16 e x xs opens header riff size
        (Subsequence-AreFrames s f) (omega (arith, Subsequence-length s))

  -- A recording from the ticks of the engine to the file. The samples have 16 bits, the writer received
  -- at least one frame, the file could be created with its header and its sizes written, and the ticks
  -- make less than 4 GiB. Then a WAV reader gives the samples of the frames that the outcome counts, of
  -- those that the writer received; and these are frames of the ticks, in their order.
  pub run-Recorded :
      ((s : Sample) → sample_to_i16 s < 65_536)
      → (e : Faults) (ss : List (Step silence mono))
      → 1 ≤ length (run silence mono ss start_speaker_writer).received
      → e.opens ≡ true
      → e.header ≡ whole
      → e.riff_size ≡ whole
      → e.data_size ≡ whole
      → 1_920 * length (frames silence mono ss) + 36 < 4_294_967_296
      → let xs = (run silence mono ss start_speaker_writer).received in
        Recorded sample_to_i16 xs (write_loop sample_to_i16 e xs)
        × Subsequence xs (frames silence mono ss)
  run-Recorded h16 e ss some_frame opens header riff size small =
      let t = run silence mono ss start_speaker_writer in
      let in_order =
        Subsequence-trans (run-Timeline silence mono ss).in_order
          (before_more t.received t.queue) in
      (
        written-Recorded h16 e t.received (frames silence mono ss) in_order (frames-AreFrames ss)
            some_frame opens header riff size small,
        in_order,
      )
