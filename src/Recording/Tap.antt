-- ===== src/Recording/Tap.antt =====
-- `RecordingTap` in recording.rs: an engine tick becomes one mono frame in a bounded channel, and the
-- writer of the speaker receives the frames. The two threads meet only in the channel and the stop
-- flag, so their steps are one sequence. A sample is of any type; `mono` is the mean of a stereo pair.
pub mod Timeline
pub mod Voice
use wire_app.Common.{
  ℕ, zero, suc, ◌+◌, ◌-◌, Bool, true, false, not, ltb, if◌then◌else◌, List, [], ◌∷◌, ◌++◌, length,
  take,
}
use wire_app.Recording.Wav.{frame_samples}

abbrev pub frame_queue_capacity : ℕ
frame_queue_capacity = 256

-- What `try_send` on a `sync_channel` gives.
pub data Sent : Type 0 where
  sent full disconnected : Sent

module _ {Sample : Type 0} (silence : Sample) (mono : Sample → Sample → Sample) where
  -- `as_chunks::<2>` leaves an odd sample out.
  abbrev pub mixed : List Sample → List Sample
  mixed [] = []
  mixed (l ∷ []) = []
  mixed (l ∷ r ∷ samples) = mono l r ∷ mixed samples

  -- `take(n)` and then `resize(n, 0.0)`.
  abbrev pub fitted : ℕ → List Sample → List Sample
  fitted zero samples = []
  fitted (suc n) [] = silence ∷ fitted n []
  fitted (suc n) (s ∷ samples) = s ∷ fitted n samples

  unfoldable pub frame : List Sample → List Sample
  frame samples = fitted frame_samples (mixed samples)

-- The tap with its channel. `received` is what the writer has taken out of the channel, oldest
-- first; `connected` says that the tap has its sender, `receiving` that the writer has its end.
pub record Tap (Sample : Type 0) : Type 0 where
  pub connected : Bool
  pub receiving : Bool
  pub stop : Bool
  pub queue : List (List Sample)
  pub received : List (List Sample)
  pub dropped_frames : ℕ

module _ {Sample : Type 0} where
  abbrev pub start_speaker_writer : Tap Sample
  start_speaker_writer = record {
    connected = true;
    receiving = true;
    stop = false;
    queue = [];
    received = [];
    dropped_frames = 0;
  }

  abbrev pub try_send : Tap Sample → Sent
  try_send t =
      if t.receiving
      then (if ltb (length t.queue) frame_queue_capacity then sent else full)
      else disconnected

  unfoldable pub after_send : Sent → List Sample → Tap Sample → Tap Sample
  after_send sent x t = record t { queue = t.queue ++ x ∷ [] }
  after_send full x t = record t { dropped_frames = t.dropped_frames + 1 }
  after_send disconnected x t = record t { connected = false }

module _ {Sample : Type 0} (silence : Sample) (mono : Sample → Sample → Sample) where
  unfoldable pub push : List Sample → Tap Sample → Tap Sample
  unfolding after_send
  push samples t = if t.connected then after_send (try_send t) (frame silence mono samples) t else t

  -- The Boolean is true for `ControlFlow::Break`.
  unfoldable pub tick : List Sample → Tap Sample → Tap Sample × Bool
  unfolding push
  tick buf t = if t.stop then (record t { connected = false }, true) else (push buf t, false)

  -- The steps of the threads: a tick of the engine, a `recv` of the writer, the end of the writer, and
  -- the session's stop.
  pub data Step : Type 0 where
    ticks : List Sample → Step
    receives ends stops : Step

  unfoldable pub recv : List (List Sample) → Tap Sample → Tap Sample
  recv [] t = t
  recv (x ∷ xs) t = record t { queue = xs; received = t.received ++ x ∷ [] }

  unfoldable pub step : Step → Tap Sample → Tap Sample
  unfolding tick recv
  step (ticks buf) t = (tick buf t).0
  step receives t = if t.receiving then recv t.queue t else t
  step ends t = record t { receiving = false; queue = [] }
  step stops t = record t { stop = true }

  abbrev pub run : List Step → Tap Sample → Tap Sample
  run [] t = t
  run (s ∷ ss) t = run ss (step s t)
