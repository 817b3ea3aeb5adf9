-- ===== src/Recording/Tests.antt =====
-- Recordings at concrete inputs. A sample is its number of 16 bits; the mean of a pair is halved.
use wire_app.Common.{
  ℕ, ◌+◌, ◌/◌, ◌%◌, ◌<◌, ◌≡◌, refl, arith, true, ◌==◌, if◌then◌else◌, List, [], ◌∷◌, Option, none,
  some, take, length,
}
use wire_app.Common.Int.{pos, negsuc}
use wire_app.Recording.Calendar.{
  civil_year, month_of, day_of, day_of_year, civil_from_unix_seconds, add_ℕ, next_second,
}
use wire_app.Recording.Calendar.Clock.{epoch, civil_from_unix_seconds-next}
use wire_app.Recording.Wav.{Faults, Write, whole, fails, not_appended, write_loop}
use wire_app.Recording.Wav.Finish.{Recorded}
use wire_app.Recording.Tap.{frame, step, Step, ticks, receives, stops, run, start_speaker_writer}
use wire_app.Recording.Tap.Timeline.{frames, Timeline, Subsequence, run-Timeline}
use wire_app.Recording.Tap.Voice.{Recorder, Decoded, continues}
use wire_app.Recording.File.{run-Recorded}

leap_day : civil_from_unix_seconds (pos 1_709_210_096) ≡ record {
  date = record { year = pos 2024; month = 2; day = 29 };
  hour = 12;
  minute = 34;
  second = 56;
}
unfolding civil_from_unix_seconds civil_year month_of day_of day_of_year
leap_day = refl

civil_from_unix_seconds-next_example :
    (civil_from_unix_seconds (pos 0) ≡ epoch)
    × (civil_from_unix_seconds (add_ℕ (negsuc 0) 1)
        ≡ next_second (civil_from_unix_seconds (negsuc 0)))
civil_from_unix_seconds-next_example = civil_from_unix_seconds-next (negsuc 0)

abbrev to_i16 : ℕ → ℕ
to_i16 s = s % 65_536

to_i16_bound : (s : ℕ) → to_i16 s < 65_536
to_i16_bound s = omega arith

abbrev mean : ℕ → ℕ → ℕ
mean l r = (l + r) / 2

-- The second append fails in the middle of its frame.
abbrev failing : ℕ → Write
failing n = if n == 1 then fails 100 else whole

abbrev faults : Faults
faults = record {
  opens = true;
  header = whole;
  appends = failing;
  riff_size = whole;
  data_size = whole;
  flushes = true;
}

abbrev first_frame : List ℕ
first_frame = frame 0 mean (4 ∷ 6 ∷ 10 ∷ 20 ∷ 9 ∷ [])

first_samples : take 4 first_frame ≡ 5 ∷ 15 ∷ 0 ∷ 0 ∷ []
unfolding frame
first_samples = refl

outcome_of_two :
    (write_loop to_i16 faults (first_frame ∷ first_frame ∷ [])).0
    ≡ record { has_file = true; written = 1; error = some not_appended }
unfolding write_loop
outcome_of_two = refl

abbrev some_steps : List (Step 0 mean)
some_steps =
    ticks (4 ∷ 6 ∷ [])
    ∷ receives
    ∷ ticks []
    ∷ ticks (1 ∷ 1 ∷ [])
    ∷ receives
    ∷ stops
    ∷ ticks (8 ∷ 8 ∷ [])
    ∷ []

received_two : length (run 0 mean some_steps start_speaker_writer).received ≡ 2
unfolding step
received_two = refl

run-Timeline_example :
    Timeline 0 mean (frames 0 mean some_steps) (run 0 mean some_steps start_speaker_writer)
run-Timeline_example = run-Timeline 0 mean some_steps

run-Recorded_example :
    let xs = (run 0 mean some_steps start_speaker_writer).received in
    Recorded to_i16 xs (write_loop to_i16 faults xs) × Subsequence xs (frames 0 mean some_steps)
run-Recorded_example =
    run-Recorded to_i16 0 mean to_i16_bound faults some_steps (omega (arith, received_two)) refl
      refl refl refl (omega arith)

abbrev open_all : ℕ → Option ℕ
open_all t = if t == 13 then none else some t

abbrev decode_some : ℕ → ℕ × Decoded ℕ
decode_some d = (d, continues (d ∷ d ∷ []))

abbrev silent : Recorder ℕ ℕ
silent = record { decoded = 0; decoder = none; tap = start_speaker_writer; running = true }

abbrev lost_track : Option (ℕ × ℕ)
lost_track = some (2, 13)
