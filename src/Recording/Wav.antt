-- ===== src/Recording/Wav.antt =====
-- The files of the recordings in recording.rs: `wav_header`, `WavFile` and `write_loop`, with the
-- writes that fail. A sample is of any type, with the 16 bits that `sample_to_i16` gives for it.
pub mod Reader
pub mod Appends
pub mod Finish
use wire_app.Common.{
  ℕ, zero, suc, ◌+◌, ◌-◌, ◌*◌, ◌/◌, ◌%◌, ◌^◌, min, Bool, true, false, if◌then◌else◌, List, [], ◌∷◌,
  ◌++◌, Option, none, some, length, take, drop,
}

abbrev pub frame_samples : ℕ
frame_samples = 960

unfoldable pub to_le_bytes : ℕ → ℕ → List ℕ
to_le_bytes zero n = []
to_le_bytes (suc k) n = n % 256 ∷ to_le_bytes k (n / 256)

-- `u32::try_from(_).unwrap_or(u32::MAX)`.
abbrev pub saturated : ℕ → ℕ
saturated n = min n (2 ^ 32 - 1)

unfoldable pub wav_header : ℕ → List ℕ
unfolding to_le_bytes
wav_header data_bytes =
    (82 ∷ 73 ∷ 70 ∷ 70 ∷ [])
    ++ to_le_bytes 4 36
    ++ (87 ∷ 65 ∷ 86 ∷ 69 ∷ [])
    ++ (102 ∷ 109 ∷ 116 ∷ 32 ∷ [])
    ++ to_le_bytes 4 16
    ++ to_le_bytes 2 1
    ++ to_le_bytes 2 1
    ++ to_le_bytes 4 48_000
    ++ to_le_bytes 4 (48_000 * 1 * (16 / 8))
    ++ to_le_bytes 2 (1 * (16 / 8))
    ++ to_le_bytes 2 16
    ++ (100 ∷ 97 ∷ 116 ∷ 97 ∷ [])
    ++ to_le_bytes 4 (saturated data_bytes)

-- The open file: its bytes, the place of the next write, and the frames that were appended.
pub record WavFile : Type 0 where
  pub content : List ℕ
  pub cursor : ℕ
  pub frames : ℕ

-- `write_all` writes every byte, or fails after the first `n` of them.
pub data Write : Type 0 where
  whole : Write
  fails : ℕ → Write

abbrev pub overwrite : ℕ → List ℕ → List ℕ → List ℕ
overwrite at bytes content = take at content ++ bytes ++ drop (at + length bytes) content

abbrev pub put : List ℕ → WavFile → WavFile
put bytes f = record f {
  content = overwrite f.cursor bytes f.content;
  cursor = f.cursor + length bytes;
}

-- The Boolean is false for an error.
unfoldable pub write_all : Write → List ℕ → WavFile → WavFile × Bool
write_all whole bytes f = (put bytes f, true)
write_all (fails n) bytes f = (put (take n bytes) f, false)

abbrev pub seek : ℕ → WavFile → WavFile
seek at f = record f { cursor = at }

-- Where a recording meets an error: `create_new`, the header, each append by its number, the two
-- sizes, the flush. A seek has none.
pub record Faults : Type 0 where
  pub opens : Bool
  pub header : Write
  pub appends : ℕ → Write
  pub riff_size : Write
  pub data_size : Write
  pub flushes : Bool

unfoldable pub created : WavFile × Bool → Option WavFile
created (f, true) = some f
created (f, false) = none

unfoldable pub create : Faults → Option WavFile
unfolding created write_all wav_header
create e =
    if e.opens
    then created
        (write_all e.header (wav_header 0) (record { content = []; cursor = 0; frames = 0 }))
    else none

unfoldable pub and_then : WavFile × Bool → (WavFile → WavFile × Bool) → WavFile × Bool
and_then (f, true) next = next f
and_then (f, false) next = (f, false)

unfoldable pub finalize : Faults → WavFile → WavFile × Bool
unfolding and_then write_all to_le_bytes
finalize e f =
    let data_bytes = f.frames * frame_samples * (16 / 8) in
    and_then (write_all e.riff_size (to_le_bytes 4 (saturated (36 + data_bytes))) (seek 4 f)) (λ g.
      and_then (write_all e.data_size (to_le_bytes 4 (saturated data_bytes)) (seek 40 g))
        (λ h. (h, e.flushes)))

pub data Failure : Type 0 where
  not_created not_appended not_finalized : Failure

pub record WriterOutcome : Type 0 where
  pub has_file : Bool
  pub written : ℕ
  pub error : Option Failure

-- `get_or_insert_with` keeps the first error; the Booleans are false for an error.
unfoldable pub first_error : Bool → Bool → Option Failure
first_error false b = some not_appended
first_error true false = some not_finalized
first_error true true = none

module _ {Sample : Type 0} (sample_to_i16 : Sample → ℕ) where
  unfoldable pub pcm : List Sample → List ℕ
  unfolding to_le_bytes
  pcm [] = []
  pcm (s ∷ ss) = to_le_bytes 2 (sample_to_i16 s) ++ pcm ss

  abbrev pub count_frame : WavFile → WavFile × Bool
  count_frame f = (record f { frames = f.frames + 1 }, true)

  unfoldable pub append : Write → List Sample → WavFile → WavFile × Bool
  unfolding and_then write_all pcm
  append w mono f = and_then (write_all w (pcm mono) f) count_frame

  -- The frames that are received, appended until one fails; `k` were appended before.
  unfoldable pub append_frames : (ℕ → Write) → ℕ → List (List Sample) → WavFile → WavFile × Bool
  unfolding and_then append
  append_frames e k [] f = (f, true)
  append_frames e k (x ∷ xs) f = and_then (append (e k) x f) (append_frames e (suc k) xs)

  -- The end of `write_loop`, for a file that was created.
  unfoldable pub close : Faults → WavFile × Bool → WriterOutcome × Option (List ℕ)
  unfolding finalize first_error
  close e (f, appended) =
      let (g, finalized) = finalize e f in
      (
        record { has_file = true; written = f.frames; error = first_error appended finalized },
        some g.content,
      )

  unfoldable pub with_file :
      Faults → List (List Sample) → Option WavFile → WriterOutcome × Option (List ℕ)
  unfolding close append_frames
  with_file e xs none = (record { has_file = false; written = 0; error = some not_created }, none)
  with_file e xs (some f) = close e (append_frames e.appends 0 xs f)

  -- The frames up to the end of the channel. The file is created for the first of them. The second
  -- result is the content of the file that the outcome names.
  unfoldable pub write_loop : Faults → List (List Sample) → WriterOutcome × Option (List ℕ)
  unfolding with_file create
  write_loop e [] = (record { has_file = false; written = 0; error = none }, none)
  write_loop e (x ∷ xs) = with_file e (x ∷ xs) (create e)
