-- ===== src/Recording/Session.antt =====
-- Sessions of wire-app/src/recording.rs: `RecordingSession` with its speakers, the names of their files, and
-- `finish`. A name is the list of its characters. What threads, the audio engine and the disk do are arguments.
pub mod Names
pub mod Files
pub mod Stem
pub mod Directory
mod Tests
use wire_app.Common.{
  ℕ, zero, suc, ◌+◌, ◌/◌, ◌%◌, ◌^◌, Bool, true, false, not, ◌&&◌, ◌||◌, List, [], ◌∷◌, ◌++◌, Option,
  none, some, Text, text, text_eq, text_lt, ltb, leb, ◌==◌, if◌then◌else◌, map, take, is_empty,
}
use wire_app.Common.Map.{Map, get, insert, contains_key}

-- Unicode's `White_Space`.
abbrev pub is_whitespace : ℕ → Bool
is_whitespace c =
    (leb 0x09 c && leb c 0x0d)
    || c == 0x20
    || c == 0x85
    || c == 0xa0
    || c == 0x1680
    || (leb 0x2000 c && leb c 0x200a)
    || c == 0x2028
    || c == 0x2029
    || c == 0x202f
    || c == 0x205f
    || c == 0x3000

abbrev pub is_kept : ℕ → Bool
is_kept c = c == 0x20 || c == 0x2d || c == 0x5f || c == 0x2e

-- `split_whitespace`, with the word so far.
unfoldable pub words : Text → Text → List Text
words word [] = if is_empty word then [] else word ∷ []
words word (c ∷ s) =
    let next = words [] s in
    let longer = words (word ++ c ∷ []) s in
    if not (is_whitespace c) then longer else if is_empty word then next else word ∷ next

unfoldable pub join : List Text → Text
join [] = []
join (w ∷ []) = w
join (w ∷ v ∷ ws) = w ++ 0x20 ∷ join (v ∷ ws)

abbrev pub is_trimmed : ℕ → Bool
is_trimmed c = c == 0x2e || c == 0x20

unfoldable pub trim_front : Text → Text
trim_front [] = []
trim_front (c ∷ s) = let rest = trim_front s in if is_trimmed c then rest else c ∷ s

unfoldable pub trim_back : Text → Text
trim_back [] = []
trim_back (c ∷ s) = let rest = trim_back s in if is_empty rest && is_trimmed c then [] else c ∷ rest

-- `is_alphanumeric` of the character is a parameter.
unfoldable pub sanitize_file_stem : (ℕ → Bool) → Text → Text
sanitize_file_stem is_alphanumeric name =
    let cleaned = map (λ (c : ℕ). if is_alphanumeric c || is_kept c then c else 0x2d) name in
    let trimmed = trim_back (trim_front (join (words [] cleaned))) in
    if is_empty trimmed then text "speaker" else take 48 trimmed

-- `{index:02}`; the number itself is fuel enough.
unfoldable pub decimal : ℕ → ℕ → Text → Text
decimal zero n s = s
decimal (suc fuel) n s =
    let rest = decimal fuel (n / 10) ((0x30 + n % 10) ∷ s) in
    if ltb n 10 then (0x30 + n) ∷ s else rest

unfoldable pub two_digits : ℕ → Text
two_digits n = if ltb n 10 then 0x30 ∷ (0x30 + n) ∷ [] else decimal (suc n) n []

unfoldable pub file_name_of : (ℕ → Bool) → ℕ → Text → Text
file_name_of is_alphanumeric index name =
    two_digits index ++ 0x2d ∷ (sanitize_file_stem is_alphanumeric name ++ text ".wav")

pub record SpeakerRecorder : Type 0 where
  pub index : ℕ  -- u32
  pub name_hint : Text
  pub file_name : Text

pub record RecordingSession : Type 0 where
  pub speakers : Map SpeakerRecorder
  pub next_index : ℕ  -- u32

abbrev pub started : RecordingSession
started = record { speakers = []; next_index = 0 }

-- `reserve_slot`: the slot, and the session.
unfoldable pub reserve_slot :
    (ℕ → Bool) → Text → RecordingSession → SpeakerRecorder × RecordingSession
reserve_slot is_alphanumeric name s = (
  record {
    index = s.next_index;
    name_hint = name;
    file_name = file_name_of is_alphanumeric s.next_index name;
  },
  record s { next_index = (s.next_index + 1) % 2 ^ 32 },
)

-- `attach_microphone` and `attach_participant`; `starts` tells whether the sink was added or the thread was started.
unfoldable pub attach : (ℕ → Bool) → Text → Text → Bool → RecordingSession → RecordingSession
attach is_alphanumeric node name starts s =
    let slot = reserve_slot is_alphanumeric name s in
    if contains_key node s.speakers
    then s
    else if starts
    then record slot.1 { speakers = insert node slot.0 s.speakers }
    else slot.1

-- What the writer of a speaker and its tap had at the end.
pub record Stopped : Type 0 where
  pub created : Bool
  pub frames : ℕ  -- u64
  pub dropped_frames : ℕ  -- u64
  pub error : Option Text

pub record RecordedSpeaker : Type 0 where
  pub name : Text
  pub node_id : Text
  pub file_name : Option Text
  pub frames : ℕ  -- u64
  pub dropped_frames : ℕ  -- u64
  pub error : Option Text

-- `rename_to`, where `renames` tells whether `fs::rename` ends well.
unfoldable pub rename_to : (ℕ → Bool) → (Text → Text → Bool) → Text → Text → ℕ → Option Text
rename_to is_alphanumeric renames provisional name index =
    let final_name = file_name_of is_alphanumeric index name in
    if text_eq final_name provisional
    then some provisional
    else if renames provisional final_name
    then some final_name
    else some provisional

abbrev pub or_hint : Option Text → Text → Text
or_hint none hint = hint
or_hint (some name) hint = name

unfoldable pub recorded :
    (ℕ → Bool)
    → (Text → Text → Bool)
    → Map Text
    → (Text → Stopped)
    → Text
    → SpeakerRecorder
    → RecordedSpeaker
recorded is_alphanumeric renames names stopped node r =
    let name = or_hint (get node names) r.name_hint in
    record {
      name = name;
      node_id = node;
      file_name =
          if (stopped node).created
          then rename_to is_alphanumeric renames r.file_name name r.index
          else none;
      frames = (stopped node).frames;
      dropped_frames = (stopped node).dropped_frames;
      error = (stopped node).error;
    }

unfoldable pub recorded_each :
    (ℕ → Bool)
    → (Text → Text → Bool)
    → Map Text
    → (Text → Stopped)
    → Map SpeakerRecorder
    → List RecordedSpeaker
recorded_each is_alphanumeric renames names stopped [] = []
recorded_each is_alphanumeric renames names stopped ((node, r) ∷ speakers) =
    recorded is_alphanumeric renames names stopped node r
    ∷ recorded_each is_alphanumeric renames names stopped speakers

-- `sort_by_key`: speakers with one key stay in their order.
unfoldable pub insert_by_key :
    (Text → Text) → RecordedSpeaker → List RecordedSpeaker → List RecordedSpeaker
insert_by_key to_lowercase x [] = x ∷ []
insert_by_key to_lowercase x (y ∷ ys) =
    let rest = insert_by_key to_lowercase x ys in
    if text_lt (to_lowercase y.name) (to_lowercase x.name) then y ∷ rest else x ∷ y ∷ ys

unfoldable pub sort_by_name : (Text → Text) → List RecordedSpeaker → List RecordedSpeaker
sort_by_name to_lowercase [] = []
sort_by_name to_lowercase (x ∷ xs) = insert_by_key to_lowercase x (sort_by_name to_lowercase xs)

-- The speakers of the summary, as `finish` makes it.
unfoldable pub finish :
    (ℕ → Bool)
    → (Text → Text)
    → (Text → Text → Bool)
    → Map Text
    → (Text → Stopped)
    → RecordingSession
    → List RecordedSpeaker
finish is_alphanumeric to_lowercase renames names stopped s =
    sort_by_name to_lowercase (recorded_each is_alphanumeric renames names stopped s.speakers)
