-- ===== src/Recording/Session/Files.antt =====
-- No two speakers have one file.
use wire_app.Common.{
  ℕ, ◌+◌, ◌%◌, ◌^◌, ◌<◌, ◌≤◌, ◌≡◌, ◌≢◌, refl, sym, ap, ◌∙◌, Bool, false, List, [], ◌∷◌, Option,
  none, some, arith, Text, text_eq, text_lt, All, length, Bool-cases, inl, inr, text_eq_iff,
}
use wire_app.Common.Map.{Map, insert, contains_key}
use wire_app.Recording.Session.{
  SpeakerRecorder, RecordingSession, started, reserve_slot, attach, Stopped, RecordedSpeaker,
  recorded, recorded_each, insert_by_key, sort_by_name, finish,
}
use wire_app.Recording.Session.Names.{read_index, read_index-file_name_of, recorded-read_index}

abbrev pub shares : Option Text → Option Text → Bool
shares none b = false
shares (some t) none = false
shares (some t) (some u) = text_eq t u

-- Two speakers have no file in common.
abbrev pub Differ : RecordedSpeaker → RecordedSpeaker → Type 0
Differ x y = shares x.file_name y.file_name ≡ false

apart_files : (a b : Option Text) → ((t : Text) → a ≡ some t → b ≢ some t) → shares a b ≡ false
apart_files none b h = refl
apart_files (some t) none h = refl
apart_files (some t) (some u) h = elim (Bool-cases (text_eq t u)) [
  | inl e ↦ absurd (h t refl (ap some (sym ((text_eq_iff t u).0 e))))
  | inr e ↦ e
]

shares_comm : (a b : Option Text) → shares a b ≡ shares b a
shares_comm none none = refl
shares_comm none (some u) = refl
shares_comm (some t) none = refl
shares_comm (some t) (some u) = ground (arith, text_eq_iff t u, text_eq_iff u t)

abbrev pub HasDistinctFiles : List RecordedSpeaker → Type 0
HasDistinctFiles [] = Unit
HasDistinctFiles (x ∷ xs) = All (Differ x) xs × HasDistinctFiles xs

abbrev Apart : SpeakerRecorder → Map SpeakerRecorder → Type 0
Apart r m = All (λ (q : Text × SpeakerRecorder). r.index ≢ q.1.index) m

abbrev HasDistinctIndices : Map SpeakerRecorder → Type 0
HasDistinctIndices [] = Unit
HasDistinctIndices ((node, r) ∷ m) = Apart r m × HasDistinctIndices m

-- Each speaker has an index that was given, and a file name with it.
record IsValid (s : RecordingSession) : Type 0 where
  distinct : HasDistinctIndices s.speakers
  each :
      All
        (λ (q : Text × SpeakerRecorder).
          (q.1.index < s.next_index) × (read_index 0 q.1.file_name ≡ q.1.index))
        s.speakers

All-insert :
    {V : Type 0} (P : Text × V → Type 0) (k : Text) (v : V) (m : Map V)
    → P (k, v)
    → All P m
    → All P (insert k v m)
unfolding insert
All-insert P k v [] p h = (p, tt)
All-insert P k v ((j, w) ∷ m) p h = elim (Bool-cases (text_eq j k)) [
  | inl e ↦ rw e (p, h.1)
  | inr e ↦ elim (Bool-cases (text_lt k j)) [
    | inl f ↦ rw (e, f) (p, h)
    | inr f ↦ rw (e, f) (h.0, All-insert P k v m p h.1)
  ]
]

HasDistinctIndices-insert :
    (k : Text) (r : SpeakerRecorder) (m : Map SpeakerRecorder)
    → Apart r m
    → HasDistinctIndices m
    → HasDistinctIndices (insert k r m)
unfolding insert
HasDistinctIndices-insert k r [] a h = (tt, tt)
HasDistinctIndices-insert k r ((j, q) ∷ m) a h = elim (Bool-cases (text_eq j k)) [
  | inl e ↦ rw e (a.1, h.1)
  | inr e ↦ elim (Bool-cases (text_lt k j)) [
    | inl f ↦ rw (e, f) (a, h)
    | inr f ↦
        rw (e, f)
          (
            All-insert (λ (x : Text × SpeakerRecorder). q.index ≢ x.1.index) k r m
                (λ i. a.0 (sym i)) h.0,
            HasDistinctIndices-insert k r m a.1 h.1,
          )
  ]
]

-- A call of `attach_microphone` or `attach_participant`.
pub record Attach : Type 0 where
  pub node : Text
  pub name : Text
  pub starts : Bool

all_weaker :
    (n : ℕ) (m : Map SpeakerRecorder)
    → All
        (λ (q : Text × SpeakerRecorder). (q.1.index < n) × (read_index 0 q.1.file_name ≡ q.1.index))
        m
    → All
        (λ (q : Text × SpeakerRecorder).
          (q.1.index < n + 1) × (read_index 0 q.1.file_name ≡ q.1.index))
        m
all_weaker n [] h = tt
all_weaker n (q ∷ m) h = ((omega (arith, h.0.0), h.0.1), all_weaker n m h.1)

all-Apart :
    (r : SpeakerRecorder) (m : Map SpeakerRecorder)
    → All
        (λ (q : Text × SpeakerRecorder).
          (q.1.index < r.index) × (read_index 0 q.1.file_name ≡ q.1.index))
        m
    → Apart r m
all-Apart r [] h = tt
all-Apart r (q ∷ m) h = (λ e. absurd (omega (arith, h.0.0, e)), all-Apart r m h.1)

module _ (is_alphanumeric : ℕ → Bool) where
  unfoldable pub run : List Attach → RecordingSession → RecordingSession
  run [] s = s
  run (a ∷ calls) s = run calls (attach is_alphanumeric a.node a.name a.starts s)

  attach-IsValid :
      (node name : Text) (starts : Bool) (s : RecordingSession)
      → s.next_index + 1 < 2 ^ 32
      → IsValid s
      → IsValid (attach is_alphanumeric node name starts s)
        × ((attach is_alphanumeric node name starts s).next_index ≤ s.next_index + 1)
  unfolding attach reserve_slot
  attach-IsValid node name starts s b h =
      let next : (s.next_index + 1) % 2 ^ 32 ≡ s.next_index + 1 = omega (arith, b) in
      let slot = (reserve_slot is_alphanumeric name s).0 in
      let later = all_weaker s.next_index s.speakers h.each in
      elim (Bool-cases (contains_key node s.speakers)) [
        | inl c ↦ rw c (h, omega arith)
        | inr c ↦ elim (Bool-cases starts) [
          | inr d ↦ rw (c, d, next) (record { distinct = h.distinct; each = later }, omega arith)
          | inl d ↦
              rw (c, d, next)
                (
                  record {
                    distinct =
                        HasDistinctIndices-insert node slot s.speakers
                          (all-Apart slot s.speakers h.each) h.distinct;
                    each =
                        All-insert
                          (λ (q : Text × SpeakerRecorder).
                            (q.1.index < s.next_index + 1)
                            × (read_index 0 q.1.file_name ≡ q.1.index))
                          node slot s.speakers
                          (omega arith, read_index-file_name_of is_alphanumeric s.next_index name)
                          later;
                  },
                  omega arith,
                )
        ]
      ]

  run-IsValid :
      (calls : List Attach) (s : RecordingSession)
      → s.next_index + length calls < 2 ^ 32
      → IsValid s
      → IsValid (run calls s)
  unfolding run
  run-IsValid [] s b h = h
  run-IsValid (a ∷ calls) s b h =
      let first = attach-IsValid a.node a.name a.starts s (omega (arith, b)) h in
      run-IsValid calls (attach is_alphanumeric a.node a.name a.starts s)
        (omega (arith, b, first.1)) first.0

  module _ (to_lowercase : Text → Text) (renames : Text → Text → Bool) (names : Map Text)
      (stopped : Text → Stopped) where
    recorded-Differ :
        (node : Text) (r : SpeakerRecorder) (m : Map SpeakerRecorder)
        → read_index 0 r.file_name ≡ r.index
        → Apart r m
        → All (λ (q : Text × SpeakerRecorder). read_index 0 q.1.file_name ≡ q.1.index) m
        → All
            (Differ (recorded is_alphanumeric renames names stopped node r))
            (recorded_each is_alphanumeric renames names stopped m)
    unfolding recorded_each
    recorded-Differ node r [] h a e = tt
    recorded-Differ node r ((j, q) ∷ m) h a e = (
      apart_files _ _ (λ t f g. a.0 (
          sym (recorded-read_index is_alphanumeric renames names stopped node r t h f)
          ∙ recorded-read_index is_alphanumeric renames names stopped j q t e.0 g)),
      recorded-Differ node r m h a.1 e.1,
    )

    recorded_each-HasDistinctFiles :
        (m : Map SpeakerRecorder)
        → HasDistinctIndices m
        → All (λ (q : Text × SpeakerRecorder). read_index 0 q.1.file_name ≡ q.1.index) m
        → HasDistinctFiles (recorded_each is_alphanumeric renames names stopped m)
    unfolding recorded_each
    recorded_each-HasDistinctFiles [] h e = tt
    recorded_each-HasDistinctFiles ((node, r) ∷ m) h e =
        (recorded-Differ node r m e.0 h.0 e.1, recorded_each-HasDistinctFiles m h.1 e.1)

    All-insert_by_key :
        (P : RecordedSpeaker → Type 0) (x : RecordedSpeaker) (xs : List RecordedSpeaker)
        → P x
        → All P xs
        → All P (insert_by_key to_lowercase x xs)
    unfolding insert_by_key
    All-insert_by_key P x [] p h = (p, tt)
    All-insert_by_key P x (y ∷ ys) p h =
        elim (Bool-cases (text_lt (to_lowercase y.name) (to_lowercase x.name))) [
          | inl e ↦ rw e (h.0, All-insert_by_key P x ys p h.1)
          | inr e ↦ rw e (p, h)
        ]

    insert_by_key-HasDistinctFiles :
        (x : RecordedSpeaker) (xs : List RecordedSpeaker)
        → All (Differ x) xs
        → HasDistinctFiles xs
        → HasDistinctFiles (insert_by_key to_lowercase x xs)
    unfolding insert_by_key
    insert_by_key-HasDistinctFiles x [] a h = (tt, tt)
    insert_by_key-HasDistinctFiles x (y ∷ ys) a h =
        elim (Bool-cases (text_lt (to_lowercase y.name) (to_lowercase x.name))) [
          | inl e ↦ rw e (
            All-insert_by_key (Differ y) x ys (shares_comm y.file_name x.file_name ∙ a.0) h.0,
            insert_by_key-HasDistinctFiles x ys a.1 h.1,
          )
          | inr e ↦ rw e (a, h)
        ]

    All-sort_by_name :
        (P : RecordedSpeaker → Type 0) (xs : List RecordedSpeaker)
        → All P xs
        → All P (sort_by_name to_lowercase xs)
    unfolding sort_by_name
    All-sort_by_name P [] h = tt
    All-sort_by_name P (x ∷ xs) h =
        All-insert_by_key P x (sort_by_name to_lowercase xs) h.0 (All-sort_by_name P xs h.1)

    sort_by_name-HasDistinctFiles :
        (xs : List RecordedSpeaker)
        → HasDistinctFiles xs
        → HasDistinctFiles (sort_by_name to_lowercase xs)
    unfolding sort_by_name
    sort_by_name-HasDistinctFiles [] h = tt
    sort_by_name-HasDistinctFiles (x ∷ xs) h =
        insert_by_key-HasDistinctFiles x (sort_by_name to_lowercase xs)
          (All-sort_by_name (Differ x) xs h.0) (sort_by_name-HasDistinctFiles xs h.1)

    all_made :
        (n : ℕ) (m : Map SpeakerRecorder)
        → All
            (λ (q : Text × SpeakerRecorder).
              (q.1.index < n) × (read_index 0 q.1.file_name ≡ q.1.index))
            m
        → All (λ (q : Text × SpeakerRecorder). read_index 0 q.1.file_name ≡ q.1.index) m
    all_made n [] h = tt
    all_made n (q ∷ m) h = (h.0.1, all_made n m h.1)

    -- No recording takes the place of another: after any calls that attach speakers of any names, fewer than 2^32, some
    -- of which fail, no two speakers of the summary have one file, whatever the names are that `finish` is given and
    -- whichever renames fail.
    pub finish-HasDistinctFiles :
        (calls : List Attach)
        → length calls < 2 ^ 32
        → HasDistinctFiles
            (finish is_alphanumeric to_lowercase renames names stopped (run calls started))
    unfolding finish
    finish-HasDistinctFiles calls b =
        let s = run calls started in
        let valid =
          run-IsValid calls started (omega (arith, b)) (record { distinct = tt; each = tt }) in
        sort_by_name-HasDistinctFiles
          (recorded_each is_alphanumeric renames names stopped s.speakers)
          (recorded_each-HasDistinctFiles s.speakers valid.distinct
            (all_made s.next_index s.speakers valid.each))
