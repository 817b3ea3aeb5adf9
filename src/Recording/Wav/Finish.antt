-- ===== src/Recording/Wav/Finish.antt =====
-- The finished file, read back by the reader of its parent's sibling.
use wire_app.Common.{
  ℕ, ◌+◌, ◌*◌, ◌≤◌, ◌<◌, ◌≡◌, ◌⊎◌, inl, inr, refl, sym, ap, subst, ◌∙◌, arith, Bool, true, false,
  ◌==◌, leb, List, [], ◌∷◌, ◌++◌, map, append_assoc, Option, some, length, take, length-append,
  length-take, All, All-take, take-length-append,
}
use wire_app.Recording.Wav.{
  frame_samples, to_le_bytes, saturated, wav_header, WavFile, whole, overwrite, write_all, created,
  create, and_then, finalize, Faults, not_appended, WriterOutcome, pcm, append_frames, first_error,
  close, with_file, write_loop,
}
use wire_app.Recording.Wav.Reader.{
  from_le_bytes-to_le_bytes, pairs, pairs-pcm, length-pcm, read_wav,
}
use wire_app.Recording.Wav.Appends.{bytes_of, Appended, append_frames-Appended}

-- The header with these two sizes in it.
abbrev sized : ℕ → ℕ → List ℕ
sized riff size =
    overwrite 40 (to_le_bytes 4 size) (overwrite 4 (to_le_bytes 4 riff) (wav_header 0))

saturated_small : (n : ℕ) → n < 4_294_967_296 → saturated n ≡ n
saturated_small n h = omega arith

finalize-sized :
    (e : Faults) (f : WavFile) (body : List ℕ)
    → e.riff_size ≡ whole
    → e.data_size ≡ whole
    → f.content ≡ wav_header 0 ++ body
    → (finalize e f).0.content
      ≡ sized
          (saturated (36 + f.frames * frame_samples * 2))
          (saturated (f.frames * frame_samples * 2))
        ++ body
unfolding finalize and_then write_all to_le_bytes wav_header
finalize-sized e f body riff size h = rw (riff, size, h) refl

read_wav-sized :
    (d : ℕ) (body : List ℕ)
    → d + 36 < 4_294_967_296
    → d ≤ length body
    → read_wav (sized (36 + d) d ++ body)
      ≡ some (record {
        channels = 1;
        sample_rate = 48_000;
        bits_per_sample = 16;
        samples = pairs (take d body);
      })
unfolding read_wav to_le_bytes wav_header
read_wav-sized d body h l =
    let same_size : (36 + d == d + 36) ≡ true = ground arith in
    let long : leb (d + 44) (length (sized (36 + d) d ++ body)) ≡ true = ground arith in
    rw
      (
        from_le_bytes-to_le_bytes (36 + d) (omega (arith, h)),
        from_le_bytes-to_le_bytes d (omega (arith, h)),
        same_size,
        long,
      )
      refl

first_error-false : (a b : Bool) → a ≡ false → first_error a b ≡ some not_appended
unfolding first_error
first_error-false a b h = rw h refl

-- The file as `create` leaves it.
abbrev fresh : WavFile
fresh = record { content = wav_header 0; cursor = 44; frames = 0 }

create-fresh : (e : Faults) → e.opens ≡ true → e.header ≡ whole → create e ≡ some fresh
unfolding create created write_all wav_header
create-fresh e opens header = rw (opens, header) refl

length-wav_header : length (wav_header 0) ≡ 44
unfolding wav_header to_le_bytes
length-wav_header = refl

module _ {Sample : Type 0} (sample_to_i16 : Sample → ℕ) where
  -- The samples of the frames, one after the other.
  abbrev pub joined : List (List Sample) → List ℕ
  joined [] = []
  joined (x ∷ xs) = map sample_to_i16 x ++ joined xs

  abbrev pub AreFrames : List (List Sample) → Type 0
  AreFrames = All (λ x. length x ≡ frame_samples)

  length-bytes_of :
      (xs : List (List Sample))
      → AreFrames xs
      → length (bytes_of sample_to_i16 xs) ≡ 1_920 * length xs
  length-bytes_of [] h = refl
  length-bytes_of (x ∷ xs) (hx, h) = omega (
    arith,
    length-append (pcm sample_to_i16 x) (bytes_of sample_to_i16 xs),
    length-pcm sample_to_i16 x,
    length-bytes_of xs h,
  )

  map-append :
      (x y : List Sample) → map sample_to_i16 (x ++ y) ≡ map sample_to_i16 x ++ map sample_to_i16 y
  map-append [] y = refl
  map-append (s ∷ x) y = ap (◌∷◌ (sample_to_i16 s)) (map-append x y)

  pcm-append :
      (x y : List Sample) → pcm sample_to_i16 (x ++ y) ≡ pcm sample_to_i16 x ++ pcm sample_to_i16 y
  unfolding pcm to_le_bytes
  pcm-append [] y = refl
  pcm-append (s ∷ x) y = rw (pcm-append x y) refl

  abbrev flatten : List (List Sample) → List Sample
  flatten [] = []
  flatten (x ∷ xs) = x ++ flatten xs

  bytes_of-flatten :
      (xs : List (List Sample)) → bytes_of sample_to_i16 xs ≡ pcm sample_to_i16 (flatten xs)
  unfolding pcm
  bytes_of-flatten [] = refl
  bytes_of-flatten (x ∷ xs) =
      ap (λ t. pcm sample_to_i16 x ++ t) (bytes_of-flatten xs) ∙ sym (pcm-append x (flatten xs))

  joined-flatten : (xs : List (List Sample)) → joined xs ≡ map sample_to_i16 (flatten xs)
  joined-flatten [] = refl
  joined-flatten (x ∷ xs) =
      ap (λ t. map sample_to_i16 x ++ t) (joined-flatten xs) ∙ sym (map-append x (flatten xs))

  pairs-bytes_of :
      ((s : Sample) → sample_to_i16 s < 65_536)
      → (xs : List (List Sample)) → pairs (bytes_of sample_to_i16 xs) ≡ joined xs
  pairs-bytes_of h xs =
      ap pairs (bytes_of-flatten xs)
      ∙ pairs-pcm sample_to_i16 h (flatten xs)
      ∙ sym (joined-flatten xs)

  -- What the file and the outcome of a recording agree on.
  pub record Recorded (xs : List (List Sample)) (r : WriterOutcome × Option (List ℕ)) : Type 0 where
    pub content : List ℕ
    pub on_disk : r.1 ≡ some content
    pub reads :
        read_wav content
        ≡ some (record {
          channels = 1;
          sample_rate = 48_000;
          bits_per_sample = 16;
          samples = joined (take r.0.written xs);
        })
    pub at_most : r.0.written ≤ length xs
    pub all_or_error : (r.0.written ≡ length xs) ⊎ (r.0.error ≡ some not_appended)

  finalize-reads :
      ((s : Sample) → sample_to_i16 s < 65_536)
      → (e : Faults) (xs : List (List Sample)) (g : WavFile) (rest : List ℕ) → e.riff_size ≡ whole
      → e.data_size ≡ whole
      → AreFrames xs
      → 1_920 * length xs + 36 < 4_294_967_296
      → g.frames ≤ length xs
      → g.content ≡ wav_header 0 ++ bytes_of sample_to_i16 (take g.frames xs) ++ rest
      → read_wav (finalize e g).0.content
        ≡ some (record {
          channels = 1;
          sample_rate = 48_000;
          bits_per_sample = 16;
          samples = joined (take g.frames xs);
        })
  finalize-reads h16 e xs g rest riff size frames small most content =
      let bytes = bytes_of sample_to_i16 (take g.frames xs) in
      let d = length bytes in
      let l : d ≡ 1_920 * g.frames = omega (
        arith,
        length-bytes_of (take g.frames xs)
            (All-take (λ x. length x ≡ frame_samples) g.frames xs frames),
        length-take g.frames xs most,
      ) in
      let riff_is : saturated (36 + g.frames * frame_samples * 2) ≡ 36 + d = omega arith in
      let size_is : saturated (g.frames * frame_samples * 2) ≡ d = omega arith in
      ap read_wav (
        finalize-sized e g (bytes ++ rest) riff size
          (content ∙ append_assoc (wav_header 0) bytes rest)
        ∙ ap (λ n. sized n (saturated (g.frames * frame_samples * 2)) ++ (bytes ++ rest)) riff_is
        ∙ ap (λ n. sized (36 + d) n ++ (bytes ++ rest)) size_is)
      ∙ read_wav-sized d (bytes ++ rest) (omega arith) (omega (arith, length-append bytes rest))
      ∙ ap
          (λ b. some (record {
            channels = 1;
            sample_rate = 48_000;
            bits_per_sample = 16;
            samples = pairs b;
          }))
          (take-length-append bytes rest)
      ∙ ap
          (λ b.
            some (record { channels = 1; sample_rate = 48_000; bits_per_sample = 16; samples = b }))
          (pairs-bytes_of h16 (take g.frames xs))

  close-Recorded :
      ((s : Sample) → sample_to_i16 s < 65_536)
      → (e : Faults) (xs : List (List Sample)) (f : WavFile) (r : WavFile × Bool)
      → e.riff_size ≡ whole
      → e.data_size ≡ whole
      → AreFrames xs
      → 1_920 * length xs + 36 < 4_294_967_296
      → f.content ≡ wav_header 0
      → f.frames ≡ 0
      → Appended sample_to_i16 xs f r
      → Recorded xs (close sample_to_i16 e r)
  unfolding close
  close-Recorded h16 e xs f r riff size frames small header zero_frames a =
      let n : a.count ≡ r.0.frames = omega (arith, a.counted, zero_frames) in
      record {
        content = (finalize e r.0).0.content;
        on_disk = refl;
        reads =
            finalize-reads h16 e xs r.0 a.rest riff size frames small
              (omega (arith, a.count_bounds))
              (a.content
                ∙ ap (λ c. c ++ bytes_of sample_to_i16 (take a.count xs) ++ a.rest) header
                ∙ ap (λ k. wav_header 0 ++ bytes_of sample_to_i16 (take k xs) ++ a.rest) n);
        at_most = omega (arith, a.count_bounds);
        all_or_error = elim a.complete [
          | inl all ↦ inl (omega (arith, all))
          | inr failed ↦ inr (first_error-false r.1 _ failed)
        ];
      }

  -- The samples have 16 bits; the file could be created with its header, and the sizes were written;
  -- every frame has 960 samples, and the recording is shorter than 4 GiB. Then the file is on the disk
  -- and a WAV reader gives the samples of exactly the frames that the outcome counts, in order, in one
  -- channel at 48 kHz, whether an append failed in its midst or not; and these are all the
  -- frames, or the outcome says that an append failed.
  pub write_loop-Recorded :
      ((s : Sample) → sample_to_i16 s < 65_536)
      → (e : Faults) (x : List Sample) (xs : List (List Sample)) → e.opens ≡ true
      → e.header ≡ whole
      → e.riff_size ≡ whole
      → e.data_size ≡ whole
      → AreFrames (x ∷ xs)
      → 1_920 * length (x ∷ xs) + 36 < 4_294_967_296
      → Recorded (x ∷ xs) (write_loop sample_to_i16 e (x ∷ xs))
  unfolding write_loop with_file
  write_loop-Recorded h16 e x xs opens header riff size frames small =
      subst (λ c. Recorded (x ∷ xs) (with_file sample_to_i16 e (x ∷ xs) c))
        (sym (create-fresh e opens header))
        (close-Recorded h16 e (x ∷ xs) fresh
          (append_frames sample_to_i16 e.appends 0 (x ∷ xs) fresh) riff size frames small refl refl
          (append_frames-Appended sample_to_i16 e.appends 0 (x ∷ xs) fresh (sym length-wav_header)))
