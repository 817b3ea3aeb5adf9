-- ===== src/Recording/Wav/Appends.antt =====
-- What the appends of `write_loop` leave in the file, with the append that fails among them.
use wire_app.Common.{
  ℕ, zero, suc, ◌+◌, ◌≤◌, ◌≡◌, ◌⊎◌, inl, inr, refl, sym, ap, ◌∙◌, arith, Bool, false, List, [], ◌∷◌,
  ◌++◌, append_assoc, append-nil, length, take, drop, length-append,
}
use wire_app.Recording.Wav.{
  WavFile, Write, whole, fails, overwrite, put, write_all, and_then, append, append_frames, pcm,
}

drop-past : {A : Type 0} (n : ℕ) (xs : List A) → length xs ≤ n → drop n xs ≡ []
drop-past zero [] h = refl
drop-past zero (x ∷ xs) h = absurd (omega arith)
drop-past (suc n) [] h = refl
drop-past (suc n) (x ∷ xs) h = drop-past n xs (omega arith)

take-all : {A : Type 0} (xs : List A) → take (length xs) xs ≡ xs
take-all [] = refl
take-all (x ∷ xs) = ap (◌∷◌ x) (take-all xs)

-- A write at the end of the file.
pub overwrite-end : (at : ℕ) (c b : List ℕ) → at ≡ length c → overwrite at b c ≡ c ++ b
overwrite-end at c b h =
    ap (λ n. take n c ++ b ++ drop (n + length b) c) h
    ∙ rw (drop-past (length c + length b) c (omega arith), take-all c, append-nil (c ++ b)) refl

module _ {Sample : Type 0} (sample_to_i16 : Sample → ℕ) where
  abbrev pub bytes_of : List (List Sample) → List ℕ
  bytes_of [] = []
  bytes_of (x ∷ xs) = pcm sample_to_i16 x ++ bytes_of xs

  -- The file holds the first `count` of the frames, and perhaps a part of the next; all of them
  -- where no append failed.
  pub record Appended (xs : List (List Sample)) (f : WavFile) (r : WavFile × Bool) : Type 0 where
    pub count : ℕ
    pub rest : List ℕ
    pub count_bounds : count ≤ length xs
    pub counted : r.0.frames ≡ f.frames + count
    pub content : r.0.content ≡ f.content ++ bytes_of (take count xs) ++ rest
    pub complete : (count ≡ length xs) ⊎ (r.1 ≡ false)

  -- One append before the others: it fails, or the rest follows.
  append_step :
      (w : Write) (next : WavFile → WavFile × Bool) (x : List Sample) (xs : List (List Sample))
      (f : WavFile)
      → f.cursor ≡ length f.content
      → ((g : WavFile) → g.cursor ≡ length g.content → Appended xs g (next g))
      → Appended (x ∷ xs) f (and_then (append sample_to_i16 w x f) next)
  unfolding and_then append write_all
  append_step whole next x xs f h ih =
      let b = pcm sample_to_i16 x in
      let e : overwrite f.cursor b f.content ≡ f.content ++ b =
        overwrite-end f.cursor f.content b h in
      let r =
        ih (record (put b f) { frames = f.frames + 1 })
          (omega (arith, h, length-append f.content b, ap length e)) in
      record {
        count = suc r.count;
        rest = r.rest;
        count_bounds = omega (arith, r.count_bounds);
        counted = omega (arith, r.counted);
        content =
            r.content
            ∙ ap (λ c. c ++ bytes_of (take r.count xs) ++ r.rest) e
            ∙ ap (λ c. c ++ r.rest) (append_assoc f.content b (bytes_of (take r.count xs)));
        complete = ground (arith, r.complete);
      }
  append_step (fails n) next x xs f h ih = record {
    count = 0;
    rest = take n (pcm sample_to_i16 x);
    count_bounds = omega arith;
    counted = omega arith;
    content =
        overwrite-end f.cursor f.content (take n (pcm sample_to_i16 x)) h
        ∙ ap (λ c. c ++ take n (pcm sample_to_i16 x)) (sym (append-nil f.content));
    complete = inr refl;
  }

  pub append_frames-Appended :
      (e : ℕ → Write) (k : ℕ) (xs : List (List Sample)) (f : WavFile)
      → f.cursor ≡ length f.content
      → Appended xs f (append_frames sample_to_i16 e k xs f)
  unfolding append_frames
  append_frames-Appended e k [] f h = record {
    count = 0;
    rest = [];
    count_bounds = omega arith;
    counted = omega arith;
    content = sym (append-nil (f.content ++ []) ∙ append-nil f.content);
    complete = inl refl;
  }
  append_frames-Appended e k (x ∷ xs) f h =
      append_step (e k) (append_frames sample_to_i16 e (suc k) xs) x xs f h
        (append_frames-Appended e (suc k) xs)
