-- ===== src/Recording/Tap/Timeline.antt =====
-- What the steps of the engine and of the writer leave of the ticks.
use wire_app.Common.{
  ℕ, zero, suc, ◌+◌, ◌≤◌, ◌<◌, ◌≡◌, ◌⊎◌, inl, inr, refl, sym, ap, subst, ◌∙◌, arith, false, List,
  [], ◌∷◌, ◌++◌, append_assoc, append-nil, length, length-append,
}
use wire_app.Recording.Wav.{frame_samples}
use wire_app.Recording.Tap.{
  frame_queue_capacity, fitted, mixed, frame, Tap, sent, full, disconnected, try_send, after_send,
  push, tick, start_speaker_writer, Step, ticks, receives, ends, stops, recv, step, run,
}

-- The first list is the second with some of its members left out.
pub data Subsequence {A : Type 0} : List A → List A → Type 0 where
  done : Subsequence [] []
  keeps : {xs ys : List A} (x : A) → Subsequence xs ys → Subsequence (x ∷ xs) (x ∷ ys)
  skips : {xs ys : List A} (y : A) → Subsequence xs ys → Subsequence xs (y ∷ ys)

module _ {A : Type 0} where
  keep_last :
      {xs ys : List A} (x : A) → Subsequence xs ys → Subsequence (xs ++ x ∷ []) (ys ++ x ∷ [])
  keep_last x done = keeps x done
  keep_last x (keeps y s) = keeps y (keep_last x s)
  keep_last x (skips y s) = skips y (keep_last x s)

  skip_last : {xs ys : List A} (x : A) → Subsequence xs ys → Subsequence xs (ys ++ x ∷ [])
  skip_last x done = skips x done
  skip_last x (keeps y s) = keeps y (skip_last x s)
  skip_last x (skips y s) = skips y (skip_last x s)

  none_kept : (ys : List A) → Subsequence [] ys
  none_kept [] = done
  none_kept (y ∷ ys) = skips y (none_kept ys)

  pub before_more : (xs zs : List A) → Subsequence xs (xs ++ zs)
  before_more [] zs = none_kept zs
  before_more (x ∷ xs) zs = keeps x (before_more xs zs)

  pub Subsequence-trans :
      {ys zs : List A} → Subsequence ys zs → {xs : List A} → Subsequence xs ys → Subsequence xs zs
  Subsequence-trans done s = s
  Subsequence-trans (keeps x t) (keeps _ s) = keeps x (Subsequence-trans t s)
  Subsequence-trans (keeps x t) (skips _ s) = skips x (Subsequence-trans t s)
  Subsequence-trans (skips y t) s = skips y (Subsequence-trans t s)

send_cases :
    {Sample : Type 0} (t : Tap Sample)
    → ((try_send t ≡ sent) × (length t.queue < frame_queue_capacity))
      ⊎ (try_send t ≡ full)
      ⊎ (try_send t ≡ disconnected)
send_cases t = ground arith

module _ {Sample : Type 0} (silence : Sample) (mono : Sample → Sample → Sample) where
  length-fitted : (n : ℕ) (xs : List Sample) → length (fitted silence mono n xs) ≡ n
  length-fitted zero xs = refl
  length-fitted (suc n) [] = ap suc (length-fitted n [])
  length-fitted (suc n) (x ∷ xs) = ap suc (length-fitted n xs)

  pub length-frame : (buf : List Sample) → length (frame silence mono buf) ≡ frame_samples
  unfolding frame
  length-frame buf = length-fitted frame_samples (mixed silence mono buf)

  -- The frames of the ticks.
  abbrev pub frames_of : Step silence mono → List (List Sample)
  frames_of (ticks buf) = frame silence mono buf ∷ []
  frames_of receives = []
  frames_of ends = []
  frames_of stops = []

  abbrev pub frames : List (Step silence mono) → List (List Sample)
  frames [] = []
  frames (s ∷ ss) = frames_of s ++ frames ss

  -- The tap and its writer after ticks with these frames. The channel is never above its capacity; the
  -- frames that got through are in the order of their ticks. While both ends are open, every tick is
  -- counted as one frame or as a dropped one, and where none was dropped the frames are all of them.
  pub record Timeline (fs : List (List Sample)) (t : Tap Sample) : Type 0 where
    pub bounded : length t.queue ≤ frame_queue_capacity
    pub in_order : Subsequence (t.received ++ t.queue) fs
    pub counted :
        (length (t.received ++ t.queue) + t.dropped_frames ≡ length fs)
        ⊎ (t.connected ≡ false)
        ⊎ (t.receiving ≡ false)
    pub whole :
        (t.received ++ t.queue ≡ fs)
        ⊎ (1 ≤ t.dropped_frames)
        ⊎ (t.connected ≡ false)
        ⊎ (t.receiving ≡ false)

  sent-Timeline :
      (fs : List (List Sample)) (x : List Sample) (t : Tap Sample)
      → length t.queue < frame_queue_capacity
      → Timeline fs t
      → Timeline (fs ++ x ∷ []) (after_send sent x t)
  unfolding after_send
  sent-Timeline fs x t room h = record {
    bounded = omega (arith, length-append t.queue (x ∷ []));
    in_order = rw (← append_assoc t.received t.queue (x ∷ [])) (keep_last x h.in_order);
    counted = rw (← append_assoc t.received t.queue (x ∷ [])) (
        ground (
          arith,
          h.counted,
          length-append (t.received ++ t.queue) (x ∷ []),
          length-append fs (x ∷ []),
        ));
    whole =
        rw (← append_assoc t.received t.queue (x ∷ []))
          (elim h.whole [ inl e ↦ inl (ap (λ l. l ++ x ∷ []) e) | inr r ↦ inr r ]);
  }

  full-Timeline :
      (fs : List (List Sample)) (x : List Sample) (t : Tap Sample)
      → Timeline fs t
      → Timeline (fs ++ x ∷ []) (after_send full x t)
  unfolding after_send
  full-Timeline fs x t h = record {
    bounded = h.bounded;
    in_order = skip_last x h.in_order;
    counted = ground (arith, h.counted, length-append fs (x ∷ []));
    whole = inr (inl (omega arith));
  }

  -- Nothing more gets through once an end is closed.
  closed-Timeline :
      (fs : List (List Sample)) (x : List Sample) (t u : Tap Sample)
      → (t.received ≡ u.received) × (t.queue ≡ u.queue)
      → (u.connected ≡ false) ⊎ (u.receiving ≡ false)
      → Timeline fs t
      → Timeline (fs ++ x ∷ []) u
  closed-Timeline fs x t u (r, q) closed h = record {
    bounded = rw (← q) h.bounded;
    in_order = rw (← r, ← q) (skip_last x h.in_order);
    counted = inr closed;
    whole = inr (inr closed);
  }

  after_send-Timeline :
      (fs : List (List Sample)) (x : List Sample) (t : Tap Sample)
      → Timeline fs t
      → Timeline (fs ++ x ∷ []) (after_send (try_send t) x t)
  unfolding after_send
  after_send-Timeline fs x t h = elim (send_cases t) [
    | inl (e, room) ↦
        subst (λ o. Timeline (fs ++ x ∷ []) (after_send o x t)) (sym e)
          (sent-Timeline fs x t room h)
    | inr (inl e) ↦
        subst (λ o. Timeline (fs ++ x ∷ []) (after_send o x t)) (sym e) (full-Timeline fs x t h)
    | inr (inr e) ↦
        subst (λ o. Timeline (fs ++ x ∷ []) (after_send o x t)) (sym e)
          (closed-Timeline fs x t (after_send disconnected x t) (refl, refl) (inl refl) h)
  ]

  push_cases :
      (buf : List Sample) (t : Tap Sample)
      → (push silence mono buf t ≡ after_send (try_send t) (frame silence mono buf) t)
        ⊎ ((push silence mono buf t ≡ t) × (t.connected ≡ false))
  unfolding push
  push_cases buf t = ground arith

  push-Timeline :
      (fs : List (List Sample)) (buf : List Sample) (t : Tap Sample)
      → Timeline fs t
      → Timeline (fs ++ frame silence mono buf ∷ []) (push silence mono buf t)
  push-Timeline fs buf t h = elim (push_cases buf t) [
    | inl e ↦ rw e (after_send-Timeline fs (frame silence mono buf) t h)
    | inr (e, shut) ↦
        rw e (closed-Timeline fs (frame silence mono buf) t t (refl, refl) (inl shut) h)
  ]

  tick_cases :
      (buf : List Sample) (t : Tap Sample)
      → ((tick silence mono buf t).0 ≡ push silence mono buf t)
        ⊎ ((tick silence mono buf t).0 ≡ record t { connected = false })
  unfolding tick
  tick_cases buf t = ground arith

  tick-Timeline :
      (fs : List (List Sample)) (buf : List Sample) (t : Tap Sample)
      → Timeline fs t
      → Timeline (fs ++ frame silence mono buf ∷ []) (tick silence mono buf t).0
  tick-Timeline fs buf t h = elim (tick_cases buf t) [
    | inl e ↦ rw e (push-Timeline fs buf t h)
    | inr e ↦ rw e (
        closed-Timeline fs (frame silence mono buf) t (record t { connected = false }) (refl, refl)
          (inl refl) h)
  ]

  recv-Timeline :
      (fs : List (List Sample)) (q : List (List Sample)) (t : Tap Sample)
      → t.queue ≡ q
      → Timeline fs t
      → Timeline fs (recv silence mono q t)
  unfolding recv
  recv-Timeline fs [] t e h = h
  recv-Timeline fs (x ∷ xs) t e h =
      let same : t.received ++ x ∷ [] ++ xs ≡ t.received ++ t.queue =
        append_assoc t.received (x ∷ []) xs ∙ ap (λ q. t.received ++ q) (sym e) in
      record {
        bounded = omega (arith, h.bounded, ap length e);
        in_order = rw same h.in_order;
        counted = rw same h.counted;
        whole = rw same h.whole;
      }

  receive_cases :
      (t : Tap Sample)
      → (step silence mono receives t ≡ recv silence mono t.queue t)
        ⊎ (step silence mono receives t ≡ t)
  unfolding step
  receive_cases t = ground arith

  step-Timeline :
      (fs : List (List Sample)) (s : Step silence mono) (t : Tap Sample)
      → Timeline fs t
      → Timeline (fs ++ frames_of s) (step silence mono s t)
  unfolding step
  step-Timeline fs (ticks buf) t h = tick-Timeline fs buf t h
  step-Timeline fs receives t h =
      rw (append-nil fs) (elim (receive_cases t) [
        | inl e ↦ rw e (recv-Timeline fs t.queue t refl h)
        | inr e ↦ rw e h
      ])
  step-Timeline fs ends t h = rw (append-nil fs) (record {
    bounded = omega arith;
    in_order =
        rw (append-nil t.received) (Subsequence-trans h.in_order (before_more t.received t.queue));
    counted = inr (inr refl);
    whole = inr (inr (inr refl));
  })
  step-Timeline fs stops t h =
      rw (append-nil fs) (record {
        bounded = h.bounded;
        in_order = h.in_order;
        counted = h.counted;
        whole = h.whole;
      })

  run-extends :
      (ss : List (Step silence mono)) (fs : List (List Sample)) (t : Tap Sample)
      → Timeline fs t
      → Timeline (fs ++ frames ss) (run silence mono ss t)
  run-extends [] fs t h = rw (append-nil fs) h
  run-extends (s ∷ ss) fs t h =
      rw (← append_assoc fs (frames_of s) (frames ss))
        (run-extends ss (fs ++ frames_of s) (step silence mono s t) (step-Timeline fs s t h))

  -- However the ticks of the engine, the receives and the end of the writer, and the stop follow each
  -- other, a recording that starts with an empty channel keeps a `Timeline` of its ticks: the channel
  -- never holds more than 256 frames, what got through is in order, and while both ends are open each
  -- tick is one frame or one dropped frame, and all of them are there where none was dropped.
  pub run-Timeline :
      (ss : List (Step silence mono))
      → Timeline (frames ss) (run silence mono ss start_speaker_writer)
  run-Timeline ss =
      run-extends ss [] start_speaker_writer
        (record { bounded = omega arith; in_order = done; counted = inl refl; whole = inl refl })
