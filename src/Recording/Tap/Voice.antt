-- ===== src/Recording/Tap/Voice.antt =====
-- `VoiceSource` and `decode_loop` in recording.rs: the recorder of a remote speaker, one iteration
-- of its loop at a time. Opening a decoder and its ticks are inputs of the iteration. The clock of
-- the loop only waits and has no counterpart.
use wire_app.Common.{
  ℕ, ◌≡◌, ◌⊎◌, inl, inr, refl, ap, ◌∙◌, arith, Bool, true, false, ◌==◌, if◌then◌else◌, Option, none,
  some, List, [],
}
use wire_app.Recording.Tap.{Tap, push}

module _ {Track : Type 0} where
  -- The lock of the source is never poisoned. The Boolean says whether anything changed.
  unfoldable pub replace : ℕ → Track → Option (ℕ × Track) → Option (ℕ × Track) × Bool
  replace generation track none = (some (generation, track), true)
  replace generation track (some (seen, old)) =
      if seen == generation then (some (seen, old), false) else (some (generation, track), true)

  unfoldable pub undecoded : ℕ → Option (ℕ × Track) → Option (ℕ × Track)
  undecoded seen none = none
  undecoded seen (some (generation, track)) =
      if generation == seen then none else some (generation, track)

-- `tick` of a decoder: samples, the end of the track, or an error.
pub data Decoded (Sample : Type 0) : Type 0 where
  continues : List Sample → Decoded Sample
  breaks errs : Decoded Sample

-- The variables of the loop; `running` is false once it has left.
pub record Recorder (Sample Decoder : Type 0) : Type 0 where
  pub decoded : ℕ
  pub decoder : Option Decoder
  pub tap : Tap Sample
  pub running : Bool

module _ {Sample : Type 0} {Track : Type 0} {Decoder : Type 0} (silence : Sample)
    (mono : Sample → Sample → Sample) (open_decoder : Track → Option Decoder)
    (decode : Decoder → Decoder × Decoded Sample) where
  unfoldable pub opened : ℕ → Option Decoder → Recorder Sample Decoder → Recorder Sample Decoder
  opened generation (some d) r = record r { decoded = generation; decoder = some d }
  opened generation none r = record r { decoded = generation }

  unfoldable pub adopt : Option (ℕ × Track) → Recorder Sample Decoder → Recorder Sample Decoder
  unfolding opened
  adopt none r = r
  adopt (some (generation, track)) r = opened generation (open_decoder track) r

  unfoldable pub heard :
      Decoder × Decoded Sample → Recorder Sample Decoder → Recorder Sample Decoder
  heard (d, continues samples) r = record r {
    decoder = some d;
    tap = push silence mono samples r.tap;
  }
  heard (d, breaks) r = record r { decoder = none }
  heard (d, errs) r = record r { running = false }

  unfoldable pub listen : Option Decoder → Recorder Sample Decoder → Recorder Sample Decoder
  unfolding heard
  listen none r = record r { tap = push silence mono [] r.tap }
  listen (some d) r = heard (decode d) r

  -- One iteration, with the track that the source holds.
  unfoldable pub iterate : Option (ℕ × Track) → Recorder Sample Decoder → Recorder Sample Decoder
  unfolding adopt listen
  iterate source r =
      if r.tap.stop
      then record r { running = false }
      else let a = adopt (undecoded r.decoded source) r in listen a.decoder a

  -- What an iteration does to the tap.
  pub data Iteration (r : Recorder Sample Decoder) : Recorder Sample Decoder → Type 0 where
    pushed :
        {r' : Recorder Sample Decoder} (samples : List Sample)
        → r'.tap ≡ push silence mono samples r.tap
        → r'.running ≡ r.running
        → Iteration r r'
    hung_up :
        {r' : Recorder Sample Decoder}
        → r'.tap ≡ r.tap
        → r'.decoder ≡ none
        → r'.running ≡ r.running
        → Iteration r r'
    left : {r' : Recorder Sample Decoder} → r'.tap ≡ r.tap → r'.running ≡ false → Iteration r r'

  heard-Iteration :
      (h : Decoder × Decoded Sample) (r a : Recorder Sample Decoder)
      → a.tap ≡ r.tap
      → a.running ≡ r.running
      → Iteration r (heard h a)
  unfolding heard
  heard-Iteration (d, continues samples) r a t g =
      pushed samples (ap (push silence mono samples) t) g
  heard-Iteration (d, breaks) r a t g = hung_up t refl g
  heard-Iteration (d, errs) r a t g = left t refl

  listen-Iteration :
      (d : Option Decoder) (r a : Recorder Sample Decoder)
      → a.tap ≡ r.tap
      → a.running ≡ r.running
      → Iteration r (listen d a)
  unfolding listen
  listen-Iteration none r a t g = pushed [] (ap (push silence mono []) t) g
  listen-Iteration (some d) r a t g = heard-Iteration (decode d) r a t g

  opened_same :
      (n : ℕ) (d : Option Decoder) (r : Recorder Sample Decoder)
      → ((opened n d r).tap ≡ r.tap)
        × ((opened n d r).running ≡ r.running)
        × ((opened n d r).decoded ≡ n)
  unfolding opened
  opened_same n none r = (refl, refl, refl)
  opened_same n (some d) r = (refl, refl, refl)

  adopt_same :
      (s : Option (ℕ × Track)) (r : Recorder Sample Decoder)
      → ((adopt s r).tap ≡ r.tap) × ((adopt s r).running ≡ r.running)
  unfolding adopt
  adopt_same none r = (refl, refl)
  adopt_same (some (n, t)) r = let o = opened_same n (open_decoder t) r in (o.0, o.1)

  iterate_cases :
      (source : Option (ℕ × Track)) (r : Recorder Sample Decoder)
      → ((iterate source r ≡ record r { running = false }) × (r.tap.stop ≡ true))
        ⊎ (iterate source r
            ≡ listen
                (adopt (undecoded r.decoded source) r).decoder
                (adopt (undecoded r.decoded source) r))
  unfolding iterate
  iterate_cases source r = ground arith

  -- An iteration gives the tap one tick of samples; or none, where the track has ended or the loop is
  -- left.
  pub iterate-Iteration :
      (source : Option (ℕ × Track)) (r : Recorder Sample Decoder) → Iteration r (iterate source r)
  iterate-Iteration source r = elim (iterate_cases source r) [
    | inl (e, stop) ↦ rw e (left refl refl)
    | inr e ↦
        let a = adopt (undecoded r.decoded source) r in
        let s = adopt_same (undecoded r.decoded source) r in
        rw e (listen-Iteration a.decoder r a s.0 s.1)
  ]

  heard-decoded :
      (h : Decoder × Decoded Sample) (r : Recorder Sample Decoder) → (heard h r).decoded ≡ r.decoded
  unfolding heard
  heard-decoded (d, continues samples) r = refl
  heard-decoded (d, breaks) r = refl
  heard-decoded (d, errs) r = refl

  listen-decoded :
      (d : Option Decoder) (r : Recorder Sample Decoder) → (listen d r).decoded ≡ r.decoded
  unfolding listen
  listen-decoded none r = refl
  listen-decoded (some d) r = heard-decoded (decode d) r

  adopt-decoded :
      (n : ℕ) (t : Track) (r : Recorder Sample Decoder)
      → (adopt (undecoded r.decoded (some (n, t))) r).decoded ≡ n
  unfolding adopt undecoded
  adopt-decoded n t r = ground (arith, opened_same n (open_decoder t) r)

  undecoded_same : (n : ℕ) (t : Track) → undecoded n (some (n, t)) ≡ none
  unfolding undecoded
  undecoded_same n t = ground arith

  -- Unless the recorder is told to stop, an iteration deals with the track that the source holds,
  -- whether it could be opened or not: the next iteration does not open it again.
  pub iterate-undecoded :
      (n : ℕ) (t : Track) (r : Recorder Sample Decoder)
      → r.tap.stop ≡ false
      → undecoded (iterate (some (n, t)) r).decoded (some (n, t)) ≡ none
  iterate-undecoded n t r go = elim (iterate_cases (some (n, t)) r) [
    | inl (e, stop) ↦ absurd (ground arith)
    | inr e ↦
        let a = adopt (undecoded r.decoded (some (n, t))) r in
        let d : (iterate (some (n, t)) r).decoded ≡ n =
          ap (λ q. q.decoded) e ∙ listen-decoded a.decoder a ∙ adopt-decoded n t r in
        rw d (undecoded_same n t)
  ]
