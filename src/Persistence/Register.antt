-- ===== src/Persistence/Register.antt =====
-- A state file is an atomic register: whatever writes are made, fail or are cut off, what the next
-- start reads is what a register holds that takes each acknowledged write, and each other write
-- either wholly or not at all.
use wire_app.Common.{ℕ, ◌≡◌, ◌⊎◌, inl, inr, subst, List, [], ◌∷◌, Option, some}
use wire_app.Persistence.{
  Disk, Loaded, value, load, calls, stopped, Endings, Outcome, ok, err, write_json,
}
use wire_app.Persistence.Crash.{stopped-load, Written, committed, unchanged, write_json-Written}

-- A write that runs to its end, however that is, and one that is cut off in a call.
pub data Fate : Type 0 where
  ends : Endings → Fate
  cut_off : ℕ → ℕ → Fate

-- Whether the caller was told that the value is saved.
pub data Report : Type 0 where
  acknowledged not_acknowledged : Report

abbrev report_of : Outcome → Report
report_of ok = acknowledged
report_of err = not_acknowledged

-- The abstract view.
pub data Register {V : Type 0} : List (V × Report) → Loaded V → Loaded V → Type 0 where
  untouched : {r : Loaded V} → Register [] r r
  takes :
      {v : V} {report : Report} {ws : List (V × Report)} {r r' : Loaded V}
      → Register ws (value v) r'
      → Register ((v, report) ∷ ws) r r'
  ignores :
      {v : V} {ws : List (V × Report)} {r r' : Loaded V}
      → Register ws r r'
      → Register ((v, not_acknowledged) ∷ ws) r r'

module _ {V : Type 0} (encode : V → List ℕ) (decode : List ℕ → Option V) where
  abbrev pub write : V → Fate → Disk → Disk × Report
  write v (ends e) d = let (d', o) = write_json e (some (encode v)) d in (d', report_of o)
  write v (cut_off i n) d = (stopped i n (calls (encode v)) d, not_acknowledged)

  abbrev pub final : List (V × Fate) → Disk → Disk
  final [] d = d
  final ((v, fate) ∷ ws) d = final ws (write v fate d).0

  abbrev pub reports : List (V × Fate) → Disk → List (V × Report)
  reports [] d = []
  reports ((v, fate) ∷ ws) d = (v, (write v fate d).1) ∷ reports ws (write v fate d).0

  module _ (decode-encode : (v : V) → decode (encode v) ≡ some v) where
    ends-Register :
        (v : V) (e : Endings) (ws : List (V × Report)) (d : Disk) (last : Loaded V)
        (r : Disk × Outcome)
        → Written decode (encode v) v (decode-encode v) d r
        → Register ws (load decode r.0) last
        → Register ((v, report_of r.1) ∷ ws) (load decode d) last
    ends-Register v e ws d last r (committed h) rest =
        takes (subst (λ x. Register ws x last) h rest)
    ends-Register v e ws d last r (unchanged h) rest =
        ignores (subst (λ x. Register ws x last) h rest)

    cut-Register :
        (v : V) (ws : List (V × Report)) (d' d : Disk) (last : Loaded V)
        → (load decode d' ≡ load decode d) ⊎ (load decode d' ≡ value v)
        → Register ws (load decode d') last
        → Register ((v, not_acknowledged) ∷ ws) (load decode d) last
    cut-Register v ws d' d last (inl h) rest = ignores (subst (λ x. Register ws x last) h rest)
    cut-Register v ws d' d last (inr h) rest = takes (subst (λ x. Register ws x last) h rest)

    -- Every sequence of writes refines the register, when what is encoded decodes to itself: the
    -- register takes every acknowledged write in order, and of the others those that it likes.
    pub final-Register :
        (ws : List (V × Fate)) (d : Disk)
        → Register (reports ws d) (load decode d) (load decode (final ws d))
    final-Register [] d = untouched
    final-Register ((v, ends e) ∷ ws) d =
        ends-Register v e _ d _ (write_json e (some (encode v)) d)
          (write_json-Written decode (encode v) v (decode-encode v) e d)
          (final-Register ws (write_json e (some (encode v)) d).0)
    final-Register ((v, cut_off i n) ∷ ws) d =
        cut-Register v _ (stopped i n (calls (encode v)) d) d _
          (stopped-load decode (encode v) v (decode-encode v) i n d)
          (final-Register ws (stopped i n (calls (encode v)) d))
