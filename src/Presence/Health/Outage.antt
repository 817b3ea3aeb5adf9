-- ===== src/Presence/Health/Outage.antt =====
-- When a peer is reported offline.
use wire_app.Common.{
  ℕ, zero, suc, ◌+◌, ◌*◌, ◌≤◌, ◌≡◌, refl, Bool, true, false, List, [], ◌∷◌, arith, if◌then◌else◌,
  ◌==◌,
}
use wire_app.Presence.Health.{ProbeHealth, default, begin, succeeded, failed, observed_inbound}

-- One probe that fails before another begins.
abbrev pub failing_probe : ProbeHealth → ProbeHealth × Bool
failing_probe h = failed (begin h).0 (begin h).1

-- What `n` such probes in a row report.
unfoldable pub outage : ProbeHealth → ℕ → List Bool
outage h zero = []
outage h (suc n) = (failing_probe h).1 ∷ outage (failing_probe h).0 n

abbrev pub falses : ℕ → List Bool
falses zero = []
falses (suc n) = false ∷ falses n

outage_reported : (h : ProbeHealth) (n : ℕ) → h.offline_emitted ≡ true → outage h n ≡ falses n
unfolding outage begin failed
outage_reported h zero e = refl
outage_reported h (suc n) e = ground (arith, outage_reported (failing_probe h).0 n)

-- From a peer that answers, the third failure in a row reports it offline; the first two and all
-- further ones report nothing, however long the outage lasts.
pub outage_third :
    (h : ProbeHealth) (n : ℕ)
    → h.consecutive_failures ≡ 0
    → h.offline_emitted ≡ false
    → outage h (suc (suc (suc n))) ≡ false ∷ false ∷ true ∷ falses n
unfolding outage begin failed
outage_third h n none_yet quiet =
    let h1 = (failing_probe h).0 in
    let h2 = (failing_probe h1).0 in
    let h3 = (failing_probe h2).0 in ground (arith, outage_reported h3 n)

-- What can happen to a peer's health.
pub data Event : Type 0 where
  begins inbound : Event
  succeeds fails : ℕ → Event

unfoldable pub step : ProbeHealth → Event → ProbeHealth × Bool
step h begins = ((begin h).0, false)
step h inbound = (observed_inbound h, false)
step h (succeeds g) = ((succeeded h g).0, false)
step h (fails g) = failed h g

abbrev b2n : Bool → ℕ
b2n b = if b then 1 else 0

-- How often a run reports the peer offline.
unfoldable pub reports : ProbeHealth → List Event → ℕ
reports h [] = 0
reports h (e ∷ es) = b2n (step h e).1 + reports (step h e).0 es

-- How often the peer is heard of, by a packet or by the answer to the current probe.
unfoldable pub contacts : ProbeHealth → List Event → ℕ
contacts h [] = 0
contacts h (inbound ∷ es) = 1 + contacts (observed_inbound h) es
contacts h (succeeds g ∷ es) = b2n (succeeded h g).1 + contacts (succeeded h g).0 es
contacts h (begins ∷ es) = contacts (begin h).0 es
contacts h (fails g ∷ es) = contacts (failed h g).0 es

-- How many failures of the current probe a run has.
unfoldable pub failures : ProbeHealth → List Event → ℕ
failures h [] = 0
failures h (fails g ∷ es) = b2n (h.generation == g) + failures (failed h g).0 es
failures h (e ∷ es) = failures (step h e).0 es

reports-bound :
    (h : ProbeHealth) (es : List Event) → reports h es + b2n h.offline_emitted ≤ 1 + contacts h es
unfolding reports step contacts begin succeeded failed observed_inbound
reports-bound h [] = ground arith
reports-bound h (begins ∷ es) = ground (arith, reports-bound (begin h).0 es)
reports-bound h (inbound ∷ es) = ground (arith, reports-bound (observed_inbound h) es)
reports-bound h (succeeds g ∷ es) = ground (arith, reports-bound (succeeded h g).0 es)
reports-bound h (fails g ∷ es) = ground (arith, reports-bound (failed h g).0 es)

reports-failures :
    (h : ProbeHealth) (es : List Event)
    → 3 * reports h es ≤ (if h.offline_emitted then 0 else h.consecutive_failures) + failures h es
unfolding reports step failures begin succeeded failed observed_inbound
reports-failures h [] = ground arith
reports-failures h (begins ∷ es) = ground (arith, reports-failures (begin h).0 es)
reports-failures h (inbound ∷ es) = ground (arith, reports-failures (observed_inbound h) es)
reports-failures h (succeeds g ∷ es) = ground (arith, reports-failures (succeeded h g).0 es)
reports-failures h (fails g ∷ es) = ground (arith, reports-failures (failed h g).0 es)

-- In every run of a new peer, whatever the order of probes, outcomes and packets: a further report
-- of offline needs a contact in between, and each report needs three failures of current probes.
pub reports_bounded :
    (es : List Event)
    → (reports default es ≤ 1 + contacts default es)
      × (3 * reports default es ≤ failures default es)
unfolding default
reports_bounded es =
    (omega (arith, reports-bound default es), omega (arith, reports-failures default es))
