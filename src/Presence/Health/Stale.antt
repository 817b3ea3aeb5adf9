-- ===== src/Presence/Health/Stale.antt =====
-- A probe that has been overtaken has no effect.
use wire_app.Common.{ℕ, ◌<◌, ◌≡◌, ◌≢◌, false, arith, u64_mod}
use wire_app.Presence.Health.{
  ProbeHealth, next_generation, begin, succeeded, failed, observed_inbound,
}

pub next_generation-ne : (g : ℕ) → g < u64_mod → g ≢ next_generation g
next_generation-ne g h e = omega arith

pub next_generation-lt : (g : ℕ) → next_generation g < u64_mod
next_generation-lt g = omega arith

-- Once a newer probe has begun, the outcome of the one before it, a success or a failure, is not
-- counted: the health stays as it is and nothing is reported. So too once a packet of the peer has
-- come in.
pub overtaken_ignored :
    (h : ProbeHealth)
    → h.generation < u64_mod
    → (succeeded (begin h).0 h.generation ≡ ((begin h).0, false))
      × (failed (begin h).0 h.generation ≡ ((begin h).0, false))
      × (succeeded (observed_inbound h) h.generation ≡ (observed_inbound h, false))
      × (failed (observed_inbound h) h.generation ≡ (observed_inbound h, false))
unfolding begin succeeded failed observed_inbound
overtaken_ignored h v =
    let ne = next_generation-ne h.generation v in
    (ground arith, ground arith, ground arith, ground arith)
