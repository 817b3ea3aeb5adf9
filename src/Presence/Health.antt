-- ===== src/Presence/Health.antt =====
-- `ProbeHealth`: which probe is the current one, and how many have failed in a row.
pub mod Stale
pub mod Outage
use wire_app.Common.{
  ℕ, ◌+◌, ◌%◌, ◌^◌, max, Bool, true, false, ◌||◌, leb, ltb, ◌==◌, if◌then◌else◌, sat_add, u8_max,
  u64_mod,
}

abbrev pub offline_after_consecutive_failures : ℕ
offline_after_consecutive_failures = 3

pub record ProbeHealth : Type 0 where
  pub generation : ℕ  -- u64
  pub consecutive_failures : ℕ  -- u8
  pub offline_emitted : Bool

unfoldable pub default : ProbeHealth
default = record { generation = 0; consecutive_failures = 0; offline_emitted = false }

-- `generation.wrapping_add(1).max(1)`.
abbrev pub next_generation : ℕ → ℕ
next_generation g = max ((g + 1) % u64_mod) 1

unfoldable pub begin : ProbeHealth → ProbeHealth × ℕ
begin h = (record h { generation = next_generation h.generation }, next_generation h.generation)

unfoldable pub succeeded : ProbeHealth → ℕ → ProbeHealth × Bool
succeeded h generation =
    if h.generation == generation
    then (record h { consecutive_failures = 0; offline_emitted = false }, true)
    else (h, false)

unfoldable pub failed : ProbeHealth → ℕ → ProbeHealth × Bool
failed h generation =
    let counted = record h { consecutive_failures = sat_add u8_max h.consecutive_failures 1 } in
    if h.generation == generation
    then (if ltb counted.consecutive_failures offline_after_consecutive_failures
          || h.offline_emitted
        then (counted, false)
        else (record counted { offline_emitted = true }, true))
    else (h, false)

unfoldable pub observed_inbound : ProbeHealth → ProbeHealth
observed_inbound h = record {
  generation = next_generation h.generation;
  consecutive_failures = 0;
  offline_emitted = false;
}
