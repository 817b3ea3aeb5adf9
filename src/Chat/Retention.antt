-- ===== src/Chat/Retention.antt =====
-- `RetentionPolicy`: which messages are kept in view. Times are `i64` milliseconds.
use wire_app.Common.{ℕ, ◌-◌, ◌*◌, ◌^◌, ◌≤◌, ◌≡◌, Bool, true, arith, min}
use wire_app.Common.Int.{ℤ, pos, leb_ℤ, ◌≤ℤ◌, saturating_sub}

pub data RetentionPolicy : Type 0 where
  unlimited : RetentionPolicy
  days : ℕ → RetentionPolicy

abbrev pub day_ms : ℕ
day_ms = 24 * 60 * 60 * 1000

-- `saturating_mul` on `i64`, of a number that is not negative.
unfoldable pub includes : RetentionPolicy → ℤ → ℤ → Bool
includes unlimited sent_at now = true
includes (days n) sent_at now =
    leb_ℤ (saturating_sub now (pos (min (n * day_ms) (2 ^ 63 - 1)))) sent_at

-- A message in view at some time was in view at every earlier time, and stays in view under every
-- policy that keeps at least as many days.
pub includes_mono :
    (n m : ℕ) (sent_at now later : ℤ)
    → now ≤ℤ later
    → n ≤ m
    → includes (days n) sent_at later ≡ true
    → includes (days m) sent_at now ≡ true
unfolding includes saturating_sub
includes_mono n m sent_at now later h k inside = ground arith
