-- ===== src/Chat/Backoff.antt =====
-- How long a retry waits.
use wire_app.Common.{
  ℕ, ◌+◌, ◌*◌, ◌-◌, ◌/◌, ◌%◌, ◌≤◌, ◌<◌, min, Bool, true, false, [], ◌∷◌, arith, Text, leb,
  if◌then◌else◌, u64_mod,
}

-- In milliseconds.
abbrev pub chat_first_retry : ℕ
chat_first_retry = 400

abbrev pub max_retry_seconds : ℕ
max_retry_seconds = 60

-- The fold over the conversation's id, on wrapping `u64`.
jitter_hash : ℕ → Text → ℕ
jitter_hash acc [] = acc
jitter_hash acc (b ∷ bs) = jitter_hash ((acc * 31 % u64_mod + b) % u64_mod) bs

unfoldable pub base_ms : ℕ → Bool → ℕ
base_ms attempts true =
    if leb attempts 5
    then 5_000
    else if leb attempts 10
    then 15_000
    else if leb attempts 20
    then 30_000
    else max_retry_seconds * 1000
base_ms attempts false =
    if leb attempts 1
    then 400
    else if leb attempts 2
    then 700
    else if leb attempts 3
    then 1_000
    else if leb attempts 10
    then 1_500
    else 3_000

abbrev jitter_span : Bool → ℕ
jitter_span true = 1_000
jitter_span false = 200

unfoldable pub delivery_retry_delay : Text → ℕ → Bool → ℕ
unfolding jitter_hash
delivery_retry_delay conversation_id attempts offline =
    base_ms attempts offline + jitter_hash attempts conversation_id % jitter_span offline

-- In seconds.
unfoldable pub attachment_retry_delay : ℕ → ℕ
attachment_retry_delay attempts =
    if leb attempts 1
    then 2
    else if leb attempts 2
    then 5
    else if leb attempts 3
    then 10
    else if leb attempts 4
    then 20
    else 60

-- In seconds: ten and one for each 256 KiB begun, at most 120.
unfoldable pub attachment_download_timeout : ℕ → ℕ
attachment_download_timeout byte_len = min (10 + (byte_len + (256 * 1024 - 1)) / (256 * 1024)) 120

base_ms_bounds :
    (attempts : ℕ) (offline : Bool)
    → (if offline then 5_000 else 400) ≤ base_ms attempts offline
      × base_ms attempts offline ≤ (if offline then 60_000 else 3_000)
unfolding base_ms
base_ms_bounds attempts true = ground arith
base_ms_bounds attempts false = ground arith

-- A reachable peer is probed again after 400 ms to 3.2 s, an unreachable one after 5 s to 61 s,
-- whatever the conversation and the number of attempts.
pub delivery_retry_delay_bounds :
    (conversation_id : Text) (attempts : ℕ) (offline : Bool)
    → let d = delivery_retry_delay conversation_id attempts offline in
      ((if offline then 5_000 else 400) ≤ d) × (d < (if offline then 61_000 else 3_200))
unfolding delivery_retry_delay
delivery_retry_delay_bounds cid attempts true = omega (arith, base_ms_bounds attempts true)
delivery_retry_delay_bounds cid attempts false = omega (arith, base_ms_bounds attempts false)

base_ms_mono : (n m : ℕ) (offline : Bool) → n ≤ m → base_ms n offline ≤ base_ms m offline
unfolding base_ms
base_ms_mono n m true h = ground arith
base_ms_mono n m false h = ground arith

-- More failed attempts never shorten the wait by more than the jitter, and going offline lengthens
-- it in any case.
pub delivery_retry_delay_mono :
    (c : Text) (n m : ℕ) (offline : Bool)
    → n ≤ m
    → (delivery_retry_delay c n offline
        < delivery_retry_delay c m offline + (if offline then 1_000 else 200))
      × (delivery_retry_delay c n false < delivery_retry_delay c m true)
unfolding delivery_retry_delay
delivery_retry_delay_mono c n m true h = (
  omega (arith, base_ms_mono n m true h),
  omega (arith, base_ms_bounds n false, base_ms_bounds m true),
)
delivery_retry_delay_mono c n m false h = (
  omega (arith, base_ms_mono n m false h),
  omega (arith, base_ms_bounds n false, base_ms_bounds m true),
)

-- A download is given 10 to 120 seconds, never less for more bytes, and enough for 256 KiB a
-- second after the first ten seconds as long as it is below the limit.
pub attachment_download_timeout_bounds :
    (n m : ℕ)
    → n ≤ m
    → (10 ≤ attachment_download_timeout n)
      × (attachment_download_timeout m ≤ 120)
      × (attachment_download_timeout n ≤ attachment_download_timeout m)
      × (attachment_download_timeout n < 120
          → n ≤ (attachment_download_timeout n - 10) * (256 * 1024))
unfolding attachment_download_timeout
attachment_download_timeout_bounds n m h = (omega arith, omega arith, omega arith, λ k. omega arith)
