-- ===== src/Retry/Backoff.antt =====
-- internal/retry/backoff.go, and CalculateBackoff of internal/domain/retry.go.
pub mod Bounds
use queue_ctl.Prelude.{ℕ, ◌-◌, ◌*◌, if◌then◌else◌}
use queue_ctl.Prelude.Int.{ℤ, pos, pos_part, leb_ℤ, ltb_ℤ}
use queue_ctl.Domain.Errors.{Result, ok, refuse, ◌>>◌}
use queue_ctl.Domain.Job.{Duration}
use queue_ctl.Retry.Float.{scale_duration}

-- exponentialBackoff
pub record Backoff : Type 0 where
  pub base_delay : Duration
  pub max_delay : Duration

abbrev pub second : ℕ
second = 1000000000

-- NewExponentialBackoff
unfoldable pub new_exponential_backoff : Duration → Duration → Backoff
new_exponential_backoff base max = record {
  base_delay = if leb_ℤ base (pos 0) then pos (2 * second) else base;
  max_delay = if leb_ℤ max (pos 0) then pos (30 * second) else max;
}

-- `if delay > maxDelay { return maxDelay }`
abbrev capped : Duration → Duration → Duration
capped max delay = if ltb_ℤ max delay then max else delay

-- Calculate. `overflow` is the int64 that a float64 out of range becomes.
unfoldable pub calculate : ℤ → Backoff → ℤ → Duration
calculate overflow b retries_count =
    if leb_ℤ retries_count (pos 0)
    then pos 0
    else capped b.max_delay (scale_duration overflow b.base_delay (pos_part retries_count - 1))

-- RetryPolicy
pub record RetryPolicy : Type 0 where
  pub max_retries : ℤ
  pub backoff_base_delay : Duration
  pub backoff_max_delay : Duration

-- NewRetryPolicy
unfoldable pub new_retry_policy : ℤ → Duration → Duration → Result RetryPolicy
new_retry_policy retries base max = do
  refuse (ltb_ℤ retries (pos 0)) "max retries count cannot be negative"
  refuse (leb_ℤ base (pos 0)) "backoff base delay must be a positive duration"
  refuse (ltb_ℤ max base) "backoff max delay cannot be smaller than base delay"
  ok (record { max_retries = retries; backoff_base_delay = base; backoff_max_delay = max })

-- RetryPolicy.Validate
unfoldable pub validate_policy : RetryPolicy → Result (Unit {0})
validate_policy p = do
  refuse (ltb_ℤ p.max_retries (pos 0)) "invalid policy: negative max retries limit"
  refuse (leb_ℤ p.backoff_base_delay (pos 0)) "invalid policy: base delay must be positive"
  refuse (ltb_ℤ p.backoff_max_delay p.backoff_base_delay)
      "invalid policy: max delay is smaller than base delay"

-- CalculateBackoff
unfoldable pub calculate_backoff : ℤ → RetryPolicy → ℤ → Duration
calculate_backoff overflow p attempt =
    if leb_ℤ attempt (pos 0)
    then pos 0
    else capped p.backoff_max_delay
        (scale_duration overflow p.backoff_base_delay (pos_part attempt - 1))
