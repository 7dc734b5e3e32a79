-- ===== src/Retry/Tests.antt =====
-- Runs of the strategies, and the theorems about them at concrete inputs.
use go_notification.Prelude.{
  ◌≡◌, refl, true, none, some, ℤ, pos, negsuc, ◌+ℤ◌, ◌-ℤ◌, ◌*ℤ◌, wrap64, wrap32, Duration,
}
use go_notification.Errs.{err}
use go_notification.Retry.{
  ExponentialBackoff, new_exponential_backoff, allowed, pow2_duration,
  exponential_next_with_retries, exponential_next, new_retry, unsupported_retry_type,
}
use go_notification.Retry.Backoff.{after}

-- what an amd64 machine converts an overflowing float to
abbrev minimum : ℤ → Duration
minimum n = negsuc 9223372036854775807

-- 1 s, doubling up to 10 s, five times
abbrev backoff : ExponentialBackoff
backoff = new_exponential_backoff (pos 1000) (pos 10000) (pos 5)

fourth_delay : (exponential_next minimum (after minimum 3 backoff)).0 ≡ (pos 8000, true)
unfolding exponential_next after exponential_next_with_retries new_exponential_backoff allowed
    pow2_duration ◌+ℤ◌ ◌-ℤ◌ ◌*ℤ◌ wrap64 wrap32
fourth_delay = refl

unknown_type :
    new_retry (record { type_name = "none"; fixed_interval = none; exponential_backoff = none })
    ≡ some (err unsupported_retry_type)
unfolding new_retry
unknown_type = refl

missing_part_panics :
    new_retry (record { type_name = "fixed"; fixed_interval = none; exponential_backoff = none })
    ≡ none
unfolding new_retry
missing_part_panics = refl
