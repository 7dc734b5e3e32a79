-- ===== src/Retry.antt =====
-- internal/pkg/retry: the retry strategies and the factory that reads a configuration.
pub mod Backoff
pub mod Granted
mod Tests
use Prim.Native.String.{String}
use text.Mathlib.Text.{◌==◌ as ◌=ˢ◌}
use go_notification.Prelude.{
  ℕ, ◌^◌, Bool, true, false, ◌||◌, Option, none, some, ℤ, pos, ◌+ℤ◌, ◌-ℤ◌, ◌*ℤ◌, wrap64, wrap32,
  ltb_ℤ, leb_ℤ, pos_part, Duration, if◌then◌else◌,
}
use mathlib.Core.Option
use go_notification.Errs.{Err, failure, Result, ok, err}

-- FixedIntervalRetryStrategy; counts are int32.
pub record FixedInterval : Type 0 where
  pub max_retries : ℤ
  pub interval : Duration
  pub retries : ℤ

-- ExponentialBackoffRetryStrategy; `max_interval_reached` is false until something is stored.
pub record ExponentialBackoff : Type 0 where
  pub initial_interval : Duration
  pub max_interval : Duration
  pub max_retries : ℤ
  pub retries : ℤ
  pub max_interval_reached : Bool

unfoldable pub new_fixed_interval : ℤ → Duration → FixedInterval
new_fixed_interval max_retries interval = record {
  max_retries = max_retries;
  interval = interval;
  retries = pos 0;
}

pub new_exponential_backoff : Duration → Duration → ℤ → ExponentialBackoff
new_exponential_backoff initial_interval max_interval max_retries = record {
  initial_interval = initial_interval;
  max_interval = max_interval;
  max_retries = max_retries;
  retries = pos 0;
  max_interval_reached = false;
}

-- `maxRetries <= 0 || retries <= maxRetries`
unfoldable pub allowed : ℤ → ℤ → Bool
allowed max_retries retries = leb_ℤ max_retries (pos 0) || leb_ℤ retries max_retries

unfoldable pub fixed_next_with_retries : FixedInterval → ℤ → Duration × Bool
fixed_next_with_retries f retries =
    if allowed f.max_retries retries then (f.interval, true) else (pos 0, false)

pub fixed_next : FixedInterval → (Duration × Bool) × FixedInterval
fixed_next f =
    let retries' = wrap32 (f.retries +ℤ pos 1) in
    (fixed_next_with_retries f retries', record f { retries = retries' })

-- `time.Duration(math.Pow(2, float64(n)))`. A power below 1 is truncated to 0, and one that an int64
-- does not hold is converted as the machine does, which Go leaves open: a parameter.
unfoldable pub pow2_duration : (ℤ → Duration) → ℤ → Duration
pow2_duration overflow n =
    if ltb_ℤ n (pos 0) then pos 0 else if ltb_ℤ n (pos 63) then pos (2 ^ pos_part n) else overflow n

-- The duration, whether to retry, and the strategy with `max_interval_reached` stored.
unfoldable pub exponential_next_with_retries :
    (ℤ → Duration) → ExponentialBackoff → ℤ → (Duration × Bool) × ExponentialBackoff
exponential_next_with_retries overflow e retries =
    let interval =
      wrap64 (e.initial_interval *ℤ pow2_duration overflow (wrap32 (retries -ℤ pos 1))) in
    if allowed e.max_retries retries
    then (if e.max_interval_reached
        then ((e.max_interval, true), e)
        else if leb_ℤ interval (pos 0) || ltb_ℤ e.max_interval interval
        then ((e.max_interval, true), record e { max_interval_reached = true })
        else ((interval, true), e))
    else ((pos 0, false), e)

pub exponential_next : (ℤ → Duration) → ExponentialBackoff → (Duration × Bool) × ExponentialBackoff
exponential_next overflow e =
    let retries' = wrap32 (e.retries +ℤ pos 1) in
    exponential_next_with_retries overflow (record e { retries = retries' }) retries'

pub data Strategy : Type 0 where
  fixed : FixedInterval → Strategy
  exponential : ExponentialBackoff → Strategy

-- `Strategy.NextWithRetries` through the interface; the strategies are made anew for each call.
unfoldable pub next_with_retries : (ℤ → Duration) → Strategy → ℤ → Duration × Bool
next_with_retries overflow (fixed f) retries = fixed_next_with_retries f retries
next_with_retries overflow (exponential e) retries =
    (exponential_next_with_retries overflow e retries).0

pub record FixedIntervalConfig : Type 0 where
  pub max_retries : ℤ
  pub interval : Duration

pub record ExponentialBackoffConfig : Type 0 where
  pub initial_interval : Duration
  pub max_interval : Duration
  pub max_retries : ℤ

pub record Config : Type 0 where
  pub type_name : String
  pub fixed_interval : Option FixedIntervalConfig
  pub exponential_backoff : Option ExponentialBackoffConfig

abbrev pub unsupported_retry_type : Err
unsupported_retry_type = failure 0

-- The outer `none` is the panic of a nil pointer, where the part for the type is missing.
unfoldable pub new_retry : Config → Option (Result Strategy)
new_retry cfg =
    if cfg.type_name =ˢ "fixed"
    then Option.map (λ c. ok (fixed (new_fixed_interval c.max_retries c.interval)))
        cfg.fixed_interval
    else if cfg.type_name =ˢ "exponential"
    then Option.map
        (λ c.
          ok
            (exponential (new_exponential_backoff c.initial_interval c.max_interval c.max_retries)))
        cfg.exponential_backoff
    else some (err unsupported_retry_type)
