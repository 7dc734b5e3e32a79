-- ===== src/Domain/Strategy.antt =====
-- internal/domain/send_notification.go: when a notification may be sent.
use Prim.Native.String.{String}
use go_notification.Prelude.{
  ℕ, ◌*◌, ◌||◌, [], ◌∷◌, pos, ◌+ℤ◌, ◌-ℤ◌, ltb_ℤ, leb_ℤ, Instant, Duration, is_zero,
}
use go_notification.Errs.{Err, Sentinel, Result, ok, guard}

pub data SendStrategyType : Type 0 where
  immediate delayed scheduled window deadline : SendStrategyType
  other_strategy : String → SendStrategyType

pub record SendStrategyConfig : Type 0 where
  pub type_of : SendStrategyType
  pub delay : Duration
  pub schedule_time : Instant
  pub start_time : Instant
  pub end_time : Instant
  pub deadline_time : Instant

-- in nanoseconds
abbrev pub second : ℕ
second = 1000000000

abbrev pub default_end_duration : Duration
default_end_duration = pos (1800 * second)

abbrev pub scheduled_time_tolerance : Duration
scheduled_time_tolerance = pos (3 * second)

-- the `switch` of SendTimeWindow; `now` is `time.Now()`
unfoldable pub window_of : SendStrategyType → Instant → SendStrategyConfig → Instant × Instant
window_of immediate now e = (now, now +ℤ default_end_duration)
window_of delayed now e = (now, now +ℤ e.delay)
window_of deadline now e = (now, e.deadline_time)
window_of window now e = (e.start_time, e.end_time)
window_of scheduled now e = (e.schedule_time -ℤ scheduled_time_tolerance, e.schedule_time)
window_of (other_strategy _) now e = (now, now)

unfoldable pub send_time_window : Instant → SendStrategyConfig → Instant × Instant
unfolding window_of
send_time_window now e = window_of e.type_of now e

abbrev pub invalid : Err
invalid = Sentinel.invalid_parameter ∷ []

-- the `switch` of Validate
unfoldable pub validate_as : SendStrategyType → Instant → SendStrategyConfig → Result (Unit {0})
validate_as immediate now e = ok tt
validate_as delayed now e = guard (leb_ℤ e.delay (pos 0)) invalid
validate_as deadline now e = guard (is_zero e.deadline_time || ltb_ℤ e.deadline_time now) invalid
validate_as window now e = guard (is_zero e.start_time || ltb_ℤ e.end_time e.start_time) invalid
validate_as scheduled now e = guard (is_zero e.schedule_time || ltb_ℤ e.schedule_time now) invalid
validate_as (other_strategy _) now e = ok tt

unfoldable pub validate : Instant → SendStrategyConfig → Result (Unit {0})
unfolding validate_as
validate now e = validate_as e.type_of now e
