-- ===== src/BatchSize.antt =====
-- internal/pkg/batchSize: two adjusters of the batch size by response time. `Adjust` reads the clock
-- twice: `now` is what `time.Since` read and `stamp` what the later `time.Now()` gave.
pub mod Bounds
mod Tests
use go_notification.Prelude.{
  ℕ, Bool, ◌&&◌, not, Option, ℤ, pos, ◌+ℤ◌, ◌-ℤ◌, wrap64, ltb_ℤ, leb_ℤ, min_ℤ, max_ℤ, Instant,
  Duration, is_zero, since, ltb, if◌then◌else◌,
}
use mathlib.Core.Option
use go_notification.RingBuffer.{TimeDurationRingBuffer, new_ring, add, avg, len, cap_of}

-- clamping of the initial size, the same in both constructors
abbrev pub clamp_initial : ℤ → ℤ → ℤ → ℤ
clamp_initial initial_size min_size max_size =
    let raised = if ltb_ℤ initial_size min_size then min_size else initial_size in
    if ltb_ℤ max_size raised then max_size else raised

pub record FixedStepAdjuster : Type 0 where
  pub batch_size : ℤ
  pub adjust_step : ℤ
  pub min_batch_size : ℤ
  pub max_batch_size : ℤ
  pub last_adjust_time : Instant
  pub min_adjust_interval : Duration
  pub fast_threshold : Duration
  pub slow_threshold : Duration

pub new_fixed_step : ℤ → ℤ → ℤ → ℤ → Duration → Duration → Duration → FixedStepAdjuster
new_fixed_step initial_size min_size max_size step min_interval fast slow = record {
  batch_size = clamp_initial initial_size min_size max_size;
  adjust_step = step;
  min_batch_size = min_size;
  max_batch_size = max_size;
  last_adjust_time = pos 0;
  min_adjust_interval = min_interval;
  fast_threshold = fast;
  slow_threshold = slow;
}

-- The new state; the returned size is its `batch_size`, and the error is always nil.
pub adjust_fixed : FixedStepAdjuster → Instant → Instant → Duration → FixedStepAdjuster
adjust_fixed f now stamp response_time =
    if not (is_zero f.last_adjust_time)
      && ltb_ℤ (since now f.last_adjust_time) f.min_adjust_interval
    then f
    else if ltb_ℤ response_time f.fast_threshold
    then (if ltb_ℤ f.batch_size f.max_batch_size
        then record f {
          batch_size = min_ℤ (wrap64 (f.batch_size +ℤ f.adjust_step)) f.max_batch_size;
          last_adjust_time = stamp;
        }
        else f)
    else if ltb_ℤ f.slow_threshold response_time
    then (if ltb_ℤ f.min_batch_size f.batch_size
        then record f {
          batch_size = max_ℤ (wrap64 (f.batch_size -ℤ f.adjust_step)) f.min_batch_size;
          last_adjust_time = stamp;
        }
        else f)
    else f

pub record RingBufferAdjuster : Type 0 where
  pub time_buffer : TimeDurationRingBuffer
  pub batch_size : ℤ
  pub min_batch_size : ℤ
  pub max_batch_size : ℤ
  pub adjust_step : ℤ
  pub cooldown_period : Duration
  pub last_adjust_time : Instant

-- `none` would be an adjuster whose buffer is nil.
pub new_ring_adjuster : ℤ → ℤ → ℤ → ℤ → Duration → ℤ → Option RingBufferAdjuster
new_ring_adjuster initial_size min_size max_size step cooldown buffer_size =
    Option.map
      (λ buffer. record {
        time_buffer = buffer;
        batch_size = clamp_initial initial_size min_size max_size;
        min_batch_size = min_size;
        max_batch_size = max_size;
        adjust_step = step;
        cooldown_period = cooldown;
        last_adjust_time = pos 0;
      })
      (new_ring (if leb_ℤ buffer_size (pos 0) then pos 128 else buffer_size))

-- the part of `Adjust` after the response time is recorded
pub adjust_recorded : RingBufferAdjuster → Instant → Instant → Duration → RingBufferAdjuster
adjust_recorded r now stamp response_time =
    let avg_time = avg r.time_buffer in
    if ltb (len r.time_buffer) (cap_of r.time_buffer)
    then r
    else if not (is_zero r.last_adjust_time)
        && ltb_ℤ (since now r.last_adjust_time) r.cooldown_period
    then r
    else if ltb_ℤ avg_time response_time
    then (if ltb_ℤ r.min_batch_size r.batch_size
        then record r {
          batch_size = max_ℤ (wrap64 (r.batch_size -ℤ r.adjust_step)) r.min_batch_size;
          last_adjust_time = stamp;
        }
        else r)
    else if ltb_ℤ response_time avg_time
    then (if ltb_ℤ r.batch_size r.max_batch_size
        then record r {
          batch_size = min_ℤ (wrap64 (r.batch_size +ℤ r.adjust_step)) r.max_batch_size;
          last_adjust_time = stamp;
        }
        else r)
    else r

pub adjust_ring : RingBufferAdjuster → Instant → Instant → Duration → RingBufferAdjuster
unfolding adjust_recorded
adjust_ring r now stamp response_time =
    adjust_recorded (record r { time_buffer = add r.time_buffer response_time }) now stamp
      response_time
