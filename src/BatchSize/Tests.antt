-- ===== src/BatchSize/Tests.antt =====
-- Runs of the adjusters, and the theorems about them at concrete inputs.
use go_notification.Prelude.{
  ◌≡◌, ◌≢◌, refl, List, [], ◌∷◌, pos, ◌+ℤ◌, ◌-ℤ◌, ◌≤ℤ◌, wrap64, arith, since,
}
use go_notification.RingBuffer
use go_notification.BatchSize.{
  FixedStepAdjuster, new_fixed_step, adjust_fixed, RingBufferAdjuster, adjust_ring,
}
use go_notification.BatchSize.Bounds.{
  Call, Sensible, RingInRange, FixedInRange, run_fixed, run_fixed_bounds,
}

abbrev fixed : FixedStepAdjuster
fixed = record {
  batch_size = pos 50;
  adjust_step = pos 30;
  min_batch_size = pos 10;
  max_batch_size = pos 60;
  last_adjust_time = pos 0;
  min_adjust_interval = pos 5;
  fast_threshold = pos 100;
  slow_threshold = pos 200;
}

abbrev calls : List Call
calls =
    record { now = pos 1; stamp = pos 2; response_time = pos 50 }
    ∷ record { now = pos 4; stamp = pos 5; response_time = pos 50 }
    ∷ record { now = pos 9; stamp = pos 9; response_time = pos 300 }
    ∷ []

sensible : Sensible (pos 30) (pos 10) (pos 60)
unfolding ◌+ℤ◌ ◌-ℤ◌
sensible = omega arith

grows_waits_shrinks : (run_fixed fixed calls).batch_size ≡ pos 30
unfolding run_fixed adjust_fixed ◌+ℤ◌ ◌-ℤ◌ wrap64 since
grows_waits_shrinks = refl

run_fixed_bounds_example :
    let f =
      run_fixed
        (new_fixed_step (pos 50) (pos 10) (pos 60) (pos 30) (pos 5) (pos 100) (pos 200))
        calls in
    (pos 10 ≤ℤ f.batch_size) × (f.batch_size ≤ℤ pos 60)
run_fixed_bounds_example =
    run_fixed_bounds (pos 50) (pos 30) (pos 10) (pos 60) (pos 5) (pos 100) (pos 200) calls sensible

fixed-InRange : FixedInRange fixed
unfolding ◌+ℤ◌ ◌-ℤ◌
fixed-InRange = omega arith

fixed_changes : (adjust_fixed fixed (pos 1) (pos 2) (pos 50)).batch_size ≢ pos 50
unfolding adjust_fixed ◌+ℤ◌ wrap64
fixed_changes h = cc h

-- a full buffer of one sample
abbrev ring : RingBufferAdjuster
ring = record {
  time_buffer = record {
    buffer = pos 10 ∷ pos 10 ∷ [];
    capacity = 2;
    index = 0;
    count = 2;
    sum = pos 20;
  };
  batch_size = pos 50;
  min_batch_size = pos 10;
  max_batch_size = pos 60;
  adjust_step = pos 30;
  cooldown_period = pos 5;
  last_adjust_time = pos 0;
}

ring-InRange : RingInRange ring
unfolding ◌+ℤ◌ ◌-ℤ◌
ring-InRange = omega arith

ring_changes : (adjust_ring ring (pos 1) (pos 2) (pos 30)).batch_size ≢ pos 50
unfolding adjust_ring RingBuffer.add RingBuffer.avg RingBuffer.len RingBuffer.cap_of ◌+ℤ◌ ◌-ℤ◌
    wrap64
ring_changes h = cc h
