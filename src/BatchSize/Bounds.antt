-- ===== src/BatchSize/Bounds.antt =====
-- What the adjusters keep: the size stays between its bounds, moves the right way, and not too often.
use go_notification.Prelude.{
  ◌≤◌, ◌≡◌, ◌≢◌, refl, ◌⊎◌, List, [], ◌∷◌, ℤ, pos, ◌+ℤ◌, ◌-ℤ◌, ◌≤ℤ◌, ◌<ℤ◌, wrap64, wrap64_of_in,
  InInt64, +ℤ_parts, -ℤ_parts, parts_exclusive, eqb_ℤ→eq, ◌∙◌, subst, arith, Instant, Duration,
  since,
}
use go_notification.RingBuffer
use go_notification.BatchSize.{
  FixedStepAdjuster, clamp_initial, new_fixed_step, adjust_fixed, RingBufferAdjuster,
  adjust_recorded, adjust_ring,
}

-- The size is in range, and a step from the range does not overflow an int64.
pub record InRange (size step low high : ℤ) : Type 0 where
  pub at_least : low ≤ℤ size
  pub at_most : size ≤ℤ high
  pub step_nonneg : pos 0 ≤ℤ step
  pub up_fits : InInt64 (high +ℤ step)
  pub down_fits : InInt64 (low -ℤ step)
  pub low_fits : InInt64 low
  pub high_fits : InInt64 high

module _ {size step low high : ℤ} (v : InRange size step low high) where
  -- Inside the range neither direction wraps.
  up_exact : wrap64 (size +ℤ step) ≡ size +ℤ step
  up_exact = wrap64_of_in (size +ℤ step) (
      omega (
        arith,
        v.at_least,
        v.at_most,
        v.step_nonneg,
        v.up_fits,
        v.low_fits,
        +ℤ_parts size step,
        +ℤ_parts high step,
        parts_exclusive (size +ℤ step),
      ))

  down_exact : wrap64 (size -ℤ step) ≡ size -ℤ step
  down_exact = wrap64_of_in (size -ℤ step) (
      omega (
        arith,
        v.at_least,
        v.at_most,
        v.step_nonneg,
        v.down_fits,
        v.high_fits,
        -ℤ_parts size step,
        -ℤ_parts low step,
        parts_exclusive (size -ℤ step),
      ))

abbrev pub FixedInRange : FixedStepAdjuster → Type 0
FixedInRange f = InRange f.batch_size f.adjust_step f.min_batch_size f.max_batch_size

adjust_fixed-InRange :
    (f : FixedStepAdjuster) (now stamp : Instant) (d : Duration)
    → FixedInRange f
    → FixedInRange (adjust_fixed f now stamp d)
unfolding adjust_fixed
adjust_fixed-InRange f now stamp d v = ground (
  arith,
  up_exact v,
  down_exact v,
  v.at_least,
  v.at_most,
  v.step_nonneg,
  v.up_fits,
  v.down_fits,
  v.low_fits,
  v.high_fits,
  +ℤ_parts f.batch_size f.adjust_step,
  -ℤ_parts f.batch_size f.adjust_step,
)

-- one call of `Adjust`: the two clock readings and the response time
pub record Call : Type 0 where
  pub now : Instant
  pub stamp : Instant
  pub response_time : Duration

unfoldable pub run_fixed : FixedStepAdjuster → List Call → FixedStepAdjuster
run_fixed f [] = f
run_fixed f (c ∷ cs) = run_fixed (adjust_fixed f c.now c.stamp c.response_time) cs

run_fixed-InRange :
    (f : FixedStepAdjuster) (cs : List Call) → FixedInRange f → FixedInRange (run_fixed f cs)
unfolding run_fixed
run_fixed-InRange f [] v = v
run_fixed-InRange f (c ∷ cs) v =
    run_fixed-InRange (adjust_fixed f c.now c.stamp c.response_time) cs
      (adjust_fixed-InRange f c.now c.stamp c.response_time v)

adjust_fixed_keeps :
    (f : FixedStepAdjuster) (now stamp : Instant) (d : Duration)
    → let f' = adjust_fixed f now stamp d in
      (f'.adjust_step ≡ f.adjust_step)
      × (f'.min_batch_size ≡ f.min_batch_size)
      × (f'.max_batch_size ≡ f.max_batch_size)
unfolding adjust_fixed
adjust_fixed_keeps f now stamp d = ground arith

run_fixed_keeps :
    (f : FixedStepAdjuster) (cs : List Call)
    → let f' = run_fixed f cs in
      (f'.min_batch_size ≡ f.min_batch_size) × (f'.max_batch_size ≡ f.max_batch_size)
unfolding run_fixed
run_fixed_keeps f [] = (refl, refl)
run_fixed_keeps f (c ∷ cs) = ground (
  arith,
  adjust_fixed_keeps f c.now c.stamp c.response_time,
  run_fixed_keeps (adjust_fixed f c.now c.stamp c.response_time) cs,
)

-- The bounds and the step given to a constructor make sense for an int64.
pub record Sensible (step low high : ℤ) : Type 0 where
  pub ordered : low ≤ℤ high
  pub step_nonneg : pos 0 ≤ℤ step
  pub up_fits : InInt64 (high +ℤ step)
  pub down_fits : InInt64 (low -ℤ step)
  pub low_fits : InInt64 low
  pub high_fits : InInt64 high

clamp_initial-InRange :
    (initial step low high : ℤ)
    → Sensible step low high
    → InRange (clamp_initial initial low high) step low high
clamp_initial-InRange initial step low high s = record {
  at_least = ground (arith, s.ordered);
  at_most = ground (arith, s.ordered);
  step_nonneg = s.step_nonneg;
  up_fits = s.up_fits;
  down_fits = s.down_fits;
  low_fits = s.low_fits;
  high_fits = s.high_fits;
}

-- A fixed-step adjuster made with sensible bounds and any initial size stays between its bounds
-- through any calls, whatever the clock and the response times say.
pub run_fixed_bounds :
    (initial step low high : ℤ) (interval fast slow : Duration) (cs : List Call)
    → Sensible step low high
    → let f = run_fixed (new_fixed_step initial low high step interval fast slow) cs in
      (low ≤ℤ f.batch_size) × (f.batch_size ≤ℤ high)
run_fixed_bounds initial step low high interval fast slow cs s =
    let f = new_fixed_step initial low high step interval fast slow in
    let start : FixedInRange f =
      unfold new_fixed_step in clamp_initial-InRange initial step low high s in
    let v = run_fixed-InRange f cs start in
    let (a, b) = run_fixed_keeps f cs in
    (
      subst (λ l. l ≤ℤ (run_fixed f cs).batch_size) (a ∙ (unfold new_fixed_step in refl))
          v.at_least,
      subst (λ u. (run_fixed f cs).batch_size ≤ℤ u) (b ∙ (unfold new_fixed_step in refl)) v.at_most,
    )

-- When a call changes the size, the adjuster had never adjusted or its interval had passed, the
-- time of the change is stored, and the size grew on a fast response or shrank on a slow one.
adjust_fixed_paced :
    (f : FixedStepAdjuster) (now stamp : Instant) (d : Duration)
    → FixedInRange f
    → (adjust_fixed f now stamp d).batch_size ≢ f.batch_size
    → let f' = adjust_fixed f now stamp d in
      ((f.last_adjust_time ≡ pos 0) ⊎ (f.min_adjust_interval ≤ℤ since now f.last_adjust_time))
      × (f'.last_adjust_time ≡ stamp)
      × (((d <ℤ f.fast_threshold) × (f.batch_size ≤ℤ f'.batch_size))
          ⊎ ((f.slow_threshold <ℤ d) × (f'.batch_size ≤ℤ f.batch_size)))
unfolding adjust_fixed
adjust_fixed_paced f now stamp d v changed = ground (
  arith,
  up_exact v,
  down_exact v,
  v.step_nonneg,
  +ℤ_parts f.batch_size f.adjust_step,
  -ℤ_parts f.batch_size f.adjust_step,
  eqb_ℤ→eq f.last_adjust_time (pos 0),
)

abbrev pub RingInRange : RingBufferAdjuster → Type 0
RingInRange r = InRange r.batch_size r.adjust_step r.min_batch_size r.max_batch_size

adjust_recorded-InRange :
    (r : RingBufferAdjuster) (now stamp : Instant) (d : Duration)
    → RingInRange r
    → RingInRange (adjust_recorded r now stamp d)
unfolding adjust_recorded
adjust_recorded-InRange r now stamp d v = ground (
  arith,
  up_exact v,
  down_exact v,
  v.at_least,
  v.at_most,
  v.step_nonneg,
  v.up_fits,
  v.down_fits,
  v.low_fits,
  v.high_fits,
  +ℤ_parts r.batch_size r.adjust_step,
  -ℤ_parts r.batch_size r.adjust_step,
)

-- A call keeps the size of a ring-buffer adjuster between its bounds.
adjust_ring-InRange :
    (r : RingBufferAdjuster) (now stamp : Instant) (d : Duration)
    → RingInRange r
    → RingInRange (adjust_ring r now stamp d)
unfolding adjust_ring
adjust_ring-InRange r now stamp d v =
    adjust_recorded-InRange (record r { time_buffer = RingBuffer.add r.time_buffer d }) now stamp d
      v

-- When a call changes the size of a ring-buffer adjuster, the buffer with the new response time is
-- full, there was no earlier change or the cooldown is over, the time of the change is stored, and
-- the size shrank on a response slower than the average of the buffer or grew on a faster one.
adjust_ring_paced :
    (r : RingBufferAdjuster) (now stamp : Instant) (d : Duration)
    → RingInRange r
    → (adjust_ring r now stamp d).batch_size ≢ r.batch_size
    → let r' = adjust_ring r now stamp d in
      let buffer = RingBuffer.add r.time_buffer d in
      (RingBuffer.cap_of buffer ≤ RingBuffer.len buffer)
      × ((r.last_adjust_time ≡ pos 0) ⊎ (r.cooldown_period ≤ℤ since now r.last_adjust_time))
      × (r'.last_adjust_time ≡ stamp)
      × (((RingBuffer.avg buffer <ℤ d) × (r'.batch_size ≤ℤ r.batch_size))
          ⊎ ((d <ℤ RingBuffer.avg buffer) × (r.batch_size ≤ℤ r'.batch_size)))
unfolding adjust_ring
adjust_ring_paced r now stamp d v changed = ground (
  arith,
  up_exact v,
  down_exact v,
  v.step_nonneg,
  +ℤ_parts r.batch_size r.adjust_step,
  -ℤ_parts r.batch_size r.adjust_step,
  eqb_ℤ→eq r.last_adjust_time (pos 0),
)
