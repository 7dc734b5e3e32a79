-- ===== src/RingBuffer.antt =====
-- internal/pkg/ringbuffer/ringbuffer.go: the last `capacity` durations with their sum.
-- Each method holds the mutex for its whole body, so a call is one step on the record.
pub mod Queue
mod Tests
use go_notification.Prelude.{
  ℕ, ◌+◌, ◌%◌, Bool, List, [], ◌∷◌, Option, none, some, ℤ, pos, ◌+ℤ◌, ◌-ℤ◌, wrap64, quot_ℕ, leb_ℤ,
  pos_part, ◌==◌, if◌then◌else◌, get_or, set, replicate, map,
}

-- A `time.Duration` is the integer that its int64 holds.
pub record TimeDurationRingBuffer : Type 0 where
  pub buffer : List ℤ
  pub capacity : ℕ
  pub index : ℕ
  pub count : ℕ
  pub sum : ℤ

-- `none` is ErrInvalidCapacity.
pub new_ring : ℤ → Option TimeDurationRingBuffer
new_ring capacity =
    if leb_ℤ capacity (pos 0)
    then none
    else some (record {
      buffer = replicate (pos_part capacity) (pos 0);
      capacity = pos_part capacity;
      index = 0;
      count = 0;
      sum = pos 0;
    })

unfoldable pub add : TimeDurationRingBuffer → ℤ → TimeDurationRingBuffer
add r d =
    let full = r.count == r.capacity in
    let sum' = if full then wrap64 (r.sum -ℤ get_or r.buffer r.index (pos 0)) else r.sum in
    record r {
      count = if full then r.count else r.count + 1;
      buffer = set r.buffer r.index d;
      sum = wrap64 (sum' +ℤ d);
      index = (r.index + 1) % r.capacity;
    }

unfoldable pub avg : TimeDurationRingBuffer → ℤ
avg r = if r.count == 0 then pos 0 else quot_ℕ r.sum r.count

unfoldable pub len : TimeDurationRingBuffer → ℕ
len r = r.count

unfoldable pub cap_of : TimeDurationRingBuffer → ℕ
cap_of r = r.capacity

pub clear : TimeDurationRingBuffer → TimeDurationRingBuffer
clear r = record r { buffer = map (λ _. pos 0) r.buffer; count = 0; sum = pos 0; index = 0 }

-- the samples of a history, added in order
pub add_all : TimeDurationRingBuffer → List ℤ → TimeDurationRingBuffer
add_all r [] = r
add_all r (d ∷ ds) = add_all (add r d) ds
