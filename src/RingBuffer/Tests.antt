-- ===== src/RingBuffer/Tests.antt =====
-- Runs of the ring buffer, and the theorems about it at concrete inputs.
use go_notification.Prelude.{
  ◌≡◌, refl, List, [], ◌∷◌, some, none, ℤ, pos, negsuc, ◌+ℤ◌, ◌-ℤ◌, wrap64, length,
}
use go_notification.RingBuffer.{TimeDurationRingBuffer, new_ring, add, avg, len, add_all}
use go_notification.RingBuffer.Queue.{contents, total, remember_all, add_all_refines}

abbrev fresh : TimeDurationRingBuffer
fresh = record {
  buffer = pos 0 ∷ pos 0 ∷ pos 0 ∷ [];
  capacity = 3;
  index = 0;
  count = 0;
  sum = pos 0;
}

abbrev samples : List ℤ
samples = pos 10 ∷ pos 20 ∷ pos 30 ∷ pos 7 ∷ []

new-negative : new_ring (negsuc 0) ≡ none
unfolding new_ring
new-negative = refl

fresh_lem : new_ring (pos 3) ≡ some fresh
unfolding new_ring
fresh_lem = refl

avg-samples : avg (add_all fresh samples) ≡ pos 19
unfolding avg add_all add ◌+ℤ◌ ◌-ℤ◌ wrap64
avg-samples = refl

add_all_refines_example :
    let q = remember_all 3 [] samples in
    let r = add_all fresh samples in
    (contents r ≡ q) × (len r ≡ length q) × (r.sum ≡ wrap64 (total q))
add_all_refines_example = add_all_refines 3 samples fresh_lem
