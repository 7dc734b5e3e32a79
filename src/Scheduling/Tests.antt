-- ===== src/Scheduling/Tests.antt =====
-- Locks that work, a lock that is lost, and a store that fails, with the theorems about them. The state
-- is a clock that shows one more each time it is read.
use go_notification.Prelude.{
  ℕ, suc, ◌*◌, ◌≡◌, refl, true, [], ◌∷◌, none, some, length, pos, ltb, Float64, arith,
}
use Prim.Native.Nat.{min}
use go_notification.Errs.{Sentinel, ok, err}
use go_notification.Sharding.{broadcast}
use go_notification.BitRing.{new_bit_ring}
use go_notification.BitRing.History.{tripped}
use go_notification.Scheduling.Locks.{LockServices}
use go_notification.Scheduling.Infinite.{InfiniteLoop, biz_loop}
use go_notification.Scheduling.Sharded.{ShardingLoopJob, run_rounds, table_biz_loop}
use go_notification.Scheduling.Ready.{
  SchedulerServices, ShardingScheduler, loop, measure, send_found, batch_send_ready_notifications,
  adjusted,
}
use go_notification.Scheduling.Held.{biz_loop-lost}
use go_notification.Scheduling.Permits.{idle, run_rounds-idle}
use go_notification.Scheduling.Ending.{until_tripped, after, loop-Fails}

-- the only lock is 0, and it is lost at once
abbrev locks : LockServices ℕ ℕ
locks = record {
  new_lock = λ key s. (ok 0, s);
  beside_error = 0;
  lock = λ lock s. some (ok tt, s);
  refresh = λ lock s. (err (Sentinel.other 1 ∷ []), s);
  unlock = λ lock s. (ok tt, s);
  context_error = λ s. none;
  sleep = λ d s. s;
}

abbrev counting : InfiniteLoop ℕ
counting = record { key = b'k' ∷ []; biz = λ s. (ok tt, suc s); retry_interval = pos 60 }

abbrev tables : ShardingLoopJob ℕ
tables = record {
  sharding_strategy = record {
    db_prefix = b'd' ∷ [];
    table_prefix = b't' ∷ [];
    table_sharding = 2;
    db_sharding = 2;
  };
  base_key = b'k' ∷ [];
  biz = λ s. (ok tt, suc s);
  retry_interval = pos 60;
}

biz_loop-lost_example :
    (biz_loop locks counting 5 0 0 ≡ none)
    × (table_biz_loop locks tables 6 0 0 ≡ some (Sentinel.other 1 ∷ [], 1))
biz_loop-lost_example =
    biz_loop-lost locks (λ s. refl) counting tables 5 0 0 (Sentinel.other 1 ∷ []) (λ s. refl)

-- three permits are gone after one round over four tables
run_rounds-idle_example :
    (s' : ℕ) × (run_rounds locks tables 1 (idle locks tables 3 0 0)
      ≡ some (idle locks tables 3 (min 3 (1 * length (broadcast tables.sharding_strategy))) s'))
run_rounds-idle_example = run_rounds-idle locks tables (λ key s. (0, refl)) 3 1 0 (omega arith)

instance abbrev fractions : Float64 (ℕ × ℕ)
fractions = record {
  of_int = λ n. (n, 1);
  quotient = λ a b. (a.0 * b.1, a.1 * b.0);
  less = λ a b. ltb (a.0 * b.1) (b.0 * a.1);
}

-- a table that cannot be read
abbrev failing : SchedulerServices ℕ
failing = record {
  now = λ s. (pos s, suc s);
  sleep = λ d s. s;
  find_ready_notifications = λ offset limit s. (err (Sentinel.other 2 ∷ []), s);
  batch_send = λ notifications s. (ok [], s);
  adjust = λ response_time s. (ok (pos 20), s);
}

-- a threshold that no rate is above
abbrev never_above : ℕ × ℕ
never_above = (1, 1)

abbrev starting : ShardingScheduler (ℕ × ℕ)
starting = after failing (pos 100) (pos 4) (pos 3) never_above [] (pos 10)

three_errors :
    until_tripped failing (pos 100) (pos 4) (pos 3) never_above 3 [] (pos 10) 0
    ≡ some (true ∷ true ∷ true ∷ [], pos 20, 6)
unfolding until_tripped measure send_found batch_send_ready_notifications adjusted tripped
    new_bit_ring
three_errors = refl

loop-Fails_example :
    (scheduler : ShardingScheduler (ℕ × ℕ)) × (s' : ℕ) × (loop failing 3 starting 0
      ≡ some (Sentinel.error_condition_is_met ∷ [], scheduler, s'))
unfolding new_bit_ring
loop-Fails_example =
    loop-Fails failing (pos 100) (pos 4) (pos 3) never_above 3 (pos 10) 0 (λ limit s. tt)
      (omega arith)
