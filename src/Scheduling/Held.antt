-- ===== src/Scheduling/Held.antt =====
-- What becomes of the two kinds of loop when their lock is lost.
use go_notification.Prelude.{ℕ, zero, suc, ◌≡◌, refl, none, some}
use go_notification.Errs.{Err, err}
use go_notification.Scheduling.Locks.{LockServices}
use go_notification.Scheduling.Infinite.{InfiniteLoop, biz_loop}
use go_notification.Scheduling.Sharded.{ShardingLoopJob, table_biz_loop}

module _ {ℓ κ} {S : Type ℓ} {Lock : Type κ} (d : LockServices S Lock)
    (live : (s : S) → d.context_error s ≡ none) where
  biz_loop-none :
      (l : InfiniteLoop S) (fuel : ℕ) (lock : Lock) (s : S) → biz_loop d l fuel lock s ≡ none
  unfolding biz_loop
  biz_loop-none l zero lock s = refl
  biz_loop-none l (suc fuel) lock s =
      rw (biz_loop, live (l.biz s).1) (biz_loop-none l fuel lock (d.refresh lock (l.biz s).1).1)

  table_biz_loop-lost :
      (t : ShardingLoopJob S) (fuel : ℕ) (lock : Lock) (s : S) (e : Err)
      → (d.refresh lock (t.biz s).1).0 ≡ err e
      → table_biz_loop d t (suc fuel) lock s ≡ some (e, (d.refresh lock (t.biz s).1).1)
  unfolding table_biz_loop
  table_biz_loop-lost t fuel lock s e lost = rw (table_biz_loop, live (t.biz s).1, lost) refl

  -- A lock is lost, so that refreshing it fails from then on, while the context of the job goes on.
  -- Then the loop of a table ends with that error after one run of its business, and the loop of
  -- InfiniteLoop never ends, however often its business runs.
  pub biz_loop-lost :
      (l : InfiniteLoop S) (t : ShardingLoopJob S) (fuel : ℕ) (lock : Lock) (s : S) (e : Err)
      → ((s : S) → (d.refresh lock s).0 ≡ err e)
      → (biz_loop d l fuel lock s ≡ none)
        × (table_biz_loop d t (suc fuel) lock s ≡ some (e, (d.refresh lock (t.biz s).1).1))
  biz_loop-lost l t fuel lock s e lost =
      (biz_loop-none l fuel lock s, table_biz_loop-lost t fuel lock s e (lost (t.biz s).1))
