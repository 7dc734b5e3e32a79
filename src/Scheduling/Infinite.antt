-- ===== src/Scheduling/Infinite.antt =====
-- internal/pkg/loopjob/loopjob.go: one loop over the whole deployment, under one lock.
use go_notification.Prelude.{ℕ, zero, suc, Option, none, some, Duration}
use go_notification.Errs.{Err, Result, ok, err}
use go_notification.Effect.{Effect}
use go_notification.Sharding.{Bytes}
use go_notification.Scheduling.Locks.{LockServices}

pub record InfiniteLoop {ℓ} (S : Type ℓ) : Type ℓ where
  pub key : Bytes
  pub biz : Effect S (Unit {0})
  pub retry_interval : Duration

module _ {ℓ κ} {S : Type ℓ} {Lock : Type κ} (d : LockServices S Lock) (l : InfiniteLoop S) where
  -- The loop of bizLoop, on fuel: it ends with the error of the context, once there is one after a
  -- run of the business. The errors of the business and of Refresh are logged.
  unfoldable pub biz_loop : ℕ → Lock → S → Option (Err × S)
  biz_loop zero lock s = none
  biz_loop (suc fuel) lock s =
      let s1 = (l.biz s).1 in
      elim (d.context_error s1) [
        | some e ↦ some (e, s1)
        | none ↦ biz_loop fuel lock (d.refresh lock s1).1
      ]

  -- after bizLoop the lock is released, and an ended context ends the job
  unfoldable pub after_biz : Lock → S → (S → Option S) → Option S
  after_biz lock s again =
      let s1 = (d.unlock lock s).1 in
      elim (d.context_error s1) [ some _ ↦ some s1 | none ↦ again (d.sleep l.retry_interval s1) ]

  unfoldable pub with_lock : Lock → Option (Result (Unit {0}) × S) → (S → Option S) → ℕ → Option S
  unfolding biz_loop after_biz
  with_lock lock none again fuel = none
  with_lock lock (some (err e, s)) again fuel = again (d.sleep l.retry_interval s)
  with_lock lock (some (ok _, s)) again fuel = elim (biz_loop fuel lock s) [
    | none ↦ none
    | some (_, s1) ↦ after_biz lock s1 again
  ]

  -- Run, for as many rounds and as many runs of the business in each as there is fuel; `none` means
  -- that the fuel ran out, or a panic.
  unfoldable pub run : ℕ → ℕ → S → Option S
  unfolding with_lock
  run zero fuel s = none
  run (suc rounds) fuel s =
      let (locked, s1) = d.new_lock l.key s in
      elim locked [
        | err _ ↦ run rounds fuel (d.sleep l.retry_interval s1)
        | ok lock ↦ with_lock lock (d.lock lock s1) (λ s2. run rounds fuel s2) fuel
      ]
