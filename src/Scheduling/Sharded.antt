-- ===== src/Scheduling/Sharded.antt =====
-- internal/pkg/loopjob/shardingloopjob.go: a loop for each table, each under a lock of its own, as
-- many at a time as the semaphore allows.
use go_notification.Prelude.{ℕ, zero, suc, List, [], ◌∷◌, ◌++◌, Option, none, some, Duration}
use go_notification.Errs.{Err, Result, ok, err}
use go_notification.Effect.{Effect, recover}
use go_notification.Sharding.{Bytes, ShardingStrategy, Dst, broadcast}
use go_notification.Scheduling.Locks.{LockServices, MaxCntResourceSemaphore, acquire, release}

-- The semaphore is the one of resource.go.
pub record ShardingLoopJob {ℓ} (S : Type ℓ) : Type ℓ where
  pub sharding_strategy : ShardingStrategy
  pub base_key : Bytes
  pub biz : Effect S (Unit {0})
  pub retry_interval : Duration

unfoldable pub generate_key {ℓ} : {S : Type ℓ} → ShardingLoopJob S → Dst → Bytes
generate_key l dst = l.base_key ++ (b':' ∷ dst.db) ++ (b':' ∷ dst.table)

-- the semaphore, the loops that Run has started, the latest last, and everything else
pub record Running {ℓ κ} (S : Type ℓ) (Lock : Type κ) : Type (ℓ ⊔ κ) where
  pub semaphore : MaxCntResourceSemaphore
  pub started : List (Dst × Lock)
  pub world : S

module _ {ℓ κ} {S : Type ℓ} {Lock : Type κ} (d : LockServices S Lock) (l : ShardingLoopJob S) where
  -- what Lock said of the lock of a table, after an error of NewLock
  unfoldable pub try_lock :
      Dst → Option (Result (Unit {0}) × S) → Running S Lock → Option (Running S Lock)
  try_lock dst none r = none
  try_lock dst (some (err _, s)) r =
      some (record r { semaphore = (release r.semaphore).1; world = s })
  try_lock dst (some (ok _, s)) r =
      some (record r { started = r.started ++ ((dst, d.beside_error) ∷ []); world = s })

  -- NewLock, whose success is followed by nothing: the rest stands inside the test of its error.
  -- Release has no errors.
  unfoldable pub with_permit : Dst → Running S Lock → Option (Running S Lock)
  with_permit dst r =
      let (locked, s) = d.new_lock (generate_key l dst) r.world in
      elim locked [
        | ok _ ↦ some (record r { world = s })
        | err _ ↦
            try_lock dst (d.lock d.beside_error s)
              (record r { semaphore = (release r.semaphore).1; world = s })
      ]

  -- a table in the inner loop of Run; `none` is a panic
  unfoldable pub start_table : Dst → Running S Lock → Option (Running S Lock)
  start_table dst r =
      recover (acquire r.semaphore)
        (λ _ semaphore. with_permit dst (record r { semaphore = semaphore }))
        (λ semaphore.
          some (record r { semaphore = semaphore; world = d.sleep l.retry_interval r.world }))

  unfoldable pub start_tables : List Dst → Running S Lock → Option (Running S Lock)
  start_tables [] r = some r
  start_tables (dst ∷ dsts) r = elim (start_table dst r) [
    | none ↦ none
    | some r' ↦ start_tables dsts r'
  ]

  -- the first rounds of the outer loop of Run, which has no end
  unfoldable pub run_rounds : ℕ → Running S Lock → Option (Running S Lock)
  run_rounds zero r = some r
  run_rounds (suc n) r = elim (start_tables (broadcast l.sharding_strategy) r) [
    | none ↦ none
    | some r' ↦ run_rounds n r'
  ]

  -- The loop of bizLoop, on fuel: the error of the context ends it, and so does one of Refresh.
  unfoldable pub table_biz_loop : ℕ → Lock → S → Option (Err × S)
  table_biz_loop zero lock s = none
  table_biz_loop (suc fuel) lock s =
      let s1 = (l.biz s).1 in
      elim (d.context_error s1) [
        | some e ↦ some (e, s1)
        | none ↦
            let (refreshed, s2) = d.refresh lock s1 in
            elim refreshed [ err e ↦ some (e, s2) | ok _ ↦ table_biz_loop fuel lock s2 ]
      ]

  -- tableLoop: the lock is released, and the permit after a rest if the context goes on
  unfoldable pub table_loop :
      ℕ → Lock → MaxCntResourceSemaphore × S → Option (MaxCntResourceSemaphore × S)
  table_loop fuel lock (m, s) = elim (table_biz_loop fuel lock s) [
    | none ↦ none
    | some (_, s1) ↦
        let s2 = (d.unlock lock s1).1 in
        elim (d.context_error s2) [
          | some _ ↦ some ((release m).1, s2)
          | none ↦ some ((release m).1, d.sleep l.retry_interval s2)
        ]
  ]
