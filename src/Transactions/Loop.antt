-- ===== src/Transactions/Loop.antt =====
-- internal/service/notification/check_back_task.go: a round of the task.
use go_notification.Prelude.{
  Bool, true, false, List, [], ◌∷◌, ◌++◌, map, Option, none, some, ℤ, pos, Duration, if◌then◌else◌,
}
use go_notification.Errs.{Err, Result, ok, err, failure}
use go_notification.Effect.{Effect}
use go_notification.Domain.Notification
use go_notification.Domain.Notification.{SendStatus, sending, failed, is_empty}
use go_notification.Domain.Tx
use go_notification.Domain.Tx.{TxNotification, TxNotificationStatus, BusinessConfig}
use go_notification.Transactions.Check.{TaskServices, one_back_check}

-- the three concurrent lists, and whether a goroutine returned the error of an illegal status
pub record Buckets : Type 0 where
  pub retried : List TxNotification
  pub failed_txns : List TxNotification
  pub committed : List TxNotification
  pub illegal : Bool

abbrev pub no_buckets : Buckets
no_buckets = record { retried = []; failed_txns = []; committed = []; illegal = false }

unfoldable pub classify_as : TxNotificationStatus → TxNotification → Buckets → Buckets
classify_as Tx.prepare t b = record b { retried = b.retried ++ (t ∷ []) }
classify_as Tx.commit t b = record b { committed = b.committed ++ (t ∷ []) }
classify_as Tx.cancel t b = record b { failed_txns = b.failed_txns ++ (t ∷ []) }
classify_as Tx.fail t b = record b { failed_txns = b.failed_txns ++ (t ∷ []) }
classify_as (Tx.other_tx_status _) t b = record b { illegal = true }

unfoldable pub classify : TxNotification → Buckets → Buckets
unfolding classify_as
classify t b = classify_as t.status t b

-- `multierr.Append`
abbrev pub append_error : Result (Unit {0}) → Result (Unit {0}) → Result (Unit {0})
append_error (ok _) r = r
append_error (err e) (ok _) = err e
append_error (err e) (err f) = err (e ++ f)

abbrev pub illegal_status : Err
illegal_status = failure 5

module _ {ℓ} {S : Type ℓ} (overflow : ℤ → Duration) (services : TaskServices S) where
  unfoldable pub update_status : List TxNotification → SendStatus → Effect S (Unit {0})
  update_status txns status s =
      if is_empty txns then (ok tt, s) else services.update_check_status txns status s

  -- The goroutines, each run as a whole, in the order of the list. `none` is a panic in one of them,
  -- which stops the program.
  unfoldable pub check_all :
      List (ℤ × BusinessConfig) → List TxNotification → Buckets → S → Option Buckets × S
  unfolding classify
  check_all configs [] b s = (some b, s)
  check_all configs (t ∷ ts) b s =
      let (checked, s') = one_back_check overflow services configs t s in
      elim checked [ none ↦ (none, s') | some t' ↦ check_all configs ts (classify t' b) s' ]

  unfoldable pub update_all : Buckets → Effect S (Unit {0})
  unfolding update_status
  update_all b s =
      let (r, s1) = update_status b.retried Notification.prepare s in
      let (f, s2) = update_status b.failed_txns failed s1 in
      let (c, s3) = update_status b.committed sending s2 in (append_error (append_error r f) c, s3)

  -- `schedule` is the order in which the goroutines of a list run
  unfoldable pub check_found :
      (List TxNotification → List TxNotification)
      → List TxNotification
      → S
      → Option (Result (Unit {0})) × S
  unfolding check_all update_all
  check_found schedule ts s =
      let (found, s1) = services.get_by_ids (map (λ t. TxNotification.biz_id t) ts) s in
      elim found [
        | err e ↦ (some (err e), s1)
        | ok configs ↦
            let (buckets, s2) = check_all configs (schedule ts) no_buckets s1 in
            elim buckets [
              | none ↦ (none, s2)
              | some b ↦
                  if b.illegal
                  then (some (err illegal_status), s2)
                  else let (r, s3) = update_all b s2 in (some r, s3)
            ]
      ]

  -- the sleep on an empty list is left out
  unfoldable pub one_loop :
      (List TxNotification → List TxNotification) → ℤ → S → Option (Result (Unit {0})) × S
  unfolding check_found
  one_loop schedule batch_size s =
      let (found, s1) = services.find_check_back (pos 0) batch_size s in
      elim found [
        | err e ↦ (some (err e), s1)
        | ok [] ↦ (some (ok tt), s1)
        | ok (t ∷ ts) ↦ check_found schedule (t ∷ ts) s1
      ]
