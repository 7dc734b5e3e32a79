-- ===== src/Callback/Logs.antt =====
-- internal/repository/callback_log.go and internal/repository/dao/callback_log.go: the logs of the
-- callbacks, with their notifications, page by page.
use go_notification.Prelude.{
  ◌≡◌, refl, List, [], ◌∷◌, map, length, Option, none, some, ℤ, pos, ltb_ℤ, find, if◌then◌else◌,
}
use go_notification.Errs.{Err, ok, err}
use go_notification.Effect.{Effect, bind_result}
use go_notification.Domain.Notification.{Notification, is_empty}
use go_notification.Repository.Notifications.{empty_notification}
use go_notification.Callback.Service.{CallbackLog, CallbackLogStatus, CallbackServices, pending}

pub record LogRow : Type 0 where
  pub id : ℤ
  pub notification_id : ℤ
  pub retry_count : ℤ
  pub next_retry_time : ℤ
  pub status : CallbackLogStatus

-- The table of the logs: the rows that are due at a time, have a status and an ID above one given, in
-- the order of their IDs and up to a limit; those of some notifications; and the change of a row's
-- count, time and status, with the time of the change. `rollback` takes the state in which a
-- transaction began and the one in which it failed.
pub record LogDatabase {ℓ} (S : Type ℓ) : Type ℓ where
  pub now_milli : S → ℤ × S
  pub select_due : ℤ → CallbackLogStatus → ℤ → ℤ → Effect S (List LogRow)
  pub select_by_notifications : List ℤ → Effect S (List LogRow)
  pub update_row : ℤ → LogRow → Effect S (Unit {0})
  pub rollback : S → S → S

-- the repository of the notifications; the value beside an error is used
pub record NotificationLookup {ℓ} (S : Type ℓ) : Type ℓ where
  pub get_by_id : ℤ → S → (Notification × Option Err) × S
  pub batch_get_by_id : List ℤ → Effect S (List (ℤ × Notification))

unfoldable pub last_id : List LogRow → ℤ
last_id [] = pos 0
last_id (row ∷ []) = row.id
last_id (row ∷ next ∷ rows) = last_id (next ∷ rows)

unfoldable pub to_log_domain : LogRow → Notification → CallbackLog
to_log_domain row n = record {
  id = row.id;
  notification = n;
  retry_count = row.retry_count;
  next_retry_time = row.next_retry_time;
  status = row.status;
}

unfoldable pub to_log_entity : CallbackLog → LogRow
to_log_entity log = record {
  id = log.id;
  notification_id = log.notification.id;
  retry_count = log.retry_count;
  next_retry_time = log.next_retry_time;
  status = log.status;
}

-- an entry of a map of notifications, or the zero value
abbrev pub entry_of : Option Notification → Notification
entry_of none = empty_notification
entry_of (some n) = n

module _ {ℓ} {S : Type ℓ} (db : LogDatabase S) where
  -- Find of the DAO; the rows that it returns beside an error are left out
  unfoldable pub find_rows : ℤ → ℤ → ℤ → Effect S (List LogRow × ℤ)
  unfolding last_id
  find_rows start_time batch_size start_id s =
      bind_result (db.select_due start_time pending start_id batch_size s)
        λ rows s'. (ok (rows, last_id rows), s')

  unfoldable pub update_each : ℤ → List LogRow → Effect S (Unit {0})
  update_each utime [] s = (ok tt, s)
  update_each utime (row ∷ rows) s =
      bind_result (db.update_row utime row s) λ _ s'. update_each utime rows s'

  unfoldable pub update_rows : List LogRow → Effect S (Unit {0})
  unfolding update_each
  update_rows rows s =
      if is_empty rows
      then (ok tt, s)
      else let (utime, s1) = db.now_milli s in
        let (updated, s2) = update_each utime rows s1 in
        elim updated [ err e ↦ (err e, db.rollback s1 s2) | ok _ ↦ (ok tt, s2) ]

  module _ (repo : NotificationLookup S) where
    -- each row with the notification of its ID
    unfoldable pub with_notifications : List LogRow → S → List CallbackLog × S
    unfolding to_log_domain
    with_notifications [] s = ([], s)
    with_notifications (row ∷ rows) s =
        let ((n, _), s1) = repo.get_by_id row.notification_id s in
        let (logs, s2) = with_notifications rows s1 in (to_log_domain row n ∷ logs, s2)

    -- after a page that is not full the next page is the first
    unfoldable pub find_logs : ℤ → ℤ → ℤ → Effect S (List CallbackLog × ℤ)
    unfolding find_rows with_notifications
    find_logs start_time batch_size start_id s =
        bind_result (find_rows start_time batch_size start_id s) λ (rows, next) s1.
          let (logs, s2) = with_notifications rows s1 in
          (ok (logs, (if ltb_ℤ (pos (length rows)) batch_size then pos 0 else next)), s2)

    unfoldable pub update_logs : List CallbackLog → Effect S (Unit {0})
    unfolding update_rows to_log_entity
    update_logs logs = update_rows (map to_log_entity logs)

    unfoldable pub find_by_notification_ids : List ℤ → Effect S (List CallbackLog)
    unfolding to_log_domain
    find_by_notification_ids ids s = bind_result (db.select_by_notifications ids s) λ rows s1.
        bind_result (repo.batch_get_by_id ids s1) λ ns s2. (
          ok (
              map (λ row. to_log_domain row (entry_of (find (LogRow.notification_id row) ns)))
                rows),
          s2,
        )

    -- the logs as the callback service sees them
    abbrev pub over_logs : CallbackServices S → CallbackServices S
    over_logs services = record services {
      find = find_logs;
      find_by_notification_ids = find_by_notification_ids;
      update = update_logs;
    }

  -- An update of no logs changes nothing.
  update_rows-none : (s : S) → update_rows [] s ≡ (ok tt, s)
  unfolding update_rows
  update_rows-none s = refl

-- A log that is stored and read back with its notification is as it was.
to_log_domain-to_log_entity :
    (log : CallbackLog) → to_log_domain (to_log_entity log) log.notification ≡ log
unfolding to_log_domain to_log_entity
to_log_domain-to_log_entity log = refl
