-- ===== src/Repository/Dao.antt =====
-- internal/repository/dao/notification.go: the statements on the tables of notifications and of their
-- callback logs. A statement is a table, the conditions of its WHERE clause, which all hold, and the
-- columns that it sets; running it is a parameter.
mod Tables
unfoldable pub use Tables.*
use Prim.Native.String.{String}
use go_notification.Prelude.{
  Bool, ◌&&◌, List, [], ◌∷◌, map, Option, none, some, ℤ, pos, ◌-ℤ◌, leb_ℤ, assign, if◌then◌else◌,
}
use go_notification.Errs.{Err, Result, ok, err, Sentinel, failure}
use go_notification.Effect.{Effect, bind_result}
use go_notification.Domain.Notification.{
  other_channel, SendStatus, pending, succeeded, failed, other_status, is_empty,
}
use go_notification.Repository.Entities.{Entity}
use go_notification.Repository.Notifications.{Store}

module _ {ℓ} {S : Type ℓ} (db : NotificationDatabase S) where
  -- db.Transaction
  abbrev pub transaction {κ} : {A : Type κ} → Effect S A → Effect S A
  transaction body s =
      let (r, s') = body s in elim r [ err e ↦ (err e, db.rollback s s') | ok a ↦ (ok a, s') ]

  abbrev pub ignore_count : Effect S ℤ → Effect S (Unit {0})
  ignore_count m s = bind_result (m s) λ _ s'. (ok tt, s')

  -- the rows of a creation, in as many INSERTs as they need, and the error of a duplicate
  abbrev pub insert : List Row → Effect S (Unit {0})
  insert rows s =
      let (inserted, s') = db.insert_rows rows s in
      elim inserted [
        | ok _ ↦ (ok tt, s')
        | err e ↦ (
          err (if db.is_unique_constraint_error e then Sentinel.notification_duplicate ∷ [] else e),
          s',
        )
      ]

  abbrev pub insert_callback_logs : List NewLog → Effect S (Unit {0})
  insert_callback_logs logs s =
      let (inserted, s') = db.insert_logs logs s in
      elim inserted [
        | ok _ ↦ (ok tt, s')
        | err _ ↦ (err (Sentinel.create_callback_log_failed ∷ []), s')
      ]

  -- create, with or without a callback log; the row that the code returns beside an error is left out
  unfoldable pub create_row : Bool → Entity → Effect S Entity
  create_row create_callback_log e s =
      let (now, s1) = db.now_milli s in
      bind_result
        (transaction
          (λ s2. bind_result (insert (created now e ∷ []) s2) λ _ s3.
            if create_callback_log
            then insert_callback_logs
                (record {
                  notification_id = e.id;
                  status = some "INIT";
                  next_retry_time = now;
                  ctime = pos 0;
                  utime = pos 0;
                }
                  ∷ [])
                s3
            else (ok tt, s3))
          s1)
        λ _ s4. (ok (first_version e), s4)

  abbrev pub new_log : ℤ → Entity → NewLog
  new_log now e = record {
    notification_id = e.id;
    status = none;
    next_retry_time = now;
    ctime = now;
    utime = now;
  }

  -- batchCreate: the rows, as they were to be stored, come back beside an error too
  unfoldable pub batch_create_rows : Bool → List Entity → S → (List Entity × Option Err) × S
  batch_create_rows create_callback_log es s =
      if is_empty es
      then ((es, none), s)
      else let (now, s1) = db.now_milli s in
        let (stored, s4) =
          transaction
            (λ s2. bind_result (insert (map (created now) es) s2) λ _ s3.
              if create_callback_log
              then insert_callback_logs (map (new_log now) es) s3
              else (ok tt, s3))
            s1 in
        ((map first_version es, elim stored [ ok _ ↦ none | err e ↦ some e ]), s4)

  unfoldable pub get_by_id : ℤ → Effect S Entity
  get_by_id id s = bind_result (db.first (equals "id" (number id) ∷ []) s) λ found s'. (
    elim found [ none ↦ err (Sentinel.notification_not_found ∷ []) | some row ↦ ok row.entity ],
    s',
  )

  unfoldable pub batch_get_by_ids : List ℤ → Effect S (List (ℤ × Entity))
  unfolding entities_by_id
  batch_get_by_ids ids s =
      bind_result (db.select_rows (one_of "id" ids ∷ []) s)
        λ rows s'. (ok (entities_by_id rows []), s')

  -- a missing row is an error like any other here
  unfoldable pub get_by_key : ℤ → String → S → (Entity × Option Err) × S
  get_by_key biz_id key s =
      found_by_key (db.first (equals "biz_id" (number biz_id) ∷ equals "key" (words key) ∷ []) s)

  unfoldable pub get_by_keys : ℤ → List String → Effect S (List Entity)
  get_by_keys biz_id keys s =
      bind_result
        (db.select_rows (equals "biz_id" (number biz_id) ∷ one_of_words "key" keys ∷ []) s)
        λ rows s'. (ok (map (λ row. Row.entity row) rows), s')

  -- UPDATE of the notification with an ID
  unfoldable pub update_status : Entity → Effect S (Unit {0})
  update_status e s =
      let (now, s1) = db.now_milli s in
      ignore_count
        (db.update notifications (equals "id" (number e.id) ∷ []) (status_columns e.status now)) s1

  unfoldable pub mark_failed : Entity → Effect S (Unit {0})
  mark_failed e s =
      let (now, s1) = db.now_milli s in
      ignore_count
        (db.update notifications (equals "id" (number e.id) ∷ []) (status_columns e.status now)) s1

  unfoldable pub cas_status : Entity → Effect S (Unit {0})
  cas_status e s =
      let (now, s1) = db.now_milli s in
      bind_result
        (db.update notifications
          (equals "id" (number e.id) ∷ equals "version" (number e.version) ∷ [])
          (status_columns e.status now) s1)
        λ affected s2. (met_or_mismatch affected, s2)

  unfoldable pub mark_success : Entity → Effect S (Unit {0})
  mark_success e s =
      let (now, s1) = db.now_milli s in
      transaction
        (λ s2.
          bind_result
            (db.update notifications (equals "id" (number e.id) ∷ []) (status_columns e.status now)
              s2)
            λ _ s3.
              ignore_count
                (db.update callback_logs (equals "notification_id" (number e.id) ∷ [])
                  (log_columns now))
                s3)
        s1

  -- batchMarkSuccess, whose second statement is on the table of notifications too
  unfoldable pub batch_mark_success : List ℤ → Effect S (Unit {0})
  batch_mark_success success_ids s =
      let (now, s1) = db.now_milli s in
      bind_result
        (db.update notifications (one_of "id" success_ids ∷ [])
          (("version", next_version) ∷ ("utime", number now) ∷ ("status", status succeeded) ∷ [])
          s1)
        λ _ s2.
          ignore_count
            (db.update notifications (one_of "notification_id" success_ids ∷ []) (log_columns now))
            s2

  -- the failed ones, whose statement asks for the IDs of the succeeded ones
  unfoldable pub batch_mark_failed : List ℤ → List ℤ → Effect S (Unit {0})
  batch_mark_failed success_ids failed_ids s =
      if is_empty failed_ids
      then (ok tt, s)
      else let (now, s1) = db.now_milli s in
        ignore_count
          (db.update notifications (one_of "id" success_ids ∷ []) (status_columns failed now)) s1

  unfoldable pub mark_both : List ℤ → List ℤ → Effect S (Unit {0})
  unfolding batch_mark_success batch_mark_failed
  mark_both success_ids failed_ids s =
      if is_empty success_ids
      then batch_mark_failed success_ids failed_ids s
      else bind_result (batch_mark_success success_ids s)
          λ _ s'. batch_mark_failed success_ids failed_ids s'

  -- BatchUpdateStatusSucceedOrFailed
  unfoldable pub batch_update : List Entity → List Entity → Effect S (Unit {0})
  unfolding mark_both
  batch_update succeeded_rows failed_rows s =
      if is_empty succeeded_rows && is_empty failed_rows
      then (ok tt, s)
      else transaction (mark_both (ids_of succeeded_rows) (ids_of failed_rows)) s

  unfoldable pub find_ready_notifications : ℤ → ℤ → Effect S (List Entity)
  find_ready_notifications offset limit s =
      let (now, s1) = db.now_milli s in
      bind_result
        (db.select_page
          (at_most "scheduled_stime" now
            ∷ at_least "scheduled_etime" now
            ∷ equals "status" (status pending)
            ∷ [])
          offset limit s1)
        λ rows s2. (ok (map (λ row. Row.entity row) rows), s2)

  -- what is done with the IDs that were found, on the table of the callback logs
  unfoldable pub mark_timed_out : ℤ → List ℤ → Effect S ℤ
  mark_timed_out now ids s =
      if is_empty ids
      then (ok (pos 0), s)
      else db.update callback_logs (one_of "id" ids ∷ [])
          (("status", words "FAILED") ∷ ("version", next_version) ∷ ("utime", number now) ∷ []) s

  unfoldable pub mark_timeout_sending_as_failed : ℤ → Effect S ℤ
  unfolding mark_timed_out
  mark_timeout_sending_as_failed batch_size s =
      let (now, s1) = db.now_milli s in
      transaction
        (λ s2.
          bind_result
            (db.select_ids
              (equals "status" (status pending) ∷ at_most "utime" (now -ℤ pos 60000) ∷ [])
              batch_size s2)
            λ ids s3. mark_timed_out now ids s3)
        s1

  -- the table as the repository sees it, with a quota cache
  abbrev pub with_quota : Store S → Store S
  with_quota cache = record cache {
    create = create_row Bool.false;
    create_with_callback_log = create_row Bool.true;
    batch_create = batch_create_rows Bool.false;
    batch_create_with_callback_log = batch_create_rows Bool.true;
    get_by_key = get_by_key;
    get_by_keys = get_by_keys;
    cas_status = cas_status;
    batch_update = batch_update;
    mark_success = mark_success;
    mark_failed = mark_failed;
  }
