-- ===== src/Repository/Unmarked.antt =====
-- What the statements on the table of notifications come to in a database that refuses a condition on a
-- column that the table lacks.
use Prim.Native.String.{String}
use go_notification.Prelude.{
  ◌≡◌, ◌≢◌, refl, Bool, true, false, not, ◌||◌, List, [], ◌∷◌, map, ℤ, has_name,
}
use go_notification.Errs.{Err, Result, ok, err, Refuses, not_ok}
use go_notification.Effect.{Effect, bind_result}
use go_notification.Domain.Notification.{Notification, succeeded}
use go_notification.Repository.Entities.{Json, Entity, to_entity}
use go_notification.Repository.Notifications.{Store, batch_update_status, get_items}
use go_notification.Repository.Dao.{
  NotificationDatabase, Table, notifications, callback_logs, Condition, equals, one_of,
  one_of_words, at_most, at_least, Columns, transaction, batch_mark_success, mark_both,
  batch_update, find_ready_notifications, with_quota, ids_of, next_version, number, status,
  log_columns, ignore_count, batch_mark_failed,
}

-- the columns by the tags of the structs, or gorm's names for their fields
abbrev pub columns_of : Table → List String
columns_of notifications =
    "id" ∷ "biz_id" ∷ "key" ∷ "receivers" ∷ "channel" ∷ "template_id" ∷ "template_version_id"
    ∷ "template_params" ∷ "status" ∷ "scheduled_time" ∷ "version" ∷ "ctime" ∷ "utime" ∷ []
columns_of callback_logs =
    "id" ∷ "notification_id" ∷ "retry_count" ∷ "next_retry_time" ∷ "status" ∷ "ctime" ∷ "utime" ∷ []

abbrev pub column_of : Condition → String
column_of (equals name _) = name
column_of (one_of name _) = name
column_of (one_of_words name _) = name
column_of (at_most name _) = name
column_of (at_least name _) = name

abbrev pub any_unknown : List String → List Condition → Bool
any_unknown names [] = false
any_unknown names (c ∷ cs) = not (has_name (column_of c) names) || any_unknown names cs

-- a statement with a condition on a column that its table lacks is an error
pub record RefusesUnknown {ℓ} {S : Type ℓ} (db : NotificationDatabase S) : Type ℓ where
  pub update-refused :
      (table : Table) (conditions : List Condition) (columns : Columns) (s : S)
      → any_unknown (columns_of table) conditions ≡ true
      → Refuses (db.update table conditions columns s).0
  pub select_page-refused :
      (conditions : List Condition) (offset limit : ℤ) (s : S)
      → any_unknown (columns_of notifications) conditions ≡ true
      → Refuses (db.select_page conditions offset limit s).0

-- a view of the stored rows, which the rollback of a transaction gives back as they were at its start
pub record Restores {ℓ κ} {S : Type ℓ} (T : Type κ) (db : NotificationDatabase S)
    : Type (ℓ ⊔ κ) where
  pub rows : S → T
  pub rollback-rows : (s s' : S) → rows (db.rollback s s') ≡ rows s

-- a sequence fails if its first part does, or its second part whatever the first gives
bind_result-Refuses {ℓ κ μ} :
    {S : Type ℓ} {A : Type κ} {B : Type μ} (m : Result A × S) (f : A → Effect S B)
    → Refuses m.0
    → Refuses (bind_result m f).0
bind_result-Refuses (ok a, s) f refused = elim refused [ ]
bind_result-Refuses (err e, s) f refused = tt

bind_result-Refuses_next {ℓ κ μ} :
    {S : Type ℓ} {A : Type κ} {B : Type μ} (m : Result A × S) (f : A → Effect S B)
    → ((a : A) → Refuses (f a m.1).0)
    → Refuses (bind_result m f).0
bind_result-Refuses_next (ok a, s) f refused = refused a
bind_result-Refuses_next (err e, s) f refused = tt

-- what is done after a success makes no difference to an error
elim-Refuses {ℓ} :
    {S : Type ℓ} (r : Result (Unit {0})) (s : Err → S) (next : Result (Unit {0}) × S)
    → Refuses r
    → Refuses (elim r as (λ _. Result (Unit {0}) × S) [ err e ↦ (err e, s e) | ok _ ↦ next ]).0
elim-Refuses (ok a) s next refused = elim refused [ ]
elim-Refuses (err e) s next refused = tt

-- and the state is the one that the error left
elim_state {ℓ κ} :
    {S : Type ℓ} (P : S → Type κ) (r : Result (Unit {0})) (s : Err → S)
    (next : Result (Unit {0}) × S)
    → Refuses r
    → ((e : Err) → P (s e))
    → P (elim r as (λ _. Result (Unit {0}) × S) [ err e ↦ (err e, s e) | ok _ ↦ next ]).1
elim_state P (ok a) s next refused h = elim refused [ ]
elim_state P (err e) s next refused h = h e

module _ {ℓ κ} {S : Type ℓ} {T : Type κ} (db : NotificationDatabase S) (strict : RefusesUnknown db)
    (view : Restores T db) where
  open strict use {update-refused, select_page-refused}

  transaction-Refuses :
      (body : Effect S (Unit {0})) (s : S) → Refuses (body s).0 → Refuses (transaction db body s).0
  transaction-Refuses body s refused =
      elim-Refuses (body s).0 (λ e. db.rollback s (body s).1) (ok tt, (body s).1) refused

  transaction-rows :
      (body : Effect S (Unit {0})) (s : S)
      → Refuses (body s).0
      → view.rows (transaction db body s).1 ≡ view.rows s
  transaction-rows body s refused =
      elim_state (λ s'. view.rows s' ≡ view.rows s) (body s).0 (λ e. db.rollback s (body s).1)
        (ok tt, (body s).1) refused (λ e. view.rollback-rows s (body s).1)

  batch_mark_success-Refuses : (ids : List ℤ) (s : S) → Refuses (batch_mark_success db ids s).0
  unfolding batch_mark_success
  batch_mark_success-Refuses ids s =
      let now = (db.now_milli s).0 in
      let marked =
        db.update notifications (one_of "id" ids ∷ [])
          (("version", next_version) ∷ ("utime", number now) ∷ ("status", status succeeded) ∷ [])
          (db.now_milli s).1 in
      bind_result-Refuses_next marked
        (λ _ s2.
          ignore_count db
            (db.update notifications (one_of "notification_id" ids ∷ []) (log_columns now)) s2)
        (λ n.
          bind_result-Refuses
            (db.update notifications (one_of "notification_id" ids ∷ []) (log_columns now) marked.1)
            (λ _ s3. (ok tt, s3))
            (update-refused notifications (one_of "notification_id" ids ∷ []) (log_columns now)
              marked.1 refl))

  mark_both-Refuses :
      (id : ℤ) (ids failed_ids : List ℤ) (s : S) → Refuses (mark_both db (id ∷ ids) failed_ids s).0
  unfolding mark_both
  mark_both-Refuses id ids failed_ids s =
      bind_result-Refuses (batch_mark_success db (id ∷ ids) s)
        (λ _ s'. batch_mark_failed db (id ∷ ids) failed_ids s')
        (batch_mark_success-Refuses (id ∷ ids) s)

  batch_update-Refuses :
      (e : Entity) (es failed_rows : List Entity) (s : S)
      → Refuses (batch_update db (e ∷ es) failed_rows s).0
        × (view.rows (batch_update db (e ∷ es) failed_rows s).1 ≡ view.rows s)
  unfolding batch_update
  batch_update-Refuses e es failed_rows s =
      let body = mark_both db (ids_of (e ∷ es)) (ids_of failed_rows) in
      let refused = mark_both-Refuses e.id (ids_of es) (ids_of failed_rows) s in
      (transaction-Refuses body s refused, transaction-rows body s refused)

  -- If the database refuses a condition on a column that a table lacks, and a rollback gives back the
  -- rows as they were, then the repository never stores the statuses of a batch in which a send
  -- succeeded, but returns an error with all rows as before, and it never finds a notification that is
  -- ready: the statement for the callback logs of a batch is on the table of notifications, and the
  -- time of a notification is in a column of another name.
  pub batch_update_status-refused :
      (json : Json) (cache : Store S) (n : Notification) (ns failed_ones : List Notification)
      (offset limit : ℤ) (s : S)
      → ((batch_update_status json (with_quota db cache) (n ∷ ns) failed_ones s).0 ≢ ok tt)
        × (view.rows (batch_update_status json (with_quota db cache) (n ∷ ns) failed_ones s).1
            ≡ view.rows s)
        × Refuses (find_ready_notifications db offset limit s).0
  unfolding batch_update_status find_ready_notifications
  batch_update_status-refused json cache n ns failed_ones offset limit s =
      let updated =
        batch_update db (map (to_entity json) (n ∷ ns)) (map (to_entity json) failed_ones) s in
      let given_back : Result (Unit {0}) × S =
        (ok tt, (cache.muti_incr (get_items failed_ones) updated.1).1) in
      let (refused, same) =
        batch_update-Refuses (to_entity json n) (map (to_entity json) ns)
          (map (to_entity json) failed_ones) s in
      (
        not_ok (elim-Refuses updated.0 (λ e. updated.1) given_back refused),
        elim_state (λ s'. view.rows s' ≡ view.rows s) updated.0 (λ e. updated.1) given_back refused
            (λ e. same),
        bind_result-Refuses _ _ (select_page-refused _ offset limit (db.now_milli s).1 refl),
      )
