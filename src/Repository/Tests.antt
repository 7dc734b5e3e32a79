-- ===== src/Repository/Tests.antt =====
-- The repository over a store that counts its calls, and the theorems about it.
use go_notification.Prelude.{
  ℕ, suc, ◌≡◌, ◌≢◌, refl, Bool, true, false, [], ◌∷◌, none, some, pos, if◌then◌else◌,
}
use go_notification.Errs.{Err, ok, err, Sentinel, failure, Refuses}
use go_notification.Domain.Tests.{greeting}
use go_notification.Repository.Entities.{Json, to_entity}
use go_notification.Repository.Notifications.{
  Store, batch_update_status, batch_create, muti_decr, create, create_by, created_or_refunded,
}
use go_notification.Effect.{◌>>=◌}
use go_notification.Sending.Strategy.{immediate_send, send_again}
use go_notification.Sending.Tests.{backend}
use go_notification.Repository.Dao.{
  NotificationDatabase, notifications, empty_entity, with_quota, find_ready_notifications,
}
use go_notification.Repository.Dao.{cas_status}
use go_notification.Repository.Unmarked.{
  any_unknown, columns_of, RefusesUnknown, Restores, batch_update_status-refused,
}
use go_notification.Repository.Refunds.{immediate_send-create}

-- reads back what `greeting` has
abbrev pub plain_json : Json
plain_json = record {
  marshal_params = λ params. "params";
  unmarshal_params = λ text. ("name", "someone") ∷ [];
  marshal_receivers = λ receivers. "receivers";
  unmarshal_receivers = λ text. "someone" ∷ [];
}

abbrev duplicate : Err
duplicate = Sentinel.notification_duplicate ∷ []

-- the quota taken so far; every insertion is a duplicate
abbrev pub counting_store : Store ℕ
counting_store = record {
  decr = λ biz_id channel quota s. (ok tt, suc s);
  incr = λ biz_id channel quota s. (ok tt, s);
  muti_decr = λ items s. (ok tt, suc s);
  muti_incr = λ items s. (ok tt, s);
  create = λ row s. (err duplicate, s);
  create_with_callback_log = λ row s. (err duplicate, s);
  batch_create = λ rows s. ((rows, some duplicate), s);
  batch_create_with_callback_log = λ rows s. ((rows, some duplicate), s);
  get_by_key = λ biz_id key s. ((to_entity plain_json greeting, none), s);
  get_by_keys = λ biz_id keys s. (ok [], s);
  cas_status = λ row s. (ok tt, s);
  batch_update = λ succeeded failed s. (ok tt, s);
  mark_success = λ row s. (ok tt, s);
  mark_failed = λ row s. (ok tt, s);
}

-- a database that has every row that it is asked for, and refuses unknown columns
abbrev strict_database : NotificationDatabase ℕ
strict_database = record {
  now_milli = λ s. (pos 5, s);
  select_rows = λ conditions s. (ok [], s);
  select_page = λ conditions offset limit s.
      ((if any_unknown (columns_of notifications) conditions then err (failure 2) else ok []), s);
  select_ids = λ conditions limit s. (ok [], s);
  first = λ conditions s. (ok none, s);
  insert_rows = λ rows s. (ok tt, suc s);
  insert_logs = λ logs s. (ok tt, s);
  update = λ table conditions columns s.
      ((if any_unknown (columns_of table) conditions then err (failure 2) else ok (pos 1)), suc s);
  is_unique_constraint_error = λ e. false;
  rollback = λ s s'. s;
}

Refuses-by_test {ℓ} :
    {A : Type ℓ} (a : A) (test : Bool)
    → test ≡ true
    → Refuses (if test then err (failure 2) else ok a)
Refuses-by_test a true h = tt
Refuses-by_test a false h = cc

strict_database-RefusesUnknown : RefusesUnknown strict_database
strict_database-RefusesUnknown = record {
  update-refused = λ table conditions columns s h.
      Refuses-by_test (pos 1) (any_unknown (columns_of table) conditions) h;
  select_page-refused = λ conditions offset limit s h.
      Refuses-by_test [] (any_unknown (columns_of notifications) conditions) h;
}

-- the state counts the statements that write rows
abbrev strict_database_rows : Restores ℕ strict_database
strict_database_rows = record { rows = λ s. s; rollback-rows = λ s s'. refl }

-- a row that is known by its version is changed
cas_status_met : (cas_status strict_database empty_entity 0).0 ≡ ok tt
unfolding cas_status
cas_status_met = refl

batch_update_status-refused_example :
    ((batch_update_status plain_json
        (with_quota strict_database counting_store)
        (greeting ∷ [])
        []
        0).0
      ≢ ok tt)
    × ((batch_update_status plain_json
          (with_quota strict_database counting_store)
          (greeting ∷ [])
          []
          0).1
        ≡ 0)
    × Refuses (find_ready_notifications strict_database (pos 0) (pos 10) 0).0
batch_update_status-refused_example =
    batch_update_status-refused strict_database strict_database-RefusesUnknown strict_database_rows
      plain_json counting_store greeting [] [] (pos 0) (pos 10) 0

-- a database in which every row is a duplicate
abbrev full_database : NotificationDatabase ℕ
full_database = record strict_database {
  insert_rows = λ rows s. (err (failure 1), s);
  is_unique_constraint_error = λ e. true;
}

immediate_send-create_example :
    let over = record backend { create = create plain_json counting_store } in
    immediate_send over greeting 0 ≡ (backend.get_by_key (pos 0) "" >>= send_again over) 1
unfolding create create_by created_or_refunded
immediate_send-create_example =
    immediate_send-create plain_json counting_store backend greeting duplicate 0 refl refl
