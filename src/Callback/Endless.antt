-- ===== src/Callback/Endless.antt =====
-- When the loop of SendCallback does not end: the service over the repository of the logs.
use go_notification.Prelude.{◌≡◌, List, ◌∷◌, none, ℤ, pos}
use go_notification.Errs.{ok}
use go_notification.Domain.Notification.{Notification}
use go_notification.Domain.Tx.{BusinessConfig}
use go_notification.Callback.Service.{CallbackServices, pending}
use go_notification.Callback.Logs.{LogRow, LogDatabase, NotificationLookup, over_logs}

-- A view of the table of the logs: the query for the first page of logs that are due succeeds and
-- reads the table, and neither it nor the two lookups change the table.
pub record LogTable {ℓ κ} {S : Type ℓ} (T : Type κ) (db : LogDatabase S)
    (repo : NotificationLookup S) (services : CallbackServices S) : Type (ℓ ⊔ κ) where
  pub table : S → T
  pub due : ℤ → ℤ → T → List LogRow
  pub select_due-due :
      (start_time batch_size : ℤ) (s : S)
      → (db.select_due start_time pending (pos 0) batch_size s).0
        ≡ ok (due start_time batch_size (table s))
  pub select_due-table :
      (start_time batch_size : ℤ) (s : S)
      → table (db.select_due start_time pending (pos 0) batch_size s).1 ≡ table s
  pub notification-table : (id : ℤ) (s : S) → table (repo.get_by_id id s).1 ≡ table s
  pub config-table : (id : ℤ) (s : S) → table (services.get_by_id id s).1 ≡ table s

module _ {ℓ κ} {S : Type ℓ} {T : Type κ} (db : LogDatabase S) (repo : NotificationLookup S)
    (services : CallbackServices S) (view : LogTable T db repo services)
    (unconfigured : (id : ℤ) (s : S)
      → (c : BusinessConfig) × ((services.get_by_id id s).0 ≡ ok c)
        × (c.callback_config ≡ none)) where
  abbrev logged : CallbackServices S
  logged = over_logs db repo services

  -- a page of logs that are due and do not fill it
  abbrev Due : ℤ → ℤ → LogRow → List LogRow → S → Type 0
  Due start_time batch_size row rows s = view.due start_time batch_size (view.table s) ≡ row ∷ rows
