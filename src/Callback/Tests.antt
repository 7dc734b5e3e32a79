-- ===== src/Callback/Tests.antt =====
-- A callback that the business answers without success, and the theorem about it.
use go_notification.Prelude.{
  List, ℕ, suc, ◌≡◌, refl, false, [], ◌∷◌, none, some, ℤ, pos, ◌+ℤ◌, wrap32, Duration,
}
use go_notification.Errs.{ok}
use go_notification.Retry.{
  new_retry, next_with_retries, fixed_next_with_retries, new_fixed_interval, allowed, Config,
}
use go_notification.Domain.Tx.{CallbackConfig, unix_milli}
use go_notification.Domain.Tests.{greeting}
use go_notification.Sending.Tests.{no_config}
use go_notification.Callback.Service.{
  CallbackServices, CallbackLog, pending, get_config, load, send_callback, strategy_of, retried,
  retry, send_callback_and_set_changed_fields,
}
use go_notification.Callback.Logs.{LogRow, LogDatabase, NotificationLookup, to_log_entity}
use go_notification.Callback.Endless.{LogTable}
use go_notification.Callback.Progress.{Progressed, send_callback_and_set_changed_fields-Progressed}

abbrev policy : Config
policy = record {
  type_name = "fixed";
  fixed_interval = some (record { max_retries = pos 3; interval = pos 1000000 });
  exponential_backoff = none;
}

abbrev callback_config : CallbackConfig
callback_config = record { service_name = "orders"; retry_policy = some policy }

abbrev services : CallbackServices ℕ
services = record {
  now = λ s. (pos 0, s);
  get_by_id = λ biz_id s. (ok (record no_config { callback_config = some callback_config }), suc s);
  handle = λ service request s. (ok false, suc s);
  find = λ start size next s. (ok ([], pos 0), suc s);
  find_by_notification_ids = λ ids s. (ok [], suc s);
  update = λ logs s. (ok tt, suc s);
}

abbrev log_before : CallbackLog
log_before = record {
  id = pos 1;
  notification = greeting;
  retry_count = pos 1;
  next_retry_time = pos 0;
  status = pending;
}

abbrev log_after : CallbackLog
log_after = record log_before { retry_count = pos 2; next_retry_time = unix_milli (pos 1000000) }

abbrev never : ℤ → Duration
never n = pos 0

send_callback_and_set_changed_fields-Progressed_example :
    (pos 1 ≡ pos 1) × Progressed log_before log_after
unfolding send_callback_and_set_changed_fields send_callback get_config load retry strategy_of
    retried new_retry new_fixed_interval next_with_retries fixed_next_with_retries allowed wrap32
    ◌+ℤ◌
send_callback_and_set_changed_fields-Progressed_example =
    send_callback_and_set_changed_fields-Progressed services never log_before log_after ([], 0) refl

-- a table with one log that is due, and a business without a configuration for callbacks
abbrev due_row : LogRow
due_row = to_log_entity log_before

abbrev one_due : LogDatabase ℕ
one_due = record {
  now_milli = λ s. (pos 0, s);
  select_due = λ start_time wanted start_id limit s. (ok (due_row ∷ []), s);
  select_by_notifications = λ ids s. (ok (due_row ∷ []), s);
  update_row = λ utime row s. (ok tt, s);
  rollback = λ s s'. s;
}

abbrev lookup : NotificationLookup ℕ
lookup = record { get_by_id = λ id s. ((greeting, none), s); batch_get_by_id = λ ids s. (ok [], s) }

abbrev unconfigured : CallbackServices ℕ
unconfigured = record services {
  get_by_id = λ id s. (ok (record no_config { callback_config = none }), suc s);
}

-- a table that never changes in this state, which counts the lookups of configurations
abbrev one_due_table : LogTable (List LogRow) one_due lookup unconfigured
one_due_table = record {
  table = λ s. due_row ∷ [];
  due = λ start_time batch_size rows. rows;
  select_due-due = λ start_time batch_size s. refl;
  select_due-table = λ start_time batch_size s. refl;
  notification-table = λ id s. refl;
  config-table = λ id s. refl;
}
