-- ===== src/Sending/Tests.antt =====
-- The send service over a backend of fixed answers that counts its calls, and the theorems about it.
use go_notification.Prelude.{◌≡◌, [], ◌∷◌, map, none, some, pos, ℕ, suc}
use go_notification.Errs.{ok, err, Sentinel}
use go_notification.Domain.Notification.{Notification, default_config}
use go_notification.Domain.Tests.{greeting}
use go_notification.Domain.Tx.{BusinessConfig}
use go_notification.Api.Server
use go_notification.Sending.Strategy.{
  Backend, immediate_strategy, default_strategy, dispatcher, response_of,
}
use go_notification.Sending.Service.{Source, batch_send_notifications_async}
use go_notification.Sending.Dispatch.{batch_send_notifications_async-dispatcher}

-- greeting with the immediate strategy, and the empty notification
abbrev pub at_once : Notification
at_once = record greeting { send_strategy_config = default_config }

abbrev empty_notification : Notification
empty_notification = record at_once { id = pos 0; biz_id = pos 0; key = ""; receivers = [] }

abbrev pub no_config : BusinessConfig
no_config = record {
  id = pos 7;
  owner_id = pos 9;
  owner_type = "person";
  channel_config = none;
  txn_config = none;
  rate_limit = pos 0;
  quota = none;
  callback_config = none;
  ctime = pos 0;
  utime = pos 0;
}

-- every notification is a duplicate
abbrev pub backend : Backend ℕ
backend = record {
  now = λ s. (pos 0, s);
  create = λ n s. ((empty_notification, some (Sentinel.notification_duplicate ∷ [])), suc s);
  create_with_callback_log = λ n s. (ok n, suc s);
  batch_create = λ ns s. (ok ns, suc s);
  batch_create_with_callback_log = λ ns s. (ok ns, suc s);
  get_by_key = λ biz_id key s. (err (Sentinel.notification_not_found ∷ []), suc s);
  cas_status = λ n s. (ok tt, suc s);
  send = λ n s. (err (Sentinel.no_quota ∷ []), suc s);
  batch_send = λ ns s. (ok (map response_of ns), suc s);
  get_config = λ biz_id s. (ok no_config, s);
}

abbrev source : Source ℕ
source = record { now = λ s. (pos 0, s); generate_id = λ biz_id key s. (pos s, suc s) }

batch_send_notifications_async-dispatcher_example :
    batch_send_notifications_async source
      (dispatcher (immediate_strategy backend) (default_strategy backend))
      (at_once ∷ greeting ∷ [])
      0
    ≡ batch_send_notifications_async source (default_strategy backend) (at_once ∷ greeting ∷ []) 0
batch_send_notifications_async-dispatcher_example =
    batch_send_notifications_async-dispatcher source (immediate_strategy backend)
      (default_strategy backend) (at_once ∷ greeting ∷ []) 0
