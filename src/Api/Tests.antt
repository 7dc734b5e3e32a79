-- ===== src/Api/Tests.antt =====
-- Requests to the gRPC server over services that return fixed values, and the theorems about them.
use go_notification.Prelude.{[], ◌∷◌, Option, none, some, pos, ℕ, suc}
use go_notification.Errs.{ok, err, Sentinel}
use go_notification.Domain.Notification.{ApiNotification, email_channel, sending, succeeded}
use go_notification.Domain.Tests.{greeting, greeting_template}
use go_notification.Api.Convert.{Context, int64_value}
use go_notification.Api.Server.{Services, send_notification}
use go_notification.Api.Batch.{send_notification_batch}
use go_notification.Api.Totals.{Counted, send_notification_batch-Counted}

-- the state counts the calls; single sends fail, batches send two notifications
abbrev pub stub : Services ℕ
stub = record {
  send_notification = λ n s. (err (Sentinel.no_quota ∷ []), suc s);
  send_notification_async = λ n s. (err (Sentinel.database_error ∷ []), suc s);
  batch_send_notifications = λ ns s. (
    ok (
        record { notification_id = pos 1; status = sending }
        ∷ record { notification_id = pos 2; status = succeeded }
        ∷ []),
    suc s,
  );
  batch_send_notifications_async = λ ns s. (ok (pos 1 ∷ pos 2 ∷ []), suc s);
  prepare_tx = λ n s. (ok (pos 1), suc s);
  commit_tx = λ biz_id key s. (ok tt, suc s);
  cancel_tx = λ biz_id key s. (ok tt, suc s);
  get_by_keys = λ biz_id keys s. (ok (greeting ∷ []), suc s);
  get_template_by_id = λ id s. (ok greeting_template, suc s);
}

abbrev pub request : Option ApiNotification
request = some (record {
  key = "k1";
  receivers = "someone" ∷ [];
  channel = email_channel;
  template_id = some (pos 3);
  template_params = ("name", "someone") ∷ [];
  send_strategy = none;
})

abbrev pub of_business : Context
of_business = some (int64_value (pos 7))

send_notification_batch-Counted_example :
    Counted 2 (send_notification_batch stub of_business (request ∷ request ∷ []) 0).0
send_notification_batch-Counted_example =
    send_notification_batch-Counted stub of_business (request ∷ request ∷ []) 0
