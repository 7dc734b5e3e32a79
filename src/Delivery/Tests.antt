-- ===== src/Delivery/Tests.antt =====
-- A channel that answers and one that is broken, and the theorems about batches sent over them.
use go_notification.Prelude.{ℕ, suc, ◌≡◌, refl, List, [], ◌∷◌, pos}
use go_notification.Errs.{ok, err, failure}
use go_notification.Domain.Notification.{Notification}
use go_notification.Domain.Tests.{greeting}
use go_notification.Delivery.Sender.{SenderServices, batch_send}
use go_notification.Delivery.Batches.{over, batch_send-over}

-- the state counts the updates of statuses
abbrev broken_channel : SenderServices ℕ
broken_channel = record {
  channel_send = λ n s. (err (failure 1), s);
  submit = λ n s. (ok tt, s);
  mark_failed = λ n s. (ok tt, s);
  mark_success = λ n s. (ok tt, s);
  batch_get_by_id = λ ids s. (ok ((pos 0, greeting) ∷ []), s);
  batch_update = λ good bad s. (ok tt, suc s);
  callback_by_notification = λ n s. (ok tt, s);
  callback_by_notifications = λ ns s. (ok tt, s);
}

abbrev in_order : List Notification → List Notification
in_order ns = ns

batch_send-over_example :
    batch_send
      (over broken_channel (λ good bad s. (err (failure 2), s)))
      in_order
      (greeting ∷ greeting ∷ [])
      0
    ≡ batch_send broken_channel in_order (greeting ∷ greeting ∷ []) 0
batch_send-over_example =
    batch_send-over broken_channel (λ good bad s. (err (failure 2), s)) in_order
      (greeting ∷ greeting ∷ []) 0 (λ n s. (failure 1, refl))
