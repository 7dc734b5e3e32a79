-- ===== src/Sending/Service.antt =====
-- internal/service/notification/send_notification.go: the four operations of the send service.
use Prim.Native.String.{String}
use go_notification.Prelude.{List, [], ◌∷◌, ℤ, Instant}
use go_notification.Errs.{Err, ok, Sentinel}
use go_notification.Effect.{Effect, pure, fail, wrap, ◌>>=◌, ◌>>◌}
use go_notification.Domain.Strategy.{invalid}
use go_notification.Domain.Notification
use go_notification.Domain.Notification.{Notification, replace_async_immediate}
use go_notification.Api.Convert.{SendResponse}
use go_notification.Sending.Strategy.{SendStrategy}

-- the clock and the ID generator
pub record Source {ℓ} (S : Type ℓ) : Type ℓ where
  pub now : S → Instant × S
  pub generate_id : ℤ → String → S → ℤ × S

abbrev pub sending_failed : Err → Err
sending_failed e = Sentinel.send_notification_failed ∷ e

module _ {ℓ} {S : Type ℓ} (source : Source S) where
  unfoldable pub validated : Notification → Effect S (Unit {0})
  validated n s = let (now, s') = source.now s in (Notification.validate now n, s')

  unfoldable pub identified : Notification → Effect S Notification
  identified n s =
      let (id, s') = source.generate_id n.biz_id n.key s in (ok (record n { id = id }), s')

  unfoldable pub replaced : Notification → Effect S Notification
  replaced n s = let (now, s') = source.now s in (ok (replace_async_immediate now n), s')

  -- the loop of BatchSendNotifications
  unfoldable pub prepare_all : List Notification → Effect S (List Notification)
  unfolding validated identified
  prepare_all [] = pure []
  prepare_all (n ∷ ns) =
      validated n >> (identified n >>= λ m. prepare_all ns >>= λ rest. pure (m ∷ rest))

  -- the loop of BatchSendNotificationsAsync: the notifications, and their IDs
  unfoldable pub prepare_all_async : List Notification → Effect S (List Notification × List ℤ)
  unfolding validated identified replaced
  prepare_all_async [] = pure ([], [])
  prepare_all_async (n ∷ ns) =
      validated n
      >> (identified n >>= λ m.
          replaced m >>= λ r. prepare_all_async ns >>= λ (rest, ids). pure (r ∷ rest, m.id ∷ ids))

module _ {ℓ} {S : Type ℓ} (source : Source S) (strategy : SendStrategy S) where
  unfoldable pub send_notification : Notification → Effect S SendResponse
  unfolding validated identified
  send_notification n =
      validated source n >> (identified source n >>= λ m. wrap sending_failed (strategy.send m))

  unfoldable pub send_notification_async : Notification → Effect S SendResponse
  unfolding validated identified replaced
  send_notification_async n =
      validated source n >> (identified source n >>= λ m. replaced source m >>= strategy.send)

  unfoldable pub batch_send_notifications : List Notification → Effect S (List SendResponse)
  unfolding prepare_all
  batch_send_notifications [] = fail invalid
  batch_send_notifications (n ∷ ns) =
      prepare_all source (n ∷ ns) >>= λ ready. wrap sending_failed (strategy.batch_send ready)

  unfoldable pub batch_send_notifications_async : List Notification → Effect S (List ℤ)
  unfolding prepare_all_async
  batch_send_notifications_async [] = fail invalid
  batch_send_notifications_async (n ∷ ns) = prepare_all_async source (n ∷ ns) >>= λ (ready, ids).
      (wrap sending_failed (strategy.batch_send ready) >>= λ _. pure ids)
