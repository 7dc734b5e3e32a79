-- ===== src/Transactions/Service.antt =====
-- internal/service/notification/tx_notification.go: preparing, committing and cancelling.
use Prim.Native.String.{String}
use go_notification.Prelude.{
  ◌≡◌, refl, ap, fun_ext, Option, none, some, ℤ, pos, ◌+ℤ◌, ◌*ℤ◌, wrap64, Instant, if◌then◌else◌,
}
use go_notification.Errs.{Err, Result, ok, err}
use go_notification.Effect.{Effect, bind_result}
use go_notification.Domain.Notification
use go_notification.Domain.Notification.{
  Notification, SendStatus, sending, canceled, is_immediate, set_send_time,
}
use go_notification.Domain.Tx
use go_notification.Domain.Tx.{TxNotification, TxNotificationStatus, BusinessConfig, unix_milli}
use go_notification.Api.Convert.{SendResponse}
use go_notification.Repository.Entities.{Json, Entity, to_domain}
use go_notification.Repository.Notifications.{Store, get_by_key}

-- the repository of transactions, the configurations and the clock
pub record TxServices {ℓ} (S : Type ℓ) : Type ℓ where
  pub now : S → Instant × S
  pub create : TxNotification → Effect S ℤ
  pub update_status : ℤ → String → TxNotificationStatus → SendStatus → Effect S (Unit {0})
  pub get_config : ℤ → Effect S BusinessConfig

module _ {ℓ} {S : Type ℓ} (services : TxServices S) where
  -- the first check, `InitialDelay` seconds from now; without a configuration there is none
  unfoldable pub first_check : Result BusinessConfig → S → ℤ × S
  first_check (err _) s = (pos 0, s)
  first_check (ok config) s =
      let (now, s') = services.now s in
      (
        elim config.txn_config [
          | none ↦ pos 0
          | some txn ↦ wrap64 (unix_milli now +ℤ wrap64 (txn.initial_delay *ℤ pos 1000))
        ],
        s',
      )

  unfoldable pub prepare : Notification → Effect S ℤ
  unfolding first_check
  prepare n s =
      let (now, s1) = services.now s in
      let n' = set_send_time now (record n { status = Notification.prepare }) in
      let (config, s2) = services.get_config n.biz_id s1 in
      let (next_check_time, s3) = first_check config s2 in
      services.create
        (record {
          tx_id = pos 0;
          notification = n';
          biz_id = n.biz_id;
          key = n.key;
          status = Tx.prepare;
          check_count = pos 0;
          next_check_time = next_check_time;
          ctime = pos 0;
          utime = pos 0;
        })
        s3

  unfoldable pub cancel : ℤ → String → Effect S (Unit {0})
  cancel biz_id key = services.update_status biz_id key Tx.cancel canceled

  module _ (json : Json) (store : Store S) (send : Notification → Effect S SendResponse) where
    -- the part of Commit after the notification was looked up
    unfoldable pub send_if_immediate : Notification × Option Err → Effect S (Unit {0})
    send_if_immediate (n, some e) s = (err e, s)
    send_if_immediate (n, none) s =
        if is_immediate n
        then (let (sent, s') = send n s in (elim sent [ err e ↦ err e | ok _ ↦ ok tt ], s'))
        else (ok tt, s)

    unfoldable pub commit : ℤ → String → Effect S (Unit {0})
    unfolding send_if_immediate get_by_key
    commit biz_id key s =
        bind_result (services.update_status biz_id key Tx.commit sending s) (λ _ s1.
          (let (found, s2) = get_by_key json store biz_id key s1 in send_if_immediate found s2))

send_if_immediate-to_domain {ℓ} :
    {S : Type ℓ} (services : TxServices S) (json : Json) (store : Store S)
    (send send' : Notification → Effect S SendResponse) (row : Entity) (e : Option Err) (s : S)
    → send_if_immediate services json store send (to_domain json row, e) s
      ≡ send_if_immediate services json store send' (to_domain json row, e) s
unfolding send_if_immediate to_domain
send_if_immediate-to_domain services json store send send' row none s = refl
send_if_immediate-to_domain services json store send send' row (some e) s = refl

-- Committing never sends: the sender makes no difference, for a notification that is read back has
-- no strategy.
pub commit_sender {ℓ} :
    {S : Type ℓ} (services : TxServices S) (json : Json) (store : Store S)
    (send send' : Notification → Effect S SendResponse) (biz_id : ℤ) (key : String) (s : S)
    → commit services json store send biz_id key s ≡ commit services json store send' biz_id key s
unfolding commit get_by_key
commit_sender services json store send send' biz_id key s =
    ap (bind_result (services.update_status biz_id key Tx.commit sending s)) (
      fun_ext λ u. fun_ext λ s1.
        (send_if_immediate-to_domain services json store send send'
          (store.get_by_key biz_id key s1).0.0 (store.get_by_key biz_id key s1).0.1
          (store.get_by_key biz_id key s1).1))
