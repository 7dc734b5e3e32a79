-- ===== src/Transactions/Check.antt =====
-- internal/service/notification/check_back_task.go: the check of one transaction.
use Prim.Native.String.{String}
use go_notification.Prelude.{
  List, [], ◌∷◌, Option, none, some, ℤ, pos, ◌+ℤ◌, eqb_ℤ, wrap64, Instant, Duration, if◌then◌else◌,
}
use go_notification.Errs.{Result, ok, err}
use go_notification.Effect.{Effect}
use go_notification.Domain.Notification.{SendStatus}
use go_notification.Domain.Tx.{
  TxNotification, TxnConfig, BusinessConfig, set_next_check_back_time_and_status, fail, cancel,
  commit,
}

-- The clock, the configurations, the table of transactions, and the business's check service, whose
-- panics are recovered as errors and whose status is any integer.
pub record TaskServices {ℓ} (S : Type ℓ) : Type ℓ where
  pub now : S → Instant × S
  pub find_check_back : ℤ → ℤ → Effect S (List TxNotification)
  pub get_by_ids : List ℤ → Effect S (List (ℤ × BusinessConfig))
  pub check : String → String → Effect S ℤ
  pub update_check_status : List TxNotification → SendStatus → Effect S (Unit {0})

-- a lookup in a Go map, as an association list
unfoldable pub config_of : List (ℤ × BusinessConfig) → ℤ → Option BusinessConfig
config_of [] biz_id = none
config_of ((id, config) ∷ configs) biz_id =
    let later = config_of configs biz_id in if eqb_ℤ id biz_id then some config else later

-- `configMap[BizID].TxnConfig`, if both are there
unfoldable pub txn_config_of : List (ℤ × BusinessConfig) → ℤ → Option TxnConfig
unfolding config_of
txn_config_of configs biz_id = elim (config_of configs biz_id) [
  | none ↦ none
  | some config ↦ config.txn_config
]

abbrev pub abandoned : TxNotification → TxNotification
abandoned t = record t { next_check_time = pos 0; status = fail }

abbrev pub counted : TxNotification → TxNotification
counted t = record t { check_count = wrap64 (t.check_count +ℤ pos 1) }

-- the `switch` on a status that the business gave
unfoldable pub answered : ℤ → TxNotification → TxNotification
answered res t =
    if eqb_ℤ res (pos 2)
    then record t { next_check_time = pos 0; status = cancel }
    else if eqb_ℤ res (pos 1)
    then record t { next_check_time = pos 0; status = commit }
    else t

module _ {ℓ} {S : Type ℓ} (overflow : ℤ → Duration) (services : TaskServices S) where
  -- `none` is the panic on a retry policy without the part for its type
  unfoldable pub check_again : TxnConfig → TxNotification → S → Option TxNotification × S
  check_again config t s =
      let (now, s') = services.now s in
      (set_next_check_back_time_and_status overflow now t (some config), s')

  unfoldable pub after_check : TxnConfig → TxNotification → Result ℤ → S → Option TxNotification × S
  unfolding check_again answered
  after_check config t (err _) s = check_again config t s
  after_check config t (ok res) s =
      if eqb_ℤ res (pos 0) then check_again config t s else (some (answered res t), s)

  unfoldable pub one_back_check :
      List (ℤ × BusinessConfig) → TxNotification → S → Option TxNotification × S
  unfolding txn_config_of after_check
  one_back_check configs t s = elim (txn_config_of configs t.biz_id) [
    | none ↦ (some (abandoned t), s)
    | some config ↦
        let (res, s') = services.check config.service_name t.key s in
        after_check config (counted t) res s'
  ]
