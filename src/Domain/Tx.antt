-- ===== src/Domain/Tx.antt =====
-- internal/domain/tx_notification.go and internal/domain/config.go: a transactional notification
-- and the configurations that its checks read.
use Prim.Native.String.{String}
use go_notification.Prelude.{
  ℕ, ◌/◌, ◌-◌, Bool, false, List, Option, none, some, ℤ, pos, ◌+ℤ◌, ◌-ℤ◌, quot_ℕ, wrap32, Instant,
  Duration, if◌then◌else◌,
}
use go_notification.Errs.{ok, err}
use go_notification.Retry.{Config, new_retry, next_with_retries}
use go_notification.Domain.Notification.{Notification, unix}

pub data TxNotificationStatus : Type 0 where
  prepare commit cancel fail : TxNotificationStatus
  other_tx_status : String → TxNotificationStatus

pub record TxNotification : Type 0 where
  pub tx_id : ℤ
  pub notification : Notification
  pub biz_id : ℤ
  pub key : String
  pub status : TxNotificationStatus
  pub check_count : ℤ
  pub next_check_time : ℤ
  pub ctime : ℤ
  pub utime : ℤ

pub record TxnConfig : Type 0 where
  pub service_name : String
  pub initial_delay : ℤ
  pub retry_policy : Option Config

pub record CallbackConfig : Type 0 where
  pub service_name : String
  pub retry_policy : Option Config

pub record ChannelItem : Type 0 where
  pub channel : String
  pub priority : ℤ
  pub enabled : Bool

pub record ChannelConfig : Type 0 where
  pub channels : List ChannelItem
  pub retry_policy : Option Config

pub record MonthlyConfig : Type 0 where
  pub sms : ℤ
  pub email : ℤ

pub record QuotaConfig : Type 0 where
  pub monthly : MonthlyConfig

pub record BusinessConfig : Type 0 where
  pub id : ℤ
  pub owner_id : ℤ
  pub owner_type : String
  pub channel_config : Option ChannelConfig
  pub txn_config : Option TxnConfig
  pub rate_limit : ℤ
  pub quota : Option QuotaConfig
  pub callback_config : Option CallbackConfig
  pub ctime : ℤ
  pub utime : ℤ

-- `Time.UnixMilli`: whole seconds and whole milliseconds of the rest are counted apart in Go, which
-- comes to a floor
abbrev floor_div : ℤ → ℕ → ℤ
floor_div (pos n) k = pos (n / k)
floor_div z k = quot_ℕ (z -ℤ pos (k - 1)) k

unfoldable pub unix_milli : Instant → ℤ
unix_milli t = floor_div (t -ℤ unix (pos 0)) 1000000

-- `none` is the panic of `retry.NewRetry` on a policy without the part for its type.
unfoldable pub policy_next : (ℤ → Duration) → Config → ℤ → Option (Duration × Bool)
policy_next overflow policy retries = elim (new_retry policy) [
  | none ↦ none
  | some (err _) ↦ some (pos 0, false)
  | some (ok s) ↦ some (next_with_retries overflow s retries)
]

unfoldable pub next_check_back_time :
    (ℤ → Duration) → TxNotification → Option TxnConfig → Option (Duration × Bool)
unfolding policy_next
next_check_back_time overflow t none = some (pos 0, false)
next_check_back_time overflow t (some cfg) = elim cfg.retry_policy [
  | none ↦ some (pos 0, false)
  | some policy ↦ policy_next overflow policy (wrap32 t.check_count)
]

-- the rest of `SetNextCheckBackTimeAndStatus`, once the next time is known
unfoldable pub set_check_time : Instant → TxNotification → Duration × Bool → TxNotification
unfolding unix_milli
set_check_time now t (next_time, again) =
    if again
    then record t { next_check_time = unix_milli (now +ℤ next_time) }
    else record t { next_check_time = pos 0; status = fail }

unfoldable pub set_next_check_back_time_and_status :
    (ℤ → Duration) → Instant → TxNotification → Option TxnConfig → Option TxNotification
unfolding next_check_back_time set_check_time
set_next_check_back_time_and_status overflow now t cfg =
    elim (next_check_back_time overflow t cfg) [
      | none ↦ none
      | some next ↦ some (set_check_time now t next)
    ]
