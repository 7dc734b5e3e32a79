-- ===== src/Transactions/Exhausted.antt =====
-- When the checks of a transaction come to an end.
use Prim.Native.String.{String}
use go_notification.Prelude.{
  ℕ, zero, suc, ◌+◌, ◌<◌, ◌^◌, ◌≡◌, Bool, List, Option, none, some, ℤ, pos, leb, Duration, Instant,
}
use go_notification.Errs.{Result, ok, err}
use go_notification.Retry.{Strategy, Config, new_retry}
use go_notification.Retry.Granted.{max_retries_of}
use go_notification.Domain.Tx.{
  TxNotification, TxnConfig, BusinessConfig, set_check_time, prepare, fail,
}
use go_notification.Transactions.Check.{TaskServices, counted, one_back_check}

-- an answer of the business that settles nothing: an error, or an unknown status
abbrev pub Unsettling : Result ℤ → Type 0
Unsettling (err _) = Unit
Unsettling (ok res) = res ≡ pos 0

-- open, with a number of checks so far
abbrev pub Waiting : ℕ → Option TxNotification → Type 0
Waiting k none = ⊥
Waiting k (some t) = (t.status ≡ prepare) × (t.check_count ≡ pos k)

-- of the same business
abbrev SameBusiness : TxNotification → Option TxNotification → Type 0
SameBusiness t none = ⊥
SameBusiness t (some t') = t'.biz_id ≡ t.biz_id

-- failed at the check of a number, with no check to come
abbrev pub GivenUp : ℕ → Option TxNotification → Type 0
GivenUp k none = ⊥
GivenUp k (some t) = (t.status ≡ fail) × (t.next_check_time ≡ pos 0) × (t.check_count ≡ pos k)

module _ {ℓ} {S : Type ℓ} (overflow : ℤ → Duration) (services : TaskServices S)
    (configs : List (ℤ × BusinessConfig)) where
  -- so many checks, each of the transaction as the one before left it
  unfoldable pub checks : ℕ → TxNotification → S → Option TxNotification × S
  checks zero t s = (some t, s)
  checks (suc k) t s =
      let (o, s') = checks k t s in
      elim o [ none ↦ (none, s') | some t' ↦ one_back_check overflow services configs t' s' ]

  module _ (config : TxnConfig) (policy : Config) (strategy : Strategy) (max : ℕ)
      (has_policy : config.retry_policy ≡ some policy)
      (made : new_retry policy ≡ some (ok strategy)) (positive : 0 < max) (fits : max + 1 < 2 ^ 31)
      (maximum : max_retries_of strategy ≡ pos max)
      (unsettling : (key : String) (s : S)
        → Unsettling (services.check config.service_name key s).0) where
    -- what is left of a transaction by its next check
    Next : ℕ → TxNotification → Option TxNotification → Type 0
    Next k t o =
        (now : Instant) × (next : Duration × Bool) × (o
          ≡ some (set_check_time now (counted t) next))
        × (next.1 ≡ leb (k + 1) max)

    -- one check more, of what the checks so far left
    abbrev checked_next : Option TxNotification → S → Option TxNotification × S
    checked_next o s' = elim o [
      | none ↦ (none, s')
      | some t' ↦ one_back_check overflow services configs t' s'
    ]
