-- ===== src/Transactions/Settled.antt =====
-- What a check leaves of a transaction: it stays open, or it is settled and never checked again.
use go_notification.Prelude.{
  ◌≡◌, refl, subst, ◌⊎◌, inl, inr, Bool, true, false, List, Option, none, some, ℤ, pos, eqb_ℤ,
  Instant, Duration, Bool-cases, Option-cases,
}
use go_notification.Errs.{Result, ok, err}
use go_notification.Domain.Tx.{
  TxNotification, TxNotificationStatus, TxnConfig, BusinessConfig,
  set_next_check_back_time_and_status, set_check_time, next_check_back_time, prepare, fail, cancel,
  commit,
}
use go_notification.Transactions.Check.{
  TaskServices, txn_config_of, counted, answered, check_again, after_check, one_back_check,
}

abbrev pub is_final : TxNotificationStatus → Bool
is_final commit = true
is_final cancel = true
is_final fail = true
is_final _ = false

-- open, or settled with no check to come
abbrev pub Outcome : TxNotification → Type 0
Outcome t = (t.status ≡ prepare) ⊎ ((is_final t.status ≡ true) × (t.next_check_time ≡ pos 0))

-- what of a transaction a check does not change
abbrev pub Same : TxNotification → TxNotification → Type 0
Same t t' = (t'.tx_id ≡ t.tx_id) × (t'.biz_id ≡ t.biz_id) × (t'.key ≡ t.key)

abbrev Checked : TxNotification → Option TxNotification → Type 0
Checked t none = Unit
Checked t (some t') = Outcome t' × Same t t'

answered-Checked :
    (res : ℤ) (t : TxNotification) → t.status ≡ prepare → Checked t (some (answered res t))
unfolding answered
answered-Checked res t opened = elim (Bool-cases (eqb_ℤ res (pos 2))) [
  | inl cancelled ↦ rw cancelled (inr (refl, refl), (refl, refl, refl))
  | inr no_cancel ↦ elim (Bool-cases (eqb_ℤ res (pos 1))) [
    | inl committed ↦ rw (no_cancel, committed) (inr (refl, refl), (refl, refl, refl))
    | inr no_commit ↦ rw (no_cancel, no_commit) (inl opened, (refl, refl, refl))
  ]
]

set_check_time-Checked :
    (now : Instant) (t : TxNotification) (next : Duration × Bool)
    → t.status ≡ prepare
    → Checked t (some (set_check_time now t next))
unfolding set_check_time
set_check_time-Checked now t (delay, true) opened = (inl opened, (refl, refl, refl))
set_check_time-Checked now t (delay, false) opened = (inr (refl, refl), (refl, refl, refl))

module _ {ℓ} {S : Type ℓ} (overflow : ℤ → Duration) (services : TaskServices S) where
  check_again-Checked :
      (config : TxnConfig) (t : TxNotification) (s : S)
      → t.status ≡ prepare
      → Checked t (check_again overflow services config t s).0
  unfolding check_again set_next_check_back_time_and_status
  check_again-Checked config t s opened =
      elim (Option-cases (next_check_back_time overflow t (some config))) [
        | inl panic ↦ rw (panic, set_next_check_back_time_and_status) tt
        | inr (next, h) ↦
            rw (h, set_next_check_back_time_and_status)
              (set_check_time-Checked (services.now s).0 t next opened)
      ]

  after_check-Checked :
      (config : TxnConfig) (t : TxNotification) (res : Result ℤ) (s : S)
      → t.status ≡ prepare
      → Checked t (after_check overflow services config t res s).0
  unfolding after_check
  after_check-Checked config t (err e) s opened = check_again-Checked config t s opened
  after_check-Checked config t (ok res) s opened = elim (Bool-cases (eqb_ℤ res (pos 0))) [
    | inl unknown ↦ rw unknown (check_again-Checked config t s opened)
    | inr known ↦ rw known (answered-Checked res t opened)
  ]

  one_back_check-Checked :
      (configs : List (ℤ × BusinessConfig)) (t : TxNotification) (s : S)
      → t.status ≡ prepare
      → Checked t (one_back_check overflow services configs t s).0
  unfolding one_back_check
  one_back_check-Checked configs t s opened = elim (Option-cases (txn_config_of configs t.biz_id)) [
    | inl no_config ↦ rw (no_config, one_back_check) (inr (refl, refl), (refl, refl, refl))
    | inr (config, h) ↦
        rw (h, one_back_check)
          (after_check-Checked config (counted t) (services.check config.service_name t.key s).0 _
            opened)
  ]

  -- A check of an open transaction leaves it open, or commits, cancels or fails it with no check to
  -- come, whatever the business answers; its number, business and key stay.
  pub one_back_check-Outcome :
      (configs : List (ℤ × BusinessConfig)) (t t' : TxNotification) (s : S)
      → t.status ≡ prepare
      → (one_back_check overflow services configs t s).0 ≡ some t'
      → Outcome t' × Same t t'
  one_back_check-Outcome configs t t' s opened h =
      subst (Checked t) h (one_back_check-Checked configs t s opened)
