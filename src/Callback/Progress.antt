-- ===== src/Callback/Progress.antt =====
-- What a callback does to its log.
use go_notification.Prelude.{
  ◌≡◌, refl, subst, ◌⊎◌, inl, inr, Bool, true, false, Option, none, some, ℤ, pos, ◌+ℤ◌, wrap32,
  Instant, Duration, Option-cases,
}
use mathlib.Core.Option
use go_notification.Errs.{Result, ok, err, Result-cases}
use go_notification.Retry.{next_with_retries}
use go_notification.Callback.Service.{
  CallbackServices, CallbackLog, succeeded, failed, State, get_config, send_callback, strategy_of,
  retried, retry, send_callback_and_set_changed_fields,
}

-- succeeded, to be retried once more, or given up
abbrev pub Progressed : CallbackLog → CallbackLog → Type 0
Progressed log log' =
    ((log'.status ≡ succeeded) × (log'.retry_count ≡ log.retry_count))
    ⊎ ((log'.status ≡ log.status) × (log'.retry_count ≡ wrap32 (log.retry_count +ℤ pos 1)))
    ⊎ ((log'.status ≡ failed) × (log'.retry_count ≡ log.retry_count))

abbrev Made : CallbackLog → Option (Result CallbackLog) → Type 0
Made log none = Unit
Made log (some (err _)) = Unit
Made log (some (ok log')) = (log'.id ≡ log.id) × Progressed log log'

retried-Made :
    (now : Instant) (next : Duration × Bool) (log : CallbackLog)
    → Made log (some (ok (retried now next log)))
unfolding retried
retried-Made now (interval, true) log = (refl, inr (inl (refl, refl)))
retried-Made now (interval, false) log = (refl, inr (inr (refl, refl)))

module _ {ℓ} {S : Type ℓ} (services : CallbackServices S) where
  retry-Made :
      (overflow : ℤ → Duration) (log : CallbackLog) (st : State S)
      → Made log (Option.map ok (retry services overflow log st).0)
  unfolding retry
  retry-Made overflow log st =
      elim (Option-cases (strategy_of (get_config services log.notification.biz_id st).0)) [
        | inl panic ↦ rw (panic, retry) tt
        | inr (strategy, h) ↦
            rw (h, retry) (retried-Made _ (next_with_retries overflow strategy log.retry_count) log)
      ]

  changed-Made :
      (overflow : ℤ → Duration) (log : CallbackLog) (st : State S)
      → Made log (send_callback_and_set_changed_fields services overflow log st).0
  unfolding send_callback_and_set_changed_fields
  changed-Made overflow log st =
      elim (Result-cases (send_callback services log.notification st).0) [
        | inr (e, refused) ↦ rw (refused, send_callback_and_set_changed_fields) tt
        | inl (true, h) ↦ rw (h, send_callback_and_set_changed_fields) (refl, inl (refl, refl))
        | inl (false, h) ↦ rw (h, send_callback_and_set_changed_fields) (retry-Made overflow log _)
      ]

  -- A log that a callback changes keeps its number and either succeeds, or is to be retried with its
  -- count one higher and its status as before, or fails with its count as before.
  pub send_callback_and_set_changed_fields-Progressed :
      (overflow : ℤ → Duration) (log log' : CallbackLog) (st : State S)
      → (send_callback_and_set_changed_fields services overflow log st).0 ≡ some (ok log')
      → (log'.id ≡ log.id) × Progressed log log'
  send_callback_and_set_changed_fields-Progressed overflow log log' st h =
      subst (Made log) h (changed-Made overflow log st)
