-- ===== src/Scheduling/Locks.antt =====
-- internal/pkg/loopjob/resource.go, and the distributed locks that the loop jobs use.
use go_notification.Prelude.{
  [], ◌∷◌, Option, ℤ, pos, ◌+ℤ◌, ◌-ℤ◌, leb_ℤ, wrap64, Duration, if◌then◌else◌,
}
use go_notification.Errs.{Err, Result, ok, err, Sentinel}
use go_notification.Effect.{Effect}
use go_notification.Sharding.{Bytes}

-- The client of the locks, by the text of a key, the context of the job, and the clock. `lock` may be asked of the value
-- that NewLock returns beside an error, `beside_error`; `none` is a panic, as of a nil value.
pub record LockServices {ℓ κ} (S : Type ℓ) (Lock : Type κ) : Type (ℓ ⊔ κ) where
  pub new_lock : Bytes → Effect S Lock
  pub beside_error : Lock
  pub lock : Lock → S → Option (Result (Unit {0}) × S)
  pub refresh : Lock → Effect S (Unit {0})
  pub unlock : Lock → Effect S (Unit {0})
  pub context_error : S → Option Err
  pub sleep : Duration → S → S

pub record MaxCntResourceSemaphore : Type 0 where
  pub max_count : ℤ
  pub current_count : ℤ

abbrev pub new_max_cnt_resource_semaphore : ℤ → MaxCntResourceSemaphore
new_max_cnt_resource_semaphore max_count = record { max_count = max_count; current_count = pos 0 }

unfoldable pub acquire : Effect MaxCntResourceSemaphore (Unit {0})
acquire m =
    if leb_ℤ m.max_count m.current_count
    then (err (Sentinel.exceed_limit ∷ []), m)
    else (ok tt, record m { current_count = wrap64 (m.current_count +ℤ pos 1) })

unfoldable pub release : Effect MaxCntResourceSemaphore (Unit {0})
release m = (ok tt, record m { current_count = wrap64 (m.current_count -ℤ pos 1) })

unfoldable pub update_max_count : ℤ → MaxCntResourceSemaphore → MaxCntResourceSemaphore
update_max_count max_count m = record m { max_count = max_count }
