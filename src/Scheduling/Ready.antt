-- ===== src/Scheduling/Ready.antt =====
-- internal/service/scheduler: scheduler.go, which sends what is ready in batches of one size, and
-- sharding_scheduler.go, which adjusts the size and stops when too much goes wrong.
use go_notification.Prelude.{
  ℕ, zero, suc, Bool, true, false, List, [], ◌∷◌, length, Option, none, some, ℤ, pos, ◌-ℤ◌, eqb_ℤ,
  Instant, Duration, since, Float64, if◌then◌else◌,
}
use go_notification.Errs.{Err, Result, ok, err, Sentinel}
use go_notification.Effect.{Effect, bind_result}
use go_notification.BitRing.{BitRing, add, is_condition_met}
use go_notification.Domain.Notification.{Notification, is_empty}
use go_notification.Api.Convert.{SendResponse}

-- The clock, the notifications that are ready, the sender, and the adjuster of the size of a batch.
pub record SchedulerServices {ℓ} (S : Type ℓ) : Type ℓ where
  pub now : S → Instant × S
  pub sleep : Duration → S → S
  pub find_ready_notifications : ℤ → ℤ → Effect S (List Notification)
  pub batch_send : List Notification → Effect S (List SendResponse)
  pub adjust : Duration → Effect S ℤ

abbrev pub second : Duration
second = pos 1000000000

-- The size of a batch is stored as a uint64 and read back as an int, which gives the int stored.
pub record ShardingScheduler (F : Type 0) : Type 0 where
  pub min_loop_duration : Duration
  pub batch_size : ℤ
  pub error_events : BitRing F

-- a batch that was sent: how many notifications, whether with an error, and in which time
pub record Measured : Type 0 where
  pub cnt : ℤ
  pub failed : Bool
  pub response_time : Duration

abbrev pub is_failed {ℓ} : {A : Type ℓ} → Result A → Bool
is_failed (ok _) = false
is_failed (err _) = true

module _ {ℓ} {S : Type ℓ} (services : SchedulerServices S) where
  -- of the scheduler with a batch size of 10
  unfoldable pub process_pending_notifications : ℤ → Effect S (Unit {0})
  process_pending_notifications batch_size s =
      bind_result (services.find_ready_notifications (pos 0) batch_size s) λ notifications s1.
        if is_empty notifications
        then (ok tt, services.sleep second s1)
        else bind_result (services.batch_send notifications s1) (λ _ s2. (ok tt, s2))

  -- the number of the notifications that were found, beside the error of sending them
  unfoldable pub send_found : Result (List Notification) × S → (ℤ × Result (Unit {0})) × S
  send_found (err e, s) = ((pos 0, err e), s)
  send_found (ok notifications, s) =
      if is_empty notifications
      then ((pos 0, ok tt), s)
      else let (sent, s1) = services.batch_send notifications s in
        ((pos (length notifications), (bind_result (sent, s1) (λ _ s2. (ok tt, s2))).0), s1)

  unfoldable pub batch_send_ready_notifications : ℤ → S → (ℤ × Result (Unit {0})) × S
  batch_send_ready_notifications batch_size s =
      send_found (services.find_ready_notifications (pos 0) batch_size s)

  -- the first part of a round of `loop`, up to the response time
  unfoldable pub measure : ℤ → S → Measured × S
  measure batch_size s =
      let (start, s1) = services.now s in
      let ((cnt, sent), s2) = batch_send_ready_notifications batch_size s1 in
      let (finish, s3) = services.now s2 in
      (record { cnt = cnt; failed = is_failed sent; response_time = since finish start }, s3)

  -- the last part of a round: the new size of a batch, and the rest of the round's time
  unfoldable pub adjusted : Duration → ℤ → Measured → S → ℤ × S
  adjusted min_loop_duration batch_size m s =
      let (answer, s1) = services.adjust m.response_time s in
      (
        elim answer [ ok n ↦ n | err _ ↦ batch_size ],
        if eqb_ℤ m.cnt (pos 0)
            then services.sleep (min_loop_duration -ℤ m.response_time) s1
            else s1,
      )

  module _ {F : Type 0} ⦃fl : Float64 F⦄ where
    -- `loop`, on fuel: it ends with an error when the ring of errors meets its condition
    unfoldable pub loop : ℕ → ShardingScheduler F → S → Option (Err × ShardingScheduler F × S)
    loop zero scheduler s = none
    loop (suc fuel) scheduler s =
        let (m, s1) = measure scheduler.batch_size s in
        let events = add scheduler.error_events m.failed in
        let (size, s2) = adjusted scheduler.min_loop_duration scheduler.batch_size m s1 in
        let rest = loop fuel (record scheduler { batch_size = size; error_events = events }) s2 in
        if is_condition_met events
        then some
            (Sentinel.error_condition_is_met ∷ [], record scheduler { error_events = events }, s1)
        else rest
