-- ===== src/Delivery/Sender.antt =====
-- internal/service/sender/sender.go: a send, and a batch of sends in a pool of tasks.
use go_notification.Prelude.{
  ◌||◌, not, List, [], ◌∷◌, ◌++◌, map, Option, none, some, ℤ, eqb_ℤ, if◌then◌else◌,
}
use go_notification.Errs.{Result, ok, err}
use go_notification.Effect.{Effect, bind_result}
use go_notification.Domain.Notification.{Notification, SendStatus, succeeded, failed, is_empty}
use go_notification.Api.Convert.{SendResponse}

-- The channel, the pool, the repository and the callback service. `submit` hands a task to the pool.
pub record SenderServices {ℓ} (S : Type ℓ) : Type ℓ where
  pub channel_send : Notification → Effect S SendResponse
  pub submit : Notification → Effect S (Unit {0})
  pub mark_failed : Notification → Effect S (Unit {0})
  pub mark_success : Notification → Effect S (Unit {0})
  pub batch_get_by_id : List ℤ → Effect S (List (ℤ × Notification))
  pub batch_update : List Notification → List Notification → Effect S (Unit {0})
  pub callback_by_notification : Notification → Effect S (Unit {0})
  pub callback_by_notifications : List Notification → Effect S (Unit {0})

abbrev pub response : SendStatus → Notification → SendResponse
response status n = record { notification_id = n.id; status = status }

-- the two lists with the outcome of one more task
abbrev pub extended {ℓ} :
    {S : Type ℓ}
    → Notification
    → Result SendResponse
    → (List SendResponse × List SendResponse) × S
    → (List SendResponse × List SendResponse) × S
extended n (ok _) r = ((response succeeded n ∷ r.0.0, r.0.1), r.1)
extended n (err _) r = ((r.0.0, response failed n ∷ r.0.1), r.1)

-- a lookup in the map of notifications
unfoldable pub lookup : ℤ → List (ℤ × Notification) → Option Notification
lookup id [] = none
lookup id ((key, n) ∷ rest) = let later = lookup id rest in if eqb_ℤ key id then some n else later

-- getUpdatedNotifications: a response whose notification was not found is skipped
unfoldable pub get_updated_notifications :
    List SendResponse → List (ℤ × Notification) → List Notification
unfolding lookup
get_updated_notifications [] found = []
get_updated_notifications (r ∷ rs) found =
    let rest = get_updated_notifications rs found in
    elim (lookup r.notification_id found) [
      | none ↦ rest
      | some n ↦ record n { status = r.status } ∷ rest
    ]

abbrev pub ids_of : List SendResponse → List ℤ
ids_of = map (λ r. SendResponse.notification_id r)

module _ {ℓ} {S : Type ℓ} (services : SenderServices S) where
  -- the end of Send: the outcome is stored, and an error of the callback is dropped
  unfoldable pub finish : SendStatus → Notification → Effect S (Unit {0}) → Effect S SendResponse
  finish status n mark s =
      let (marked, s1) = mark s in
      elim marked [
        | err e ↦ (err e, s1)
        | ok _ ↦
            let (_, s2) = services.callback_by_notification (record n { status = status }) s1 in
            (ok (response status n), s2)
      ]

  unfoldable pub send : Notification → Effect S SendResponse
  unfolding finish
  send n s =
      let (sent, s1) = services.channel_send n s in
      elim sent [
        | err _ ↦ finish failed n (services.mark_failed (record n { status = failed })) s1
        | ok _ ↦ finish succeeded n (services.mark_success (record n { status = succeeded })) s1
      ]

  unfoldable pub submit_all : List Notification → Effect S (Unit {0})
  submit_all [] s = (ok tt, s)
  submit_all (n ∷ ns) s =
      let (submitted, s1) = services.submit n s in
      elim submitted [ err e ↦ (err e, s1) | ok _ ↦ submit_all ns s1 ]

  -- The tasks, each run as a whole, in the order of the list: the responses of those that succeeded
  -- and of those that failed.
  unfoldable pub run_all : List Notification → S → (List SendResponse × List SendResponse) × S
  run_all [] s = (([], []), s)
  run_all (n ∷ ns) s = let (sent, s1) = services.channel_send n s in extended n sent (run_all ns s1)

  -- both tests are of the notifications that succeeded
  unfoldable pub batch_update_status : List Notification → List Notification → Effect S (Unit {0})
  batch_update_status good bad s =
      if not (is_empty good) || not (is_empty good)
      then services.batch_update good bad s
      else (ok tt, s)

  -- the callback, whose error is dropped, and the result
  unfoldable pub called_back :
      List SendResponse → List SendResponse → List (ℤ × Notification) → Effect S (List SendResponse)
  unfolding get_updated_notifications
  called_back good bad found s =
      let (_, s') =
        services.callback_by_notifications
          (get_updated_notifications good found ++ get_updated_notifications bad found) s in
      (ok (good ++ bad), s')

  -- the outcomes stored for the notifications found
  unfoldable pub stored :
      List SendResponse → List SendResponse → List (ℤ × Notification) → Effect S (List SendResponse)
  unfolding batch_update_status called_back get_updated_notifications
  stored good bad found s =
      bind_result
        (batch_update_status (get_updated_notifications good found)
          (get_updated_notifications bad found) s)
        (λ _ s'. called_back good bad found s')

  unfoldable pub store_outcomes :
      List SendResponse → List SendResponse → Effect S (List SendResponse)
  unfolding stored
  store_outcomes good bad s =
      bind_result (services.batch_get_by_id (ids_of good ++ ids_of bad) s)
        (λ found s'. stored good bad found s')

  unfoldable pub sent_all : List Notification → Effect S (List SendResponse)
  unfolding run_all store_outcomes
  sent_all ns s = let ((good, bad), s') = run_all ns s in store_outcomes good bad s'

  -- `schedule` is the order in which the tasks of a list run
  unfoldable pub batch_send :
      (List Notification → List Notification) → List Notification → Effect S (List SendResponse)
  unfolding submit_all sent_all
  batch_send schedule ns s =
      if is_empty ns
      then (ok [], s)
      else bind_result (submit_all ns s) (λ _ s'. sent_all (schedule ns) s')
