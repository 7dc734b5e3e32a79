-- ===== src/Repository/Refunds.antt =====
-- What a failed creation returns, and what it does to the quota.
use go_notification.Prelude.{◌≡◌, refl, ap, ◌∙◌, inl, inr, true, Option, none, some, pos, arith}
use go_notification.Errs.{Err, Result, ok, err, Sentinel, is, Result-cases}
use go_notification.Effect.{Effect, ◌>>=◌}
use go_notification.Domain.Notification.{Notification, set_send_time}
use go_notification.Sending.Strategy.{Backend, immediate_send, send_again}
use go_notification.Sending.Retries.{immediate_send-duplicate}
use go_notification.Repository.Entities.{Json, Entity}
use go_notification.Repository.Notifications.{
  Store, create, create_by, created_or_refunded, empty_notification,
}

-- a creation that failed returned no notification
abbrev Emptied : Notification × Option Err → Type 0
Emptied (n, none) = Unit
Emptied (n, some _) = n ≡ empty_notification

module _ {ℓ} {S : Type ℓ} (json : Json) (store : Store S) where
  created_or_refunded-Emptied :
      (n : Notification) (row : Result Entity) (s : S)
      → Emptied (created_or_refunded json store n row s).0
  unfolding created_or_refunded
  created_or_refunded-Emptied n (ok e) s = tt
  created_or_refunded-Emptied n (err e) s = refl

  create_by-Emptied :
      (insert : Entity → Effect S Entity) (n : Notification) (s : S)
      → Emptied (create_by json store insert n s).0
  unfolding create_by
  create_by-Emptied insert n s = elim (Result-cases (store.decr n.biz_id n.channel (pos 1) s).0) [
    | inl (u, taken) ↦ rw (taken, create_by) (created_or_refunded-Emptied n _ _)
    | inr (e, refused) ↦ rw (refused, create_by) refl
  ]

module _ {ℓ} {S : Type ℓ} (json : Json) (store : Store S) (backend : Backend S) where
  -- The immediate strategy over the code's repository: whatever the business and key of a notification
  -- are, if creating it reports a duplicate, then the notification of business 0 and the empty key is
  -- looked up.
  pub immediate_send-create :
      (n : Notification) (e : Err) (s : S)
      → (create json store (set_send_time (backend.now s).0 n) (backend.now s).1).0.1 ≡ some e
      → is e Sentinel.notification_duplicate ≡ true
      → let over = record backend { create = create json store } in
        immediate_send over n s
        ≡ (backend.get_by_key (pos 0) "" >>= send_again over)
            (create json store (set_send_time (backend.now s).0 n) (backend.now s).1).1
  unfolding create
  immediate_send-create n e s failed duplicate =
      (let timed = set_send_time (backend.now s).0 n in
        let result = create json store timed (backend.now s).1 in
        let emptied =
          emptied_of result.0.0 result.0.1 e
            (create_by-Emptied json store store.create timed (backend.now s).1) failed in
        immediate_send-duplicate (record backend { create = create json store }) n
          empty_notification e s result.1
          (ap (λ o. ((result.0.0, o), result.1)) failed ∙ ap (λ m. ((m, some e), result.1)) emptied)
          refl refl duplicate)
    where
      emptied_of :
          (m : Notification) (o : Option Err) (e : Err)
          → Emptied (m, o)
          → o ≡ some e
          → m ≡ empty_notification
      emptied_of m none e h some' = absurd (ground (arith, some'))
      emptied_of m (some _) e h some' = h
