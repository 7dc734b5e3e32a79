-- ===== src/Sending/Dispatch.antt =====
-- Which strategy a notification reaches, and what the send service hands over and returns.
use go_notification.Prelude.{
  ℕ, suc, ◌≡◌, refl, ap, ap₂, subst, fun_ext, inl, inr, false, List, [], ◌∷◌, map, length, ℤ,
  Instant, Bool-cases, arith,
}
use go_notification.Errs.{Result, ok, err}
use go_notification.Effect.{pure, bind_result, bind_result-elim, bind_result-cong, map_error}
use go_notification.Domain.Notification
use go_notification.Domain.Notification.{
  Notification, replace_async_immediate, is_immediate, set_send_time,
}
use go_notification.Sending.Strategy.{
  SendStrategy, dispatcher, dispatcher_send, dispatcher_batch_send, select_strategy,
}
use go_notification.Sending.Service.{
  Source, sending_failed, validated, identified, replaced, send_notification_async,
  prepare_all_async, batch_send_notifications_async,
}

replace_async_immediate-is_immediate :
    (now : Instant) (n : Notification) → is_immediate (replace_async_immediate now n) ≡ false
unfolding replace_async_immediate
replace_async_immediate-is_immediate now n = elim (Bool-cases (is_immediate n)) [
  | inl at_once ↦ rw at_once refl
  | inr not_now ↦ rw not_now not_now
]

replace_async_immediate-id :
    (now : Instant) (n : Notification)
    → Notification.Notification.id (replace_async_immediate now n) ≡ n.id
unfolding replace_async_immediate
replace_async_immediate-id now n = elim (Bool-cases (is_immediate n)) [
  | inl at_once ↦ rw at_once refl
  | inr not_now ↦ rw not_now refl
]

-- each notification of a list is for later
abbrev pub AllLater : List Notification → Type 0
AllLater [] = Unit
AllLater (n ∷ ns) = (is_immediate n ≡ false) × AllLater ns

module _ {ℓ} {S : Type ℓ} (at_once later : SendStrategy S) where
  dispatcher_send-later :
      (n : Notification) (s : S)
      → is_immediate n ≡ false
      → dispatcher_send at_once later n s ≡ later.send n s
  unfolding dispatcher_send select_strategy
  dispatcher_send-later n s h = rw h refl

  dispatcher_batch_send-later :
      (n : Notification) (ns : List Notification) (s : S)
      → is_immediate n ≡ false
      → dispatcher_batch_send at_once later (n ∷ ns) s ≡ later.batch_send (n ∷ ns) s
  unfolding dispatcher_batch_send select_strategy
  dispatcher_batch_send-later n ns s h = rw h refl

module _ {ℓ} {S : Type ℓ} (source : Source S) (at_once later : SendStrategy S) where
  -- A notification that is sent asynchronously never reaches the immediate strategy: the dispatcher
  -- does what the other strategy does, whatever the state, the clock and the generator.
  send_notification_async-dispatcher :
      (n : Notification) (s : S)
      → send_notification_async source (dispatcher at_once later) n s
        ≡ send_notification_async source later n s
  unfolding send_notification_async validated identified replaced
  send_notification_async-dispatcher n s = ap (bind_result (validated source n s)) (
      fun_ext λ u.
        fun_ext λ s'.
          (dispatcher_send-later at_once later _ _ (replace_async_immediate-is_immediate _ _)))

-- what is handed over for `k` notifications: as many, none of them for now, with the IDs returned
abbrev pub Handed : ℕ → Result (List Notification × List ℤ) → Type 0
Handed k (ok (ready, ids)) =
    (length ready ≡ k) × AllLater ready × (map (λ n. Notification.id n) ready ≡ ids)
Handed k (err _) = Unit

module _ {ℓ} {S : Type ℓ} (source : Source S) where
  -- The loop of an asynchronous batch, if no notification is refused, hands over all of them in
  -- order, each with its new ID, which is also returned, and none for immediate sending.
  prepare_all_async-Handed :
      (ns : List Notification) (s : S) → Handed (length ns) (prepare_all_async source ns s).0
  unfolding prepare_all_async validated identified replaced
  prepare_all_async-Handed [] s = (refl, tt, refl)
  prepare_all_async-Handed (n ∷ ns) s =
      bind_result-elim (Handed (suc (length ns))) (validated source n s) _ (λ e h. tt)
        (λ u accepted.
          (bind_result-elim (Handed (suc (length ns))) (prepare_all_async source ns _) _ (λ e h. tt)
            (λ (ready, ids) h.
              (let (long, all_later, same) =
                  subst (Handed (length ns)) h (prepare_all_async-Handed ns _) in
                (
                  ap suc long,
                  (replace_async_immediate-is_immediate _ _, all_later),
                  ap₂ (λ i is. i ∷ is) (replace_async_immediate-id _ _) same,
                )))))

module _ {ℓ} {S : Type ℓ} (source : Source S) (at_once later : SendStrategy S) where
  Handed-batch :
      (k : ℕ) (ready : List Notification) (ids : List ℤ) (s : S)
      → Handed (suc k) (ok (ready, ids))
      → dispatcher_batch_send at_once later ready s ≡ later.batch_send ready s
  Handed-batch k [] ids s (long, _, _) = absurd (omega (arith, long))
  Handed-batch k (n ∷ ready) ids s (_, (h, _), _) =
      dispatcher_batch_send-later at_once later n ready s h

  -- A batch that is sent asynchronously never reaches the immediate strategy, even if its
  -- notifications ask for it.
  pub batch_send_notifications_async-dispatcher :
      (ns : List Notification) (s : S)
      → batch_send_notifications_async source (dispatcher at_once later) ns s
        ≡ batch_send_notifications_async source later ns s
  unfolding batch_send_notifications_async
  batch_send_notifications_async-dispatcher [] s = refl
  batch_send_notifications_async-dispatcher (n ∷ ns) s =
      bind_result-cong (prepare_all_async source (n ∷ ns) s) _ _ (λ (ready, ids) h.
        (ap (λ m. bind_result (map_error sending_failed m.0, m.1) (λ _. pure ids))
          (Handed-batch (length ns) ready ids _
            (subst (Handed (suc (length ns))) h (prepare_all_async-Handed source (n ∷ ns) s)))))
