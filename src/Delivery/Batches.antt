-- ===== src/Delivery/Batches.antt =====
-- What a batch of sends returns, and when its outcome is stored.
use go_notification.Prelude.{
  ℕ, suc, ◌≡◌, refl, ap, subst, ◌∙◌, inl, inr, List, [], ◌∷◌, ◌++◌, length, length-append, ℤ, arith,
}
use go_notification.Errs.{Err, Result, ok, err, Result-cases}
use go_notification.Effect.{Effect, bind_result, bind_result-elim, bind_result-cong}
use go_notification.Domain.Notification.{Notification, failed as failed_status}
use go_notification.Api.Convert.{SendResponse}
use go_notification.Delivery.Sender.{
  SenderServices, response, get_updated_notifications, submit_all, run_all, extended, ids_of,
  batch_update_status, called_back, stored, store_outcomes, sent_all, batch_send,
}

module _ {ℓ} {S : Type ℓ} (services : SenderServices S) where
  run_all-length :
      (ns : List Notification) (s : S)
      → length ((run_all services ns s).0.0 ++ (run_all services ns s).0.1) ≡ length ns
  unfolding run_all
  run_all-length [] s = refl
  run_all-length (n ∷ ns) s = elim (Result-cases (services.channel_send n s).0) [
    | inl (r, sent) ↦ rw (sent, run_all) (ap suc (run_all-length ns _))
    | inr (e, failed) ↦
        rw (failed, run_all)
          (omega (
            arith,
            length-append (run_all services ns (services.channel_send n s).1).0.0 (
                response failed_status n ∷ (run_all services ns (services.channel_send n s).1).0.1),
            length-append (run_all services ns (services.channel_send n s).1).0.0
                (run_all services ns (services.channel_send n s).1).0.1,
            run_all-length ns (services.channel_send n s).1,
          ))
  ]

  abbrev Covers : ℕ → Result (List SendResponse) → Type 0
  Covers k (ok rs) = length rs ≡ k
  Covers k (err _) = Unit

  stored-Covers :
      (good bad : List SendResponse) (found : List (ℤ × Notification)) (s : S)
      → Covers (length (good ++ bad)) (stored services good bad found s).0
  unfolding stored called_back
  stored-Covers good bad found s =
      bind_result-elim (Covers (length (good ++ bad)))
        (batch_update_status services (get_updated_notifications good found)
          (get_updated_notifications bad found) s)
        (λ u s'. called_back services good bad found s') (λ e h. tt) (λ u h. refl)

  store_outcomes-Covers :
      (good bad : List SendResponse) (s : S)
      → Covers (length (good ++ bad)) (store_outcomes services good bad s).0
  unfolding store_outcomes
  store_outcomes-Covers good bad s =
      bind_result-elim (Covers (length (good ++ bad)))
        (services.batch_get_by_id (ids_of good ++ ids_of bad) s)
        (λ found s'. stored services good bad found s') (λ e h. tt)
        (λ found h. stored-Covers good bad found _)

  sent_all-Covers : (ns : List Notification) (s : S) → Covers (length ns) (sent_all services ns s).0
  unfolding sent_all
  sent_all-Covers ns s =
      subst (λ k. Covers k (sent_all services ns s).0) (run_all-length ns s)
        (store_outcomes-Covers (run_all services ns s).0.0 (run_all services ns s).0.1
          (run_all services ns s).1)

  batch_send-Covers :
      (schedule : List Notification → List Notification) (ns : List Notification) (s : S)
      → length (schedule ns) ≡ length ns
      → Covers (length ns) (batch_send services schedule ns s).0
  unfolding batch_send
  batch_send-Covers schedule [] s same = refl
  batch_send-Covers schedule (n ∷ ns) s same =
      bind_result-elim (Covers (length (n ∷ ns))) (submit_all services (n ∷ ns) s)
        (λ u s'. sent_all services (schedule (n ∷ ns)) s') (λ e h. tt)
        (λ u h.
          subst
            (λ k.
              Covers k (sent_all services (schedule (n ∷ ns)) (submit_all services (n ∷ ns) s).1).0)
            same (sent_all-Covers (schedule (n ∷ ns)) (submit_all services (n ∷ ns) s).1))

  -- A batch that is not refused as a whole returns one response for each notification, in whatever
  -- order, that keeps their number, the tasks run.
  length-batch_send :
      (schedule : List Notification → List Notification) (ns : List Notification)
      (rs : List SendResponse) (s : S)
      → length (schedule ns) ≡ length ns
      → (batch_send services schedule ns s).0 ≡ ok rs
      → length rs ≡ length ns
  length-batch_send schedule ns rs s same h =
      subst (Covers (length ns)) h (batch_send-Covers schedule ns s same)

module _ {ℓ} {S : Type ℓ} (services : SenderServices S)
    (update : List Notification → List Notification → Effect S (Unit {0})) where
  -- the services with another update of the statuses
  abbrev pub over : SenderServices S
  over = record services { batch_update = update }

  submit_all-over :
      (ns : List Notification) (s : S) → submit_all over ns s ≡ submit_all services ns s
  unfolding submit_all
  submit_all-over [] s = refl
  submit_all-over (n ∷ ns) s = elim (Result-cases (services.submit n s).0) [
    | inl (u, done) ↦ rw (done, submit_all) (submit_all-over ns _)
    | inr (e, refused) ↦ rw (refused, submit_all) refl
  ]

  run_all-over : (ns : List Notification) (s : S) → run_all over ns s ≡ run_all services ns s
  unfolding run_all
  run_all-over [] s = refl
  run_all-over (n ∷ ns) s =
      ap (λ r. extended n (services.channel_send n s).0 r)
        (run_all-over ns (services.channel_send n s).1)

  run_all-failing :
      (ns : List Notification) (s : S)
      → ((n : Notification) (s : S) → (e : Err) × ((services.channel_send n s).0 ≡ err e))
      → (run_all services ns s).0.0 ≡ []
  unfolding run_all
  run_all-failing [] s broken = refl
  run_all-failing (n ∷ ns) s broken = rw ((broken n s).1, run_all) (run_all-failing ns _ broken)

  sent_all-over :
      (ns : List Notification) (s : S)
      → ((n : Notification) (s : S) → (e : Err) × ((services.channel_send n s).0 ≡ err e))
      → sent_all over ns s ≡ sent_all services ns s
  unfolding sent_all store_outcomes stored batch_update_status get_updated_notifications called_back
  sent_all-over ns s broken =
      ap (λ r. store_outcomes over r.0.0 r.0.1 r.1) (run_all-over ns s)
      ∙ outcomes (run_all services ns s).0.0 (run_all-failing ns s broken)
    where
      outcomes :
          (good : List SendResponse)
          → good ≡ []
          → store_outcomes over good (run_all services ns s).0.1 (run_all services ns s).1
            ≡ store_outcomes services good (run_all services ns s).0.1 (run_all services ns s).1
      outcomes good h = rw h refl

  -- If every send of a batch fails, in every state, then no status is updated: another update would
  -- make no difference.
  pub batch_send-over :
      (schedule : List Notification → List Notification) (ns : List Notification) (s : S)
      → ((n : Notification) (s : S) → (e : Err) × ((services.channel_send n s).0 ≡ err e))
      → batch_send over schedule ns s ≡ batch_send services schedule ns s
  unfolding batch_send
  batch_send-over schedule [] s broken = refl
  batch_send-over schedule (n ∷ ns) s broken =
      ap (λ m. bind_result m (λ u s'. sent_all over (schedule (n ∷ ns)) s'))
        (submit_all-over (n ∷ ns) s)
      ∙ bind_result-cong (submit_all services (n ∷ ns) s)
          (λ u s'. sent_all over (schedule (n ∷ ns)) s')
          (λ u s'. sent_all services (schedule (n ∷ ns)) s')
          (λ u h. sent_all-over (schedule (n ∷ ns)) _ broken)
