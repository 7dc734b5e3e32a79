-- ===== src/Scheduling/Ending.antt =====
-- When the loop of the sharding scheduler ends: the loop over a bit ring goes as one over the plain
-- history of its outcomes, which ends when rounds fail.
use go_notification.Prelude.{
  ℕ, zero, suc, ◌+◌, ◌≤◌, ◌<◌, ◌≡◌, refl, ap, ◌∙◌, inl, inr, true, take, replicate,
  length-replicate, sym, subst, ltb, arith, pos, Bool, Bool-cases, List, [], ◌∷◌, Option, none,
  some, ℤ, Float64, Duration, if◌then◌else◌,
}
use go_notification.Errs.{Err, Result, ok, err, Sentinel, Refuses}
use go_notification.Effect.{Effect, bind_result}
use go_notification.Domain.Notification.{Notification}
use go_notification.Api.Convert.{SendResponse}
use go_notification.BitRing.{BitRing, add, is_condition_met, new_bit_ring}
use go_notification.BitRing.History.{record_all, tripped, all_true, is_condition_met-record_all}
use go_notification.Scheduling.Ready.{
  SchedulerServices, ShardingScheduler, measure, adjusted, loop, is_failed, send_found,
  batch_send_ready_notifications,
}

-- a round finds nothing because of an error, or does not send all of what it finds
abbrev pub Fails {ℓ} :
    {S : Type ℓ}
    → (List Notification → Effect S (List SendResponse))
    → Result (List Notification) × S
    → Type 0
Fails send (err e, s) = Unit
Fails send (ok [], s) = ⊥
Fails send (ok (n ∷ ns), s) = Refuses (send (n ∷ ns) s).0

take-replicate {ℓ} : {A : Type ℓ} (m n : ℕ) (a : A) → n ≤ m → take m (replicate n a) ≡ replicate n a
take-replicate zero zero a h = refl
take-replicate zero (suc n) a h = absurd (omega arith)
take-replicate (suc m) zero a h = refl
take-replicate (suc m) (suc n) a h = ap (λ l. a ∷ l) (take-replicate m n a (omega arith))

all_true-replicate : (n : ℕ) → all_true (replicate n true) ≡ true
all_true-replicate zero = refl
all_true-replicate (suc n) = all_true-replicate n

module _ {ℓ} {S : Type ℓ} {F : Type 0} ⦃fl : Float64 F⦄ (services : SchedulerServices S)
    (min_loop_duration : Duration) (ring_size consecutive : ℤ) (threshold : F) where
  abbrev pub fresh_ring : BitRing F
  fresh_ring = new_bit_ring ring_size threshold consecutive

  -- The rounds over a history of outcomes, the latest first, until the history trips: the history,
  -- the size of a batch and the state at the end.
  unfoldable pub until_tripped : ℕ → List Bool → ℤ → S → Option (List Bool × ℤ × S)
  until_tripped zero h batch_size s = none
  until_tripped (suc fuel) h batch_size s =
      let (m, s1) = measure services batch_size s in
      let (size, s2) = adjusted services min_loop_duration batch_size m s1 in
      let rest = until_tripped fuel (m.failed ∷ h) size s2 in
      if tripped fresh_ring.size fresh_ring.consecutive fresh_ring.threshold (m.failed ∷ h)
      then some (m.failed ∷ h, batch_size, s1)
      else rest

  -- a scheduler whose ring has recorded a history
  abbrev pub after : List Bool → ℤ → ShardingScheduler F
  after h batch_size = record {
    min_loop_duration = min_loop_duration;
    batch_size = batch_size;
    error_events = record_all fresh_ring h;
  }

  abbrev pub ending : Option (List Bool × ℤ × S) → Option (Err × ShardingScheduler F × S)
  ending none = none
  ending (some (h, batch_size, s)) =
      some (Sentinel.error_condition_is_met ∷ [], after h batch_size, s)

  met :
      (h : List Bool) (failed : Bool)
      → is_condition_met (add (record_all fresh_ring h) failed)
        ≡ tripped fresh_ring.size fresh_ring.consecutive fresh_ring.threshold (failed ∷ h)
  unfolding record_all
  met h failed = is_condition_met-record_all ring_size consecutive threshold (failed ∷ h)

  loop-after :
      (fuel : ℕ) (h : List Bool) (batch_size : ℤ) (s : S)
      → loop services fuel (after h batch_size) s ≡ ending (until_tripped fuel h batch_size s)
  unfolding loop until_tripped record_all
  loop-after zero h batch_size s = refl
  loop-after (suc fuel) h batch_size s =
      let m = (measure services batch_size s).0 in
      let s1 = (measure services batch_size s).1 in
      let (size, s2) = adjusted services min_loop_duration batch_size m s1 in
      rw (met h m.failed)
        (elim (Bool-cases
          (tripped fresh_ring.size fresh_ring.consecutive fresh_ring.threshold (m.failed ∷ h))) [
            | inl ends ↦ rw ends refl
            | inr goes_on ↦ rw goes_on (loop-after fuel (m.failed ∷ h) size s2)
          ])

  loop-until_tripped :
      (fuel : ℕ) (batch_size : ℤ) (s : S)
      → loop services fuel (after [] batch_size) s ≡ ending (until_tripped fuel [] batch_size s)
  loop-until_tripped fuel batch_size s = loop-after fuel [] batch_size s

  -- consecutive failures, as many as the ring asks for, meet the condition
  tripped-replicate :
      (size consecutive : ℕ) (threshold : F)
      → 0 < consecutive
      → consecutive ≤ size
      → tripped size consecutive threshold (replicate consecutive true) ≡ true
  unfolding tripped
  tripped-replicate size consecutive threshold positive fits =
      let whole = take-replicate size consecutive true fits in
      let latest = take-replicate consecutive consecutive true (omega arith) in
      rw (whole, latest, length-replicate consecutive true, all_true-replicate consecutive)
        (ground arith)

  fresh_ring-consecutive : (0 < fresh_ring.consecutive) × (fresh_ring.consecutive ≤ fresh_ring.size)
  unfolding new_bit_ring
  fresh_ring-consecutive = ground arith

  module _
      (fails : (limit : ℤ) (s : S)
        → Fails services.batch_send (services.find_ready_notifications (pos 0) limit s)) where
    send_found-Fails :
        (m : Result (List Notification) × S)
        → Fails services.batch_send m
        → is_failed (send_found services m).0.1 ≡ true
    unfolding send_found
    send_found-Fails (err e, s) h = refl
    send_found-Fails (ok [], s) h = absurd h
    send_found-Fails (ok (n ∷ ns), s) h = refused_send (services.batch_send (n ∷ ns) s) h
      where
        refused_send :
            (r : Result (List SendResponse) × S)
            → Refuses r.0
            → is_failed (bind_result r (λ _ s'. (ok (tt {0}), s'))).0 ≡ true
        refused_send (ok a, _) h = absurd h
        refused_send (err e, _) h = refl

    measure-Fails : (batch_size : ℤ) (s : S) → (measure services batch_size s).0.failed ≡ true
    unfolding measure batch_send_ready_notifications
    measure-Fails batch_size s = send_found-Fails _ (fails batch_size (services.now s).1)

    until_tripped-Fails :
        (fuel rounds : ℕ) (batch_size : ℤ) (s : S)
        → rounds < fresh_ring.consecutive
        → fresh_ring.consecutive ≤ rounds + fuel
        → (r : List Bool × ℤ × S) × (until_tripped fuel (replicate rounds true) batch_size s
            ≡ some r)
    unfolding until_tripped
    until_tripped-Fails zero rounds batch_size s few enough = absurd (omega arith)
    until_tripped-Fails (suc fuel) rounds batch_size s few enough =
        let (m, s1) = measure services batch_size s in
        let (size, s2) = adjusted services min_loop_duration batch_size m s1 in
        let failed' : m.failed ≡ true = measure-Fails batch_size s in
        elim (Bool-cases (
          tripped fresh_ring.size fresh_ring.consecutive fresh_ring.threshold
            (replicate (suc rounds) true))) [
              | inl ends ↦
                  ((true ∷ replicate rounds true, batch_size, s1), rw failed' (rw ends refl))
              | inr goes_on ↦ elim (Bool-cases (ltb (suc rounds) fresh_ring.consecutive)) [
                | inl more ↦
                    let (r, ends) =
                      until_tripped-Fails fuel (suc rounds) size s2 (ground arith) (omega arith) in
                    (r, rw failed' (rw goes_on ends))
                | inr last ↦
                    let same : fresh_ring.consecutive ≡ suc rounds = ground arith in
                    absurd (
                      ground (
                        arith,
                        sym goes_on
                            ∙ subst
                                (λ n.
                                  tripped fresh_ring.size fresh_ring.consecutive
                                    fresh_ring.threshold (replicate n true)
                                  ≡ true)
                                same
                                (tripped-replicate fresh_ring.size fresh_ring.consecutive
                                  fresh_ring.threshold fresh_ring-consecutive.0
                                  fresh_ring-consecutive.1),
                      ))
              ]
            ]

  -- If in every round the notifications that are ready cannot be found, or some are found and sending
  -- them fails, then the loop of a scheduler with a new ring of errors ends, with the error of the
  -- ring's condition, within as many rounds as the ring asks for errors in a row.
  pub loop-Fails :
      (fuel : ℕ) (batch_size : ℤ) (s : S)
      → ((limit : ℤ) (s : S)
          → Fails services.batch_send (services.find_ready_notifications (pos 0) limit s))
      → fresh_ring.consecutive ≤ fuel
      → (scheduler : ShardingScheduler F) × (s' : S) × (loop services fuel (after [] batch_size) s
          ≡ some (Sentinel.error_condition_is_met ∷ [], scheduler, s'))
  loop-Fails fuel batch_size s fails enough =
      let ((h, size, s'), ends) =
        until_tripped-Fails fails fuel 0 batch_size s fresh_ring-consecutive.0
          (omega (arith, enough)) in
      (after h size, s', loop-until_tripped fuel batch_size s ∙ ap ending ends)
