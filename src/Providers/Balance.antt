-- ===== src/Providers/Balance.antt =====
-- internal/service/provider/loadbalancer (provider.go, selector.go): a round over the providers. A
-- provider is used if it is not nil and healthy; `usable` reads that in a state.
use go_notification.Prelude.{
  ℕ, zero, suc, ◌+◌, ◌-◌, ◌%◌, ◌≡◌, refl, inl, inr, Bool, true, false, Option, none, some,
  Bool-cases, found-cases, subst, arith, if◌then◌else◌, ◌==◌,
}
use go_notification.Errs.{Err, Result, ok, err, failure, Result-cases}
use go_notification.Effect.{Effect}
use go_notification.Domain.Notification.{Notification}
use go_notification.Api.Convert.{SendResponse}

abbrev pub no_provider_available : Err
no_provider_available = failure 6

abbrev pub no_healthy_provider : Err
no_healthy_provider = failure 7

abbrev pub chosen : Option ℕ → Result ℕ
chosen none = err no_provider_available
chosen (some idx) = ok idx

chosen_index : (o : Option ℕ) (idx : ℕ) → chosen o ≡ ok idx → o ≡ some idx
chosen_index none idx h = absurd (ground (arith, h))
chosen_index (some i) idx h = ground (arith, h)

module _ {ℓ} {S : Type ℓ} (usable : ℕ → S → Bool)
    (send_by : ℕ → Notification → Effect S SendResponse) where
  -- The loop of Provider.Send from its step `count - left`, `count` being the number of providers and
  -- `current` the counter before the call, which is not negative. An error of a provider is
  -- returned; after a success the loop goes on.
  unfoldable pub send_from : ℕ → ℕ → ℕ → Notification → Effect S SendResponse
  send_from current count zero n s = (err no_healthy_provider, s)
  send_from current count (suc left) n s =
      let idx = (current + (count - suc left)) % count in
      elim (usable idx s) [
        | true ↦
            let (res, s') = send_by idx n s in
            elim res [ err e ↦ (err e, s') | ok _ ↦ send_from current count left n s' ]
        | false ↦ send_from current count left n s
      ]

  -- The receiver is a copy, whose counter is increased, so that every call begins at `current`.
  unfoldable pub send : ℕ → ℕ → Notification → Effect S SendResponse
  unfolding send_from
  send current count n s =
      if count == 0 then (err no_provider_available, s) else send_from current count count n s

  -- the loop of Selector.Next, which takes the first provider that is healthy
  unfoldable pub next_from : ℕ → ℕ → ℕ → S → Option ℕ
  next_from current count zero s = none
  next_from current count (suc left) s =
      let idx = (current + (count - suc left)) % count in
      let later = next_from current count left s in if usable idx s then some idx else later

  -- Selector.Next, with the counter that the selector keeps
  unfoldable pub next : ℕ → ℕ → S → Result ℕ × ℕ
  unfolding next_from
  next counter count s =
      if count == 0
      then (err no_provider_available, counter)
      else (chosen (next_from (counter + 1) count count s), counter + 1)

  abbrev Failed : Result SendResponse → Type 0
  Failed (ok _) = ⊥
  Failed (err _) = Unit

  send_from-Failed :
      (current count left : ℕ) (n : Notification) (s : S)
      → Failed (send_from current count left n s).0
  unfolding send_from
  send_from-Failed current count zero n s = tt
  send_from-Failed current count (suc left) n s = elim (Bool-cases (usable idx s)) [
    | inr unusable ↦ rw (unusable, send_from) (send_from-Failed current count left n s)
    | inl use_it ↦ elim (Result-cases (send_by idx n s).0) [
      | inr (e, failed) ↦ rw (use_it, send_from, failed) tt
      | inl (r, sent) ↦ rw (use_it, send_from, sent) (send_from-Failed current count left n _)
    ]
  ]
    where
      idx : ℕ
      idx = (current + (count - suc left)) % count

  error_of : (r : Result SendResponse) → Failed r → (e : Err) × (r ≡ err e)
  error_of (err e) h = (e, refl)
  error_of (ok r) h = absurd h

  -- A send over the balanced providers never reports success, whatever the providers do: after one
  -- that succeeds, the others are used too, and in the end no provider is said to be healthy.
  pub send-Failed :
      (current count : ℕ) (n : Notification) (s : S)
      → (e : Err) × ((send current count n s).0 ≡ err e)
  unfolding send
  send-Failed current count n s = elim (Bool-cases (count == 0)) [
    | inl nobody ↦ (no_provider_available, rw (nobody, send) refl)
    | inr somebody ↦
        let (e, failed) = error_of _ (send_from-Failed current count count n s) in
        (e, rw (somebody, send) failed)
  ]

  next_from-usable :
      (current count left : ℕ) (s : S) (idx : ℕ)
      → next_from current count left s ≡ some idx
      → usable idx s ≡ true
  unfolding next_from
  next_from-usable current count zero s idx h = absurd (ground (arith, h))
  next_from-usable current count (suc left) s idx h =
      elim (found-cases (usable here s) here idx (next_from current count left s) h) [
        | inl (use_it, same) ↦ subst (λ i. usable i s ≡ true) same use_it
        | inr (_, later) ↦ next_from-usable current count left s idx later
      ]
    where
      here : ℕ
      here = (current + (count - suc left)) % count

  -- The selector chooses a provider that is healthy, or none.
  pub next-usable :
      (counter count : ℕ) (s : S) (idx : ℕ)
      → (next counter count s).0 ≡ ok idx
      → usable idx s ≡ true
  unfolding next
  next-usable counter count s idx h = elim (Bool-cases (count == 0)) [
    | inl nobody ↦ absurd (ground (arith, subst (λ b. answer b ≡ ok idx) nobody h))
    | inr somebody ↦
        next_from-usable (counter + 1) count count s idx
          (chosen_index _ idx (subst (λ b. answer b ≡ ok idx) somebody h))
  ]
    where
      answer : Bool → Result ℕ
      answer b =
          let both : Result ℕ × ℕ =
            (if b
              then (err no_provider_available, counter)
              else (chosen (next_from (counter + 1) count count s), counter + 1)) in
          both.0
