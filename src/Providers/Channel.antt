-- ===== src/Providers/Channel.antt =====
-- internal/service/provider/sequential and internal/service/channel: the channel that tries the
-- providers of a selector until one succeeds.
use go_notification.Prelude.{
  ℕ, zero, suc, ◌≡◌, refl, ◌∙◌, false, List, [], ◌∷◌, length, get_elem?, Option, none, some, arith,
  ◌==◌, if◌then◌else◌,
}
use go_notification.Errs.{Err, Result, ok, err, Sentinel}
use go_notification.Effect.{Effect}
use go_notification.Domain.Notification.{Notification, Channel}
use go_notification.Api.Convert.{SendResponse}

abbrev pub Provider {ℓ} : Type ℓ → Type ℓ
Provider S = Notification → Effect S SendResponse

-- the sequential selector
pub record Selector {ℓ} (S : Type ℓ) : Type ℓ where
  pub idx : ℕ
  pub providers : List (Provider S)

-- Next has a value receiver: the increased index is lost with the copy, and the selector stays as it
-- was. An index beyond the list panics: `none`.
unfoldable pub next {ℓ} : {S : Type ℓ} → Selector S → Option (Result (Provider S)) × Selector S
next s =
    if length s.providers == s.idx
    then (some (err (Sentinel.no_available_provider ∷ [])), s)
    else (elim (get_elem? s.providers s.idx) [ none ↦ none | some p ↦ some (ok p) ], s)

unfoldable pub build {ℓ} : {S : Type ℓ} → List (Provider S) → Selector S
build providers = record { idx = 0; providers = providers }

module _ {ℓ} {S : Type ℓ} where
  -- what a round of the loop of baseChannel.Send does with what Next gave; `again` is the next round
  unfoldable pub round :
      Option (Result (Provider S))
      → Notification
      → S
      → (S → Option (Result SendResponse × S))
      → Option (Result SendResponse × S)
  round none n s again = none
  round (some (err e)) n s again = some (err (Sentinel.send_notification_failed ∷ e), s)
  round (some (ok p)) n s again =
      let (res, s') = p n s in elim res [ ok r ↦ some (ok r, s') | err _ ↦ again s' ]

  -- The loop of baseChannel.Send on fuel; `none` is no result within it, or a panic.
  unfoldable pub send_loop : ℕ → Selector S → Notification → S → Option (Result SendResponse × S)
  unfolding next round
  send_loop zero selector n s = none
  send_loop (suc fuel) selector n s =
      let (chosen, selector') = next selector in
      round chosen n s (λ s'. send_loop fuel selector' n s')

  unfoldable pub base_channel_send :
      ℕ → List (Provider S) → Notification → S → Option (Result SendResponse × S)
  unfolding build send_loop
  base_channel_send fuel providers n s = send_loop fuel (build providers) n s

  round-failed :
      (p : Provider S) (n : Notification) (s : S) (again : S → Option (Result SendResponse × S))
      (e : Err)
      → (p n s).0 ≡ err e
      → round (some (ok p)) n s again ≡ again (p n s).1
  unfolding round
  round-failed p n s again e h = rw (round, h) refl

  next-build :
      (p : Provider S) (others : List (Provider S))
      → next (build (p ∷ others)) ≡ (some (ok p), build (p ∷ others))
  unfolding next build
  next-build p others = ground (arith, not_empty)
    where
      not_empty : (suc (length others) == 0) ≡ false
      not_empty = ground arith

  -- A channel whose first provider fails, in every state, never returns, however many rounds it
  -- makes and whatever the other providers would do.
  pub base_channel_send-stuck :
      (fuel : ℕ) (p : Provider S) (others : List (Provider S)) (n : Notification) (s : S)
      → ((s : S) → (e : Err) × ((p n s).0 ≡ err e))
      → base_channel_send fuel (p ∷ others) n s ≡ none
  unfolding base_channel_send send_loop
  base_channel_send-stuck zero p others n s fails = refl
  base_channel_send-stuck (suc fuel) p others n s fails = rw (next-build p others) (
      round-failed p n s (λ x. send_loop fuel (build (p ∷ others)) n x) (fails s).0 (fails s).1
      ∙ base_channel_send-stuck fuel p others n (p n s).1 fails)

-- the entry of a notification's channel in the dispatcher's map, with the keys compared as the code
-- compares them
unfoldable pub dispatch {ℓ} :
    {S : Type ℓ} → (Channel → Option (Provider S)) → Notification → Effect S SendResponse
dispatch channels n s = elim (channels n.channel) [
  | none ↦ (err (Sentinel.no_available_channel ∷ []), s)
  | some send ↦ send n s
]
