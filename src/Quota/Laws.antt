-- ===== src/Quota/Laws.antt =====
-- What a counter allows, and what the monthly reset comes to.
use go_notification.Prelude.{
  ◌≡◌, ◌↔◌, refl, ap, [], ℕ, suc, some, ℤ, pos, ◌-ℤ◌, ◌<ℤ◌, leb_ℤ, -ℤ_parts, arith, if◌then◌else◌,
}
use go_notification.Errs.{Result, ok, err}
use go_notification.Domain.Notification.{Channel}
use go_notification.Quota.Counters.{QuotaCommands, QuotaKey, key, decr, quota_less_then_zero}
use go_notification.Quota.Reset.{ResetServices, one_loop, start_from, start, reset_each}

granted :
    (a b : ℤ)
    → (◌≡◌ {A = Result (Unit {0})}
        (if leb_ℤ (a -ℤ b) (pos 0) then err quota_less_then_zero else ok tt)
        (ok tt))
      ↔ (b <ℤ a)
granted a b = (λ h. ground (arith, -ℤ_parts a b), λ h. ground (arith, -ℤ_parts a b))

module _ {ℓ} {S : Type ℓ} (q : QuotaCommands S) (counter : S → QuotaKey → ℤ) where
  -- If DECRBY takes a number from a counter and answers with what is left, then a request for quota is
  -- granted exactly if some quota is left over, and what it asks for is taken in either case: the last
  -- of a quota is taken, and refused.
  pub decr-counter :
      (biz_id : ℤ) (channel : Channel) (n : ℤ) (s : S)
      → ((q.decr_by (key biz_id channel) n s).0 ≡ ok (counter s (key biz_id channel) -ℤ n))
      → (counter (q.decr_by (key biz_id channel) n s).1 (key biz_id channel)
          ≡ counter s (key biz_id channel) -ℤ n)
      → (((decr q biz_id channel n s).0 ≡ ok tt) ↔ (n <ℤ counter s (key biz_id channel)))
        × (counter (decr q biz_id channel n s).1 (key biz_id channel)
            ≡ counter s (key biz_id channel) -ℤ n)
  unfolding decr
  decr-counter biz_id channel n s answered taken =
      rw answered (granted (counter s (key biz_id channel)) n, taken)

module _ {ℓ} {S : Type ℓ} (services : ResetServices S) where
  one_loop-nothing :
      (offset : ℤ) (s : S)
      → (services.find_page offset (pos 0) s).0 ≡ ok []
      → one_loop services offset s ≡ (ok (pos 0), (services.find_page offset (pos 0) s).1)
  unfolding one_loop reset_each
  one_loop-nothing offset s empty_page = rw empty_page refl

  -- If a page of no rows is empty, then the reset of a month ends after its first page, and resets
  -- nothing, whatever there is to reset.
  pub start-nothing :
      (fuel : ℕ) (s : S)
      → (services.find_page (pos 0) (pos 0) s).0 ≡ ok []
      → start services (suc fuel) s ≡ some (services.find_page (pos 0) (pos 0) s).1
  unfolding start start_from
  start-nothing fuel s empty_page =
      rw (one_loop-nothing (pos 0) s empty_page, start_from)
        (ap (λ r. some r.1) (one_loop-nothing (pos 0) s empty_page))
