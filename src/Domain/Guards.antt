-- ===== src/Domain/Guards.antt =====
-- What a chain of early returns decides, shared by the validations of internal/domain.
use Prim.Native.String.{String}
use text.Mathlib.Text.{◌==◌ as ◌=ˢ◌}
use text.Mathlib.TextEquality.{eq_iff}
use go_notification.Prelude.{
  ◌≡◌, ◌≢◌, ◌↔◌, refl, ◌⊎◌, inr, Bool, true, false, not, List, [], ◌∷◌, ℤ, pos, ◌<ℤ◌, leb_ℤ, arith,
}
use go_notification.Errs.{Result, ok, err, guard, ◌>>◌}
use go_notification.Domain.Strategy.{invalid}
use go_notification.Domain.Notification.{is_empty}

-- A guarded computation succeeds if the guard's condition holds and the rest succeeds.
pub guard_iff {ℓ κ} :
    {C : Type ℓ} {R : Type κ} (test : Bool) (rest : Result (Unit {0}))
    → ((test ≡ false) ↔ C)
    → ((rest ≡ ok tt) ↔ R)
    → ((guard test invalid >> rest) ≡ ok tt) ↔ (C × R)
guard_iff true rest test_iff rest_iff = (λ h. ground arith, λ (c, _). ground (arith, test_iff.1 c))
guard_iff false rest test_iff rest_iff =
    (λ h. (test_iff.0 refl, rest_iff.0 h), λ (_, r). rest_iff.1 r)

-- the two outcomes of a validation
abbrev pub Judged : Result (Unit {0}) → Type 0
Judged r = (r ≡ ok tt) ⊎ (r ≡ err invalid)

pub guard-Judged :
    (test : Bool) (rest : Result (Unit {0})) → Judged rest → Judged (guard test invalid >> rest)
guard-Judged true rest h = inr refl
guard-Judged false rest h = h

pub positive_iff : (z : ℤ) → (leb_ℤ z (pos 0) ≡ false) ↔ (pos 0 <ℤ z)
positive_iff z = ground arith

pub filled_iff {ℓ} : {A : Type ℓ} (l : List A) → (is_empty l ≡ false) ↔ (l ≢ [])
filled_iff [] = ground arith
filled_iff (x ∷ l) = ground arith

pub done_iff : (ok (tt {0}) ≡ ok tt) ↔ Unit {0}
done_iff = (λ _. tt, λ _. refl)

pub named_iff : (s : String) → ((s =ˢ "") ≡ false) ↔ (s ≢ "")
named_iff s = ground (arith, eq_iff s "")

pub true_iff : (b : Bool) → (not b ≡ false) ↔ (b ≡ true)
true_iff true = ground arith
true_iff false = ground arith
