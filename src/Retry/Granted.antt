-- ===== src/Retry/Granted.antt =====
-- Which retries the strategies of internal/pkg/retry grant.
use go_notification.Prelude.{
  ℕ, ◌<◌, ◌≡◌, refl, ◌∙◌, inl, inr, leb, ℤ, pos, Duration, Bool-cases, arith,
}
use go_notification.Retry.{
  FixedInterval, ExponentialBackoff, Strategy, fixed, exponential, allowed, next_with_retries,
  fixed_next_with_retries, exponential_next_with_retries,
}

abbrev pub max_retries_of : Strategy → ℤ
max_retries_of (fixed f) = f.max_retries
max_retries_of (exponential e) = e.max_retries

fixed_granted :
    (f : FixedInterval) (retries : ℤ)
    → (fixed_next_with_retries f retries).1 ≡ allowed f.max_retries retries
unfolding fixed_next_with_retries
fixed_granted f retries = elim (Bool-cases (allowed f.max_retries retries)) [
  | inl yes' ↦ rw yes' refl
  | inr no' ↦ rw no' refl
]

exponential_granted :
    (overflow : ℤ → Duration) (e : ExponentialBackoff) (retries : ℤ)
    → (exponential_next_with_retries overflow e retries).0.1 ≡ allowed e.max_retries retries
unfolding exponential_next_with_retries
exponential_granted overflow e retries = ground arith

-- with a positive maximum, a retry is granted exactly if its number is at most the maximum
pub granted :
    (overflow : ℤ → Duration) (strategy : Strategy) (max k : ℕ)
    → 0 < max
    → max_retries_of strategy ≡ pos max
    → (next_with_retries overflow strategy (pos k)).1 ≡ leb k max
unfolding next_with_retries allowed
granted overflow (fixed f) max k positive h = fixed_granted f (pos k) ∙ rw h (ground arith)
granted overflow (exponential e) max k positive h =
    exponential_granted overflow e (pos k) ∙ rw h (ground arith)
