-- ===== src/Retry/Backoff.antt =====
-- The delays of the exponential backoff, call by call.
use Prim.Native.Nat.{min}
use native.Mathlib.Nat.{pow-suc, pow-le-pow_right}
use go_notification.Prelude.{
  ℕ, zero, suc, ◌+◌, ◌-◌, ◌*◌, ◌^◌, ◌≤◌, ◌<◌, ◌≡◌, refl, sym, ◌∙◌, ap, subst, ◌⊎◌, inl, inr, Bool,
  true, false, ◌||◌, ℤ, pos, ◌+ℤ◌, ◌-ℤ◌, ◌*ℤ◌, wrap64, wrap32, ltb_ℤ, leb_ℤ, ltb, wrap64_of_in,
  wrap32_of_in, arith, Duration, if◌then◌else◌, Bool-cases,
}
use go_notification.Retry.{
  ExponentialBackoff, new_exponential_backoff, allowed, pow2_duration,
  exponential_next_with_retries, exponential_next,
}

-- the strategy after `k` calls of `Next`
unfoldable pub after : (ℤ → Duration) → ℕ → ExponentialBackoff → ExponentialBackoff
after overflow zero e = e
after overflow (suc k) e = (exponential_next overflow (after overflow k e)).1

mul_pos : (a b : ℕ) → pos a *ℤ pos b ≡ pos (a * b)
unfolding ◌*ℤ◌
mul_pos a b = ground arith

sub_one : (k : ℕ) → pos (suc k) -ℤ pos 1 ≡ pos k
unfolding ◌-ℤ◌
sub_one k = ground arith

add_one : (k : ℕ) → pos k +ℤ pos 1 ≡ pos (suc k)
unfolding ◌+ℤ◌
add_one k = ground arith

allowed_mono : (r : ℤ) (k : ℕ) → allowed r (pos k) ≡ false → allowed r (pos (suc k)) ≡ false
unfolding allowed
allowed_mono r k h = ground arith

exponent-lt : (k : ℕ) → 2 ^ k < 2 ^ 62 → k < 62
exponent-lt k h = elim (Bool-cases (ltb k 62)) [
  | inl below ↦ ground arith
  | inr above ↦
      absurd (omega (arith, pow-le-pow_right {n = 2} (omega arith) {i = 62} {j = k} (ground arith)))
]

exact_power :
    (overflow : ℤ → Duration) (i k : ℕ)
    → k < 63
    → i * 2 ^ k < 2 ^ 63
    → wrap64 (pos i *ℤ pow2_duration overflow (pos k)) ≡ pos (i * 2 ^ k)
unfolding pow2_duration
exact_power overflow i k small fits =
    let p : pow2_duration overflow (pos k) ≡ pos (2 ^ k) = ground arith in
    rw (p, mul_pos) (wrap64_of_in (pos (i * 2 ^ k)) (omega arith))

double-power : (i k : ℕ) → i * 2 ^ suc k ≡ i * 2 ^ k + i * 2 ^ k
double-power i k = rw pow-suc (omega arith)

one-le-power : (k : ℕ) → 1 ≤ 2 ^ k
one-le-power k = pow-le-pow_right {n = 2} (omega arith) {i = 0} {j = k} (omega arith)

power-le : (i k : ℕ) → 1 ≤ i → 2 ^ k ≤ i * 2 ^ k
power-le i k h = grind arith

module _ (overflow : ℤ → Duration) (i m : ℕ) (r : ℤ) where
  -- the strategy after `k` calls
  abbrev strategy : ℕ → Bool → ExponentialBackoff
  strategy k reached = record {
    initial_interval = pos i;
    max_interval = pos m;
    max_retries = r;
    retries = pos k;
    max_interval_reached = reached;
  }

  -- Once the maximum is stored, the exact delay is no smaller; before, it does not overflow.
  abbrev State : ℕ → Bool → Type 0
  State k true = m ≤ i * 2 ^ k
  State k false = (i * 2 ^ k < 2 ^ 63) × (k < 63) ⊎ (allowed r (pos (suc k)) ≡ false)

  abbrev delay : ℕ → Duration × Bool
  delay k = if allowed r (pos (suc k)) then (pos (min (i * 2 ^ k) m), true) else (pos 0, false)

  module _ (i_pos : 1 ≤ i) (m_small : m < 2 ^ 62) where
    -- the call with its count written out, and the exact interval where it is computed
    next_eq :
        (k : ℕ) (b : Bool)
        → k < 2 ^ 31 - 1
        → exponential_next overflow (strategy k b) ≡ (
            let interval = wrap64 (pos i *ℤ pow2_duration overflow (pos k)) in
            if allowed r (pos (suc k))
            then (if b
                then ((pos m, true), strategy (suc k) b)
                else if leb_ℤ interval (pos 0) || ltb_ℤ (pos m) interval
                then ((pos m, true), strategy (suc k) true)
                else ((interval, true), strategy (suc k) b))
            else ((pos 0, false), strategy (suc k) b))
    unfolding exponential_next exponential_next_with_retries
    next_eq k b k_small = rw (
      add_one k,
      wrap32_of_in (pos (suc k)) (omega arith) (omega arith),
      sub_one k,
      wrap32_of_in (pos k) (omega arith) (omega arith),
    )

    abbrev Good : ℕ → (Duration × Bool) × ExponentialBackoff → Type 0
    Good k out =
        (out.0 ≡ delay k)
        × (out.1 ≡ strategy (suc k) out.1.max_interval_reached)
        × State (suc k) out.1.max_interval_reached

    granted_case :
        (k : ℕ)
        → k < 2 ^ 31 - 1
        → allowed r (pos (suc k)) ≡ true
        → State k false
        → let interval = wrap64 (pos i *ℤ pow2_duration overflow (pos k)) in
          let out : (Duration × Bool) × ExponentialBackoff =
            if leb_ℤ interval (pos 0) || ltb_ℤ (pos m) interval
            then ((pos m, true), strategy (suc k) true)
            else ((interval, true), strategy (suc k) false) in
          (out.0 ≡ (pos (min (i * 2 ^ k) m), true))
          × (out.1 ≡ strategy (suc k) out.1.max_interval_reached)
          × State (suc k) out.1.max_interval_reached
    granted_case k k_small granted (inr denied) = cc
    granted_case k k_small granted (inl (fits, small)) =
        let p = i * 2 ^ k in
        rw (exact_power overflow i k small fits)
          (elim (Bool-cases (leb_ℤ (pos p) (pos 0) || ltb_ℤ (pos m) (pos p))) [
            | inl over ↦
                let past : m < p = ground (arith, power-le i k i_pos, one-le-power k) in
                rw over (ground arith, refl, omega (arith, double-power i k))
            | inr under ↦
                let within : p ≤ m = ground arith in
                let room : k < 62 = exponent-lt k (omega (arith, power-le i k i_pos)) in
                rw under (ground arith, refl, inl (omega (arith, double-power i k), omega arith))
          ])

    next_lem :
        (k : ℕ) (b : Bool)
        → k < 2 ^ 31 - 1
        → State k b
        → Good k (exponential_next overflow (strategy k b))
    next_lem k true k_small st =
        rw (next_eq k true k_small) (elim (Bool-cases (allowed r (pos (suc k)))) [
          | inl granted ↦ rw granted (ground arith, refl, omega (arith, double-power i k))
          | inr denied ↦ rw denied (refl, refl, omega (arith, double-power i k))
        ])
    next_lem k false k_small st =
        rw (next_eq k false k_small) (elim (Bool-cases (allowed r (pos (suc k)))) [
          | inl granted ↦ rw granted (granted_case k k_small granted st)
          | inr denied ↦ rw denied (refl, refl, inr (allowed_mono r (suc k) denied))
        ])

    after_lem :
        (k : ℕ)
        → i < 2 ^ 63
        → k < 2 ^ 31
        → let e = after overflow k (new_exponential_backoff (pos i) (pos m) r) in
          (e ≡ strategy k e.max_interval_reached) × State k e.max_interval_reached
    unfolding after new_exponential_backoff
    after_lem zero i_small small = (refl, inl (omega arith, omega arith))
    after_lem (suc k) i_small small =
        let (e, st) = after_lem k i_small (omega arith) in
        let (_, shape, st') = good_of e (next_lem k _ (omega arith) st) in (shape, st')
      where
        before : ExponentialBackoff
        before = after overflow k (new_exponential_backoff (pos i) (pos m) r)

        good_of :
            before ≡ strategy k before.max_interval_reached
            → Good k (exponential_next overflow (strategy k before.max_interval_reached))
            → Good k (exponential_next overflow before)
        good_of e g = subst (λ s. Good k (exponential_next overflow s)) (sym e) g

-- The delays of a new strategy, call by call: with a positive initial interval `i` and a maximum `m`
-- below 2 ^ 62 ns, call number k + 1 of `Next` gives the exact min (i * 2 ^ k) m while the count is
-- allowed, and no retry after that. No power or product overflows on the way.
exponential_next-after :
    (overflow : ℤ → Duration) (i m : ℕ) (r : ℤ) (k : ℕ)
    → 1 ≤ i
    → i < 2 ^ 63
    → m < 2 ^ 62
    → k < 2 ^ 31 - 1
    → (exponential_next overflow (after overflow k (new_exponential_backoff (pos i) (pos m) r))).0
      ≡ (if allowed r (pos (suc k)) then (pos (min (i * 2 ^ k) m), true) else (pos 0, false))
exponential_next-after overflow i m r k i_pos i_small m_small k_small =
    let (e, st) = after_lem overflow i m r i_pos m_small k i_small (omega arith) in
    ap (λ s. (exponential_next overflow s).0) e
    ∙ (next_lem overflow i m r i_pos m_small k _ k_small st).0

power-minus-one :
    (overflow : ℤ → Duration) → pow2_duration overflow (wrap32 (pos 0 -ℤ pos 1)) ≡ pos 0
unfolding pow2_duration wrap32 ◌-ℤ◌
power-minus-one overflow = refl

mul-zero_interval : (a : ℤ) → a *ℤ pos 0 ≡ pos 0
unfolding ◌*ℤ◌
mul-zero_interval a = ground arith

allowed_zero : (r : ℤ) → allowed r (pos 0) ≡ true
unfolding allowed
allowed_zero r = ground arith

-- A strategy made anew and asked for retry number 0 gives the longest delay and grants the retry:
-- 2 ^ -1 is truncated to 0, which the overflow test takes for an overflow.
exponential_next_with_retries_zero :
    (overflow : ℤ → Duration) (initial max_interval : Duration) (max_retries : ℤ)
    → let e = new_exponential_backoff initial max_interval max_retries in
      (exponential_next_with_retries overflow e (pos 0)).0 ≡ (max_interval, true)
unfolding new_exponential_backoff exponential_next_with_retries
exponential_next_with_retries_zero overflow initial max_interval max_retries = rw (
  power-minus-one overflow,
  mul-zero_interval initial,
  wrap64_of_in (pos 0) (omega arith),
  allowed_zero max_retries,
)
