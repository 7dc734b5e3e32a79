-- ===== src/Prelude/Int.antt =====
-- Signed integers over the native numbers, Go's truncated division, and the wrap of an int64.
use Prim.Native.Nat.{ℕ, suc, ◌+◌, ◌-◌, ◌*◌, ◌/◌, ◌%◌, ◌^◌, ◌≤◌, ◌<◌}
use mathlib.Core.Path.{◌≡◌, refl, ap}
use mathlib.Core.Logic.{◌⊎◌, inl, inr}
use mathlib.Core.Bool.{Bool, true, ◌&&◌}
use native.Mathlib.Omega.{arith}
use go_notification.Prelude.Tests.{ltb, leb, ◌==◌, if◌then◌else◌}

-- `negsuc n` is -(n + 1).
pub data ℤ : Type 0 where
  pos : ℕ → ℤ
  negsuc : ℕ → ℤ

abbrev pub pos_part : ℤ → ℕ
pos_part (pos n) = n
pos_part (negsuc n) = 0

abbrev pub neg_part : ℤ → ℕ
neg_part (pos n) = 0
neg_part (negsuc n) = suc n

-- a - b, as an integer.
abbrev pub sub_ℕ : ℕ → ℕ → ℤ
sub_ℕ a b = if leb b a then pos (a - b) else negsuc (b - a - 1)

infixl 65 ◌+ℤ◌ ◌-ℤ◌
unfoldable pub ◌+ℤ◌ : ℤ → ℤ → ℤ
a +ℤ b = sub_ℕ (pos_part a + pos_part b) (neg_part a + neg_part b)

unfoldable pub ◌-ℤ◌ : ℤ → ℤ → ℤ
a -ℤ b = sub_ℕ (pos_part a + neg_part b) (neg_part a + pos_part b)

infixl 70 ◌*ℤ◌
unfoldable pub ◌*ℤ◌ : ℤ → ℤ → ℤ
a *ℤ b =
    sub_ℕ (pos_part a * pos_part b + neg_part a * neg_part b)
      (pos_part a * neg_part b + neg_part a * pos_part b)

infix 50 ◌≤ℤ◌ ◌<ℤ◌
abbrev pub ◌≤ℤ◌ : ℤ → ℤ → Type 0
a ≤ℤ b = pos_part a + neg_part b ≤ pos_part b + neg_part a

abbrev pub ◌<ℤ◌ : ℤ → ℤ → Type 0
a <ℤ b = pos_part a + neg_part b < pos_part b + neg_part a

abbrev pub ltb_ℤ : ℤ → ℤ → Bool
ltb_ℤ a b = ltb (pos_part a + neg_part b) (pos_part b + neg_part a)

abbrev pub leb_ℤ : ℤ → ℤ → Bool
leb_ℤ a b = leb (pos_part a + neg_part b) (pos_part b + neg_part a)

abbrev pub eqb_ℤ : ℤ → ℤ → Bool
eqb_ℤ a b = pos_part a == pos_part b && neg_part a == neg_part b

-- Go's `min` and `max`
abbrev pub min_ℤ : ℤ → ℤ → ℤ
min_ℤ a b = if ltb_ℤ b a then b else a

abbrev pub max_ℤ : ℤ → ℤ → ℤ
max_ℤ a b = if ltb_ℤ a b then b else a

-- Go's `/` by a positive number, which truncates toward zero
abbrev pub quot_ℕ : ℤ → ℕ → ℤ
quot_ℕ (pos n) k = pos (n / k)
quot_ℕ (negsuc n) k = sub_ℕ 0 (suc n / k)

-- the bit pattern of an int64
unfoldable pub residue : ℤ → ℕ
residue (pos n) = n % 2 ^ 64
residue (negsuc n) = 2 ^ 64 - 1 - n % 2 ^ 64

unfoldable pub of_residue : ℕ → ℤ
of_residue r = if ltb r (2 ^ 63) then pos r else negsuc (2 ^ 64 - 1 - r)

-- what an int64 holds after an operation whose exact result is the argument
unfoldable pub wrap64 : ℤ → ℤ
unfolding residue of_residue
wrap64 a = of_residue (residue a)

abbrev pub InInt64 : ℤ → Type 0
InInt64 a = (pos_part a < 2 ^ 63) × (neg_part a ≤ 2 ^ 63)

pub +ℤ_parts :
    (a b : ℤ)
    → pos_part (a +ℤ b) + neg_part a + neg_part b ≡ neg_part (a +ℤ b) + pos_part a + pos_part b
unfolding ◌+ℤ◌
+ℤ_parts a b = ground arith

pub -ℤ_parts :
    (a b : ℤ)
    → pos_part (a -ℤ b) + neg_part a + pos_part b ≡ neg_part (a -ℤ b) + pos_part a + neg_part b
unfolding ◌-ℤ◌
-ℤ_parts a b = ground arith

pub pos-add : (a b : ℕ) → pos a +ℤ pos b ≡ pos (a + b)
unfolding ◌+ℤ◌
pos-add a b = ground arith

pub eq_of_parts : (a b : ℤ) → pos_part a + neg_part b ≡ pos_part b + neg_part a → a ≡ b
eq_of_parts a b h = ground arith

pub ruleset int_laws = (arith, +ℤ_parts, -ℤ_parts, eq_of_parts)

pub wrap64_of_in : (a : ℤ) → InInt64 a → wrap64 a ≡ a
unfolding wrap64
wrap64_of_in a h = ground arith

pub wrap64_bounds : (a : ℤ) → InInt64 (wrap64 a)
unfolding wrap64
wrap64_bounds a = ground arith

-- `residue` in terms of the parts, for arithmetic that leaves it shut
residue_parts : (a : ℤ) → residue a ≡ (pos_part a + (2 ^ 64 - neg_part a % 2 ^ 64)) % 2 ^ 64
unfolding residue
residue_parts (pos n) = omega arith
residue_parts (negsuc n) = omega arith

pub residue-add : (a b : ℤ) → residue (a +ℤ b) ≡ (residue a + residue b) % 2 ^ 64
residue-add a b =
    omega (arith, residue_parts a, residue_parts b, residue_parts (a +ℤ b), +ℤ_parts a b)

pub residue-sub : (a b : ℤ) → residue (a -ℤ b) ≡ (residue a + (2 ^ 64 - residue b)) % 2 ^ 64
residue-sub a b =
    omega (arith, residue_parts a, residue_parts b, residue_parts (a -ℤ b), -ℤ_parts a b)

pub residue-wrap64 : (a : ℤ) → residue (wrap64 a) ≡ residue a
unfolding wrap64
residue-wrap64 a = ground arith

-- int64 arithmetic may wrap at every step or once at the end.
pub wrap64_of_residue : (a b : ℤ) → residue a ≡ residue b → wrap64 a ≡ wrap64 b
unfolding wrap64
wrap64_of_residue a b h = ap of_residue h

pub wrap64-add : (a b : ℤ) → wrap64 (wrap64 a +ℤ b) ≡ wrap64 (a +ℤ b)
wrap64-add a b = wrap64_of_residue (wrap64 a +ℤ b) (a +ℤ b) (simp (residue-add, residue-wrap64))

pub wrap64-sub : (a b : ℤ) → wrap64 (wrap64 a -ℤ b) ≡ wrap64 (a -ℤ b)
wrap64-sub a b = wrap64_of_residue (wrap64 a -ℤ b) (a -ℤ b) (simp (residue-sub, residue-wrap64))

pub parts_exclusive : (a : ℤ) → (pos_part a ≡ 0) ⊎ (neg_part a ≡ 0)
parts_exclusive (pos n) = inr refl
parts_exclusive (negsuc n) = inl refl

pub eqb_ℤ→eq : (a b : ℤ) → eqb_ℤ a b ≡ true → a ≡ b
eqb_ℤ→eq a b h = ground arith

-- what an int32 holds after an operation whose exact result is the argument
unfoldable pub wrap32 : ℤ → ℤ
wrap32 (pos n) = let r = n % 2 ^ 32 in if ltb r (2 ^ 31) then pos r else negsuc (2 ^ 32 - 1 - r)
wrap32 (negsuc n) =
    let r = 2 ^ 32 - 1 - n % 2 ^ 32 in if ltb r (2 ^ 31) then pos r else negsuc (2 ^ 32 - 1 - r)

pub wrap32_of_in : (a : ℤ) → pos_part a < 2 ^ 31 → neg_part a ≤ 2 ^ 31 → wrap32 a ≡ a
unfolding wrap32
wrap32_of_in (pos n) h k = ground arith
wrap32_of_in (negsuc n) h k = ground arith

pub residue-lt : (a : ℤ) → residue a < 2 ^ 64
unfolding residue
residue-lt a = ground arith
