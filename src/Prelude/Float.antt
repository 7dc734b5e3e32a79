-- ===== src/Prelude/Float.antt =====
-- Go's float64 arithmetic, as far as the program uses it. antt has no floats: the type and its
-- operations are a parameter of the definitions that compute with them.
use Prim.Native.Nat.{ℕ}
use mathlib.Core.Bool.{Bool}

pub record Float64 (F : Type 0) : Type 0 where
  pub of_int : ℕ → F  -- float64(n)
  pub quotient : F → F → F  -- a / b
  pub less : F → F → Bool  -- a < b
