-- ===== src/Prelude/Time.antt =====
-- Go's `time`: an instant is the integer of its nanoseconds, the zero `time.Time` being 0; a
-- duration is the integer that its int64 holds, and `Sub` saturates.
use Prim.Native.Nat.{◌^◌, ◌-◌}
use mathlib.Core.Bool.{Bool}
use go_notification.Prelude.Int.{ℤ, pos, negsuc, ◌-ℤ◌, max_ℤ, min_ℤ, eqb_ℤ}

abbrev pub Instant : Type 0
Instant = ℤ

abbrev pub Duration : Type 0
Duration = ℤ

abbrev pub is_zero : Instant → Bool
is_zero t = eqb_ℤ t (pos 0)

abbrev pub saturate : ℤ → Duration
saturate a = max_ℤ (min_ℤ a (pos (2 ^ 63 - 1))) (negsuc (2 ^ 63 - 1))

-- `time.Since(t)` at the clock reading `now`
unfoldable pub since : Instant → Instant → Duration
since now t = saturate (now -ℤ t)
