-- ===== src/Prelude/Maps.antt =====
-- Go's maps with an int64 for a key, as association lists: the first entry of a key is its value.
use Prim.Native.String.{String}
use text.Mathlib.Text.{◌==◌ as ◌=ˢ◌}
use mathlib.Core.Bool.{Bool, false, ◌||◌}
use mathlib.Core.Path.{◌≡◌, ap}
use mathlib.Core.Logic.{◌⊎◌, inl, inr}
use mathlib.Core.List.{List, [], ◌∷◌}
use mathlib.Core.Option.{Option, none, some}
use go_notification.Prelude.Tests.{if◌then◌else◌, found-cases}
use go_notification.Prelude.Int.{ℤ, eqb_ℤ}

module _ {ℓ} {A : Type ℓ} where
  unfoldable pub find : ℤ → List (ℤ × A) → Option A
  find id [] = none
  find id ((key, a) ∷ rest) = let later = find id rest in if eqb_ℤ key id then some a else later

  -- m[id] = a
  abbrev pub assign : ℤ → A → List (ℤ × A) → List (ℤ × A)
  assign id a m = (id, a) ∷ m

  -- the entries of one map assigned to another
  unfoldable pub assign_all : List (ℤ × A) → List (ℤ × A) → List (ℤ × A)
  assign_all [] m = m
  assign_all ((key, a) ∷ rest) m = assign key a (assign_all rest m)

  -- the slice of the values, in the order in which the map is gone through
  unfoldable pub values : List (ℤ × A) → List A
  values [] = []
  values ((_, a) ∷ rest) = a ∷ values rest

  pub find-assign_all :
      (id : ℤ) (m n : List (ℤ × A)) (a : A)
      → find id (assign_all m n) ≡ some a
      → (find id m ≡ some a) ⊎ (find id n ≡ some a)
  unfolding find assign_all
  find-assign_all id [] n a h = inr h
  find-assign_all id ((key, b) ∷ rest) n a h =
      elim (found-cases (eqb_ℤ key id) b a (find id (assign_all rest n)) h) [
        | inl (same, value) ↦ inl (rw same (ap some value))
        | inr (other, later) ↦ rw other (find-assign_all id rest n a later)
      ]

-- membership in a list of names
abbrev pub has_name : String → List String → Bool
has_name name [] = false
has_name name (n ∷ ns) = (n =ˢ name) || has_name name ns
