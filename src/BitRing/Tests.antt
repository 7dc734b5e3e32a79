-- ===== src/BitRing/Tests.antt =====
-- Runs of the bit ring, and the theorems about it at concrete inputs. A float64 is a fraction here.
use go_notification.Prelude.{ℕ, ◌*◌, ◌≡◌, refl, Bool, true, false, List, [], ◌∷◌, pos, ltb, Float64}
use go_notification.BitRing.{
  BitRing, zero_word, bit_at, set_bit, new_bit_ring, add, window_size, all_events, is_condition_met,
}
use go_notification.BitRing.History.{record_all, tripped, is_condition_met-record_all}

instance abbrev fractions : Float64 (ℕ × ℕ)
fractions = record {
  of_int = λ n. (n, 1);
  quotient = λ a b. (a.0 * b.1, a.1 * b.0);
  less = λ a b. ltb (a.0 * b.1) (b.0 * a.1);
}

abbrev fresh : BitRing (ℕ × ℕ)
fresh = new_bit_ring (pos 4) (1, 2) (pos 3)

abbrev outcomes : List Bool
outcomes = true ∷ true ∷ true ∷ false ∷ false ∷ []

three_in_a_row : is_condition_met (record_all fresh outcomes) ≡ true
unfolding is_condition_met record_all new_bit_ring add window_size all_events bit_at set_bit
    zero_word
three_in_a_row = refl

half_is_not_above : is_condition_met (record_all fresh (true ∷ false ∷ true ∷ false ∷ [])) ≡ false
unfolding is_condition_met record_all new_bit_ring add window_size all_events bit_at set_bit
    zero_word
half_is_not_above = refl

is_condition_met-record_all_example :
    is_condition_met (record_all fresh outcomes)
    ≡ tripped fresh.size fresh.consecutive fresh.threshold outcomes
is_condition_met-record_all_example = is_condition_met-record_all (pos 4) (pos 3) (1, 2) outcomes
