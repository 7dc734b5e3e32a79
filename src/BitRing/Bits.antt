-- ===== src/BitRing/Bits.antt =====
-- Reading and writing one bit of a vector of words.
use go_notification.Prelude.{
  ℕ, zero, suc, ◌*◌, ◌/◌, ◌%◌, ◌<◌, ◌≡◌, refl, ◌∙◌, ◌≢◌, ◌⊎◌, inl, inr, Bool, List, [], ◌∷◌, arith,
  length, get_or, set, length-set, get_or-set_self, get_or-set_ne, replicate, get_or-replicate,
  false,
}
use go_notification.BitRing.{bits_per_word, zero_word, bit_at, set_bit}

-- every word has 64 bits
abbrev pub AllWords : List (List Bool) → Type 0
AllWords ws = (k : ℕ) → length (get_or ws k zero_word) ≡ bits_per_word

zero_word-length : length zero_word ≡ bits_per_word
unfolding zero_word
zero_word-length = refl

pub AllWords-replicate : (n : ℕ) → AllWords (replicate n zero_word)
AllWords-replicate zero k = zero_word-length
AllWords-replicate (suc n) zero = zero_word-length
AllWords-replicate (suc n) (suc k) = AllWords-replicate n k

pub bit_at-replicate : (n i : ℕ) → bit_at (replicate n zero_word) i ≡ false
unfolding bit_at zero_word
bit_at-replicate n i =
    rw (get_or-replicate n (i / 64) zero_word) (get_or-replicate 64 (i % 64) false)

-- what a read at word `k` gives after a write at word `i`
get_or-set :
    (ws : List (List Bool)) (i k : ℕ) (w : List Bool)
    → (get_or (set ws i w) k zero_word ≡ get_or ws k zero_word)
      ⊎ ((i ≡ k) × (get_or (set ws i w) k zero_word ≡ w))
get_or-set [] i k w = inl refl
get_or-set (x ∷ ws) zero zero w = inr (refl, refl)
get_or-set (x ∷ ws) zero (suc k) w = inl refl
get_or-set (x ∷ ws) (suc i) zero w = inl refl
get_or-set (x ∷ ws) (suc i) (suc k) w = ground (arith, get_or-set ws i k w)

pub length-set_bit :
    (ws : List (List Bool)) (i : ℕ) (v : Bool) → length (set_bit ws i v) ≡ length ws
unfolding set_bit
length-set_bit ws i v = length-set ws _ _

pub set_bit-AllWords :
    (ws : List (List Bool)) (i : ℕ) (v : Bool) → AllWords ws → AllWords (set_bit ws i v)
unfolding set_bit
set_bit-AllWords ws i v h k =
    elim (get_or-set ws (i / 64) k (set (get_or ws (i / 64) zero_word) (i % 64) v)) [
      | inl e ↦ rw e (h k)
      | inr (_, e) ↦ rw e (length-set _ (i % 64) v ∙ h (i / 64))
    ]

pub bit_at-set_bit_self :
    (ws : List (List Bool)) (i : ℕ) (v : Bool)
    → AllWords ws
    → i < bits_per_word * length ws
    → bit_at (set_bit ws i v) i ≡ v
unfolding bit_at set_bit
bit_at-set_bit_self ws i v h b =
    rw (get_or-set_self ws (i / 64) _ zero_word (omega arith))
      (get_or-set_self _ (i % 64) v false (omega (arith, h (i / 64))))

pub bit_at-set_bit_ne :
    (ws : List (List Bool)) (i j : ℕ) (v : Bool) → i ≢ j → bit_at (set_bit ws i v) j ≡ bit_at ws j
unfolding bit_at set_bit
bit_at-set_bit_ne ws i j v ne =
    elim (get_or-set ws (i / 64) (j / 64) (set (get_or ws (i / 64) zero_word) (i % 64) v)) [
      | inl e ↦ rw e
      | inr (same, e) ↦ rw (e, ← same) (get_or-set_ne _ (i % 64) (j % 64) v false (omega arith))
    ]
