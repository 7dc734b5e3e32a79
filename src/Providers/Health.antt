-- ===== src/Providers/Health.antt =====
-- internal/service/provider/loadbalancer/mprovider.go: the health of a provider, by a ring of bits.
-- A uint64 is a number below 2^64, and its bit operations are written on the number. A ring has at least
-- one word, as NewSelector makes it.
use go_notification.Prelude.{
  ℕ, zero, suc, ◌+◌, ◌*◌, ◌/◌, ◌%◌, ◌^◌, ◌≤◌, ◌<◌, ◌≡◌, refl, sym, subst, inl, inr, Bool, true,
  false, List, [], ◌∷◌, length, replicate, get_or, set, length-set, length-replicate, ltb, le→ltb,
  ==→eq, ◌==◌, if◌then◌else◌, Bool-cases, arith,
}

pub record Mprovider : Type 0 where
  pub healthy : Bool
  pub ring_buffer : List ℕ
  pub req_count : ℕ
  pub buffer_len : ℕ
  pub bit_cnt : ℕ
  pub fail_threshold : ℕ

-- `tenth n` is `int(float64(n) * 0.1)`
unfoldable pub new_mprovider : (ℕ → ℕ) → ℕ → Mprovider
new_mprovider tenth buffer_len =
    let bit_cnt = (buffer_len * 64) % 2 ^ 64 in
    record {
      healthy = true;
      ring_buffer = replicate buffer_len 0;
      req_count = 0;
      buffer_len = buffer_len;
      bit_cnt = bit_cnt;
      fail_threshold = tenth bit_cnt;
    }

-- `old | (uint64(1) << bit)`: a shift by 64 or more gives 0
unfoldable pub or_bit : ℕ → ℕ → ℕ
or_bit old bit =
    if ltb bit 64 then (if (old / 2 ^ bit) % 2 == 1 then old else old + 2 ^ bit) else old

-- `count & btiMask` with the mask 64
unfoldable pub masked : ℕ → ℕ
masked count = (count / 64 % 2) * 64

-- markFailed and markSuccess, whose bodies are the same
unfoldable pub mark : Mprovider → Mprovider
unfolding or_bit masked
mark m =
    let counted = (m.req_count + 1) % 2 ^ 64 in
    let count = counted % m.bit_cnt in
    let idx = count / 64 in
    record m {
      req_count = counted;
      ring_buffer = set m.ring_buffer idx (or_bit (get_or m.ring_buffer idx 0) (masked count));
    }

abbrev pub mark_failed : Mprovider → Mprovider
mark_failed = mark

abbrev pub mark_success : Mprovider → Mprovider
mark_success = mark

-- `bits.OnesCount64`
unfoldable pub ones : ℕ → ℕ → ℕ
ones zero w = 0
ones (suc k) w = w % 2 + ones k (w / 2)

unfoldable pub count_ones : List ℕ → ℕ
unfolding ones
count_ones [] = 0
count_ones (w ∷ ws) = ones 64 w + count_ones ws

abbrev pub get_failed : Mprovider → ℕ
get_failed m = count_ones m.ring_buffer

-- The state after the provider has answered; the timer that makes it healthy again in a minute is
-- `recover`.
unfoldable pub after_send : Bool → Mprovider → Mprovider
after_send true m = mark_success m
after_send false m =
    let marked = mark_failed m in
    if ltb marked.fail_threshold (get_failed marked)
    then record marked { healthy = false }
    else marked

unfoldable pub recover : Mprovider → Mprovider
recover m = record m { healthy = true; ring_buffer = replicate m.buffer_len 0 }

unfoldable pub after_sends : List Bool → Mprovider → Mprovider
unfolding after_send
after_sends [] m = m
after_sends (succeeded ∷ rest) m = after_sends rest (after_send succeeded m)

-- every word of the ring is 0 or 1
abbrev SmallWords : List ℕ → Type 0
SmallWords [] = Unit
SmallWords (w ∷ ws) = (w ≤ 1) × SmallWords ws

SmallWords-replicate : (n : ℕ) → SmallWords (replicate n 0)
SmallWords-replicate zero = tt
SmallWords-replicate (suc n) = (omega arith, SmallWords-replicate n)

SmallWords-get_or : (ws : List ℕ) (i : ℕ) → SmallWords ws → get_or ws i 0 ≤ 1
SmallWords-get_or [] i h = omega arith
SmallWords-get_or (w ∷ ws) zero (hw, h) = hw
SmallWords-get_or (w ∷ ws) (suc i) (hw, h) = SmallWords-get_or ws i h

SmallWords-set : (ws : List ℕ) (i v : ℕ) → SmallWords ws → v ≤ 1 → SmallWords (set ws i v)
SmallWords-set [] i v h hv = tt
SmallWords-set (w ∷ ws) zero v (hw, h) hv = (hv, h)
SmallWords-set (w ∷ ws) (suc i) v (hw, h) hv = (hw, SmallWords-set ws i v h hv)

or_bit-low : (old : ℕ) → old ≤ 1 → or_bit old 0 ≤ 1
unfolding or_bit
or_bit-low zero h = omega arith
or_bit-low (suc zero) h = omega arith
or_bit-low (suc (suc old)) h = absurd (omega arith)

or_bit-high : (old bit : ℕ) → 64 ≤ bit → or_bit old bit ≡ old
unfolding or_bit
or_bit-high old bit h = rw (le→ltb bit 64 h) refl

-- the bit is bit 0, or none
or_bit-masked : (old count : ℕ) → old ≤ 1 → or_bit old (masked count) ≤ 1
unfolding masked
or_bit-masked old count h = elim (Bool-cases (count / 64 % 2 == 0)) [
  | inl even ↦
      subst (λ b. or_bit old (b * 64) ≤ 1) (sym (==→eq (count / 64 % 2) 0 even)) (or_bit-low old h)
  | inr odd ↦ subst (λ w. w ≤ 1) (sym (or_bit-high old (count / 64 % 2 * 64) (ground arith))) h
]

ones-zero : (k : ℕ) → ones k 0 ≡ 0
unfolding ones
ones-zero zero = refl
ones-zero (suc k) = omega (arith, ones-zero k)

ones-small : (k w : ℕ) → w ≤ 1 → ones k w ≤ 1
unfolding ones
ones-small zero w h = omega arith
ones-small (suc k) zero h = omega (arith, ones-zero k)
ones-small (suc k) (suc zero) h = omega (arith, ones-zero k)
ones-small (suc k) (suc (suc w)) h = absurd (omega arith)

count_ones-small : (ws : List ℕ) → SmallWords ws → count_ones ws ≤ length ws
unfolding count_ones
count_ones-small [] h = omega arith
count_ones-small (w ∷ ws) (hw, h) = omega (arith, count_ones-small ws h, ones-small 64 w hw)

-- a ring that can never reach the threshold
record Sound (m : Mprovider) : Type 0 where
  pub up : m.healthy ≡ true
  pub small : SmallWords m.ring_buffer
  pub enough : length m.ring_buffer ≤ m.fail_threshold

mark-Sound : (m : Mprovider) → Sound m → Sound (mark m)
unfolding mark
mark-Sound m h = record {
  up = h.up;
  small =
      SmallWords-set m.ring_buffer _ _ h.small
        (or_bit-masked _ _ (SmallWords-get_or m.ring_buffer _ h.small));
  enough = subst (λ n. n ≤ m.fail_threshold) (sym (length-set m.ring_buffer _ _)) h.enough;
}

after_send-Sound : (succeeded : Bool) (m : Mprovider) → Sound m → Sound (after_send succeeded m)
unfolding after_send
after_send-Sound true m h = mark-Sound m h
after_send-Sound false m h = rw (below) (mark-Sound m h)
  where
    marked : Sound (mark m)
    marked = mark-Sound m h

    below : ltb (mark m).fail_threshold (get_failed (mark m)) ≡ false
    below =
        le→ltb _ _
          (omega (arith, count_ones-small (mark m).ring_buffer marked.small, marked.enough))

after_sends-Sound : (answers : List Bool) (m : Mprovider) → Sound m → Sound (after_sends answers m)
unfolding after_sends
after_sends-Sound [] m h = h
after_sends-Sound (a ∷ answers) m h =
    after_sends-Sound answers (after_send a m) (after_send-Sound a m h)

-- A new provider is never found unhealthy, however often it fails, if the number of its bits does not
-- wrap and the code's product of that number with 0.1 is not below its tenth, rounded down.
pub after_sends-healthy :
    (tenth : ℕ → ℕ) (buffer_len : ℕ) (answers : List Bool)
    → ((buffer_len * 64) % 2 ^ 64) / 10 ≤ tenth ((buffer_len * 64) % 2 ^ 64)
    → buffer_len * 64 < 2 ^ 64
    → (after_sends answers (new_mprovider tenth buffer_len)).healthy ≡ true
unfolding new_mprovider
after_sends-healthy tenth buffer_len answers tenth_law fits =
    (after_sends-Sound answers (new_mprovider tenth buffer_len) (record {
      up = refl;
      small = SmallWords-replicate buffer_len;
      enough = omega (arith, length-replicate {A = ℕ} buffer_len 0, tenth_law);
    })).up
