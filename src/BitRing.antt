-- ===== src/BitRing.antt =====
-- internal/pkg/bitring/bitring.go: a sliding window of outcomes kept as bits.
-- A word (an int64) is the list of its 64 bits, lowest first: `(w >> off) & 1` reads the bit at
-- `off`, `w |= 1 << off` sets it and `w &^= 1 << off` clears it. Each method holds the mutex for
-- its whole body.
pub mod Bits
pub mod History
mod Tests
use go_notification.Prelude.{
  ℕ, zero, suc, ◌+◌, ◌-◌, ◌/◌, ◌%◌, Bool, true, false, ◌&&◌, List, ℤ, pos, leb_ℤ, ltb_ℤ, pos_part,
  leb, ◌==◌, if◌then◌else◌, get_or, set, replicate, Float64,
}

pub record BitRing (F : Type 0) : Type 0 where
  pub words : List (List Bool)
  pub size : ℕ
  pub pos : ℕ
  pub filled : Bool
  pub event_count : ℕ
  pub threshold : F
  pub consecutive : ℕ

abbrev pub bits_per_word : ℕ
bits_per_word = 64

-- shut, so that a goal does not show its 64 bits
pub zero_word : List Bool
zero_word = replicate bits_per_word false

pub bit_at : List (List Bool) → ℕ → Bool
bit_at words idx = get_or (get_or words (idx / bits_per_word) zero_word) (idx % bits_per_word) false

pub set_bit : List (List Bool) → ℕ → Bool → List (List Bool)
set_bit words idx val =
    set words (idx / bits_per_word)
      (set (get_or words (idx / bits_per_word) zero_word) (idx % bits_per_word) val)

module _ {F : Type 0} ⦃fl : Float64 F⦄ where
  -- `size` and `consecutive` are Go ints, and fall back to 128 and 3 when they are not positive.
  unfoldable pub new_bit_ring : ℤ → F → ℤ → BitRing F
  new_bit_ring size threshold consecutive =
      let size' : ℕ = if leb_ℤ size (pos 0) then 128 else pos_part size in
      let wanted : ℕ = if leb_ℤ consecutive (pos 0) then 3 else pos_part consecutive in
      record {
        words = replicate ((size' + (bits_per_word - 1)) / bits_per_word) zero_word;
        size = size';
        pos = 0;
        filled = false;
        event_count = 0;
        threshold =
            if fl.less threshold (fl.of_int 0)
            then fl.of_int 0
            else if fl.less (fl.of_int 1) threshold
            then fl.of_int 1
            else threshold;
        consecutive = if leb wanted size' then wanted else size';
      }

module _ {F : Type 0} where
  -- `eventCount--` runs only where the old bit was counted (`History.Tracks` shows it).
  pub add : BitRing F → Bool → BitRing F
  add br event_happened =
      let old_bit = bit_at br.words br.pos in
      let kept = if br.filled && old_bit then br.event_count - 1 else br.event_count in
      let wraps = br.pos + 1 == br.size in
      record br {
        words = set_bit br.words br.pos event_happened;
        event_count = if event_happened then kept + 1 else kept;
        pos = if wraps then 0 else br.pos + 1;
        filled = if wraps then true else br.filled;
      }

  pub window_size : BitRing F → ℕ
  window_size br = if br.filled then br.size else br.pos

  -- the loop over `i` from `consecutive - rounds + 1` on: no bit may be clear
  pub all_events : BitRing F → ℕ → ℕ → Bool
  all_events br zero i = true
  all_events br (suc rounds) i =
      let rest = all_events br rounds (i + 1) in
      if bit_at br.words ((br.pos + br.size - i) % br.size) then rest else false

module _ {F : Type 0} ⦃fl : Float64 F⦄ where
  pub is_condition_met : BitRing F → Bool
  is_condition_met br =
      let window = window_size br in
      if window == 0
      then false
      else if leb br.consecutive window && all_events br br.consecutive 1
      then true
      else fl.less br.threshold (fl.quotient (fl.of_int br.event_count) (fl.of_int window))
