-- ===== src/BitRing/History.antt =====
-- The bit ring against the plain history of outcomes, most recent first.
use go_notification.Prelude.{
  ℕ, zero, suc, ◌+◌, ◌-◌, ◌*◌, ◌/◌, ◌%◌, ◌≤◌, ◌<◌, ◌≡◌, refl, sym, ap, ◌∙◌, subst, ◌≢◌, ◌⊎◌, inl,
  inr, Bool, true, false, ◌&&◌, List, [], ◌∷◌, ℤ, arith, ltb, leb, ◌==◌, if◌then◌else◌, Bool-cases,
  length, get_or, take, drop, length-replicate, take_all, length-take, drop-eq-cons, replicate,
  Float64,
}
use native.Mathlib.Nat.{mod-eq_of_lt, mod-eq-sub-mod}
use go_notification.BitRing.{
  BitRing, bits_per_word, zero_word, bit_at, set_bit, new_bit_ring, add, window_size, all_events,
  is_condition_met,
}
use go_notification.BitRing.Bits.{
  AllWords, AllWords-replicate, length-set_bit, set_bit-AllWords, bit_at-set_bit_self,
  bit_at-set_bit_ne,
}

abbrev pub bit : Bool → ℕ
bit true = 1
bit false = 0

abbrev pub trues : List Bool → ℕ
trues [] = 0
trues (b ∷ bs) = bit b + trues bs

abbrev pub all_true : List Bool → Bool
all_true [] = true
all_true (b ∷ bs) = if b then all_true bs else false

trues-take-suc :
    (n : ℕ) (h : List Bool) → trues (take (suc n) h) ≡ trues (take n h) + bit (get_or h n false)
trues-take-suc zero [] = refl
trues-take-suc zero (b ∷ h) = omega arith
trues-take-suc (suc n) [] = refl
trues-take-suc (suc n) (b ∷ h) = omega (arith, trues-take-suc n h)

trues-take_cons :
    (n : ℕ) (b : Bool) (h : List Bool)
    → 0 < n
    → trues (take n (b ∷ h)) ≡ bit b + trues (take (n - 1) h)
trues-take_cons zero b h p = elim p [ ]
trues-take_cons (suc n) b h p = ap (λ k. bit b + trues (take k h)) (omega arith)

trues-take_last :
    (n : ℕ) (h : List Bool)
    → 0 < n
    → trues (take n h) ≡ trues (take (n - 1) h) + bit (get_or h (n - 1) false)
trues-take_last zero h p = elim p [ ]
trues-take_last (suc n) h p =
    trues-take-suc n h ∙ ap (λ k. trues (take k h) + bit (get_or h k false)) (omega arith)

suc-add-one : (i : ℕ) → suc i + 1 ≡ suc (suc i)
suc-add-one i = omega arith

-- the slot of the i-th most recent outcome
abbrev pub slot : ℕ → ℕ → ℕ → ℕ
slot p size i = (p + size - suc i) % size

slot_lem :
    (p size i : ℕ)
    → p < size
    → i < size
    → slot p size i ≡ (if ltb i p then p - suc i else p + size - suc i)
slot_lem p size i hp hi = elim (Bool-cases (ltb i p)) [
  | inl before ↦ rw before (
      ground (
        arith,
        mod-eq-sub-mod {n = p + size - suc i} {m = size},
        mod-eq_of_lt {n = p + size - suc i - size} {m = size},
      ))
  | inr after ↦ rw after (mod-eq_of_lt (ground arith))
]

abbrev advance : ℕ → ℕ → ℕ
advance p size = if p + 1 == size then 0 else p + 1

slot-advance_zero : (p size : ℕ) → p < size → slot (advance p size) size 0 ≡ p
slot-advance_zero p size h = ground (arith, slot_lem (advance p size) size 0)

slot-advance-suc :
    (p size i : ℕ) → p < size → suc i < size → slot (advance p size) size (suc i) ≡ slot p size i
slot-advance-suc p size i h k =
    ground (arith, slot_lem (advance p size) size (suc i), slot_lem p size i)

slot-ne : (p size i : ℕ) → p < size → suc i < size → p ≢ slot p size i
slot-ne p size i h k = ground (arith, slot_lem p size i)

slot_oldest : (p size : ℕ) → p < size → slot p size (size - 1) ≡ p
slot_oldest p size h = ground (arith, slot_lem p size (size - 1))

-- What the ring knows of a history of outcomes `h`.
pub record Tracks {F : Type 0} (h : List Bool) (br : BitRing F) : Type 0 where
  pub pos_in : br.pos < br.size
  pub storage : br.size ≤ bits_per_word * length br.words
  pub words_ok : AllWords br.words
  pub filling :
      ((br.filled ≡ false) × (br.pos ≡ length h)) ⊎ ((br.filled ≡ true) × (br.size ≤ length h))
  pub recent :
      (i : ℕ) → i < window_size br → bit_at br.words (slot br.pos br.size i) ≡ get_or h i false
  pub counted : br.event_count ≡ trues (take (window_size br) h)

module _ {F : Type 0} where
  window_size_lem :
      {h : List Bool} {br : BitRing F}
      → Tracks h br
      → (window_size br ≤ length h) × (window_size br ≤ br.size)
  unfolding window_size
  window_size_lem {h} {br} t = ground (arith, t.filling, t.pos_in)

  add-recent :
      {h : List Bool} {br : BitRing F} (e : Bool) (i : ℕ)
      → Tracks h br
      → i < window_size (add br e)
      → bit_at (add br e).words (slot (add br e).pos br.size i) ≡ get_or (e ∷ h) i false
  unfolding add window_size
  add-recent {h} {br} e zero t lt =
      ap (bit_at (set_bit br.words br.pos e)) (slot-advance_zero br.pos br.size t.pos_in)
      ∙ bit_at-set_bit_self br.words br.pos e t.words_ok (omega (arith, t.pos_in, t.storage))
  add-recent {h} {br} e (suc i) t lt =
      let inside : suc i < br.size = ground (arith, t.filling, t.pos_in) in
      let before : i < window_size br = ground (arith, t.filling, t.pos_in) in
      ap (bit_at (set_bit br.words br.pos e)) (slot-advance-suc br.pos br.size i t.pos_in inside)
      ∙ bit_at-set_bit_ne br.words br.pos (slot br.pos br.size i) e
          (slot-ne br.pos br.size i t.pos_in inside)
      ∙ t.recent i before

  oldest :
      {h : List Bool} {br : BitRing F}
      → Tracks h br
      → br.filled ≡ true
      → bit_at br.words br.pos ≡ get_or h (br.size - 1) false
  unfolding window_size
  oldest {h} {br} t full =
      ap (bit_at br.words) (sym (slot_oldest br.pos br.size t.pos_in))
      ∙ t.recent (br.size - 1) (rw full (omega (arith, t.pos_in)))

  add-counted :
      {h : List Bool} {br : BitRing F} (e : Bool)
      → Tracks h br
      → (add br e).event_count ≡ trues (take (window_size (add br e)) (e ∷ h))
  unfolding add window_size
  add-counted {h} {br} e t = elim t.filling [
    | inl (room, at) ↦ ground (arith, t.counted)
    | inr (full, enough) ↦ ground (
      arith,
      t.counted,
      t.pos_in,
      oldest t full,
      trues-take_cons br.size e h,
      trues-take_last br.size h,
    )
  ]

  pub add-Tracks :
      {h : List Bool} {br : BitRing F} (e : Bool) → Tracks h br → Tracks (e ∷ h) (add br e)
  add-Tracks {h} {br} e t = record {
    pos_in = unfold add in ground (arith, t.pos_in);
    storage = unfold add in omega (arith, t.storage, length-set_bit br.words br.pos e);
    words_ok = unfold add in set_bit-AllWords br.words br.pos e t.words_ok;
    filling = unfold add in ground (arith, t.filling, t.pos_in);
    recent = unfold add in λ i lt. add-recent e i t lt;
    counted = add-counted e t;
  }

  -- the outcomes of a history recorded in order; the history lists the last one first
  unfoldable pub record_all : BitRing F → List Bool → BitRing F
  record_all br [] = br
  record_all br (e ∷ h) = add (record_all br h) e

  pub record_all-Tracks :
      {br : BitRing F} (h : List Bool) → Tracks [] br → Tracks h (record_all br h)
  unfolding record_all
  record_all-Tracks [] t = t
  record_all-Tracks (e ∷ h) t = add-Tracks e (record_all-Tracks h t)

  all_events_lem :
      {h : List Bool} {br : BitRing F} (rounds i : ℕ)
      → Tracks h br
      → rounds + i ≤ window_size br
      → all_events br rounds (suc i) ≡ all_true (take rounds (drop i h))
  unfolding all_events
  all_events_lem zero i t fits = refl
  all_events_lem {h} {br} (suc rounds) i t fits =
      rw
        (
          t.recent i (omega arith),
          drop-eq-cons i h false (omega (arith, window_size_lem t)),
          suc-add-one i,
        )
        (ap (λ b. if get_or h i false then b else false)
          (all_events_lem rounds (suc i) t (omega arith)))

enough_words :
    {A : Type 0} (size : ℕ) (w : A)
    → size ≤ bits_per_word * length (replicate ((size + 63) / bits_per_word) w)
enough_words size w = omega (arith, length-replicate ((size + 63) / bits_per_word) w)

module _ {F : Type 0} where
  window-take :
      {h : List Bool} {br : BitRing F} → Tracks h br → take br.size h ≡ take (window_size br) h
  unfolding window_size
  window-take {h} {br} t = elim t.filling [
    | inl (room, at) ↦ rw (
      room,
      at,
      take_all (length h) h (omega arith),
      take_all br.size h (omega (arith, t.pos_in)),
    )
    | inr (full, _) ↦ rw full
  ]

  record_all_keeps :
      (br : BitRing F) (h : List Bool)
      → ((record_all br h).size ≡ br.size)
        × ((record_all br h).consecutive ≡ br.consecutive)
        × ((record_all br h).threshold ≡ br.threshold)
  unfolding record_all add
  record_all_keeps br [] = (refl, refl, refl)
  record_all_keeps br (e ∷ h) = record_all_keeps br h

module _ {F : Type 0} ⦃fl : Float64 F⦄ where
  -- The specification of the trigger, on the outcomes that the window covers: the last
  -- `consecutive` outcomes are all events, or the rate of events in the window is above the threshold.
  unfoldable pub tripped : ℕ → ℕ → F → List Bool → Bool
  tripped size consecutive threshold h =
      let window = take size h in
      if length window == 0
      then false
      else if leb consecutive (length window) && all_true (take consecutive h)
      then true
      else fl.less threshold (fl.quotient (fl.of_int (trues window)) (fl.of_int (length window)))

  pub new-Tracks :
      (size consecutive : ℤ) (threshold : F) → Tracks [] (new_bit_ring size threshold consecutive)
  unfolding new_bit_ring window_size
  new-Tracks size consecutive threshold = record {
    pos_in = ground arith;
    storage = enough_words _ zero_word;
    words_ok = AllWords-replicate _;
    filling = inl (refl, refl);
    recent = λ i lt. absurd (omega arith);
    counted = refl;
  }

  is_condition_met_of_Tracks :
      {h : List Bool} {br : BitRing F}
      → Tracks h br
      → is_condition_met br ≡ tripped br.size br.consecutive br.threshold h
  unfolding is_condition_met tripped
  is_condition_met_of_Tracks {h} {br} t =
      let w = window_size br in
      rw (window-take t, length-take w h (window_size_lem t).0, ← t.counted)
        (elim (Bool-cases (leb br.consecutive w)) [
          | inl many ↦ rw (
            many,
            let e : all_events br br.consecutive 1 ≡ all_true (take br.consecutive h) =
                  all_events_lem br.consecutive 0 t (ground arith) in
                e,
          )
          | inr few ↦ rw few
        ])

  -- Whatever outcomes a new ring has recorded, it reports the trigger exactly when the history of
  -- outcomes meets the specification, read at the size, run length and threshold of the new ring.
  pub is_condition_met-record_all :
      (size consecutive : ℤ) (threshold : F) (h : List Bool)
      → let br = new_bit_ring size threshold consecutive in
        is_condition_met (record_all br h) ≡ tripped br.size br.consecutive br.threshold h
  is_condition_met-record_all size consecutive threshold h =
      let br = new_bit_ring size threshold consecutive in
      let (a, b, c) = record_all_keeps br h in
      is_condition_met_of_Tracks (record_all-Tracks h (new-Tracks size consecutive threshold))
      ∙ rw (a, b, c)

  -- After any outcomes the number of events that the ring counts is the number of events among the
  -- last `size` outcomes, and the write position stays inside the window.
  event_count-record_all :
      (size consecutive : ℤ) (threshold : F) (h : List Bool)
      → let br = new_bit_ring size threshold consecutive in
        let br' = record_all br h in
        (br'.event_count ≡ trues (take br.size h)) × (br'.pos < br.size)
  event_count-record_all size consecutive threshold h =
      let br = new_bit_ring size threshold consecutive in
      let (a, _, _) = record_all_keeps br h in
      let t = record_all-Tracks h (new-Tracks size consecutive threshold) in
      (
        t.counted ∙ ap trues (sym (window-take t)) ∙ ap (λ s. trues (take s h)) a,
        subst (λ s. (record_all br h).pos < s) a t.pos_in,
      )
