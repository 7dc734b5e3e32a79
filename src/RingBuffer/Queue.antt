-- ===== src/RingBuffer/Queue.antt =====
-- The ring buffer against a queue of the last `capacity` samples, oldest first.
use go_notification.Prelude.{
  ℕ, suc, ◌+◌, ◌%◌, ◌≤◌, ◌<◌, ◌≡◌, refl, sym, ap, ap₂, ◌∙◌, ◌⊎◌, inl, inr, false, List, [], ◌∷◌,
  ◌++◌, append-nil, append_assoc, some, ℤ, pos, ◌+ℤ◌, ◌-ℤ◌, wrap64, wrap64-add, wrap64-sub, quot_ℕ,
  int_laws, arith, ◌==◌, if◌then◌else◌, Bool-cases, ==→eq, eq→==, length, get_or, set, take, drop,
  tail, length-set, length-append, length-take, length-drop, drop-set, take-set, drop-eq-cons,
  drop_all, take_all, length-replicate, length-map,
}
use go_notification.RingBuffer.{TimeDurationRingBuffer, new_ring, add, avg, len, clear, add_all}

-- The specification: a queue that forgets its oldest sample when it holds `cap` of them.
pub remember : ℕ → List ℤ → ℤ → List ℤ
remember cap q d = (if length q == cap then tail q else q) ++ (d ∷ [])

pub remember_all : ℕ → List ℤ → List ℤ → List ℤ
unfolding remember
remember_all cap q [] = q
remember_all cap q (d ∷ ds) = remember_all cap (remember cap q d) ds

abbrev pub total : List ℤ → ℤ
total [] = pos 0
total (x ∷ xs) = x +ℤ total xs

-- what the buffer holds, oldest first
abbrev pub contents : TimeDurationRingBuffer → List ℤ
contents r =
    if r.count == r.capacity
    then drop r.index r.buffer ++ take r.index r.buffer
    else take r.index r.buffer

pub record IsValid (r : TimeDurationRingBuffer) : Type 0 where
  pub storage : length r.buffer ≡ r.capacity
  pub index_in : r.index < r.capacity
  pub count_in : r.count ≤ r.capacity
  pub filling : (r.count ≡ r.capacity) ⊎ (r.index ≡ r.count)
  pub summed : r.sum ≡ wrap64 (total (contents r))

total-append : (xs : List ℤ) (d : ℤ) → total (xs ++ (d ∷ [])) ≡ total xs +ℤ d
total-append [] d = omega int_laws
total-append (x ∷ xs) d = rw (total-append xs d) (omega int_laws)

length-split : (i : ℕ) (b : List ℤ) → i ≤ length b → length (drop i b ++ take i b) ≡ length b
length-split i b h =
    omega (arith, length-append (drop i b) (take i b), length-drop i b, length-take i b h)

length-contents : {r : TimeDurationRingBuffer} → IsValid r → length (contents r) ≡ r.count
length-contents {r} v = elim (Bool-cases (r.count == r.capacity)) [
  | inl full ↦
      rw full (ground (arith, length-split r.index r.buffer, ==→eq r.count r.capacity full))
  | inr room ↦ rw room (ground (arith, length-take r.index r.buffer))
]

suc-mod : (i cap : ℕ) → suc i < cap → (i + 1) % cap ≡ suc i
suc-mod i cap h = grind arith

-- Going round at the end of the storage is the same as not going round.
split-mod :
    (i cap : ℕ) (b : List ℤ)
    → length b ≡ cap
    → i < cap
    → drop ((i + 1) % cap) b ++ take ((i + 1) % cap) b ≡ drop (suc i) b ++ take (suc i) b
split-mod i cap b e h = elim (Bool-cases (suc i == cap)) [
  | inl last ↦
      let p = ==→eq (suc i) cap last in
      let z : (i + 1) % cap ≡ 0 = grind arith in
      rw (z, drop_all (suc i) b (omega arith), take_all (suc i) b (omega arith), append-nil)
  | inr more ↦ let z : (i + 1) % cap ≡ suc i = grind arith in rw z
]

-- One step of the buffer on what it holds.
contents-add :
    (r : TimeDurationRingBuffer) (d : ℤ)
    → IsValid r
    → contents (add r d) ≡ remember r.capacity (contents r) d
unfolding add remember
contents-add r d v = elim (Bool-cases (count == capacity)) [
  | inl full ↦ simp full (
      ground (
        arith,
        length-split index buffer,
        split-mod index capacity (set buffer index d) (length-set buffer index d ∙ v.storage)
            v.index_in,
        drop-set index buffer d,
        take-set index buffer d,
        drop-eq-cons index buffer (pos 0),
        append_assoc (drop (suc index) buffer) (take index buffer) (d ∷ []),
      ))
  | inr room ↦ simp room (
      ground (
        arith,
        length-take index buffer,
        suc-mod index capacity,
        split-mod index capacity (set buffer index d) (length-set buffer index d ∙ v.storage)
            v.index_in,
        drop_all (suc index) (set buffer index d),
        length-set buffer index d,
        take-set index buffer d,
      ))
]
  where
    open r use {buffer, capacity, index, count}

abbrev forgets : TimeDurationRingBuffer → ℤ
forgets r = get_or r.buffer r.index (pos 0)

contents_full :
    (r : TimeDurationRingBuffer)
    → IsValid r
    → r.count ≡ r.capacity
    → contents r ≡ forgets r ∷ (drop (suc r.index) r.buffer ++ take r.index r.buffer)
contents_full r v full =
    rw (eq→== r.count r.capacity full)
      (ap (λ l. l ++ take r.index r.buffer) (drop-eq-cons r.index r.buffer (pos 0) (omega arith)))

total-remember_full :
    (cap : ℕ) (q : List ℤ) (x : ℤ) (rest : List ℤ) (d : ℤ)
    → q ≡ x ∷ rest
    → length q ≡ cap
    → total (remember cap q d) ≡ total q -ℤ x +ℤ d
unfolding remember
total-remember_full cap q x rest d e h =
    rw (eq→== (length q) cap h, total-append, e) (omega int_laws)

total-remember_room :
    (cap : ℕ) (q : List ℤ) (d : ℤ) → length q < cap → total (remember cap q d) ≡ total q +ℤ d
unfolding remember
total-remember_room cap q d h =
    rw (let t : (length q == cap) ≡ false = ground arith in t, total-append)

-- The sum after a step, when the buffer is full and when it is not.
sum-add :
    (r : TimeDurationRingBuffer) (d : ℤ)
    → IsValid r
    → (add r d).sum ≡ wrap64 (total (remember r.capacity (contents r) d))
unfolding add
sum-add r d v = elim (Bool-cases (r.count == r.capacity)) [
  | inl full ↦
      let e = ==→eq r.count r.capacity full in
      rw (
        total-remember_full r.capacity (contents r) (forgets r) _ d (contents_full r v e)
            (length-contents v ∙ e),
        full,
        v.summed,
        wrap64-sub,
        wrap64-add,
        full,
      )
  | inr room ↦ rw (
    total-remember_room r.capacity (contents r) d
        (rw (length-contents v) (ground (arith, v.count_in))),
    room,
    v.summed,
    wrap64-add,
    room,
  )
]

pub add-IsValid : (r : TimeDurationRingBuffer) (d : ℤ) → IsValid r → IsValid (add r d)
add-IsValid r d v = record {
  storage = unfold add in length-set r.buffer r.index d ∙ v.storage;
  index_in = unfold add in grind arith;
  count_in = unfold add in ground arith;
  filling = unfold add in ground (arith, suc-mod r.index r.capacity);
  summed = sum-add r d v ∙ ap wrap64 (ap total (sym (contents-add r d v)));
}

contents-new :
    (n : ℕ) {r : TimeDurationRingBuffer}
    → new_ring (pos n) ≡ some r
    → IsValid r × (contents r ≡ []) × (r.capacity ≡ n)
unfolding new_ring wrap64
contents-new n h = ground (arith, length-replicate n (pos 0))

add_all_lem :
    (ds : List ℤ) (r : TimeDurationRingBuffer)
    → IsValid r
    → IsValid (add_all r ds) × (contents (add_all r ds) ≡ remember_all r.capacity (contents r) ds)
unfolding add_all remember_all
add_all_lem [] r v = (v, refl)
add_all_lem (d ∷ ds) r v =
    let (v', e) = add_all_lem ds (add r d) (add-IsValid r d v) in
    (v', e ∙ (rw (contents-add r d v) (unfold add in refl)))

-- After any history of samples the buffer made for a positive capacity holds the last `capacity`
-- of them, oldest first, reports their number, and keeps their sum as an int64 sum that wraps.
pub add_all_refines :
    (n : ℕ) (ds : List ℤ) {r : TimeDurationRingBuffer}
    → new_ring (pos n) ≡ some r
    → let q = remember_all n [] ds in
      let r' = add_all r ds in (contents r' ≡ q) × (len r' ≡ length q) × (r'.sum ≡ wrap64 (total q))
unfolding len
add_all_refines n ds {r} h =
    let (v, empty, cap) = contents-new n h in
    let (v', held) = add_all_lem ds r v in
    let e : contents (add_all r ds) ≡ remember_all n [] ds =
      held ∙ ap₂ (λ c q. remember_all c q ds) cap empty in
    (e, sym (length-contents v') ∙ ap length e, v'.summed ∙ ap (λ q. wrap64 (total q)) e)

-- The average after any history is the truncated quotient of the wrapped sum of the last `capacity`
-- samples by their number, and 0 before the first sample.
avg-add_all :
    (n : ℕ) (ds : List ℤ) {r : TimeDurationRingBuffer}
    → new_ring (pos n) ≡ some r
    → let q = remember_all n [] ds in
      avg (add_all r ds) ≡ (if length q == 0 then pos 0 else quot_ℕ (wrap64 (total q)) (length q))
unfolding avg len
avg-add_all n ds h = let (_, count, sum) = add_all_refines n ds h in rw (count, sum)

-- Clearing a valid buffer leaves it valid and empty, with its capacity.
pub clear-IsValid :
    (r : TimeDurationRingBuffer)
    → IsValid r
    → IsValid (clear r) × (contents (clear r) ≡ []) × ((clear r).capacity ≡ r.capacity)
unfolding clear wrap64
clear-IsValid r v = ground (arith, length-map (λ _. pos 0) r.buffer)
