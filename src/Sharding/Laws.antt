-- ===== src/Sharding/Laws.antt =====
-- IDs can be taken apart again, and routing by ID agrees with routing by key.
use native.Mathlib.Nat.{mod-add-div, add-mul-mod_self_left, add-mul-div_left, mul_assoc}
use go_notification.Prelude.{
  ℕ, zero, suc, ◌+◌, ◌*◌, ◌/◌, ◌%◌, ◌^◌, ◌<◌, ◌≡◌, ◌≢◌, refl, sym, ap, ◌∙◌, ◌||◌, List, [], ◌∷◌,
  ◌++◌, map, ℤ, pos, ◌+ℤ◌, ◌-ℤ◌, residue, residue-add, residue-sub, residue-wrap64, residue-lt,
  wrap64, arith, ◌==◌, Bool-cases, subst, inl, inr, length, length-append, length-map,
}
use go_notification.Sharding.{
  Bytes, hash, Generator, epoch_millis, compose, generate_id, extract_timestamp, extract_hash_value,
  extract_sequence, ShardingStrategy, Dst, dst_of, dst_of_hash, shard, shard_with_id, count_up,
  broadcast_rounds, broadcast,
}

compose-lt : (t : ℤ) (h : ℕ) (s : ℤ) → compose t h s < 2 ^ 63
compose-lt t h s = omega arith

residue-compose : (t : ℤ) (h : ℕ) (s : ℤ) → residue (pos (compose t h s)) ≡ compose t h s
unfolding residue
residue-compose t h s = omega arith

residue-one : residue (pos 1) ≡ 1
unfolding residue
residue-one = refl

-- the counter value that an ID carries
sequence_residue :
    (g : Generator) → residue (wrap64 (wrap64 (g.sequence +ℤ pos 1) -ℤ pos 1)) ≡ residue g.sequence
sequence_residue g =
    rw (residue-wrap64, residue-sub, residue-wrap64, residue-add, residue-one)
      (omega (arith, residue-lt g.sequence))

-- An ID carries the low 41 bits of the time since the epoch, the low 10 bits of the hash of its
-- business key and the low 12 bits of the counter, and it is a non-negative int64.
extract-generate_id :
    (g : Generator) (now biz_id : ℤ) (key : Bytes)
    → let id = (generate_id g now biz_id key).0 in
      (extract_hash_value id ≡ hash biz_id key % 2 ^ 10)
      × (extract_sequence id ≡ residue g.sequence % 2 ^ 12)
      × (extract_timestamp id
          ≡ (residue (now -ℤ pos epoch_millis) % 2 ^ 41 + epoch_millis) * 1000000)
unfolding generate_id extract_hash_value extract_sequence extract_timestamp
extract-generate_id g now biz_id key =
    let t = wrap64 (now -ℤ pos epoch_millis) in
    let s = wrap64 (wrap64 (g.sequence +ℤ pos 1) -ℤ pos 1) in
    let h = hash biz_id key in
    let e = residue-compose t h s in
    (
      omega (arith, e),
      omega (arith, e, sequence_residue g),
      omega (arith, e, residue-wrap64 (now -ℤ pos epoch_millis)),
    )

-- the generator after a sequence of calls
pub generate_all : Generator → List (ℤ × ℤ × Bytes) → Generator
generate_all g [] = g
generate_all g ((now, biz_id, key) ∷ calls) = generate_all (generate_id g now biz_id key).1 calls

residue-generate_id :
    (g : Generator) (now biz_id : ℤ) (key : Bytes)
    → residue (generate_id g now biz_id key).1.sequence ≡ (residue g.sequence + 1) % 2 ^ 64
unfolding generate_id
residue-generate_id g now biz_id key = rw (residue-wrap64, residue-add, residue-one)

residue-generate_all :
    (g : Generator) (calls : List (ℤ × ℤ × Bytes))
    → residue (generate_all g calls).sequence ≡ (residue g.sequence + length calls) % 2 ^ 64
unfolding generate_all
residue-generate_all g [] = omega (arith, residue-lt g.sequence)
residue-generate_all g ((now, biz_id, key) ∷ calls) =
    residue-generate_all (generate_id g now biz_id key).1 calls
    ∙ omega (arith, residue-generate_id g now biz_id key)

-- Two IDs of one generator differ if fewer than 4095 others were generated between them, whatever
-- the clock shows, the business keys are and the hash is.
pub generate_id_distinct :
    (g : Generator) (now now' biz biz' : ℤ) (key key' : Bytes) (between : List (ℤ × ℤ × Bytes))
    → length between < 4095
    → let (id, g') = generate_id g now biz key in
      (generate_id (generate_all g' between) now' biz' key').0 ≢ id
generate_id_distinct g now now' biz biz' key key' between few same =
    let (_, first, _) = extract-generate_id g now biz key in
    let g2 = generate_all (generate_id g now biz key).1 between in
    let (_, second, _) = extract-generate_id g2 now' biz' key' in
    omega (
      arith,
      first,
      second,
      ap extract_sequence same,
      residue-generate_all (generate_id g now biz key).1 between,
      residue-generate_id g now biz key,
    )

routes_agree :
    (d t k h : ℕ)
    → 0 < d
    → ((h % (d * t * k)) % d ≡ h % d) × (((h % (d * t * k)) / d) % t ≡ (h / d) % t)
routes_agree d t k h d_pos = (
  sym (ap (λ x. x % d) split ∙ add-mul-mod_self_left r d (t * (k * q))),
  sym (
      ap (λ x. (x / d) % t) split
      ∙ ap (λ x. x % t) (add-mul-div_left r (t * (k * q)) d_pos)
      ∙ add-mul-mod_self_left (r / d) t (k * q)),
)
  where
    r : ℕ
    r = h % (d * t * k)

    q : ℕ
    q = h / (d * t * k)

    split : h ≡ r + d * (t * (k * q))
    split = sym (mod-add-div h (d * t * k)) ∙ ap (λ x. r + x) (simp mul_assoc)

dst_of_hash-mod :
    (s : ShardingStrategy) (h k : ℕ)
    → s.db_sharding * s.table_sharding * k ≡ 2 ^ 10
    → dst_of_hash s (h % 2 ^ 10) ≡ dst_of_hash s h
unfolding dst_of_hash
dst_of_hash-mod s h k e = elim (Bool-cases (s.db_sharding == 0 || s.table_sharding == 0)) [
  | inl zero_count ↦ rw zero_count
  | inr positive ↦
      let agree =
        subst
          (λ n.
            ((h % n) % s.db_sharding ≡ h % s.db_sharding)
            × (((h % n) / s.db_sharding) % s.table_sharding
                ≡ (h / s.db_sharding) % s.table_sharding))
          e (routes_agree s.db_sharding s.table_sharding k h (ground arith)) in
      rw (positive, agree.0, agree.1)
]

-- A generated ID is routed to the database and table of its business key, if the number of
-- databases times that of tables divides 1024, the number of hash values that an ID can carry.
pub shard_with_id-generate_id :
    (s : ShardingStrategy) (g : Generator) (now biz_id : ℤ) (key : Bytes) (k : ℕ)
    → s.db_sharding * s.table_sharding * k ≡ 2 ^ 10
    → shard_with_id s (generate_id g now biz_id key).0 ≡ shard s biz_id key
unfolding shard_with_id shard
shard_with_id-generate_id s g now biz_id key k e =
    rw ((extract-generate_id g now biz_id key).0) (dst_of_hash-mod s (hash biz_id key) k e)

-- every destination has a property
abbrev pub All : (Dst → Type 0) → List Dst → Type 0
All P [] = Unit {0}
All P (d ∷ ds) = P d × All P ds

All-append : (P : Dst → Type 0) (xs ys : List Dst) → All P xs → All P ys → All P (xs ++ ys)
All-append P [] ys h k = k
All-append P (x ∷ xs) ys h k = (h.0, All-append P xs ys h.1 k)

All-map_diagonal :
    (s : ShardingStrategy) (js : List ℕ)
    → All (λ d. d.table_suffix ≡ d.db_suffix) (map (λ j. dst_of s j j) js)
All-map_diagonal s [] = tt
All-map_diagonal s (j ∷ js) = (refl, All-map_diagonal s js)

length-count_up : (start n : ℕ) → length (count_up start n) ≡ n
unfolding count_up
length-count_up start zero = refl
length-count_up start (suc n) = ap suc (length-count_up (start + 1) n)

broadcast_rounds_diagonal :
    (s : ShardingStrategy) (rounds : ℕ)
    → (length (broadcast_rounds s rounds) ≡ rounds * s.db_sharding)
      × All (λ d. d.table_suffix ≡ d.db_suffix) (broadcast_rounds s rounds)
unfolding broadcast_rounds
broadcast_rounds_diagonal s zero = (omega arith, tt)
broadcast_rounds_diagonal s (suc rounds) =
    let row = map (λ j. dst_of s j j) (count_up 0 s.db_sharding) in
    let rest = broadcast_rounds s rounds in
    let (n, diagonal) = broadcast_rounds_diagonal s rounds in
    (
      omega (
        arith,
        n,
        length-append row rest,
        length-map (λ j. dst_of s j j) (count_up 0 s.db_sharding),
        length-count_up 0 s.db_sharding,
      ),
      All-append (λ d. d.table_suffix ≡ d.db_suffix) row rest
          (All-map_diagonal s (count_up 0 s.db_sharding)) diagonal,
    )

-- The destinations that the scheduler goes over are as many as the square of the number of
-- databases, and each pairs a database with the table of the same number.
broadcast_diagonal :
    (s : ShardingStrategy)
    → (length (broadcast s) ≡ s.db_sharding * s.db_sharding)
      × All (λ d. d.table_suffix ≡ d.db_suffix) (broadcast s)
unfolding broadcast
broadcast_diagonal s = broadcast_rounds_diagonal s s.db_sharding
