-- ===== src/Scheduling/Permits.antt =====
-- Where the permits of the semaphore go when the locks work.
use Prim.Native.Nat.{min}
use native.Mathlib.Nat.{suc-mul}
use go_notification.Prelude.{
  ℕ, zero, suc, ◌+◌, ◌*◌, ◌^◌, ◌≤◌, ◌<◌, ◌≡◌, refl, ◌∙◌, ap, ◌⊎◌, InInt64, inl, inr, Bool-cases,
  true, false, List, [], ◌∷◌, some, pos, leb_ℤ, wrap64, wrap64_of_in, pos-add, length, arith,
}
use go_notification.Errs.{Err, ok, err, Sentinel}
use Sentinel.{exceed_limit}
use go_notification.Sharding.{Bytes, Dst, broadcast}
use go_notification.Scheduling.Locks.{LockServices, MaxCntResourceSemaphore, acquire}
use go_notification.Scheduling.Sharded.{
  ShardingLoopJob, Running, generate_key, with_permit, start_table, start_tables, run_rounds,
}

-- a semaphore of `m` permits, of which `c` are taken
abbrev taken_of : ℕ → ℕ → MaxCntResourceSemaphore
taken_of m c = record { max_count = pos m; current_count = pos c }

min_of_full : (m c : ℕ) → c ≤ m → leb_ℤ (pos m) (pos c) ≡ true → c ≡ min m (c + 1)
min_of_full m c within full = ground arith

min_of_free : (m c : ℕ) → leb_ℤ (pos m) (pos c) ≡ false → c + 1 ≡ min m (c + 1)
min_of_free m c free = ground arith

min_of_min : (m c k : ℕ) → min m (min m (c + 1) + k) ≡ min m (c + suc k)
min_of_min m c k = ground arith

min_of_rounds : (m c k n : ℕ) → min m (min m (c + k) + n * k) ≡ min m (c + suc n * k)
min_of_rounds m c k n = rw (suc-mul n k) (ground arith)

-- a permit is taken, unless all are
acquire-taken_of :
    (m c : ℕ)
    → m < 2 ^ 63
    → c ≤ m
    → ((e : Err) × (acquire (taken_of m c) ≡ (err e, taken_of m c)) × (c ≡ min m (c + 1)))
      ⊎ (acquire (taken_of m c) ≡ (ok tt, taken_of m (min m (c + 1))))
unfolding acquire
acquire-taken_of m c small within = elim (Bool-cases (leb_ℤ (pos m) (pos c))) [
  | inl full ↦ inl (exceed_limit ∷ [], rw full refl, min_of_full m c within full)
  | inr free ↦ inr (
      rw free (
        ap (λ x. (ok tt, record { max_count = pos m; current_count = x }))
          (ap wrap64 (pos-add c 1)
            ∙ wrap64_of_in (pos (c + 1)) (fits free)
            ∙ ap pos (min_of_free m c free))))
]
  where
    fits : leb_ℤ (pos m) (pos c) ≡ false → InInt64 (pos (c + 1))
    fits free = (ground arith, ground arith)

module _ {ℓ κ} {S : Type ℓ} {Lock : Type κ} (d : LockServices S Lock) (l : ShardingLoopJob S) where
  -- a job with `c` of `m` permits taken and nothing started
  abbrev pub idle : ℕ → ℕ → S → Running S Lock
  idle m c s = record { semaphore = taken_of m c; started = []; world = s }

  module _ (works : (key : Bytes) (s : S) → (lock : Lock) × ((d.new_lock key s).0 ≡ ok lock)) where
    with_permit-idle :
        (m c : ℕ) (dst : Dst) (s : S)
        → (s' : S) × (with_permit d l dst (idle m c s) ≡ some (idle m c s'))
    unfolding with_permit
    with_permit-idle m c dst s = (
      (d.new_lock (generate_key l dst) s).1,
      rw (with_permit, (works (generate_key l dst) s).1) refl,
    )

    start_table-idle :
        (m c : ℕ) (dst : Dst) (s : S)
        → m < 2 ^ 63
        → c ≤ m
        → (s' : S) × (start_table d l dst (idle m c s) ≡ some (idle m (min m (c + 1)) s'))
    unfolding start_table
    start_table-idle m c dst s small within = elim (acquire-taken_of m c small within) [
      | inl (e, refused, all_taken) ↦ (
        d.sleep l.retry_interval s,
        rw (start_table, refused)
            (ap (λ k. some (idle m k (d.sleep l.retry_interval s))) all_taken),
      )
      | inr granted ↦ rw (start_table, granted) (with_permit-idle m (min m (c + 1)) dst s)
    ]

    start_tables-idle :
        (m c : ℕ) (dsts : List Dst) (s : S)
        → m < 2 ^ 63
        → c ≤ m
        → (s' : S) × (start_tables d l dsts (idle m c s)
            ≡ some (idle m (min m (c + length dsts)) s'))
    unfolding start_tables
    start_tables-idle m c [] s small within = (s, ap (λ k. some (idle m k s)) (ground arith))
    start_tables-idle m c (dst ∷ dsts) s small within =
        let (s1, first) = start_table-idle m c dst s small within in
        let (s2, others) = start_tables-idle m (min m (c + 1)) dsts s1 small (ground arith) in
        (
          s2,
          rw (start_tables, first)
              (others ∙ ap (λ k. some (idle m k s2)) (min_of_min m c (length dsts))),
        )

    run_rounds_from :
        (m c n : ℕ) (s : S)
        → m < 2 ^ 63
        → c ≤ m
        → (s' : S) × (run_rounds d l n (idle m c s)
            ≡ some (idle m (min m (c + n * length (broadcast l.sharding_strategy))) s'))
    unfolding run_rounds
    run_rounds_from m c zero s small within = (s, ap (λ k. some (idle m k s)) (ground arith))
    run_rounds_from m c (suc n) s small within =
        let k = length (broadcast l.sharding_strategy) in
        let (s1, first) = start_tables-idle m c (broadcast l.sharding_strategy) s small within in
        let (s2, others) = run_rounds_from m (min m (c + k)) n s1 small (ground arith) in
        (s2, rw (run_rounds, first) (others ∙ ap (λ k. some (idle m k s2)) (min_of_rounds m c k n)))

    -- If making a lock never fails, then Run starts no table, however many rounds it makes over the
    -- tables; but it takes permits, one for each table, until all are taken.
    pub run_rounds-idle :
        (m n : ℕ) (s : S)
        → m < 2 ^ 63
        → (s' : S) × (run_rounds d l n (idle m 0 s)
            ≡ some (idle m (min m (n * length (broadcast l.sharding_strategy))) s'))
    unfolding run_rounds
    run_rounds-idle m n s small =
        let (s', ran) = run_rounds_from m 0 n s small (omega arith) in
        (s', ran ∙ ap (λ k. some (idle m (min m k) s')) (omega arith))
