-- ===== src/Sharding/Tests.antt =====
-- Runs of the routing, and the theorems about it at concrete inputs.
use go_notification.Prelude.{◌≡◌, ◌≢◌, refl, [], ◌∷◌, pos, negsuc, arith, map}
use go_notification.Sharding.{
  format_int, fnv64a, Generator, generate_id, ShardingStrategy, Dst, shard, shard_with_id,
  broadcast,
}
use go_notification.Sharding.Laws.{generate_all, generate_id_distinct, shard_with_id-generate_id}

abbrev two_by_two : ShardingStrategy
two_by_two = record {
  db_prefix = b'd' ∷ [];
  table_prefix = b't' ∷ [];
  table_sharding = 2;
  db_sharding = 2;
}

abbrev generator : Generator
generator = record { sequence = pos 5 }

negative_number : format_int (negsuc 41) ≡ b'-' ∷ b'4' ∷ b'2' ∷ []
unfolding format_int
negative_number = refl

-- FNV-1a of "a", from the reference tables
fnv_of_a : fnv64a 14695981039346656037 (b'a' ∷ []) ≡ 0xaf63dc4c8601ec8c
unfolding fnv64a
fnv_of_a = refl

-- the table suffixes that the scheduler goes over with two databases of two tables
visited : map (λ (d : Dst). d.table_suffix) (broadcast two_by_two) ≡ 0 ∷ 1 ∷ 0 ∷ 1 ∷ []
unfolding broadcast
visited = refl

generate_id_distinct_example :
    let (id, g') = generate_id generator (pos 1704067200123) (pos 7) (b'k' ∷ []) in
    (generate_id (generate_all g' []) (pos 1704067200123) (pos 7) (b'k' ∷ [])).0 ≢ id
generate_id_distinct_example =
    generate_id_distinct generator (pos 1704067200123) (pos 1704067200123) (pos 7) (pos 7)
      (b'k' ∷ []) (b'k' ∷ []) [] (omega arith)

shard_with_id-generate_id_example :
    shard_with_id two_by_two (generate_id generator (pos 1704067200123) (pos 7) (b'k' ∷ [])).0
    ≡ shard two_by_two (pos 7) (b'k' ∷ [])
shard_with_id-generate_id_example =
    shard_with_id-generate_id two_by_two generator (pos 1704067200123) (pos 7) (b'k' ∷ []) 256 refl
