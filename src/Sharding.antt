-- ===== src/Sharding.antt =====
-- internal/pkg/sharding, internal/pkg/hash and internal/pkg/id_generator: which database and table a
-- notification goes to, by its business key or by the hash that its ID carries.
-- Text is the list of its bytes. Shard counts are positive in a running system.
mod Hash
mod Ids
pub mod Laws
mod Tests
unfoldable pub use Hash.*
unfoldable pub use Ids.*
use go_notification.Prelude.{
  ℕ, zero, suc, ◌+◌, ◌*◌, ◌/◌, ◌%◌, Bool, ◌||◌, List, [], ◌∷◌, ◌++◌, map, Option, none, some, ℤ,
  ◌==◌, if◌then◌else◌,
}
use Hash.{Bytes, decimal, hash}
use Ids.{extract_hash_value}

pub record ShardingStrategy : Type 0 where
  pub db_prefix : Bytes
  pub table_prefix : Bytes
  pub table_sharding : ℕ
  pub db_sharding : ℕ

pub record Dst : Type 0 where
  pub table : Bytes
  pub db : Bytes
  pub table_suffix : ℕ
  pub db_suffix : ℕ

-- fmt.Sprintf("%s_%d", prefix, n)
abbrev pub name_of : Bytes → ℕ → Bytes
name_of prefix n = prefix ++ (b'_' ∷ decimal n)

abbrev pub dst_of : ShardingStrategy → ℕ → ℕ → Dst
dst_of s table_hash db_hash = record {
  table = name_of s.table_prefix table_hash;
  db = name_of s.db_prefix db_hash;
  table_suffix = table_hash;
  db_suffix = db_hash;
}

-- the common part of `Shard` and `ShardWithID`; `none` is the panic of a division by zero
unfoldable pub dst_of_hash : ShardingStrategy → ℕ → Option Dst
dst_of_hash s hash_value =
    if s.db_sharding == 0 || s.table_sharding == 0
    then none
    else some
        (dst_of s ((hash_value / s.db_sharding) % s.table_sharding) (hash_value % s.db_sharding))

unfoldable pub shard : ShardingStrategy → ℤ → Bytes → Option Dst
unfolding dst_of_hash
shard s biz_id key = dst_of_hash s (hash biz_id key)

unfoldable pub shard_with_id : ShardingStrategy → ℤ → Option Dst
unfolding dst_of_hash
shard_with_id s id = dst_of_hash s (extract_hash_value id)

-- `for i := start; …; i++`, `count` rounds
unfoldable pub count_up : ℕ → ℕ → List ℕ
count_up start zero = []
count_up start (suc count) = start ∷ count_up (start + 1) count

-- the outer loop of `Broadcast`, over the rounds left; both loops run to `dbSharding`
unfoldable pub broadcast_rounds : ShardingStrategy → ℕ → List Dst
unfolding count_up
broadcast_rounds s zero = []
broadcast_rounds s (suc rounds) =
    map (λ j. dst_of s j j) (count_up 0 s.db_sharding) ++ broadcast_rounds s rounds

unfoldable pub broadcast : ShardingStrategy → List Dst
unfolding broadcast_rounds
broadcast s = broadcast_rounds s s.db_sharding

-- the parts of a text between the occurrences of a byte, `strings.Split`; the last one
abbrev last_part : ℕ → Bytes → Bytes → Bytes
last_part sep current [] = current
last_part sep current (c ∷ cs) = last_part sep (if c == sep then [] else current ++ (c ∷ [])) cs

pub extract_suffix_and_format_from_table : ShardingStrategy → Bytes → Bytes
extract_suffix_and_format_from_table s table_name =
    s.table_prefix ++ (b'_' ∷ last_part b'_' [] table_name)
