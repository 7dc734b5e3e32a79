-- ===== src/Sharding/Ids.antt =====
-- internal/pkg/id_generator/snowflake.go: IDs of a timestamp, a hash and a sequence number.
-- The three fields of an ID have no bit in common, so `|` adds them up; `x & mask` of an int64 is
-- read off its bit pattern, `residue x`.
use go_notification.Prelude.{ℕ, ◌+◌, ◌*◌, ◌/◌, ◌%◌, ◌^◌, ℤ, pos, ◌+ℤ◌, ◌-ℤ◌, residue, wrap64}
use go_notification.Sharding.Hash.{Bytes, hash}

pub record Generator : Type 0 where
  pub sequence : ℤ

abbrev pub epoch_millis : ℕ
epoch_millis = 1704067200000

pub new_generator : Generator
new_generator = record { sequence = pos 0 }

abbrev pub compose : ℤ → ℕ → ℤ → ℕ
compose timestamp hash_value sequence =
    (residue timestamp % 2 ^ 41) * 2 ^ 22
    + (hash_value % 2 ^ 10) * 2 ^ 12
    + residue sequence % 2 ^ 12

-- `now` is `time.Now().UnixMilli()`. The counter is incremented atomically, before its use.
unfoldable pub generate_id : Generator → ℤ → ℤ → Bytes → ℤ × Generator
generate_id g now biz_id key =
    let timestamp = wrap64 (now -ℤ pos epoch_millis) in
    let incremented = wrap64 (g.sequence +ℤ pos 1) in
    let sequence = wrap64 (incremented -ℤ pos 1) in
    (pos (compose timestamp (hash biz_id key) sequence), record { sequence = incremented })

-- the nanoseconds since 1970 of the returned time
unfoldable pub extract_timestamp : ℤ → ℕ
extract_timestamp id = ((residue id / 2 ^ 22) % 2 ^ 41 + epoch_millis) * 1000000

unfoldable pub extract_hash_value : ℤ → ℕ
extract_hash_value id = (residue id / 2 ^ 12) % 2 ^ 10

unfoldable pub extract_sequence : ℤ → ℕ
extract_sequence id = residue id % 2 ^ 12
