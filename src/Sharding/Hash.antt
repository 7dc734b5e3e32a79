-- ===== src/Sharding/Hash.antt =====
-- internal/pkg/hash/hash.go: FNV-1a over "bizID:key", mixed with the business ID.
use Prim.Native.Nat.{bit_xor}
use go_notification.Prelude.{
  ℕ, zero, suc, ◌+◌, ◌*◌, ◌/◌, ◌%◌, ◌-◌, ◌^◌, List, [], ◌∷◌, ◌++◌, ℤ, pos, negsuc, residue, ltb,
  if◌then◌else◌,
}

abbrev pub Bytes : Type 0
Bytes = List ℕ

-- The decimal digits of a number of at most `fuel` digits; an int64 has at most 19.
unfoldable pub decimal_on : ℕ → ℕ → Bytes → Bytes
decimal_on zero n tail = tail
decimal_on (suc fuel) n tail =
    let rest = decimal_on fuel (n / 10) ((b'0' + n % 10) ∷ tail) in
    if ltb n 10 then (b'0' + n) ∷ tail else rest

unfoldable pub decimal : ℕ → Bytes
unfolding decimal_on
decimal n = decimal_on 20 n []

-- strconv.FormatInt(z, 10)
unfoldable pub format_int : ℤ → Bytes
unfolding decimal
format_int (pos n) = decimal n
format_int (negsuc n) = b'-' ∷ decimal (suc n)

-- hash/fnv, New64a: the state after writing the bytes
unfoldable pub fnv64a : ℕ → Bytes → ℕ
fnv64a h [] = h
fnv64a h (b ∷ bs) = fnv64a ((bit_xor h b * 1099511628211) % 2 ^ 64) bs

-- bits.RotateLeft64 by 0 < k < 64; the two parts have no bit in common
abbrev rotate_left64 : ℕ → ℕ → ℕ
rotate_left64 x k = (x * 2 ^ k) % 2 ^ 64 + x / 2 ^ (64 - k)

unfoldable pub mix_hash : ℕ → ℕ → ℕ
mix_hash h salt =
    let h1 = bit_xor h ((salt + 11400714819323198485) % 2 ^ 64) in
    let h2 = (rotate_left64 h1 13 * 14029467366897019727) % 2 ^ 64 in
    let h3 = (rotate_left64 h2 29 * 1609587929392839161) % 2 ^ 64 in rotate_left64 h3 31

-- The mask makes the int64 non-negative.
unfoldable pub hash : ℤ → Bytes → ℕ
unfolding format_int fnv64a mix_hash
hash biz_id key =
    mix_hash (fnv64a 14695981039346656037 (format_int biz_id ++ (b':' ∷ key))) (residue biz_id)
    % 2 ^ 63
