-- ===== src/HashFunction.antt =====
-- src/hash.h, `HashFunction`: the hash of an integral key or a pointer, and the times-33 hash of a
-- string.
pub mod Times33
mod Tests
use redis_db.Prelude.{ℕ, ◌+◌, ◌*◌, ◌-◌, ◌^◌, List, [], ◌∷◌, word, bit_xor, ltb, if◌then◌else◌}

-- `0xdeadbeefu`, the hash of the null pointer.
abbrev pub null_hash : ℕ
null_hash = 0xdeadbeef

-- An integral key or a pointer, converted to `size_t`.
unfoldable pub hash_integer : ℕ → ℕ
hash_integer k = bit_xor (word k) null_hash

-- `*kIt` converted to `size_t`, for a byte of the string: `char` is signed.
abbrev pub char_to_size : ℕ → ℕ
char_to_size c = if ltb c 128 then c else c + (2 ^ 64 - 256)

-- The loop over the bytes that are left.
unfoldable pub hash_bytes : ℕ → List ℕ → ℕ
hash_bytes hash [] = hash
hash_bytes hash (c ∷ s) = hash_bytes (word (word (word (hash * 2 ^ 5) + hash) + char_to_size c)) s

unfoldable pub hash_string : List ℕ → ℕ
unfolding hash_bytes
hash_string k = hash_bytes 5381 k
