-- ===== src/HashFunction/Tests.antt =====
-- Runs of the hash functions, with the strings of the unit test.
use redis_db.Prelude.{ℕ, ◌+◌, ◌*◌, ◌%◌, ◌^◌, ◌≡◌, refl, List, [], ◌∷◌}
use redis_db.HashFunction.{hash_integer, hash_string}
use redis_db.HashFunction.Times33.{digits33, hash_string-digits33}

abbrev hello : List ℕ
hello = 104 ∷ 101 ∷ 108 ∷ 108 ∷ 111 ∷ []

abbrev zi : List ℕ
zi = 122 ∷ 105 ∷ []

hello_and_zi : (hash_string hello % 4 ≡ 1) × (hash_string zi % 4 ≡ 0)
unfolding hash_string
hello_and_zi = (refl, refl)

hash_of_three : hash_integer 3 ≡ 0xdeadbeec
unfolding hash_integer
hash_of_three = refl

hash_string-digits33_example : hash_string hello ≡ (5381 * 33 ^ 5 + digits33 hello) % 2 ^ 64
hash_string-digits33_example = hash_string-digits33 hello
