-- ===== src/Hash/Tests/Uses.antt =====
-- Five insertions into a new `HashMap`, and the read that begins its rehash.
use redis_db.Prelude.{ℕ, inl, inr, Option, none, some, List, Returns}
use redis_db.Table.{Chain}
use redis_db.HashFunction.{hash_integer}
use redis_db.Hash.{Hash}
use redis_db.Hash.Map
use redis_db.Hash.Map.Refines.{update}
use redis_db.Hash.Map.Reaches.{Reaches}
use redis_db.Hash.Valid.{IsValid, SameNodes, count}
use redis_db.Hash.Operations.{get}
use redis_db.Hash.Stale.Sound.{Finds, get-Finds}
use redis_db.Hash.Tests.{traits, equal_iff, overloaded}
use redis_db.Hash.Tests.Operations.{equal_test, same}
use redis_db.Hash.Tests.Stale.{overloaded-IsOverloaded}

-- A hash of four buckets.
abbrev with : ℕ → List (Chain (ℕ × ℕ)) → Hash (ℕ × ℕ)
with n chains = record overloaded {
  active = record { nodes = chains; size = n; buckets_number = 4 };
}

abbrev Used : (ℕ → Option ℕ) → Hash (ℕ × ℕ) → Type 0
Used = Reaches equal_test equal_iff hash_integer same equal_iff

abbrev bind : (ℕ → Option ℕ) → ℕ → ℕ → ℕ → Option ℕ
bind f k v = update equal_test equal_iff hash_integer same equal_iff f k (some v)

abbrev unbind : (ℕ → Option ℕ) → ℕ → ℕ → Option ℕ
unbind f k = update equal_test equal_iff hash_integer same equal_iff f k none

abbrev one_bound : ℕ → Option ℕ
one_bound = bind (λ k. none) 0 5

abbrev two_bound : ℕ → Option ℕ
two_bound = bind one_bound 1 10

abbrev three_bound : ℕ → Option ℕ
three_bound = bind two_bound 2 20

abbrev four_bound : ℕ → Option ℕ
four_bound = bind three_bound 3 30

abbrev five_bound : ℕ → Option ℕ
five_bound = bind four_bound 7 70

get-Finds_example : Returns (get traits overloaded 3) λ r.
    Finds traits 3 (λ p. count p overloaded) r.0 × IsValid traits r.1 × SameNodes overloaded r.1
get-Finds_example =
    get-Finds traits overloaded 3 (inl overloaded-IsOverloaded.resting)
      (inr overloaded-IsOverloaded)
