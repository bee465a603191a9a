-- ===== src/Hash/Tests.antt =====
-- Runs of src/hash.h, and the theorems at concrete hashes: integral keys under
-- `HashFunction`, numbers for values.
mod Stale
mod Operations
mod Rehash
mod Iterator
mod Scan
mod Uses
use redis_db.Prelude.{
  ℕ, ◌+◌, ◌≡◌, ◌↔◌, refl, Bool, true, Option, none, some, List, [], ◌∷◌, get_or, replicate, set,
  ◌==◌, ==→≡, ≡→==, Run, ok, ◌>>=◌, arith, count_if, flatten, to_float,
}
use redis_db.Traits.{Traits, map_traits}
use redis_db.HashFunction.{hash_integer}
use redis_db.Table.{
  HashNode, Chain, HashTable, find, get as table_get, is_exist_chain, erase_node, insert_node,
  reset_bucket, get_bucket_head, new_table,
}
use redis_db.Hash.{Hash, npos, double_until, get_next_power2, new_hash, rehash, advance}
use redis_db.Hash.Operations.{insert, get, erase, is_exist}

pub equal_iff : (a b : ℕ) → ((a == b) ≡ true) ↔ (a ≡ b)
equal_iff a b = (==→≡ a b, ≡→== a b)

-- `HashMap<unsigned long, unsigned long>`
abbrev pub traits : Traits (ℕ × ℕ) ℕ
traits = map_traits (λ a b. a == b) equal_iff hash_integer

-- Everything that a run of the program computes with.
pub program : Unit {0}
unfolding hash_integer find table_get is_exist_chain erase_node insert_node reset_bucket
    get_bucket_head new_table double_until get_next_power2 new_hash rehash advance insert get erase
    is_exist get_or replicate set count_if flatten to_float
program = tt

abbrev pub node : ℕ → ℕ → HashNode (ℕ × ℕ)
node k v = record { address = 1000 + k; value = (k, v) }

abbrev pub entry : ℕ → ℕ → Hash (ℕ × ℕ) → Run (Hash (ℕ × ℕ))
entry k v h = insert traits h (1000 + k) (k, v)

-- Five insertions into a new hash: one node more than there are buckets.
abbrev pub overloaded : Hash (ℕ × ℕ)
overloaded = record {
  active = record {
    nodes =
        (node 7 70 ∷ node 3 30 ∷ []) ∷ (node 2 20 ∷ []) ∷ (node 1 10 ∷ []) ∷ (node 0 5 ∷ []) ∷ [];
    size = 5;
    buckets_number = 4;
  };
  backup = none;
  buckets_number = 4;
  buckets_mask = 3;
  rehash_index = npos;
}

five_insertions :
    (do
      h ← new_hash
      h ← entry 0 5 h
      h ← entry 1 10 h
      h ← entry 2 20 h
      h ← entry 3 30 h
      entry 7 70 h)
    ≡ ok overloaded
unfolding program
five_insertions = refl

-- The next operation moves two of the four buckets.
abbrev pub begun : Hash (ℕ × ℕ)
begun = record {
  active = record {
    nodes = [] ∷ [] ∷ (node 1 10 ∷ []) ∷ (node 0 5 ∷ []) ∷ [];
    size = 5;
    buckets_number = 4;
  };
  backup = some (record {
    nodes = (node 7 70 ∷ []) ∷ [] ∷ [] ∷ [] ∷ (node 3 30 ∷ []) ∷ (node 2 20 ∷ []) ∷ [] ∷ [] ∷ [];
    size = 3;
    buckets_number = 8;
  });
  buckets_number = 8;
  buckets_mask = 7;
  rehash_index = 2;
}

pub advance-overloaded : advance traits overloaded ≡ ok begun
unfolding program
advance-overloaded = refl

-- Key 3 is there, and `get` throws.
get_three : get traits overloaded 3 ≡ ok (none, begun)
unfolding program
get_three = refl

-- The same call again finds it.
get_three_again :
    (do (_, h) ← get traits overloaded 3; (found, _) ← get traits h 3; ok found)
    ≡ ok (some (node 3 30))
unfolding program
get_three_again = refl
