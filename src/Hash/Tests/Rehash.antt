-- ===== src/Hash/Tests/Rehash.antt =====
-- The theorems about `rehash` at a hash that is moving its nodes.
use redis_db.Prelude.{
  ℕ, suc, zero, inr, count_if, ◌==◌, ◌≡◌, ◌<◌, refl, arith, Returns, get_or, flatten, true, [], ◌∷◌,
}
use redis_db.Table.{HashTable}
use redis_db.Table.Bags.{IsPlaced}
use redis_db.HashFunction.{hash_integer}
use redis_db.Hash.{get_next_power2, rehash}
use redis_db.Hash.Valid.{IsResting, IsMoving, SameNodes, count}
use redis_db.Hash.Rehash.{Advances, rehash-Advances}
use redis_db.Hash.Rehash.Power.{IsNext, get_next_power2-IsNext}
use redis_db.Hash.Finish.{rehash_times, rehash_times-IsResting}
use redis_db.Hash.Destroyed.{destroy_hash, destroy_hash-count}
use redis_db.Hash.Tests.{traits, node, begun}

abbrev fresh : HashTable (ℕ × ℕ)
fresh = record {
  nodes = (node 7 70 ∷ []) ∷ [] ∷ [] ∷ [] ∷ (node 3 30 ∷ []) ∷ (node 2 20 ∷ []) ∷ [] ∷ [] ∷ [];
  size = 3;
  buckets_number = 8;
}

begun-IsPlaced : IsPlaced traits 3 begun.active
unfolding get_or hash_integer
begun-IsPlaced zero = tt
begun-IsPlaced (suc zero) = tt
begun-IsPlaced (suc (suc zero)) = (refl, tt)
begun-IsPlaced (suc (suc (suc zero))) = (refl, tt)
begun-IsPlaced (suc (suc (suc (suc i)))) = tt

fresh-IsPlaced : IsPlaced traits 7 fresh
unfolding get_or hash_integer
fresh-IsPlaced zero = (refl, tt)
fresh-IsPlaced (suc zero) = tt
fresh-IsPlaced (suc (suc zero)) = tt
fresh-IsPlaced (suc (suc (suc zero))) = tt
fresh-IsPlaced (suc (suc (suc (suc zero)))) = (refl, tt)
fresh-IsPlaced (suc (suc (suc (suc (suc zero))))) = (refl, tt)
fresh-IsPlaced (suc (suc (suc (suc (suc (suc zero)))))) = tt
fresh-IsPlaced (suc (suc (suc (suc (suc (suc (suc zero))))))) = tt
fresh-IsPlaced (suc (suc (suc (suc (suc (suc (suc (suc i)))))))) = tt

pub begun-IsMoving : IsMoving traits begun fresh
unfolding flatten get_or
begun-IsMoving = record {
  home = record {
    table = refl;
    power = (2, refl, omega arith);
    small = omega arith;
    placed = begun-IsPlaced;
  };
  new_home = record {
    table = refl;
    power = (3, refl, omega arith);
    small = omega arith;
    placed = fresh-IsPlaced;
  };
  backup = refl;
  number = refl;
  mask = refl;
  index = omega arith;
  moved = moved;
  sized = refl;
}
  where
    moved : (i : ℕ) → i < 2 → get_or begun.active.nodes i [] ≡ []
    moved zero h = refl
    moved (suc zero) h = refl
    moved (suc (suc i)) h = absurd (omega arith)

get_next_power2-IsNext_example : Returns (get_next_power2 5) (IsNext 5)
get_next_power2-IsNext_example = get_next_power2-IsNext 5 (omega arith)

rehash-Advances_example : Returns (rehash traits 2 true begun) (Advances traits 2 begun fresh)
rehash-Advances_example =
    rehash-Advances traits 2 true begun fresh (omega arith) begun-IsMoving (omega arith)

rehash_times-IsResting_example :
    Returns
      (rehash_times traits 1 begun)
      λ r. IsResting traits r × SameNodes begun r × (r.active.buckets_number ≡ 8)
rehash_times-IsResting_example =
    rehash_times-IsResting traits 1 begun fresh begun-IsMoving (omega arith) (omega arith)

destroy_hash-count_example :
    Returns
      (destroy_hash begun)
      λ freed. (a : ℕ) → count_if (λ x. x == a) freed ≡ count (λ n. n.address == a) begun
destroy_hash-count_example = destroy_hash-count traits begun (inr (_, begun-IsMoving, omega arith))
