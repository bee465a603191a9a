-- ===== src/Hash/Tests/Operations.antt =====
-- The theorems about the operations, at a hash of two nodes.
use redis_db.Prelude.{
  ℕ, suc, zero, ◌≡◌, ◌≤◌, ◌↔◌, refl, inl, Bool, true, none, some, Option, [], ◌∷◌, arith, ok,
  Returns, get_or, count_if, flatten, ◌==◌, ◌&&◌, if◌then◌else◌, to_float,
}
use redis_db.Table.Bags.{IsPlaced}
use redis_db.Table.Chains.{holds_key}
use redis_db.HashFunction.{hash_integer}
use redis_db.Table.{HashNode}
use redis_db.Hash.{Hash, npos, rehash, is_rehashing, is_need_rehash}
use redis_db.Hash.Operations.{insert, erase, is_exist}
use redis_db.Hash.Valid.{IsResting, IsValid, SameNodes, count, count-resting}
use redis_db.Hash.Advance.{Fits, IsReady, rehash-IsValid}
use redis_db.Hash.Reads.{is_exist_iff}
use redis_db.Hash.Insert.{Gains, insert-Gains}
use redis_db.Hash.Erase.{erase-Loses}
use redis_db.Hash.Erase.Cases.{Loses}
use redis_db.Hash.Map
use redis_db.Hash.Map.{value}
use redis_db.Hash.Map.Refines.{Models, ModelsAt, update, get-Models, insert-Models, erase-Models}
use redis_db.Hash.Tests.{traits, equal_iff, program, node}

abbrev pub two : Hash (ℕ × ℕ)
two = record {
  active = record {
    nodes = (node 3 30 ∷ []) ∷ (node 2 20 ∷ []) ∷ [] ∷ [] ∷ [];
    size = 2;
    buckets_number = 4;
  };
  backup = none;
  buckets_number = 4;
  buckets_mask = 3;
  rehash_index = npos;
}

two-IsPlaced : IsPlaced traits 3 two.active
unfolding get_or hash_integer
two-IsPlaced zero = (refl, tt)
two-IsPlaced (suc zero) = (refl, tt)
two-IsPlaced (suc (suc zero)) = tt
two-IsPlaced (suc (suc (suc zero))) = tt
two-IsPlaced (suc (suc (suc (suc i)))) = tt

pub two-IsResting : IsResting traits two
unfolding flatten
two-IsResting = record {
  home = record {
    table = refl;
    power = (2, refl, omega arith);
    small = omega arith;
    placed = two-IsPlaced;
  };
  single = refl;
  number = refl;
  mask = refl;
  index = refl;
  sized = refl;
}

two-IsValid : IsValid traits two
two-IsValid = inl two-IsResting

two-IsReady : IsReady two
unfolding is_rehashing is_need_rehash to_float
two-IsReady = refl

pub two-Fits : Fits two
unfolding flatten count_if
two-Fits = omega (arith, count-resting traits (λ _. true) two-IsResting)

count-two : (p : HashNode (ℕ × ℕ) → Bool) → count p two ≡ count_if p (node 3 30 ∷ node 2 20 ∷ [])
unfolding flatten count_if
count-two p = count-resting traits p two-IsResting

no_nine : count (holds_key traits 9) two ≡ 0
unfolding count_if
no_nine = count-two (holds_key traits 9)

one_three : count (holds_key traits 3) two ≡ 1
unfolding count_if
one_three = count-two (holds_key traits 3)

-- `insert(9, 90)`
abbrev three : Hash (ℕ × ℕ)
three = record two {
  active = record {
    nodes = (node 3 30 ∷ []) ∷ (node 2 20 ∷ []) ∷ (node 9 90 ∷ []) ∷ [] ∷ [];
    size = 3;
    buckets_number = 4;
  };
}

insert_nine : insert traits two 1009 (9, 90) ≡ ok three
unfolding program
insert_nine = refl

three-IsReady : IsReady three
unfolding is_rehashing is_need_rehash to_float
three-IsReady = refl

-- `erase(3)`
abbrev one : Hash (ℕ × ℕ)
one = record two {
  active = record { nodes = [] ∷ (node 2 20 ∷ []) ∷ [] ∷ [] ∷ []; size = 1; buckets_number = 4 };
}

erase_three : erase traits two 3 ≡ ok (true, one)
unfolding program
erase_three = refl

one-IsReady : IsReady one
unfolding is_rehashing is_need_rehash to_float
one-IsReady = refl

rehash-IsValid_example : Returns (rehash traits 2 true two) λ r. IsValid traits r × SameNodes two r
rehash-IsValid_example = rehash-IsValid traits 2 true two (omega arith) two-IsValid two-Fits

is_exist_iff_example : Returns (is_exist traits two 2) λ r.
    ((r.0 ≡ true) ↔ (1 ≤ count (holds_key traits 2) two)) × IsValid traits r.1 × SameNodes two r.1
is_exist_iff_example = is_exist_iff traits two 2 two-IsValid two-IsReady

insert-Gains_example : Returns (insert traits two 1009 (9, 90)) (Gains traits (node 9 90) two)
insert-Gains_example = insert-Gains traits two 1009 (9, 90) two-IsValid two-IsReady

erase-Loses_example : Returns (erase traits two 3) (Loses traits 3 two)
erase-Loses_example = erase-Loses traits two 3 two-IsValid two-Fits two-IsReady

-- The finite map that the two nodes stand for.
abbrev numbers : ℕ → Option ℕ
numbers k = if k == 3 then some 30 else if k == 2 then some 20 else none

abbrev pub equal_test : ℕ → ℕ → Bool
equal_test a b = a == b

abbrev pub same : ℕ → ℕ → Bool
same a b = a == b

-- Each node counts at its own key alone.
two-ModelsAt : (k : ℕ) → ModelsAt equal_test equal_iff hash_integer same equal_iff two k (numbers k)
unfolding count_if
two-ModelsAt k = grind (
  arith,
  count-two (λ n. equal_test n.value.0 k),
  count-two (λ n. equal_test n.value.0 k && same n.value.1 30),
  count-two (λ n. equal_test n.value.0 k && same n.value.1 20),
)

two-Models : Models equal_test equal_iff hash_integer same equal_iff numbers two
two-Models = (two-IsValid, two-ModelsAt)

get-Models_example :
    Returns
      (Map.get equal_test equal_iff hash_integer two 3)
      λ r. (r.0 ≡ value 30) × Models equal_test equal_iff hash_integer same equal_iff numbers r.1
get-Models_example =
    get-Models equal_test equal_iff hash_integer same equal_iff numbers two 3 two-Models two-IsReady

insert-Models_example : Returns (Map.insert equal_test equal_iff hash_integer two 1009 9 90) (
    Models equal_test equal_iff hash_integer same equal_iff
      (update equal_test equal_iff hash_integer same equal_iff numbers 9 (some 90)))
insert-Models_example =
    insert-Models equal_test equal_iff hash_integer same equal_iff numbers two 1009 9 90 two-Models
      two-IsReady refl

erase-Models_example : Returns (erase traits two 3) λ r.
    (r.0 ≡ true)
    × Models equal_test equal_iff hash_integer same equal_iff
        (update equal_test equal_iff hash_integer same equal_iff numbers 3 none)
        r.1
erase-Models_example =
    erase-Models equal_test equal_iff hash_integer same equal_iff numbers two 3 two-Models two-Fits
      two-IsReady
