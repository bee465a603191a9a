-- ===== src/Hash/Tests/Iterator.antt =====
-- The iterator, at a hash of two nodes and at one that is moving its nodes.
use redis_db.Prelude.{
  Bool, ℕ, suc, ◌≤◌, ◌≡◌, refl, inl, inr, true, Returns, [], ◌∷◌, ◌++◌, arith, ok, undefined,
  count_if, flatten, replicate, ◌>>=◌,
}
use redis_db.Hash.{Hash}
use redis_db.Hash.Valid.{IsResting, IsValid, empty-IsHome, count, count-moving, count-resting}
use redis_db.Hash.Advance.{total}
use redis_db.Hash.Iterator.{skip_empty, search_bucket, locate, settle, begin, next}
use redis_db.Hash.Iterator.Operators.{begin_iterator, for_loop}
use redis_db.Hash.Iterator.Loop.{for_loop-visits}
use redis_db.Hash.Iterator.Unique.{IsUnique, at_address}
use redis_db.Hash.Iterator.Visits.{begin-undefined}
use redis_db.Hash.Tests.{traits, program, node, begun}
use redis_db.Hash.Tests.Operations.{two}
use redis_db.Hash.Tests.Rehash.{begun-IsMoving}

pub begun-IsValid : IsValid traits begun
begun-IsValid = inr (_, begun-IsMoving, omega arith)

-- A walk over the hash of two nodes.
two_steps :
    (do
      (first, h) ← begin traits two
      (second, h) ← next traits h 1003
      (third, h) ← next traits h 1002
      ok (first ++ second ++ third))
    ≡ ok (node 3 30 ∷ node 2 20 ∷ [])
unfolding program begin search_bucket next settle skip_empty locate
two_steps = refl

abbrev nothing : Hash (ℕ × ℕ)
nothing = record two { active = record { nodes = replicate 4 []; size = 0; buckets_number = 4 } }

nothing-IsResting : IsResting traits nothing
unfolding flatten replicate
nothing-IsResting = record {
  home = empty-IsHome traits 4 (2, refl, omega arith) (omega arith);
  single = refl;
  number = refl;
  mask = refl;
  index = refl;
  sized = refl;
}

none_there : total nothing ≡ 0
unfolding flatten replicate count_if
none_there = count-resting traits (λ _. true) nothing-IsResting

begin-undefined_example : begin traits nothing ≡ undefined
begin-undefined_example = begin-undefined traits nothing (inl nothing-IsResting) none_there

begun-IsUnique : IsUnique begun
unfolding count_if flatten
begun-IsUnique a = grind (arith, count-moving traits (at_address a) begun-IsMoving)

begun-none_at : count (at_address 0) begun ≡ 0
unfolding count_if flatten
begun-none_at = count-moving traits (at_address 0) begun-IsMoving

begun-some : 1 ≤ total begun
unfolding count_if flatten
begun-some = omega (arith, count-moving traits (λ _. true) begun-IsMoving)

for_loop-visits_example :
    Returns
      (do (it, h) ← begin_iterator traits begun; for_loop traits (suc (total begun)) h it)
      λ values. (q : ℕ × ℕ → Bool) → count_if q values ≡ count (λ n. q n.value) begun
for_loop-visits_example =
    for_loop-visits traits begun begun-IsValid begun-some begun-IsUnique begun-none_at
