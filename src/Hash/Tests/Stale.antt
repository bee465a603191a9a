-- ===== src/Hash/Tests/Stale.antt =====
-- The theorems about the call that begins a rehash, at the five insertions.
use redis_db.Prelude.{
  ℕ, suc, zero, ◌≡◌, ◌≤◌, ◌∙◌, refl, none, arith, ok, Returns, get_or, count_if, flatten,
}
use redis_db.Table.Bags.{IsPlaced}
use redis_db.Table.Chains.{holds_key}
use redis_db.HashFunction.{hash_integer}
use redis_db.Hash.Operations.{insert, get}
use redis_db.Hash.Valid.{count, count-resting}
use redis_db.Hash.Stale.{IsOverloaded}
use redis_db.Hash.Stale.Get.{get_throws}
use redis_db.Hash.Stale.Insert.{Misfiled, insert_misfiles}
use redis_db.Hash.Tests.{traits, overloaded, begun, advance-overloaded}

overloaded-IsPlaced : IsPlaced traits 3 overloaded.active
unfolding get_or hash_integer
overloaded-IsPlaced zero = (refl, (refl, tt))
overloaded-IsPlaced (suc zero) = (refl, tt)
overloaded-IsPlaced (suc (suc zero)) = (refl, tt)
overloaded-IsPlaced (suc (suc (suc zero))) = (refl, tt)
overloaded-IsPlaced (suc (suc (suc (suc i)))) = tt

pub overloaded-IsOverloaded : IsOverloaded traits overloaded
unfolding flatten
overloaded-IsOverloaded = record {
  resting = record {
    home = record {
      table = refl;
      power = (2, refl, omega arith);
      small = omega arith;
      placed = overloaded-IsPlaced;
    };
    single = refl;
    number = refl;
    mask = refl;
    index = refl;
    sized = refl;
  };
  over = omega arith;
  exact = omega arith;
}

count-overloaded :
    (k n : ℕ)
    → count_if (holds_key traits k) (flatten overloaded.active.nodes) ≡ n
    → count (holds_key traits k) overloaded ≡ n
count-overloaded k n e =
    count-resting traits (holds_key traits k) overloaded-IsOverloaded.resting ∙ e

pub one_three : count (holds_key traits 3) overloaded ≡ 1
unfolding count_if flatten
one_three = count-overloaded 3 1 refl

no_five : count (holds_key traits 9) overloaded ≡ 0
unfolding count_if flatten
no_five = count-overloaded 9 0 refl

get_throws_example :
    (get traits overloaded 3 ≡ ok (none, begun)) × (1 ≤ count (holds_key traits 3) begun)
unfolding hash_integer
get_throws_example =
    get_throws traits overloaded begun 3 overloaded-IsOverloaded (omega (arith, one_three))
      advance-overloaded (omega arith) (omega arith)

insert_misfiles_example : Returns (insert traits overloaded 1009 (9, 90)) (Misfiled traits 9)
unfolding hash_integer
insert_misfiles_example =
    insert_misfiles traits overloaded begun 1009 (9, 90) overloaded-IsOverloaded no_five
      advance-overloaded (omega arith)
