-- ===== src/SkipList/Tests.antt =====
-- Runs of src/SkipList.h, on lists with number keys.
mod Witnesses
use redis_db.Prelude.{
  ℕ, ◌+◌, ◌*◌, ◌≡◌, refl, Bool, true, false, not, ◌&&◌, ltb, ◌==◌, arith, none, Option, some, Run,
  ok, ◌>>=◌, List, [], ◌∷◌, if◌then◌else◌,
}
use redis_db.SkipList.Memory.{
  Heap, null, new_node, set_level_num, next_at, span_at, entry_at, backward_at, set_next, set_span,
  set_backward,
}
use redis_db.SkipList.{
  Order, SkipList, new_skip_list, insert, erase, lower_bound, upper_bound, get_rank, begin, rbegin,
  next_node, prev_node, generate_random_level, destroy,
}

pub equal_lem : (a b : ℕ) → (a == b) ≡ (not (ltb a b) && not (ltb b a))
equal_lem a b = ground arith

pub asymm : (a b : ℕ) → ltb a b ≡ true → ltb b a ≡ false
asymm a b h = ground arith

pub cotrans : (a b c : ℕ) → ltb a c ≡ true → ltb b c ≡ false → ltb a b ≡ true
cotrans a b c h k = ground arith

-- `<` and `==` of the numbers.
abbrev pub order : Order ℕ
order = record {
  less = λ a b. ltb a b;
  equal = λ a b. a == b;
  equal_iff = equal_lem;
  less_asymm = asymm;
  less_of_not_less = cotrans;
}

abbrev pub no_memory : Heap ℕ ℕ
no_memory = record {
  entry = λ _. none;
  levels = λ _. 0;
  next = λ _ _. null;
  span = λ _ _. 0;
  backward = λ _. null;
}

pub program : Unit {0}
unfolding new_skip_list insert erase lower_bound upper_bound get_rank begin rbegin next_node
    prev_node generate_random_level destroy
program = tt

-- `insert` of four keys, at the levels 0, 2, 1 and 0. The nodes stand at the addresses 10 and up,
-- the dummy nodes at 1 and 2.
abbrev pub four : Run (Heap ℕ ℕ × SkipList)
four = do
  (h, l) ← new_skip_list no_memory (0, 0) 1 2
  (h, l) ← insert order h l 10 0 1 100
  (h, l) ← insert order h l 11 2 8 800
  (h, l) ← insert order h l 12 1 3 300
  insert order h l 13 0 3 301

-- The walk of the iterator: 1, 3, 3, 8 and the end.
forward :
    (do
      (h, l) ← four
      a ← begin h l
      b ← next_node h a
      c ← next_node h b
      d ← next_node h c
      e ← next_node h d
      ok (a ∷ b ∷ c ∷ d ∷ e ∷ []))
    ≡ ok (10 ∷ 12 ∷ 13 ∷ 11 ∷ 2 ∷ [])
unfolding program
forward = refl

backwards :
    (do
      (h, l) ← four
      a ← rbegin h l
      b ← prev_node h a
      c ← prev_node h b
      d ← prev_node h c
      e ← prev_node h d
      ok (a ∷ b ∷ c ∷ d ∷ e ∷ []))
    ≡ ok (11 ∷ 13 ∷ 12 ∷ 10 ∷ 1 ∷ [])
unfolding program
backwards = refl

ranks :
    (do
      (h, l) ← four
      a ← get_rank order h l 1
      b ← get_rank order h l 2
      c ← get_rank order h l 3
      d ← get_rank order h l 8
      e ← lower_bound order h l 3
      f ← upper_bound order h l 3
      ok (a ∷ b ∷ c ∷ d ∷ e ∷ f ∷ []))
    ≡ ok (1 ∷ 0 ∷ 3 ∷ 4 ∷ 12 ∷ 11 ∷ [])
unfolding program
ranks = refl

-- After `erase(3)` and `erase(8)` the highest level is 0 again.
erased :
    (do
      (h, l) ← four
      (_, h, l) ← erase order h l 3
      (_, h, l) ← erase order h l 8
      (found, h, l) ← erase order h l 9
      a ← begin h l
      b ← next_node h a
      c ← next_node h b
      d ← get_rank order h l 3
      e ← rbegin h l
      ok (l.length ∷ l.max_level ∷ a ∷ b ∷ c ∷ d ∷ e ∷ []))
    ≡ ok (2 ∷ 0 ∷ 10 ∷ 13 ∷ 2 ∷ 2 ∷ 13 ∷ [])
unfolding program
erased = refl

-- The level is the number of draws below a quarter that come first.
level_two : generate_random_level (λ i. if i == 2 then 16384 else 16383) 9 ≡ ok 2
unfolding program
level_two = refl
