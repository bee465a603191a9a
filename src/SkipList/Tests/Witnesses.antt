-- ===== src/SkipList/Tests/Witnesses.antt =====
-- src/SkipList.h, the theorems on lists of one and of two nodes with number keys.
use redis_db.Prelude.{
  leb, ok, false, ℕ, ◌≡◌, refl, subst, sym, ap, true, ◌==◌, ◌||◌, arith, Run, ok, undefined,
  diverges, Returns, [], ◌∷◌, if◌then◌else◌,
}
use redis_db.SkipList.{
  SkipList, new_skip_list, insert, lower_bound, upper_bound, get_rank, erase, destroy,
}
use redis_db.SkipList.Memory.{Heap}
use redis_db.SkipList.Towers.{Tower}
use redis_db.SkipList.Layout.{IsSkipList}
use redis_db.SkipList.Created.{new_skip_list-IsSkipList}
use redis_db.SkipList.Insert.Run.{insert-IsSkipList}
use redis_db.SkipList.Rank.{get_rank-not_above}
use redis_db.SkipList.Bounds.{lower_bound-first_at, upper_bound-first_at}
use redis_db.SkipList.Iterator.{printed_list, reverse_list}
use redis_db.SkipList.Walks.{printed_list-addresses, reverse_list-addresses}
use redis_db.SkipList.Erase.Run.{erase-IsSkipList}
use redis_db.SkipList.Destroyed.{Frees, destroy-Frees}
use redis_db.SkipList.Laws.{insert_erase, erase-insert}
use redis_db.SkipList.Tests.{order, no_memory, program}

abbrev State : Type 0
State = Heap ℕ ℕ × SkipList

abbrev value : Run State → State
value (ok a) = a
value undefined = (no_memory, record { head = 0; tail = 0; max_level = 0; length = 0 })
value diverges = (no_memory, record { head = 0; tail = 0; max_level = 0; length = 0 })

-- What a run that ends in `a` leaves holds of `a`.
returned : (run : Run State) (P : State → Type 0) → Returns run P → P (value run)
returned run P (a, e, p) = subst P (sym (ap value e)) p

abbrev nothing : State
nothing = value (new_skip_list no_memory (0, 0) 1 2)

abbrev one : State
one = value (insert order nothing.0 nothing.1 10 1 5 50)

abbrev two : State
two = value (insert order one.0 one.1 11 0 3 30)

abbrev five : Tower ℕ ℕ
five = record { address = 10; height = 2; key = 5; value = 50 }

abbrev three : Tower ℕ ℕ
three = record { address = 11; height = 1; key = 3; value = 30 }

nothing-IsSkipList : IsSkipList order nothing.0 nothing.1 []
nothing-IsSkipList =
    returned (new_skip_list no_memory (0, 0) 1 2) (λ r. IsSkipList order r.0 r.1 [])
      (new_skip_list-IsSkipList order no_memory (0, 0) 1 2 (omega arith) (omega arith)
        (omega arith))

one-IsSkipList : IsSkipList order one.0 one.1 (five ∷ [])
unfolding program
one-IsSkipList =
    returned (insert order nothing.0 nothing.1 10 1 5 50)
      (λ r. IsSkipList order r.0 r.1 (five ∷ []))
      (insert-IsSkipList order nothing.0 nothing.1 [] 10 1 5 50 nothing-IsSkipList refl
        (omega arith) (omega arith))

two-IsSkipList : IsSkipList order two.0 two.1 (three ∷ (five ∷ []))
unfolding program
two-IsSkipList =
    returned (insert order one.0 one.1 11 0 3 30)
      (λ r. IsSkipList order r.0 r.1 (three ∷ (five ∷ [])))
      (insert-IsSkipList order one.0 one.1 (five ∷ []) 11 0 3 30 one-IsSkipList refl (omega arith)
        (omega arith))

new_skip_list-IsSkipList_example :
    Returns (new_skip_list no_memory (0, 0) 1 2) (λ r. IsSkipList order r.0 r.1 [])
new_skip_list-IsSkipList_example =
    new_skip_list-IsSkipList order no_memory (0, 0) 1 2 (omega arith) (omega arith) (omega arith)

insert-IsSkipList_example :
    Returns
      (insert order one.0 one.1 11 0 3 30)
      (λ r. IsSkipList order r.0 r.1 (three ∷ (five ∷ [])))
unfolding program
insert-IsSkipList_example =
    insert-IsSkipList order one.0 one.1 (five ∷ []) 11 0 3 30 one-IsSkipList refl (omega arith)
      (omega arith)

erase-IsSkipList_example :
    Returns (erase order two.0 two.1 5) (λ r. (r.0 ≡ true) × IsSkipList order r.1 r.2 (three ∷ []))
erase-IsSkipList_example =
    erase-IsSkipList order two.0 two.1 (three ∷ (five ∷ [])) 5 two-IsSkipList (omega arith)

destroy-Frees_example :
    Returns
      (destroy two.0 two.1)
      (Frees two.0 (λ q. (1 == q) || ((2 == q) || ((11 == q) || ((10 == q) || false)))))
unfolding program
destroy-Frees_example = destroy-Frees order two.0 two.1 (three ∷ (five ∷ [])) two-IsSkipList

get_rank-not_above_example : get_rank order two.0 two.1 5 ≡ ok 2
get_rank-not_above_example =
    get_rank-not_above order two.0 two.1 (three ∷ (five ∷ [])) 5 two-IsSkipList (omega arith)

lower_bound-first_at_example : lower_bound order two.0 two.1 4 ≡ ok 10
lower_bound-first_at_example =
    lower_bound-first_at order two.0 two.1 three (five ∷ []) 4 two-IsSkipList (omega arith)

upper_bound-first_at_example : upper_bound order two.0 two.1 3 ≡ ok 10
upper_bound-first_at_example =
    upper_bound-first_at order two.0 two.1 three (five ∷ []) 3 two-IsSkipList (omega arith)

printed_list-addresses_example : printed_list two.0 two.1 ≡ ok (11 ∷ (10 ∷ []))
printed_list-addresses_example =
    printed_list-addresses order two.0 two.1 (three ∷ (five ∷ [])) two-IsSkipList

reverse_list-addresses_example : reverse_list two.0 two.1 ≡ ok (10 ∷ (11 ∷ []))
reverse_list-addresses_example =
    reverse_list-addresses order two.0 two.1 (three ∷ (five ∷ [])) two-IsSkipList

-- The first seventy draws are low.
abbrev seventy : ℕ → ℕ
seventy i = if leb 70 i then 16384 else 16383

erase-insert_example :
    Returns
      (insert_erase order one.0 one.1 11 0 3 30)
      (λ r. (r.0 ≡ true) × IsSkipList order r.1 r.2 (five ∷ []))
unfolding program
erase-insert_example =
    erase-insert order one.0 one.1 (five ∷ []) 11 0 3 30 one-IsSkipList refl refl (omega arith)
      (omega arith)
