-- ===== src/Hash/Iterator/Loop.antt =====
-- src/hash.h, the loop over a hash with `RedisHashIterator`.
use mathlib.Core.List.{append_assoc}
use redis_db.Prelude.{
  ℕ, zero, suc, ◌≤◌, ◌<◌, ◌≡◌, ◌≢◌, refl, ap, sym, subst, ◌∙◌, inl, inr, Bool, true, false, not,
  List, [], ◌∷◌, ◌++◌, arith, length, count_if, count_if-true, ≡→==, ≢→==, Run, ok, ◌>>=◌, Returns,
}
use redis_db.Traits.{Traits}
use redis_db.Table.{HashNode, Chain}
use redis_db.Table.Bags.{contents}
use redis_db.Hash.{Hash}
use redis_db.Hash.Valid.{IsResting, IsValid, count, count-resting}
use redis_db.Hash.Advance.{total}
use redis_db.Hash.Iterator.{end, next}
use redis_db.Hash.Iterator.Settle.{settle-resting}
use redis_db.Hash.Iterator.Walk.{PointsTo}
use redis_db.Hash.Iterator.Visits.{cbegin-PointsTo, begin-cbegin}
use redis_db.Hash.Iterator.Unique.{at_address, IsUnique, counted, next-behind}
use redis_db.Hash.Iterator.Operators.{
  HashIterator, is_not_equal, star, next_pointer, post_increment, end_iterator, begin_iterator,
  for_loop,
}

module _ {ℓ} {T K : Type ℓ} (traits : Traits T K) where
  abbrev at : Chain T → HashIterator T
  at c = record { pointer = c }

  end_iterator-resting : (h : Hash T) → IsResting traits h → end_iterator traits h ≡ ok (at [], h)
  unfolding end_iterator end
  end_iterator-resting h v = rw (settle-resting traits h v) refl

  for_loop-stop :
      (fuel : ℕ) (h : Hash T) → IsResting traits h → for_loop traits (suc fuel) h (at []) ≡ ok []
  unfolding for_loop
  for_loop-stop fuel h v = rw (end_iterator-resting h v) refl

  node-is_not_equal :
      (n : HashNode T) (c : Chain T) → n.address ≢ 0 → is_not_equal (at (n ∷ c)) (at []) ≡ true
  unfolding is_not_equal
  node-is_not_equal n c ne = ap not (≢→== n.address 0 ne)

  for_loop-step :
      (fuel : ℕ) (h r : Hash T) (n : HashNode T) (c p : Chain T) (rest : List T)
      → IsResting traits h
      → n.address ≢ 0
      → next traits h n.address ≡ ok (p, r)
      → for_loop traits fuel r (at p) ≡ ok rest
      → for_loop traits (suc fuel) h (at (n ∷ c)) ≡ ok (n.value ∷ rest)
  unfolding for_loop star post_increment next_pointer
  for_loop-step fuel h r n c p rest v ne e f = rw (end_iterator-resting h v) (
      subst
        (λ b.
          elim b as (λ _. Run (List T)) [
            | false ↦ ok []
            | true ↦ do
              value ← star (at (n ∷ c))
              (_, on, s) ← post_increment traits h (at (n ∷ c))
              values ← for_loop traits fuel s on
              ok (value ∷ values)
          ]
          ≡ ok (n.value ∷ rest))
        (sym (node-is_not_equal n c ne)) (rw (e, f) refl))

  -- The values of these nodes, one after the other.
  for_loop-rest :
      (fuel : ℕ) (h : Hash T) (pointer : Chain T) (before rest : List (HashNode T))
      → IsResting traits h
      → IsUnique h
      → count (at_address 0) h ≡ 0
      → contents h.active ≡ before ++ rest
      → length rest < fuel
      → PointsTo pointer rest
      → Returns
          (for_loop traits fuel h (at pointer))
          λ values. (q : T → Bool) → count_if q values ≡ count_if (λ n. q n.value) rest
  unfolding count_if
  for_loop-rest zero h pointer before rest v u null split lt points = absurd (omega arith)
  for_loop-rest (suc fuel) h pointer before rest v u null split lt (inl (e, f)) =
      ([], rw e (for_loop-stop fuel h v), λ q. rw f refl)
  for_loop-rest (suc fuel) h pointer before rest v u null split lt (inr (m, d, tail, e, f)) =
      let whole : contents h.active ≡ before ++ (m ∷ (d ++ tail)) =
        split ∙ ap (λ t. before ++ t) f in
      let (r, run, (same, points)) = next-behind traits h m before (d ++ tail) v u whole in
      let longer : contents h.active ≡ (before ++ (m ∷ [])) ++ (d ++ tail) =
        whole ∙ sym (append_assoc before (m ∷ []) (d ++ tail)) in
      let short : length (d ++ tail) < fuel = omega (arith, ap length f) in
      let (values, on, counts) =
        for_loop-rest fuel h r.0 (before ++ (m ∷ [])) (d ++ tail) v u null longer short points in
      let there : m.address ≢ 0 = λ z. absurd (
        omega (
          arith,
          null,
          count-resting traits (at_address 0) v,
          ap (count_if (at_address 0)) whole,
          counted (at_address 0) before m (d ++ tail) (≡→== m.address 0 z),
        )) in
      (
        m.value ∷ values,
        rw e (
            for_loop-step fuel h r.1 m d r.0 values v there run
              (ap (λ s. for_loop traits fuel s (at r.0)) same ∙ on)),
        λ q. omega (arith, counts q, ap (count_if (λ n. q n.value)) f),
      )

  -- Of a valid hash with a node, a rehash going on or not, whose nodes stand at different addresses
  -- and none at the null pointer: the loop from `begin` to `end` by `it++` runs without undefined
  -- behaviour to an end, in at most one round more than there are nodes, and its body sees the
  -- value of every node just once.
  pub for_loop-visits :
      (h : Hash T)
      → IsValid traits h
      → 1 ≤ total h
      → IsUnique h
      → count (at_address 0) h ≡ 0
      → Returns
          (do (it, h₁) ← begin_iterator traits h; for_loop traits (suc (total h)) h₁ it)
          λ values. (q : T → Bool) → count_if q values ≡ count (λ n. q n.value) h
  unfolding begin_iterator
  for_loop-visits h v some_node u null =
      let (r, run, (rest, same, points)) = cbegin-PointsTo traits h v in
      let enough : length (contents r.1.active) < suc (total h) = omega (
        arith,
        same (λ _. true),
        count-resting traits (λ _. true) rest,
        count_if-true (contents r.1.active),
      ) in
      let unique : IsUnique r.1 = λ a. omega (arith, same (at_address a), u a) in
      let (values, on, counts) =
        for_loop-rest (suc (total h)) r.1 r.0 [] (contents r.1.active) rest unique
          (same (at_address 0) ∙ null) refl enough points in
      (
        values,
        rw (begin-cbegin traits h v some_node, run) on,
        λ q. counts q ∙ sym (count-resting traits (λ n. q n.value) rest) ∙ same (λ n. q n.value),
      )
