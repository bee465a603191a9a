-- ===== src/SkipList/Iterator.antt =====
-- src/redisIterator.h, the iterators of the skip list, and the loops over it. An iterator is the
-- pointer `mPtr` that it holds.
use redis_db.Prelude.{
  ℕ, zero, suc, ◌+◌, Bool, true, false, not, List, [], ◌∷◌, ◌==◌, Run, ok, diverges, ◌>>=◌,
}
use redis_db.SkipList.{SkipList, next_node, prev_node, begin, rbegin}
use redis_db.SkipList.Memory.{Heap}

unfoldable pub is_equal : ℕ → ℕ → Bool
is_equal it other = it == other

unfoldable pub is_not_equal : ℕ → ℕ → Bool
is_not_equal it other = not (it == other)

module _ {ℓ} {K V : Type ℓ} where
  -- The prefix operators of `RedisBidirectionalIterator`.
  unfoldable pub increment : Heap K V → ℕ → Run ℕ
  unfolding next_node
  increment h it = next_node h it

  unfoldable pub decrement : Heap K V → ℕ → Run ℕ
  unfolding prev_node
  decrement h it = prev_node h it

  -- The postfix operators: what they return, and where the iterator then stands.
  unfoldable pub post_increment : Heap K V → ℕ → Run (ℕ × ℕ)
  unfolding next_node
  post_increment h it = do p ← next_node h it; ok (it, p)

  unfoldable pub post_decrement : Heap K V → ℕ → Run (ℕ × ℕ)
  unfolding prev_node
  post_decrement h it = do p ← prev_node h it; ok (it, p)

  -- Those of `RedisBidirectionalReverseIterator`.
  unfoldable pub reverse_increment : Heap K V → ℕ → Run ℕ
  unfolding prev_node
  reverse_increment h it = prev_node h it

  unfoldable pub reverse_decrement : Heap K V → ℕ → Run ℕ
  unfolding next_node
  reverse_decrement h it = next_node h it

  unfoldable pub reverse_post_increment : Heap K V → ℕ → Run (ℕ × ℕ)
  unfolding prev_node
  reverse_post_increment h it = do p ← prev_node h it; ok (it, p)

  unfoldable pub reverse_post_decrement : Heap K V → ℕ → Run (ℕ × ℕ)
  unfolding next_node
  reverse_post_decrement h it = do p ← next_node h it; ok (it, p)

  -- The loop of `printList` on fuel: the nodes that it prints.
  unfoldable pub walk : Heap K V → (fuel it end : ℕ) → Run (List ℕ)
  unfolding is_not_equal post_increment
  walk h zero it end = diverges
  walk h (suc fuel) it end = elim (is_not_equal it end) [
    | true ↦ do r ← post_increment h it; rest ← walk h fuel r.1 end; ok (it ∷ rest)
    | false ↦ ok []
  ]

  unfoldable pub printed_list : Heap K V → SkipList → Run (List ℕ)
  unfolding begin walk
  printed_list h l = do first ← begin h l; walk h (l.length + 1) first l.tail

  -- The same loop with reverse iterators, from `rbegin` to `rend`.
  unfoldable pub reverse_walk : Heap K V → (fuel it end : ℕ) → Run (List ℕ)
  unfolding is_not_equal reverse_post_increment
  reverse_walk h zero it end = diverges
  reverse_walk h (suc fuel) it end = elim (is_not_equal it end) [
    | true ↦ do r ← reverse_post_increment h it; rest ← reverse_walk h fuel r.1 end; ok (it ∷ rest)
    | false ↦ ok []
  ]

  unfoldable pub reverse_list : Heap K V → SkipList → Run (List ℕ)
  unfolding rbegin reverse_walk
  reverse_list h l = do first ← rbegin h l; reverse_walk h (l.length + 1) first l.head
