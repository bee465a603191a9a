-- ===== src/SkipList/Loops.antt =====
-- src/SkipList.h, the state of `SkipList` and the loops of its operations.
use redis_db.Prelude.{
  ℕ, zero, suc, ◌+◌, ◌≡◌, Bool, true, false, not, ◌&&◌, if◌then◌else◌, leb, ◌==◌, Run, ok, diverges,
  ◌>>=◌,
}
use redis_db.SkipList.Memory.{
  Heap, null, update, next_at, span_at, entry_at, set_next, set_span, int_add, int_sub,
}

-- `operator<` and `operator==` of the keys. The source also uses `>`, `>=` and `!=`, which agree with
-- them.
pub record Order {ℓ} (K : Type ℓ) : Type ℓ where
  pub less : K → K → Bool
  pub equal : K → K → Bool
  pub equal_iff : (a b : K) → equal a b ≡ (not (less a b) && not (less b a))
  pub less_asymm : (a b : K) → less a b ≡ true → less b a ≡ false
  pub less_of_not_less : (a b c : K) → less a c ≡ true → less b c ≡ false → less a b ≡ true

-- `mMaxLevel` starts from 0; `head` and `tail` are dummy nodes.
pub record SkipList : Type 0 where
  pub head : ℕ
  pub tail : ℕ
  pub max_level : ℕ
  pub length : ℕ

-- What a walk down the levels leaves behind: the node where it ends, the rank of that node, and for
-- each level the node where it went down, with its rank.
pub record Descent : Type 0 where
  pub node : ℕ
  pub rank : ℕ
  pub prevs : ℕ → ℕ
  pub ranks : ℕ → ℕ

module _ {ℓ} {K V : Type ℓ} where
  -- The test of the loops below: whether the walk stops in front of `next`.
  unfoldable pub stops_at : (tail : ℕ) → (K → Bool) → Heap K V → ℕ → Run Bool
  unfolding entry_at
  stops_at tail stop h next =
      if next == tail then ok true else (do e ← entry_at h next; ok (stop e.0))

  -- The loop of `insert`, `erase`, `lower_bound`, `upper_bound` and `getRank`, with `levels` levels
  -- left. They differ in the test on the next key and in what they keep: `insert` the nodes and
  -- ranks of all levels, `erase` the nodes, `getRank` the rank, the bounds only the last node.
  -- `rank` is `ranks[currLevel]`. The two vectors of a node have the same size, so that a span can be
  -- read where the source only reads the pointer.
  unfoldable pub search :
      (tail : ℕ)
      → (K → Bool)
      → Heap K V
      → (fuel levels node rank : ℕ) → (prevs ranks : ℕ → ℕ) → Run Descent
  unfolding stops_at next_at span_at
  search tail stop h zero levels node rank prevs ranks = diverges
  search tail stop h (suc fuel) zero node rank prevs ranks =
      ok (record { node = node; rank = rank; prevs = prevs; ranks = ranks })
  search tail stop h (suc fuel) (suc level) node rank prevs ranks = do
    next ← next_at h node level
    stopped ← stops_at tail stop h next
    elim stopped [
      | true ↦
          search tail stop h fuel level node rank (update prevs level node)
            (update ranks level rank)
      | false ↦ do
        s ← span_at h node level
        search tail stop h fuel (suc level) next (int_add rank s) prevs ranks
    ]

  -- A walk goes down `max_level + 1` times and forward at most once for each node.
  unfoldable pub descend : SkipList → (K → Bool) → Heap K V → Run Descent
  unfolding search
  descend l stop h =
      search l.tail stop h (l.length + l.max_level + 2) (l.max_level + 1) l.head 0 (λ _. null)
        (λ _. 0)

  -- The loop of `insert` over the levels above the highest one so far, from `max_level + rounds`
  -- down.
  unfoldable pub raise_levels :
      SkipList → (rounds : ℕ) → (prevs : ℕ → ℕ) → Heap K V → Run ((ℕ → ℕ) × Heap K V)
  unfolding set_next set_span
  raise_levels l zero prevs h = ok (prevs, h)
  raise_levels l (suc rounds) prevs h = do
    let i = l.max_level + suc rounds
    h ← set_next h l.head i l.tail
    h ← set_span h l.head i l.length
    raise_levels l rounds (update prevs i l.head) h

  -- One round of the loop of `insert` that links the new node, at level `i`.
  unfoldable pub link_level : (fresh level : ℕ) → Descent → (i : ℕ) → Heap K V → Run (Heap K V)
  unfolding next_at span_at set_next set_span
  link_level fresh level d i h = do
    let prev = d.prevs i
    next ← next_at h prev i
    s ← span_at h prev i
    if leb i level
        then (do
          h ← set_span h fresh i (int_sub s (int_sub (d.ranks 0) (d.ranks i)))
          h ← set_span h prev i (int_add (int_sub (d.ranks 0) (d.ranks i)) 1)
          h ← set_next h prev i fresh
          set_next h fresh i next)
        else set_span h prev i (int_add s 1)

  unfoldable pub link_levels :
      (fresh level : ℕ) → Descent → (rounds i : ℕ) → Heap K V → Run (Heap K V)
  unfolding link_level
  link_levels fresh level d zero i h = ok h
  link_levels fresh level d (suc rounds) i h = do
    h ← link_level fresh level d i h
    link_levels fresh level d rounds (suc i) h

  -- One round of the loop of `erase`, at level `i`.
  unfoldable pub unlink_level : (node : ℕ) → Descent → (i : ℕ) → Heap K V → Run (Heap K V)
  unfolding next_at span_at set_next set_span
  unlink_level node d i h = do
    let prev = d.prevs i
    next ← next_at h prev i
    s ← span_at h prev i
    if next == node
        then (do
          t ← span_at h node i
          h ← set_span h prev i (int_add s (int_sub t 1))
          after ← next_at h node i
          set_next h prev i after)
        else set_span h prev i (int_sub s 1)

  unfoldable pub unlink_levels : (node : ℕ) → Descent → (rounds i : ℕ) → Heap K V → Run (Heap K V)
  unfolding unlink_level
  unlink_levels node d zero i h = ok h
  unlink_levels node d (suc rounds) i h = do
    h ← unlink_level node d i h
    unlink_levels node d rounds (suc i) h

  -- The loop of `erase` that lowers the highest level.
  unfoldable pub lower_level : (head tail level : ℕ) → Heap K V → Run ℕ
  unfolding next_at
  lower_level head tail zero h = ok zero
  lower_level head tail (suc level) h = do
    next ← next_at h head (suc level)
    elim (next == tail) [ true ↦ lower_level head tail level h | false ↦ ok (suc level) ]
