-- ===== src/SkipList.antt =====
-- src/SkipList.h, the operations of `SkipList`: nodes on a heap, each with a vector of next nodes
-- and one of spans, level by level.
pub mod Memory
pub mod Loops
pub mod Towers
pub mod Layout
pub mod Search
pub mod Ends
pub mod Split
pub mod Reads
pub mod Rank
pub mod Bounds
pub mod Frame
pub mod Splice
pub mod Link
pub mod Raise
pub mod Between
pub mod Backward
pub mod Unlink
pub mod Laws
pub mod Destroyed
pub mod Levels
pub mod Created
pub mod Iterator
pub mod Walks
pub mod Insert
pub mod Erase
mod Tests
use redis_db.Prelude.{
  ℕ, zero, suc, ◌+◌, ◌-◌, ◌*◌, ◌^◌, ◌≡◌, max, Bool, true, false, not, ◌&&◌, Option, none, some,
  if◌then◌else◌, ltb, leb, ◌==◌, bit_and, Run, ok, undefined, diverges, ◌>>=◌,
}
use Memory.{
  Heap, null, update, new_node, set_level_num, next_at, span_at, entry_at, backward_at, set_next,
  set_span, set_backward, int_add, int_sub,
}
pub use Loops.{Order, SkipList, Descent}
unfoldable pub use Loops.{
  stops_at, search, descend, raise_levels, link_level, link_levels, unlink_level, unlink_levels,
  lower_level,
}

abbrev pub zskiplist_maxlevel : ℕ
zskiplist_maxlevel = 64

-- The loop of `generateRandomLevel` on fuel; `rand i` is what the `i`-th call of `std::rand`
-- returns, and ZSKIPLIST_P * 0xFFFF is 16383.75.
unfoldable pub level_loop : (rand : ℕ → ℕ) → (fuel level : ℕ) → Run ℕ
level_loop rand zero level = diverges
level_loop rand (suc fuel) level = elim (ltb (bit_and (rand level) 0xFFFF * 4) (0xFFFF)) [
  | true ↦ level_loop rand fuel (level + 1)
  | false ↦ ok level
]

unfoldable pub generate_random_level : (rand : ℕ → ℕ) → (fuel : ℕ) → Run ℕ
unfolding level_loop
generate_random_level rand fuel = do
  level ← level_loop rand fuel 0
  ok (if ltb level zskiplist_maxlevel then level else zskiplist_maxlevel - 1)

module _ {ℓ} {K V : Type ℓ} where
  -- The constructor; `blank` is the key and the value of the dummy nodes.
  unfoldable pub new_skip_list : Heap K V → K × V → (head tail : ℕ) → Run (Heap K V × SkipList)
  unfolding new_node set_level_num set_next set_backward
  new_skip_list h blank head tail = do
    let h = new_node h head blank.0 blank.1
    let h = new_node h tail blank.0 blank.1
    let h = set_level_num h head 1
    let h = set_level_num h tail 1
    h ← set_next h head 0 tail
    h ← set_backward h tail head
    ok (h, record { head = head; tail = tail; max_level = 0; length = 0 })

  -- The part of `erase` behind the test, once `node` is known to have the key.
  unfoldable pub erase_node : Heap K V → SkipList → Descent → ℕ → Run (Heap K V × SkipList)
  unfolding unlink_levels next_at set_backward lower_level
  erase_node h l d node = do
    h ← unlink_levels node d (l.max_level + 1) 0 h
    after ← next_at h node 0
    h ← set_backward h after (d.prevs 0)
    m ← lower_level l.head l.tail l.max_level h
    ok (h, record l { max_level = m; length = int_sub l.length 1 })

module _ {ℓ} {K V : Type ℓ} (order : Order K) where
  open order use {less, equal}

  -- `insert`, with the level that `generateRandomLevel` returns and the address that `new` returns.
  -- It always returns true.
  unfoldable pub insert :
      Heap K V → SkipList → (fresh level : ℕ) → K → V → Run (Heap K V × SkipList)
  unfolding new_node set_level_num descend raise_levels link_levels next_at set_backward
  insert h l fresh level k v = do
    let h = set_level_num (new_node h fresh k v) fresh (level + 1)
    let new_max_level = max l.max_level level
    d ← descend l (λ key. less k key) h
    let h = if ltb l.max_level level then set_level_num h l.head (level + 1) else h
    (prevs, h) ← raise_levels l (level - l.max_level) d.prevs h
    h ← link_levels fresh level (record d { prevs = prevs }) (new_max_level + 1) 0 h
    h ← set_backward h fresh (prevs 0)
    after ← next_at h fresh 0
    h ← set_backward h after fresh
    ok (h, record l { max_level = new_max_level; length = int_add l.length 1 })

  -- `erase` of the first node with the key. The node is not deleted.
  unfoldable pub erase : Heap K V → SkipList → K → Run (Bool × Heap K V × SkipList)
  unfolding descend next_at entry_at erase_node
  erase h l k = do
    d ← descend l (λ key. not (less key k)) h
    node ← next_at h d.node 0
    absent ← if node == l.tail then ok true else (do e ← entry_at h node; ok (not (equal e.0 k)))
    if absent then ok (false, h, l) else (do r ← erase_node h l d node; ok (true, r.0, r.1))

  -- `isInRange`
  unfoldable pub is_in_range : Heap K V → SkipList → K → Run Bool
  unfolding next_at entry_at backward_at
  is_in_range h l k = do
    first ← next_at h l.head 0
    e ← entry_at h first
    if less k e.0
        then ok false
        else (do last ← backward_at h l.tail; f ← entry_at h last; ok (not (less f.0 k)))

  unfoldable pub lower_bound : Heap K V → SkipList → K → Run ℕ
  unfolding is_in_range descend next_at
  lower_bound h l k = do
    inside ← is_in_range h l k
    if inside then (do d ← descend l (λ key. not (less key k)) h; next_at h d.node 0) else ok null

  unfoldable pub upper_bound : Heap K V → SkipList → K → Run ℕ
  unfolding is_in_range descend next_at
  upper_bound h l k = do
    inside ← is_in_range h l k
    if inside then (do d ← descend l (λ key. less k key) h; next_at h d.node 0) else ok null

  unfoldable pub get_rank : Heap K V → SkipList → K → Run ℕ
  unfolding descend entry_at
  get_rank h l k = do
    d ← descend l (λ key. less k key) h
    e ← entry_at h d.node
    ok (if equal e.0 k then d.rank else 0)

unfoldable pub get_max_level : SkipList → ℕ
get_max_level l = l.max_level

unfoldable pub set_max_level : SkipList → ℕ → SkipList
set_max_level l ml = record l { max_level = ml }

unfoldable pub get_length : SkipList → ℕ
get_length l = l.length

module _ {ℓ} {K V : Type ℓ} where
  -- `SkipListNode::next` and `prev`, the steps of the iterators and of the reverse iterators.
  unfoldable pub next_node : Heap K V → ℕ → Run ℕ
  unfolding next_at
  next_node h p = next_at h p 0

  unfoldable pub prev_node : Heap K V → ℕ → Run ℕ
  unfolding backward_at
  prev_node h p = backward_at h p

  -- `begin` and `rbegin`; `end` is the tail and `rend` the head.
  unfoldable pub begin : Heap K V → SkipList → Run ℕ
  unfolding next_at
  begin h l = next_at h l.head 0

  unfoldable pub rbegin : Heap K V → SkipList → Run ℕ
  unfolding backward_at
  rbegin h l = backward_at h l.tail

  -- The loop of the destructor, on fuel: the memory without the nodes from `p` on.
  unfoldable pub delete_from : (fuel : ℕ) → ℕ → Heap K V → Run (Heap K V)
  unfolding next_at
  delete_from zero p h = diverges
  delete_from (suc fuel) p h = elim (p == null) [
    | true ↦ ok h
    | false ↦ do
      next ← next_at h p 0
      delete_from fuel next
          (record h { entry = update h.entry p none; levels = update h.levels p 0 })
  ]

  unfoldable pub destroy : Heap K V → SkipList → Run (Heap K V)
  unfolding delete_from
  destroy h l = delete_from (l.length + 3) l.head h
