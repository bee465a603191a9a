-- ===== src/Hash.antt =====
-- src/hash.h, class `Hash` with `HashMap` and `HashSet`: a hash table that is rehashed a few
-- buckets at a time, by the operations that come along. While that goes on there are two tables,
-- `active`, whose buckets below `rehash_index` are moved, and `backup`, which takes the new nodes.
pub mod Operations
pub mod Valid
pub mod Move
pub mod Rounds
pub mod Rehash
pub mod Begins
pub mod Advance
pub mod Destroyed
pub mod Lookup
pub mod Reads
pub mod Insert
pub mod Erase
pub mod Stale
pub mod Laws
pub mod Finish
pub mod Iterator
pub mod Scan
pub mod Map
mod Tests
use redis_db.Prelude.{
  ℕ, zero, suc, ◌+◌, ◌-◌, ◌*◌, ◌^◌, ◌≡◌, refl, min, Bool, true, false, not, ◌&&◌, ◌||◌, Option,
  none, some, List, [], ◌∷◌, if◌then◌else◌, ltb, ◌==◌, word, int_to_size, to_float, Run, ok,
  undefined, diverges, ◌>>=◌, deref, quotient,
}
use redis_db.Traits.{Traits, slot}
use redis_db.Table.{
  HashNode, Chain, HashTable, new_table, get_bucket_head, reset_bucket, insert_node,
}

-- `backup` is `none` for `nullptr`.
pub record Hash {ℓ} (T : Type ℓ) : Type ℓ where
  pub active : HashTable T
  pub backup : Option (HashTable T)
  pub buckets_number : ℕ
  pub buckets_mask : ℕ
  pub rehash_index : ℕ

-- `-1` compared with a `size_t`.
abbrev pub npos : ℕ
npos = 2 ^ 64 - 1

abbrev pub min_buckets_size : ℕ
min_buckets_size = 4

-- The loop of `getNextPower2`, on fuel.
unfoldable pub double_until : ℕ → ℕ → ℕ → Run ℕ
double_until zero init s = diverges
double_until (suc fuel) init s = elim (ltb init s) [
  | true ↦ double_until fuel (word (init * 2)) s
  | false ↦ ok init
]

-- After 62 rounds `init` is 0 and the loop goes on for ever.
unfoldable pub get_next_power2 : ℕ → Run ℕ
get_next_power2 s = double_until 64 min_buckets_size s

module _ {ℓ} {T : Type ℓ} where
  -- The constructor. The hasher is a parameter of the model, the two factors are the constants in
  -- the tests below.
  unfoldable pub new_hash : Run (Hash T)
  unfolding new_table
  new_hash = do
    t ← new_table 4
    ok (record {
      active = t;
      backup = none;
      buckets_number = 4;
      buckets_mask = 3;
      rehash_index = npos;
    })

  unfoldable pub is_rehashing : Hash T → Bool
  is_rehashing h = not (h.rehash_index == npos)

  -- The load factor is 1.0f.
  unfoldable pub is_need_rehash : Hash T → Bool
  is_need_rehash h = ltb (to_float h.active.buckets_number) (to_float h.active.size)

  -- The shrink factor 0.1f is 13421773 / 2 ^ 27, and its product with a power of two is exact.
  unfoldable pub is_need_shrink : Hash T → Bool
  is_need_shrink h =
      ltb min_buckets_size h.active.size
      && ltb (to_float h.active.size * 2 ^ 27) (to_float h.active.buckets_number * 13421773)

  unfoldable pub start_rehashing : Hash T → Hash T
  start_rehashing h = record h { rehash_index = 0 }

  unfoldable pub complete_rehashing : Hash T → Hash T
  complete_rehashing h = record h { rehash_index = npos }

  unfoldable pub calculate_rehash_step : Hash T → Run ℕ
  calculate_rehash_step h = do
    b ← deref h.backup
    if ltb b.buckets_number h.active.buckets_number
        then quotient h.active.buckets_number b.buckets_number
        else quotient b.buckets_number h.active.buckets_number

  -- The first part of `rehash`, when no rehash is going on.
  unfoldable pub begin_rehash : Hash T → Run (Hash T)
  unfolding start_rehashing
  begin_rehash h = do
    n ← get_next_power2 h.active.size
    b ← new_table n
    ok (record (start_rehashing (record h { buckets_number = n; backup = some b })) {
      buckets_mask = word (n + (2 ^ 64 - 1));
    })

  -- The last part of `rehash`: the tables are swapped and the old one is deleted.
  unfoldable pub finish_rehash : Hash T → Run (Hash T)
  unfolding complete_rehashing
  finish_rehash h =
      if h.rehash_index == h.active.buckets_number
      then (do b ← deref h.backup; ok (complete_rehashing (record h { active = b; backup = none })))
      else ok h

module _ {ℓ} {T K : Type ℓ} (traits : Traits T K) where
  open traits use {get_key}

  -- The inner loop of `rehash`: the nodes of a chain, first to last, go in front of their buckets
  -- of the backup. What `insertNode` returns is not looked at.
  unfoldable pub move_chain : ℕ → Chain T → Option (HashTable T) → Run (Option (HashTable T))
  move_chain mask [] backup = ok backup
  move_chain mask (n ∷ c) backup = do
    b ← deref backup
    move_chain mask c (some (insert_node b (slot traits mask (get_key n.value)) n).1)

  -- The outer loop, with `endIndex - mRehashIndex` rounds left.
  unfoldable pub rehash_loop : ℕ → Hash T → Run (Hash T)
  unfolding move_chain
  rehash_loop zero h = ok h
  rehash_loop (suc rounds) h = do
    b ← move_chain h.buckets_mask (get_bucket_head h.active h.rehash_index) h.backup
    a ← reset_bucket h.active h.rehash_index
    rehash_loop rounds
        (record h { active = a; backup = b; rehash_index = word (h.rehash_index + 1) })

  -- The part of `rehash` between its first and its last `if`.
  unfoldable pub rehash_buckets : ℕ → Hash T → Run (Hash T)
  unfolding rehash_loop
  rehash_buckets step h =
      let end_index = min (word (h.rehash_index + step)) h.active.buckets_number in
      if ltb h.rehash_index h.active.buckets_number
      then rehash_loop (end_index - h.rehash_index) h
      else ok h

  -- `step` is an `int` in the source, here its value as a `size_t`.
  unfoldable pub rehash : ℕ → Bool → Hash T → Run (Hash T)
  unfolding rehash_buckets begin_rehash finish_rehash calculate_rehash_step
  rehash step is_auto h = do
    h₁ ← if h.rehash_index == npos then begin_rehash h else ok h
    by ← if is_auto then (do s ← calculate_rehash_step h₁; ok (int_to_size s)) else ok step
    h₂ ← rehash_buckets by h₁
    finish_rehash h₂

  -- What every operation on a key does first.
  unfoldable pub advance : Hash T → Run (Hash T)
  unfolding is_rehashing is_need_rehash
  advance h = if is_rehashing h || is_need_rehash h then rehash 2 true h else ok h
