-- ===== src/Hash/Iterator.antt =====
-- src/hash.h, the iterator of `Hash`: `begin`, `end`, `cbegin`, `cend` and `next`, which first
-- force a rehash to its end. A pointer that they return is the list of the node and those behind
-- it in its chain, and `[]` for `nullptr`.
pub mod Settle
pub mod Walk
pub mod Visits
pub mod Unique
pub mod Operators
pub mod Loop
use redis_db.Prelude.{
  ℕ, zero, suc, ◌+◌, ◌-◌, ◌^◌, Bool, false, List, [], ◌∷◌, if◌then◌else◌, leb, ◌==◌, word,
  int_to_size, Run, ok, undefined, ◌>>=◌,
}
use redis_db.Traits.{Traits, slot}
use redis_db.Table.{HashNode, Chain, HashTable, get_bucket_head}
use redis_db.Hash.{Hash, is_rehashing, rehash}

module _ {ℓ} {T : Type ℓ} where
  -- The loop over empty buckets of `cbegin` and `next`, with `rounds` buckets left.
  unfoldable pub skip_empty : ℕ → HashTable T → ℕ → ℕ
  skip_empty zero t index = index
  skip_empty (suc rounds) t index = elim (get_bucket_head t index) [
    | [] ↦ skip_empty rounds t (suc index)
    | n ∷ c ↦ index
  ]

  -- The loop of `begin`, which has no bound: the `int` counter overflows after `rounds`.
  unfoldable pub search_bucket : ℕ → HashTable T → ℕ → Run ℕ
  search_bucket zero t index = undefined
  search_bucket (suc rounds) t index = elim (get_bucket_head t index) [
    | [] ↦ search_bucket rounds t (suc index)
    | n ∷ c ↦ ok index
  ]

  -- The node at an address in a chain, and those behind it.
  unfoldable pub locate_chain : ℕ → Chain T → Chain T
  locate_chain address [] = []
  locate_chain address (n ∷ c) =
      let rest = locate_chain address c in if n.address == address then n ∷ c else rest

  -- The node at an address in the buckets.
  unfoldable pub locate : ℕ → List (Chain T) → Chain T
  unfolding locate_chain
  locate address [] = []
  locate address (c ∷ bs) =
      let rest = locate address bs in elim (locate_chain address c) [ [] ↦ rest | n ∷ d ↦ n ∷ d ]

module _ {ℓ} {T K : Type ℓ} (traits : Traits T K) where
  open traits use {get_key}

  -- What each of the five functions does first. The argument of `rehash` is an `int`.
  unfoldable pub settle : Hash T → Run (Hash T)
  unfolding is_rehashing
  settle h =
      if is_rehashing h then rehash traits (int_to_size h.active.buckets_number) false h else ok h

  unfoldable pub cbegin : Hash T → Run (Chain T × Hash T)
  unfolding settle skip_empty
  cbegin h = do
    h₁ ← settle h
    let index = skip_empty h₁.active.buckets_number h₁.active 0
    ok ((if leb h₁.active.buckets_number index then [] else get_bucket_head h₁.active index), h₁)

  -- The condition of the `if` after the loop is never true.
  unfoldable pub begin : Hash T → Run (Chain T × Hash T)
  unfolding settle search_bucket
  begin h = do
    h₁ ← settle h
    index ← search_bucket (2 ^ 31) h₁.active 0
    ok (get_bucket_head h₁.active index, h₁)

  -- Also `cend`.
  unfoldable pub end : Hash T → Run (Chain T × Hash T)
  unfolding settle
  end h = do h₁ ← settle h; ok ([], h₁)

  -- `next` behind the call of `rehash`: from the node, with those behind it in its chain. A pointer
  -- to no node is undefined behaviour.
  unfoldable pub next_from : Hash T → Chain T → Run (Chain T × Hash T)
  unfolding skip_empty
  next_from h [] = undefined
  next_from h (n ∷ m ∷ c) = ok (m ∷ c, h)
  next_from h (n ∷ []) =
      let index = word (slot traits h.buckets_mask (get_key n.value) + 1) in
      let i = skip_empty (h.active.buckets_number - index) h.active index in
      ok ((if leb h.buckets_number i then [] else get_bucket_head h.active i), h)

  -- `next` of the node at an address.
  unfoldable pub next : Hash T → ℕ → Run (Chain T × Hash T)
  unfolding settle locate next_from
  next h address = do h₁ ← settle h; next_from h₁ (locate address h₁.active.nodes)
