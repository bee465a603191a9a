-- ===== src/Table.antt =====
-- src/hash.h, `HashNode` and `HashTable`: an array of buckets, each a chain of nodes.
-- A chain is the list of its nodes, so a node with the nodes behind it is the list from there on,
-- and `nullptr` is the empty list. The address is the one that `new` gave the node.
pub mod Chains
pub mod Bags
use redis_db.Prelude.{
  ℕ, ◌+◌, ◌-◌, ◌^◌, Bool, true, false, Option, none, some, List, [], ◌∷◌, if◌then◌else◌, ltb, leb,
  length, get_or, set, replicate, word, Run, ok, undefined,
}
use redis_db.Traits.{Traits, has_key}

pub record HashNode {ℓ} (T : Type ℓ) : Type ℓ where
  pub address : ℕ
  pub value : T

abbrev pub Chain {ℓ} : Type ℓ → Type ℓ
Chain T = List (HashNode T)

-- `nodes` is the array behind `mNodes`.
pub record HashTable {ℓ} (T : Type ℓ) : Type ℓ where
  pub nodes : List (Chain T)
  pub size : ℕ
  pub buckets_number : ℕ

module _ {ℓ} {T : Type ℓ} where
  -- The constructor. Its loop counts in `int`, which overflows from 2 ^ 31 buckets on.
  unfoldable pub new_table : ℕ → Run (HashTable T)
  new_table buck =
      if ltb buck (2 ^ 31)
      then ok (record { nodes = replicate buck []; size = 0; buckets_number = buck })
      else undefined

  -- The guard keeps the index inside `mNodes`, which has `mBucketsNumber` cells.
  unfoldable pub get_bucket_head : HashTable T → ℕ → Chain T
  get_bucket_head t index = if leb t.buckets_number index then [] else get_or t.nodes index []

  -- There is no guard: an index outside the array is undefined behaviour.
  unfoldable pub reset_bucket : HashTable T → ℕ → Run (HashTable T)
  reset_bucket t index =
      if ltb index (length t.nodes)
      then ok (record t { nodes = set t.nodes index [] })
      else undefined

  -- The node in front of a bucket, by whether the bucket is empty.
  unfoldable pub link : HashNode T → Chain T → Chain T
  link n [] = n ∷ []
  link n (head ∷ c) = n ∷ head ∷ c

  unfoldable pub insert_node : HashTable T → ℕ → HashNode T → Bool × HashTable T
  unfolding link
  insert_node t index n = if leb t.buckets_number index then (false, t) else (
    true,
    record t {
      nodes = set t.nodes index (link n (get_or t.nodes index []));
      size = word (t.size + 1);
    },
  )

module _ {ℓ} {T K : Type ℓ} (traits : Traits T K) where
  -- The loop of `get`.
  unfoldable pub find : K → Chain T → Option (HashNode T)
  find k [] = none
  find k (n ∷ c) = if has_key traits k n.value then some n else find k c

  -- There is no guard here either.
  unfoldable pub get : HashTable T → ℕ → K → Run (Option (HashNode T))
  get t index k =
      if ltb index (length t.nodes) then ok (find k (get_or t.nodes index [])) else undefined

  -- The loop of `isExist` over the nodes behind the head.
  unfoldable pub is_exist_next : K → Chain T → Bool
  is_exist_next k [] = false
  is_exist_next k (n ∷ c) = if has_key traits k n.value then true else is_exist_next k c

  unfoldable pub is_exist_chain : K → Chain T → Bool
  unfolding is_exist_next
  is_exist_chain k [] = false
  is_exist_chain k (head ∷ c) = if has_key traits k head.value then true else is_exist_next k c

  unfoldable pub is_exist : HashTable T → ℕ → K → Bool
  unfolding is_exist_chain
  is_exist t index k =
      if leb t.buckets_number index then false else is_exist_chain k (get_or t.nodes index [])

  -- The loop of `eraseNode` over the nodes behind the head: whether it unlinked a node, and the
  -- nodes that are left.
  unfoldable pub erase_next : K → Chain T → Bool × Chain T
  erase_next k [] = (false, [])
  erase_next k (n ∷ c) =
      let rest = erase_next k c in
      if has_key traits k n.value then (true, c) else (rest.0, n ∷ rest.1)

  unfoldable pub erase_chain : HashTable T → ℕ → K → Chain T → Bool × HashTable T
  unfolding erase_next
  erase_chain t index k [] = (false, t)
  erase_chain t index k (head ∷ c) =
      let rest = erase_next k c in
      let shorter = word (t.size + (2 ^ 64 - 1)) in
      if has_key traits k head.value
      then (true, record t { nodes = set t.nodes index c; size = shorter })
      else if rest.0
      then (true, record t { nodes = set t.nodes index (head ∷ rest.1); size = shorter })
      else (false, t)

  unfoldable pub erase_node : HashTable T → ℕ → K → Bool × HashTable T
  unfolding erase_chain
  erase_node t index k =
      if leb t.buckets_number index
      then (false, t)
      else erase_chain t index k (get_or t.nodes index [])
