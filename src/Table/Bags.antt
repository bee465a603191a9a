-- ===== src/Table/Bags.antt =====
-- src/hash.h, `HashTable`: what each operation does to the nodes that a table holds, seen as a
-- bag, and to the buckets in which they stand.
use redis_db.Prelude.{
  ℕ, ◌+◌, ◌-◌, ◌<◌, ◌^◌, ◌≡◌, ◌≢◌, refl, ◌∙◌, Bool, true, false, none, some, List, [], ◌∷◌,
  if◌then◌else◌, ◌==◌, arith, is_some, lt→leb, lt→ltb, length, get_or, set, replicate, get_or-set,
  length-set, word, count_if, flatten, count_if-flatten-set, count_if-flatten_one, count_if-All,
  All, ok,
}
use redis_db.Traits.{Traits, has_key, slot}
use redis_db.Table.{
  HashNode, Chain, HashTable, new_table, insert_node, get_bucket_head, reset_bucket, find, get,
  is_exist, erase_chain, erase_node,
}
use redis_db.Table.Chains.{
  holds_key, erase_first, erase_next-none, erase_next-some, is_exist_chain-find, link_lem,
}

module _ {ℓ} {T : Type ℓ} where
  abbrev pub bucket : HashTable T → ℕ → Chain T
  bucket t i = get_or t.nodes i []

  -- All the nodes of a table.
  abbrev pub contents : HashTable T → List (HashNode T)
  contents t = flatten t.nodes

  -- The array has as many cells as the table believes.
  abbrev pub IsTable : HashTable T → Type 0
  IsTable t = length t.nodes ≡ t.buckets_number

  -- `r` is `t` with the chain of bucket `i` replaced by `c`.
  pub record Rewrites (t : HashTable T) (i : ℕ) (c : Chain T) (r : HashTable T) : Type ℓ where
    pub table : IsTable r
    pub width : r.buckets_number ≡ t.buckets_number
    pub buckets : (j : ℕ) → bucket r j ≡ (if i == j then c else bucket t j)
    pub bag :
        (p : HashNode T → Bool)
        → count_if p (contents r) + count_if p (bucket t i) ≡ count_if p (contents t) + count_if p c

  rewrites :
      (t : HashTable T) (i : ℕ) (c : Chain T) (size : ℕ)
      → IsTable t
      → i < t.buckets_number
      → Rewrites t i c (record t { nodes = set t.nodes i c; size = size })
  rewrites t i c size w h = record {
    table = length-set t.nodes i c ∙ w;
    width = refl;
    buckets = λ j. get_or-set t.nodes i j c [] (omega arith);
    bag = λ p. count_if-flatten-set p t.nodes i c (omega arith);
  }

  pub new_table-ok :
      (n : ℕ)
      → n < 2 ^ 31
      → new_table {T = T} n ≡ ok (record { nodes = replicate n []; size = 0; buckets_number = n })
  unfolding new_table
  new_table-ok n h = rw (lt→ltb n (2 ^ 31) h)

  pub insert_node-Rewrites :
      (t : HashTable T) (i : ℕ) (n : HashNode T)
      → IsTable t
      → i < t.buckets_number
      → ((insert_node t i n).0 ≡ true)
        × ((insert_node t i n).1.size ≡ word (t.size + 1))
        × Rewrites t i (n ∷ bucket t i) (insert_node t i n).1
  unfolding insert_node
  insert_node-Rewrites t i n w h =
      rw (lt→leb t.buckets_number i h, link_lem n (get_or t.nodes i []))
        (refl, refl, rewrites t i (n ∷ bucket t i) _ w h)

  pub reset_bucket-Rewrites :
      (t : HashTable T) (i : ℕ)
      → IsTable t
      → i < t.buckets_number
      → (r : HashTable T) × (reset_bucket t i ≡ ok r) × (r.size ≡ t.size) × Rewrites t i [] r
  unfolding reset_bucket
  reset_bucket-Rewrites t i w h = (
    record t { nodes = set t.nodes i [] },
    rw (lt→ltb i (length t.nodes) (omega arith)),
    refl,
    rewrites t i [] t.size w h,
  )

  pub get_bucket_head-bucket :
      (t : HashTable T) (i : ℕ) → i < t.buckets_number → get_bucket_head t i ≡ bucket t i
  unfolding get_bucket_head
  get_bucket_head-bucket t i h = rw (lt→leb t.buckets_number i h)

module _ {ℓ} {T K : Type ℓ} (traits : Traits T K) where
  open traits use {get_key, equal_iff}

  -- The bucket of a node's key.
  abbrev pub home : ℕ → HashNode T → ℕ
  home mask n = slot traits mask (get_key n.value)

  -- Each node stands in the bucket of its key.
  abbrev pub IsPlaced : ℕ → HashTable T → Type 0
  IsPlaced mask t = (i : ℕ) → All (λ n. home mask n ≡ i) (bucket t i)

  -- Then another bucket has no node under the key,
  pub other_bucket :
      (mask : ℕ) (t : HashTable T) (k : K) (i : ℕ)
      → IsPlaced mask t
      → i ≢ slot traits mask k
      → count_if (holds_key traits k) (bucket t i) ≡ 0
  other_bucket mask t k i placed ne =
      count_if-All (holds_key traits k) elsewhere (bucket t i) (placed i)
    where
      elsewhere : (n : HashNode T) → home mask n ≡ i → has_key traits k n.value ≡ false
      elsewhere n h = grind (arith, equal_iff (get_key n.value) k)

  -- and the bucket of the key has them all.
  pub count_if-bucket :
      (mask : ℕ) (t : HashTable T) (k : K)
      → IsPlaced mask t
      → count_if (holds_key traits k) (contents t)
        ≡ count_if (holds_key traits k) (bucket t (slot traits mask k))
  count_if-bucket mask t k placed =
      count_if-flatten_one _ t.nodes (slot traits mask k) (λ i. other_bucket mask t k i placed)

  pub Rewrites-IsPlaced :
      (mask i : ℕ) (c : Chain T) {t r : HashTable T}
      → Rewrites t i c r
      → IsPlaced mask t
      → All (λ n. home mask n ≡ i) c
      → IsPlaced mask r
  Rewrites-IsPlaced mask i c w placed inside j = rw (w.buckets j) (ground (arith, placed j))

  pub get-find :
      (t : HashTable T) (i : ℕ) (k : K)
      → IsTable t
      → i < t.buckets_number
      → get traits t i k ≡ ok (find traits k (bucket t i))
  unfolding get
  get-find t i k w h = rw (lt→ltb i (length t.nodes) (omega arith))

  pub is_exist-find :
      (t : HashTable T) (i : ℕ) (k : K)
      → i < t.buckets_number
      → is_exist traits t i k ≡ is_some (find traits k (bucket t i))
  unfolding is_exist
  is_exist-find t i k h =
      rw (lt→leb t.buckets_number i h) (is_exist_chain-find traits k (bucket t i))

  erase_chain-none :
      (t : HashTable T) (i : ℕ) (k : K) (c : Chain T)
      → find traits k c ≡ none
      → erase_chain traits t i k c ≡ (false, t)
  unfolding erase_chain find
  erase_chain-none t i k [] e = refl
  erase_chain-none t i k (n ∷ c) e = ground (arith, erase_next-none traits k c)

  erase_chain-some :
      (t : HashTable T) (i : ℕ) (k : K) (c : Chain T) (n : HashNode T)
      → find traits k c ≡ some n
      → erase_chain traits t i k c ≡ (
        true,
        record t {
          nodes = set t.nodes i (erase_first traits k c);
          size = word (t.size + (2 ^ 64 - 1));
        },
      )
  unfolding erase_chain find erase_first
  erase_chain-some t i k [] n e = absurd (cc)
  erase_chain-some t i k (m ∷ c) n e = ground (arith, erase_next-some traits k c n)

  -- A key that its bucket lacks: nothing changes.
  pub erase_node-none :
      (t : HashTable T) (i : ℕ) (k : K)
      → i < t.buckets_number
      → find traits k (bucket t i) ≡ none
      → erase_node traits t i k ≡ (false, t)
  unfolding erase_node
  erase_node-none t i k h e =
      rw (lt→leb t.buckets_number i h) (erase_chain-none t i k (bucket t i) e)

  -- The first node under the key leaves its bucket, and the size falls by one.
  pub erase_node-some :
      (t : HashTable T) (i : ℕ) (k : K) (n : HashNode T)
      → IsTable t
      → i < t.buckets_number
      → find traits k (bucket t i) ≡ some n
      → (r : HashTable T) × (erase_node traits t i k ≡ (true, r))
        × (r.size ≡ word (t.size + (2 ^ 64 - 1)))
        × Rewrites t i (erase_first traits k (bucket t i)) r
  unfolding erase_node
  erase_node-some t i k n w h e = (
    _,
    rw (lt→leb t.buckets_number i h) (erase_chain-some t i k (bucket t i) n e),
    refl,
    rewrites t i (erase_first traits k (bucket t i)) _ w h,
  )
