-- ===== src/Hash/Erase/Drops.antt =====
-- src/hash.h, `HashTable::eraseNode` on a table whose nodes all stand in their buckets.
use redis_db.Prelude.{
  ℕ, ◌+◌, ◌-◌, ◌^◌, ◌≡◌, refl, ap, ◌∙◌, inl, inr, Bool, true, false, none, some, [], arith, to_nat,
  length, word, count_if, count_if-true, ◌==◌, Bool-cases, ==→≡,
}
use redis_db.Traits.{Traits, slot}
use redis_db.Table.{HashNode, HashTable, erase_node}
use redis_db.Table.Chains.{erase_first, count_if-erase_first, All-erase_first}
use redis_db.Table.Bags.{
  bucket, contents, home, Rewrites, Rewrites-IsPlaced, erase_node-none, erase_node-some,
}
use redis_db.Hash.Valid.{slot-lt, IsHome}
use redis_db.Hash.Lookup.{find_in}

module _ {ℓ} {T K : Type ℓ} (traits : Traits T K) where
  -- `r` is `t` without the node `n`.
  pub record Drops (t : HashTable T) (n : HashNode T) (r : HashTable T) : Type ℓ where
    pub home : IsHome traits r
    pub width : r.buckets_number ≡ t.buckets_number
    pub bag :
        (p : HashNode T → Bool) → count_if p (contents r) + to_nat (p n) ≡ count_if p (contents t)
    pub sized : t.size ≡ word (length (contents t)) → r.size ≡ word (length (contents r))
    pub empty : (j : ℕ) → bucket t j ≡ [] → bucket r j ≡ []

  erase_first-nil : (k : K) → erase_first traits k [] ≡ []
  unfolding erase_first
  erase_first-nil k = refl

  Rewrites-Drops :
      (t r : HashTable T) (k : K) (n : HashNode T)
      → IsHome traits t
      → find_in traits t k ≡ some n
      → r.size ≡ word (t.size + (2 ^ 64 - 1))
      → (let i = slot traits (t.buckets_number - 1) k in
          Rewrites t i (erase_first traits k (bucket t i)) r)
      → Drops t n r
  Rewrites-Drops t r k n v e size w =
      let mask = t.buckets_number - 1 in
      let i = slot traits mask k in
      let bag : (p : HashNode T → Bool)
          → count_if p (contents r) + to_nat (p n) ≡ count_if p (contents t) =
        λ p. omega (arith, w.bag p, count_if-erase_first traits p k (bucket t i) n e) in
      record {
        home = record {
          table = w.table;
          power = rw w.width v.power;
          small = rw w.width v.small;
          placed = rw w.width (
              Rewrites-IsPlaced traits mask i _ w v.placed
                (All-erase_first traits (λ n. home traits mask n ≡ i) k (bucket t i) (v.placed i)));
        };
        width = w.width;
        bag = bag;
        sized = λ s.
            omega (
              arith,
              size,
              bag (λ _. true),
              count_if-true (contents t),
              count_if-true (contents r),
            );
        empty = λ j z. rw (w.buckets j) (elim (Bool-cases (i == j)) [
          | inl same ↦
              let here : bucket t i ≡ [] = ap (bucket t) (==→≡ i j same) ∙ z in
              rw (same, here) (erase_first-nil k)
          | inr other ↦ rw other z
        ]);
      }

  -- `eraseNode` in the bucket of a key that the table has.
  pub erase_node-Drops :
      (t : HashTable T) (k : K) (n : HashNode T)
      → IsHome traits t
      → find_in traits t k ≡ some n
      → (r : HashTable T) × (erase_node traits t (slot traits (t.buckets_number - 1) k) k
          ≡ (true, r))
        × Drops t n r
  erase_node-Drops t k n v e =
      let i = slot traits (t.buckets_number - 1) k in
      let (r, run, size, w) =
        erase_node-some traits t i k n v.table (slot-lt (traits.hasher k) v.power) e in
      (r, run, Rewrites-Drops t r k n v e size w)

  pub erase_node-misses :
      (t : HashTable T) (k : K)
      → IsHome traits t
      → find_in traits t k ≡ none
      → erase_node traits t (slot traits (t.buckets_number - 1) k) k ≡ (false, t)
  erase_node-misses t k v e = erase_node-none traits t _ k (slot-lt (traits.hasher k) v.power) e
