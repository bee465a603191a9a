-- ===== src/Hash/Move.antt =====
-- src/hash.h, the two loops of `Hash::rehash`: nodes go from the active table to the backup, none
-- is lost or doubled, and each comes to the bucket of its key.
use redis_db.Prelude.{
  ℕ, ◌+◌, ◌-◌, ◌≡◌, refl, ◌∙◌, Bool, true, some, [], ◌∷◌, arith, length, word, count_if,
  count_if-true, ok,
}
use redis_db.Traits.{Traits, slot}
use redis_db.Table.{HashNode, Chain, HashTable, insert_node}
use redis_db.Table.Bags.{bucket, contents, insert_node-Rewrites, Rewrites-IsPlaced}
use redis_db.Hash.{move_chain}
use redis_db.Hash.Valid.{slot-lt, IsHome}

module _ {ℓ} {T K : Type ℓ} (traits : Traits T K) where
  open traits use {get_key}

  -- `r` is `b` with the nodes of `c` added.
  pub record Absorbs (b : HashTable T) (c : Chain T) (r : HashTable T) : Type ℓ where
    pub home : IsHome traits r
    pub width : r.buckets_number ≡ b.buckets_number
    pub bag :
        (p : HashNode T → Bool) → count_if p (contents r) ≡ count_if p (contents b) + count_if p c
    pub sized : b.size ≡ word (length (contents b)) → r.size ≡ word (length (contents r))

  -- `insertNode` at the bucket of the node's key.
  pub insert_node-Absorbs :
      (b : HashTable T) (n : HashNode T)
      → IsHome traits b
      → Absorbs b
          (n ∷ [])
          (insert_node b (slot traits (b.buckets_number - 1) (get_key n.value)) n).1
  unfolding count_if
  insert_node-Absorbs b n v =
      let i = slot traits (b.buckets_number - 1) (get_key n.value) in
      let (_, size, w) = insert_node-Rewrites b i n v.table (slot-lt _ v.power) in
      record {
        home = record {
          table = w.table;
          power = rw w.width v.power;
          small = rw w.width v.small;
          placed = rw w.width (
              Rewrites-IsPlaced traits (b.buckets_number - 1) i (n ∷ bucket b i) w v.placed
                (refl, v.placed i));
        };
        width = w.width;
        bag = λ p. omega (arith, w.bag p);
        sized = λ e. omega (
          arith,
          w.bag (λ _. true),
          count_if-true (contents b),
          count_if-true (contents (insert_node b i n).1),
        );
      }

  -- The inner loop.
  pub move_chain-Absorbs :
      (mask : ℕ) (c : Chain T) (b : HashTable T)
      → IsHome traits b
      → mask ≡ b.buckets_number - 1
      → (r : HashTable T) × (move_chain traits mask c (some b) ≡ ok (some r)) × Absorbs b c r
  unfolding move_chain count_if
  move_chain-Absorbs mask [] b v e =
      (b, refl, record { home = v; width = refl; bag = λ p. omega arith; sized = λ s. s })
  move_chain-Absorbs mask (n ∷ c) b v e =
      let a = insert_node-Absorbs b n v in
      let (r, run, t) = move_chain-Absorbs mask c _ a.home (rw a.width e) in
      (
        r,
        rw e run,
        record {
          home = t.home;
          width = t.width ∙ a.width;
          bag = λ p. omega (arith, t.bag p, a.bag p);
          sized = λ s. t.sized (a.sized s);
        },
      )
