-- ===== src/Hash/Stale/Insert.antt =====
-- src/hash.h, `insert` in the call that begins a rehash.
use redis_db.Prelude.{
  ℕ, ◌+◌, ◌-◌, ◌<◌, ◌≡◌, ◌≢◌, refl, sym, ap, ◌∙◌, subst, inl, inr, none, some, arith, to_nat, ≢→==,
  count_if, count_if-get_or-le, ok, ok-injective, Returns,
}
use redis_db.Traits.{Traits, slot, equal_refl}
use redis_db.Table.{HashNode, HashTable, find, get as table_get, insert_node}
use redis_db.Table.Chains.{holds_key, find-eq-none}
use redis_db.Table.Bags.{bucket, contents, get-find, insert_node-Rewrites}
use redis_db.Hash.{Hash, advance}
use redis_db.Hash.Operations.{get_at, insert_at, insert}
use redis_db.Hash.Valid.{
  slot-lt, IsHome, IsResting, IsMoving, count, count-resting, count-moving, count-single,
  count-double,
}
use redis_db.Hash.Advance.{
  moving-is_rehashing, resting-is_rehashing, index-is_rehashing, npos-is_rehashing,
}
use redis_db.Hash.Lookup.{active_index-slot}
use redis_db.Hash.Stale.{IsOverloaded, Started, advance-Started}

module _ {ℓ} {T K : Type ℓ} (traits : Traits T K) where
  open traits use {get_key}

  -- A table with no node under the key.
  absent :
      (t : HashTable T) (k : K) (i : ℕ)
      → count_if (holds_key traits k) (contents t) ≡ 0
      → find traits k (bucket t i) ≡ none
  absent t k i z =
      find-eq-none traits k (bucket t i)
        (omega (arith, z, count_if-get_or-le (holds_key traits k) t.nodes i))

  -- A new node in another bucket than the key's is not found there.
  other-insert_node :
      (t : HashTable T) (n : HashNode T) (i : ℕ) (k : K)
      → IsHome traits t
      → i < t.buckets_number
      → i ≢ slot traits (t.buckets_number - 1) k
      → count_if (holds_key traits k) (contents t) ≡ 0
      → table_get traits (insert_node t i n).1 (slot traits (t.buckets_number - 1) k) k ≡ ok none
  other-insert_node t n i k v lt ne z =
      let j = slot traits (t.buckets_number - 1) k in
      let (_, _, w) = insert_node-Rewrites t i n v.table lt in
      let below : j < (insert_node t i n).1.buckets_number =
        rw w.width (slot-lt (traits.hasher k) v.power) in
      rw (get-find traits (insert_node t i n).1 j k w.table below, w.buckets j, ≢→== i j ne)
        (ap ok (absent t k j z))

  grown :
      (t : HashTable T) (n : HashNode T) (i : ℕ)
      → IsHome traits t
      → i < t.buckets_number
      → count_if (holds_key traits (get_key n.value)) (contents (insert_node t i n).1)
        ≡ count_if (holds_key traits (get_key n.value)) (contents t) + 1
  unfolding count_if
  grown t n i v lt =
      let k = get_key n.value in
      let (_, _, w) = insert_node-Rewrites t i n v.table lt in
      omega (arith, w.bag (holds_key traits k), ap to_nat (equal_refl traits k))

  -- What `insert` at a stale index leaves: the bucket of the key has no node with the key.
  abbrev pub Misfiled : K → Hash T → Type ℓ
  Misfiled k s =
      (get_at traits s (slot traits s.buckets_mask k) k ≡ ok none)
      × (count (holds_key traits k) s ≡ 1)

  Misfiled-moving :
      (r : Hash T) (c : HashTable T) (n : HashNode T) (i : ℕ)
      → IsMoving traits r c
      → r.rehash_index < r.active.buckets_number
      → i < c.buckets_number
      → i ≢ slot traits r.buckets_mask (get_key n.value)
      → count (holds_key traits (get_key n.value)) r ≡ 0
      → Returns (insert_at r i n) (Misfiled (get_key n.value))
  unfolding insert_at get_at
  Misfiled-moving r c n i m lt below ne z =
      let k = get_key n.value in
      let p = holds_key traits k in
      let s : Hash T = record r { backup = some (insert_node c i n).1 } in
      let split = count-moving traits p m in
      let ne' : i ≢ slot traits (c.buckets_number - 1) k =
        λ e. ne (e ∙ ap (λ x. slot traits x k) (sym m.mask)) in
      let new = other-insert_node c n i k m.new_home below ne' (omega arith) in
      let old =
        get-find traits r.active _ k m.home.table (slot-lt (traits.hasher k) m.home.power) in
      let none_old =
        absent r.active k (slot traits (r.active.buckets_number - 1) k) (omega arith) in
      (
        s,
        rw (moving-is_rehashing traits m lt, m.backup),
        (
          rw (
            index-is_rehashing s lt m.home.small,
            m.mask,
            new,
            active_index-slot traits s k m.home,
            old,
            none_old,
          ),
          omega (arith, count-double p s (insert_node c i n).1 refl, grown c n i m.new_home below),
        ),
      )

  Misfiled-resting :
      (r : Hash T) (n : HashNode T) (i : ℕ)
      → IsResting traits r
      → i < r.active.buckets_number
      → i ≢ slot traits r.buckets_mask (get_key n.value)
      → count (holds_key traits (get_key n.value)) r ≡ 0
      → Returns (insert_at r i n) (Misfiled (get_key n.value))
  unfolding insert_at get_at
  Misfiled-resting r n i v below ne z =
      let k = get_key n.value in
      let p = holds_key traits k in
      let s : Hash T = record r { active = (insert_node r.active i n).1 } in
      let split = count-resting traits p v in
      let ne' : i ≢ slot traits (r.active.buckets_number - 1) k =
        λ e. ne (e ∙ ap (λ x. slot traits x k) (sym v.mask)) in
      let new = other-insert_node r.active n i k v.home below ne' (omega arith) in
      (
        s,
        rw (resting-is_rehashing traits v),
        (
          rw (npos-is_rehashing s v.index, v.mask, new),
          omega (arith, count-single p s v.single, grown r.active n i v.home below),
        ),
      )

  -- `insert` misfiles a new key: into an overloaded table that has no node with the key, when the
  -- key has another bucket in the new table than in the old one. Then the node is in the hash, and
  -- the search in the bucket of the key does not find it.
  pub insert_misfiles :
      (h r : Hash T) (address : ℕ) (v : T)
      → IsOverloaded traits h
      → count (holds_key traits (get_key v)) h ≡ 0
      → advance traits h ≡ ok r
      → slot traits h.buckets_mask (get_key v) ≢ slot traits r.buckets_mask (get_key v)
      → Returns (insert traits h address v) (Misfiled (get_key v))
  unfolding insert
  insert_misfiles h r address v over fresh e ne =
      let k = get_key v in
      let i = slot traits h.buckets_mask k in
      let n : HashNode T = record { address = address; value = v } in
      let (r', run, t) = advance-Started traits h over in
      let started : Started traits h r = subst (Started traits h) (ok-injective (sym run ∙ e)) t in
      let home_i : i ≡ slot traits (h.active.buckets_number - 1) k =
        ap (λ x. slot traits x k) over.resting.mask in
      let below : i < h.active.buckets_number =
        rw home_i (slot-lt (traits.hasher k) over.resting.home.power) in
      let none_r : count (holds_key traits k) r ≡ 0 = started.0 _ ∙ fresh in
      rw e (elim started.1 [
        | inl (c, m, lt, w, wider) ↦ Misfiled-moving r c n i m lt (omega arith) ne none_r
        | inr (rest, wider) ↦ Misfiled-resting r n i rest (omega arith) ne none_r
      ])
