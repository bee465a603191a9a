-- ===== src/Hash/Valid.antt =====
-- src/hash.h, the states of `Hash` that the operations keep to.
use native.Mathlib.Nat.{mod-lt}
use redis_db.Prelude.{
  ℕ, ◌+◌, ◌-◌, ◌^◌, ◌≤◌, ◌<◌, ◌≡◌, refl, ◌∙◌, ◌⊎◌, Bool, true, Option, none, some, List, [], ◌++◌,
  arith, length, replicate, word, bit_and, bit_and_mask, count_if, flatten, count_if-append,
  count_if-true, count_if-le, count_if-split, not, ◌&&◌, count_if-flatten-replicate,
  get_or-replicate, length-replicate, to_nat, Returns,
}
use redis_db.Traits.{Traits}
use redis_db.Table.{HashNode, HashTable}
use redis_db.Table.Bags.{bucket, contents, IsTable, IsPlaced}
use redis_db.Hash.{Hash, npos, new_hash}

-- A number of buckets: a power of two from 4 on.
abbrev pub IsPower : ℕ → Type 0
IsPower n = (k : ℕ) × (n ≡ 2 ^ k) × (4 ≤ n)

pub slot-lt : {n : ℕ} (x : ℕ) → IsPower n → bit_and x (n - 1) < n
slot-lt x (k, e, h) = rw (e, bit_and_mask k x) (mod-lt x (omega arith))

module _ {ℓ} {T : Type ℓ} where
  backup_nodes : Option (HashTable T) → List (HashNode T)
  backup_nodes none = []
  backup_nodes (some b) = contents b

  -- How many nodes of a hash pass a test.
  pub count : (HashNode T → Bool) → Hash T → ℕ
  unfolding backup_nodes
  count p h = count_if p (contents h.active ++ backup_nodes h.backup)

  pub count-le :
      (p q : HashNode T → Bool)
      → ((n : HashNode T) → to_nat (p n) ≤ to_nat (q n))
      → (h : Hash T) → count p h ≤ count q h
  unfolding count
  count-le p q le h = count_if-le p q le (contents h.active ++ backup_nodes h.backup)

  pub count-split :
      (p q : HashNode T → Bool) (h : Hash T)
      → count (λ n. p n && q n) h + count (λ n. p n && not (q n)) h ≡ count p h
  unfolding count
  count-split p q h = count_if-split p q (contents h.active ++ backup_nodes h.backup)

  pub count-single :
      (p : HashNode T → Bool) (h : Hash T)
      → h.backup ≡ none
      → count p h ≡ count_if p (contents h.active)
  unfolding count backup_nodes count_if
  count-single p h e = rw e (omega (arith, count_if-append p (contents h.active) []))

  pub count-double :
      (p : HashNode T → Bool) (h : Hash T) (b : HashTable T)
      → h.backup ≡ some b
      → count p h ≡ count_if p (contents h.active) + count_if p (contents b)
  unfolding count backup_nodes
  count-double p h b e = rw e (count_if-append p (contents h.active) (contents b))

  -- Both hold the same nodes, as often.
  abbrev pub SameNodes : Hash T → Hash T → Type ℓ
  SameNodes h r = (p : HashNode T → Bool) → count p r ≡ count p h

module _ {ℓ} {T K : Type ℓ} (traits : Traits T K) where
  -- A table by itself: its width is a power of two that `int` can count to, and each node stands
  -- in the bucket of its key.
  pub record IsHome (t : HashTable T) : Type ℓ where
    pub table : IsTable t
    pub power : IsPower t.buckets_number
    pub small : t.buckets_number < 2 ^ 31
    pub placed : IsPlaced traits (t.buckets_number - 1) t

  -- No rehash is going on.
  pub record IsResting (h : Hash T) : Type ℓ where
    pub home : IsHome h.active
    pub single : h.backup ≡ none
    pub number : h.buckets_number ≡ h.active.buckets_number
    pub mask : h.buckets_mask ≡ h.active.buckets_number - 1
    pub index : h.rehash_index ≡ npos
    pub sized : h.active.size ≡ word (length (contents h.active))

  -- A rehash is going on into the table `b`: the buckets below the index have been moved.
  pub record IsMoving (h : Hash T) (b : HashTable T) : Type ℓ where
    pub home : IsHome h.active
    pub new_home : IsHome b
    pub backup : h.backup ≡ some b
    pub number : h.buckets_number ≡ b.buckets_number
    pub mask : h.buckets_mask ≡ b.buckets_number - 1
    pub index : h.rehash_index ≤ h.active.buckets_number
    pub moved : (i : ℕ) → i < h.rehash_index → bucket h.active i ≡ []
    pub sized : b.size ≡ word (length (contents b))

  -- The states between two operations.
  abbrev pub IsValid : Hash T → Type ℓ
  IsValid h =
      IsResting h ⊎ ((b : HashTable T) × IsMoving h b × (h.rehash_index < h.active.buckets_number))

  -- A table of empty buckets.
  pub empty-IsHome :
      (n : ℕ)
      → IsPower n
      → n < 2 ^ 31
      → IsHome (record { nodes = replicate n []; size = 0; buckets_number = n })
  empty-IsHome n p h = record {
    table = length-replicate n [];
    power = p;
    small = h;
    placed = λ i. rw get_or-replicate tt;
  }

  pub count-resting :
      (p : HashNode T → Bool) {h : Hash T}
      → IsResting h
      → count p h ≡ count_if p (contents h.active)
  count-resting p {h} r = count-single p h r.single

  pub count-moving :
      (p : HashNode T → Bool) {h : Hash T} {b : HashTable T}
      → IsMoving h b
      → count p h ≡ count_if p (contents h.active) + count_if p (contents b)
  count-moving p {h} {b} m = count-double p h b m.backup

  -- The constructor makes a valid hash with no node.
  pub new_hash-IsResting :
      Returns (new_hash {T = T}) λ h. IsResting h × ((p : HashNode T → Bool) → count p h ≡ 0)
  unfolding new_hash
  new_hash-IsResting =
      let rest : IsResting _ = record {
        home = empty-IsHome 4 (2, refl, omega arith) (omega arith);
        single = refl;
        number = refl;
        mask = refl;
        index = refl;
        sized = omega (
          arith,
          count_if-flatten-replicate {A = HashNode T} (λ _. true) 4,
          count_if-true {A = HashNode T} (flatten (replicate 4 [])),
        );
      } in
      (_, refl, (rest, λ p. count-resting p rest ∙ count_if-flatten-replicate p 4))
