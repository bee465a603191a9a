-- ===== src/Hash/Stale/Sound.antt =====
-- src/hash.h, `HashMap::get` at any valid hash, also in the call that begins a rehash.
use redis_db.Prelude.{
  ℕ, ◌-◌, ◌≤◌, ◌<◌, ◌≡◌, refl, ap, ◌⊎◌, inl, inr, Bool, true, Option, none, some, Option-cases,
  arith, to_nat, count_if, count_if-get_or-le, Returns,
}
use redis_db.Traits.{Traits, slot}
use redis_db.Table.{HashNode, HashTable, find}
use redis_db.Table.Chains.{holds_key, find-eq-some}
use redis_db.Table.Bags.{bucket, contents, get-find}
use redis_db.Hash.{Hash}
use redis_db.Hash.Operations.{get_at, get}
use redis_db.Hash.Valid.{slot-lt, IsValid, SameNodes, count, count-resting, count-moving}
use redis_db.Hash.Advance.{IsReady, moving-is_rehashing, resting-is_rehashing}
use redis_db.Hash.Lookup.{Answers, active_index-slot}
use redis_db.Hash.Reads.{get-Answers}
use redis_db.Hash.Stale.{IsOverloaded, Started, advance-Started}

module _ {ℓ} {T K : Type ℓ} (traits : Traits T K) where
  -- Nothing is found, or a node that has the key and is one of those counted.
  abbrev pub Finds : K → ((HashNode T → Bool) → ℕ) → Option (HashNode T) → Type ℓ
  Finds k counts o =
      (o ≡ none)
      ⊎ ((n : HashNode T) × (o ≡ some n)
          × (holds_key traits k n ≡ true)
          × ((p : HashNode T → Bool) → to_nat (p n) ≤ counts p))

  -- The call begins no rehash, or there are more nodes than buckets, counted exactly.
  abbrev pub IsDecided : Hash T → Type ℓ
  IsDecided h = IsReady h ⊎ IsOverloaded traits h

  Answers-Finds :
      (k : K) (f : (HashNode T → Bool) → ℕ) (o : Option (HashNode T))
      → Answers traits k f o
      → Finds k f o
  Answers-Finds k f o (inl (e, _)) = inl e
  Answers-Finds k f o (inr found) = inr found

  -- A search of any bucket of a table.
  find-Finds :
      (t : HashTable T) (k : K) (i : ℕ)
      → Finds k (λ p. count_if p (contents t)) (find traits k (bucket t i))
  find-Finds t k i = elim (Option-cases (find traits k (bucket t i))) [
    | inl e ↦ inl e
    | inr (n, e) ↦
        let (key, _, member) = find-eq-some traits k (bucket t i) n e in
        inr (n, e, key, λ p. omega (arith, member p, count_if-get_or-le p t.nodes i))
  ]

  Finds-le :
      (k : K) (f g : (HashNode T → Bool) → ℕ) (o : Option (HashNode T))
      → ((p : HashNode T → Bool) → f p ≤ g p)
      → Finds k f o
      → Finds k g o
  Finds-le k f g o le (inl e) = inl e
  Finds-le k f g o le (inr (n, e, key, member)) =
      inr (n, e, key, λ p. omega (arith, member p, le p))

  get_at-Finds :
      (h r : Hash T) (k : K)
      → IsOverloaded traits h
      → Started traits h r
      → Returns (get_at traits r (slot traits h.buckets_mask k) k) (Finds k (λ p. count p h))
  unfolding get_at
  get_at-Finds h r k v (same, started) =
      let i = slot traits h.buckets_mask k in
      let home_i : i ≡ slot traits (h.active.buckets_number - 1) k =
        ap (λ x. slot traits x k) v.resting.mask in
      let below : i < h.active.buckets_number =
        rw home_i (slot-lt (traits.hasher k) v.resting.home.power) in
      elim started [
        | inr (rest, wider) ↦ (
          find traits k (bucket r.active i),
          rw (resting-is_rehashing traits rest)
              (get-find traits r.active i k rest.home.table (omega arith)),
          Finds-le k _ _ _ (λ p. omega (arith, count-resting traits p rest, same p))
              (find-Finds r.active k i),
        )
        | inl (c, m, lt, w, wider) ↦
            let j = slot traits (r.active.buckets_number - 1) k in
            let new = get-find traits c i k m.new_home.table (omega arith) in
            let old =
              get-find traits r.active j k m.home.table (slot-lt (traits.hasher k) m.home.power) in
            elim (Option-cases (find traits k (bucket c i))) [
              | inl e ↦ (
                find traits k (bucket r.active j),
                rw
                    (
                      moving-is_rehashing traits m lt,
                      m.backup,
                      new,
                      e,
                      active_index-slot traits r k m.home,
                    )
                    old,
                Finds-le k _ _ _ (λ p. omega (arith, count-moving traits p m, same p))
                    (find-Finds r.active k j),
              )
              | inr (n, e) ↦ (
                find traits k (bucket c i),
                rw (moving-is_rehashing traits m lt, m.backup, new, e) refl,
                Finds-le k _ _ _ (λ p. omega (arith, count-moving traits p m, same p))
                    (find-Finds c k i),
              )
            ]
      ]

  Started-IsValid : (h r : Hash T) → Started traits h r → IsValid traits r
  Started-IsValid h r (_, inl (c, m, lt, _, _)) = inr (c, m, lt)
  Started-IsValid h r (_, inr (rest, _)) = inl rest

  -- Of a valid hash, where the call begins no rehash, and where it begins one because there are
  -- more nodes than buckets, fewer than 2 ^ 24: `get` runs without undefined behaviour to an end,
  -- keeps the hash valid and its nodes the same, and returns no node but one that has the key and
  -- is in the hash.
  pub get-Finds :
      (h : Hash T) (k : K)
      → IsValid traits h
      → IsDecided h
      → Returns
          (get traits h k)
          λ r. Finds k (λ p. count p h) r.0 × IsValid traits r.1 × SameNodes h r.1
  unfolding get
  get-Finds h k v (inl ready) =
      let (r, run, (answer, w, same)) = get-Answers traits h k v ready in
      (r, run, (Answers-Finds k _ r.0 answer, w, same))
  get-Finds h k v (inr over) =
      let (r, run, started) = advance-Started traits h over in
      let (o, found, finds) = get_at-Finds h r k over started in
      ((o, r), rw (run, found) refl, (finds, Started-IsValid h r started, started.0))
