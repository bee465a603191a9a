-- ===== src/Hash/Erase/Cases.antt =====
-- src/hash.h, the two branches of `Hash::erase`: with one table and with two.
use redis_db.Prelude.{
  ℕ, ◌+◌, ◌-◌, ◌<◌, ◌≡◌, refl, sym, ap, ◌∙◌, ◌⊎◌, inl, inr, Bool, true, false, none, some, arith,
  to_nat, count_if, Returns, Option-cases,
}
use redis_db.Traits.{Traits, slot}
use redis_db.Table.{HashNode, HashTable}
use redis_db.Table.Chains.{holds_key, find-eq-some}
use redis_db.Table.Bags.{bucket, contents}
use redis_db.Hash.{Hash}
use redis_db.Hash.Operations.{erase_at}
use redis_db.Hash.Valid.{
  IsHome, IsResting, IsMoving, IsValid, SameNodes, count, count-resting, count-moving,
}
use redis_db.Hash.Advance.{moving-is_rehashing, resting-is_rehashing}
use redis_db.Hash.Lookup.{find_in, find-Answers, active_index-slot}
use redis_db.Hash.Erase.Drops.{Drops, erase_node-Drops, erase_node-misses}

module _ {ℓ} {T K : Type ℓ} (traits : Traits T K) where
  -- What `erase` may do: either no node has the key, it returns false and the nodes stay, or it
  -- returns true and one node with the key is gone.
  abbrev pub Loses : K → Hash T → Bool × Hash T → Type ℓ
  Loses k h (status, r) =
      IsValid traits r
      × (((status ≡ false) × (count (holds_key traits k) h ≡ 0) × SameNodes h r)
          ⊎ ((status ≡ true)
              × (n : HashNode T) × (holds_key traits k n ≡ true)
              × ((p : HashNode T → Bool) → count p r + to_nat (p n) ≡ count p h)))

  find_in-absent :
      (t : HashTable T) (k : K)
      → IsHome traits t
      → find_in traits t k ≡ none
      → count_if (holds_key traits k) (contents t) ≡ 0
  find_in-absent t k v e = elim (find-Answers traits t k v) [
    | inl (_, z) ↦ z
    | inr (n, f, _, _) ↦ absurd (cc)
  ]

  IsResting-Drops :
      {h : Hash T} {n : HashNode T} {r : HashTable T}
      → IsResting traits h
      → Drops traits h.active n r
      → IsResting traits (record h { active = r })
  IsResting-Drops v d = record {
    home = d.home;
    single = v.single;
    number = v.number ∙ sym d.width;
    mask = rw d.width v.mask;
    index = v.index;
    sized = d.sized v.sized;
  }

  backup-Drops :
      {h : Hash T} {n : HashNode T} {b r : HashTable T}
      → IsMoving traits h b
      → Drops traits b n r
      → IsMoving traits (record h { backup = some r }) r
  backup-Drops m d = record {
    home = m.home;
    new_home = d.home;
    backup = refl;
    number = m.number ∙ sym d.width;
    mask = rw d.width m.mask;
    index = m.index;
    moved = m.moved;
    sized = d.sized m.sized;
  }

  active-Drops :
      {h : Hash T} {n : HashNode T} {b r : HashTable T}
      → IsMoving traits h b
      → Drops traits h.active n r
      → IsMoving traits (record h { backup = some b; active = r }) b
  active-Drops m d = record {
    home = d.home;
    new_home = m.new_home;
    backup = refl;
    number = m.number;
    mask = m.mask;
    index = rw d.width m.index;
    moved = λ i lt. d.empty i (m.moved i lt);
    sized = m.sized;
  }

  -- Outside a rehash.
  pub erase_at-resting :
      (h : Hash T) (index : ℕ) (k : K)
      → IsResting traits h
      → index ≡ slot traits h.buckets_mask k
      → Returns (erase_at traits h index k) (Loses k h)
  unfolding erase_at
  erase_at-resting h index k v e =
      let here = e ∙ ap (λ m. slot traits m k) v.mask in
      let idle = resting-is_rehashing traits v in
      elim (Option-cases (find_in traits h.active k)) [
        | inl z ↦ (
          (false, h),
          rw (idle, here, erase_node-misses traits h.active k v.home z),
          (
            inl v,
            inl (refl, count-resting traits _ v ∙ find_in-absent h.active k v.home z, λ p. refl),
          ),
        )
        | inr (n, found) ↦
            let (r, run, d) = erase_node-Drops traits h.active k n v.home found in
            let w = IsResting-Drops v d in
            (
              (true, record h { active = r }),
              rw (idle, here, run),
              (
                inl w,
                inr (
                  refl,
                  n,
                  (find-eq-some traits k (bucket h.active _) n found).0,
                  λ p. omega (arith, count-resting traits p v, count-resting traits p w, d.bag p),
                ),
              ),
            )
      ]

  same-IsMoving :
      {h : Hash T} {b : HashTable T}
      → IsMoving traits h b
      → IsMoving traits (record h { backup = some b; active = h.active }) b
  same-IsMoving m = record {
    home = m.home;
    new_home = m.new_home;
    backup = refl;
    number = m.number;
    mask = m.mask;
    index = m.index;
    moved = m.moved;
    sized = m.sized;
  }

  -- During a rehash, a key that the backup lacks.
  erase_at-old :
      (h : Hash T) (b : HashTable T) (index : ℕ) (k : K)
      → IsMoving traits h b
      → h.rehash_index < h.active.buckets_number
      → index ≡ slot traits (b.buckets_number - 1) k
      → find_in traits b k ≡ none
      → Returns (erase_at traits h index k) (Loses k h)
  unfolding erase_at
  erase_at-old h b index k m lt here z =
      let busy = moving-is_rehashing traits m lt in
      let old = active_index-slot traits h k m.home in
      let missed = erase_node-misses traits b k m.new_home z in
      elim (Option-cases (find_in traits h.active k)) [
        | inl y ↦
            let w = same-IsMoving m in
            let none_new = find_in-absent b k m.new_home z in
            let none_old = find_in-absent h.active k m.home y in
            (
              (false, record h { backup = some b; active = h.active }),
              rw (busy, old, m.backup, here, missed, erase_node-misses traits h.active k m.home y),
              (
                inr (b, w, lt),
                inl (
                  refl,
                  omega (arith, count-moving traits (holds_key traits k) m, none_new, none_old),
                  λ p. count-moving traits p w ∙ sym (count-moving traits p m),
                ),
              ),
            )
        | inr (n, found) ↦
            let (r, run, d) = erase_node-Drops traits h.active k n m.home found in
            let w = active-Drops m d in
            let below : h.rehash_index < r.buckets_number = rw d.width lt in
            (
              (true, record h { backup = some b; active = r }),
              rw (busy, old, m.backup, here, missed, run),
              (
                inr (b, w, below),
                inr (
                  refl,
                  n,
                  (find-eq-some traits k (bucket h.active _) n found).0,
                  λ p. omega (arith, count-moving traits p m, count-moving traits p w, d.bag p),
                ),
              ),
            )
      ]

  -- During a rehash the backup is tried first.
  pub erase_at-moving :
      (h : Hash T) (b : HashTable T) (index : ℕ) (k : K)
      → IsMoving traits h b
      → h.rehash_index < h.active.buckets_number
      → index ≡ slot traits (b.buckets_number - 1) k
      → Returns (erase_at traits h index k) (Loses k h)
  unfolding erase_at
  erase_at-moving h b index k m lt here = elim (Option-cases (find_in traits b k)) [
    | inl z ↦ erase_at-old h b index k m lt here z
    | inr (n, found) ↦
        let (r, run, d) = erase_node-Drops traits b k n m.new_home found in
        let w = backup-Drops m d in
        (
          (true, record h { backup = some r }),
          rw (moving-is_rehashing traits m lt, m.backup, here, run),
          (
            inr (r, w, lt),
            inr (
              refl,
              n,
              (find-eq-some traits k (bucket b _) n found).0,
              λ p. omega (arith, count-moving traits p m, count-moving traits p w, d.bag p),
            ),
          ),
        )
  ]
