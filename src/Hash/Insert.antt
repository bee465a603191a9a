-- ===== src/Hash/Insert.antt =====
-- src/hash.h, `insert` of `HashMap` and `HashSet` where it begins no rehash.
use redis_db.Prelude.{
  ℕ, ◌+◌, ◌-◌, ◌≡◌, refl, sym, ap, ◌∙◌, inl, inr, Bool, some, arith, to_nat, count_if, Returns,
}
use redis_db.Traits.{Traits, slot}
use redis_db.Table.{HashNode, insert_node}
use redis_db.Hash.{Hash}
use redis_db.Hash.Operations.{insert_at, insert}
use redis_db.Hash.Valid.{IsResting, IsMoving, IsValid, count, count-resting, count-moving}
use redis_db.Hash.Move.{insert_node-Absorbs}
use redis_db.Hash.Advance.{IsReady, moving-is_rehashing, resting-is_rehashing, advance-IsReady}

module _ {ℓ} {T K : Type ℓ} (traits : Traits T K) where
  open traits use {get_key}

  -- `r` is valid and has the nodes of `h` and `n` once more.
  abbrev pub Gains : HashNode T → Hash T → Hash T → Type ℓ
  Gains n h r = IsValid traits r × ((p : HashNode T → Bool) → count p r ≡ count p h + to_nat (p n))

  pub insert_at-Gains :
      (h : Hash T) (index : ℕ) (n : HashNode T)
      → IsValid traits h
      → index ≡ slot traits h.buckets_mask (get_key n.value)
      → Returns (insert_at h index n) (Gains n h)
  unfolding insert_at count_if
  insert_at-Gains h index n (inl v) e =
      let k = get_key n.value in
      let a = insert_node-Absorbs traits h.active n v.home in
      let here : index ≡ slot traits (h.active.buckets_number - 1) k =
        e ∙ ap (λ m. slot traits m k) v.mask in
      let t = (insert_node h.active (slot traits (h.active.buckets_number - 1) k) n).1 in
      let r : Hash T = record h { active = t } in
      let rest : IsResting traits r = record {
        home = a.home;
        single = v.single;
        number = v.number ∙ sym a.width;
        mask = rw a.width v.mask;
        index = v.index;
        sized = a.sized v.sized;
      } in
      (
        r,
        rw (resting-is_rehashing traits v, here),
        (
          inl rest,
          λ p. omega (arith, count-resting traits p rest, count-resting traits p v, a.bag p),
        ),
      )
  insert_at-Gains h index n (inr (b, m, lt)) e =
      let k = get_key n.value in
      let a = insert_node-Absorbs traits b n m.new_home in
      let here : index ≡ slot traits (b.buckets_number - 1) k =
        e ∙ ap (λ x. slot traits x k) m.mask in
      let t = (insert_node b (slot traits (b.buckets_number - 1) k) n).1 in
      let r : Hash T = record h { backup = some t } in
      let moving : IsMoving traits r t = record {
        home = m.home;
        new_home = a.home;
        backup = refl;
        number = m.number ∙ sym a.width;
        mask = rw a.width m.mask;
        index = m.index;
        moved = m.moved;
        sized = a.sized m.sized;
      } in
      (
        r,
        rw (moving-is_rehashing traits m lt, m.backup, here),
        (
          inr (t, moving, lt),
          λ p. omega (arith, count-moving traits p moving, count-moving traits p m, a.bag p),
        ),
      )

  -- Of a valid hash, where the call begins no rehash, `insert` runs without undefined behaviour to
  -- an end and adds the one new node; the hash stays valid and keeps its other nodes.
  pub insert-Gains :
      (h : Hash T) (address : ℕ) (v : T)
      → IsValid traits h
      → IsReady h
      → Returns (insert traits h address v) (Gains (record { address = address; value = v }) h)
  unfolding insert
  insert-Gains h address v valid ready =
      let (r, run, (w, same, mask)) = advance-IsReady traits h valid ready in
      let n : HashNode T = record { address = address; value = v } in
      let index = slot traits h.buckets_mask (get_key v) in
      let (s, put, (x, more)) =
        insert_at-Gains r index n w (ap (λ m. slot traits m (get_key v)) (sym mask)) in
      (s, rw run put, (x, λ p. omega (arith, more p, same p)))
