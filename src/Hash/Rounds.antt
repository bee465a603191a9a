-- ===== src/Hash/Rounds.antt =====
-- src/hash.h, the loop of `Hash::rehash` over the buckets of the active table.
use redis_db.Prelude.{
  ℕ, zero, suc, ◌+◌, ◌≤◌, ◌<◌, ◌≡◌, refl, sym, ◌∙◌, some, [], arith, word, count_if, Returns, ◌==◌,
  Bool-cases, inl, inr,
}
use redis_db.Traits.{Traits}
use redis_db.Table.{HashTable}
use redis_db.Table.Bags.{
  bucket, Rewrites, reset_bucket-Rewrites, get_bucket_head-bucket, Rewrites-IsPlaced,
}
use redis_db.Hash.{Hash, rehash_loop}
use redis_db.Hash.Valid.{IsMoving, SameNodes, count-moving}
use redis_db.Hash.Move.{Absorbs, move_chain-Absorbs}

module _ {ℓ} {T K : Type ℓ} (traits : Traits T K) where
  -- `r` is `h` after `k` more buckets have been moved.
  pub record Moves (k : ℕ) (h r : Hash T) (b : HashTable T) : Type ℓ where
    pub target : HashTable T
    pub state : IsMoving traits r target
    pub index : r.rehash_index ≡ h.rehash_index + k
    pub width : r.active.buckets_number ≡ h.active.buckets_number
    pub target_width : target.buckets_number ≡ b.buckets_number
    pub same : SameNodes h r

  Moves-zero : (h : Hash T) (b : HashTable T) → IsMoving traits h b → Moves 0 h h b
  Moves-zero h b m = record {
    target = b;
    state = m;
    index = omega arith;
    width = refl;
    target_width = refl;
    same = λ p. refl;
  }

  Moves-suc :
      {k : ℕ} {h s r : Hash T} {b : HashTable T}
      → (m : Moves 1 h s b) → Moves k s r m.target
      → Moves (suc k) h r b
  Moves-suc m n = record {
    target = n.target;
    state = n.state;
    index = omega (arith, m.index, n.index);
    width = n.width ∙ m.width;
    target_width = n.target_width ∙ m.target_width;
    same = λ p. n.same p ∙ m.same p;
  }

  -- What one round leaves of the two tables.
  round-IsMoving :
      {h : Hash T} {b a b' : HashTable T}
      → IsMoving traits h b
      → h.rehash_index < h.active.buckets_number
      → Rewrites h.active h.rehash_index [] a
      → Absorbs traits b (bucket h.active h.rehash_index) b'
      → Moves 1 h
          (record h { active = a; backup = some b'; rehash_index = word (h.rehash_index + 1) })
          b
  unfolding count_if
  round-IsMoving {h} {b} {a} {b'} m lt w t =
      let next = word (h.rehash_index + 1) in
      let up : next ≡ h.rehash_index + 1 = omega (arith, m.home.small) in
      let s : Hash T = record h { active = a; backup = some b'; rehash_index = next } in
      let state : IsMoving traits s b' = record {
        home = record {
          table = w.table;
          power = rw w.width m.home.power;
          small = rw w.width m.home.small;
          placed = rw w.width (Rewrites-IsPlaced traits _ _ [] w m.home.placed tt);
        };
        new_home = t.home;
        backup = refl;
        number = m.number ∙ sym t.width;
        mask = rw t.width m.mask;
        index = omega (arith, w.width);
        moved = λ i lt. rw (w.buckets i) (elim (Bool-cases (h.rehash_index == i)) [
          | inl e ↦ rw e
          | inr e ↦ rw e (m.moved i (ground arith))
        ]);
        sized = t.sized m.sized;
      } in
      record {
        target = b';
        state = state;
        index = up;
        width = w.width;
        target_width = t.width;
        same = λ p.
            omega (arith, count-moving traits p m, count-moving traits p state, w.bag p, t.bag p);
      }

  pub rehash_loop-Moves :
      (k : ℕ) (h : Hash T) (b : HashTable T)
      → IsMoving traits h b
      → h.rehash_index + k ≤ h.active.buckets_number
      → Returns (rehash_loop traits k h) λ r. Moves k h r b
  unfolding rehash_loop
  rehash_loop-Moves zero h b m le = (h, refl, Moves-zero h b m)
  rehash_loop-Moves (suc k) h b m le =
      let lt : h.rehash_index < h.active.buckets_number = omega arith in
      let (b', moving, t) =
        move_chain-Absorbs traits h.buckets_mask (bucket h.active h.rehash_index) b m.new_home
          m.mask in
      let (a, reset, _, w) = reset_bucket-Rewrites h.active h.rehash_index m.home.table lt in
      let one = round-IsMoving m lt w t in
      let (r, run, more) =
        rehash_loop-Moves k _ one.target one.state (omega (arith, one.index, one.width)) in
      (
        r,
        rw (get_bucket_head-bucket h.active h.rehash_index lt, m.backup, moving, reset) run,
        Moves-suc one more,
      )
