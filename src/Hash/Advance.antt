-- ===== src/Hash/Advance.antt =====
-- src/hash.h, what the operations of `Hash` have in common: a rehash, begun or carried on, keeps
-- the hash valid and its nodes the same.
use redis_db.Prelude.{
  ℕ, ◌^◌, ◌≤◌, ◌<◌, ◌≡◌, refl, ◌∙◌, inl, inr, Bool, true, false, not, ◌||◌, arith, count_if-true,
  Returns, Bool-cases, lt→==, ≡→==,
}
use redis_db.Traits.{Traits}
use redis_db.Table.{HashTable}
use redis_db.Table.Bags.{contents}
use redis_db.Hash.{Hash, npos, is_rehashing, is_need_rehash, rehash, advance}
use redis_db.Hash.Valid.{IsResting, IsMoving, IsValid, SameNodes, count, count-resting}
use redis_db.Hash.Rehash.{Advances, Advances-IsValid, rehash-Advances}
use redis_db.Hash.Begins.{rehash-Begins}

module _ {ℓ} {T : Type ℓ} where
  -- All the nodes of a hash.
  abbrev pub total : Hash T → ℕ
  total h = count (λ _. true) h

  -- Few enough nodes for a table of twice as many buckets.
  abbrev pub Fits : Hash T → Type 0
  Fits h = total h ≤ 2 ^ 30

  -- An operation on the hash does not begin a rehash, though it may carry one on.
  abbrev pub IsReady : Hash T → Type 0
  IsReady h = (is_rehashing h || not (is_need_rehash h)) ≡ true

  pub index-is_rehashing :
      (h : Hash T)
      → h.rehash_index < h.active.buckets_number
      → h.active.buckets_number < 2 ^ 31
      → is_rehashing h ≡ true
  unfolding is_rehashing
  index-is_rehashing h lt small = rw (lt→== h.rehash_index npos (omega arith))

  pub npos-is_rehashing : (h : Hash T) → h.rehash_index ≡ npos → is_rehashing h ≡ false
  unfolding is_rehashing
  npos-is_rehashing h e = rw (≡→== h.rehash_index npos e)

module _ {ℓ} {T K : Type ℓ} (traits : Traits T K) where
  pub moving-is_rehashing :
      {h : Hash T} {b : HashTable T}
      → IsMoving traits h b
      → h.rehash_index < h.active.buckets_number
      → is_rehashing h ≡ true
  moving-is_rehashing {h} m lt = index-is_rehashing h lt m.home.small

  pub resting-is_rehashing : {h : Hash T} → IsResting traits h → is_rehashing h ≡ false
  resting-is_rehashing {h} v = npos-is_rehashing h v.index

  resting-size : {h : Hash T} → IsResting traits h → Fits h → h.active.size ≤ 2 ^ 30
  resting-size {h} v fits =
      omega (arith, v.sized, count-resting traits (λ _. true) v, count_if-true (contents h.active))

  -- One call of `rehash` that carries a rehash on leaves the mask.
  pub Advances-mask :
      (by : ℕ) (h : Hash T) {r : Hash T} (b : HashTable T)
      → IsMoving traits h b
      → Advances traits by h b r
      → r.buckets_mask ≡ h.buckets_mask
  Advances-mask by h b m (_, inl (_, c, n, _, _, w)) = omega (arith, m.mask, n.mask)
  Advances-mask by h b m (_, inr (_, rest, w)) = omega (arith, m.mask, rest.mask)

  -- Of a valid hash with at most 2 ^ 30 nodes, and with a step below 2 ^ 32, `rehash` runs without
  -- undefined behaviour to an end, whether it begins or goes on; the hash stays valid and keeps its
  -- nodes, each as often as before.
  pub rehash-IsValid :
      (step : ℕ) (is_auto : Bool) (h : Hash T)
      → step < 2 ^ 32
      → IsValid traits h
      → Fits h
      → Returns (rehash traits step is_auto h) λ r. IsValid traits r × SameNodes h r
  rehash-IsValid step is_auto h small (inr (b, m, lt)) fits =
      let (r, run, t) = rehash-Advances traits step is_auto h b small m lt in
      (r, run, (Advances-IsValid traits _ h b t, t.0))
  rehash-IsValid step is_auto h small (inl v) fits =
      let (s, b, t, e) = rehash-Begins traits step is_auto h small v (resting-size v fits) in
      let lt : s.rehash_index < s.active.buckets_number =
        omega (arith, t.start, t.state.home.power) in
      let (r, run, u) = rehash-Advances traits step is_auto s b small t.state lt in
      (r, e ∙ run, (Advances-IsValid traits _ s b u, λ p. u.0 p ∙ t.same p))

  pub advance-IsValid :
      (h : Hash T)
      → IsValid traits h
      → Fits h
      → Returns (advance traits h) λ r. IsValid traits r × SameNodes h r
  unfolding advance
  advance-IsValid h v fits = elim (Bool-cases (is_rehashing h || is_need_rehash h)) [
    | inl e ↦ rw e (rehash-IsValid 2 true h (omega arith) v fits)
    | inr e ↦ (h, rw e, (v, λ p. refl))
  ]

  -- Where no rehash begins, a bucket index worked out before is still right afterwards.
  pub advance-IsReady :
      (h : Hash T)
      → IsValid traits h
      → IsReady h
      → Returns
          (advance traits h)
          λ r. IsValid traits r × SameNodes h r × (r.buckets_mask ≡ h.buckets_mask)
  unfolding advance
  advance-IsReady h (inr (b, m, lt)) ready =
      let (r, run, t) = rehash-Advances traits 2 true h b (omega arith) m lt in
      (
        r,
        rw (moving-is_rehashing m lt) run,
        (Advances-IsValid traits _ h b t, t.0, Advances-mask _ h b m t),
      )
  advance-IsReady h (inl v) ready =
      let idle = resting-is_rehashing v in
      let light : is_need_rehash h ≡ false = ground arith in
      (h, rw (idle, light), (inl v, (λ p. refl), refl))
