-- ===== src/Hash/Reads.antt =====
-- src/hash.h, `HashMap::get` and `Hash::isExist` where they begin no rehash.
use redis_db.Prelude.{
  ℕ, ◌≤◌, ◌≡◌, refl, sym, ap, ◌↔◌, inl, inr, Bool, true, Option, is_some, arith, to_nat, Returns,
}
use redis_db.Traits.{Traits, slot}
use redis_db.Table.{HashNode}
use redis_db.Table.Chains.{holds_key}
use redis_db.Hash.{Hash}
use redis_db.Hash.Operations.{get, is_exist}
use redis_db.Hash.Valid.{IsValid, SameNodes, count}
use redis_db.Hash.Advance.{IsReady, advance-IsReady}
use redis_db.Hash.Lookup.{
  Answers, Answers-congr, search, search-Answers, get_at-search, is_exist_at-search,
}

module _ {ℓ} {T K : Type ℓ} (traits : Traits T K) where
  -- Of a valid hash, where the call begins no rehash, `get` runs without undefined behaviour to an
  -- end; it returns a node that has the key and is one of the nodes of the hash, and throws just
  -- when no node has the key. The hash stays valid and keeps its nodes.
  pub get-Answers :
      (h : Hash T) (k : K)
      → IsValid traits h
      → IsReady h
      → Returns
          (get traits h k)
          λ r. Answers traits k (λ p. count p h) r.0 × IsValid traits r.1 × SameNodes h r.1
  unfolding get
  get-Answers h k v ready =
      let (r, run, (w, same, mask)) = advance-IsReady traits h v ready in
      let index = slot traits h.buckets_mask k in
      let found = get_at-search traits r index k w (ap (λ m. slot traits m k) (sym mask)) in
      (
        (search traits r k, r),
        rw (run, found),
        (Answers-congr traits k _ same (search-Answers traits r k w), w, same),
      )

  Answers-is_some :
      (k : K) (f : (HashNode T → Bool) → ℕ) (o : Option (HashNode T))
      → Answers traits k f o
      → (is_some o ≡ true) ↔ (1 ≤ f (holds_key traits k))
  Answers-is_some k f o (inl (e, z)) = rw e ((λ h. absurd (cc)), (λ h. absurd (omega arith)))
  Answers-is_some k f o (inr (n, e, key, member)) =
      rw e ((λ h. omega (arith, member (holds_key traits k), ap to_nat key)), (λ h. refl))

  -- Of a valid hash, where the call begins no rehash, `isExist` returns true just when some node has
  -- the key. The hash stays valid and keeps its nodes.
  pub is_exist_iff :
      (h : Hash T) (k : K)
      → IsValid traits h
      → IsReady h
      → Returns (is_exist traits h k) λ r.
        ((r.0 ≡ true) ↔ (1 ≤ count (holds_key traits k) h)) × IsValid traits r.1 × SameNodes h r.1
  unfolding is_exist
  is_exist_iff h k v ready =
      let (r, run, (w, same, mask)) = advance-IsReady traits h v ready in
      let index = slot traits h.buckets_mask k in
      let found = is_exist_at-search traits r index k w (ap (λ m. slot traits m k) (sym mask)) in
      (
        (is_some (search traits r k), r),
        rw (run, found),
        (
          Answers-is_some k (λ p. count p h) _
              (Answers-congr traits k _ same (search-Answers traits r k w)),
          w,
          same,
        ),
      )
