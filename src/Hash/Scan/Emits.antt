-- ===== src/Hash/Scan/Emits.antt =====
-- src/hash.h, which values a call of `Hash::scan` emits.
use redis_db.Prelude.{
  ℕ, ◌+◌, ◌-◌, ◌≤◌, ◌<◌, ◌≡◌, ◌≢◌, refl, ap, sym, ◌∙◌, inl, inr, Bool, true, false, ◌&&◌, List, [],
  ◌∷◌, ◌++◌, arith, bit_and, count_if, count_if-append, count_if-true, count_if-flatten_one,
  count_if-All, count_if-le, to_nat, All, ◌==◌, ==→≡, Bool-cases, ok, Returns,
}
use redis_db.Traits.{Traits}
use redis_db.Table.{HashNode, Chain, HashTable, get_bucket_head}
use redis_db.Table.Bags.{bucket, contents, IsPlaced, home, get_bucket_head-bucket}
use redis_db.Hash.{Hash}
use redis_db.Hash.Valid.{IsResting, count, count-resting, slot-lt}
use redis_db.Hash.Advance.{Fits, resting-is_rehashing}
use redis_db.Hash.Scan.{emit, mask_of, scan_one, scan}

module _ {ℓ} {T : Type ℓ} where
  pub count_if-emit :
      (q : T → Bool) (c : Chain T) (values : List T)
      → count_if q (emit c values) ≡ count_if q values + count_if (λ n. q n.value) c
  unfolding emit count_if
  count_if-emit q [] values = omega arith
  count_if-emit q (n ∷ c) values =
      omega (
        arith,
        count_if-emit q c (values ++ (n.value ∷ [])),
        count_if-append q values (n.value ∷ []),
      )

  count_if-same :
      (p q : HashNode T → Bool) {P : HashNode T → Type 0}
      → ((n : HashNode T) → P n → p n ≡ q n)
      → (c : Chain T) → All P c
      → count_if p c ≡ count_if q c
  unfolding count_if
  count_if-same p q same [] h = refl
  count_if-same p q same (n ∷ c) h =
      omega (arith, ap to_nat (same n h.0), count_if-same p q same c h.1)

module _ {ℓ} {T K : Type ℓ} (traits : Traits T K) where
  -- The node is one of the bucket that a cursor is at.
  abbrev pub at_cursor : (mask v : ℕ) → HashNode T → Bool
  at_cursor mask v n = home traits mask n == bit_and v mask

  pub count_if-home :
      (p : HashNode T → Bool) (mask i : ℕ) (t : HashTable T)
      → IsPlaced traits mask t
      → count_if p (bucket t i) ≡ count_if (λ n. p n && (home traits mask n == i)) (contents t)
  count_if-home p mask i t placed =
      count_if-same p _ inside (bucket t i) (placed i)
      ∙ sym (
          count_if-flatten_one _ t.nodes i
            λ j ne. count_if-All _ (elsewhere j ne) (bucket t j) (placed j))
    where
      inside : (n : HashNode T) → home traits mask n ≡ i → p n ≡ (p n && (home traits mask n == i))
      inside n e = ground arith

      elsewhere :
          (j : ℕ)
          → j ≢ i
          → (n : HashNode T) → home traits mask n ≡ j
          → (p n && (home traits mask n == i)) ≡ false
      elsewhere j ne n e = ground arith

  pub scan-empty :
      (h : Hash T) (v : ℕ) (values : List T)
      → (h.active.size == 0) ≡ true
      → scan h v values ≡ ok (0, values)
  unfolding scan
  scan-empty h v values e = rw e

  pub scan-one :
      (h : Hash T) (v : ℕ) (values : List T)
      → IsResting traits h
      → (h.active.size == 0) ≡ false
      → scan h v values ≡ ok (scan_one h.active v values)
  unfolding scan
  scan-one h v values r e = rw (e, resting-is_rehashing traits r)

  to_nat-le : (b : Bool) → to_nat b ≤ 1
  to_nat-le b = ground arith

  -- A table whose size is 0 has no nodes.
  pub emits_none :
      (h : Hash T) (p : HashNode T → Bool)
      → IsResting traits h
      → Fits h
      → (h.active.size == 0) ≡ true
      → count p h ≡ 0
  emits_none h p r fits e =
      let nodes = contents h.active in
      let size : h.active.size ≡ 0 = ==→≡ h.active.size 0 e in
      let sized = r.sized in
      omega (
        arith,
        count-resting traits p r,
        count_if-le p (λ _. true) (λ n. to_nat-le (p n)) nodes,
        count_if-true nodes,
        count-resting traits (λ _. true) r,
      )

  emits_bucket :
      (h : Hash T) (mask v : ℕ) (values : List T) (q : T → Bool)
      → IsResting traits h
      → mask ≡ h.active.buckets_number - 1
      → count_if q (emit (get_bucket_head h.active (bit_and v mask)) values)
        ≡ count_if q values + count (λ n. q n.value && at_cursor mask v n) h
  emits_bucket h mask v values q r e =
      let i = bit_and v (h.active.buckets_number - 1) in
      let lt : i < h.active.buckets_number = slot-lt v r.home.power in
      rw (e, get_bucket_head-bucket h.active i lt)
        (omega (
          arith,
          count_if-emit q (bucket h.active i) values,
          count_if-home (λ n. q n.value) (h.active.buckets_number - 1) i h.active r.home.placed,
          count-resting traits (λ n. q n.value && at_cursor (h.active.buckets_number - 1) v n) r,
        ))

  -- With no rehash going on and at most 2 ^ 30 nodes, a call of `scan` runs to an end and emits the
  -- values of just the nodes whose hash agrees with the cursor in the digits of the mask, each as
  -- often as there are such nodes.
  pub scan-emits :
      (h : Hash T) (v : ℕ) (values : List T)
      → IsResting traits h
      → Fits h
      → Returns (scan h v values) λ r.
        (q : T → Bool)
        → count_if q r.1
          ≡ count_if q values + count (λ n. q n.value && at_cursor h.buckets_mask v n) h
  unfolding scan_one
  scan-emits h v values r fits =
      let mask : mask_of h.active.buckets_number ≡ h.buckets_mask =
        omega (arith, r.mask, r.home.power, r.home.small) in
      elim (Bool-cases (h.active.size == 0)) [
        | inl e ↦ (
          _,
          scan-empty h v values e,
          λ q.
              omega (arith, emits_none h (λ n. q n.value && at_cursor h.buckets_mask v n) r fits e),
        )
        | inr e ↦ (
          _,
          scan-one h v values r e,
          λ q. rw mask (emits_bucket h h.buckets_mask v values q r r.mask),
        )
      ]
