-- ===== src/Hash/Stale/Get.antt =====
-- src/hash.h, `HashMap::get` in the call that begins a rehash.
use redis_db.Prelude.{
  ℕ, ◌-◌, ◌≤◌, ◌<◌, ◌≡◌, ◌≢◌, refl, sym, ap, ◌∙◌, subst, inl, inr, none, [], arith, ok,
  ok-injective,
}
use redis_db.Traits.{Traits, slot}
use redis_db.Table.{HashTable, find}
use redis_db.Table.Chains.{holds_key, find-eq-none}
use redis_db.Table.Bags.{bucket, other_bucket, get-find}
use redis_db.Hash.{Hash, advance}
use redis_db.Hash.Operations.{active_index, get_at, get}
use redis_db.Hash.Valid.{slot-lt, IsHome, count}
use redis_db.Hash.Advance.{moving-is_rehashing, resting-is_rehashing}
use redis_db.Hash.Lookup.{active_index-slot}
use redis_db.Hash.Stale.{IsOverloaded, Started, advance-Started}

module _ {ℓ} {T K : Type ℓ} (traits : Traits T K) where
  -- A search in a bucket that is not the key's finds nothing.
  misplaced :
      (t : HashTable T) (k : K) (i : ℕ)
      → IsHome traits t
      → i ≢ slot traits (t.buckets_number - 1) k
      → find traits k (bucket t i) ≡ none
  misplaced t k i v ne =
      find-eq-none traits k (bucket t i)
        (other_bucket traits (t.buckets_number - 1) t k i v.placed ne)

  find-nil : (k : K) → find traits k [] ≡ none
  unfolding find
  find-nil k = refl

  stale-get_at :
      (h r : Hash T) (k : K)
      → IsOverloaded traits h
      → Started traits h r
      → slot traits h.buckets_mask k < r.rehash_index
      → slot traits h.buckets_mask k ≢ slot traits r.buckets_mask k
      → get_at traits r (slot traits h.buckets_mask k) k ≡ ok none
  unfolding get_at
  stale-get_at h r k v (same, inl (c, m, lt, w, wider)) moved ne =
      let i = slot traits h.buckets_mask k in
      let home_i : i ≡ slot traits (h.active.buckets_number - 1) k =
        ap (λ x. slot traits x k) v.resting.mask in
      let below : i < h.active.buckets_number =
        rw home_i (slot-lt (traits.hasher k) v.resting.home.power) in
      let ne' : i ≢ slot traits (c.buckets_number - 1) k =
        λ e. ne (e ∙ ap (λ x. slot traits x k) (sym m.mask)) in
      let new = get-find traits c i k m.new_home.table (omega arith) in
      let here : active_index traits r k ≡ i =
        active_index-slot traits r k m.home ∙ ap (λ n. slot traits (n - 1) k) w ∙ sym home_i in
      let old = get-find traits r.active i k m.home.table (omega arith) in
      rw
        (
          moving-is_rehashing traits m lt,
          m.backup,
          new,
          misplaced c k i m.new_home ne',
          here,
          old,
          m.moved i moved,
        )
        (ap ok (find-nil k))
  stale-get_at h r k v (same, inr (rest, wider)) moved ne =
      let i = slot traits h.buckets_mask k in
      let home_i : i ≡ slot traits (h.active.buckets_number - 1) k =
        ap (λ x. slot traits x k) v.resting.mask in
      let below : i < h.active.buckets_number =
        rw home_i (slot-lt (traits.hasher k) v.resting.home.power) in
      let ne' : i ≢ slot traits (r.active.buckets_number - 1) k =
        λ e. ne (e ∙ ap (λ x. slot traits x k) (sym rest.mask)) in
      let new = get-find traits r.active i k rest.home.table (omega arith) in
      rw (resting-is_rehashing traits rest, new, misplaced r.active k i rest.home ne')

  -- `get` throws for a key that is there: of an overloaded table, when the bucket of the key is
  -- among those that the call itself moves and the key has another bucket in the new table. The
  -- nodes stay the same.
  pub get_throws :
      (h r : Hash T) (k : K)
      → IsOverloaded traits h
      → 1 ≤ count (holds_key traits k) h
      → advance traits h ≡ ok r
      → slot traits h.buckets_mask k < r.rehash_index
      → slot traits h.buckets_mask k ≢ slot traits r.buckets_mask k
      → (get traits h k ≡ ok (none, r)) × (1 ≤ count (holds_key traits k) r)
  unfolding get
  get_throws h r k v there e moved ne =
      let (r', run, t) = advance-Started traits h v in
      let same : r' ≡ r = ok-injective (sym run ∙ e) in
      let started : Started traits h r = subst (Started traits h) same t in
      (rw (e, stale-get_at h r k v started moved ne), omega (arith, started.0 (holds_key traits k)))
