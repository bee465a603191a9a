-- ===== src/Hash/Stale.antt =====
-- src/hash.h, the operation that begins a rehash. It has worked out the index of its bucket with
-- the old mask, and uses it on the new table.
pub mod Get
pub mod Insert
pub mod Sound
use redis_db.Prelude.{
  ℕ, ◌+◌, ◌-◌, ◌*◌, ◌^◌, ◌≤◌, ◌<◌, ◌≡◌, ◌≢◌, refl, sym, ap, ◌∙◌, subst, ◌⊎◌, inl, inr, Bool, true,
  false, Option, none, some, [], ◌∷◌, arith, to_nat, ltb, lt→ltb, ≢→==, to_float, to_float_exact,
  count_if, count_if-get_or-le, if◌then◌else◌, ◌==◌, ok, ok-injective, ◌>>=◌, Returns,
}
use redis_db.Traits.{Traits, slot, equal_refl}
use redis_db.Table.{HashNode, HashTable, find, get as table_get, insert_node}
use redis_db.Table.Chains.{holds_key, find-eq-none}
use redis_db.Table.Bags.{
  bucket, contents, IsTable, IsPlaced, other_bucket, get-find, Rewrites, insert_node-Rewrites,
}
use redis_db.Hash.{Hash, is_need_rehash, is_rehashing, rehash, advance, npos}
use redis_db.Hash.Operations.{active_index, get_at, get, insert_at, insert}
use redis_db.Hash.Valid.{
  slot-lt, IsHome, IsResting, IsMoving, IsValid, SameNodes, count, count-resting, count-moving,
  count-single, count-double,
}
use redis_db.Hash.Rehash.{Advances, steps, rehash-Advances}
use redis_db.Hash.Begins.{Begins, rehash-Begins}
use redis_db.Hash.Advance.{
  moving-is_rehashing, resting-is_rehashing, index-is_rehashing, npos-is_rehashing,
}
use redis_db.Hash.Lookup.{active_index-slot}

module _ {ℓ} {T K : Type ℓ} (traits : Traits T K) where
  -- One table with more nodes than buckets, and few enough that `float` counts them exactly.
  pub record IsOverloaded (h : Hash T) : Type ℓ where
    pub resting : IsResting traits h
    pub over : h.active.buckets_number < h.active.size
    pub exact : h.active.size < 2 ^ 24

  -- The states in which the operation uses its index: the new table is wider than the old one.
  abbrev pub Started : Hash T → Hash T → Type ℓ
  Started h r =
      SameNodes h r
      × (((c : HashTable T) × IsMoving traits r c
            × (r.rehash_index < r.active.buckets_number)
            × (r.active.buckets_number ≡ h.active.buckets_number)
            × (h.active.buckets_number < c.buckets_number))
          ⊎ (IsResting traits r × (h.active.buckets_number < r.active.buckets_number)))

  overloaded-is_need_rehash : (h : Hash T) → IsOverloaded h → is_need_rehash h ≡ true
  unfolding is_need_rehash
  overloaded-is_need_rehash h v =
      rw
        (
          to_float_exact h.active.size v.exact,
          to_float_exact h.active.buckets_number (omega (arith, v.over, v.exact)),
        )
        (lt→ltb _ _ v.over)

  resting-is_rehashing_not : (h : Hash T) → IsOverloaded h → is_rehashing h ≡ false
  resting-is_rehashing_not h v = resting-is_rehashing traits v.resting

  -- The first operation on an overloaded table begins a rehash.
  pub advance-Started : (h : Hash T) → IsOverloaded h → Returns (advance traits h) (Started h)
  unfolding advance
  advance-Started h v =
      let (s, b, t, e) =
        rehash-Begins traits 2 true h (omega arith) v.resting (omega (arith, v.exact)) in
      let width : s.active.buckets_number ≡ h.active.buckets_number =
        ap (λ (t : HashTable T). t.buckets_number) t.active in
      let wider : h.active.buckets_number < b.buckets_number = omega (arith, t.next, v.over) in
      let lt : s.rehash_index < s.active.buckets_number =
        omega (arith, t.start, t.state.home.power) in
      let (r, run, (same, next)) = rehash-Advances traits 2 true s b (omega arith) t.state lt in
      let all : SameNodes h r = λ p. same p ∙ t.same p in
      (
        r,
        rw (resting-is_rehashing_not h v, overloaded-is_need_rehash h v) (e ∙ run),
        (
          all,
          elim next [
            | inl (more, c, m, at, w, nw) ↦
                inl (c, m, omega (arith, at, w), w ∙ width, omega (arith, nw))
            | inr (_, rest, w) ↦ inr (rest, omega (arith, w))
          ],
        ),
      )
