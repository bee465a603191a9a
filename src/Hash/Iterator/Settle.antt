-- ===== src/Hash/Iterator/Settle.antt =====
-- src/hash.h, how the iterator forces a rehash to its end.
use redis_db.Prelude.{
  ◌≡◌, refl, ap, true, ◌∙◌, inl, inr, false, arith, int_to_size, int_to_size_small, ok, Returns,
}
use redis_db.Traits.{Traits}
use redis_db.Hash.{Hash, is_rehashing, rehash}
use redis_db.Hash.Valid.{IsResting, IsValid, SameNodes}
use redis_db.Hash.Rehash.{rehash-Advances}
use redis_db.Hash.Advance.{moving-is_rehashing, resting-is_rehashing}
use redis_db.Hash.Iterator.{settle}

module _ {ℓ} {T K : Type ℓ} (traits : Traits T K) where
  pub settle-resting : (h : Hash T) → IsResting traits h → settle traits h ≡ ok h
  unfolding settle
  settle-resting h v = rw (resting-is_rehashing traits v)

  settle-rehash :
      (h : Hash T)
      → is_rehashing h ≡ true
      → settle traits h ≡ rehash traits (int_to_size h.active.buckets_number) false h
  unfolding settle
  settle-rehash h e = rw e

  -- Of a valid hash, the call of `rehash` with which `begin`, `end`, `cbegin`, `cend` and `next`
  -- start ends the rehash that is going on, whatever is left of it, and keeps the nodes.
  pub settle-IsResting :
      (h : Hash T)
      → IsValid traits h
      → Returns (settle traits h) λ r. IsResting traits r × SameNodes h r
  settle-IsResting h (inl v) = (h, settle-resting h v, (v, λ p. refl))
  settle-IsResting h (inr (b, m, lt)) =
      let cast : int_to_size h.active.buckets_number ≡ h.active.buckets_number =
        int_to_size_small h.active.buckets_number m.home.small in
      let bound = m.home.small in
      let (r, run, (same, how)) =
        rehash-Advances traits h.active.buckets_number false h b (omega arith) m lt in
      let done : IsResting traits r = elim how [
        | inl (more, _, _, _, _, _) ↦ absurd (omega arith)
        | inr (_, rest, _) ↦ rest
      ] in
      (
        r,
        settle-rehash h (moving-is_rehashing traits m lt)
            ∙ ap (λ n. rehash traits n false h) cast
            ∙ run,
        (done, same),
      )
