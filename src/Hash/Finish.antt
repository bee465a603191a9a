-- ===== src/Hash/Finish.antt =====
-- src/hash.h, how a rehash comes to its end.
use redis_db.Prelude.{
  ℕ, zero, suc, ◌+◌, ◌*◌, ◌≤◌, ◌<◌, ◌≡◌, refl, ◌∙◌, inl, inr, true, arith, if◌then◌else◌, ok, ◌>>=◌,
  Run, Returns,
}
use redis_db.Traits.{Traits}
use redis_db.Table.{HashTable}
use redis_db.Hash.{Hash, is_rehashing, rehash}
use redis_db.Hash.Valid.{IsResting, IsMoving, SameNodes}
use redis_db.Hash.Rehash.{step_of, rehash-Advances}
use redis_db.Hash.Advance.{moving-is_rehashing, resting-is_rehashing}

module _ {ℓ} {T K : Type ℓ} (traits : Traits T K) where
  -- What `n` operations do of a rehash that is going on.
  pub rehash_times : ℕ → Hash T → Run (Hash T)
  rehash_times zero h = ok h
  rehash_times (suc n) h = do
    r ← if is_rehashing h then rehash traits 2 true h else ok h
    rehash_times n r

  rehash_times-resting : (n : ℕ) (h : Hash T) → IsResting traits h → rehash_times n h ≡ ok h
  unfolding rehash_times
  rehash_times-resting zero h v = refl
  rehash_times-resting (suc n) h v = rw (resting-is_rehashing traits v) (rehash_times-resting n h v)

  -- While a rehash is going on, with a bucket left, it ends: once the operations that carry it on,
  -- each by the ratio of the two widths, have made up the number of buckets that were left, there is
  -- one table again, as wide as the backup was, with the same nodes.
  pub rehash_times-IsResting :
      (n : ℕ) (h : Hash T) (b : HashTable T)
      → IsMoving traits h b
      → h.rehash_index < h.active.buckets_number
      → h.active.buckets_number
        ≤ h.rehash_index + n * step_of h.active.buckets_number b.buckets_number
      → Returns
          (rehash_times n h)
          λ r. IsResting traits r × SameNodes h r × (r.active.buckets_number ≡ b.buckets_number)
  unfolding rehash_times
  rehash_times-IsResting zero h b m lt enough = absurd (omega arith)
  rehash_times-IsResting (suc n) h b m lt enough =
      let busy = moving-is_rehashing traits m lt in
      let (r, run, (same, next)) = rehash-Advances traits 2 true h b (omega arith) m lt in
      elim next [
        | inr (_, rest, width) ↦
            (r, rw (busy, run) (rehash_times-resting n r rest), (rest, same, width))
        | inl (more, c, moving, at, width, new_width) ↦
            let left : r.active.buckets_number
                ≤ r.rehash_index + n * step_of r.active.buckets_number c.buckets_number =
              rw (width, new_width, at) (omega arith) in
            let (s, more_run, (rest, kept, wide)) =
              rehash_times-IsResting n r c moving (omega arith) left in
            (s, rw (busy, run) more_run, (rest, λ p. kept p ∙ same p, wide ∙ new_width))
      ]
