-- ===== src/Hash/Erase.antt =====
-- src/hash.h, `Hash::erase` where it begins no rehash before it looks for the key.
pub mod Drops
pub mod Cases
use mathlib.Core.Option.{or_else}
use redis_db.Prelude.{
  ℕ, ◌+◌, ◌-◌, ◌^◌, ◌≤◌, ◌<◌, ◌≡◌, refl, sym, ap, ◌∙◌, ◌⊎◌, inl, inr, Bool, true, false, ◌&&◌,
  Option, none, some, [], ◌∷◌, arith, to_nat, length, word, count_if, count_if-true, if◌then◌else◌,
  ◌==◌, ok, ◌>>=◌, Returns, Bool-cases, Option-cases, ==→≡,
}
use redis_db.Traits.{Traits, slot}
use redis_db.Table.{HashNode, HashTable, find, erase_node}
use redis_db.Table.Chains.{
  holds_key, find-eq-some, count_if-eq-zero, erase_first, count_if-erase_first, All-erase_first,
}
use redis_db.Table.Bags.{
  bucket, contents, home, Rewrites, Rewrites-IsPlaced, erase_node-none, erase_node-some,
}
use redis_db.Hash.{Hash, is_need_shrink, rehash}
use redis_db.Hash.Operations.{active_index, erase_at, erase}
use redis_db.Hash.Valid.{
  slot-lt, IsHome, IsResting, IsMoving, IsValid, SameNodes, count, count-resting, count-moving,
}
use redis_db.Hash.Advance.{
  total, Fits, IsReady, moving-is_rehashing, resting-is_rehashing, advance-IsReady, rehash-IsValid,
}
use redis_db.Hash.Lookup.{find_in, find-Answers, active_index-slot}
use Cases.{Loses, erase_at-resting, erase_at-moving}

module _ {ℓ} {T K : Type ℓ} (traits : Traits T K) where
  erase_at-Loses :
      (h : Hash T) (index : ℕ) (k : K)
      → IsValid traits h
      → index ≡ slot traits h.buckets_mask k
      → Returns (erase_at traits h index k) (Loses traits k h)
  erase_at-Loses h index k (inl v) e = erase_at-resting traits h index k v e
  erase_at-Loses h index k (inr (b, m, lt)) e =
      erase_at-moving traits h b index k m lt (e ∙ ap (λ x. slot traits x k) m.mask)

  Loses-total : (k : K) (h : Hash T) (r : Bool × Hash T) → Loses traits k h r → total r.1 ≤ total h
  Loses-total k h r (_, inl (_, _, same)) = omega (arith, same (λ _. true))
  Loses-total k h r (_, inr (_, n, _, less)) = omega (arith, less (λ _. true))

  -- The same nodes before, after, or both.
  Loses-congr :
      (k : K) (g h r s : Hash T) (status : Bool)
      → SameNodes g h
      → Loses traits k h (status, r)
      → IsValid traits s
      → SameNodes r s
      → Loses traits k g (status, s)
  Loses-congr k g h r s status e (_, inl (a, z, same)) v f =
      (v, inl (a, sym (e _) ∙ z, λ p. f p ∙ same p ∙ e p))
  Loses-congr k g h r s status e (_, inr (a, n, key, less)) v f =
      (v, inr (a, n, key, λ p. omega (arith, f p, less p, e p)))

  -- The rehash behind it, when the table has become sparse.
  shrink-IsValid :
      (status : Bool) (h : Hash T)
      → IsValid traits h
      → Fits h
      → Returns
          (if status && is_need_shrink h then rehash traits 2 true h else ok h)
          λ r. IsValid traits r × SameNodes h r
  shrink-IsValid status h v fits = elim (Bool-cases (status && is_need_shrink h)) [
    | inl e ↦ rw e (rehash-IsValid traits 2 true h (omega arith) v fits)
    | inr e ↦ (h, rw e, (v, λ p. refl))
  ]

  -- Of a valid hash with at most 2 ^ 30 nodes, where the call begins no rehash before it looks for
  -- the key, `erase` runs without undefined behaviour to an end and leaves the hash valid. It
  -- returns false and keeps all nodes when no node has the key; otherwise it returns true and
  -- removes one node that has the key, and no other.
  pub erase-Loses :
      (h : Hash T) (k : K)
      → IsValid traits h
      → Fits h
      → IsReady h
      → Returns (erase traits h k) (Loses traits k h)
  unfolding erase
  erase-Loses h k v fits ready =
      let (r, run, (w, same, mask)) = advance-IsReady traits h v ready in
      let index = slot traits h.buckets_mask k in
      let ((status, s), cut, l) =
        erase_at-Loses r index k w (ap (λ m. slot traits m k) (sym mask)) in
      let room : Fits s = omega (arith, Loses-total k r (status, s) l, same (λ _. true)) in
      let (u, shrunk, (x, keep)) = shrink-IsValid status s l.0 room in
      ((status, u), rw (run, cut, shrunk), Loses-congr k h r s u status same l x keep)
