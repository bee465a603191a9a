-- ===== src/Hash/Laws.antt =====
-- src/hash.h, the operations of `HashMap` one after the other.
use redis_db.Prelude.{
  ℕ, ◌≡◌, refl, sym, ap, ◌∙◌, subst, inl, inr, Bool, true, ◌&&◌, Option, none, some, arith, to_nat,
  ok, ok-injective, Returns, ◌==◌, ==→≡, ≡→==, differ, and-le, differ_self, no_difference,
}
use redis_db.Traits.{Traits, equal_refl}
use redis_db.Table.{HashNode}
use redis_db.Table.Chains.{holds_key}
use redis_db.Hash.{Hash}
use redis_db.Hash.Operations.{insert, erase, get}
use redis_db.Hash.Valid.{IsValid, count, count-le}
use redis_db.Hash.Advance.{Fits, IsReady}
use redis_db.Hash.Lookup.{Answers}
use redis_db.Hash.Reads.{get-Answers}
use redis_db.Hash.Insert.{Gains, insert-Gains}
use redis_db.Hash.Erase.{erase-Loses}
use redis_db.Hash.Erase.Cases.{Loses}

module _ {ℓ} {T K : Type ℓ} (traits : Traits T K) where
  open traits use {get_key}

  -- A node with a new key is the only one that a search for the key can answer.
  Answers-Gains :
      (n : HashNode T) (h r : Hash T) (o : Option (HashNode T))
      → Gains traits n h r
      → count (holds_key traits (get_key n.value)) h ≡ 0
      → Answers traits (get_key n.value) (λ p. count p r) o
      → (found : HashNode T) × (o ≡ some found) × ((q : HashNode T → Bool) → q found ≡ q n)
  Answers-Gains n h r o g fresh (inl (_, z)) =
      absurd (omega (arith, g.1 (holds_key traits k), ap to_nat (equal_refl traits k), z))
    where
      k : K
      k = get_key n.value
  Answers-Gains n h r o g fresh (inr (m, e, key, member)) = (m, e, λ q. same q)
    where
      k : K
      k = get_key n.value

      same : (q : HashNode T → Bool) → q m ≡ q n
      same q =
          let p : HashNode T → Bool = λ x. holds_key traits k x && differ (q x) (q n) in
          let low = count-le p (holds_key traits k) (λ x. and-le (holds_key traits k x) _) h in
          no_difference (holds_key traits k m) (q m) (q n) key
            (omega (arith, member p, g.1 p, low, fresh, differ_self (holds_key traits k n) (q n)))

  -- After `insert` of a key that no node had, `get` of the key answers the inserted node (the node
  -- at its address, and the same in every other respect), where neither call begins a rehash.
  pub get-insert :
      (h r : Hash T) (address : ℕ) (v : T)
      → IsValid traits h
      → IsReady h
      → count (holds_key traits (get_key v)) h ≡ 0
      → insert traits h address v ≡ ok r
      → IsReady r
      → Returns (get traits r (get_key v)) λ s.
        (found : HashNode T) × (s.0 ≡ some found)
        × (found.address ≡ address)
        × ((q : T → Bool) → q found.value ≡ q v)
  get-insert h r address v valid ready fresh e again =
      let n : HashNode T = record { address = address; value = v } in
      let (r', run, gains) = insert-Gains traits h address v valid ready in
      let g = subst (Gains traits n h) (ok-injective (sym run ∙ e)) gains in
      let (s, got, (answer, _, _)) = get-Answers traits r (get_key v) g.0 again in
      let (found, is, same) = Answers-Gains n h r s.0 g fresh answer in
      (
        s,
        got,
        (
          found,
          is,
          ==→≡ _ _ (same (λ x. x.address == address) ∙ ≡→== address address refl),
          λ q. same (λ x. q x.value),
        ),
      )

  -- After `erase` of a key that one node had, `get` of the key throws, where neither call begins a
  -- rehash before it looks for the key.
  pub get-erase :
      (h r : Hash T) (k : K) (status : Bool)
      → IsValid traits h
      → Fits h
      → IsReady h
      → count (holds_key traits k) h ≡ 1
      → erase traits h k ≡ ok (status, r)
      → IsReady r
      → (status ≡ true) × Returns (get traits r k) (λ s. s.0 ≡ none)
  get-erase h r k status valid fits ready one e again =
      let (s, run, loses) = erase-Loses traits h k valid fits ready in
      let l = subst (Loses traits k h) (ok-injective (sym run ∙ e)) loses in
      let (done, z) = erased l in
      let (s, got, (answer, _, _)) = get-Answers traits r k l.0 again in
      (done, (s, got, gone z answer))
    where
      erased : Loses traits k h (status, r) → (status ≡ true) × (count (holds_key traits k) r ≡ 0)
      erased (_, inl (_, z, _)) = absurd (omega (arith, z, one))
      erased (_, inr (done, n, key, less)) =
          (done, omega (arith, less (holds_key traits k), ap to_nat key))

      gone :
          {o : Option (HashNode T)}
          → count (holds_key traits k) r ≡ 0
          → Answers traits k (λ p. count p r) o
          → o ≡ none
      gone z (inl (is, _)) = is
      gone z (inr (n, _, key, member)) =
          absurd (omega (arith, member (holds_key traits k), ap to_nat key))
