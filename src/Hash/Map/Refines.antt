-- ===== src/Hash/Map/Refines.antt =====
-- src/hash.h, `HashMap` as a finite map: what it does to the function from keys to values that it
-- stands for, as long as a key is inserted once at most.
use redis_db.Prelude.{
  ℕ, ◌+◌, ◌≤◌, ◌≡◌, ◌↔◌, refl, sym, ap, ◌∙◌, subst, ◌⊎◌, inl, inr, Bool, true, false, not, ◌&&◌,
  Option, none, some, if◌then◌else◌, arith, to_nat, Returns, Bool-cases, is_some, split_true,
  and-le,
}
use redis_db.Table.{HashNode}
use redis_db.Hash.{Hash}
use redis_db.Hash.Operations.{erase}
use redis_db.Hash.Valid.{IsValid, SameNodes, count, count-le, count-split}
use redis_db.Hash.Advance.{Fits, IsReady}
use redis_db.Hash.Lookup.{Answers}
use redis_db.Hash.Reads.{get-Answers}
use redis_db.Hash.Insert.{insert-Gains}
use redis_db.Hash.Erase.{erase-Loses}
use redis_db.Hash.Map.{Outcome, value, out_of_range, outcome, map_of, insert, get}

module _ {ℓ} {K V : Type ℓ} (equal : K → K → Bool)
    (equal_iff : (a b : K) → (equal a b ≡ true) ↔ (a ≡ b)) (hasher : K → ℕ)
    (same_value : V → V → Bool)
    (same_value_iff : (a b : V) → (same_value a b ≡ true) ↔ (a ≡ b)) where
  -- The node holds the value under the key.
  abbrev pub binds : K → V → HashNode (K × V) → Bool
  binds k v n = equal n.value.0 k && same_value n.value.1 v

  abbrev pub keyed : K → HashNode (K × V) → Bool
  keyed k n = equal n.value.0 k

  -- The hash has no node with the key, or exactly one, which holds the value.
  abbrev pub ModelsAt : Hash (K × V) → K → Option V → Type 0
  ModelsAt h k none = count (keyed k) h ≡ 0
  ModelsAt h k (some v) = (count (keyed k) h ≡ 1) × (count (binds k v) h ≡ 1)

  -- The hash is valid and stands for the finite map `f`.
  abbrev pub Models : (K → Option V) → Hash (K × V) → Type ℓ
  Models f h = IsValid (map_of equal equal_iff hasher) h × ((k : K) → ModelsAt h k (f k))

  abbrev pub update : (K → Option V) → K → Option V → K → Option V
  update f k o j = if equal k j then o else f j

  abbrev pub expected : Option V → Outcome V
  expected none = out_of_range
  expected (some v) = value v

  pub ModelsAt-congr :
      (h r : Hash (K × V)) (k : K) (o : Option V) → SameNodes h r → ModelsAt h k o → ModelsAt r k o
  ModelsAt-congr h r k none e z = e (keyed k) ∙ z
  ModelsAt-congr h r k (some v) e (one, held) = (e (keyed k) ∙ one, e (binds k v) ∙ held)

  ModelsAt-same :
      (h r : Hash (K × V)) (k : K) (o : Option V)
      → count (keyed k) r ≡ count (keyed k) h
      → ((v : V) → count (binds k v) r ≡ count (binds k v) h)
      → ModelsAt h k o
      → ModelsAt r k o
  ModelsAt-same h r k none e b z = e ∙ z
  ModelsAt-same h r k (some v) e b (one, has) = (e ∙ one, b v ∙ has)

  -- One node more or less, with a key of its own, matters at that key only.
  off_key :
      (n : HashNode (K × V)) (k j : K) → keyed k n ≡ true → equal k j ≡ false → keyed j n ≡ false
  off_key n k j key ne = rw ((equal_iff n.value.0 k).0 key) ne

  ModelsAt-other :
      (h r : Hash (K × V)) (n : HashNode (K × V)) (k j : K) (o : Option V)
      → keyed k n ≡ true
      → equal k j ≡ false
      → ((p : HashNode (K × V) → Bool) → p n ≡ false → count p r ≡ count p h)
      → ModelsAt h j o
      → ModelsAt r j o
  ModelsAt-other h r n k j o key ne same m =
      let off = off_key n k j key ne in
      ModelsAt-same h r j o (same (keyed j) off) (λ v. same (binds j v) (rw off)) m

  -- The one node with the key holds the value.
  held :
      (h : Hash (K × V)) (k : K) (v : V) (n : HashNode (K × V))
      → ModelsAt h k (some v)
      → keyed k n ≡ true
      → ((p : HashNode (K × V) → Bool) → to_nat (p n) ≤ count p h)
      → n.value.1 ≡ v
  held h k v n (one, has) key member =
      let q : HashNode (K × V) → Bool = λ x. same_value x.value.1 v in
      let rest = count-split (keyed k) q h in
      let none_else = member (λ x. keyed k x && not (q x)) in
      (same_value_iff n.value.1 v).0
        (split_true (keyed k n) (q n) key (omega (arith, rest, none_else, one, has)))

  answer-expected :
      (h : Hash (K × V)) (k : K) (o : Option V) (a : Option (HashNode (K × V)))
      → ModelsAt h k o
      → Answers (map_of equal equal_iff hasher) k (λ p. count p h) a
      → outcome a ≡ expected o
  unfolding outcome
  answer-expected h k none a z (inl (is, _)) = rw is
  answer-expected h k none a z (inr (n, is, key, member)) =
      absurd (omega (arith, member (keyed k), ap to_nat key, z))
  answer-expected h k (some v) a m (inl (is, z)) = absurd (omega (arith, z, m.0))
  answer-expected h k (some v) a m (inr (n, is, key, member)) =
      rw is (ap value (held h k v n m key member))

  -- `get` reads the finite map: it returns the value of a bound key and throws for any other, and
  -- the hash stands for the same map, where the call begins no rehash.
  pub get-Models :
      (f : K → Option V) (h : Hash (K × V)) (k : K)
      → Models f h
      → IsReady h
      → Returns (get equal equal_iff hasher h k) λ r. (r.0 ≡ expected (f k)) × Models f r.1
  unfolding get
  get-Models f h k (valid, models) ready =
      let ((node, r), run, (answer, w, same)) =
        get-Answers (map_of equal equal_iff hasher) h k valid ready in
      (
        (outcome node, r),
        rw run,
        (
          answer-expected h k (f k) node (models k) answer,
          (w, λ j. ModelsAt-congr h r j (f j) same (models j)),
        ),
      )

  -- What one more node with a new key makes of the finite map.
  bound_after :
      (f : K → Option V) (h r : Hash (K × V)) (n : HashNode (K × V))
      → f n.value.0 ≡ none
      → ((k : K) → ModelsAt h k (f k))
      → ((p : HashNode (K × V) → Bool) → count p r ≡ count p h + to_nat (p n))
      → (j : K) → ModelsAt r j (update f n.value.0 (some n.value.1) j)
  bound_after f h r n fresh models more j =
      let k = n.value.0 in
      let v = n.value.1 in
      let refl_k = (equal_iff k k).1 refl in
      let refl_v = (same_value_iff v v).1 refl in
      elim (Bool-cases (equal k j)) [
        | inr ne ↦ rw ne (
            ModelsAt-other h r n k j (f j) refl_k ne (λ p off. omega (arith, more p, ap to_nat off))
              (models j))
        | inl eq ↦
            let e : k ≡ j = (equal_iff k j).0 eq in
            let z : count (keyed k) h ≡ 0 = subst (ModelsAt h k) fresh (models k) in
            let z' : count (binds k v) h ≡ 0 =
              omega (arith, z, count-le (binds k v) (keyed k) (λ x. and-le (keyed k x) _) h) in
            let at_k : ModelsAt r k (some v) = (
              omega (arith, more (keyed k), z, ap to_nat refl_k),
              more (binds k v) ∙ rw (z', refl_k, refl_v) (omega arith),
            ) in
            rw eq (subst (λ x. ModelsAt r x (some v)) e at_k)
      ]

  -- `insert` of a key that is not bound binds it and changes no other key, where the call begins no
  -- rehash.
  pub insert-Models :
      (f : K → Option V) (h : Hash (K × V)) (address : ℕ) (k : K) (v : V)
      → Models f h
      → IsReady h
      → f k ≡ none
      → Returns (insert equal equal_iff hasher h address k v) (Models (update f k (some v)))
  unfolding insert
  insert-Models f h address k v (valid, models) ready fresh =
      let (r, run, (w, more)) =
        insert-Gains (map_of equal equal_iff hasher) h address (k, v) valid ready in
      let n : HashNode (K × V) = record { address = address; value = (k, v) } in
      (r, run, (w, λ j. bound_after f h r n fresh models more j))

  ModelsAt-zero :
      (h : Hash (K × V)) (k : K) (o : Option V)
      → ModelsAt h k o
      → count (keyed k) h ≡ 0
      → is_some o ≡ false
  ModelsAt-zero h k none m z = refl
  ModelsAt-zero h k (some v) m z = absurd (omega (arith, z, m.0))

  ModelsAt-one :
      (h r : Hash (K × V)) (k : K) (n : HashNode (K × V)) (o : Option V)
      → ModelsAt h k o
      → keyed k n ≡ true
      → count (keyed k) r + to_nat (keyed k n) ≡ count (keyed k) h
      → (is_some o ≡ true) × (count (keyed k) r ≡ 0)
  ModelsAt-one h r k n none m key less = absurd (omega (arith, m, less, ap to_nat key))
  ModelsAt-one h r k n (some v) m key less = (refl, omega (arith, m.0, less, ap to_nat key))

  -- The hash without the node of a key, or without change if there is none.
  unbound_after :
      (f : K → Option V) (h r : Hash (K × V)) (k : K) (status : Bool)
      → ((k : K) → ModelsAt h k (f k))
      → IsValid (map_of equal equal_iff hasher) r
      → ((status ≡ false) × (count (keyed k) h ≡ 0) × SameNodes h r)
        ⊎ ((status ≡ true)
            × (n : HashNode (K × V)) × (keyed k n ≡ true)
            × ((p : HashNode (K × V) → Bool) → count p r + to_nat (p n) ≡ count p h))
      → (status ≡ is_some (f k)) × Models (update f k none) r
  unbound_after f h r k status models w (inl (done, z, same)) = (
    done ∙ sym (ModelsAt-zero h k (f k) (models k) z),
    (
      w,
      λ j. elim (Bool-cases (equal k j)) [
        | inl eq ↦ rw eq (subst (λ x. count (keyed x) r ≡ 0) ((equal_iff k j).0 eq) (same _ ∙ z))
        | inr ne ↦ rw ne (ModelsAt-congr h r j (f j) same (models j))
      ],
    ),
  )
  unbound_after f h r k status models w (inr (done, n, key, less)) =
      let (bound, z) = ModelsAt-one h r k n (f k) (models k) key (less (keyed k)) in
      (
        done ∙ sym bound,
        (
          w,
          λ j. elim (Bool-cases (equal k j)) [
            | inl eq ↦ rw eq (subst (λ x. count (keyed x) r ≡ 0) ((equal_iff k j).0 eq) z)
            | inr ne ↦ rw ne (
                ModelsAt-other h r n k j (f j) key ne
                  (λ p off. omega (arith, less p, ap to_nat off)) (models j))
          ],
        ),
      )

  -- `erase` unbinds the key and changes no other key; it returns whether the key was bound. This is
  -- so with at most 2 ^ 30 nodes, where the call begins no rehash before it looks for the key.
  pub erase-Models :
      (f : K → Option V) (h : Hash (K × V)) (k : K)
      → Models f h
      → Fits h
      → IsReady h
      → Returns
          (erase (map_of equal equal_iff hasher) h k)
          λ r. (r.0 ≡ is_some (f k)) × Models (update f k none) r.1
  erase-Models f h k (valid, models) fits ready =
      let ((status, r), run, (w, loses)) =
        erase-Loses (map_of equal equal_iff hasher) h k valid fits ready in
      ((status, r), run, unbound_after f h r k status models w loses)
