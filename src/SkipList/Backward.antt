-- ===== src/SkipList/Backward.antt =====
-- src/SkipList.h, the writes of the backward pointers at the end of `insert` and of `erase`.
use redis_db.Prelude.{
  ℕ, ◌≡◌, ◌≢◌, refl, sym, ap, subst, true, false, ◌||◌, List, [], ◌∷◌, some, arith, if◌then◌else◌,
  ltb, lt→ltb, ≡→==, ≢→==, Bool-cases, inl, inr, ok,
}
use redis_db.SkipList.Memory.{Heap, update, set_backward}
use redis_db.SkipList.Towers.{Tower, next_of, has}
use redis_db.SkipList.Layout.{Chain, Backs, IsDistinct}
use redis_db.SkipList.Frame.{Backs-frame}

module _ {ℓ} {K V : Type ℓ} where
  -- The memory with one backward pointer changed.
  abbrev pub pointed_back : Heap K V → (p q : ℕ) → Heap K V
  pointed_back h p q = record h { backward = update h.backward p q }

  pub set_backward-ok :
      (h : Heap K V) (p q : ℕ) {e : K × V}
      → h.entry p ≡ some e
      → set_backward h p q ≡ ok (pointed_back h p q)
  unfolding set_backward
  set_backward-ok h p q f = rw (f, set_backward)

  pub next_of-entry :
      (h : Heap K V) (tail j : ℕ) (ts : List (Tower K V)) {e : K × V}
      → h.entry tail ≡ some e
      → Chain h tail ts
      → (f : K × V) × (h.entry (next_of tail j ts) ≡ some f)
  next_of-entry h tail j [] {e} at c = (e, at)
  next_of-entry h tail j (t ∷ ts) {e} at c = elim (Bool-cases (ltb j t.height)) [
    | inl f ↦ rw f ((t.key, t.value), c.0.entry)
    | inr f ↦ rw f (next_of-entry h tail j ts at c.1)
  ]

  pub next_of-has :
      (tail j : ℕ) (ts : List (Tower K V)) (q : ℕ)
      → tail ≢ q
      → has q ts ≡ false
      → next_of tail j ts ≢ q
  next_of-has tail j [] q ne out = ne
  next_of-has tail j (t ∷ ts) q ne out = elim (Bool-cases (ltb j t.height)) [
    | inl f ↦ rw f (λ e. absurd (ground (arith, ≡→== t.address q e)))
    | inr f ↦ rw f (next_of-has tail j ts q ne (ground arith))
  ]

  -- Behind a place is none of the nodes in front of it.
  pub next_of-apart :
      (tail j : ℕ) (ts b : List (Tower K V))
      → has tail b ≡ false
      → ((q : ℕ) → has q ts ≡ true → has q b ≡ false)
      → has (next_of tail j ts) b ≡ false
  next_of-apart tail j [] b out apart = out
  next_of-apart tail j (t ∷ ts) b out apart = elim (Bool-cases (ltb j t.height)) [
    | inl f ↦
        rw f (apart t.address (ap (λ x. x || has t.address ts) (≡→== t.address t.address refl)))
    | inr f ↦ rw f (next_of-apart tail j ts b out (λ q e. apart q (ground arith)))
  ]

  -- A backward pointer is no part of a chain.
  pub Chain-pointed_back :
      (h : Heap K V) (tail p q : ℕ) (ts : List (Tower K V))
      → Chain h tail ts
      → Chain (pointed_back h p q) tail ts
  Chain-pointed_back h tail p q [] c = tt
  Chain-pointed_back h tail p q (t ∷ ts) c = (
    record {
      entry = c.0.entry;
      levels = c.0.levels;
      positive = c.0.positive;
      not_null = c.0.not_null;
      links = c.0.links;
    },
    Chain-pointed_back h tail p q ts c.1,
  )

  -- The node that comes first is led back to `q`.
  pub Backs-pointed_back :
      (h : Heap K V) (tail p q : ℕ) (ts : List (Tower K V))
      → Chain h tail ts
      → IsDistinct ts
      → has tail ts ≡ false
      → Backs h tail p ts
      → Backs (pointed_back h (next_of tail 0 ts) q) tail q ts
  Backs-pointed_back h tail p q [] c distinct out b = rw (≡→== tail tail refl) refl
  Backs-pointed_back h tail p q (t ∷ ts) c distinct out b =
      let first : next_of tail 0 (t ∷ ts) ≡ t.address =
        ap (λ x. if x then t.address else next_of tail 0 ts) (lt→ltb 0 t.height c.0.positive) in
      subst (λ x. Backs (pointed_back h x q) tail q (t ∷ ts)) (sym first)
        (
          ap (λ x. if x then q else h.backward t.address) (≡→== t.address t.address refl),
          Backs-frame h (pointed_back h t.address q) tail t.address t.address ts
              (λ x ne. ap (λ y. if y then q else h.backward x) (≢→== x t.address ne)) distinct.0
              (λ e. absurd (ground (arith, ≡→== t.address tail (sym e)))) b.1,
        )
