-- ===== src/SkipList/Splice.antt =====
-- src/SkipList.h, what `insert` and `erase` have in common: behind the nodes `b`, the nodes `a` give
-- way to others, and on each level the last node of `b` is led over the place anew.
use redis_db.Prelude.{
  ℕ, suc, ◌+◌, ◌≤◌, ◌<◌, ◌≡◌, ◌≢◌, refl, sym, ap, subst, ◌∙◌, true, false, List, [], ◌∷◌, ◌++◌,
  arith, length, All, if◌then◌else◌, ltb, lt→ltb, Bool-cases, inl, inr,
}
use mathlib.Core.List.{append_assoc}
use redis_db.SkipList.Memory.{Heap}
use redis_db.SkipList.Towers.{
  Tower, next_of, span_of, prev_of, rank_of, has, has-append, high_cases, next_of-low, span_of-low,
  prev_of-low, rank_of-low, prev_of-high,
}
use redis_db.SkipList.Layout.{Linked, Chain, IsDistinct}

module _ {ℓ} {K V : Type ℓ} where
  -- Where a node comes behind others, what lies behind it is out of their sight.
  next_of-high :
      (tail j : ℕ) (c : List (Tower K V)) (t : Tower K V) (x y : List (Tower K V))
      → j < t.height
      → (next_of tail j (c ++ (t ∷ x)) ≡ next_of tail j (c ++ (t ∷ y)))
        × (span_of j (c ++ (t ∷ x)) ≡ span_of j (c ++ (t ∷ y)))
  next_of-high tail j [] t x y lt = rw (lt→ltb j t.height lt) (refl, refl)
  next_of-high tail j (u ∷ c) t x y lt = ground (arith, next_of-high tail j c t x y lt)

  -- The last node of a level is one of the nodes passed.
  pub prev_of-has :
      (j p : ℕ) (b : List (Tower K V)) (q : ℕ) → q ≢ p → has q b ≡ false → prev_of j p b ≢ q
  prev_of-has j p [] q ne out = λ e. ne (sym e)
  prev_of-has j p (t ∷ b) q ne out = elim (Bool-cases (ltb j t.height)) [
    | inl e ↦ rw e (prev_of-has j t.address b q (ground arith) (ground arith))
    | inr e ↦ rw e (prev_of-has j p b q ne (ground arith))
  ]

-- From the memory `h` to `h'`, on the lowest `m` levels: the last nodes `prevs` of a stretch of
-- `size` nodes lead into `new`, and nothing else changes but the node at `other`.
module _ {ℓ} {K V : Type ℓ} (h h' : Heap K V) (tail m size other : ℕ) (prevs ranks : ℕ → ℕ)
    (new : List (Tower K V)) where
  pub record Splices : Type ℓ where
    pub entry : (q : ℕ) → h'.entry q ≡ h.entry q
    pub levels : (q : ℕ) → h'.levels q ≡ h.levels q
    pub next_new : (j : ℕ) → j < m → h'.next (prevs j) j ≡ next_of tail j new
    pub span_new : (j : ℕ) → j < m → ranks j + h'.span (prevs j) j ≡ size + span_of j new
    pub next_old : (q j : ℕ) → j < m → q ≢ prevs j → q ≢ other → h'.next q j ≡ h.next q j
    pub span_old : (q j : ℕ) → j < m → q ≢ prevs j → q ≢ other → h'.span q j ≡ h.span q j

  module _ (s : Splices) where
    pub Linked-splice :
        (p r n : ℕ) (b a : List (Tower K V))
        → n ≤ m
        → has p b ≡ false
        → p ≢ other
        → r + length b ≡ size
        → ((j : ℕ) → j < n → (prevs j ≡ prev_of j p b) × (ranks j ≡ rank_of j r r b))
        → Linked h tail p n (b ++ a)
        → Linked h' tail p n (b ++ new)
    Linked-splice p r n b a le out ne total ends links j lt = elim (high_cases j b) [
      | inl l ↦
          let here : prevs j ≡ p = (ends j lt).0 ∙ prev_of-low j p b l in
          let rank : ranks j ≡ r = (ends j lt).1 ∙ rank_of-low j r r b l in
          let span : ranks j + h'.span p j ≡ size + span_of j new =
            subst (λ q. ranks j + h'.span q j ≡ size + span_of j new) here
              (s.span_new j (omega arith)) in
          (
            subst (λ q. h'.next q j ≡ next_of tail j new) here (s.next_new j (omega arith))
                ∙ sym (next_of-low tail j b new l),
            omega (arith, span, span_of-low j b new l),
          )
      | inr (c, t, rest, e, l, high) ↦
          let passed : prevs j ≢ p =
            subst (λ q. q ≢ p)
              (sym ((ends j lt).0 ∙ ap (prev_of j p) e ∙ prev_of-high j p c t rest high))
              (prev_of-has j t.address rest p
                (ground (arith, ap (has p) e, has-append p c (t ∷ rest)))
                (ground (arith, ap (has p) e, has-append p c (t ∷ rest)))) in
          let away : p ≢ prevs j = λ f. passed (sym f) in
          let same = next_of-high tail j c t (rest ++ a) (rest ++ new) high in
          let left : b ++ a ≡ c ++ (t ∷ (rest ++ a)) =
            ap (λ x. x ++ a) e ∙ append_assoc c (t ∷ rest) a in
          let right : b ++ new ≡ c ++ (t ∷ (rest ++ new)) =
            ap (λ x. x ++ new) e ∙ append_assoc c (t ∷ rest) new in
          (
            s.next_old p j (omega arith) away ne
                ∙ (links j lt).0
                ∙ ap (next_of tail j) left
                ∙ same.0
                ∙ sym (ap (next_of tail j) right),
            s.span_old p j (omega arith) away ne
                ∙ (links j lt).1
                ∙ ap (span_of j) left
                ∙ same.1
                ∙ sym (ap (span_of j) right),
          )
    ]

    pub Chain-splice :
        (n : ℕ) (cur at : ℕ → ℕ) (b a : List (Tower K V))
        → All (λ (t : Tower K V). t.height ≤ m) b
        → IsDistinct b
        → has other b ≡ false
        → n + length b ≡ size
        → ((j : ℕ) → j < m → (prevs j ≡ prev_of j (cur j) b) × (ranks j ≡ rank_of j (at j) n b))
        → Chain h tail (b ++ a)
        → Chain h' tail new
        → Chain h' tail (b ++ new)
    Chain-splice n cur at [] a low_enough distinct out total ends c d = d
    Chain-splice n cur at (t ∷ b) a low_enough distinct out total ends c d = (
      record {
        entry = s.entry t.address ∙ c.0.entry;
        levels = s.levels t.address ∙ c.0.levels;
        positive = c.0.positive;
        not_null = c.0.not_null;
        links =
            Linked-splice t.address (suc n) t.height b a low_enough.0 distinct.0 (ground arith)
              (omega arith) ends_here c.0.links;
      },
      Chain-splice (suc n) (λ j. if ltb j t.height then t.address else cur j)
          (λ j. if ltb j t.height then suc n else at j) b a low_enough.1 distinct.1 (ground arith)
          (omega arith) ends c.1 d,
    )
      where
        ends_here :
            (j : ℕ)
            → j < t.height
            → (prevs j ≡ prev_of j t.address b) × (ranks j ≡ rank_of j (suc n) (suc n) b)
        ends_here j lt =
            let (e, f) = ends j (omega (arith, low_enough.0)) in
            let test = lt→ltb j t.height lt in
            (
              e ∙ ap (λ x. prev_of j (if x then t.address else cur j) b) test,
              f ∙ ap (λ x. rank_of j (if x then suc n else at j) (suc n) b) test,
            )

    -- The nodes behind the place are as before.
    pub Chain-behind :
        (ts : List (Tower K V))
        → All (λ (t : Tower K V). t.height ≤ m) ts
        → ((q : ℕ) → has q ts ≡ true → (j : ℕ) → j < m → q ≢ prevs j)
        → has other ts ≡ false
        → Chain h tail ts
        → Chain h' tail ts
    Chain-behind [] low_enough apart out c = tt
    Chain-behind (t ∷ ts) low_enough apart out c = (
      record {
        entry = s.entry t.address ∙ c.0.entry;
        levels = s.levels t.address ∙ c.0.levels;
        positive = c.0.positive;
        not_null = c.0.not_null;
        links = λ j lt.
            let ne = apart t.address (ground arith) j (omega (arith, low_enough.0)) in
            let away : t.address ≢ other = ground arith in
            (
              s.next_old t.address j (omega (arith, low_enough.0)) ne away ∙ (c.0.links j lt).0,
              s.span_old t.address j (omega (arith, low_enough.0)) ne away ∙ (c.0.links j lt).1,
            );
      },
      Chain-behind ts low_enough.1 (λ q e. apart q (ground arith)) (ground arith) c.1,
    )
