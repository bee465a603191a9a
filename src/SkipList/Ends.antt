-- ===== src/SkipList/Ends.antt =====
-- src/SkipList.h, the last node of each level in front of a place in the list: `prevs` and `ranks`.
use redis_db.Prelude.{
  ℕ, suc, ◌+◌, ◌≤◌, ◌<◌, ◌≡◌, refl, ap, ◌∙◌, inl, inr, ◌⊎◌, List, [], ◌∷◌, ◌++◌, arith, length, ltb,
  ltb→lt, Bool-cases,
}
use redis_db.SkipList.{SkipList}
use redis_db.SkipList.Memory.{Heap}
use redis_db.SkipList.Towers.{Tower, next_of, span_of, prev_of, rank_of}
use redis_db.SkipList.Layout.{Chain, Holds}

module _ {ℓ} {K V : Type ℓ} (h : Heap K V) (tail j : ℕ) where
  -- The node has a level `j`, which leads into `ts`; `r` is its rank, and `n` nodes are passed.
  pub record Leads (p r n : ℕ) (ts : List (Tower K V)) : Type 0 where
    pub level : j < h.levels p
    pub next : h.next p j ≡ next_of tail j ts
    pub span : r + h.span p j ≡ n + span_of j ts
    pub passed : r ≤ n

  -- The last node with a level `j` leads over the place.
  pub prev_of-Leads :
      (p r n : ℕ) (b a : List (Tower K V))
      → Leads p r n (b ++ a)
      → Chain h tail (b ++ a)
      → Leads (prev_of j p b) (rank_of j r n b) (n + length b) a
  prev_of-Leads p r n [] a f s = record {
    level = f.level;
    next = f.next;
    span = omega (arith, f.span);
    passed = omega (arith, f.passed);
  }
  prev_of-Leads p r n (t ∷ b) a f s = elim (Bool-cases (ltb j t.height)) [
    | inl e ↦
        let lt = ltb→lt j t.height e in
        let on =
          prev_of-Leads t.address (suc n) (suc n) b a
            (record {
              level = omega (arith, s.0.levels);
              next = (s.0.links j lt).0;
              span = omega (arith, (s.0.links j lt).1);
              passed = omega arith;
            })
            s.1 in
        rw e (record {
          level = on.level;
          next = on.next;
          span = omega (arith, on.span);
          passed = omega (arith, on.passed);
        })
    | inr e ↦
        let next : h.next p j ≡ next_of tail j (b ++ a) = f.next ∙ rw e in
        let span : r + h.span p j ≡ suc n + span_of j (b ++ a) = f.span ∙ rw e (omega arith) in
        let on =
          prev_of-Leads p r (suc n) b a
            (record { level = f.level; next = next; span = span; passed = omega (arith, f.passed) })
            s.1 in
        rw e (record {
          level = on.level;
          next = on.next;
          span = omega (arith, on.span);
          passed = omega (arith, on.passed);
        })
  ]

module _ {ℓ} {K V : Type ℓ} where
  -- From the head.
  pub head-Leads :
      (h : Heap K V) (l : SkipList) (b a : List (Tower K V)) (j : ℕ)
      → Holds h l (b ++ a)
      → j < suc l.max_level
      → Leads h l.tail j (prev_of j l.head b) (rank_of j 0 0 b) (length b) a
  head-Leads h l b a j s lt =
      let on =
        prev_of-Leads h l.tail j l.head 0 0 b a
          (record {
            level = omega (arith, s.head_levels);
            next = (s.head_links j lt).0;
            span = omega (arith, (s.head_links j lt).1);
            passed = omega arith;
          })
          s.chain in
      record {
        level = on.level;
        next = on.next;
        span = omega (arith, on.span);
        passed = omega (arith, on.passed);
      }

  pub last_cases :
      (b : List (Tower K V))
      → (b ≡ []) ⊎ ((c : List (Tower K V)) × (t : Tower K V) × (b ≡ c ++ (t ∷ [])))
  last_cases [] = inl refl
  last_cases (t ∷ b) = elim (last_cases b) [
    | inl e ↦ inr ([], t, ap (λ x. t ∷ x) e)
    | inr (c, u, e) ↦ inr (t ∷ c, u, ap (λ x. t ∷ x) e)
  ]
