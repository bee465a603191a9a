-- ===== src/SkipList/Towers.antt =====
-- src/SkipList.h, what a skip list stands for: the list of its nodes, each with its address, the
-- number of its levels, its key and its value. What the pointers and the spans of a node should be
-- is worked out from the list of the nodes behind it.
use redis_db.Prelude.{
  ℕ, suc, ◌+◌, ◌≤◌, ◌<◌, ◌≡◌, refl, ap, ◌∙◌, ◌⊎◌, inl, inr, Bool, true, false, not, ◌&&◌, ◌||◌,
  List, [], ◌∷◌, ◌++◌, if◌then◌else◌, ltb, ◌==◌, ltb→lt, lt→ltb, Bool-cases, arith, length,
}

pub record Tower {ℓ} (K V : Type ℓ) : Type ℓ where
  pub address : ℕ
  pub height : ℕ
  pub key : K
  pub value : V

module _ {ℓ} {K V : Type ℓ} where
  -- The first of the nodes that has a level `j`, or the tail.
  abbrev pub next_of : (tail j : ℕ) → List (Tower K V) → ℕ
  next_of tail j [] = tail
  next_of tail j (t ∷ ts) = if ltb j t.height then t.address else next_of tail j ts

  -- How far it is, or the number of the nodes.
  abbrev pub span_of : (j : ℕ) → List (Tower K V) → ℕ
  span_of j [] = 0
  span_of j (t ∷ ts) = if ltb j t.height then 1 else suc (span_of j ts)

  -- None of the nodes has a level `j`.
  abbrev pub low : (j : ℕ) → List (Tower K V) → Bool
  low j [] = true
  low j (t ∷ ts) = not (ltb j t.height) && low j ts

  -- The last node with a level `j`, behind a node `p` that has one.
  abbrev pub prev_of : (j p : ℕ) → List (Tower K V) → ℕ
  prev_of j p [] = p
  prev_of j p (t ∷ ts) = prev_of j (if ltb j t.height then t.address else p) ts

  -- Its rank, where that of `p` is `r` and `n` nodes have been passed.
  abbrev pub rank_of : (j r n : ℕ) → List (Tower K V) → ℕ
  rank_of j r n [] = r
  rank_of j r n (t ∷ ts) = rank_of j (if ltb j t.height then suc n else r) (suc n) ts

  -- Some node stands at the address.
  abbrev pub has : ℕ → List (Tower K V) → Bool
  has a [] = false
  has a (t ∷ ts) = (t.address == a) || has a ts

  pub next_of-low :
      (tail j : ℕ) (c ts : List (Tower K V))
      → low j c ≡ true
      → next_of tail j (c ++ ts) ≡ next_of tail j ts
  next_of-low tail j [] ts h = refl
  next_of-low tail j (t ∷ c) ts h = ground (arith, next_of-low tail j c ts)

  pub span_of-low :
      (j : ℕ) (c ts : List (Tower K V))
      → low j c ≡ true
      → span_of j (c ++ ts) ≡ length c + span_of j ts
  span_of-low j [] ts h = omega arith
  span_of-low j (t ∷ c) ts h = ground (arith, span_of-low j c ts)

  pub span_of-le : (j : ℕ) (ts : List (Tower K V)) → span_of j ts ≤ length ts
  span_of-le j [] = omega arith
  span_of-le j (t ∷ ts) = ground (arith, span_of-le j ts)

  pub prev_of-low : (j p : ℕ) (c : List (Tower K V)) → low j c ≡ true → prev_of j p c ≡ p
  prev_of-low j p [] h = refl
  prev_of-low j p (t ∷ c) h = ground (arith, prev_of-low j p c)

  pub rank_of-low : (j r n : ℕ) (c : List (Tower K V)) → low j c ≡ true → rank_of j r n c ≡ r
  rank_of-low j r n [] h = refl
  rank_of-low j r n (t ∷ c) h = ground (arith, rank_of-low j r (suc n) c)

  pub prev_of-append :
      (j p : ℕ) (c ts : List (Tower K V)) → prev_of j p (c ++ ts) ≡ prev_of j (prev_of j p c) ts
  prev_of-append j p [] ts = refl
  prev_of-append j p (t ∷ c) ts = prev_of-append j (if ltb j t.height then t.address else p) c ts

  pub rank_of-append :
      (j r n : ℕ) (c ts : List (Tower K V))
      → rank_of j r n (c ++ ts) ≡ rank_of j (rank_of j r n c) (n + length c) ts
  rank_of-append j r n [] ts = ap (λ m. rank_of j r m ts) (omega arith)
  rank_of-append j r n (t ∷ c) ts =
      rank_of-append j (if ltb j t.height then suc n else r) (suc n) c ts
      ∙ ap (λ m. rank_of j (rank_of j (if ltb j t.height then suc n else r) (suc n) c) m ts)
          (omega arith)

  pub has-append : (a : ℕ) (xs ys : List (Tower K V)) → has a (xs ++ ys) ≡ (has a xs || has a ys)
  has-append a [] ys = refl
  has-append a (x ∷ xs) ys = ground (arith, has-append a xs ys)

  -- The first node with a level `j`, if there is one.
  pub high_cases :
      (j : ℕ) (ts : List (Tower K V))
      → (low j ts ≡ true)
        ⊎ ((c : List (Tower K V)) × (t : Tower K V) × (rest : List (Tower K V)) × (ts
              ≡ c ++ (t ∷ rest))
            × (low j c ≡ true)
            × (j < t.height))
  high_cases j [] = inl refl
  high_cases j (t ∷ ts) = elim (Bool-cases (ltb j t.height)) [
    | inl e ↦ inr ([], t, ts, refl, refl, ltb→lt j t.height e)
    | inr e ↦ elim (high_cases j ts) [
      | inl l ↦ inl (rw e l)
      | inr (c, u, rest, f, l, lt) ↦ inr (t ∷ c, u, rest, ap (λ x. t ∷ x) f, rw e l, lt)
    ]
  ]

  -- A node with a level `j` takes the place of those before it.
  pub prev_of-high :
      (j p : ℕ) (c : List (Tower K V)) (t : Tower K V) (ts : List (Tower K V))
      → j < t.height
      → prev_of j p (c ++ (t ∷ ts)) ≡ prev_of j t.address ts
  prev_of-high j p c t ts lt = prev_of-append j p c (t ∷ ts) ∙ rw (lt→ltb j t.height lt)

  pub rank_of-high :
      (j r n : ℕ) (c : List (Tower K V)) (t : Tower K V) (ts : List (Tower K V))
      → j < t.height
      → rank_of j r n (c ++ (t ∷ ts)) ≡ rank_of j (suc (n + length c)) (suc (n + length c)) ts
  rank_of-high j r n c t ts lt = rank_of-append j r n c (t ∷ ts) ∙ rw (lt→ltb j t.height lt)
