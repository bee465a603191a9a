-- ===== src/SkipList/Destroyed.antt =====
-- src/SkipList.h, the destructor of `SkipList`.
use redis_db.Prelude.{
  ℕ, zero, suc, ◌+◌, ◌≤◌, ◌<◌, ◌≡◌, ◌≢◌, refl, sym, ap, ◌∙◌, Bool, true, false, ◌||◌, List, [], ◌∷◌,
  none, Option, arith, length, if◌then◌else◌, lt→ltb, ◌==◌, ≡→==, ≢→==, ok, Returns,
}
use redis_db.SkipList.{SkipList, Order, delete_from, destroy}
use redis_db.SkipList.Memory.{Heap, null, update, next_at}
use redis_db.SkipList.Towers.{Tower, next_of, has}
use redis_db.SkipList.Layout.{Chain, IsDistinct, IsSkipList, next_at-ok}
use redis_db.SkipList.Frame.{SameAt, Chain-frame}

turned : (p q : ℕ) → (q == p) ≡ (p == q)
turned p q = ground arith

module _ {ℓ} {K V : Type ℓ} where
  -- The memory without the node at `p`.
  abbrev deleted : Heap K V → ℕ → Heap K V
  deleted h p = record h { entry = update h.entry p none; levels = update h.levels p 0 }

  deleted-SameAt : (h : Heap K V) (p q : ℕ) → q ≢ p → SameAt h (deleted h p) q
  deleted-SameAt h p q ne = record {
    entry = rw (≢→== q p ne) refl;
    levels = rw (≢→== q p ne) refl;
    next = λ j. refl;
    span = λ j. refl;
  }

  -- Just the nodes of which the test holds are freed.
  abbrev pub Frees : Heap K V → (ℕ → Bool) → Heap K V → Type ℓ
  Frees h gone h' = (q : ℕ) → h'.entry q ≡ (if gone q then none else h.entry q)

  -- What two deletions free together.
  either :
      (a b c : Bool) (x : Option (K × V))
      → (if a || c then none else (if b then none else x)) ≡ (if a || (b || c) then none else x)
  either true b c x = refl
  either false true true x = refl
  either false true false x = refl
  either false false true x = refl
  either false false false x = refl

  deleted-Frees :
      (h h' : Heap K V) (p tail q : ℕ) (rest : Bool)
      → h'.entry q ≡ (if (tail == q) || rest then none else (deleted h p).entry q)
      → h'.entry q ≡ (if (tail == q) || ((p == q) || rest) then none else h.entry q)
  deleted-Frees h h' p tail q rest e =
      e
      ∙ ap (λ b. if (tail == q) || rest then none else (if b then none else h.entry q)) (turned p q)
      ∙ either (tail == q) (p == q) rest (h.entry q)

  delete_from-step :
      (h : Heap K V) (fuel p next : ℕ)
      → p ≢ null
      → next_at h p 0 ≡ ok next
      → delete_from (suc fuel) p h ≡ delete_from fuel next (deleted h p)
  unfolding delete_from
  delete_from-step h fuel p next ne e = rw (delete_from, ≢→== p null ne, e) refl

  delete_from-end : (h : Heap K V) (fuel : ℕ) → delete_from (suc fuel) null h ≡ ok h
  unfolding delete_from
  delete_from-end h fuel = refl

  delete_from-Frees :
      (h : Heap K V) (tail fuel : ℕ) (ts : List (Tower K V))
      → Chain h tail ts
      → IsDistinct ts
      → has tail ts ≡ false
      → h.levels tail ≡ 1
      → h.next tail 0 ≡ 0
      → 1 ≤ tail
      → length ts + 1 < fuel
      → Returns (delete_from fuel (next_of tail 0 ts) h) (Frees h (λ q. (tail == q) || has q ts))
  delete_from-Frees h tail zero ts c d out levels end positive lt = absurd (omega arith)
  delete_from-Frees h tail (suc zero) ts c d out levels end positive lt = absurd (omega arith)
  delete_from-Frees h tail (suc (suc fuel)) [] c d out levels end positive lt = (
    deleted h tail,
    delete_from-step h (suc fuel) tail 0 (omega arith)
          (next_at-ok h tail 0 (omega (arith, levels)) ∙ ap ok end)
        ∙ delete_from-end (deleted h tail) fuel,
    λ q. ground arith,
  )
  delete_from-Frees h tail (suc (suc fuel)) (t ∷ ts) c d out levels end positive lt =
      let g = deleted h t.address in
      let same = deleted-SameAt h t.address in
      let ne : tail ≢ t.address = ground (arith, ≡→== t.address tail) in
      let at_tail = same tail ne in
      let (h', run, frees) =
        delete_from-Frees g tail (suc fuel) ts (Chain-frame h g tail t.address ts same d.0 c.1) d.1
          (ground arith) (at_tail.levels ∙ levels) end positive (omega arith) in
      let first : next_of tail 0 (t ∷ ts) ≡ t.address =
        ap (λ x. if x then t.address else next_of tail 0 ts) (lt→ltb 0 t.height c.0.positive) in
      let next : next_at h t.address 0 ≡ ok (next_of tail 0 ts) =
        next_at-ok h t.address 0 (omega (arith, c.0.levels, c.0.positive))
        ∙ ap ok (c.0.links 0 (omega (arith, c.0.positive))).0 in
      (
        h',
        ap (λ p. delete_from (suc (suc fuel)) p h) first
            ∙ delete_from-step h (suc fuel) t.address (next_of tail 0 ts)
                (omega (arith, c.0.not_null)) next
            ∙ run,
        λ q. deleted-Frees h h' t.address tail q (has q ts) (frees q),
      )

module _ {ℓ} {K V : Type ℓ} (order : Order K) where
  -- On a skip list, the destructor runs without undefined behaviour to an end, never deletes a node
  -- twice, and frees the dummy nodes and every node of the list, and nothing else.
  pub destroy-Frees :
      (h : Heap K V) (l : SkipList) (ts : List (Tower K V))
      → IsSkipList order h l ts
      → Returns (destroy h l) (Frees h (λ q. (l.head == q) || ((l.tail == q) || has q ts)))
  unfolding destroy
  destroy-Frees h l ts s =
      let g = deleted h l.head in
      let same = deleted-SameAt h l.head in
      let holds = s.holds in
      let at_tail = same l.tail (λ e. holds.ends (sym e)) in
      let counted = holds.counted in
      let (h', run, frees) =
        delete_from-Frees g l.tail (l.length + 2) ts
          (Chain-frame h g l.tail l.head ts same holds.not_head holds.chain) holds.distinct
          holds.not_tail (at_tail.levels ∙ holds.tail_levels) holds.tail_next holds.tail_not_null
          (omega arith) in
      let more : l.length + 3 ≡ suc (l.length + 2) = omega arith in
      (
        h',
        ap (λ n. delete_from n l.head h) more
            ∙ delete_from-step h (l.length + 2) l.head (next_of l.tail 0 ts)
                (omega (arith, holds.head_not_null))
                (next_at-ok h l.head 0 (omega (arith, holds.head_levels))
                  ∙ ap ok (holds.head_links 0 (omega arith)).0)
            ∙ run,
        λ q. ground (arith, frees q),
      )
