-- ===== src/SkipList/Link.antt =====
-- src/SkipList.h, the loop of `insert` that links the new node, level by level.
use redis_db.Prelude.{
  ℕ, zero, suc, ◌+◌, ◌≤◌, ◌<◌, ◌≡◌, ◌≢◌, refl, ◌∙◌, true, false, ◌&&◌, arith, if◌then◌else◌, ltb,
  leb, ◌==◌, lt→ltb, ==→≡, ≡→==, Bool-cases, inl, inr, ok, ◌>>=◌, Returns,
}
use redis_db.SkipList.{Descent, link_level, link_levels}
use redis_db.SkipList.Memory.{Heap, update_at, int_add, int_sub, set_next, set_span}
use redis_db.SkipList.Layout.{next_at-ok, span_at-ok}

-- A test for one level.
only : (i j : ℕ) → (leb i j && ltb j (i + 1)) ≡ (j == i)
only i j = ground arith

-- What one round of a loop over the levels does to a vector, at its level and at the others.
pub one_level :
    (i j : ℕ) {x y z : ℕ}
    → (j ≡ i → x ≡ y)
    → ((j == i) ≡ false → x ≡ z)
    → x ≡ (if leb i j && ltb j (i + 1) then y else z)
one_level i j here there =
    rw (only i j)
      (elim (Bool-cases (j == i)) [ inl e ↦ rw e (here (==→≡ j i e)) | inr e ↦ rw e (there e) ])

module _ {ℓ} {K V : Type ℓ} where
  pub set_next-ok :
      (h : Heap K V) (p i q : ℕ)
      → i < h.levels p
      → set_next h p i q ≡ ok (record h { next = update_at h.next p i q })
  unfolding set_next
  set_next-ok h p i q lt = rw (lt→ltb i (h.levels p) lt)

  pub set_span-ok :
      (h : Heap K V) (p i s : ℕ)
      → i < h.levels p
      → set_span h p i s ≡ ok (record h { span = update_at h.span p i s })
  unfolding set_span
  set_span-ok h p i s lt = rw (lt→ltb i (h.levels p) lt)

  four_writes :
      (h : Heap K V) (p q i s t x y : ℕ)
      → i < h.levels p
      → i < h.levels q
      → (do h ← set_span h q i s; h ← set_span h p i t; h ← set_next h p i x; set_next h q i y)
        ≡ ok (record h {
          next = update_at (update_at h.next p i x) q i y;
          span = update_at (update_at h.span q i s) p i t;
        })
  unfolding set_span set_next
  four_writes h p q i s t x y lt lt' =
      let at_p = lt→ltb i (h.levels p) lt in
      let at_q = lt→ltb i (h.levels q) lt' in rw (at_q, at_p, at_p, at_q)

module _ {ℓ} {K V : Type ℓ} (fresh level : ℕ) (d : Descent) where
  -- The vectors of the node `q` on the level `j` once the level is linked.
  abbrev pub linked_next : Heap K V → ℕ → ℕ → ℕ
  linked_next h q j =
      if leb j level
      then if q == fresh then h.next (d.prevs j) j else if q == d.prevs j then fresh else h.next q j
      else h.next q j

  abbrev pub linked_span : Heap K V → ℕ → ℕ → ℕ
  linked_span h q j =
      if q == d.prevs j
      then if leb j level
        then int_add (int_sub (d.ranks 0) (d.ranks j)) 1
        else int_add (h.span q j) 1
      else if leb j level && (q == fresh)
      then int_sub (h.span (d.prevs j) j) (int_sub (d.ranks 0) (d.ranks j))
      else h.span q j

  -- The levels from `i` up to `i + n` are linked, and nothing else is changed.
  pub record Links (i n : ℕ) (h h' : Heap K V) : Type ℓ where
    pub entry : (q : ℕ) → h'.entry q ≡ h.entry q
    pub levels : (q : ℕ) → h'.levels q ≡ h.levels q
    pub backward : (q : ℕ) → h'.backward q ≡ h.backward q
    pub next :
        (q j : ℕ)
        → h'.next q j ≡ (if leb i j && ltb j (i + n) then linked_next h q j else h.next q j)
    pub span :
        (q j : ℕ)
        → h'.span q j ≡ (if leb i j && ltb j (i + n) then linked_span h q j else h.span q j)

  abbrev low_link : Heap K V → ℕ → Heap K V
  low_link h i =
      let prev = d.prevs i in
      let behind = int_sub (d.ranks 0) (d.ranks i) in
      record h {
        next = update_at (update_at h.next prev i fresh) fresh i (h.next prev i);
        span =
            update_at (update_at h.span fresh i (int_sub (h.span prev i) behind)) prev i
              (int_add behind 1);
      }

  low_link-run :
      (i : ℕ) (h : Heap K V)
      → i < h.levels (d.prevs i)
      → i < h.levels fresh
      → leb i level ≡ true
      → link_level fresh level d i h ≡ ok (low_link h i)
  unfolding link_level
  low_link-run i h lt lt' e =
      let prev = d.prevs i in
      rw (next_at-ok h prev i lt, span_at-ok h prev i lt, e)
        (four_writes h prev fresh i _ _ fresh (h.next prev i) lt lt')

  high_link-run :
      (i : ℕ) (h : Heap K V)
      → i < h.levels (d.prevs i)
      → leb i level ≡ false
      → link_level fresh level d i h
        ≡ ok (record h { span = update_at h.span (d.prevs i) i (int_add (h.span (d.prevs i) i) 1) })
  unfolding link_level
  high_link-run i h lt e =
      let prev = d.prevs i in
      rw (next_at-ok h prev i lt, span_at-ok h prev i lt, e) (set_span-ok h prev i _ lt)

  low_next :
      (i : ℕ) (h : Heap K V)
      → leb i level ≡ true
      → d.prevs i ≢ fresh
      → (q j : ℕ)
      → (low_link h i).next q j
        ≡ (if leb i j && ltb j (i + 1) then linked_next h q j else h.next q j)
  low_next i h e ne q j =
      one_level i j (λ same. rw (same, e, ≡→== i i refl) (ground arith)) (λ f. ground arith)

  low_span :
      (i : ℕ) (h : Heap K V)
      → leb i level ≡ true
      → d.prevs i ≢ fresh
      → (q j : ℕ)
      → (low_link h i).span q j
        ≡ (if leb i j && ltb j (i + 1) then linked_span h q j else h.span q j)
  low_span i h e ne q j =
      one_level i j (λ same. rw (same, e, ≡→== i i refl) (ground arith)) (λ f. ground arith)

  high_next :
      (i : ℕ) (h : Heap K V)
      → leb i level ≡ false
      → (q j : ℕ)
      → h.next q j ≡ (if leb i j && ltb j (i + 1) then linked_next h q j else h.next q j)
  high_next i h e q j = one_level i j (λ same. rw (same, e) (ground arith)) (λ f. ground arith)

  high_span :
      (i : ℕ) (h : Heap K V)
      → leb i level ≡ false
      → (q j : ℕ)
      → update_at h.span (d.prevs i) i (int_add (h.span (d.prevs i) i) 1) q j
        ≡ (if leb i j && ltb j (i + 1) then linked_span h q j else h.span q j)
  high_span i h e q j =
      one_level i j (λ same. rw (same, e, ≡→== i i refl) (ground arith)) (λ f. ground arith)

  link_level-Links :
      (i : ℕ) (h : Heap K V)
      → i < h.levels (d.prevs i)
      → (i ≤ level → i < h.levels fresh)
      → d.prevs i ≢ fresh
      → Returns (link_level fresh level d i h) (Links i 1 h)
  link_level-Links i h lt room ne = elim (Bool-cases (leb i level)) [
    | inl e ↦ (
      low_link h i,
      low_link-run i h lt (room (ground arith)) e,
      record {
        entry = λ q. refl;
        levels = λ q. refl;
        backward = λ q. refl;
        next = λ q j. low_next i h e ne q j;
        span = λ q j. low_span i h e ne q j;
      },
    )
    | inr e ↦ (
      _,
      high_link-run i h lt e,
      record {
        entry = λ q. refl;
        levels = λ q. refl;
        backward = λ q. refl;
        next = λ q j. high_next i h e q j;
        span = λ q j. high_span i h e q j;
      },
    )
  ]

  -- A level whose predecessors are elsewhere leaves what the others are linked by.
  Links-suc :
      (i n : ℕ) (h g h' : Heap K V) → Links i 1 h g → Links (suc i) n g h' → Links i (suc n) h h'
  Links-suc i n h g h' one rest = record {
    entry = λ q. rest.entry q ∙ one.entry q;
    levels = λ q. rest.levels q ∙ one.levels q;
    backward = λ q. rest.backward q ∙ one.backward q;
    next = λ q j. ground (arith, rest.next q j, one.next q j, one.next (d.prevs j) j);
    span = λ q j. ground (arith, rest.span q j, one.span q j, one.span (d.prevs j) j);
  }

  Links-zero : (i : ℕ) (h : Heap K V) → Links i 0 h h
  Links-zero i h = record {
    entry = λ q. refl;
    levels = λ q. refl;
    backward = λ q. refl;
    next = λ q j. ground arith;
    span = λ q j. ground arith;
  }

  pub link_levels-Links :
      (n i : ℕ) (h : Heap K V)
      → ((j : ℕ) → i ≤ j → j < i + n → j < h.levels (d.prevs j))
      → ((j : ℕ) → j ≤ level → j < h.levels fresh)
      → ((j : ℕ) → i ≤ j → j < i + n → d.prevs j ≢ fresh)
      → Returns (link_levels fresh level d n i h) (Links i n h)
  unfolding link_levels
  link_levels-Links zero i h inside room ne = (h, refl, Links-zero i h)
  link_levels-Links (suc n) i h inside room ne =
      let (g, run, one) =
        link_level-Links i h (inside i (omega arith) (omega arith)) (room i)
          (ne i (omega arith) (omega arith)) in
      let (h', run', rest) =
        link_levels-Links n (suc i) g
          (λ j le lt. omega (arith, inside j (omega arith) (omega arith), one.levels (d.prevs j)))
          (λ j le. omega (arith, room j le, one.levels fresh))
          (λ j le lt. ne j (omega arith) (omega arith)) in
      (h', rw run run', Links-suc i n h g h' one rest)
