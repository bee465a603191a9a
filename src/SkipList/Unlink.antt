-- ===== src/SkipList/Unlink.antt =====
-- src/SkipList.h, the loops of `erase` that unlink the node and that lower the highest level.
use redis_db.Prelude.{
  ℕ, zero, suc, ◌+◌, ◌≤◌, ◌<◌, ◌≡◌, refl, sym, ap, ◌∙◌, Bool, true, false, ◌&&◌, arith,
  if◌then◌else◌, ltb, leb, ◌==◌, ==→≡, ≡→==, Bool-cases, inl, inr, Run, ok, Returns,
}
use redis_db.SkipList.{Descent, unlink_level, unlink_levels, lower_level}
use redis_db.SkipList.Memory.{Heap, update_at, int_add, int_sub, next_at}
use redis_db.SkipList.Layout.{next_at-ok, span_at-ok}
use redis_db.SkipList.Link.{set_next-ok, set_span-ok, one_level}

module _ {ℓ} {K V : Type ℓ} (node : ℕ) (d : Descent) where
  -- The vectors of the node `q` on the level `j` once the level is unlinked.
  abbrev pub unlinked_next : Heap K V → ℕ → ℕ → ℕ
  unlinked_next h q j =
      if (q == d.prevs j) && (h.next q j == node) then h.next node j else h.next q j

  abbrev pub unlinked_span : Heap K V → ℕ → ℕ → ℕ
  unlinked_span h q j =
      if q == d.prevs j
      then if h.next q j == node
        then int_add (h.span q j) (int_sub (h.span node j) 1)
        else int_sub (h.span q j) 1
      else h.span q j

  -- The levels from `i` up to `i + n` are unlinked, and nothing else is changed.
  pub record Unlinks (i n : ℕ) (h h' : Heap K V) : Type ℓ where
    pub entry : (q : ℕ) → h'.entry q ≡ h.entry q
    pub levels : (q : ℕ) → h'.levels q ≡ h.levels q
    pub backward : (q : ℕ) → h'.backward q ≡ h.backward q
    pub next :
        (q j : ℕ)
        → h'.next q j ≡ (if leb i j && ltb j (i + n) then unlinked_next h q j else h.next q j)
    pub span :
        (q j : ℕ)
        → h'.span q j ≡ (if leb i j && ltb j (i + n) then unlinked_span h q j else h.span q j)

  abbrev cut : Heap K V → ℕ → Heap K V
  cut h i =
      let prev = d.prevs i in
      record h {
        next = update_at h.next prev i (h.next node i);
        span = update_at h.span prev i (int_add (h.span prev i) (int_sub (h.span node i) 1));
      }

  cut-run :
      (i : ℕ) (h : Heap K V)
      → i < h.levels (d.prevs i)
      → i < h.levels node
      → (h.next (d.prevs i) i == node) ≡ true
      → unlink_level node d i h ≡ ok (cut h i)
  unfolding unlink_level
  cut-run i h lt lt' e =
      let prev = d.prevs i in
      let s = int_add (h.span prev i) (int_sub (h.span node i) 1) in
      rw
        (
          next_at-ok h prev i lt,
          span_at-ok h prev i lt,
          e,
          span_at-ok h node i lt',
          set_span-ok h prev i s lt,
          next_at-ok (record h { span = update_at h.span prev i s }) node i lt',
        )
        (set_next-ok (record h { span = update_at h.span prev i s }) prev i (h.next node i) lt)

  over-run :
      (i : ℕ) (h : Heap K V)
      → i < h.levels (d.prevs i)
      → (h.next (d.prevs i) i == node) ≡ false
      → unlink_level node d i h
        ≡ ok (record h { span = update_at h.span (d.prevs i) i (int_sub (h.span (d.prevs i) i) 1) })
  unfolding unlink_level
  over-run i h lt e =
      let prev = d.prevs i in
      rw (next_at-ok h prev i lt, span_at-ok h prev i lt, e) (set_span-ok h prev i _ lt)

  cut-Unlinks :
      (i : ℕ) (h : Heap K V) → (h.next (d.prevs i) i == node) ≡ true → Unlinks i 1 h (cut h i)
  cut-Unlinks i h e = record {
    entry = λ q. refl;
    levels = λ q. refl;
    backward = λ q. refl;
    next =
        λ q j. one_level i j (λ same. rw (same, ≡→== i i refl) (ground arith)) (λ f. ground arith);
    span =
        λ q j. one_level i j (λ same. rw (same, ≡→== i i refl) (ground arith)) (λ f. ground arith);
  }

  over-Unlinks :
      (i : ℕ) (h : Heap K V)
      → (h.next (d.prevs i) i == node) ≡ false
      → Unlinks i 1 h
          (record h { span = update_at h.span (d.prevs i) i (int_sub (h.span (d.prevs i) i) 1) })
  over-Unlinks i h e = record {
    entry = λ q. refl;
    levels = λ q. refl;
    backward = λ q. refl;
    next = λ q j. one_level i j (λ same. rw same (ground arith)) (λ f. ground arith);
    span =
        λ q j. one_level i j (λ same. rw (same, ≡→== i i refl) (ground arith)) (λ f. ground arith);
  }

  Unlinks-suc :
      (i n : ℕ) (h g h' : Heap K V)
      → Unlinks i 1 h g
      → Unlinks (suc i) n g h'
      → Unlinks i (suc n) h h'
  Unlinks-suc i n h g h' one rest = record {
    entry = λ q. rest.entry q ∙ one.entry q;
    levels = λ q. rest.levels q ∙ one.levels q;
    backward = λ q. rest.backward q ∙ one.backward q;
    next = λ q j. ground (arith, rest.next q j, one.next q j, one.next node j);
    span = λ q j. ground (arith, rest.span q j, one.span q j, one.next q j, one.span node j);
  }

  -- The loop comes to its end, if on each level the node before has one, and the node, too, where
  -- it is linked.
  pub unlink_levels-Unlinks :
      (n i : ℕ) (h : Heap K V)
      → ((j : ℕ) → i ≤ j → j < i + n → j < h.levels (d.prevs j))
      → ((j : ℕ) → i ≤ j → j < i + n → h.next (d.prevs j) j ≡ node → j < h.levels node)
      → Returns (unlink_levels node d n i h) (Unlinks i n h)
  unfolding unlink_levels
  unlink_levels-Unlinks zero i h inside room = (
    h,
    refl,
    record {
      entry = λ q. refl;
      levels = λ q. refl;
      backward = λ q. refl;
      next = λ q j. ground arith;
      span = λ q j. ground arith;
    },
  )
  unlink_levels-Unlinks (suc n) i h inside room =
      let (g, run, one) = here in
      let (h', run', rest) =
        unlink_levels-Unlinks n (suc i) g
          (λ j le lt. omega (arith, inside j (omega arith) (omega arith), one.levels (d.prevs j)))
          (λ j le lt e.
            let before : g.next (d.prevs j) j ≡ h.next (d.prevs j) j =
              ground (arith, one.next (d.prevs j) j) in
            omega (arith, room j (omega arith) (omega arith) (sym before ∙ e), one.levels node)) in
      (h', rw run run', Unlinks-suc i n h g h' one rest)
    where
      here : Returns (unlink_level node d i h) (Unlinks i 1 h)
      here =
          let at = inside i (omega arith) (omega arith) in
          elim (Bool-cases (h.next (d.prevs i) i == node)) [
            | inl e ↦ (
              _,
              cut-run i h at (room i (omega arith) (omega arith) (==→≡ _ node e)) e,
              cut-Unlinks i h e,
            )
            | inr e ↦ (_, over-run i h at e, over-Unlinks i h e)
          ]

module _ {ℓ} {K V : Type ℓ} where
  -- The loop goes on, or stops.
  abbrev lowered : (head tail level : ℕ) → Heap K V → Bool → Run ℕ
  lowered head tail level h c = elim c [
    | true ↦ lower_level head tail level h
    | false ↦ ok (suc level)
  ]

  lower_level-step :
      (head tail level : ℕ) (h : Heap K V) (p : ℕ)
      → next_at h head (suc level) ≡ ok p
      → lower_level head tail (suc level) h ≡ lowered head tail level h (p == tail)
  unfolding lower_level
  lower_level-step head tail level h p e = rw e refl

  -- The highest level from which on the head leads to the tail, down to 0.
  pub lower_level-Returns :
      (head tail level : ℕ) (h : Heap K V)
      → level < h.levels head
      → Returns
          (lower_level head tail level h)
          (λ m. (m ≤ level) × ((j : ℕ) → m < j → j ≤ level → h.next head j ≡ tail))
  unfolding lower_level
  lower_level-Returns head tail zero h lt =
      (0, refl, (omega arith, λ j above below. absurd (omega arith)))
  lower_level-Returns head tail (suc level) h lt =
      let p = h.next head (suc level) in
      let run = lower_level-step head tail level h p (next_at-ok h head (suc level) lt) in
      elim (Bool-cases (p == tail)) [
        | inl e ↦
            let (m, run', (le, rest)) = lower_level-Returns head tail level h (omega arith) in
            (
              m,
              run ∙ ap (lowered head tail level h) e ∙ run',
              (
                omega arith,
                λ j above below. elim (Bool-cases (j == suc level)) [
                  | inl f ↦ ap (h.next head) (==→≡ j (suc level) f) ∙ ==→≡ p tail e
                  | inr f ↦ rest j above (ground arith)
                ],
              ),
            )
        | inr e ↦ (
          suc level,
          run ∙ ap (lowered head tail level h) e,
          (omega arith, λ j above below. absurd (omega arith)),
        )
      ]
