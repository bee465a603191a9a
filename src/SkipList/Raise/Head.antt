-- ===== src/SkipList/Raise/Head.antt =====
-- src/SkipList.h, the head of `insert` raised to the level of the new node, and the loop over the new
-- levels.
use redis_db.Prelude.{
  ℕ, zero, suc, ◌+◌, ◌≤◌, ◌<◌, ◌≡◌, ◌≢◌, refl, max, true, false, ◌&&◌, List, [], ◌∷◌, arith, length,
  if◌then◌else◌, ltb, leb, ◌==◌, le→ltb, ≡→==, ≢→==, Bool-cases, inl, inr, All, Returns,
}
use redis_db.SkipList.{SkipList, raise_levels}
use redis_db.SkipList.Memory.{Heap, update, update_at, set_level_num}
use redis_db.SkipList.Towers.{Tower, next_of, span_of, low}
use redis_db.SkipList.Frame.{SameAt}
use redis_db.SkipList.Link.{set_next-ok, set_span-ok}

module _ {ℓ} {K V : Type ℓ} where
  -- The levels above the highest so far, `n` of them, lead from the head to the tail.
  pub record Raises (l : SkipList) (n : ℕ) (prevs : ℕ → ℕ) (h : Heap K V) (r : (ℕ → ℕ) × Heap K V)
      : Type ℓ where
    pub prevs_are :
        (j : ℕ) → r.0 j ≡ (if ltb l.max_level j && leb j (l.max_level + n) then l.head else prevs j)
    pub entry : (q : ℕ) → r.1.entry q ≡ h.entry q
    pub levels : (q : ℕ) → r.1.levels q ≡ h.levels q
    pub backward : (q : ℕ) → r.1.backward q ≡ h.backward q
    pub next :
        (q j : ℕ)
        → r.1.next q j ≡ (
            if (q == l.head) && (ltb l.max_level j && leb j (l.max_level + n))
            then l.tail
            else h.next q j)
    pub span :
        (q j : ℕ)
        → r.1.span q j ≡ (
            if (q == l.head) && (ltb l.max_level j && leb j (l.max_level + n))
            then l.length
            else h.span q j)

  pub raise_levels-Raises :
      (l : SkipList) (n : ℕ) (prevs : ℕ → ℕ) (h : Heap K V)
      → l.max_level + n < h.levels l.head
      → Returns (raise_levels l n prevs h) (Raises l n prevs h)
  unfolding raise_levels
  raise_levels-Raises l zero prevs h room = (
    (prevs, h),
    refl,
    record {
      prevs_are = λ j. ground arith;
      entry = λ q. refl;
      levels = λ q. refl;
      backward = λ q. refl;
      next = λ q j. ground arith;
      span = λ q j. ground arith;
    },
  )
  raise_levels-Raises l (suc n) prevs h room =
      let i = l.max_level + suc n in
      let g : Heap K V = record h {
        next = update_at h.next l.head i l.tail;
        span = update_at h.span l.head i l.length;
      } in
      let (r, run, on) = raise_levels-Raises l n (update prevs i l.head) g (omega arith) in
      (
        r,
        rw
            (
              set_next-ok h l.head i l.tail (omega arith),
              set_span-ok (record h { next = update_at h.next l.head i l.tail }) l.head i l.length
                  (omega arith),
            )
            run,
        record {
          prevs_are = λ j. ground (arith, on.prevs_are j);
          entry = on.entry;
          levels = on.levels;
          backward = on.backward;
          next = λ q j. ground (arith, on.next q j);
          span = λ q j. ground (arith, on.span q j);
        },
      )

  pub low_of_heights :
      (m j : ℕ) (ts : List (Tower K V))
      → All (λ (t : Tower K V). t.height ≤ m) ts
      → m ≤ j
      → low j ts ≡ true
  low_of_heights m j [] s le = refl
  low_of_heights m j (t ∷ ts) s le =
      let rest = low_of_heights m j ts s.1 le in
      let here : ltb j t.height ≡ false = le→ltb j t.height (omega (arith, s.0)) in rw (here, rest)

  pub to_the_tail :
      (tail j : ℕ) (ts : List (Tower K V))
      → low j ts ≡ true
      → (next_of tail j ts ≡ tail) × (span_of j ts ≡ length ts)
  to_the_tail tail j [] l = (refl, refl)
  to_the_tail tail j (t ∷ ts) l = ground (arith, to_the_tail tail j ts)

  -- The head with the vectors that `insert` gives it.
  abbrev pub with_head : Heap K V → SkipList → (level : ℕ) → Heap K V
  with_head h l level = if ltb l.max_level level then set_level_num h l.head (level + 1) else h

  pub record Grown (h g : Heap K V) (l : SkipList) (level : ℕ) : Type ℓ where
    pub same : (q : ℕ) → q ≢ l.head → SameAt h g q
    pub entry : (q : ℕ) → g.entry q ≡ h.entry q
    pub backward : (q : ℕ) → g.backward q ≡ h.backward q
    pub levels : max l.max_level level < g.levels l.head
    pub links :
        (j : ℕ)
        → j < suc l.max_level
        → (g.next l.head j ≡ h.next l.head j) × (g.span l.head j ≡ h.span l.head j)

  pub with_head-Grown :
      (h : Heap K V) (l : SkipList) (level : ℕ)
      → l.max_level < h.levels l.head
      → Grown h (with_head h l level) l level
  unfolding set_level_num
  with_head-Grown h l level room = elim (Bool-cases (ltb l.max_level level)) [
    | inl e ↦ rw e (record {
      same = λ q ne. record {
        entry = refl;
        levels = rw (≢→== q l.head ne);
        next = λ j. rw (≢→== q l.head ne);
        span = λ j. rw (≢→== q l.head ne);
      };
      entry = λ q. refl;
      backward = λ q. refl;
      levels = rw (≡→== l.head l.head refl) (ground arith);
      links = λ j lt. ground arith;
    })
    | inr e ↦ rw e (record {
      same = λ q ne. record { entry = refl; levels = refl; next = λ j. refl; span = λ j. refl };
      entry = λ q. refl;
      backward = λ q. refl;
      levels = ground arith;
      links = λ j lt. (refl, refl);
    })
  ]
