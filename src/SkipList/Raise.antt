-- ===== src/SkipList/Raise.antt =====
-- src/SkipList.h, what the list in memory is once the head has been raised in `insert`.
pub mod Node
pub mod Head
use redis_db.Prelude.{
  ℕ, zero, suc, ◌+◌, ◌-◌, ◌≤◌, ◌<◌, ◌≡◌, ◌≢◌, refl, sym, ap, ◌∙◌, max, true, false, ◌&&◌, List, [],
  ◌∷◌, arith, length, some, none, if◌then◌else◌, ltb, leb, ◌==◌, le→ltb, ltb→lt, ltb→le, ≡→==, ≢→==,
  Bool-cases, inl, inr, All, Returns,
}
use redis_db.SkipList.{SkipList, raise_levels}
use redis_db.SkipList.Memory.{Heap, update, update_at, new_node, set_level_num}
use redis_db.SkipList.Towers.{Tower, next_of, span_of, low, has}
use redis_db.SkipList.Layout.{Linked, Holds}
use redis_db.SkipList.Frame.{SameAt, Chain-none, Chain-frame, Backs-frame, Holds-frame}
use redis_db.SkipList.Link.{set_next-ok, set_span-ok}
use Head.{
  Raises, raise_levels-Raises, low_of_heights, to_the_tail, with_head, Grown, with_head-Grown,
}

module _ {ℓ} {K V : Type ℓ} where
  -- Only the head is changed.
  raised-SameAt :
      (h g : Heap K V) (l : SkipList) (level : ℕ) (prevs : ℕ → ℕ) (r : (ℕ → ℕ) × Heap K V)
      → Grown h g l level
      → Raises l (level - l.max_level) prevs g r
      → (q : ℕ) → q ≢ l.head
      → SameAt h r.1 q
  raised-SameAt h g l level prevs r grown raised q ne =
      let before = grown.same q ne in
      let other : (q == l.head) ≡ false = ≢→== q l.head ne in
      record {
        entry = raised.entry q ∙ before.entry;
        levels = raised.levels q ∙ before.levels;
        next = λ j. raised.next q j ∙ rw other (before.next j);
        span = λ j. raised.span q j ∙ rw other (before.span j);
      }

  raised-links :
      (h g : Heap K V) (l : SkipList) (level : ℕ) (prevs : ℕ → ℕ) (r : (ℕ → ℕ) × Heap K V)
      (ts : List (Tower K V))
      → Holds h l ts
      → Grown h g l level
      → Raises l (level - l.max_level) prevs g r
      → Linked r.1 l.tail l.head (suc (max l.max_level level)) ts
  raised-links h g l level prevs r ts s grown raised j lt = elim (Bool-cases (ltb l.max_level j)) [
    | inl e ↦
        let over : suc l.max_level ≤ j = ltb→lt l.max_level j e in
        let high : leb j (l.max_level + (level - l.max_level)) ≡ true = ground arith in
        let ends = to_the_tail l.tail j ts (low_of_heights (suc l.max_level) j ts s.heights over) in
        let at = ≡→== l.head l.head refl in
        let test : ((l.head == l.head)
              && (ltb l.max_level j && leb j (l.max_level + (level - l.max_level))))
            ≡ true =
          rw (at, e, high) in
        (
          raised.next l.head j ∙ ap (λ c. if c then l.tail else g.next l.head j) test ∙ sym ends.0,
          raised.span l.head j
              ∙ ap (λ c. if c then l.length else g.span l.head j) test
              ∙ s.counted
              ∙ sym ends.1,
        )
    | inr e ↦
        let under : j < suc l.max_level = omega (arith, ltb→le l.max_level j e) in
        let at = ≡→== l.head l.head refl in
        let test : ((l.head == l.head)
              && (ltb l.max_level j && leb j (l.max_level + (level - l.max_level))))
            ≡ false =
          rw (at, e) in
        let (next, span) = s.head_links j under in
        let (kept, kept') = grown.links j under in
        (
          raised.next l.head j ∙ ap (λ c. if c then l.tail else g.next l.head j) test ∙ kept ∙ next,
          raised.span l.head j
              ∙ ap (λ c. if c then l.length else g.span l.head j) test
              ∙ kept'
              ∙ span,
        )
  ]

  heights-le :
      (m n : ℕ) (ts : List (Tower K V))
      → m ≤ n
      → All (λ (t : Tower K V). t.height ≤ m) ts
      → All (λ (t : Tower K V). t.height ≤ n) ts
  heights-le m n [] le s = tt
  heights-le m n (t ∷ ts) le s = (omega (arith, s.0), heights-le m n ts le s.1)

  -- The same list, with room for the new level.
  raised-Holds :
      (h g : Heap K V) (l : SkipList) (level : ℕ) (prevs : ℕ → ℕ) (r : (ℕ → ℕ) × Heap K V)
      (ts : List (Tower K V))
      → Holds h l ts
      → Grown h g l level
      → Raises l (level - l.max_level) prevs g r
      → Holds r.1 (record l { max_level = max l.max_level level }) ts
  raised-Holds h g l level prevs r ts s grown raised =
      let same = raised-SameAt h g l level prevs r grown raised in
      let back : (q : ℕ) → r.1.backward q ≡ h.backward q =
        λ q. raised.backward q ∙ grown.backward q in
      let at_tail = same l.tail (λ e. s.ends (sym e)) in
      record {
        head_entry = s.head_entry;
        tail_entry = s.tail_entry;
        head_is = raised.entry l.head ∙ grown.entry l.head ∙ s.head_is;
        tail_is = raised.entry l.tail ∙ grown.entry l.tail ∙ s.tail_is;
        head_levels = omega (arith, raised.levels l.head, grown.levels);
        tail_levels = at_tail.levels ∙ s.tail_levels;
        tail_next = at_tail.next 0 ∙ s.tail_next;
        head_links = raised-links h g l level prevs r ts s grown raised;
        chain = Chain-frame h r.1 l.tail l.head ts same s.not_head s.chain;
        backs =
            Backs-frame h r.1 l.tail l.head l.head ts (λ q ne. back q) s.not_head
              (λ e. s.ends (sym e)) s.backs;
        distinct = s.distinct;
        not_head = s.not_head;
        not_tail = s.not_tail;
        ends = s.ends;
        head_not_null = s.head_not_null;
        tail_not_null = s.tail_not_null;
        heights = heights-le (suc l.max_level) _ ts (omega arith) s.heights;
        counted = s.counted;
      }

  -- What `raise_levels` leaves to the loop that links the new node.
  pub record Raised (h : Heap K V) (l : SkipList) (level : ℕ) (prevs : ℕ → ℕ)
      (ts : List (Tower K V)) (r : (ℕ → ℕ) × Heap K V) : Type ℓ where
    pub holds : Holds r.1 (record l { max_level = max l.max_level level }) ts
    pub same : (q : ℕ) → q ≢ l.head → SameAt h r.1 q
    pub prevs_low : (j : ℕ) → j < suc l.max_level → r.0 j ≡ prevs j
    pub prevs_high : (j : ℕ) → l.max_level < j → j ≤ level → r.0 j ≡ l.head

  pub raise-Raised :
      (h : Heap K V) (l : SkipList) (level : ℕ) (prevs : ℕ → ℕ) (ts : List (Tower K V))
      → Holds h l ts
      → Returns
          (raise_levels l (level - l.max_level) prevs (with_head h l level))
          (Raised h l level prevs ts)
  raise-Raised h l level prevs ts s =
      let g = with_head h l level in
      let grown = with_head-Grown h l level s.head_levels in
      let (r, run, raised) =
        raise_levels-Raises l (level - l.max_level) prevs g (omega (arith, grown.levels)) in
      (
        r,
        run,
        record {
          holds = raised-Holds h g l level prevs r ts s grown raised;
          same = raised-SameAt h g l level prevs r grown raised;
          prevs_low = λ j lt. ground (arith, raised.prevs_are j);
          prevs_high = λ j lt le. ground (arith, raised.prevs_are j);
        },
      )
