-- ===== src/SkipList/Insert/Spliced.antt =====
-- src/SkipList.h, what the linking loop of `insert` makes of a list in memory.
use redis_db.Prelude.{
  ℕ, suc, ◌+◌, ◌-◌, ◌^◌, ◌≤◌, ◌<◌, ◌≡◌, ◌≢◌, refl, sym, ap, ◌∙◌, true, false, ◌&&◌, List, [], ◌∷◌,
  ◌++◌, arith, length, some, if◌then◌else◌, ltb, leb, ◌==◌, lt→ltb, ≡→==, ≢→==, Bool-cases, inl,
  inr,
}
use redis_db.SkipList.{Descent}
use redis_db.SkipList.Memory.{Heap, int_add, int_sub}
use redis_db.SkipList.Towers.{Tower, span_of, rank_of, span_of-le}
use redis_db.SkipList.Layout.{IsNode, Chain}
use redis_db.SkipList.Ends.{Leads}
use redis_db.SkipList.Splice.{Splices}
use redis_db.SkipList.Link.{Links, linked_next, linked_span}

module _ {ℓ} {K V : Type ℓ} where
  -- The rank of the last node is the number of the nodes.
  pub rank_of-length :
      (h : Heap K V) (tail n : ℕ) (b a : List (Tower K V))
      → Chain h tail (b ++ a)
      → rank_of 0 n n b ≡ n + length b
  rank_of-length h tail n [] a c = omega arith
  rank_of-length h tail n (t ∷ b) a c =
      ap (λ x. rank_of 0 (if x then suc n else n) (suc n) b) (lt→ltb 0 t.height c.0.positive)
      ∙ rank_of-length h tail (suc n) b a c.1
      ∙ omega arith

-- A node `t` comes between `b` and `a`; the walk has found the last nodes of `b`.
module _ {ℓ} {K V : Type ℓ} (h h' : Heap K V) (tail m level : ℕ) (t : Tower K V) (d : Descent)
    (size : ℕ) (a : List (Tower K V)) (links : Links t.address level d 0 m h h')
    (leads : (j : ℕ) → j < m → Leads h tail j (d.prevs j) (d.ranks j) size a)
    (last : d.ranks 0 ≡ size) (small : size + length a < 2 ^ 31)
    (apart : (j : ℕ) → j < m → d.prevs j ≢ t.address) (top : t.height ≡ suc level)
    (room : level < m) where
  touched : (j : ℕ) → j < m → (leb 0 j && ltb j (0 + m)) ≡ true
  touched j lt = ground arith

  next_here : (q j : ℕ) → j < m → h'.next q j ≡ linked_next t.address level d h q j
  next_here q j lt =
      links.next q j
      ∙ ap (λ c. if c then linked_next t.address level d h q j else h.next q j) (touched j lt)

  span_here : (q j : ℕ) → j < m → h'.span q j ≡ linked_span t.address level d h q j
  span_here q j lt =
      links.span q j
      ∙ ap (λ c. if c then linked_span t.address level d h q j else h.span q j) (touched j lt)

  behind : (j : ℕ) → j < m → int_sub (d.ranks 0) (d.ranks j) ≡ size - d.ranks j
  behind j lt = let passed = (leads j lt).passed in omega (arith, last)

  span_low :
      (j : ℕ)
      → j < m
      → leb j level ≡ true
      → d.ranks j + h'.span (d.prevs j) j ≡ size + span_of j (t ∷ a)
  span_low j lt e =
      let under : ltb j t.height ≡ true = ground arith in
      let same = ≡→== (d.prevs j) (d.prevs j) refl in
      let value : linked_span t.address level d h (d.prevs j) j
          ≡ int_add (int_sub (d.ranks 0) (d.ranks j)) 1 =
        rw (same, e) in
      let passed = (leads j lt).passed in
      rw under (omega (arith, span_here (d.prevs j) j lt, value, behind j lt))

  span_high :
      (j : ℕ)
      → j < m
      → leb j level ≡ false
      → d.ranks j + h'.span (d.prevs j) j ≡ size + span_of j (t ∷ a)
  span_high j lt e =
      let over : ltb j t.height ≡ false = ground arith in
      let same = ≡→== (d.prevs j) (d.prevs j) refl in
      let value : linked_span t.address level d h (d.prevs j) j ≡ int_add (h.span (d.prevs j) j) 1 =
        rw (same, e) in
      let led = leads j lt in
      rw over
        (omega (arith, span_here (d.prevs j) j lt, value, led.span, led.passed, span_of-le j a))

  link_span : (j : ℕ) → j < t.height → h'.span t.address j ≡ span_of j a
  link_span j lt =
      let under : j < m = omega (arith, top, room) in
      let low : leb j level ≡ true = ground arith in
      let other : (t.address == d.prevs j) ≡ false =
        ≢→== t.address (d.prevs j) (λ e. apart j under (sym e)) in
      let value : linked_span t.address level d h t.address j
          ≡ int_sub (h.span (d.prevs j) j) (int_sub (d.ranks 0) (d.ranks j)) =
        rw (other, low, ≡→== t.address t.address refl) in
      let led = leads j under in
      omega (
        arith,
        span_here t.address j under,
        value,
        behind j under,
        led.span,
        led.passed,
        span_of-le j a,
      )

  pub link-Splices : Splices h h' tail m size t.address d.prevs d.ranks (t ∷ a)
  link-Splices = record {
    entry = links.entry;
    levels = links.levels;
    next_new = λ j lt.
        let at = next_here (d.prevs j) j lt in
        let ne = apart j lt in let led = (leads j lt).next in ground arith;
    span_new = λ j lt. elim (Bool-cases (leb j level)) [
      | inl e ↦ span_low j lt e
      | inr e ↦ span_high j lt e
    ];
    next_old = λ q j lt ne away. let at = next_here q j lt in ground arith;
    span_old = λ q j lt ne away. let at = span_here q j lt in ground arith;
  }

  pub link-IsNode :
      h.entry t.address ≡ some (t.key, t.value)
      → h.levels t.address ≡ t.height
      → 1 ≤ t.address
      → IsNode h' tail t a
  link-IsNode e f ne = record {
    entry = links.entry t.address ∙ e;
    levels = links.levels t.address ∙ f;
    positive = omega (arith, top);
    not_null = ne;
    links = λ j lt.
        let under : j < m = omega (arith, top, room) in
        let at = next_here t.address j under in
        let at_span = span_here t.address j under in
        let ne' = apart j under in let led = (leads j under).next in (ground arith, link_span j lt);
  }
