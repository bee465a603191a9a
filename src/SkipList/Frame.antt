-- ===== src/SkipList/Frame.antt =====
-- src/SkipList.h, changes of the memory that leave nodes alone.
use redis_db.Prelude.{
  ℕ, ◌≡◌, ◌≢◌, refl, sym, ap, ◌∙◌, false, List, [], ◌∷◌, ◌++◌, none, arith, if◌then◌else◌, lt→ltb,
  ◌==◌, ==→≡, Bool-cases, inl, inr,
}
use redis_db.SkipList.{SkipList}
use redis_db.SkipList.Memory.{Heap}
use redis_db.SkipList.Towers.{Tower, prev_of, has}
use redis_db.SkipList.Layout.{IsNode, Chain, Backs, Holds}

module _ {ℓ} {K V : Type ℓ} where
  -- The node at `q` is as before, but for its backward pointer.
  pub record SameAt (h h' : Heap K V) (q : ℕ) : Type ℓ where
    pub entry : h'.entry q ≡ h.entry q
    pub levels : h'.levels q ≡ h.levels q
    pub next : (j : ℕ) → h'.next q j ≡ h.next q j
    pub span : (j : ℕ) → h'.span q j ≡ h.span q j

  IsNode-frame :
      (h h' : Heap K V) (tail : ℕ) (t : Tower K V) (ts : List (Tower K V))
      → SameAt h h' t.address
      → IsNode h tail t ts
      → IsNode h' tail t ts
  IsNode-frame h h' tail t ts s n = record {
    entry = s.entry ∙ n.entry;
    levels = s.levels ∙ n.levels;
    positive = n.positive;
    not_null = n.not_null;
    links = λ j lt. (s.next j ∙ (n.links j lt).0, s.span j ∙ (n.links j lt).1);
  }

  -- What changes one address leaves a chain that does not go through it.
  pub Chain-frame :
      (h h' : Heap K V) (tail x : ℕ) (ts : List (Tower K V))
      → ((q : ℕ) → q ≢ x → SameAt h h' q)
      → has x ts ≡ false
      → Chain h tail ts
      → Chain h' tail ts
  Chain-frame h h' tail x [] same out c = tt
  Chain-frame h h' tail x (t ∷ ts) same out c = (
    IsNode-frame h h' tail t ts (same t.address (ground arith)) c.0,
    Chain-frame h h' tail x ts same (ground arith) c.1,
  )

  pub Backs-frame :
      (h h' : Heap K V) (tail prev x : ℕ) (ts : List (Tower K V))
      → ((q : ℕ) → q ≢ x → h'.backward q ≡ h.backward q)
      → has x ts ≡ false
      → tail ≢ x
      → Backs h tail prev ts
      → Backs h' tail prev ts
  Backs-frame h h' tail prev x [] same out ne b = same tail ne ∙ b
  Backs-frame h h' tail prev x (t ∷ ts) same out ne b = (
    same t.address (ground arith) ∙ b.0,
    Backs-frame h h' tail t.address x ts same (ground arith) ne b.1,
  )

  -- The backward pointers of the first nodes alone.
  abbrev pub BacksIn : Heap K V → (prev : ℕ) → List (Tower K V) → Type 0
  BacksIn h prev [] = Unit
  BacksIn h prev (t ∷ ts) = (h.backward t.address ≡ prev) × BacksIn h t.address ts

  pub Backs-append :
      (h : Heap K V) (tail p : ℕ) (b a : List (Tower K V))
      → Chain h tail (b ++ a)
      → Backs h tail p (b ++ a)
      → BacksIn h p b × Backs h tail (prev_of 0 p b) a
  Backs-append h tail p [] a c s = (tt, s)
  Backs-append h tail p (t ∷ b) a c s =
      let (left, right) = Backs-append h tail t.address b a c.1 s.1 in
      ((s.0, left), rw (lt→ltb 0 t.height c.0.positive) right)

  pub append-Backs :
      (h : Heap K V) (tail p : ℕ) (b a : List (Tower K V))
      → Chain h tail (b ++ a)
      → BacksIn h p b
      → Backs h tail (prev_of 0 p b) a
      → Backs h tail p (b ++ a)
  append-Backs h tail p [] a c i s = s
  append-Backs h tail p (t ∷ b) a c i s = (
    i.0,
    append-Backs h tail t.address b a c.1 i.1 (
        rw
          (sym
            (ap (λ x. prev_of 0 (if x then t.address else p) b) (lt→ltb 0 t.height c.0.positive)))
          s),
  )

  pub BacksIn-frame :
      (h h' : Heap K V) (prev x y : ℕ) (ts : List (Tower K V))
      → ((q : ℕ) → q ≢ x → q ≢ y → h'.backward q ≡ h.backward q)
      → has x ts ≡ false
      → has y ts ≡ false
      → BacksIn h prev ts
      → BacksIn h' prev ts
  BacksIn-frame h h' prev x y [] same out out' b = tt
  BacksIn-frame h h' prev x y (t ∷ ts) same out out' b = (
    same t.address (ground arith) (ground arith) ∙ b.0,
    BacksIn-frame h h' t.address x y ts same (ground arith) (ground arith) b.1,
  )

  -- An address without a node is none of the nodes.
  pub Chain-none :
      (h : Heap K V) (tail x : ℕ) (ts : List (Tower K V))
      → h.entry x ≡ none
      → Chain h tail ts
      → has x ts ≡ false
  Chain-none h tail x [] e c = refl
  Chain-none h tail x (t ∷ ts) e c = elim (Bool-cases (t.address == x)) [
    | inl f ↦
        let same : t.address ≡ x = ==→≡ t.address x f in absurd (cc (e, c.0.entry, ap h.entry same))
    | inr f ↦ rw f (Chain-none h tail x ts e c.1)
  ]

  -- A list in memory does not see what happens at an address of none of its nodes.
  pub Holds-frame :
      (h h' : Heap K V) (l : SkipList) (x : ℕ) (ts : List (Tower K V))
      → ((q : ℕ) → q ≢ x → SameAt h h' q)
      → ((q : ℕ) → q ≢ x → h'.backward q ≡ h.backward q)
      → has x ts ≡ false
      → l.head ≢ x
      → l.tail ≢ x
      → Holds h l ts
      → Holds h' l ts
  Holds-frame h h' l x ts same back out no_head no_tail s =
      let at_head = same l.head no_head in
      let at_tail = same l.tail no_tail in
      record {
        head_entry = s.head_entry;
        tail_entry = s.tail_entry;
        head_is = at_head.entry ∙ s.head_is;
        tail_is = at_tail.entry ∙ s.tail_is;
        head_levels = omega (arith, at_head.levels, s.head_levels);
        tail_levels = at_tail.levels ∙ s.tail_levels;
        tail_next = at_tail.next 0 ∙ s.tail_next;
        head_links = λ j lt.
            (at_head.next j ∙ (s.head_links j lt).0, at_head.span j ∙ (s.head_links j lt).1);
        chain = Chain-frame h h' l.tail x ts same out s.chain;
        backs = Backs-frame h h' l.tail l.head x ts back out no_tail s.backs;
        distinct = s.distinct;
        not_head = s.not_head;
        not_tail = s.not_tail;
        ends = s.ends;
        head_not_null = s.head_not_null;
        tail_not_null = s.tail_not_null;
        heights = s.heights;
        counted = s.counted;
      }
