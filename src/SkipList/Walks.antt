-- ===== src/SkipList/Walks.antt =====
-- src/redisIterator.h on src/SkipList.h: the nodes that a whole walk meets.
use redis_db.Prelude.{
  ℕ, zero, suc, ◌+◌, ◌<◌, ◌≡◌, ◌≢◌, refl, sym, ap, subst, ◌∙◌, false, List, [], ◌∷◌, ◌++◌, arith,
  length, length-append, if◌then◌else◌, lt→ltb, ≡→==, ≢→==, inl, inr, ok,
}
use mathlib.Core.List.{append_assoc, reverse, reverse-append, append-nil}
use redis_db.SkipList.{SkipList, Order, next_node, prev_node, begin, rbegin}
use redis_db.SkipList.Memory.{Heap, next_at, backward_at}
use redis_db.SkipList.Towers.{Tower, next_of, prev_of, has, has-append, prev_of-high}
use redis_db.SkipList.Layout.{
  IsNode, Chain, Backs, IsSkipList, Chain-append, next_at-ok, backward_at-ok,
}
use redis_db.SkipList.Frame.{Backs-append}
use redis_db.SkipList.Ends.{last_cases}
use redis_db.SkipList.Iterator.{
  is_not_equal, post_increment, reverse_post_increment, walk, printed_list, reverse_walk,
  reverse_list,
}

module _ {ℓ} {K V : Type ℓ} where
  -- The addresses of the nodes, in the order of the list.
  abbrev pub addresses : List (Tower K V) → List ℕ
  addresses [] = []
  addresses (t ∷ ts) = t.address ∷ addresses ts

  next_of-first :
      (h : Heap K V) (tail : ℕ) (t : Tower K V) (ts : List (Tower K V))
      → IsNode h tail t ts
      → next_of tail 0 (t ∷ ts) ≡ t.address
  next_of-first h tail t ts n =
      ap (λ x. if x then t.address else next_of tail 0 ts) (lt→ltb 0 t.height n.positive)

  walk-end : (h : Heap K V) (fuel it : ℕ) → walk h (suc fuel) it it ≡ ok []
  unfolding walk is_not_equal
  walk-end h fuel it = rw (walk, is_not_equal, ≡→== it it refl) refl

  walk-step :
      (h : Heap K V) (fuel it end p : ℕ) (rest : List ℕ)
      → it ≢ end
      → next_at h it 0 ≡ ok p
      → walk h fuel p end ≡ ok rest
      → walk h (suc fuel) it end ≡ ok (it ∷ rest)
  unfolding walk is_not_equal post_increment next_node
  walk-step h fuel it end p rest ne e f = rw (walk, is_not_equal, ≢→== it end ne, e, f) refl

  walk-addresses :
      (h : Heap K V) (tail fuel : ℕ) (ts : List (Tower K V))
      → Chain h tail ts
      → has tail ts ≡ false
      → length ts < fuel
      → walk h fuel (next_of tail 0 ts) tail ≡ ok (addresses ts)
  walk-addresses h tail zero ts c out lt = absurd (omega arith)
  walk-addresses h tail (suc fuel) [] c out lt = walk-end h fuel tail
  walk-addresses h tail (suc fuel) (t ∷ ts) c out lt =
      subst (λ p. walk h (suc fuel) p tail ≡ ok (t.address ∷ addresses ts))
        (sym (next_of-first h tail t ts c.0))
        (walk-step h fuel t.address tail (next_of tail 0 ts) (addresses ts) (ground arith)
          (next_at-ok h t.address 0 (omega (arith, c.0.levels, c.0.positive))
            ∙ ap ok (c.0.links 0 (omega (arith, c.0.positive))).0)
          (walk-addresses h tail fuel ts c.1 (ground arith) (omega arith)))

  reverse_walk-end : (h : Heap K V) (fuel it : ℕ) → reverse_walk h (suc fuel) it it ≡ ok []
  unfolding reverse_walk is_not_equal
  reverse_walk-end h fuel it = rw (reverse_walk, is_not_equal, ≡→== it it refl) refl

  reverse_walk-step :
      (h : Heap K V) (fuel it end p : ℕ) (rest : List ℕ)
      → it ≢ end
      → backward_at h it ≡ ok p
      → reverse_walk h fuel p end ≡ ok rest
      → reverse_walk h (suc fuel) it end ≡ ok (it ∷ rest)
  unfolding reverse_walk is_not_equal reverse_post_increment prev_node
  reverse_walk-step h fuel it end p rest ne e f =
      rw (reverse_walk, is_not_equal, ≢→== it end ne, e, f) refl

  reverse-addresses :
      (c : List (Tower K V)) (t : Tower K V)
      → reverse (addresses (c ++ (t ∷ []))) ≡ t.address ∷ reverse (addresses c)
  reverse-addresses c t =
      ap reverse (addresses-append c) ∙ reverse-append (addresses c) (t.address ∷ [])
    where
      addresses-append :
          (c : List (Tower K V)) → addresses (c ++ (t ∷ [])) ≡ addresses c ++ (t.address ∷ [])
      addresses-append [] = refl
      addresses-append (u ∷ c) = ap (λ x. u.address ∷ x) (addresses-append c)

  reverse_walk-addresses :
      (h : Heap K V) (tail head fuel : ℕ) (b a : List (Tower K V))
      → Chain h tail (b ++ a)
      → Backs h tail head (b ++ a)
      → has head (b ++ a) ≡ false
      → length b < fuel
      → reverse_walk h fuel (prev_of 0 head b) head ≡ ok (reverse (addresses b))
  reverse_walk-addresses h tail head zero b a c s out lt = absurd (omega arith)
  reverse_walk-addresses h tail head (suc fuel) b a c s out lt = elim (last_cases b) [
    | inl e ↦
        subst (λ x. reverse_walk h (suc fuel) (prev_of 0 head x) head ≡ ok (reverse (addresses x)))
          (sym e) (reverse_walk-end h fuel head)
    | inr (d, t, e) ↦
        let whole : b ++ a ≡ d ++ (t ∷ a) = ap (λ x. x ++ a) e ∙ append_assoc d (t ∷ []) a in
        let chain = subst (Chain h tail) whole c in
        let backs = subst (Backs h tail head) whole s in
        let (node, _) = Chain-append h tail d (t ∷ a) chain in
        let (_, behind) = Backs-append h tail head d (t ∷ a) chain backs in
        let at : prev_of 0 head b ≡ t.address =
          ap (prev_of 0 head) e ∙ prev_of-high 0 head d t [] (omega (arith, node.positive)) in
        let shorter = ap length e ∙ length-append d (t ∷ []) in
        let clear : has head (d ++ (t ∷ a)) ≡ false = sym (ap (has head) whole) ∙ out in
        let ne : t.address ≢ head = ground (arith, has-append head d (t ∷ a)) in
        let rest =
          reverse_walk-addresses h tail head fuel d (t ∷ a) chain backs clear (omega arith) in
        ap (λ p. reverse_walk h (suc fuel) p head) at
        ∙ reverse_walk-step h fuel t.address head (prev_of 0 head d) (reverse (addresses d)) ne
            (backward_at-ok h t.address node.entry ∙ ap ok behind.0) rest
        ∙ ap ok (sym (ap (λ x. reverse (addresses x)) e ∙ reverse-addresses d t))
  ]

  printed_list-run :
      (h : Heap K V) (l : SkipList) (p : ℕ)
      → next_at h l.head 0 ≡ ok p
      → printed_list h l ≡ walk h (l.length + 1) p l.tail
  unfolding printed_list begin
  printed_list-run h l p e = rw e refl

  reverse_list-run :
      (h : Heap K V) (l : SkipList) (p : ℕ)
      → backward_at h l.tail ≡ ok p
      → reverse_list h l ≡ reverse_walk h (l.length + 1) p l.head
  unfolding reverse_list rbegin
  reverse_list-run h l p e = rw e refl

  pub Backs-tail :
      (h : Heap K V) (tail p : ℕ) (ts : List (Tower K V))
      → Chain h tail ts
      → Backs h tail p ts
      → h.backward tail ≡ prev_of 0 p ts
  Backs-tail h tail p [] c s = s
  Backs-tail h tail p (t ∷ ts) c s =
      Backs-tail h tail t.address ts c.1 s.1
      ∙ ap (λ x. prev_of 0 (if x then t.address else p) ts) (sym (lt→ltb 0 t.height c.0.positive))

module _ {ℓ} {K V : Type ℓ} (order : Order K) where
  -- On a skip list, the loop of `printList` ends, and meets every node just once, in the order of the
  -- list.
  pub printed_list-addresses :
      (h : Heap K V) (l : SkipList) (ts : List (Tower K V))
      → IsSkipList order h l ts
      → printed_list h l ≡ ok (addresses ts)
  printed_list-addresses h l ts s =
      let counted = s.holds.counted in
      printed_list-run h l (next_of l.tail 0 ts) (
        next_at-ok h l.head 0 (omega (arith, s.holds.head_levels))
        ∙ ap ok (s.holds.head_links 0 (omega arith)).0)
      ∙ walk-addresses h l.tail (l.length + 1) ts s.holds.chain s.holds.not_tail (omega arith)

  -- On a skip list, the same loop with reverse iterators, from `rbegin` to `rend`, ends, and meets
  -- every node just once, in the opposite order.
  pub reverse_list-addresses :
      (h : Heap K V) (l : SkipList) (ts : List (Tower K V))
      → IsSkipList order h l ts
      → reverse_list h l ≡ ok (reverse (addresses ts))
  reverse_list-addresses h l ts s =
      let counted = s.holds.counted in
      let whole : ts ≡ ts ++ [] = sym (append-nil ts) in
      reverse_list-run h l (prev_of 0 l.head ts) (
        backward_at-ok h l.tail s.holds.tail_is
        ∙ ap ok (Backs-tail h l.tail l.head ts s.holds.chain s.holds.backs))
      ∙ reverse_walk-addresses h l.tail l.head (l.length + 1) ts []
          (subst (Chain h l.tail) whole s.holds.chain)
          (subst (Backs h l.tail l.head) whole s.holds.backs)
          (sym (ap (has l.head) whole) ∙ s.holds.not_head) (omega arith)
