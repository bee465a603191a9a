-- ===== src/SkipList/Erase/Spliced.antt =====
-- src/SkipList.h, what the unlinking loop of `erase` makes of a list in memory.
use redis_db.Prelude.{
  ℕ, suc, ◌+◌, ◌^◌, ◌≤◌, ◌<◌, ◌≡◌, ◌≢◌, refl, sym, ap, ◌∙◌, true, false, ◌&&◌, ◌||◌, List, ◌∷◌,
  ◌++◌, arith, length, length-append, if◌then◌else◌, ltb, leb, ltb→lt, ≡→==, ≢→==, All-append,
  Bool-cases, inl, inr, Returns,
}
use redis_db.SkipList.{SkipList, Descent, unlink_levels}
use redis_db.SkipList.Memory.{Heap, int_add, int_sub}
use redis_db.SkipList.Towers.{Tower, next_of, span_of, has, has-append, span_of-le}
use redis_db.SkipList.Layout.{IsNode, Holds, Chain-append}
use redis_db.SkipList.Ends.{Leads}
use redis_db.SkipList.Splice.{Splices, Chain-behind}
use redis_db.SkipList.Between.{IsDistinct-append}
use redis_db.SkipList.Backward.{next_of-has}
use redis_db.SkipList.Unlink.{Unlinks, unlinked_next, unlinked_span, unlink_levels-Unlinks}
use redis_db.SkipList.Insert.Linked.{IsFound, IsLinked, found-Leads, found-apart, splice-IsLinked}

-- The node `t` in front of `a` is unlinked; the walk has found the last nodes in front of it.
module _ {ℓ} {K V : Type ℓ} (h h' : Heap K V) (tail m : ℕ) (t : Tower K V) (d : Descent) (size : ℕ)
    (a : List (Tower K V)) (links : Unlinks t.address d 0 m h h')
    (leads : (j : ℕ) → j < m → Leads h tail j (d.prevs j) (d.ranks j) size (t ∷ a))
    (node : IsNode h tail t a) (small : size + suc (length a) < 2 ^ 31)
    (apart : (j : ℕ) → j < m → d.prevs j ≢ t.address)
    (behind : (j : ℕ) → next_of tail j a ≢ t.address) where
  touched : (j : ℕ) → j < m → (leb 0 j && ltb j (0 + m)) ≡ true
  touched j lt = ground arith

  next_here : (q j : ℕ) → j < m → h'.next q j ≡ unlinked_next t.address d h q j
  next_here q j lt =
      links.next q j
      ∙ ap (λ c. if c then unlinked_next t.address d h q j else h.next q j) (touched j lt)

  span_here : (q j : ℕ) → j < m → h'.span q j ≡ unlinked_span t.address d h q j
  span_here q j lt =
      links.span q j
      ∙ ap (λ c. if c then unlinked_span t.address d h q j else h.span q j) (touched j lt)

  -- Where the node has the level, and where it has not.
  leads_low :
      (j : ℕ)
      → j < m
      → ltb j t.height ≡ true
      → (h.next (d.prevs j) j ≡ t.address) × (d.ranks j + h.span (d.prevs j) j ≡ suc size)
  leads_low j lt e =
      let led = leads j lt in
      (
        led.next ∙ ap (λ c. if c then t.address else next_of tail j a) e,
        omega (arith, led.span, ap (λ c. if c then 1 else suc (span_of j a)) e),
      )

  leads_high :
      (j : ℕ)
      → j < m
      → ltb j t.height ≡ false
      → (h.next (d.prevs j) j ≡ next_of tail j a)
        × (d.ranks j + h.span (d.prevs j) j ≡ suc (size + span_of j a))
  leads_high j lt e =
      let led = leads j lt in
      (
        led.next ∙ ap (λ c. if c then t.address else next_of tail j a) e,
        omega (arith, led.span, ap (λ c. if c then 1 else suc (span_of j a)) e),
      )

  next_new : (j : ℕ) → j < m → h'.next (d.prevs j) j ≡ next_of tail j a
  next_new j lt = elim (Bool-cases (ltb j t.height)) [
    | inl e ↦
        let (at, _) = leads_low j lt e in
        let own = (node.links j (ltb→lt j t.height e)).0 in
        let here = next_here (d.prevs j) j lt in ground arith
    | inr e ↦
        let (at, _) = leads_high j lt e in
        let other = behind j in let here = next_here (d.prevs j) j lt in ground arith
  ]

  span_new : (j : ℕ) → j < m → d.ranks j + h'.span (d.prevs j) j ≡ size + span_of j a
  span_new j lt = elim (Bool-cases (ltb j t.height)) [
    | inl e ↦
        let (at, far) = leads_low j lt e in
        let own = (node.links j (ltb→lt j t.height e)).1 in
        let passed = (leads j lt).passed in
        let value : unlinked_span t.address d h (d.prevs j) j
            ≡ int_add (h.span (d.prevs j) j) (int_sub (h.span t.address j) 1) =
          rw (≡→== (d.prevs j) (d.prevs j) refl, ≡→== _ t.address at) refl in
        omega (arith, span_here (d.prevs j) j lt, value, own, far, span_of-le j a)
    | inr e ↦
        let (at, far) = leads_high j lt e in
        let passed = (leads j lt).passed in
        let value : unlinked_span t.address d h (d.prevs j) j ≡ int_sub (h.span (d.prevs j) j) 1 =
          rw
            (
              ≡→== (d.prevs j) (d.prevs j) refl,
              ≢→== (h.next (d.prevs j) j) t.address (λ f. behind j (sym at ∙ f)),
            )
            refl in
        omega (arith, span_here (d.prevs j) j lt, value, far, span_of-le j a)
  ]

  unlink-Splices : Splices h h' tail m size t.address d.prevs d.ranks a
  unlink-Splices = record {
    entry = links.entry;
    levels = links.levels;
    next_new = next_new;
    span_new = span_new;
    next_old = λ q j lt ne away. let at = next_here q j lt in ground arith;
    span_old = λ q j lt ne away. let at = span_here q j lt in ground arith;
  }

  unlink-node : (j : ℕ) → j < m → h'.next t.address j ≡ h.next t.address j
  unlink-node j lt = let at = next_here t.address j lt in let ne = apart j lt in ground arith

module _ {ℓ} {K V : Type ℓ} where
  pub record IsUnlinked (h h' : Heap K V) (l : SkipList) (t : Tower K V) (b a : List (Tower K V))
      : Type ℓ where
    pub linked : IsLinked h h' l (b ++ a)
    pub node_next : h'.next t.address 0 ≡ next_of l.tail 0 a

  -- The loop comes to its end, and the list is linked without the node.
  pub unlink_levels-IsUnlinked :
      (h : Heap K V) (l : SkipList) (b a : List (Tower K V)) (t : Tower K V) (d : Descent)
      → Holds h l (b ++ (t ∷ a))
      → IsFound l b d
      → length (b ++ (t ∷ a)) < 2 ^ 31
      → Returns (unlink_levels t.address d (l.max_level + 1) 0 h) (λ h'. IsUnlinked h h' l t b a)
  unlink_levels-IsUnlinked h l b a t d s found small =
      let m = suc l.max_level in
      let one : l.max_level + 1 ≡ m = omega arith in
      let leads = found-Leads h l b (t ∷ a) d s found in
      let (node, chain) = Chain-append h l.tail b (t ∷ a) s.chain in
      let (_, (out_a, _), only_behind) = IsDistinct-append b (t ∷ a) s.distinct in
      let here = ≡→== t.address t.address refl in
      let out_b : has t.address b ≡ false =
        only_behind t.address (ap (λ x. x || has t.address a) here) in
      let not_head = s.not_head in
      let not_tail = s.not_tail in
      let no_head : l.head ≢ t.address = ground (arith, has-append l.head b (t ∷ a)) in
      let no_tail : l.tail ≢ t.address = ground (arith, has-append l.tail b (t ∷ a)) in
      let apart = found-apart l b d t.address found no_head out_b in
      let behind : (j : ℕ) → next_of l.tail j a ≢ t.address =
        λ j. next_of-has l.tail j a t.address no_tail out_a in
      let (h', run, links) =
        unlink_levels-Unlinks t.address d m 0 h (λ j le lt. (leads j (omega arith)).level)
          (λ j le lt e. elim (Bool-cases (ltb j t.height)) [
            | inl f ↦ omega (arith, node.levels, ltb→lt j t.height f)
            | inr f ↦ absurd (
                behind j (
                  sym (
                    (leads j (omega arith)).next
                    ∙ ap (λ c. if c then t.address else next_of l.tail j a) f)
                  ∙ e))
          ]) in
      let short : length b + suc (length a) < 2 ^ 31 = omega (arith, length-append b (t ∷ a)) in
      let splices =
        unlink-Splices h h' l.tail m t d (length b) a links leads node short apart behind in
      let (_, (_, low_enough)) = All-append (λ (t : Tower K V). t.height ≤ m) b (t ∷ a) s.heights in
      let elsewhere : (q : ℕ) → has q a ≡ true → (j : ℕ) → j < m → q ≢ d.prevs j = λ q e j lt f.
        found-apart l b d q found
          (λ g. absurd (ground (arith, has-append l.head b (t ∷ a), ap (λ x. has x a) g)))
          (only_behind q (ground arith)) j lt (sym f) in
      let rest =
        Chain-behind h h' l.tail m (length b) t.address d.prevs d.ranks a splices a low_enough
          elsewhere out_a chain in
      (
        h',
        ap (λ n. unlink_levels t.address d n 0 h) one ∙ run,
        record {
          linked =
              splice-IsLinked h h' l b (t ∷ a) a t.address d s found out_b no_head no_tail splices
                links.backward rest;
          node_next =
              unlink-node h h' l.tail m t d (length b) a links leads node short apart behind 0
                (omega arith)
              ∙ (node.links 0 (omega (arith, node.positive))).0;
        },
      )
