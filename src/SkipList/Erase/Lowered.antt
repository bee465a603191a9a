-- ===== src/SkipList/Erase/Lowered.antt =====
-- src/SkipList.h, the end of `erase`: the backward pointer of the node behind, and the highest level.
use redis_db.Prelude.{
  ℕ, suc, ◌≤◌, ◌<◌, ◌≡◌, ◌≢◌, sym, ap, subst, ◌∙◌, true, false, List, [], ◌∷◌, ◌++◌, arith, length,
  All, if◌then◌else◌, ltb, ltb→lt, ltb→le, ≡→==, ≢→==, Bool-cases, inl, inr,
}
use redis_db.SkipList.{SkipList}
use redis_db.SkipList.Memory.{Heap}
use redis_db.SkipList.Towers.{Tower, next_of, prev_of, has, has-append}
use redis_db.SkipList.Layout.{Chain, Backs, IsDistinct, Holds, Chain-append}
use redis_db.SkipList.Frame.{Backs-frame, BacksIn-frame, Backs-append, append-Backs}
use redis_db.SkipList.Between.{
  has-without, All-without, IsDistinct-without, IsDistinct-append, length-between,
}
use redis_db.SkipList.Backward.{pointed_back, next_of-apart, Chain-pointed_back, Backs-pointed_back}
use redis_db.SkipList.Insert.Linked.{IsLinked}

module _ {ℓ} {K V : Type ℓ} where
  -- Where the head leads to the tail above `m`, no node is higher.
  heights-lowered :
      (tail top m : ℕ) (ts : List (Tower K V))
      → has tail ts ≡ false
      → All (λ (t : Tower K V). t.height ≤ suc top) ts
      → ((j : ℕ) → m < j → j ≤ top → next_of tail j ts ≡ tail)
      → All (λ (t : Tower K V). t.height ≤ suc m) ts
  heights-lowered tail top m [] out all empty = tt
  heights-lowered tail top m (t ∷ ts) out all empty = (
    elim (Bool-cases (ltb (suc m) t.height)) [
      | inl e ↦ absurd (
          not_here (suc m) e
            (empty (suc m) (omega arith) (omega (arith, all.0, ltb→lt (suc m) t.height e))))
      | inr e ↦ ltb→le (suc m) t.height e
    ],
    heights-lowered tail top m ts (ground arith) all.1 (λ j above below.
        elim (Bool-cases (ltb j t.height)) [
          | inl e ↦ absurd (not_here j e (empty j above below))
          | inr e ↦
              sym (ap (λ c. if c then t.address else next_of tail j ts) e) ∙ empty j above below
        ]),
  )
    where
      not_here : (j : ℕ) → ltb j t.height ≡ true → next_of tail j (t ∷ ts) ≢ tail
      not_here j e f =
          let same : t.address ≡ tail =
            sym (ap (λ c. if c then t.address else next_of tail j ts) e) ∙ f in
          ground (arith, ≡→== t.address tail same)

  -- The backward pointers of the list without the node `t`.
  erased-Backs :
      (h : Heap K V) (tail p : ℕ) (b a : List (Tower K V)) (t : Tower K V) (prev : ℕ)
      → Backs h tail p (b ++ (t ∷ a))
      → Chain h tail (b ++ (t ∷ a))
      → has tail (b ++ (t ∷ a)) ≡ false
      → IsDistinct (b ++ (t ∷ a))
      → prev ≡ prev_of 0 p b
      → (g : Heap K V) → ((q : ℕ) → g.backward q ≡ h.backward q)
      → Chain g tail (b ++ a)
      → Backs (pointed_back g (next_of tail 0 a) prev) tail p (b ++ a)
  erased-Backs h tail p b a t prev s c out distinct e g back d =
      let after = next_of tail 0 a in
      let end = pointed_back g after prev in
      let (in_b, (_, backs)) = Backs-append h tail p b (t ∷ a) c s in
      let (_, (out_a, distinct_a), apart) = IsDistinct-append b (t ∷ a) distinct in
      let tail_b : has tail b ≡ false = ground (arith, has-append tail b (t ∷ a)) in
      let tail_a : has tail a ≡ false = ground (arith, has-append tail b (t ∷ a)) in
      let no_tail : tail ≢ t.address = ground (arith, has-append tail b (t ∷ a)) in
      let clear = next_of-apart tail 0 a b tail_b (λ q f. apart q (ground arith)) in
      append-Backs end tail p b a (Chain-pointed_back g tail after prev (b ++ a) d)
        (BacksIn-frame h end p after after b
          (λ q ne ne'. ap (λ x. if x then prev else g.backward q) (≢→== q after ne) ∙ back q) clear
          clear in_b)
        (subst (λ x. Backs end tail x a) e
          (Backs-pointed_back g tail t.address prev a (Chain-append g tail b a d) distinct_a tail_a
            (Backs-frame h g tail t.address t.address a (λ q ne. back q) out_a no_tail backs)))

  -- The list holds, without the node, on the levels that it still has.
  pub erased-Holds :
      (h g : Heap K V) (l : SkipList) (b a : List (Tower K V)) (t : Tower K V) (prev m size : ℕ)
      → Holds h l (b ++ (t ∷ a))
      → IsLinked h g l (b ++ a)
      → prev ≡ prev_of 0 l.head b
      → m ≤ l.max_level
      → ((j : ℕ) → m < j → j ≤ l.max_level → g.next l.head j ≡ l.tail)
      → suc size ≡ length (b ++ (t ∷ a))
      → Holds
          (pointed_back g (next_of l.tail 0 a) prev)
          (record l { max_level = m; length = size })
          (b ++ a)
  erased-Holds h g l b a t prev m size s linked e le empty counted =
      let after = next_of l.tail 0 a in
      let (no_head, _) = has-without l.head b t a s.not_head in
      let (no_tail, _) = has-without l.tail b t a s.not_tail in
      record {
        head_entry = s.head_entry;
        tail_entry = s.tail_entry;
        head_is = linked.entry l.head ∙ s.head_is;
        tail_is = linked.entry l.tail ∙ s.tail_is;
        head_levels = omega (arith, linked.levels l.head, s.head_levels);
        tail_levels = linked.levels l.tail ∙ s.tail_levels;
        tail_next = linked.tail_next ∙ s.tail_next;
        head_links = λ j lt. linked.head_links j (omega arith);
        chain = Chain-pointed_back g l.tail after prev (b ++ a) linked.chain;
        backs =
            erased-Backs h l.tail l.head b a t prev s.backs s.chain s.not_tail s.distinct e g
              linked.backward linked.chain;
        distinct = (IsDistinct-without b t a s.distinct).0;
        not_head = no_head;
        not_tail = no_tail;
        ends = s.ends;
        head_not_null = s.head_not_null;
        tail_not_null = s.tail_not_null;
        heights =
            heights-lowered l.tail l.max_level m (b ++ a) no_tail
              (All-without (λ (t : Tower K V). t.height ≤ suc l.max_level) b t a s.heights)
              (λ j above below. sym (linked.head_links j (omega arith)).0 ∙ empty j above below);
        counted = omega (arith, counted, length-between b t a);
      }
