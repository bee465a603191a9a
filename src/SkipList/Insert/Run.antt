-- ===== src/SkipList/Insert/Run.antt =====
-- src/SkipList.h, `insert` as a whole.
use redis_db.Prelude.{
  ℕ, suc, ◌+◌, ◌-◌, ◌^◌, ◌≤◌, ◌<◌, ◌≡◌, ◌≢◌, refl, sym, ap, subst, ◌∙◌, max, Bool, true, false,
  List, [], ◌∷◌, ◌++◌, none, arith, length, length-append, All, All-append, if◌then◌else◌, ltb,
  ltb→lt, ltb→le, Bool-cases, inl, inr, ok, Returns,
}
use redis_db.SkipList.{Order, SkipList, Descent, descend, raise_levels, link_levels, insert}
use redis_db.SkipList.Memory.{Heap, int_add, next_at, set_backward}
use redis_db.SkipList.Towers.{Tower, next_of, rank_of, has, prev_of-low, rank_of-low}
use redis_db.SkipList.Layout.{Holds, IsSorted, IsSkipList, next_at-ok, Chain-append}
use redis_db.SkipList.Search.{descend-Finds}
use redis_db.SkipList.Search.Found.{Finds, found-prev}
use redis_db.SkipList.Split.{above, above-IsMonotone, split}
use redis_db.SkipList.Raise.{Raised, raise-Raised}
use redis_db.SkipList.Raise.Node.{with_node, with_node-fresh, with_node-Holds}
use redis_db.SkipList.Raise.Head.{with_head, low_of_heights}
use redis_db.SkipList.Between.{IsSorted-between}
use redis_db.SkipList.Backward.{pointed_back, set_backward-ok, next_of-entry}
use redis_db.SkipList.Insert.Linked.{IsFound, IsReady, link_levels-IsLinked}
use redis_db.SkipList.Insert.Finished.{finished, finished-Holds}

-- What the loops before the linking one leave.
abbrev raised_list : SkipList → ℕ → SkipList
raised_list l level = record l { max_level = max l.max_level level }

abbrev raised_descent : Descent → (ℕ → ℕ) → Descent
raised_descent d prevs = record d { prevs = prevs }

module _ {ℓ} {K V : Type ℓ} where
  -- The walk and the loop over the new levels together find the last nodes on all levels.
  Raised-IsFound :
      (h g : Heap K V) (l : SkipList) (stop : K → Bool) (level : ℕ) (b a : List (Tower K V))
      (d : Descent) (r : (ℕ → ℕ) × Heap K V)
      → Holds h l (b ++ a)
      → Finds l.tail stop h (suc l.max_level) l.head 0 (λ _. 0) (λ _. 0) b d
      → Raised g l level d.prevs (b ++ a) r
      → IsFound (raised_list l level) b (raised_descent d r.0)
  Raised-IsFound h g l stop level b a d r s f raised j lt =
      elim (Bool-cases (ltb j (suc l.max_level))) [
        | inl e ↦
            let under = ltb→lt j (suc l.max_level) e in
            let (prev, rank) = found-prev l.tail stop h f j under in
            (raised.prevs_low j under ∙ prev, rank)
        | inr e ↦
            let over = ltb→le j (suc l.max_level) e in
            let (left, _) =
              All-append (λ (t : Tower K V). t.height ≤ suc l.max_level) b a s.heights in
            let none_here = low_of_heights (suc l.max_level) j b left over in
            (
              raised.prevs_high j (omega arith) (ground arith)
                  ∙ sym (prev_of-low j l.head b none_here),
              f.ranks_are j
                  ∙ ap (λ x. if x then rank_of j 0 0 b else 0) e
                  ∙ sym (rank_of-low j 0 0 b none_here),
            )
      ]

  Raised-IsReady :
      (h : Heap K V) (l : SkipList) (fresh level : ℕ) (k : K) (v : V) (ts : List (Tower K V))
      (prevs : ℕ → ℕ) (r : (ℕ → ℕ) × Heap K V)
      → 1 ≤ fresh
      → has fresh ts ≡ false
      → l.head ≢ fresh
      → l.tail ≢ fresh
      → Raised (with_node h fresh level k v) l level prevs ts r
      → IsReady r.1
          (raised_list l level)
          level
          (record { address = fresh; height = suc level; key = k; value = v })
          ts
  Raised-IsReady h l fresh level k v ts prevs r positive out no_head no_tail raised =
      let same = raised.same fresh (λ e. no_head (sym e)) in
      let (entry, levels) = with_node-fresh h fresh level k v in
      record {
        entry = same.entry ∙ entry;
        levels = same.levels ∙ levels;
        top = refl;
        room = ground arith;
        not_null = positive;
        out = out;
        not_head = no_head;
        not_tail = no_tail;
      }

module _ {ℓ} {K V : Type ℓ} (order : Order K) where
  open order use {less}

  -- The node in its place, behind the nodes whose keys are not above its own.
  abbrev pub inserted : Tower K V → List (Tower K V) → List (Tower K V)
  inserted t [] = t ∷ []
  inserted t (u ∷ ts) = if less t.key u.key then t ∷ (u ∷ ts) else (u ∷ inserted t ts)

  inserted-between :
      (t : Tower K V) (b a : List (Tower K V))
      → All (λ (u : Tower K V). less t.key u.key ≡ false) b
      → All (λ (u : Tower K V). less t.key u.key ≡ true) a
      → inserted t (b ++ a) ≡ b ++ (t ∷ a)
  inserted-between t [] [] miss hit = refl
  inserted-between t [] (u ∷ a) miss hit = rw hit.0 refl
  inserted-between t (u ∷ b) a miss hit =
      rw miss.0 (ap (λ x. u ∷ x) (inserted-between t b a miss.1 hit))

  insert-run :
      (h : Heap K V) (l : SkipList) (fresh level : ℕ) (k : K) (v : V) (d : Descent)
      (r : (ℕ → ℕ) × Heap K V) (g g' g'' : Heap K V) (after : ℕ)
      → descend l (λ key. less k key) (with_node h fresh level k v) ≡ ok d
      → raise_levels l
          (level - l.max_level)
          d.prevs
          (with_head (with_node h fresh level k v) l level)
        ≡ ok r
      → link_levels fresh level (raised_descent d r.0) (max l.max_level level + 1) 0 r.1 ≡ ok g
      → set_backward g fresh (r.0 0) ≡ ok g'
      → next_at g' fresh 0 ≡ ok after
      → set_backward g' after fresh ≡ ok g''
      → insert order h l fresh level k v
        ≡ ok (g'', record l { max_level = max l.max_level level; length = int_add l.length 1 })
  unfolding insert
  insert-run h l fresh level k v d r g g' g'' after e1 e2 e3 e4 e5 e6 = rw (e1, e2, e3, e4, e5, e6)

  -- From a skip list with less than 2 ^ 31 - 1 nodes, and with an address where no node is, `insert`
  -- runs without undefined behaviour to an end, whatever level was drawn. It leaves a skip list,
  -- with all its pointers, spans and backward pointers right and its keys in order, in which the
  -- new node stands behind all nodes whose keys are not above its own, and the others as before.
  pub insert-IsSkipList :
      (h : Heap K V) (l : SkipList) (ts : List (Tower K V)) (fresh level : ℕ) (k : K) (v : V)
      → IsSkipList order h l ts
      → h.entry fresh ≡ none
      → 1 ≤ fresh
      → suc (length ts) < 2 ^ 31
      → Returns (insert order h l fresh level k v) (λ r.
        IsSkipList order r.0 r.1
          (inserted (record { address = fresh; height = suc level; key = k; value = v }) ts))
  insert-IsSkipList h l ts fresh level k v s e positive small =
      let h1 = with_node h fresh level k v in
      let t : Tower K V = record { address = fresh; height = suc level; key = k; value = v } in
      let (b, a, whole, miss, hit) =
        split order (above order k) ts (above-IsMonotone order k) s.sorted in
      let size = ap length whole ∙ length-append b a in
      let (holds, out, no_head, no_tail) =
        with_node-Holds h l fresh level k v (b ++ a) e (subst (Holds h l) whole s.holds) in
      let (d, run1, found) = descend-Finds h1 l (above order k) b a holds miss hit (omega arith) in
      let (r, run2, raised) = raise-Raised h1 l level d.prevs (b ++ a) holds in
      let l' = raised_list l level in
      let d' = raised_descent d r.0 in
      let lasts = Raised-IsFound h1 h1 l (above order k) level b a d r holds found raised in
      let ready =
        Raised-IsReady h l fresh level k v (b ++ a) d.prevs r positive out no_head no_tail raised in
      let (g, run3, linked) =
        link_levels-IsLinked r.1 l' b a t level d' raised.holds lasts ready
          (omega (arith, size, ap length whole)) in
      let at_fresh = linked.entry fresh ∙ ready.entry in
      let g' = pointed_back g fresh (r.0 0) in
      let (node, behind) = Chain-append g l.tail b (t ∷ a) linked.chain in
      let after : next_at g' fresh 0 ≡ ok (next_of l.tail 0 a) =
        next_at-ok g' fresh 0 (omega (arith, node.levels)) ∙ ap ok (node.links 0 (omega arith)).0 in
      let (entry, at_after) =
        next_of-entry g l.tail 0 a (linked.entry l.tail ∙ raised.holds.tail_is) behind in
      let counted = s.holds.counted in
      let end =
        finished-Holds r.1 g l' b a t level (r.0 0) (int_add l.length 1) raised.holds ready linked
          (lasts 0 (omega arith)).0 (omega (arith, size, length-append b a)) in
      (
        _,
        insert-run h l fresh level k v d r g g' (finished g fresh (r.0 0) (next_of l.tail 0 a))
            (next_of l.tail 0 a) run1 run2 run3 (set_backward-ok g fresh (r.0 0) at_fresh) after
            (set_backward-ok g' (next_of l.tail 0 a) fresh at_after),
        subst
            (IsSkipList order (finished g fresh (r.0 0) (next_of l.tail 0 a))
              (record l' { length = int_add l.length 1 }))
            (sym (ap (inserted t) whole ∙ inserted-between t b a miss hit))
            (record {
              holds = end;
              sorted =
                  IsSorted-between order b t a (subst (IsSorted order) whole s.sorted) miss hit;
            }),
      )
