-- ===== src/SkipList/Insert/Linked.antt =====
-- src/SkipList.h, the loop of `insert` that links the new node, run on a list in memory.
use redis_db.Prelude.{
  ℕ, suc, ◌+◌, ◌^◌, ◌≤◌, ◌<◌, ◌≡◌, ◌≢◌, sym, ap, subst, ◌∙◌, true, false, List, ◌∷◌, ◌++◌, some,
  arith, length, length-append, All-append, Returns,
}
use redis_db.SkipList.{SkipList, Descent, link_levels}
use redis_db.SkipList.Memory.{Heap}
use redis_db.SkipList.Towers.{Tower, prev_of, rank_of, has, has-append}
use redis_db.SkipList.Layout.{Linked, Chain, Holds, Chain-append}
use redis_db.SkipList.Ends.{Leads, head-Leads}
use redis_db.SkipList.Splice.{Splices, Linked-splice, Chain-splice, Chain-behind, prev_of-has}
use redis_db.SkipList.Link.{link_levels-Links}
use redis_db.SkipList.Between.{IsDistinct-append}
use redis_db.SkipList.Insert.Spliced.{rank_of-length, link-Splices, link-IsNode}

module _ {ℓ} {K V : Type ℓ} where
  -- The walk has found the last nodes of `b`, on all levels of the list.
  abbrev pub IsFound : SkipList → List (Tower K V) → Descent → Type 0
  IsFound l b d =
      (j : ℕ)
      → j < suc l.max_level
      → (d.prevs j ≡ prev_of j l.head b) × (d.ranks j ≡ rank_of j 0 0 b)

  -- The node is in memory, at an address of its own, and not yet in the list.
  pub record IsReady (h : Heap K V) (l : SkipList) (level : ℕ) (t : Tower K V)
      (ts : List (Tower K V)) : Type ℓ where
    pub entry : h.entry t.address ≡ some (t.key, t.value)
    pub levels : h.levels t.address ≡ t.height
    pub top : t.height ≡ suc level
    pub room : level < suc l.max_level
    pub not_null : 1 ≤ t.address
    pub out : has t.address ts ≡ false
    pub not_head : l.head ≢ t.address
    pub not_tail : l.tail ≢ t.address

  pub found-Leads :
      (h : Heap K V) (l : SkipList) (b a : List (Tower K V)) (d : Descent)
      → Holds h l (b ++ a)
      → IsFound l b d
      → (j : ℕ) → j < suc l.max_level
      → Leads h l.tail j (d.prevs j) (d.ranks j) (length b) a
  found-Leads h l b a d s found j lt =
      let (e, f) = found j lt in
      subst (λ p. Leads h l.tail j p (d.ranks j) (length b) a) (sym e)
        (subst (λ r. Leads h l.tail j (prev_of j l.head b) r (length b) a) (sym f)
          (head-Leads h l b a j s lt))

  -- The last nodes in front of the place are none behind it.
  pub found-apart :
      (l : SkipList) (b : List (Tower K V)) (d : Descent) (q : ℕ)
      → IsFound l b d
      → l.head ≢ q
      → has q b ≡ false
      → (j : ℕ) → j < suc l.max_level
      → d.prevs j ≢ q
  found-apart l b d q found ne out j lt =
      subst (λ p. p ≢ q) (sym (found j lt).0) (prev_of-has j l.head b q (λ e. ne (sym e)) out)

  pub record IsLinked (h h' : Heap K V) (l : SkipList) (ts : List (Tower K V)) : Type ℓ where
    pub head_links : Linked h' l.tail l.head (suc l.max_level) ts
    pub chain : Chain h' l.tail ts
    pub entry : (q : ℕ) → h'.entry q ≡ h.entry q
    pub levels : (q : ℕ) → h'.levels q ≡ h.levels q
    pub backward : (q : ℕ) → h'.backward q ≡ h.backward q
    pub tail_next : h'.next l.tail 0 ≡ h.next l.tail 0

  -- Whatever leads the last nodes of `b` over into `new` makes a list of it.
  pub splice-IsLinked :
      (h h' : Heap K V) (l : SkipList) (b a new : List (Tower K V)) (other : ℕ) (d : Descent)
      → Holds h l (b ++ a)
      → IsFound l b d
      → has other b ≡ false
      → l.head ≢ other
      → l.tail ≢ other
      → Splices h h' l.tail (suc l.max_level) (length b) other d.prevs d.ranks new
      → ((q : ℕ) → h'.backward q ≡ h.backward q)
      → Chain h' l.tail new
      → IsLinked h h' l (b ++ new)
  splice-IsLinked h h' l b a new other d s found out no_head no_tail splices back chain =
      let (left, _) = All-append (λ (t : Tower K V). t.height ≤ suc l.max_level) b a s.heights in
      let (distinct, _, _) = IsDistinct-append b a s.distinct in
      let clear : has l.head b ≡ false = ground (arith, s.not_head, has-append l.head b a) in
      let away : l.tail ≢ d.prevs 0 = λ e.
        found-apart l b d l.tail found s.ends (ground (arith, s.not_tail, has-append l.tail b a)) 0
          (omega arith) (sym e) in
      record {
        head_links =
            Linked-splice h h' l.tail (suc l.max_level) (length b) other d.prevs d.ranks new splices
              l.head 0 (suc l.max_level) b a (omega arith) clear no_head (omega arith) found
              s.head_links;
        chain =
            Chain-splice h h' l.tail (suc l.max_level) (length b) other d.prevs d.ranks new splices
              0 (λ _. l.head) (λ _. 0) b a left distinct out (omega arith) found s.chain chain;
        entry = splices.entry;
        levels = splices.levels;
        backward = back;
        tail_next = splices.next_old l.tail 0 (omega arith) away no_tail;
      }

  -- The loop comes to its end, and the node stands in its place in the list.
  pub link_levels-IsLinked :
      (h : Heap K V) (l : SkipList) (b a : List (Tower K V)) (t : Tower K V) (level : ℕ)
      (d : Descent)
      → Holds h l (b ++ a)
      → IsFound l b d
      → IsReady h l level t (b ++ a)
      → length (b ++ a) < 2 ^ 31
      → Returns
          (link_levels t.address level d (l.max_level + 1) 0 h)
          (λ h'. IsLinked h h' l (b ++ (t ∷ a)))
  link_levels-IsLinked h l b a t level d s found ready small =
      let m = suc l.max_level in
      let one : l.max_level + 1 ≡ m = omega arith in
      let leads = found-Leads h l b a d s found in
      let out = ready.out in
      let out_b : has t.address b ≡ false = ground (arith, has-append t.address b a) in
      let out_a : has t.address a ≡ false = ground (arith, has-append t.address b a) in
      let apart = found-apart l b d t.address found ready.not_head out_b in
      let (h', run, links) =
        link_levels-Links t.address level d m 0 h (λ j le lt. (leads j (omega arith)).level)
          (λ j le. omega (arith, ready.levels, ready.top)) (λ j le lt. apart j (omega arith)) in
      let last : d.ranks 0 ≡ length b =
        (found 0 (omega arith)).1 ∙ rank_of-length h l.tail 0 b a s.chain ∙ omega arith in
      let short : length b + length a < 2 ^ 31 = omega (arith, length-append b a) in
      let splices =
        link-Splices h h' l.tail m level t d (length b) a links leads last short apart ready.top
          ready.room in
      let node =
        link-IsNode h h' l.tail m level t d (length b) a links leads last short apart ready.top
          ready.room ready.entry ready.levels ready.not_null in
      let (_, distinct_a, only_behind) = IsDistinct-append b a s.distinct in
      let (_, low_enough) = All-append (λ (t : Tower K V). t.height ≤ m) b a s.heights in
      let head_clear = s.not_head in
      let elsewhere : (q : ℕ) → has q a ≡ true → (j : ℕ) → j < m → q ≢ d.prevs j = λ q e j lt f.
        found-apart l b d q found
          (λ g. absurd (ground (arith, has-append l.head b a, ap (λ x. has x a) g)))
          (only_behind q e) j lt (sym f) in
      let behind =
        Chain-behind h h' l.tail m (length b) t.address d.prevs d.ranks (t ∷ a) splices a low_enough
          elsewhere out_a (Chain-append h l.tail b a s.chain) in
      (
        h',
        ap (λ n. link_levels t.address level d n 0 h) one ∙ run,
        splice-IsLinked h h' l b a (t ∷ a) t.address d s found out_b ready.not_head ready.not_tail
            splices links.backward (node, behind),
      )
