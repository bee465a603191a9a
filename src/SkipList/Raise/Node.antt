-- ===== src/SkipList/Raise/Node.antt =====
-- src/SkipList.h, the new node of `insert`.
use redis_db.Prelude.{
  ℕ, suc, ◌+◌, ◌≡◌, ◌≢◌, refl, ap, false, List, arith, some, none, ◌==◌, ≡→==, ≢→==,
}
use redis_db.SkipList.{SkipList}
use redis_db.SkipList.Memory.{Heap, new_node, set_level_num}
use redis_db.SkipList.Towers.{Tower, has}
use redis_db.SkipList.Layout.{Holds}
use redis_db.SkipList.Frame.{SameAt, Chain-none, Holds-frame}

module _ {ℓ} {K V : Type ℓ} where
  -- The memory with a new node of `level + 1` levels.
  abbrev pub with_node : Heap K V → (fresh level : ℕ) → K → V → Heap K V
  with_node h fresh level k v = set_level_num (new_node h fresh k v) fresh (level + 1)

  with_node-SameAt :
      (h : Heap K V) (fresh level : ℕ) (k : K) (v : V) (q : ℕ)
      → q ≢ fresh
      → SameAt h (with_node h fresh level k v) q
  unfolding new_node set_level_num
  with_node-SameAt h fresh level k v q ne =
      let other : (q == fresh) ≡ false = ≢→== q fresh ne in
      record { entry = rw other; levels = rw other; next = λ j. rw other; span = λ j. rw other }

  with_node-backward :
      (h : Heap K V) (fresh level : ℕ) (k : K) (v : V) (q : ℕ)
      → q ≢ fresh
      → (with_node h fresh level k v).backward q ≡ h.backward q
  unfolding new_node set_level_num
  with_node-backward h fresh level k v q ne = rw (≢→== q fresh ne)

  -- What the new node holds.
  pub with_node-fresh :
      (h : Heap K V) (fresh level : ℕ) (k : K) (v : V)
      → ((with_node h fresh level k v).entry fresh ≡ some (k, v))
        × ((with_node h fresh level k v).levels fresh ≡ suc level)
  unfolding new_node set_level_num
  with_node-fresh h fresh level k v = rw (≡→== fresh fresh refl) (refl, omega arith)

  apart : (h : Heap K V) (p x : ℕ) {e : K × V} → h.entry x ≡ none → h.entry p ≡ some e → p ≢ x
  apart h p x e f same = absurd (cc (e, f, ap h.entry same))

  -- The list does not see the new node.
  pub with_node-Holds :
      (h : Heap K V) (l : SkipList) (fresh level : ℕ) (k : K) (v : V) (ts : List (Tower K V))
      → h.entry fresh ≡ none
      → Holds h l ts
      → Holds (with_node h fresh level k v) l ts
        × (has fresh ts ≡ false)
        × (l.head ≢ fresh)
        × (l.tail ≢ fresh)
  with_node-Holds h l fresh level k v ts e s =
      let out = Chain-none h l.tail fresh ts e s.chain in
      let no_head = apart h l.head fresh e s.head_is in
      let no_tail = apart h l.tail fresh e s.tail_is in
      (
        Holds-frame h (with_node h fresh level k v) l fresh ts (with_node-SameAt h fresh level k v)
            (with_node-backward h fresh level k v) out no_head no_tail s,
        out,
        no_head,
        no_tail,
      )
