-- ===== src/SkipList/Laws.antt =====
-- src/SkipList.h, `erase` after `insert`.
use redis_db.Prelude.{
  ℕ, suc, ◌^◌, ◌≤◌, ◌<◌, ◌≡◌, refl, ap, subst, ◌∙◌, Bool, true, false, ◌||◌, List, [], ◌∷◌, none,
  arith, length, Bool-cases, inl, inr, Run, ◌>>=◌, Returns,
}
use redis_db.SkipList.{Order, SkipList, insert, erase}
use redis_db.SkipList.Memory.{Heap}
use redis_db.SkipList.Towers.{Tower}
use redis_db.SkipList.Layout.{IsSkipList}
use redis_db.SkipList.Reads.{member}
use redis_db.SkipList.Insert.Run.{inserted, insert-IsSkipList}
use redis_db.SkipList.Erase.Listed.{erased}
use redis_db.SkipList.Erase.Run.{erase-IsSkipList}

module _ {ℓ} {K : Type ℓ} (order : Order K) where
  open order use {less, equal, equal_iff, less_asymm}

  equal_refl : (k : K) → equal k k ≡ true
  equal_refl k = elim (Bool-cases (less k k)) [
    | inl e ↦ absurd (ground (arith, less_asymm k k e))
    | inr e ↦ equal_iff k k ∙ rw e refl
  ]

module _ {ℓ} {K V : Type ℓ} (order : Order K) where
  open order use {less, equal}

  length-inserted :
      (t : Tower K V) (ts : List (Tower K V)) → length (inserted order t ts) ≡ suc (length ts)
  length-inserted t [] = refl
  length-inserted t (u ∷ ts) = elim (Bool-cases (less t.key u.key)) [
    | inl e ↦ rw e refl
    | inr e ↦ rw e (omega (arith, length-inserted t ts))
  ]

  member-inserted :
      (t : Tower K V) (ts : List (Tower K V)) (k : K)
      → member order k (inserted order t ts) ≡ (equal t.key k || member order k ts)
  member-inserted t [] k = refl
  member-inserted t (u ∷ ts) k = elim (Bool-cases (less t.key u.key)) [
    | inl e ↦ rw e refl
    | inr e ↦ rw e (ground (arith, member-inserted t ts k))
  ]

  erased-inserted :
      (t : Tower K V) (ts : List (Tower K V))
      → member order t.key ts ≡ false
      → erased order t.key (inserted order t ts) ≡ ts
  erased-inserted t [] e = rw (equal_refl order t.key) refl
  erased-inserted t (u ∷ ts) e =
      let here : equal u.key t.key ≡ false = ground arith in
      let rest : member order t.key ts ≡ false = ground arith in
      elim (Bool-cases (less t.key u.key)) [
        | inl f ↦ rw (f, equal_refl order t.key) refl
        | inr f ↦ rw (f, here) (ap (λ x. u ∷ x) (erased-inserted t ts rest))
      ]

  -- `insert` of a key, then `erase` of it.
  abbrev pub insert_erase :
      Heap K V → SkipList → (fresh level : ℕ) → K → V → Run (Bool × Heap K V × SkipList)
  insert_erase h l fresh level k v = do (h, l) ← insert order h l fresh level k v; erase order h l k

  -- On a skip list with less than 2 ^ 31 - 1 nodes, none of them with the key `k`, and with an
  -- address where no node is, `insert` of `k` and then `erase` of `k` run to an end. `erase`
  -- answers true, and the list has the same nodes as before, each at the same address, with the
  -- same number of levels.
  pub erase-insert :
      (h : Heap K V) (l : SkipList) (ts : List (Tower K V)) (fresh level : ℕ) (k : K) (v : V)
      → IsSkipList order h l ts
      → member order k ts ≡ false
      → h.entry fresh ≡ none
      → 1 ≤ fresh
      → suc (length ts) < 2 ^ 31
      → Returns (insert_erase h l fresh level k v) (λ r. (r.0 ≡ true) × IsSkipList order r.1 r.2 ts)
  erase-insert h l ts fresh level k v s out e positive small =
      let t : Tower K V = record { address = fresh; height = suc level; key = k; value = v } in
      let (r, run, after) = insert-IsSkipList order h l ts fresh level k v s e positive small in
      let (q, run', (found, last)) =
        erase-IsSkipList order r.0 r.1 (inserted order t ts) k after
          (omega (arith, length-inserted t ts)) in
      (
        q,
        rw run run',
        (
          found ∙ member-inserted t ts k ∙ ap (λ b. b || member order k ts) (equal_refl order k),
          subst (IsSkipList order q.1 q.2) (erased-inserted t ts out) last,
        ),
      )
