-- ===== src/Hash/Iterator/Unique.antt =====
-- src/hash.h, `next` of a hash whose nodes stand at different addresses.
use redis_db.Prelude.{
  ℕ, ◌≤◌, ◌≡◌, refl, ap, sym, ◌∙◌, inl, inr, Bool, true, Bool-cases, List, [], ◌∷◌, ◌++◌, arith,
  List-cases, flatten, count_if, count_if-append, to_nat, ◌==◌, ≡→==, Returns,
}
use redis_db.Traits.{Traits}
use redis_db.Table.{HashNode, Chain}
use redis_db.Table.Bags.{contents}
use redis_db.Hash.{Hash}
use redis_db.Hash.Valid.{IsResting, count, count-resting}
use redis_db.Hash.Iterator.{locate_chain, locate, next}
use redis_db.Hash.Iterator.Walk.{
  PointsTo, locate_chain-here, locate_chain-behind, locate-here, locate-behind,
}
use redis_db.Hash.Iterator.Visits.{next-PointsTo}

module _ {ℓ} {T : Type ℓ} where
  abbrev pub at_address : ℕ → HashNode T → Bool
  at_address a n = n.address == a

  -- No two nodes stand at one address.
  abbrev pub IsUnique : Hash T → Type 0
  IsUnique h = (a : ℕ) → count (at_address a) h ≤ 1

  count_if-locate_chain :
      (a : ℕ) (c : Chain T) → locate_chain a c ≡ [] → count_if (at_address a) c ≡ 0
  unfolding count_if
  count_if-locate_chain a [] e = refl
  count_if-locate_chain a (n ∷ c) e = elim (Bool-cases (n.address == a)) [
    | inl f ↦ absurd (cc (e, locate_chain-here a n c f))
    | inr f ↦
        let behind = count_if-locate_chain a c (sym (locate_chain-behind a n c f) ∙ e) in
        omega (arith, ap to_nat f, behind)
  ]

  count_if-locate :
      (a : ℕ) (bs : List (Chain T)) → locate a bs ≡ [] → count_if (at_address a) (flatten bs) ≡ 0
  unfolding count_if flatten
  count_if-locate a [] e = refl
  count_if-locate a (c ∷ bs) e = elim (List-cases (locate_chain a c)) [
    | inl f ↦ omega (
      arith,
      count_if-append (at_address a) c (flatten bs),
      count_if-locate_chain a c f,
      count_if-locate a bs (sym (locate-behind a c bs f) ∙ e),
    )
    | inr (m, d, f) ↦ absurd (cc (e, locate-here a c bs f))
  ]

  locate_chain-at_address :
      (a : ℕ) (c : Chain T) (n : HashNode T) (d : Chain T)
      → locate_chain a c ≡ n ∷ d
      → at_address a n ≡ true
  unfolding locate_chain
  locate_chain-at_address a [] n d e = absurd (cc)
  locate_chain-at_address a (m ∷ c) n d e = elim (Bool-cases (m.address == a)) [
    | inl f ↦
        let same : m ∷ c ≡ n ∷ d = sym (locate_chain-here a m c f) ∙ e in
        let heads : m ≡ n = cc in sym (ap (at_address a) heads) ∙ f
    | inr f ↦ locate_chain-at_address a c n d (sym (locate_chain-behind a m c f) ∙ e)
  ]

  locate-at_address :
      (a : ℕ) (bs : List (Chain T)) (n : HashNode T) (d : Chain T)
      → locate a bs ≡ n ∷ d
      → at_address a n ≡ true
  unfolding locate
  locate-at_address a [] n d e = absurd (cc)
  locate-at_address a (c ∷ bs) n d e = elim (List-cases (locate_chain a c)) [
    | inl f ↦ locate-at_address a bs n d (sym (locate-behind a c bs f) ∙ e)
    | inr (m, g, f) ↦ locate_chain-at_address a c n d (f ∙ sym (locate-here a c bs f) ∙ e)
  ]

module _ {ℓ} {A : Type ℓ} (p : A → Bool) where
  pub counted :
      (front : List A) (n : A) (rest : List A) → p n ≡ true → 1 ≤ count_if p (front ++ (n ∷ rest))
  unfolding count_if
  counted [] n rest e = omega (arith, ap to_nat e)
  counted (m ∷ front) n rest e = omega (arith, counted front n rest e)

  -- Where one member passes a test, what stands behind it is determined.
  unique_rest :
      (front other : List A) (n m : A) (rest behind : List A)
      → p n ≡ true
      → p m ≡ true
      → front ++ (n ∷ rest) ≡ other ++ (m ∷ behind)
      → count_if p (front ++ (n ∷ rest)) ≤ 1
      → rest ≡ behind
  unfolding count_if
  unique_rest [] [] n m rest behind e f same le = cc
  unique_rest [] (k ∷ other) n m rest behind e f same le =
      let tails : rest ≡ other ++ (m ∷ behind) = cc in
      absurd (omega (arith, ap to_nat e, ap (count_if p) tails, counted other m behind f))
  unique_rest (k ∷ front) [] n m rest behind e f same le =
      let heads : k ≡ m = cc in
      absurd (omega (arith, ap (λ x. to_nat (p x)) heads, ap to_nat f, counted front n rest e))
  unique_rest (k ∷ front) (l ∷ other) n m rest behind e f same le =
      let tails : front ++ (n ∷ rest) ≡ other ++ (m ∷ behind) = cc in
      unique_rest front other n m rest behind e f tails (omega arith)

module _ {ℓ} {T K : Type ℓ} (traits : Traits T K) where
  -- `next` of the first of these nodes is at the one behind it.
  pub next-behind :
      (h : Hash T) (n : HashNode T) (before rest : List (HashNode T))
      → IsResting traits h
      → IsUnique h
      → contents h.active ≡ before ++ (n ∷ rest)
      → Returns (next traits h n.address) λ r. (r.1 ≡ h) × PointsTo r.0 rest
  next-behind h n before rest v u split =
      let p = at_address n.address in
      let here : p n ≡ true = ≡→== n.address n.address refl in
      let one : count_if p (before ++ (n ∷ rest)) ≤ 1 =
        omega (arith, u n.address, count-resting traits p v, ap (count_if p) split) in
      elim (List-cases (locate n.address h.active.nodes)) [
        | inl f ↦ absurd (
            omega (
              arith,
              count_if-locate n.address h.active.nodes f,
              ap (count_if p) split,
              counted p before n rest here,
            ))
        | inr (m, c, f) ↦
            let (other, behind, around, (r, run, (same, points))) =
              next-PointsTo traits h n.address m c v f in
            let there = locate-at_address n.address h.active.nodes m c f in
            let tails : rest ≡ behind =
              unique_rest p before other n m rest behind here there (sym split ∙ around) one in
            (r, run, (same, rw tails points))
      ]
