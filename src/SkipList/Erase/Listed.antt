-- ===== src/SkipList/Erase/Listed.antt =====
-- src/SkipList.h, what `erase` makes of the list of the nodes.
use redis_db.Prelude.{◌≡◌, refl, ap, true, false, List, [], ◌∷◌, ◌++◌, arith, All, if◌then◌else◌}
use redis_db.SkipList.{Order}
use redis_db.SkipList.Towers.{Tower}
use redis_db.SkipList.Layout.{IsSorted}
use redis_db.SkipList.Split.{from}
use redis_db.SkipList.Reads.{member, member-append, member-above}

module _ {ℓ} {K V : Type ℓ} (order : Order K) where
  open order use {less, equal, equal_iff, less_of_not_less}

  -- The list without the first node that has the key.
  abbrev pub erased : K → List (Tower K V) → List (Tower K V)
  erased k [] = []
  erased k (t ∷ ts) = if equal t.key k then ts else (t ∷ erased k ts)

  pub erased-absent : (k : K) (ts : List (Tower K V)) → member order k ts ≡ false → erased k ts ≡ ts
  erased-absent k [] e = refl
  erased-absent k (t ∷ ts) e =
      let here : equal t.key k ≡ false = ground arith in
      let rest : member order k ts ≡ false = ground arith in
      rw here (ap (λ x. t ∷ x) (erased-absent k ts rest))

  pub erased-present :
      (k : K) (b : List (Tower K V)) (t : Tower K V) (a : List (Tower K V))
      → member order k b ≡ false
      → equal t.key k ≡ true
      → erased k (b ++ (t ∷ a)) ≡ b ++ a
  erased-present k [] t a out e = rw e refl
  erased-present k (u ∷ b) t a out e =
      let here : equal u.key k ≡ false = ground arith in
      let rest : member order k b ≡ false = ground arith in
      rw here (ap (λ x. u ∷ x) (erased-present k b t a rest e))

  -- No key below `k` is `k`.
  pub member-less :
      (k : K) (b : List (Tower K V))
      → All (λ (t : Tower K V). from order k t.key ≡ false) b
      → member order k b ≡ false
  member-less k [] miss = refl
  member-less k (t ∷ b) miss = ground (arith, equal_iff t.key k, member-less k b miss.1)

  All-above :
      (k : K) (t : Tower K V) (a : List (Tower K V))
      → less k t.key ≡ true
      → All (λ (u : Tower K V). less u.key t.key ≡ false) a
      → All (λ (u : Tower K V). less k u.key ≡ true) a
  All-above k t [] lt s = tt
  All-above k t (u ∷ a) lt s = (less_of_not_less k u.key t.key lt s.0, All-above k t a lt s.1)

  -- If the first key that is not below `k` is another, no key is `k`.
  pub member-other :
      (k : K) (b : List (Tower K V)) (t : Tower K V) (a : List (Tower K V))
      → All (λ (u : Tower K V). from order k u.key ≡ false) b
      → from order k t.key ≡ true
      → equal t.key k ≡ false
      → All (λ (u : Tower K V). less u.key t.key ≡ false) a
      → member order k (b ++ (t ∷ a)) ≡ false
  member-other k b t a miss hit e s =
      let lt : less k t.key ≡ true = ground (arith, equal_iff t.key k) in
      let right = member-above order k (t ∷ a) (lt, All-above k t a lt s) in
      ground (arith, member-append order k b (t ∷ a), member-less k b miss)

  pub IsSorted-last :
      (b : List (Tower K V)) (t : Tower K V) (a : List (Tower K V))
      → IsSorted order (b ++ (t ∷ a))
      → All (λ (u : Tower K V). less u.key t.key ≡ false) a
  IsSorted-last [] t a s = s.0
  IsSorted-last (u ∷ b) t a s = IsSorted-last b t a s.1
