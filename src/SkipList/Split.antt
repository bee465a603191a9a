-- ===== src/SkipList/Split.antt =====
-- src/SkipList.h, where the walks stop in a list whose keys do not fall.
use redis_db.Prelude.{
  ◌≡◌, refl, ap, inl, inr, Bool, true, false, not, List, [], ◌∷◌, ◌++◌, arith, All, Bool-cases,
}
use redis_db.SkipList.{Order}
use redis_db.SkipList.Towers.{Tower}
use redis_db.SkipList.Layout.{IsSorted}

module _ {ℓ} {K : Type ℓ} (order : Order K) where
  open order use {less, less_of_not_less}

  -- The test of `insert`, `upper_bound` and `getRank`, and that of `erase` and `lower_bound`.
  abbrev pub above : K → K → Bool
  above k key = less k key

  abbrev pub from : K → K → Bool
  from k key = not (less key k)

  -- A walk that stops at a key stops at every later one.
  abbrev pub IsMonotone : (K → Bool) → Type ℓ
  IsMonotone stop = (x y : K) → stop x ≡ true → less y x ≡ false → stop y ≡ true

  pub above-IsMonotone : (k : K) → IsMonotone (above k)
  above-IsMonotone k x y s ge = less_of_not_less k y x s ge

  pub from-IsMonotone : (k : K) → IsMonotone (from k)
  from-IsMonotone k x y s ge = ground (arith, less_of_not_less y x k)

module _ {ℓ} {K V : Type ℓ} (order : Order K) where
  open order use {less}

  All-stop :
      (stop : K → Bool) (t : Tower K V) (ts : List (Tower K V))
      → IsMonotone order stop
      → stop t.key ≡ true
      → All (λ (u : Tower K V). less u.key t.key ≡ false) ts
      → All (λ (u : Tower K V). stop u.key ≡ true) ts
  All-stop stop t [] m e s = tt
  All-stop stop t (u ∷ ts) m e s = (m t.key u.key e s.0, All-stop stop t ts m e s.1)

  -- The nodes before the stop, and those from there on.
  pub split :
      (stop : K → Bool) (ts : List (Tower K V))
      → IsMonotone order stop
      → IsSorted order ts
      → (b a : List (Tower K V)) × (ts ≡ b ++ a)
        × All (λ (t : Tower K V). stop t.key ≡ false) b
        × All (λ (t : Tower K V). stop t.key ≡ true) a
  split stop [] m s = ([], [], refl, tt, tt)
  split stop (t ∷ ts) m s = elim (Bool-cases (stop t.key)) [
    | inl e ↦ ([], t ∷ ts, refl, tt, (e, All-stop stop t ts m e s.0))
    | inr e ↦
        let (b, a, f, miss, hit) = split stop ts m s.1 in
        (t ∷ b, a, ap (λ x. t ∷ x) f, (e, miss), hit)
  ]
