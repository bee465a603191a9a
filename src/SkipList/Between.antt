-- ===== src/SkipList/Between.antt =====
-- src/SkipList.h, facts on the list of the nodes when one comes in between, or goes.
use redis_db.Prelude.{
  ℕ, suc, ◌≡◌, ◌≢◌, refl, true, false, List, [], ◌∷◌, ◌++◌, arith, length, length-append, All,
  All-append, append-All,
}
use redis_db.SkipList.{Order}
use redis_db.SkipList.Towers.{Tower, has, has-append}
use redis_db.SkipList.Layout.{IsDistinct, IsSorted}

module _ {ℓ} {K V : Type ℓ} where
  pub has-between :
      (q : ℕ) (b : List (Tower K V)) (t : Tower K V) (a : List (Tower K V))
      → has q (b ++ a) ≡ false
      → t.address ≢ q
      → has q (b ++ (t ∷ a)) ≡ false
  has-between q b t a e ne = ground (arith, has-append q b a, has-append q b (t ∷ a))

  pub has-without :
      (q : ℕ) (b : List (Tower K V)) (t : Tower K V) (a : List (Tower K V))
      → has q (b ++ (t ∷ a)) ≡ false
      → (has q (b ++ a) ≡ false) × (t.address ≢ q)
  has-without q b t a e = ground (arith, has-append q b a, has-append q b (t ∷ a))

  pub All-between :
      (P : Tower K V → Type 0) (b : List (Tower K V)) (t : Tower K V) (a : List (Tower K V))
      → All P (b ++ a)
      → P t
      → All P (b ++ (t ∷ a))
  All-between P b t a all p =
      let (left, right) = All-append P b a all in append-All P b (t ∷ a) left (p, right)

  pub All-without :
      (P : Tower K V → Type 0) (b : List (Tower K V)) (t : Tower K V) (a : List (Tower K V))
      → All P (b ++ (t ∷ a))
      → All P (b ++ a)
  All-without P b t a all =
      let (left, right) = All-append P b (t ∷ a) all in append-All P b a left right.1

  pub IsDistinct-between :
      (b : List (Tower K V)) (t : Tower K V) (a : List (Tower K V))
      → IsDistinct (b ++ a)
      → has t.address (b ++ a) ≡ false
      → IsDistinct (b ++ (t ∷ a))
  IsDistinct-between [] t a s e = (e, s)
  IsDistinct-between (x ∷ b) t a s e =
      (has-between x.address b t a s.0 (ground arith), IsDistinct-between b t a s.1 (ground arith))

  pub IsDistinct-without :
      (b : List (Tower K V)) (t : Tower K V) (a : List (Tower K V))
      → IsDistinct (b ++ (t ∷ a))
      → IsDistinct (b ++ a) × (has t.address (b ++ a) ≡ false)
  IsDistinct-without [] t a s = (s.1, s.0)
  IsDistinct-without (x ∷ b) t a s =
      let (rest, out) = IsDistinct-without b t a s.1 in
      let (there, ne) = has-without x.address b t a s.0 in ((there, rest), ground arith)

  pub IsDistinct-append :
      (b a : List (Tower K V))
      → IsDistinct (b ++ a)
      → IsDistinct b × IsDistinct a × ((q : ℕ) → has q a ≡ true → has q b ≡ false)
  IsDistinct-append [] a s = (tt, s, λ q e. refl)
  IsDistinct-append (x ∷ b) a s =
      let (left, right, apart) = IsDistinct-append b a s.1 in
      let out = s.0 in
      (
        (ground (arith, has-append x.address b a), left),
        right,
        λ q e. ground (arith, has-append x.address b a, apart q e),
      )

  pub length-between :
      (b : List (Tower K V)) (t : Tower K V) (a : List (Tower K V))
      → length (b ++ (t ∷ a)) ≡ suc (length (b ++ a))
  length-between b t a = omega (arith, length-append b a, length-append b (t ∷ a))

module _ {ℓ} {K V : Type ℓ} (order : Order K) where
  open order use {less, less_asymm}

  pub IsSorted-between :
      (b : List (Tower K V)) (t : Tower K V) (a : List (Tower K V))
      → IsSorted order (b ++ a)
      → All (λ (u : Tower K V). less t.key u.key ≡ false) b
      → All (λ (u : Tower K V). less t.key u.key ≡ true) a
      → IsSorted order (b ++ (t ∷ a))
  IsSorted-between [] t a s miss hit = (before a hit, s)
    where
      before :
          (a : List (Tower K V))
          → All (λ (u : Tower K V). less t.key u.key ≡ true) a
          → All (λ (u : Tower K V). less u.key t.key ≡ false) a
      before [] hit = tt
      before (u ∷ a) hit = (less_asymm t.key u.key hit.0, before a hit.1)
  IsSorted-between (x ∷ b) t a s miss hit = (
    All-between (λ (u : Tower K V). less u.key x.key ≡ false) b t a s.0 miss.0,
    IsSorted-between b t a s.1 miss.1 hit,
  )

  pub IsSorted-without :
      (b : List (Tower K V)) (t : Tower K V) (a : List (Tower K V))
      → IsSorted order (b ++ (t ∷ a))
      → IsSorted order (b ++ a)
  IsSorted-without [] t a s = s.1
  IsSorted-without (x ∷ b) t a s = (
    All-without (λ (u : Tower K V). less u.key x.key ≡ false) b t a s.0,
    IsSorted-without b t a s.1,
  )
