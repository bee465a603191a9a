-- ===== src/Prelude/Count.antt =====
-- Lists seen as bags: how many members pass a test. Two lists hold the same members, as often,
-- when the counts agree for every test.
use Prim.Native.Nat.{ℕ, zero, suc, ◌+◌, ◌≤◌, ◌<◌}
use mathlib.Core.Path.{◌≡◌, refl, ap}
use mathlib.Core.Logic.{◌≢◌}
use mathlib.Core.Bool.{Bool, true, false, not, ◌&&◌}
use mathlib.Core.List.{List, [], ◌∷◌, ◌++◌}
use native.Mathlib.Omega.{arith}
use redis_db.Prelude.Lists.{length, get_or, set, replicate}

abbrev pub to_nat : Bool → ℕ
to_nat true = 1
to_nat false = 0

abbrev pub differ : Bool → Bool → Bool
differ true b = not b
differ false b = b

pub and-le : (a b : Bool) → to_nat (a && b) ≤ to_nat a
and-le a b = ground arith

pub differ_self : (a b : Bool) → to_nat (a && differ b b) ≡ 0
differ_self a b = ground arith

pub no_difference : (a b c : Bool) → a ≡ true → to_nat (a && differ b c) ≤ 0 → b ≡ c
no_difference a b c h z = ground arith

bit_split : (a b : Bool) → to_nat (a && b) + to_nat (a && not b) ≡ to_nat a
bit_split a b = ground arith

pub split_true : (a b : Bool) → a ≡ true → to_nat (a && not b) ≤ 0 → b ≡ true
split_true a b h z = ground arith

module _ {ℓ} {A : Type ℓ} where
  unfoldable pub count_if : (A → Bool) → List A → ℕ
  count_if p [] = 0
  count_if p (x ∷ xs) = to_nat (p x) + count_if p xs

  unfoldable pub flatten : List (List A) → List A
  flatten [] = []
  flatten (xs ∷ xss) = xs ++ flatten xss

  pub count_if-append :
      (p : A → Bool) (xs ys : List A) → count_if p (xs ++ ys) ≡ count_if p xs + count_if p ys
  unfolding count_if
  count_if-append p [] ys = omega arith
  count_if-append p (x ∷ xs) ys = omega (arith, count_if-append p xs ys)

  pub count_if-split :
      (p q : A → Bool) (xs : List A)
      → count_if (λ x. p x && q x) xs + count_if (λ x. p x && not (q x)) xs ≡ count_if p xs
  unfolding count_if
  count_if-split p q [] = refl
  count_if-split p q (x ∷ xs) = omega (arith, count_if-split p q xs, bit_split (p x) (q x))

  pub count_if-le :
      (p q : A → Bool)
      → ((x : A) → to_nat (p x) ≤ to_nat (q x))
      → (xs : List A) → count_if p xs ≤ count_if q xs
  unfolding count_if
  count_if-le p q h [] = omega arith
  count_if-le p q h (x ∷ xs) = omega (arith, h x, count_if-le p q h xs)

  pub count_if-true : (xs : List A) → count_if (λ _. true) xs ≡ length xs
  unfolding count_if
  count_if-true [] = refl
  count_if-true (x ∷ xs) = omega (arith, count_if-true xs)

  pub count_if-flatten-replicate :
      (p : A → Bool) (n : ℕ) → count_if p (flatten (replicate n [])) ≡ 0
  unfolding count_if flatten replicate
  count_if-flatten-replicate p zero = refl
  count_if-flatten-replicate p (suc n) = count_if-flatten-replicate p n

  -- A write to one bucket changes the whole by what the bucket changes.
  pub count_if-flatten-set :
      (p : A → Bool) (bs : List (List A)) (i : ℕ) (c : List A)
      → i < length bs
      → count_if p (flatten (set bs i c)) + count_if p (get_or bs i [])
        ≡ count_if p (flatten bs) + count_if p c
  unfolding flatten set get_or
  count_if-flatten-set p [] i c h = absurd (omega arith)
  count_if-flatten-set p (x ∷ bs) zero c h =
      omega (arith, count_if-append p x (flatten bs), count_if-append p c (flatten bs))
  count_if-flatten-set p (x ∷ bs) (suc i) c h = omega (
    arith,
    count_if-append p x (flatten bs),
    count_if-append p x (flatten (set bs i c)),
    count_if-flatten-set p bs i c (omega arith),
  )

  -- No bucket holds more than the whole.
  pub count_if-get_or-le :
      (p : A → Bool) (bs : List (List A)) (i : ℕ)
      → count_if p (get_or bs i []) ≤ count_if p (flatten bs)
  unfolding flatten get_or count_if
  count_if-get_or-le p [] i = omega arith
  count_if-get_or-le p (x ∷ bs) zero = omega (arith, count_if-append p x (flatten bs))
  count_if-get_or-le p (x ∷ bs) (suc i) =
      omega (arith, count_if-append p x (flatten bs), count_if-get_or-le p bs i)

  pub count_if-flatten_zero :
      (p : A → Bool) (bs : List (List A))
      → ((i : ℕ) → count_if p (get_or bs i []) ≡ 0)
      → count_if p (flatten bs) ≡ 0
  unfolding count_if flatten get_or
  count_if-flatten_zero p [] h = refl
  count_if-flatten_zero p (x ∷ bs) h =
      omega
        (arith, count_if-append p x (flatten bs), h 0, count_if-flatten_zero p bs (λ i. h (suc i)))

  -- If all that pass the test are in one bucket, that bucket has the count of the whole.
  pub count_if-flatten_one :
      (p : A → Bool) (bs : List (List A)) (j : ℕ)
      → ((i : ℕ) → i ≢ j → count_if p (get_or bs i []) ≡ 0)
      → count_if p (flatten bs) ≡ count_if p (get_or bs j [])
  unfolding count_if flatten get_or
  count_if-flatten_one p [] j h = refl
  count_if-flatten_one p (x ∷ bs) zero h = omega (
    arith,
    count_if-append p x (flatten bs),
    count_if-flatten_zero p bs (λ i. h (suc i) (omega arith)),
  )
  count_if-flatten_one p (x ∷ bs) (suc j) h = omega (
    arith,
    count_if-append p x (flatten bs),
    h 0 (omega arith),
    count_if-flatten_one p bs j (λ i ne. h (suc i) (omega arith)),
  )

-- Every member has the property.
abbrev pub All {ℓ κ} : {A : Type ℓ} → (A → Type κ) → List A → Type κ
All P [] = Unit
All P (x ∷ xs) = P x × All P xs

pub count_if-All {ℓ κ} :
    {A : Type ℓ} {P : A → Type κ} (p : A → Bool)
    → ((a : A) → P a → p a ≡ false)
    → (xs : List A) → All P xs
    → count_if p xs ≡ 0
unfolding count_if
count_if-All p off [] h = refl
count_if-All p off (x ∷ xs) h = omega (arith, ap to_nat (off x h.0), count_if-All p off xs h.1)

pub All-append {ℓ κ} :
    {A : Type ℓ} (P : A → Type κ) (xs ys : List A) → All P (xs ++ ys) → All P xs × All P ys
All-append P [] ys h = (tt, h)
All-append P (x ∷ xs) ys h = let (a, b) = All-append P xs ys h.1 in ((h.0, a), b)

pub append-All {ℓ κ} :
    {A : Type ℓ} (P : A → Type κ) (xs ys : List A) → All P xs → All P ys → All P (xs ++ ys)
append-All P [] ys a b = b
append-All P (x ∷ xs) ys a b = (a.0, append-All P xs ys a.1 b)
