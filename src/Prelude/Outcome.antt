-- ===== src/Prelude/Outcome.antt =====
-- The outcome of C++ code that may leave the defined behaviour or loop forever.
use Prim.Native.Nat.{ℕ, ◌/◌}
use mathlib.Core.Path.{◌≡◌}
use mathlib.Core.Option.{Option, none, some}
use redis_db.Prelude.Tests.{◌==◌, if◌then◌else◌}

-- `undefined` is undefined behaviour: a null pointer dereferenced, an array indexed outside, a
-- division by zero. `diverges` is a loop that is still running when its fuel is used up.
pub data Run {ℓ} (A : Type ℓ) : Type ℓ where
  ok : A → Run A
  undefined : Run A
  diverges : Run A

infixl 5 ◌>>=◌
abbrev pub ◌>>=◌ {ℓ κ} : {A : Type ℓ} {B : Type κ} → Run A → (A → Run B) → Run B
diverges >>= next = diverges
undefined >>= next = undefined
ok a >>= next = next a

module _ {ℓ κ} {A : Type ℓ} where
  -- The code runs to an end without undefined behaviour, and what it yields is as stated.
  abbrev pub Returns : Run A → (A → Type κ) → Type (ℓ ⊔ κ)
  Returns run stated = (a : A) × (run ≡ ok a) × stated a

-- `*p` for a pointer that may be null.
abbrev pub deref {ℓ} : {A : Type ℓ} → Option A → Run A
deref none = undefined
deref (some a) = ok a

-- `a / b`
abbrev pub quotient : ℕ → ℕ → Run ℕ
quotient a b = if b == 0 then undefined else ok (a / b)

pub ok-injective {ℓ} : {A : Type ℓ} {a b : A} → ok a ≡ ok b → a ≡ b
ok-injective e = cc
