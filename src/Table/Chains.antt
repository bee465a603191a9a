-- ===== src/Table/Chains.antt =====
-- src/hash.h, the loops of `HashTable` over one chain, against counting.
use redis_db.Prelude.{
  ◌+◌, ◌≤◌, ◌≡◌, refl, Bool, true, false, none, some, [], ◌∷◌, inl, inr, if◌then◌else◌, arith,
  is_some, count_if, to_nat, All, Bool-cases,
}
use redis_db.Traits.{Traits, has_key}
use redis_db.Table.{HashNode, Chain, find, is_exist_next, is_exist_chain, erase_next, link}

module _ {ℓ} {T K : Type ℓ} (traits : Traits T K) where
  -- The test that the loops make at each node.
  abbrev pub holds_key : K → HashNode T → Bool
  holds_key k n = has_key traits k n.value

  -- The chain without the first node under the key.
  unfoldable pub erase_first : K → Chain T → Chain T
  erase_first k [] = []
  erase_first k (n ∷ c) = if has_key traits k n.value then c else n ∷ erase_first k c

  pub find-eq-none : (k : K) (c : Chain T) → count_if (holds_key k) c ≡ 0 → find traits k c ≡ none
  unfolding find count_if
  find-eq-none k [] h = refl
  find-eq-none k (n ∷ c) h = ground (arith, find-eq-none k c)

  pub count_if-eq-zero :
      (k : K) (c : Chain T) → find traits k c ≡ none → count_if (holds_key k) c ≡ 0
  unfolding find count_if
  count_if-eq-zero k [] h = refl
  count_if-eq-zero k (n ∷ c) h = ground (arith, count_if-eq-zero k c)

  -- What `find` returns is a node of the chain under the key.
  pub find-eq-some :
      (k : K) (c : Chain T) (n : HashNode T)
      → find traits k c ≡ some n
      → (holds_key k n ≡ true)
        × (1 ≤ count_if (holds_key k) c)
        × ((p : HashNode T → Bool) → to_nat (p n) ≤ count_if p c)
  unfolding find count_if
  find-eq-some k [] n h = absurd (cc)
  find-eq-some k (m ∷ c) n h = elim (Bool-cases (has_key traits k m.value)) [
    | inl hit ↦ (ground arith, ground arith, λ p. ground arith)
    | inr miss ↦
        let e : find traits k c ≡ some n = ground arith in
        let (key, many, member) = find-eq-some k c n e in
        (key, omega arith, λ p. omega (arith, member p))
  ]

  pub is_exist_chain-find :
      (k : K) (c : Chain T) → is_exist_chain traits k c ≡ is_some (find traits k c)
  unfolding is_exist_chain find
  is_exist_chain-find k [] = refl
  is_exist_chain-find k (n ∷ c) = ground (arith, next c)
    where
      next : (c : Chain T) → is_exist_next traits k c ≡ is_some (find traits k c)
      next [] = refl
      next (n ∷ c) = ground (arith, next c)

  pub erase_next-none :
      (k : K) (c : Chain T) → find traits k c ≡ none → erase_next traits k c ≡ (false, c)
  unfolding erase_next find
  erase_next-none k [] h = refl
  erase_next-none k (n ∷ c) h = ground (arith, erase_next-none k c)

  pub erase_next-some :
      (k : K) (c : Chain T) (n : HashNode T)
      → find traits k c ≡ some n
      → erase_next traits k c ≡ (true, erase_first k c)
  unfolding erase_next find erase_first
  erase_next-some k [] n h = absurd (cc)
  erase_next-some k (m ∷ c) n h = ground (arith, erase_next-some k c n)

  -- Erasing takes the node that `find` returns, and no other.
  pub count_if-erase_first :
      (p : HashNode T → Bool) (k : K) (c : Chain T) (n : HashNode T)
      → find traits k c ≡ some n
      → count_if p (erase_first k c) + to_nat (p n) ≡ count_if p c
  unfolding find erase_first count_if
  count_if-erase_first p k [] n h = absurd (cc)
  count_if-erase_first p k (m ∷ c) n h = elim (Bool-cases (has_key traits k m.value)) [
    | inl hit ↦ ground arith
    | inr miss ↦
        let e : find traits k c ≡ some n = ground arith in
        rw miss (omega (arith, count_if-erase_first p k c n e))
  ]

  pub All-erase_first :
      (P : HashNode T → Type 0) (k : K) (c : Chain T) → All P c → All P (erase_first k c)
  unfolding erase_first
  All-erase_first P k [] h = h
  All-erase_first P k (n ∷ c) h = ground (arith, All-erase_first P k c)

-- Both branches of `insertNode` put the node in front.
pub link_lem {ℓ} : {T : Type ℓ} (n : HashNode T) (c : Chain T) → link n c ≡ n ∷ c
unfolding link
link_lem n [] = refl
link_lem n (head ∷ c) = refl
