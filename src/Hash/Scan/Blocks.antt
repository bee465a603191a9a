-- ===== src/Hash/Scan/Blocks.antt =====
-- src/hash.h, which nodes a bucket holds, in the order in which the cursor of `Hash::scan` walks.
use Prim.Native.Nat.{◌∣◌}
use native.Mathlib.Nat.{mod-mod_of_dvd, dvd-mul_right}
use redis_db.Prelude.{
  ℕ, ◌+◌, ◌-◌, ◌/◌, ◌^◌, ◌<◌, ◌≡◌, refl, sym, ap, subst, ◌∙◌, Bool, ◌&&◌, List, [], ◌∷◌, arith,
  word, bit_and, bit_and_mask, ◌==◌, count_if, to_nat,
}
use redis_db.Traits.{Traits}
use redis_db.Table.{HashNode, HashTable, get_bucket_head}
use redis_db.Table.Bags.{bucket, contents, home, IsPlaced, get_bucket_head-bucket}
use redis_db.BitsOp.{rev}
use redis_db.BitsOp.Reverses.{rev-lt}
use redis_db.Hash.Valid.{IsHome, slot-lt}
use redis_db.Hash.Scan.{emit}
use redis_db.Hash.Scan.Emits.{count_if-emit, count_if-home}
use redis_db.Hash.Scan.Cursor.{powers, home-block}

module _ {ℓ} {A : Type ℓ} where
  -- Tests that agree count alike.
  pub count_if-cong :
      (p q : A → Bool) → ((x : A) → p x ≡ q x) → (xs : List A) → count_if p xs ≡ count_if q xs
  count_if-cong p q same xs = ap (λ f. count_if f xs) (λ i x. same x i)

  -- A test that holds where just one of two does.
  pub count_if-sum :
      (p q r : A → Bool)
      → ((x : A) → to_nat (p x) + to_nat (q x) ≡ to_nat (r x))
      → (xs : List A) → count_if p xs + count_if q xs ≡ count_if r xs
  unfolding count_if
  count_if-sum p q r same [] = refl
  count_if-sum p q r same (x ∷ xs) = omega (arith, same x, count_if-sum p q r same xs)

module _ {ℓ} {T K : Type ℓ} (traits : Traits T K) where
  open traits use {get_key, hasher}

  -- Where the walk of the cursor meets the node.
  abbrev pub place : HashNode T → ℕ
  place n = rev (word (hasher (get_key n.value)))

  pub place-lt : (n : HashNode T) → place n < 2 ^ 64
  place-lt n = rev-lt (word (hasher (get_key n.value))) (omega arith)

  module _ (k d : ℕ) (e : k + d ≡ 64) where
    masked_word : (x : ℕ) → bit_and x (2 ^ k - 1) ≡ bit_and (word x) (2 ^ k - 1)
    masked_word x =
        bit_and_mask k x
        ∙ sym (
            mod-mod_of_dvd (2 ^ k) x
              (subst (λ n. 2 ^ k ∣ n) (powers k d e) (dvd-mul_right (2 ^ k) (2 ^ d))))
        ∙ sym (bit_and_mask k (word x))

    in_block :
        (v : ℕ)
        → v < 2 ^ 64
        → (n : HashNode T)
        → (home traits (2 ^ k - 1) n == bit_and v (2 ^ k - 1)) ≡ (place n / 2 ^ d == rev v / 2 ^ d)
    in_block v lt n =
        ap (λ x. x == bit_and v (2 ^ k - 1)) (masked_word (hasher (get_key n.value)))
        ∙ home-block k d e (word (hasher (get_key n.value))) v (omega arith) lt

    -- The bucket of a cursor emits the values of the nodes of its stretch.
    pub count_if-emit_block :
        (t : HashTable T) (v : ℕ) (values : List T) (q : T → Bool)
        → IsHome traits t
        → t.buckets_number ≡ 2 ^ k
        → v < 2 ^ 64
        → count_if q (emit (get_bucket_head t (bit_and v (2 ^ k - 1))) values)
          ≡ count_if q values
            + count_if (λ n. q n.value && (place n / 2 ^ d == rev v / 2 ^ d)) (contents t)
    count_if-emit_block t v values q s width lt =
        let i = bit_and v (2 ^ k - 1) in
        let mask : t.buckets_number - 1 ≡ 2 ^ k - 1 = ap (λ n. n - 1) width in
        let inside : i < t.buckets_number =
          subst (λ m. bit_and v m < t.buckets_number) mask (slot-lt v s.power) in
        let placed = subst (λ m. IsPlaced traits m t) mask s.placed in
        ap (λ c. count_if q (emit c values)) (get_bucket_head-bucket t i inside)
        ∙ count_if-emit q (bucket t i) values
        ∙ ap (λ n. count_if q values + n)
            (count_if-home traits (λ n. q n.value) (2 ^ k - 1) i t placed
              ∙ count_if-cong _ _ (λ n. ap (λ b. q n.value && b) (in_block v lt n)) (contents t))
