-- ===== src/HashFunction/Times33.antt =====
-- src/hash.h, `HashFunction<std::string>` against its formula.
use native.Mathlib.Nat.{pow-suc, mod-add-div, add-mul-mod_self_left}
use redis_db.Prelude.{
  ℕ, suc, ◌+◌, ◌*◌, ◌/◌, ◌%◌, ◌^◌, ◌<◌, ◌≡◌, sym, ap, ◌∙◌, List, [], ◌∷◌, arith, length, word,
}
use redis_db.HashFunction.{char_to_size, hash_bytes, hash_string}

pow_suc : (b n : ℕ) → b ^ suc n ≡ b * b ^ n
pow_suc b n = omega (arith, pow-suc b n)

-- The bytes as the digits of a number to the base 33, the first byte first.
abbrev pub digits33 : List ℕ → ℕ
digits33 [] = 0
digits33 (c ∷ s) = char_to_size c * 33 ^ length s + digits33 s

times33 : (h c : ℕ) → word (word (word (h * 2 ^ 5) + h) + c) ≡ (33 * h + c) % 2 ^ 64
times33 h c = omega arith

mod_mul : (a b m : ℕ) → (a % 2 ^ 64 * b + m) % 2 ^ 64 ≡ (a * b + m) % 2 ^ 64
mod_mul a b m =
    let x = a % 2 ^ 64 * b + m in
    let y = a / 2 ^ 64 * b in
    let e : a * b + m ≡ x + 2 ^ 64 * y =
      omega (arith, ap (λ (t : ℕ). t * b) (mod-add-div a (2 ^ 64))) in
    sym (ap (λ (t : ℕ). t % 2 ^ 64) e ∙ add-mul-mod_self_left x (2 ^ 64) y)

one_more : (h c p d : ℕ) → (33 * h + c) * p + d ≡ h * (33 * p) + (c * p + d)
one_more h c p d = omega arith

hash_bytes-digits33 :
    (h : ℕ) (s : List ℕ) → h < 2 ^ 64 → hash_bytes h s ≡ (h * 33 ^ length s + digits33 s) % 2 ^ 64
unfolding hash_bytes
hash_bytes-digits33 h [] lt = omega arith
hash_bytes-digits33 h (c ∷ s) lt =
    let x = char_to_size c in
    let h' = word (word (word (h * 2 ^ 5) + h) + x) in
    let p = 33 ^ length s in
    hash_bytes-digits33 (word (word (word (h * 2 ^ 5) + h) + char_to_size c)) s (omega arith)
    ∙ ap (λ (t : ℕ). (t * p + digits33 s) % 2 ^ 64) (times33 h x)
    ∙ mod_mul (33 * h + x) p (digits33 s)
    ∙ ap (λ (t : ℕ). t % 2 ^ 64)
        (one_more h x p (digits33 s)
          ∙ ap (λ (t : ℕ). h * t + (x * p + digits33 s)) (sym (pow_suc 33 (length s))))

-- The hash of a string is 5381 and its bytes read as one number to the base 33, modulo 2 ^ 64.
pub hash_string-digits33 :
    (s : List ℕ) → hash_string s ≡ (5381 * 33 ^ length s + digits33 s) % 2 ^ 64
unfolding hash_string
hash_string-digits33 s = hash_bytes-digits33 5381 s (omega arith)
