-- ===== src/HashFuncs/Mix.antt =====
-- The final mixing of murmur2 and xxhash of util/hash.h, and the ranges of the functions.
use hash_bench.Common.{ℕ, zero, suc, ◌*◌, ◌/◌, ◌^◌, ◌<◌, ◌≡◌, ◌≢◌, ◌∙◌, sym, ap, arith, List}
use native.Mathlib.Nat.{div-le_self}
use hash_bench.Word.{u32, u64, bit_xor}
use hash_bench.Word.Xor.{bit_xor-lt, xorshift-injective}
use hash_bench.HashFuncs.{
  jenkins_final, jenkins, murmur_m, murmur_final, murmur2, number_2, number_3, xx_final, xxhash,
  hash_funcs,
}

-- The multipliers are odd: each has an inverse among the words.
murmur_m-injective :
    (x y : ℕ) → x < 2 ^ 32 → y < 2 ^ 32 → u32 (x * murmur_m) ≡ u32 (y * murmur_m) → x ≡ y
murmur_m-injective x y h k e =
    let inverse = λ (z : ℕ) (l : z < 2 ^ 32). inverse_murmur_m z l in
    sym (inverse x h) ∙ ap (λ n. u32 (n * 3852147133)) e ∙ inverse y k
  where
    inverse_murmur_m : (z : ℕ) → z < 2 ^ 32 → u32 (u32 (z * murmur_m) * 3852147133) ≡ z
    inverse_murmur_m z l = omega arith

number_2-injective :
    (x y : ℕ) → x < 2 ^ 64 → y < 2 ^ 64 → u64 (x * number_2) ≡ u64 (y * number_2) → x ≡ y
number_2-injective x y h k e =
    sym (inverse x h) ∙ ap (λ n. u64 (n * 839798700976720815)) e ∙ inverse y k
  where
    inverse : (z : ℕ) → z < 2 ^ 64 → u64 (u64 (z * number_2) * 839798700976720815) ≡ z
    inverse z l = omega arith

number_3-injective :
    (x y : ℕ) → x < 2 ^ 64 → y < 2 ^ 64 → u64 (x * number_3) ≡ u64 (y * number_3) → x ≡ y
number_3-injective x y h k e =
    sym (inverse x h) ∙ ap (λ n. u64 (n * 16855272203555305545)) e ∙ inverse y k
  where
    inverse : (z : ℕ) → z < 2 ^ 64 → u64 (u64 (z * number_3) * 16855272203555305545) ≡ z
    inverse z l = omega arith

shifted-lt : (k r x : ℕ) → x < 2 ^ k → bit_xor x (x / 2 ^ r) < 2 ^ k
shifted-lt k r x h = bit_xor-lt k x (x / 2 ^ r) h (omega (arith, div-le_self x (2 ^ r)))

murmur_final-injective :
    (x y : ℕ) → x < 2 ^ 32 → y < 2 ^ 32 → murmur_final x ≡ murmur_final y → x ≡ y
unfolding murmur_final
murmur_final-injective x y h k e = xorshift-injective 12 x y (
    murmur_m-injective _ _ (shifted-lt 32 13 x h) (shifted-lt 32 13 y k)
      (xorshift-injective 14 _ _ e))

xx_final-injective : (x y : ℕ) → x < 2 ^ 64 → y < 2 ^ 64 → xx_final x ≡ xx_final y → x ≡ y
unfolding xx_final
xx_final-injective x y h k e = xorshift-injective 32 x y (
    number_2-injective _ _ (shifted-lt 64 33 x h) (shifted-lt 64 33 y k) (
      xorshift-injective 28 _ _ (
        number_3-injective _ _ (shifted-lt 64 29 _ (omega arith)) (shifted-lt 64 29 _ (omega arith))
          (xorshift-injective 31 _ _ e))))

-- The final mixing of `murmur2` maps different words of 32 bits to different words.
pub murmur_final-ne : (x y : ℕ) → x < 2 ^ 32 → y < 2 ^ 32 → x ≢ y → murmur_final x ≢ murmur_final y
murmur_final-ne x y h k ne e = ne (murmur_final-injective x y h k e)

-- The final mixing of `xxhash` maps different words of 64 bits to different words.
pub xx_final-ne : (x y : ℕ) → x < 2 ^ 64 → y < 2 ^ 64 → x ≢ y → xx_final x ≢ xx_final y
xx_final-ne x y h k ne e = ne (xx_final-injective x y h k e)

murmur_final-lt : (h : ℕ) → murmur_final h < 2 ^ 32
unfolding murmur_final
murmur_final-lt h = shifted-lt 32 15 _ (omega arith)

xx_final-lt : (h : ℕ) → xx_final h < 2 ^ 64
unfolding xx_final
xx_final-lt h = shifted-lt 64 32 _ (omega arith)

-- Each of the four hash functions returns a `size_t`, whatever the bytes and the seed, if `standard`
-- does; and `murmur2` returns 32 bits only.
pub hash_funcs-lt :
    (standard : List ℕ → ℕ → ℕ)
    → ((key : List ℕ) (seed : ℕ) → standard key seed < 2 ^ 64)
    → (i : ℕ) (key : List ℕ) (seed : ℕ)
    → (hash_funcs standard i key seed < 2 ^ 64) × (hash_funcs standard 1 key seed < 2 ^ 32)
unfolding hash_funcs murmur2 jenkins jenkins_final xxhash
hash_funcs-lt standard h zero key seed = (h key seed, murmur_final-lt _)
hash_funcs-lt standard h (suc zero) key seed = (omega (arith, murmur_final-lt _), murmur_final-lt _)
hash_funcs-lt standard h (suc (suc zero)) key seed = (omega arith, murmur_final-lt _)
hash_funcs-lt standard h (suc (suc (suc i))) key seed = (xx_final-lt _, murmur_final-lt _)
