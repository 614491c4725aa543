-- ===== src/Examples.antt =====
-- Concrete parameters for the tests: keys of eight bytes as numbers, with two simple hash
-- functions in place of those of util/hash.h, and exact fractions in place of `float`.
use hash_bench.Common.{
  ℕ, ◌+◌, ◌*◌, ◌/◌, ◌%◌, ◌^◌, ◌<◌, ◌≤◌, ◌≡◌, true, arith, ◌==◌, ==_iff, ltb, lt→ltb, ◌∣◌,
}
use native.Mathlib.Nat.{mul-le-mul, mul-le-mul_left, le-div_iff_mul-le}
use hash_bench.Key.{Key}
use hash_bench.Float.{FloatOps}

-- `hash_funcs[i]` multiplies by `i + 1`.
abbrev pub number_hash : ℕ → ℕ → ℕ → ℕ
number_hash i k seed = k * (i + 1) % 2 ^ 64

pub number_hash-lt : (i k seed : ℕ) → number_hash i k seed < 2 ^ 64
number_hash-lt i k seed = omega arith

instance abbrev pub number_key : Key ℕ
number_key = record {
  same = ◌==◌;
  same_iff = ==_iff;
  invalid = 0;
  hash_funcs = number_hash;
  hash-lt = number_hash-lt;
  uninitialised = 77;
}

pub fraction-lt : (n c p q : ℕ) → 0 < q → p ≤ q → ltb (n * (1 * q)) (c * p * 1) ≡ true → n < c
fraction-lt n c p q pos le h = grind arith

pub fraction-less :
    (n c p q : ℕ) → 0 < q → 0 < c → n ≤ c → 3 * q ≤ 4 * p → ltb (n * (1 * q)) (2 * c * p * 1) ≡ true
fraction-less n c p q pos cpos le room =
    let a : n * q ≤ c * q = grind arith in
    let b : c * (3 * q) ≤ c * (4 * p) = mul-le-mul_left c room in
    let d : 0 < c * p = grind arith in lt→ltb (n * (1 * q)) (2 * c * p * 1) (omega (arith, a, b, d))

pub fraction-double : (c : ℕ) → 2 * c ∣ 2 ^ 64 → 2 * c < 2 ^ 64 → c * 2 / 1 ≡ 2 * c
fraction-double c d small = omega arith

pub fraction-pos : (c p q : ℕ) → 0 < q → q ≤ p → 0 < c → 0 < c * p / (1 * q)
fraction-pos c p q pos le cpos =
    let a : 1 * (1 * q) ≤ c * p = mul-le-mul {n₁ = 1} {m₁ = 1 * q} cpos (omega arith) in
    (le-div_iff_mul-le {k = 1 * q} {x = 1} {y = c * p} (omega arith)).1 a

instance abbrev pub fractions : FloatOps
fractions = record {
  Float = ℕ × ℕ;
  of_size = λ n. (n, 1);
  literal = λ p q. (p, q);
  times = λ a b. (a.0 * b.0, a.1 * b.1);
  less = λ a b. ltb (a.0 * b.1) (b.0 * a.1);
  to_size = λ a. a.0 / a.1;
  less-lt = fraction-lt;
  lt-less = fraction-less;
  to_size-double = fraction-double;
  to_size-pos = fraction-pos;
}
