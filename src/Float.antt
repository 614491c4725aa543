-- ===== src/Float.antt =====
-- The single-precision arithmetic of the load thresholds and of the growth factors. `float` is the
-- language's own type, so it is a parameter here: its conversions from and to `size_t`, the
-- literals, the product, the comparison, and what IEEE 754 arithmetic guarantees of them.
use hash_bench.Common.{ℕ, ◌*◌, ◌^◌, ◌≤◌, ◌<◌, ◌∣◌, ◌≡◌, Bool, true}

pub record FloatOps : Type 1 where
  pub Float : Type 0
  pub of_size : ℕ → Float
  -- the literal nearest to p / q
  pub literal : ℕ → ℕ → Float
  pub times : Float → Float → Float
  pub less : Float → Float → Bool
  -- truncation to `size_t`
  pub to_size : Float → ℕ
  -- Rounding is monotone, so scaling by a literal that is at most 1 does not grow.
  pub less-lt :
      (n c p q : ℕ)
      → 0 < q
      → p ≤ q
      → less (of_size n) (times (of_size c) (literal p q)) ≡ true
      → n < c
  -- 3/4 of 2c and more lies above c by far more than the rounding error.
  pub lt-less :
      (n c p q : ℕ)
      → 0 < q
      → 0 < c
      → n ≤ c
      → 3 * q ≤ 4 * p
      → less (of_size n) (times (of_size (2 * c)) (literal p q)) ≡ true
  -- Powers of two are exact, and so is their double, which a `size_t` holds.
  pub to_size-double :
      (c : ℕ) → 2 * c ∣ 2 ^ 64 → 2 * c < 2 ^ 64 → to_size (times (of_size c) (literal 2 1)) ≡ 2 * c
  -- Scaling by a literal that is at least 1 does not shrink.
  pub to_size-pos :
      (c p q : ℕ) → 0 < q → q ≤ p → 0 < c → 0 < to_size (times (of_size c) (literal p q))
