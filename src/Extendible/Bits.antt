-- ===== src/Extendible/Bits.antt =====
-- The leading bits of a hash that index the directory of index/extendible_hash.h, and the run of
-- entries that belong to one segment.
use hash_bench.Common.{
  ℕ, ◌+◌, ◌-◌, ◌*◌, ◌/◌, ◌%◌, ◌^◌, ◌≤◌, ◌<◌, ◌≡◌, ◌≢◌, ◌∙◌, ◌⊎◌, ◌↔◌, inl, inr, sym, ap, arith,
  dec_lt,
}
use native.Mathlib.Nat.{div-div-eq-div-mul, div-add-mod, mod-lt, mul-le-mul_left, div-lt_iff_lt-mul}
use hash_bench.Word.Powers.{pow-add, pow-pos}
use hash_bench.Extendible.{prefix, split_bit}

-- Fewer leading bits are the leading bits of more.
pub prefix-prefix : (hash d e : ℕ) → e ≤ d → d ≤ 64 → prefix hash d / 2 ^ (d - e) ≡ prefix hash e
prefix-prefix hash d e le lim =
    let total : 2 ^ (64 - d) * 2 ^ (d - e) ≡ 2 ^ (64 - e) =
      sym (pow-add 2 (64 - d) (d - e)) ∙ ap (λ n. 2 ^ n) (omega arith) in
    div-div-eq-div-mul hash (2 ^ (64 - d)) (2 ^ (d - e)) ∙ ap (λ n. hash / n) total

pub prefix-lt : (hash d : ℕ) → hash < 2 ^ 64 → d ≤ 64 → prefix hash d < 2 ^ d
prefix-lt hash d lt lim =
    let sum : d + (64 - d) ≡ 64 = omega arith in
    let total : 2 ^ d * 2 ^ (64 - d) ≡ 2 ^ 64 = sym (pow-add 2 d (64 - d)) ∙ ap (λ n. 2 ^ n) sum in
    (div-lt_iff_lt-mul {k = 2 ^ (64 - d)} {x = hash} {y = 2 ^ d} (pow-pos (64 - d))).1 (omega arith)

-- Of the run of 2 * `half` entries around `x`, `y` is in the upper half, in the lower one, or not
-- in the run.
module _ (half x y : ℕ) (pos : 0 < half) where
  abbrev start : ℕ
  start = x - x % (2 * half)

  start_lem : start ≡ 2 * half * (x / (2 * half))
  start_lem = omega (arith, div-add-mod x (2 * half))

  y_lem : y ≡ 2 * half * (y / (2 * half)) + half * (y / half % 2) + y % half
  y_lem =
      let a : y / half / 2 ≡ y / (2 * half) =
        div-div-eq-div-mul y half 2 ∙ ap (λ n. y / n) (omega arith) in
      let b : half * (y / half) + y % half ≡ y = div-add-mod y half in
      let c : 2 * (y / half / 2) + y / half % 2 ≡ y / half = div-add-mod (y / half) 2 in
      let d : half * (2 * (y / half / 2) + y / half % 2) ≡ half * (y / half) =
        ap (λ n. half * n) c in
      let e : 2 * half * (y / (2 * half)) ≡ 2 * half * (y / half / 2) =
        ap (λ n. 2 * half * n) (sym a) in
      grind (arith, b, d, e)

  pub run_upper :
      y / (2 * half) ≡ x / (2 * half)
      → y / half % 2 ≡ 1
      → (start + half ≤ y) × (y < start + half + half)
  run_upper same bit =
      let a : 2 * half * (y / (2 * half)) ≡ 2 * half * (x / (2 * half)) =
        ap (λ n. 2 * half * n) same in
      let b : half * (y / half % 2) ≡ half * 1 = ap (λ n. half * n) bit in
      let c = mod-lt y {m = half} pos in
      (omega (arith, a, b, c, y_lem, start_lem), omega (arith, a, b, c, y_lem, start_lem))

  pub run_lower :
      y / (2 * half) ≡ x / (2 * half) → y / half % 2 ≡ 0 → (start ≤ y) × (y < start + half)
  run_lower same bit =
      let a : 2 * half * (y / (2 * half)) ≡ 2 * half * (x / (2 * half)) =
        ap (λ n. 2 * half * n) same in
      let b : half * (y / half % 2) ≡ half * 0 = ap (λ n. half * n) bit in
      let c = mod-lt y {m = half} pos in
      (omega (arith, a, b, c, y_lem, start_lem), omega (arith, a, b, c, y_lem, start_lem))

  pub run_outside : y / (2 * half) ≢ x / (2 * half) → (y < start) ⊎ (start + half + half ≤ y)
  run_outside other =
      let c = mod-lt y {m = half} pos in
      let b : half * (y / half % 2) ≤ half * 1 = mul-le-mul_left half (omega arith) in
      elim (dec_lt (y / (2 * half)) (x / (2 * half))) [
        | yes h ↦
            let m : 2 * half * (y / (2 * half) + 1) ≤ 2 * half * (x / (2 * half)) =
              mul-le-mul_left (2 * half) (omega arith) in
            inl (omega (arith, b, c, m, y_lem, start_lem))
        | no h ↦
            let m : 2 * half * (x / (2 * half) + 1) ≤ 2 * half * (y / (2 * half)) =
              mul-le-mul_left (2 * half) (omega arith) in
            inr (omega (arith, b, c, m, y_lem, start_lem))
      ]

-- One more leading bit is the next bit, behind the bits before it.
pub prefix-suc :
    (hash d : ℕ) → d < 64 → prefix hash (d + 1) ≡ 2 * prefix hash d + hash / 2 ^ (64 - d - 1) % 2
prefix-suc hash d lt =
    let step : d + 1 - d ≡ 1 = omega arith in
    let less : 64 - (d + 1) ≡ 64 - d - 1 = omega arith in
    let one : 2 ^ (d + 1 - d) ≡ 2 = ap (λ n. 2 ^ n) step in
    let half : prefix hash (d + 1) / 2 ≡ prefix hash d =
      ap (λ n. prefix hash (d + 1) / n) (sym one)
      ∙ prefix-prefix hash (d + 1) d (omega arith) (omega arith) in
    let bit : prefix hash (d + 1) % 2 ≡ hash / 2 ^ (64 - d - 1) % 2 =
      ap (λ n. hash / 2 ^ n % 2) less in
    omega (arith, half, bit)

-- Two hashes share `d + 1` leading bits where they share `d` and the next one.
pub prefix-suc_iff :
    (g h d : ℕ)
    → d < 64
    → (prefix g (d + 1) ≡ prefix h (d + 1))
      ↔ ((prefix g d ≡ prefix h d) × (split_bit g d ≡ split_bit h d))
prefix-suc_iff g h d lt = (
  λ e. ground (arith, prefix-suc g d lt, prefix-suc h d lt, e),
  λ (a, b). ground (arith, prefix-suc g d lt, prefix-suc h d lt, a, b),
)
