-- ===== src/DiscreteLog/Masks.antt =====
-- What the mask of `discrete_log` of bench/utils.h keeps of a number.
use native.Mathlib.Nat.{pow-suc, mod-mod_of_dvd, dvd-mul_left, div-add-mod}
use hash_bench.Common.{
  ℕ, zero, suc, ◌+◌, ◌-◌, ◌*◌, ◌/◌, ◌%◌, ◌^◌, ◌≤◌, ◌<◌, ◌≡◌, ◌∣◌, ◌∙◌, sym, ap, subst, arith,
}
use hash_bench.DiscreteLog.{masked}
use hash_bench.Word.Powers.{pow-add, pow-pos, mul-mod-mul_left, Cong, mod_parts}

power-dvd : (p : ℕ) → p ≤ 64 → 2 ^ p ∣ 2 ^ 64
power-dvd p le =
    let sum : 64 - p + p ≡ 64 = omega arith in
    subst (λ n. 2 ^ p ∣ n) (sym (pow-add 2 (64 - p) p) ∙ ap (λ n. 2 ^ n) sum)
      (dvd-mul_left (2 ^ p) (2 ^ (64 - p)))

-- The mask takes the remainder.
pub masked_lem : (p n : ℕ) → p ≤ 64 → masked p n ≡ n % 2 ^ p
masked_lem p n le = mod-mod_of_dvd (2 ^ p) n (power-dvd p le)

pub masked-Cong : (p n : ℕ) → p ≤ 64 → Cong (4 * 2 ^ p) (1 + 4 * n) (1 + 4 * masked p n)
masked-Cong p n le =
    mod_parts (4 * 2 ^ p) (1 + 4 * n) (n / 2 ^ p) (1 + 4 * masked p n)
      (grind (arith, masked_lem p n le, div-add-mod n (2 ^ p)))

-- A multiple of `radix` stays one under the mask.
pub masked-mul :
    (p radix n m : ℕ)
    → p ≤ 64
    → 0 < radix
    → radix * 2 ^ n ≡ 2 ^ p
    → masked p (radix * m) ≡ radix * (m % 2 ^ n)
masked-mul p radix n m le pos size =
    masked_lem p (radix * m) le
    ∙ ap (λ t. radix * m % t) (sym size)
    ∙ mul-mod-mul_left radix m (2 ^ n) pos (pow-pos n)

pub mod_two : (n m : ℕ) → 0 < n → m % 2 ^ n % 2 ≡ m % 2
mod_two zero m pos = omega (arith, pos)
mod_two (suc n) m pos =
    mod-mod_of_dvd 2 m (subst (λ t. 2 ∣ t) (sym (pow-suc 2 n)) (dvd-mul_left 2 (2 ^ n)))

-- What one round makes of a product of `1 + 4 * a` and `1 + 4 * b`.
abbrev pub join : ℕ → ℕ → ℕ
join a b = a + b + 4 * a * b

pub join_lem : (a b : ℕ) → (1 + 4 * a) * (1 + 4 * b) ≡ 1 + 4 * join a b
join_lem a b = grind arith
