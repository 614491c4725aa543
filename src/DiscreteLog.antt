-- ===== src/DiscreteLog.antt =====
-- `discrete_log` of bench/utils.h: a shuffle of the numbers below a power of two.
pub mod Masks
pub mod Rounds
pub mod Loop
pub mod Correct
mod Tests
use hash_bench.Common.{
  ℕ, zero, suc, ◌+◌, ◌-◌, ◌*◌, ◌/◌, ◌%◌, ◌^◌, Bool, true, false, Option, none, some, List, [], ◌∷◌,
  get_elem?, if◌then◌else◌, ◌==◌, ◌&&◌, leb, ltb,
}
use hash_bench.Word.{u64}

abbrev pub power_to_g : List ℕ
power_to_g =
    29 ∷ 29 ∷ 53 ∷ 53 ∷ 117 ∷ 125 ∷ 229 ∷ 221 ∷ 469 ∷ 517 ∷ 589 ∷ 861 ∷ 1189 ∷ 1653 ∷ 2333 ∷ 3381
    ∷ 4629 ∷ 6565 ∷ 9293 ∷ 13093 ∷ 18509 ∷ 26253 ∷ 37117 ∷ 52317 ∷ 74101 ∷ 104581 ∷ 147973 ∷ 209173
    ∷ 296029 ∷ 418341 ∷ 91733 ∷ 836661 ∷ 1183221 ∷ 1673485 ∷ 2366509 ∷ 3346853 ∷ 4732789 ∷ 6693237
    ∷ 9465541 ∷ 13386341 ∷ 18931141 ∷ 26772693 ∷ 37862197 ∷ 53545221 ∷ 75724373 ∷ 107090317 ∷ []

-- `n & P_MASK`, for P = 2 ^ power_of_two
abbrev pub masked : ℕ → ℕ → ℕ
masked power_of_two n = u64 n % 2 ^ power_of_two

-- The loop, with fuel for its rounds; `up & radix` is the bit of `up` at a power of two.
unfoldable pub log_loop : ℕ → ℕ → ℕ → ℕ → ℕ → ℕ → Option ℕ
log_loop power_of_two zero up x radix gpow = none
log_loop power_of_two (suc n) up x radix gpow =
    let set = up / radix % 2 == 1 in
    let x' = if set then u64 (x + radix) else x in
    let up' = if set then masked power_of_two (up + gpow + 4 * up * gpow) else up in
    let gpow' = masked power_of_two (gpow + gpow + 4 * gpow * gpow) in
    elim (up == 0) [
      | true ↦ some x
      | false ↦ log_loop power_of_two n up' x' (u64 (radix * 2)) gpow'
    ]

-- `none`: a static assertion on the power or the one on `k` fails. Each round clears a bit of `up`,
-- so one round for each bit and one for the test are fuel enough.
unfoldable pub discrete_log : ℕ → ℕ → Option ℕ
discrete_log power_of_two k =
    let power = power_of_two + 2 in
    if leb 10 power && leb power 55 && ltb k (2 ^ power_of_two)
    then elim (get_elem? power_to_g (power - 10)) [
      | none ↦ none
      | some g ↦ elim (log_loop power_of_two (power_of_two + 1) k 0 1 ((g - 1) / 4)) [
        | none ↦ none
        | some x ↦ some (2 ^ power_of_two - x)
      ]
    ]
    else none
