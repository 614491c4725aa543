-- ===== src/DiscreteLog/Correct.antt =====
-- What `discrete_log` of bench/utils.h computes, in terms of its table.
use native.Mathlib.Nat.{pow-suc, pow-zero, mod-eq_of_lt, mul-one}
use mathlib.Core.Option.{some-injective}
use hash_bench.Common.{
  ℕ, zero, suc, ◌+◌, ◌-◌, ◌*◌, ◌/◌, ◌%◌, ◌^◌, ◌≤◌, ◌<◌, ◌≡◌, ◌≢◌, ◌∙◌, refl, sym, ap, ap₂, arith,
  Bool, true, some, List, [], ◌∷◌, length, get_elem?, ◌==◌, ◌&&◌,
}
use hash_bench.DiscreteLog.{power_to_g, log_loop, discrete_log}
use hash_bench.Word.Powers.{pow-add, Cong, Cong-mul, Cong-order}
use hash_bench.DiscreteLog.Rounds.{Round}
use hash_bench.DiscreteLog.Loop.{log_loop-Solved}

abbrev all_five : List ℕ → Bool
all_five [] = true
all_five (g ∷ gs) = (g % 8 == 5) && all_five gs

all_five_lem :
    (gs : List ℕ) (i : ℕ)
    → all_five gs ≡ true
    → i < length gs
    → (g : ℕ) × (get_elem? gs i ≡ some g) × (g % 8 ≡ 5)
all_five_lem [] i all lt = elim lt [ ]
all_five_lem (g ∷ gs) zero all lt = (g, refl, ground arith)
all_five_lem (g ∷ gs) (suc i) all lt = all_five_lem gs i (ground arith) (omega arith)

-- The table has a generator for each power.
generator :
    (p : ℕ) → 8 ≤ p → p ≤ 53 → (g : ℕ) × (get_elem? power_to_g (p + 2 - 10) ≡ some g) × (g % 8 ≡ 5)
generator p low high = all_five_lem power_to_g (p + 2 - 10) refl (omega arith)

start-Round :
    (p g k : ℕ) → p ≤ 53 → g % 8 ≡ 5 → k < 2 ^ p → Round p p 1 k 0 ((g - 1) / 4) k ((g - 1) / 4) g k
start-Round p g k high five lt = record {
  size = omega arith;
  small = high;
  pos = omega arith;
  up_lem = omega arith;
  up-lt = lt;
  x-lt = omega arith;
  gpow_lem = omega arith;
  odd = λ pos. omega (arith, five);
  power =
      ap (λ t. t % (4 * 2 ^ p)) (pow-suc g 0 ∙ (omega (arith, five, ap (λ t. t * g) (pow-zero g))));
  product = ap (λ t. t % (4 * 2 ^ p)) (ap (λ t. (1 + 4 * k) * t) (pow-zero g) ∙ (omega arith));
}

log_body :
    (p k g x : ℕ)
    → 8 ≤ p
    → p ≤ 53
    → k < 2 ^ p
    → get_elem? power_to_g (p + 2 - 10) ≡ some g
    → log_loop p (p + 1) k 0 1 ((g - 1) / 4) ≡ some x
    → discrete_log p k ≡ some (2 ^ p - x)
unfolding discrete_log
log_body p k g x low high lt entry loop = ground (arith, entry, loop)

-- Two numbers with the same inverse are the same.
cancel : (m a b k : ℕ) → Cong m (k * b) 1 → Cong m (a * b) 1 → Cong m a k
cancel m a b k e f =
    let swap : a * (k * b) ≡ k * (a * b) = grind arith in
    ap (λ t. t % m) (sym (mul-one a))
    ∙ sym (Cong-mul m a a (k * b) 1 refl e)
    ∙ ap (λ t. t % m) swap
    ∙ Cong-mul m k k (a * b) 1 refl f
    ∙ ap (λ t. t % m) (mul-one k)

-- For a power of two with an entry in the table (2 ^ 8 to 2 ^ 53) and an argument below it, it returns a
-- number from 1 to the power, and the table's entry raised to it is one more than four times the
-- argument, modulo four times the power.
pub discrete_log_lem :
    (p k : ℕ)
    → 8 ≤ p
    → p ≤ 53
    → k < 2 ^ p
    → (g : ℕ) × (r : ℕ) × (get_elem? power_to_g (p + 2 - 10) ≡ some g)
      × (discrete_log p k ≡ some r)
      × (0 < r)
      × (r ≤ 2 ^ p)
      × (g ^ r % (4 * 2 ^ p) ≡ 1 + 4 * k)
discrete_log_lem p k low high lt =
    let gen = generator p low high in
    let g = gen.0 in
    let s =
      log_loop-Solved p p 1 k 0 ((g - 1) / 4) k ((g - 1) / 4) g k
        (start-Round p g k high gen.2 lt) in
    let x = s.value in
    let r = 2 ^ p - x in
    let m = 4 * 2 ^ p in
    let cap : x < 2 ^ p = s.value-lt in
    let total : r + x ≡ 2 ^ p = omega (arith, cap) in
    let unit : Cong m (g ^ 1) (1 + 4 * 1 * ((g - 1) / 4)) =
      ap (λ t. t % m) (pow-suc g 0 ∙ (omega (arith, gen.2, ap (λ t. t * g) (pow-zero g)))) in
    let order : Cong m (g ^ (1 * 2 ^ p)) 1 = Cong-order p 1 ((g - 1) / 4) g m (omega arith) unit in
    let whole : g ^ r * g ^ x ≡ g ^ (1 * 2 ^ p) =
      sym (pow-add g r x) ∙ ap (λ t. g ^ t) (total ∙ (omega arith)) in
    let fuel : p + 1 ≡ suc p = omega arith in
    (
      g,
      r,
      gen.1,
      log_body p k g x low high lt gen.1
          (ap (λ n. log_loop p n k 0 1 ((g - 1) / 4)) fuel ∙ s.value_lem),
      omega (arith, cap),
      omega arith,
      cancel m (g ^ r) (g ^ x) (1 + 4 * k) s.product (ap (λ t. t % m) whole ∙ order)
          ∙ mod-eq_of_lt (omega arith),
    )

-- For a power of two with an entry in the table, different arguments below it have different results.
pub discrete_log-ne :
    (p k l : ℕ)
    → 8 ≤ p
    → p ≤ 53
    → k < 2 ^ p
    → l < 2 ^ p
    → k ≢ l
    → discrete_log p k ≢ discrete_log p l
discrete_log-ne p k l low high ltk ltl ne e =
    let (g, r, ge, re, _, _, eq) = discrete_log_lem p k low high ltk in
    let (h, s, he, se, _, _, eq') = discrete_log_lem p l low high ltl in
    let same : g ≡ h = some-injective g h (sym ge ∙ he) in
    let same' : r ≡ s = some-injective r s (sym re ∙ e ∙ se) in
    let last : 1 + 4 * k ≡ 1 + 4 * l = sym eq ∙ ap₂ (λ a b. a ^ b % (4 * 2 ^ p)) same same' ∙ eq' in
    ne (omega arith)
