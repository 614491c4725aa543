-- ===== src/DiscreteLog/Loop.antt =====
-- The loop of `discrete_log` of bench/utils.h, from its first round to its test.
use native.Mathlib.Nat.{pow-zero, mul-le-mul_left, mod-eq_of_lt}
use hash_bench.Common.{
  ℕ, zero, suc, ◌+◌, ◌*◌, ◌/◌, ◌%◌, ◌^◌, ◌≤◌, ◌<◌, ◌≡◌, ◌∙◌, inl, inr, refl, sym, ap, ap₂, subst,
  arith, Bool, true, false, Option, some, if◌then◌else◌, ◌==◌, ==_iff, Bool-cases,
}
use hash_bench.Word.{u64}
use hash_bench.DiscreteLog.{masked, log_loop}
use hash_bench.Word.Powers.{pow-pos, Cong}
use hash_bench.DiscreteLog.Masks.{join}
use hash_bench.DiscreteLog.Rounds.{Round, radix-lt, bit_lem, set-Round, clear-Round}

-- The loop's result: the power that inverts `1 + 4 * k`.
pub record Solved (p base k : ℕ) (o : Option ℕ) : Type 0 where
  pub value : ℕ
  pub value_lem : o ≡ some value
  pub value-lt : value < 2 ^ p
  pub product : Cong (4 * 2 ^ p) ((1 + 4 * k) * base ^ value) 1

-- A round by the two tests it makes.
abbrev round_body : (done set : Bool) (p n up x radix gpow : ℕ) → Option ℕ
round_body done set p n up x radix gpow = elim done [
  | true ↦ some x
  | false ↦
      log_loop p n (if set then masked p (join up gpow) else up)
        (if set then u64 (x + radix) else x) (u64 (radix * 2)) (masked p (join gpow gpow))
]

log_loop_lem :
    (p n up x radix gpow : ℕ)
    → log_loop p (suc n) up x radix gpow
      ≡ round_body (up == 0) (up / radix % 2 == 1) p n up x radix gpow
unfolding log_loop
log_loop_lem p n up x radix gpow = refl

zero-Solved :
    (n : ℕ) {p m radix up x gpow a c base k : ℕ}
    → Round p m radix up x gpow a c base k
    → up ≡ 0
    → Solved p base k (log_loop p (suc n) up x radix gpow)
zero-Solved n {p} {m} {radix} {up} {x} {gpow} {base} {k} r zero_up =
    let le : radix * 1 ≤ radix * 2 ^ m = mul-le-mul_left radix (pow-pos m) in
    record {
      value = x;
      value_lem =
          log_loop_lem p n up x radix gpow
          ∙ ap (λ b. round_body b (up / radix % 2 == 1) p n up x radix gpow)
              ((==_iff up 0).1 zero_up);
      value-lt = omega (arith, le, r.size, r.x-lt);
      product = r.product ∙ ap (λ t. (1 + 4 * t) % (4 * 2 ^ p)) zero_up;
    }

-- One round for each bit left and one for the test are enough.
pub log_loop-Solved :
    (n p radix up x gpow a c base k : ℕ)
    → Round p n radix up x gpow a c base k
    → Solved p base k (log_loop p (suc n) up x radix gpow)
log_loop-Solved zero p radix up x gpow a c base k r =
    let none_left : a ≡ 0 = omega (arith, r.up-lt, pow-zero 2) in
    zero-Solved 0 r (r.up_lem ∙ ap (λ t. radix * t) none_left ∙ (omega arith))
log_loop-Solved (suc n) p radix up x gpow a c base k r =
    let lt : radix * 2 < 2 ^ 64 = radix-lt r in
    let shift : u64 (radix * 2) ≡ radix * 2 = mod-eq_of_lt lt in
    let add : u64 (x + radix) ≡ x + radix = mod-eq_of_lt (omega (arith, r.x-lt, lt)) in
    elim (Bool-cases (up == 0)) [
      | inl e ↦ zero-Solved (suc n) r ((==_iff up 0).0 e)
      | inr e ↦ elim (Bool-cases (up / radix % 2 == 1)) [
        | inl f ↦
            let step : log_loop p (suc (suc n)) up x radix gpow
                ≡ log_loop p (suc n) (masked p (join up gpow)) (x + radix) (radix * 2)
                    (masked p (join gpow gpow)) =
              log_loop_lem p (suc n) up x radix gpow
              ∙ ap₂ (λ s t. round_body s t p (suc n) up x radix gpow) e f
              ∙ ap₂
                  (λ s t.
                    log_loop p (suc n) (masked p (join up gpow)) s t (masked p (join gpow gpow)))
                  add shift in
            subst (λ o. Solved p base k o) (sym step)
              (log_loop-Solved n p (radix * 2) _ _ _ _ _ base k
                (set-Round r (sym (bit_lem r) ∙ (==_iff (up / radix % 2) 1).0 f)))
        | inr f ↦
            let step : log_loop p (suc (suc n)) up x radix gpow
                ≡ log_loop p (suc n) up x (radix * 2) (masked p (join gpow gpow)) =
              log_loop_lem p (suc n) up x radix gpow
              ∙ ap₂ (λ s t. round_body s t p (suc n) up x radix gpow) e f
              ∙ ap (λ t. log_loop p (suc n) up x t (masked p (join gpow gpow))) shift in
            let bit : a % 2 ≡ 0 = ground (arith, bit_lem r, (==_iff (up / radix % 2) 1).1, f) in
            subst (λ o. Solved p base k o) (sym step)
              (log_loop-Solved n p (radix * 2) _ _ _ _ _ base k (clear-Round r bit))
      ]
    ]
