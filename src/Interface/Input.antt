-- ===== src/Interface/Input.antt =====
-- `gen_input` of util/pair.h for keys of at most 8 bytes.
use hash_bench.Common.{
  ℕ, zero, suc, ◌+◌, ◌<◌, ◌≡◌, ◌≢◌, refl, arith, false, Bool-cases, inl, inr, List, [], ◌∷◌,
}
use hash_bench.Key.{Key, ◌≐◌}
use hash_bench.Dict.{Pair, count}
use hash_bench.Interface.Loops.{IsDistinct}

-- The pairs that the loop writes from index `i` on, with `num` rounds to go.
abbrev pub gen_input_from : ℕ → ℕ → List (Pair ℕ)
gen_input_from zero i = []
gen_input_from (suc num) i = record { key = i + 1; value = i + 1 } ∷ gen_input_from num (i + 1)

abbrev pub gen_input : ℕ → List (Pair ℕ)
gen_input num = gen_input_from num 0

module _ ⦃key : Key ℕ⦄ where
  ≐_ne : (a b : ℕ) → a ≢ b → (a ≐ b) ≡ false
  ≐_ne a b ne = elim (Bool-cases (a ≐ b)) [
    | inl same ↦ absurd (ne ((key.same_iff a b).0 same))
    | inr other ↦ other
  ]

  count-gen_input_from : (num i k : ℕ) → k < i + 1 → count k (gen_input_from num i) ≡ 0
  unfolding count
  count-gen_input_from zero i k lt = refl
  count-gen_input_from (suc num) i k lt =
      ground (
        arith,
        ≐_ne (i + 1) k (omega (arith, lt)),
        count-gen_input_from num (i + 1) k (omega arith),
      )

  gen_input_from-IsDistinct : (num i : ℕ) → key.invalid ≡ 0 → IsDistinct (gen_input_from num i)
  gen_input_from-IsDistinct zero i e = tt
  gen_input_from-IsDistinct (suc num) i e = (
    ≐_ne (i + 1) key.invalid (omega (arith, e)),
    count-gen_input_from num (i + 1) (i + 1) (omega arith),
    gen_input_from-IsDistinct num (i + 1) e,
  )

  -- For keys that are numbers, of which 0 is the invalid one, the input has valid keys only, each one
  -- once.
  pub gen_input-IsDistinct : (num : ℕ) → key.invalid ≡ 0 → IsDistinct (gen_input num)
  gen_input-IsDistinct num e = gen_input_from-IsDistinct num 0 e
