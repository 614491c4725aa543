-- ===== src/DiscreteLog/Tests.antt =====
-- `discrete_log` of bench/utils.h at known arguments, and its theorems at examples.
use hash_bench.Common.{
  ℕ, ◌+◌, ◌-◌, ◌*◌, ◌%◌, ◌^◌, ◌≤◌, ◌<◌, ◌≡◌, refl, arith, Option, none, some, List, [], ◌∷◌,
  get_elem?,
}
use hash_bench.DiscreteLog.{power_to_g, log_loop, discrete_log}
use hash_bench.DiscreteLog.Correct.{discrete_log_lem}

-- The first results of the shuffle of the 1024 numbers below 2 ^ 10.
abbrev first_results : List (Option ℕ)
first_results = discrete_log 10 0 ∷ discrete_log 10 1 ∷ discrete_log 10 2 ∷ discrete_log 10 3 ∷ []

first_results_lem : first_results ≡ some 1024 ∷ some 461 ∷ some 782 ∷ some 355 ∷ []
unfolding discrete_log log_loop
first_results_lem = refl

-- The assertion on the argument.
too_large : discrete_log 10 1024 ≡ none
unfolding discrete_log
too_large = refl

discrete_log_lem_example :
    (g : ℕ) × (r : ℕ) × (get_elem? power_to_g (20 + 2 - 10) ≡ some g)
    × (discrete_log 20 777777 ≡ some r)
    × (0 < r)
    × (r ≤ 2 ^ 20)
    × (g ^ r % (4 * 2 ^ 20) ≡ 1 + 4 * 777777)
discrete_log_lem_example = discrete_log_lem 20 777777 (omega arith) (omega arith) (omega arith)
