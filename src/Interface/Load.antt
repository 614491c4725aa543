-- ===== src/Interface/Load.antt =====
-- Runs of `Insert` of index/linear_probing.h, as the loops of bench/benchmark.hpp make them.
use hash_bench.Common.{
  ℕ, ◌+◌, ◌*◌, ◌/◌, ◌^◌, ◌≤◌, ◌<◌, ◌∣◌, ◌≡◌, ◌∙◌, refl, sym, subst, inl, inr, true, false, Option,
  none, some, List, [], ◌∷◌, length, drop, arith, dec_lt, leb,
}
use hash_bench.Word.Powers.{double-dvd, even_divisor}
use hash_bench.Key.{Key}
use hash_bench.Dict.{Pair, assign, find}
use hash_bench.Dict
use hash_bench.Float.{FloatOps}
use hash_bench.Linear.{Table, new, below_threshold}
use hash_bench.Linear.View.{view, IsValid, Models}
use hash_bench.Linear.Insert.{insert-Grows}
use hash_bench.Interface.Client.{finished, insert_all, microbench}
use hash_bench.Interface.Tables.{linear, type_linear_hash, get_instance, get_instance-Models}
use hash_bench.Interface.Passes.{none-IsAbsent, microbench-Models}
use hash_bench.Interface.Loops.{Models as ModelsOf, IsDistinct, IsAbsent, assign-IsAbsent}

module _ {ℓ} {K : Type ℓ} ⦃key : Key K⦄ ⦃fl : FloatOps⦄ where
  -- A table that is too full for the threshold has more than half of its slots counted.
  pub crowded :
      (t : Table K)
      → IsValid t
      → 1 < t.capacity
      → below_threshold t ≡ false
      → t.capacity < 2 * t.size
  unfolding below_threshold
  crowded t v several full = elim (dec_lt t.capacity (2 * t.size)) [
    | yes lt ↦ lt
    | no not_lt ↦
        let even : t.capacity ≡ 2 * (t.capacity / 2) = even_divisor t.capacity v.power several in
        let below : below_threshold t ≡ true =
          subst
            (λ c. fl.less (fl.of_size t.size) (fl.times (fl.of_size c) (fl.literal 95 100)) ≡ true)
            (sym even)
            (fl.lt-less t.size (t.capacity / 2) 95 100 (omega arith) (omega arith) (omega arith)
              (omega arith)) in
        let no : true ≡ false = sym below ∙ full in cc
  ]

  -- `Insert` of each pair in turn returns, and leaves a table of at most 2 ^ 30 slots, where the
  -- keys are valid, different and not in the valid table, its capacity is from 2 to 2 ^ 30, and
  -- four times the number of pairs counted in the end is at most 2 ^ 30.
  pub insert_all_returns :
      (m : K → Option ℕ) (t : Table K) (ps : List (Pair K))
      → Models m t
      → IsDistinct ps
      → IsAbsent m ps
      → 1 < t.capacity
      → t.capacity ≤ 2 ^ 30
      → 4 * (t.size + length ps) ≤ 2 ^ 30
      → (t' : Table K) × (insert_all linear t ps ≡ some t') × (t'.capacity ≤ 2 ^ 30)
  unfolding insert_all
  insert_all_returns m t [] v d a several fits budget = (t, refl, fits)
  insert_all_returns m t (p ∷ ps) (v, reads) (valid, c, d) (absent, a) several fits budget =
      let twice : 2 * t.capacity ∣ 2 ^ 64 = double-dvd t.capacity v.power (omega (arith, fits)) in
      let (t₁, e, (v₁, reads₁), (size, capacity)) =
        insert-Grows p.key p.value v valid (reads p.key valid ∙ absent) twice
          (omega (arith, fits)) in
      let several' : 1 < t₁.capacity = ground (arith, capacity) in
      let fits' : t₁.capacity ≤ 2 ^ 30 = elim capacity [
        | inl same ↦ omega (arith, same, fits)
        | inr (full, double) ↦ omega (arith, double, crowded t v several full, budget)
      ] in
      let le : leb t.capacity (2 ^ 60) ≡ true = ground (arith, fits) in
      let (t', rest, held) =
        insert_all_returns (assign m p.key (some p.value)) t₁ ps
          (v₁, λ q n. reads₁ q n ∙ Dict.assign_congr (view t) m p.key (some p.value) q (reads q n))
          d (assign-IsAbsent m p.key (some p.value) ps c a) several' fits'
          (omega (arith, size, budget)) in
      (t', rw (insert_all, le, e) rest, held)

module _ {ℓ} (K : Type ℓ) ⦃key : Key K⦄ ⦃fl : FloatOps⦄ where
  -- With the table of `getInstance` for linear probing and up to 2 ^ 28 pairs of different valid
  -- keys, which the `int`s of `microbench` and of the table hold, `microbench` comes to its end,
  -- no assertion fails, and the table holds the pairs that it has not deleted.
  pub linear-microbench-Models :
      (fuel : ℕ) (ps : List (Pair K))
      → IsDistinct ps
      → length ps ≤ 2 ^ 28
      → (t : Table K) × (microbench linear (get_instance K fuel type_linear_hash) ps false
          ≡ some (finished t))
        × ModelsOf linear (λ k. find k (drop (length ps / 20) ps)) t
  unfolding new
  linear-microbench-Models fuel ps d few =
      let v = get_instance-Models K fuel type_linear_hash in
      let (t₁, e, held) =
        insert_all_returns (λ k. none) (get_instance K fuel type_linear_hash) ps v d
          (none-IsAbsent ps) (omega arith) (omega arith) (omega (arith, few)) in
      microbench-Models linear (get_instance K fuel type_linear_hash) ps v d e tt
