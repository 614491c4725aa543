-- ===== src/Bench/Input.antt =====
-- The load of test/hashtable_test.cpp, with the threads interleaved over one table of linear probing.
use mathlib.Core.Option.{some-injective}
use hash_bench.Common.{
  ℕ, zero, suc, ◌+◌, ◌-◌, ◌*◌, ◌/◌, ◌%◌, ◌^◌, ◌≡◌, ◌∙◌, refl, ap, subst, true, false, List, arith,
  length, take, drop, drop-drop, ◌==◌,
}
use hash_bench.Common.Totals.{total}
use hash_bench.Key.{Key}
use hash_bench.Dict.{Pair}
use hash_bench.Float.{FloatOps}
use hash_bench.Linear.{new}
use hash_bench.Interface.Client.{chunk}
use hash_bench.Linear.Threads.{System, Reach, begin, begin_all}
use hash_bench.Linear.Threads.Balance.{given, IsWeight}
use hash_bench.Linear.Threads.Load.{IsDone}
use hash_bench.Bench.{inserts_of, test_inserts}
use hash_bench.Bench.Parts.{total-split, total-inserts_of}
use hash_bench.Bench.Latency.{AllOnly, OnlyInserts, inserts_of-Inserts, insert_only-total, ones}

module _ {ℓ} {K : Type ℓ} where
  -- The chunks from thread `i` on are the rest of the input.
  total-test_inserts :
      (f : Pair K → ℕ) (input : List (Pair K)) (num_threads n i : ℕ)
      → i + suc n ≡ num_threads
      → total (total (given f)) (test_inserts num_threads input (suc n) i)
        ≡ total f (drop (length input / num_threads * i) input)
  unfolding test_inserts chunk total
  total-test_inserts f input m zero i e =
      let rest = drop (length input / m * i) input in
      let last : (i == m - 1) ≡ true = ground arith in
      let mine = total-inserts_of f rest in rw last (omega arith)
  total-test_inserts f input m (suc n) i e =
      let c = length input / m in
      let rest = drop (c * i) input in
      let inner : (i == m - 1) ≡ false = ground arith in
      let mine = total-inserts_of f (take c rest) in
      let others = total-test_inserts f input m n (i + 1) (omega arith) in
      let next : c * (i + 1) ≡ c * i + c = grind arith in
      let after = ap (λ x. total f (drop x input)) next in
      let split = total-split f c rest in
      let tail = ap (total f) (drop-drop c (c * i) input) in rw inner (omega arith)

module _ {ℓ} {K : Type ℓ} ⦃key : Key K⦄ ⦃fl : FloatOps⦄ where
  test_inserts-AllOnly :
      (m : ℕ) (input : List (Pair K)) (n i : ℕ) → AllOnly (begin_all (test_inserts m input n i))
  unfolding test_inserts AllOnly OnlyInserts
  test_inserts-AllOnly m input zero i j th e = cc
  test_inserts-AllOnly m input (suc n) i zero th e =
      subst OnlyInserts (some-injective (begin (inserts_of (chunk m i input))) th e)
        (inserts_of-Inserts (chunk m i input), tt, refl, refl)
  test_inserts-AllOnly m input (suc n) i (suc j) th e =
      test_inserts-AllOnly m input n (i + 1) j th e

  -- Let the threads of test/hashtable_test.cpp that insert, one or more, run over a new table of
  -- linear probing, interleaved in any way, without a resize, until all have returned. Then the
  -- array holds, by any weight of entries that gives an empty slot 0, what the whole input weighs,
  -- and `size` is the number of its pairs, modulo 2 ^ 64.
  pub test_inserts-total :
      (f : Pair K → ℕ) (c n : ℕ) (input : List (Pair K)) (s : System K)
      → IsWeight f
      → Reach (new c) (test_inserts (suc n) input (suc n) 0) s
      → IsDone s.threads
      → (total f s.table.dict ≡ total f input) × (s.table.size % 2 ^ 64 ≡ length input % 2 ^ 64)
  test_inserts-total f c n input s w r done =
      let m = suc n in
      let jobs = test_inserts m input m 0 in
      let (sum, count) = insert_only-total f c jobs s w (test_inserts-AllOnly m input m 0) r done in
      let from : length input / m * 0 ≡ 0 = omega arith in
      let brought = total-test_inserts f input m n 0 (omega arith) in
      let counted = total-test_inserts (λ p. 1) input m n 0 (omega arith) in
      let whole = ap (λ x. total f (drop x input)) from in
      let whole' = ap (λ x. total (λ (p : Pair K). 1) (drop x input)) from in
      let size = ones input in (sum ∙ brought ∙ whole, omega arith)
