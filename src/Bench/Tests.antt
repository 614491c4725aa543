-- ===== src/Bench/Tests.antt =====
-- Runs of `latency` and `mixed` of bench/benchmark.hpp on small inputs.
use mathlib.Core.Option.{some-injective}
use hash_bench.Common.{
  ℕ, zero, suc, ◌+◌, ◌*◌, ◌/◌, ◌%◌, ◌^◌, ◌≤◌, ◌≡◌, refl, some, List, [], ◌∷◌, arith, subst, length,
  take, drop, replicate,
}
use hash_bench.Common.Totals.{total}
use hash_bench.Examples.{number_key, fractions}
use hash_bench.Dict.{Pair, write_key, write_value, hit}
use hash_bench.Linear.{Table, new, below_threshold}
use hash_bench.Linear.Threads.{
  idle, Call, Thread, pass, below, lock_stripe, empty, go_on, copy_key, copy_value, load_size,
  cas_size, leave, System, call, run, Reach, here, next, begin_all,
}
use hash_bench.Linear.Threads.Balance.{given, IsWeight}
use hash_bench.Linear.Threads.Load.{IsDone}
use hash_bench.Bench.{latency_func, latency_threads, test_inserts, mixed_func}
use hash_bench.Bench.Parts.{mixed_func-some}
use hash_bench.Bench.Latency.{latency-total}
use hash_bench.Bench.Input.{test_inserts-total}
use hash_bench.Interface.Client.{chunk}

abbrev pair : ℕ → ℕ → Pair ℕ
pair k v = record { key = k; value = v }

abbrev init_kv : List (Pair ℕ)
init_kv = pair 5 50 ∷ pair 9 90 ∷ pair 6 60 ∷ []

abbrev jobs : List (List (Call ℕ))
jobs = latency_threads 2 init_kv 2 0

abbrev fresh : Table ℕ
fresh = new 4

abbrev ended : Thread ℕ
ended = record { todo = []; pc = idle; replaced = []; updated = []; answers = [] }

-- Keys 5 and 9 start at slot 1; the third pair is no thread's.
abbrev loaded : System ℕ
loaded = record {
  table = record fresh { dict = pair 0 77 ∷ pair 5 50 ∷ pair 9 90 ∷ pair 0 77 ∷ []; size = 2 };
  threads = ended ∷ ended ∷ [];
}

-- Thread 1 passes the threshold test before thread 0 has stored its pair, and waits for the stripe.
loaded-Reach : Reach fresh jobs loaded
unfolding new below_threshold write_key write_value latency_threads latency_func total
loaded-Reach =
    let r0 : Reach fresh jobs (record { table = fresh; threads = begin_all jobs }) = here in
    let r1 = next r0 (call 0 refl refl refl) in
    let r2 = next r1 (call 1 refl refl refl) in
    let r3 = next r2 (run 0 refl (pass refl)) in
    let r4 = next r3 (run 1 refl (pass refl)) in
    let r5 = next r4 (run 0 refl (below refl)) in
    let r6 = next r5 (run 1 refl (below refl)) in
    let r7 = next r6 (run 0 refl (lock_stripe (omega arith) (refl, refl))) in
    let r8 = next r7 (run 0 refl (empty refl refl)) in
    let r9 = next r8 (run 0 refl (copy_key refl)) in
    let r10 = next r9 (run 0 refl copy_value) in
    let r11 = next r10 (run 0 refl load_size) in
    let r12 = next r11 (run 0 refl (cas_size refl)) in
    let r13 = next r12 (run 0 refl leave) in
    let r14 = next r13 (run 1 refl (lock_stripe (omega arith) (refl, refl))) in
    let r15 = next r14 (run 1 refl (go_on refl refl (omega arith) (λ e. cc))) in
    let r16 = next r15 (run 1 refl (empty refl refl)) in
    let r17 = next r16 (run 1 refl (copy_key refl)) in
    let r18 = next r17 (run 1 refl copy_value) in
    let r19 = next r18 (run 1 refl load_size) in
    let r20 = next r19 (run 1 refl (cas_size refl)) in next r20 (run 1 refl leave)

loaded-IsDone : IsDone loaded.threads
unfolding IsDone
loaded-IsDone zero th e =
    subst (λ (x : Thread ℕ). (x.todo ≡ []) × (x.pc ≡ idle)) (some-injective ended th e) (refl, refl)
loaded-IsDone (suc zero) th e =
    subst (λ (x : Thread ℕ). (x.todo ≡ []) × (x.pc ≡ idle)) (some-injective ended th e) (refl, refl)
loaded-IsDone (suc (suc i)) th e = cc

abbrev nines : Pair ℕ → ℕ
nines = hit 9

nines-IsWeight : IsWeight nines
nines-IsWeight q e = ground (arith, e)

latency-total_example :
    (total nines loaded.table.dict ≡ total nines (take (3 / 2 * 2) init_kv))
    × (2 % 2 ^ 64 ≡ 3 / 2 * 2 % 2 ^ 64)
latency-total_example =
    latency-total nines 4 2 init_kv loaded nines-IsWeight loaded-Reach loaded-IsDone

abbrev two : List (Pair ℕ)
two = pair 5 50 ∷ pair 9 90 ∷ []

-- The same calls as those of `latency`, for an input without the third pair.
two-Reach : Reach fresh (test_inserts 2 two 2 0) loaded
unfolding latency_threads latency_func test_inserts chunk
two-Reach = loaded-Reach

test_inserts-total_example :
    (total nines loaded.table.dict ≡ total nines two) × (2 % 2 ^ 64 ≡ length two % 2 ^ 64)
test_inserts-total_example =
    test_inserts-total nines 4 1 two loaded nines-IsWeight two-Reach loaded-IsDone

abbrev many : List (Pair ℕ)
many = replicate 2000 (pair 5 50)

mixed_func-some_example :
    (calls : List (Call ℕ)) × (mixed_func 1 many 0 (λ i. 7 + i) ≡ some calls)
    × (length calls ≡ length many / 2 / 1)
    × (total (given (λ (p : Pair ℕ). p.value)) calls
        ≤ total
            (λ (p : Pair ℕ). p.value)
            (take (length many / 2 / 1) (drop (length many / 2 + length many / 2 / 1 * 0) many)))
mixed_func-some_example =
    mixed_func-some (λ (p : Pair ℕ). p.value) 1 many 0 (λ i. 7 + i) (omega arith) refl
