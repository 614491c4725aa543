-- ===== src/Linear/Threads/Tests.antt =====
-- A run of two threads over one table of index/linear_probing.h.
use hash_bench.Common.{
  ℕ, suc, ◌+◌, ◌≡◌, refl, true, some, List, [], ◌∷◌, get_elem?, arith, inl, ◌%◌, ◌^◌, ◌*◌, ◌⊎◌,
  zero, subst, ap, get_elem?-replicate,
}
use mathlib.Core.Option.{some-injective}
use hash_bench.Probe.{has}
use hash_bench.Linear.Threads.Balance.{given, IsWeight}
use hash_bench.Linear.Threads.Load.{inserts, IsDone, load_lem}
use hash_bench.Linear.Threads.Invariant.{Invariant, Reach-Invariant}
use hash_bench.Linear.Threads.Sizes.{resizes}
use hash_bench.Linear.Threads.Progress.{progress}
use hash_bench.Linear.Threads.Marks.{All}
use hash_bench.Linear.Threads.Reads.{get-whole}
use hash_bench.Common.Totals.{total}
use hash_bench.Examples.{number_key, fractions}
use hash_bench.Dict.{Pair, write_key, write_value, hit}
use hash_bench.Linear.{Table, new, below_threshold}
use hash_bench.Linear.Threads.{
  Step, probing, seeking, idle, get, Call, insert, search, Thread, pass, below, lock_stripe, empty,
  copy_key, copy_value, load_size, cas_size, leave, lock_slot, matches, System, call, run, finish,
  Reach, here, next, begin_all,
}

abbrev fresh : Table ℕ
fresh = new 4

abbrev pair : ℕ → ℕ → Pair ℕ
pair k v = record { key = k; value = v }

abbrev jobs : List (List (Call ℕ))
jobs = (insert (pair 5 50) ∷ []) ∷ (search (get 5) ∷ []) ∷ []

abbrev loaded : System ℕ
loaded = record {
  table = record fresh { dict = pair 0 77 ∷ pair 5 50 ∷ pair 0 77 ∷ pair 0 77 ∷ []; size = 1 };
  threads =
      record { todo = []; pc = idle; replaced = []; updated = []; answers = [] }
      ∷ record { todo = []; pc = idle; replaced = []; updated = []; answers = pair 5 50 ∷ [] }
      ∷ [];
}

-- Thread 0 stores its entry while thread 1 waits for the stripe to read it.
loaded-Reach : Reach fresh jobs loaded
unfolding new below_threshold write_key write_value total
loaded-Reach =
    let r0 : Reach fresh jobs (record { table = fresh; threads = begin_all jobs }) = here in
    let r1 = next r0 (call 0 refl refl refl) in
    let r2 = next r1 (call 1 refl refl refl) in
    let r3 = next r2 (run 0 refl (pass refl)) in
    let r4 = next r3 (run 1 refl (pass refl)) in
    let r5 = next r4 (run 0 refl (below refl)) in
    let r6 = next r5 (run 0 refl (lock_stripe (omega arith) (refl, refl))) in
    let r7 = next r6 (run 0 refl (empty refl refl)) in
    let r8 = next r7 (run 0 refl (copy_key refl)) in
    let r9 = next r8 (run 0 refl copy_value) in
    let r10 = next r9 (run 0 refl load_size) in
    let r11 = next r10 (run 0 refl (cas_size refl)) in
    let r12 = next r11 (run 0 refl leave) in
    let r13 = next r12 (run 1 refl (lock_slot (omega arith) refl)) in
    let r14 = next r13 (run 1 refl (matches refl refl)) in next r14 (finish 1 refl refl refl)

loaded-IsDone : IsDone loaded.threads
unfolding IsDone
loaded-IsDone zero th e =
    subst (λ (x : Thread ℕ). (x.todo ≡ []) × (x.pc ≡ idle)) (some-injective _ th e) (refl, refl)
loaded-IsDone (suc zero) th e =
    subst (λ (x : Thread ℕ). (x.todo ≡ []) × (x.pc ≡ idle)) (some-injective _ th e) (refl, refl)
loaded-IsDone (suc (suc i)) th e = cc

-- The weight that counts the entries with key 5
abbrev fives : Pair ℕ → ℕ
fives = hit 5

fives-IsWeight : IsWeight fives
fives-IsWeight q e = ground (arith, e)

load_lem_example :
    (total fives loaded.table.dict
        + total (λ (th : Thread ℕ). total fives th.replaced) loaded.threads
      ≡ total fives fresh.dict
        + total (total (given fives)) jobs
        + total (λ (th : Thread ℕ). total fives th.updated) loaded.threads)
    × (1 % 2 ^ 64 ≡ (fresh.size + total (total inserts) jobs) % 2 ^ 64)
load_lem_example =
    load_lem fives fresh jobs loaded fives-IsWeight (unfold new in omega arith) loaded-Reach
      loaded-IsDone

-- An entry whose value is ten times its key
abbrev Tenfold : Pair ℕ → Type 0
Tenfold q = q.value ≡ 10 * q.key

empty-Tenfold :
    (i : ℕ) (q : Pair ℕ) → get_elem? fresh.dict i ≡ some q → (has 0 q ≡ true) ⊎ Tenfold q
unfolding new
empty-Tenfold i q e =
    inl (ap (has 0) (some-injective q (pair 0 77) (get_elem?-replicate 4 (pair 0 77) i e)))

get-whole_example : All Tenfold (pair 5 50 ∷ [])
get-whole_example =
    get-whole Tenfold fresh jobs loaded (unfold new in omega arith) ((refl, tt), ((refl, tt), tt))
      empty-Tenfold loaded-Reach 1 _ refl

Reach-Invariant_example : Invariant loaded
Reach-Invariant_example = Reach-Invariant fresh jobs loaded (unfold new in omega arith) loaded-Reach

-- Thread 1 waits for the stripe that thread 0 holds.
abbrev waiting : System ℕ
waiting = record {
  table = fresh;
  threads =
      record { todo = []; pc = probing (pair 5 50) 0 0; replaced = []; updated = []; answers = [] }
      ∷ record { todo = []; pc = seeking (get 5) 0; replaced = []; updated = []; answers = [] }
      ∷ [];
}

waiting-Reach : Reach fresh jobs waiting
unfolding new below_threshold total
waiting-Reach =
    let r0 : Reach fresh jobs (record { table = fresh; threads = begin_all jobs }) = here in
    let r1 = next r0 (call 0 refl refl refl) in
    let r2 = next r1 (call 1 refl refl refl) in
    let r3 = next r2 (run 0 refl (pass refl)) in
    let r4 = next r3 (run 1 refl (pass refl)) in
    let r5 = next r4 (run 0 refl (below refl)) in
    next r5 (run 0 refl (lock_stripe (omega arith) (refl, refl)))

waiting_resizes :
    (i : ℕ) (th : Thread ℕ) → get_elem? waiting.threads i ≡ some th → resizes th.pc ≡ 0
waiting_resizes zero th e = subst (λ (x : Thread ℕ). resizes x.pc ≡ 0) (some-injective _ th e) refl
waiting_resizes (suc zero) th e =
    subst (λ (x : Thread ℕ). resizes x.pc ≡ 0) (some-injective _ th e) refl
waiting_resizes (suc (suc i)) th e = cc

progress_example :
    (waiting.table.resizing_lock ≡ 0)
    × (IsDone waiting.threads ⊎ ((s' : System ℕ) × Step waiting s'))
progress_example =
    progress fresh jobs waiting (unfold new in omega arith) (unfold new in omega arith)
      (unfold new in refl) (unfold new in refl) waiting-Reach waiting_resizes
