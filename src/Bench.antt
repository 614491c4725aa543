-- ===== src/Bench.antt =====
-- `latency` and `mixed` of bench/benchmark.hpp, and the load of test/hashtable_test.cpp: the calls
-- that each thread makes, over the array of pairs after `gen_input` and the shuffle. Clocks and
-- printed lines are left out.
pub mod Parts
pub mod Latency
pub mod Input
mod Tests
use hash_bench.Common.{
  ℕ, zero, suc, ◌+◌, ◌*◌, ◌/◌, ◌%◌, Option, none, some, List, [], ◌∷◌, ◌++◌, length, take, drop,
  if◌then◌else◌, leb, ltb,
}
use hash_bench.Dict.{Pair}
use hash_bench.Interface.Client.{chunk}
use hash_bench.Linear.Threads.{Search, get, update, delete, Call, insert, search}

module _ {ℓ} {K : Type ℓ} where
  abbrev pub inserts_of : List (Pair K) → List (Call K)
  inserts_of [] = []
  inserts_of (p ∷ ps) = insert p ∷ inserts_of ps

  -- `latency_func`: the calls of thread `thread_id`.
  unfoldable pub latency_func : ℕ → List (Pair K) → ℕ → List (Call K)
  latency_func num_threads init_kv thread_id =
      let chunk = length init_kv / num_threads in
      inserts_of (take chunk (drop (chunk * thread_id) init_kv))

  -- `n` threads from `thread_id` on, as `start_threads` starts them.
  unfoldable pub latency_threads : ℕ → List (Pair K) → ℕ → ℕ → List (List (Call K))
  latency_threads num_threads init_kv zero thread_id = []
  latency_threads num_threads init_kv (suc n) thread_id =
      latency_func num_threads init_kv thread_id
      ∷ latency_threads num_threads init_kv n (thread_id + 1)

  -- The threads of test/hashtable_test.cpp that insert, `n` of them from thread `i` on.
  unfoldable pub test_inserts : ℕ → List (Pair K) → ℕ → ℕ → List (List (Call K))
  test_inserts num_threads input zero i = []
  test_inserts num_threads input (suc n) i =
      inserts_of (chunk num_threads i input) ∷ test_inserts num_threads input n (i + 1)

  -- The pairs from `idx` to `idx + 1000`; `none`: the loop reads behind the array.
  unfoldable pub window : List (Pair K) → ℕ → Option (List (Pair K))
  window init_kv idx =
      if leb (idx + 1000) (length init_kv) then some (take 1000 (drop idx init_kv)) else none

  abbrev pub searches_of : (Pair K → Search K) → List (Pair K) → List (Call K)
  searches_of o [] = []
  searches_of o (p ∷ ps) = search (o p) ∷ searches_of o ps

  -- What a round that does not insert does with each pair.
  abbrev pub chosen : ℕ → Pair K → Search K
  chosen r p =
      if ltb r (15 + 50)
      then get p.key
      else if ltb r (15 + 50 + 25)
      then update p.key p.value
      else delete p.key

  -- The loop of `mixed_func`, with the rounds left and the number of those done; `rand` gives the
  -- number that round `i` draws.
  unfoldable pub mixed_loop :
      List (Pair K) → (ℕ → ℕ) → ℕ → ℕ → (insert_idx search_idx : ℕ) → Option (List (Call K))
  mixed_loop init_kv rand zero i insert_idx search_idx = some []
  mixed_loop init_kv rand (suc n) i insert_idx search_idx =
      let r = rand i % 100 in
      let after_insert = mixed_loop init_kv rand n (i + 1) (insert_idx + 1000) search_idx in
      let after_search = mixed_loop init_kv rand n (i + 1) insert_idx (search_idx + 1000) in
      if ltb r 15
      then elim (window init_kv insert_idx) [
        | none ↦ none
        | some ps ↦ elim after_insert [ none ↦ none | some calls ↦ some (inserts_of ps ++ calls) ]
      ]
      else elim (window init_kv search_idx) [
        | none ↦ none
        | some ps ↦ elim after_search [
          | none ↦ none
          | some calls ↦ some (searches_of (chosen r) ps ++ calls)
        ]
      ]

  -- `mixed_func`: a round is 1000 pairs, also where less is left of the thread's part.
  unfoldable pub mixed_func : ℕ → List (Pair K) → ℕ → (ℕ → ℕ) → Option (List (Call K))
  mixed_func num_threads init_kv thread_id rand =
      let warmup = length init_kv / 2 in
      let chunk = warmup / num_threads in
      let from = chunk * thread_id in
      mixed_loop init_kv rand ((chunk + 999) / 1000) 0 (warmup + from) from
