-- ===== src/Interface/Client.antt =====
-- Clients of the tables: `microbench` of bench/benchmark.hpp and the program of
-- test/hashtable_test.cpp. `key_values` is the array after `gen_input` and the shuffle.
use hash_bench.Common.{
  ℕ, zero, suc, ◌+◌, ◌-◌, ◌*◌, ◌/◌, Bool, true, false, Option, none, some, List, [], ◌∷◌, length,
  take, drop, if◌then◌else◌, ◌==◌,
}
use hash_bench.Key.{Key}
use hash_bench.Dict.{Pair}
use hash_bench.Interface.{Hash}

-- How `microbench` ends: at its end, or in an `assert`.
pub data Outcome {ℓ} (T : Type ℓ) : Type ℓ where
  finished : T → Outcome T
  assertion_failed : Outcome T

-- `enum` of util/config.h
pub data Op : Type 0 where
  op_insert : Op
  op_read : Op
  op_update : Op
  op_delete : Op

-- The part of the input that thread `i` of `num_threads` gets; the last one takes the rest.
unfoldable pub chunk {ℓ} : {A : Type ℓ} → ℕ → ℕ → List A → List A
chunk num_threads i input =
    let chunk_size = length input / num_threads in
    let rest = drop (chunk_size * i) input in
    if i == num_threads - 1 then rest else take chunk_size rest

module _ {ℓ} {K : Type ℓ} ⦃key : Key K⦄ (h : Hash K) where
  -- `hashtable->Insert(init_kv[i].key, init_kv[i].value)` for each pair
  unfoldable pub insert_all : h.Table → List (Pair K) → Option h.Table
  insert_all t [] = some t
  insert_all t (p ∷ ps) = elim (h.insert t p.key p.value) [
    | none ↦ none
    | some t' ↦ insert_all t' ps
  ]

  -- The loop of `Get` and `assert`: whether each assertion holds.
  unfoldable pub get_all : h.Table → List (Pair K) → Option Bool
  get_all t [] = some true
  get_all t (p ∷ ps) = elim (h.get t p.key) [
    | none ↦ none
    | some ret ↦ elim (ret == p.value) [ true ↦ get_all t ps | false ↦ some false ]
  ]

  unfoldable pub update_all : h.Table → List (Pair K) → Option (Outcome h.Table)
  update_all t [] = some (finished t)
  update_all t (p ∷ ps) = elim (h.update t p.key p.value) [
    | none ↦ none
    | some (true, t') ↦ update_all t' ps
    | some (false, t') ↦ some assertion_failed
  ]

  unfoldable pub delete_all : h.Table → List (Pair K) → Option (Outcome h.Table)
  delete_all t [] = some (finished t)
  delete_all t (p ∷ ps) = elim (h.delete t p.key) [
    | none ↦ none
    | some (true, t') ↦ delete_all t' ps
    | some (false, t') ↦ some assertion_failed
  ]

  -- The updates and what follows them.
  unfoldable pub microbench_changes : h.Table → List (Pair K) → Option (Outcome h.Table)
  microbench_changes t key_values =
      let init_num = length key_values in
      elim (update_all t (take (init_num / 30) key_values)) [
        | none ↦ none
        | some assertion_failed ↦ some assertion_failed
        | some (finished t') ↦ delete_all t' (take (init_num / 20) key_values)
      ]

  -- `int init_num` is the number of pairs, which is taken to be below 2 ^ 31.
  unfoldable pub microbench :
      h.Table → List (Pair K) → (insert_only : Bool) → Option (Outcome h.Table)
  microbench hashtable key_values insert_only = elim (insert_all hashtable key_values) [
    | none ↦ none
    | some t ↦ elim insert_only [
      | true ↦ some (finished t)
      | false ↦ elim (get_all t key_values) [
        | none ↦ none
        | some false ↦ some assertion_failed
        | some true ↦ microbench_changes t key_values
      ]
    ]
  ]

  -- `search`: the number of keys that do not read their value.
  unfoldable pub search : h.Table → List (Pair K) → Option ℕ
  search t [] = some 0
  search t (p ∷ ps) = elim (h.get t p.key) [
    | none ↦ none
    | some ret ↦ elim (search t ps) [
      | none ↦ none
      | some failed ↦ some (if ret == p.value then failed else failed + 1)
    ]
  ]

  -- The threads that insert, each after the one before it, `n` of them from thread `i` on.
  unfoldable pub insert_threads : ℕ → ℕ → ℕ → h.Table → List (Pair K) → Option h.Table
  insert_threads num_threads zero i t input = some t
  insert_threads num_threads (suc n) i t input = elim (insert_all t (chunk num_threads i input)) [
    | none ↦ none
    | some t' ↦ insert_threads num_threads n (i + 1) t' input
  ]

  -- The threads that search, and the sum of `fail`.
  unfoldable pub search_threads : ℕ → ℕ → ℕ → h.Table → List (Pair K) → Option ℕ
  search_threads num_threads zero i t input = some 0
  search_threads num_threads (suc n) i t input = elim (search t (chunk num_threads i input)) [
    | none ↦ none
    | some failed ↦ elim (search_threads num_threads n (i + 1) t input) [
      | none ↦ none
      | some failed_search ↦ some (failed + failed_search)
    ]
  ]

  -- `main`, with `failedSearch` as its result; `none` also for the division by no threads.
  unfoldable pub hashtable_test : ℕ → h.Table → List (Pair K) → Option ℕ
  hashtable_test zero hashtable input = none
  hashtable_test (suc n) hashtable input = elim (insert_threads (suc n) (suc n) 0 hashtable input) [
    | none ↦ none
    | some t ↦ search_threads (suc n) (suc n) 0 t input
  ]

  -- The loop of `exec_func` in `ycsb_exec`, with the number of lines "not found".
  unfoldable pub exec : h.Table → List (Op × Pair K) → Option (ℕ × h.Table)
  exec t [] = some (0, t)
  exec t ((op_insert, p) ∷ ops) = elim (h.insert t p.key p.value) [
    | none ↦ none
    | some t' ↦ exec t' ops
  ]
  exec t ((op_read, p) ∷ ops) = elim (h.get t p.key) [
    | none ↦ none
    | some ret ↦ elim (exec t ops) [
      | none ↦ none
      | some (lines, t') ↦ some (if ret == 0 then lines + 1 else lines, t')
    ]
  ]
  exec t ((op_update, p) ∷ ops) = elim (h.update t p.key p.value) [
    | none ↦ none
    | some (found, t') ↦ exec t' ops
  ]
  exec t ((op_delete, p) ∷ ops) = exec t ops
