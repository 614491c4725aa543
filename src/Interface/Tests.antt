-- ===== src/Interface/Tests.antt =====
-- The clients of the tables on a small input, and their theorems at examples.
use hash_bench.Common.{
  length, ◌+◌, ℕ, ◌^◌, ◌≡◌, refl, arith, false, none, some, List, [], ◌∷◌, drop,
}
use native.Mathlib.Nat.{dvd-mul_left}
use hash_bench.Examples.{number_key, fractions}
use hash_bench.Dict.{Pair, count, find, write_value}
use hash_bench.Probe.{search}
use hash_bench.Key.{Key}
use hash_bench.Key.Bytes.{byte_key}
use hash_bench.Word.{u64}
use hash_bench.Linear
use hash_bench.Linear.View as LinearView
use hash_bench.Interface.Client.{
  finished, Op, op_insert, op_read, op_update, insert_all, microbench, hashtable_test, exec,
}
use hash_bench.Interface.Input.{gen_input, gen_input-IsDistinct}
use hash_bench.Interface.Loops.{IsDistinct, Models}
use hash_bench.Interface.Tables.{
  linear, hash_of, get_instance, get_instance-Models, type_linear_hash, type_cuckoo_hash,
}
use hash_bench.Interface.Passes.{none-IsAbsent, microbench-Models, hashtable_test_lem}
use hash_bench.Interface.Refinement.{exec_map, exec-exec_map}
use hash_bench.Interface.Load.{insert_all_returns, linear-microbench-Models}

abbrev linear_table : Linear.Table ℕ
linear_table = Linear.new 4

linear_table-Models : Models linear (λ (k : ℕ). none) linear_table
linear_table-Models = LinearView.new-Models 4 (omega arith) (dvd-mul_left 4 (2 ^ 62))

gen_input-IsDistinct_example : IsDistinct (gen_input 25)
gen_input-IsDistinct_example = gen_input-IsDistinct 25 refl

loaded : (t : Linear.Table ℕ) × (insert_all linear linear_table (gen_input 25) ≡ some t)
unfolding Linear.new
loaded =
    let (t, run, held) =
      insert_all_returns (λ (k : ℕ). none) linear_table (gen_input 25) linear_table-Models
        (gen_input-IsDistinct 25 refl) (none-IsAbsent (gen_input 25)) (omega arith) (omega arith)
        (omega arith) in
    (t, run)

microbench-Models_example :
    (t : Linear.Table ℕ) × (microbench linear linear_table (gen_input 25) false ≡ some (finished t))
    × Models linear (λ k. find k (drop 1 (gen_input 25))) t
microbench-Models_example =
    microbench-Models linear linear_table (gen_input 25) linear_table-Models
      (gen_input-IsDistinct 25 refl) loaded.1 tt

hashtable_test_lem_example : hashtable_test linear 3 linear_table (gen_input 25) ≡ some 0
hashtable_test_lem_example =
    hashtable_test_lem linear 2 linear_table (gen_input 25) linear_table-Models
      (gen_input-IsDistinct 25 refl) loaded.1 tt

get_instance-Models_example :
    Models (hash_of {K = ℕ} 9 type_cuckoo_hash) (λ k. none) (get_instance ℕ 9 type_cuckoo_hash)
get_instance-Models_example = get_instance-Models ℕ 9 type_cuckoo_hash

linear-microbench-Models_example :
    (t : Linear.Table ℕ) × (microbench linear
        (get_instance ℕ 9 type_linear_hash)
        (gen_input 40)
        false
      ≡ some (finished t))
    × Models linear (λ k. find k (drop 2 (gen_input 40))) t
linear-microbench-Models_example =
    linear-microbench-Models ℕ 9 (gen_input 40) (gen_input-IsDistinct 40 refl) (omega arith)

-- Keys of four bytes, hashed by util/hash.h, with the sum of seed and length for `std::_Hash_bytes`.
instance abbrev four_bytes : Key (List ℕ)
four_bytes = byte_key (λ key seed. u64 (seed + length key)) (λ key seed. omega arith) 4 77

abbrev words : List (Pair (List ℕ))
words =
    record { key = 97 ∷ 98 ∷ 99 ∷ 0 ∷ []; value = 1 }
    ∷ record { key = 97 ∷ 98 ∷ 100 ∷ 0 ∷ []; value = 2 }
    ∷ []

words-IsDistinct : IsDistinct words
unfolding count
words-IsDistinct = (refl, refl, (refl, refl, tt))

words_pass :
    (t : Linear.Table (List ℕ)) × (microbench linear
        (get_instance (List ℕ) 9 type_linear_hash)
        words
        false
      ≡ some (finished t))
    × Models linear (λ k. find k words) t
words_pass = linear-microbench-Models (List ℕ) 9 words words-IsDistinct (omega arith)

abbrev pair : ℕ → ℕ → Pair ℕ
pair k v = record { key = k; value = v }

-- Key 9 is not there when it is read first.
abbrev workload : List (Op × Pair ℕ)
workload =
    (op_insert, pair 5 50)
    ∷ (op_read, pair 9 0)
    ∷ (op_insert, pair 9 90)
    ∷ (op_update, pair 5 51)
    ∷ (op_read, pair 5 0)
    ∷ []

abbrev after_workload : Linear.Table ℕ
after_workload = record linear_table {
  dict = pair 0 77 ∷ pair 5 51 ∷ pair 9 90 ∷ pair 0 77 ∷ [];
  size = 2;
}

workload_runs : exec linear linear_table workload ≡ some (1, after_workload)
unfolding Linear.new Linear.is_int Linear.int_rounds Linear.find_slot Linear.locate Linear.get
    Linear.update Linear.store Linear.below_threshold Linear.insert_round Linear.insert search exec
    write_value
workload_runs = refl

exec-exec_map_example :
    ◌≡◌ {A = ℕ} 1 (exec_map (λ (k : ℕ). none) workload).0
    × Models linear (exec_map (λ (k : ℕ). none) workload).1 after_workload
exec-exec_map_example =
    exec-exec_map linear (λ k. none) linear_table workload linear_table-Models
      (refl, refl, (refl, (refl, refl, (refl, (refl, tt))))) workload_runs tt
