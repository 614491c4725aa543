-- ===== src/Interface/Passes.antt =====
-- The programs of bench/benchmark.hpp and test/hashtable_test.cpp over the record of
-- index/interface.h.
use hash_bench.Common.{
  ℕ, zero, suc, ◌+◌, ◌-◌, ◌*◌, ◌/◌, ◌≤◌, ◌≡◌, ◌∙◌, refl, sym, ap, arith, inl, inr, true, false,
  Bool-cases, Option-cases, Option, none, some, List, [], ◌∷◌, length, take, drop, ◌==◌,
}
use hash_bench.Key.{Key}
use hash_bench.Dict.{Pair, value_or_none, find}
use hash_bench.Interface.{Hash}
use hash_bench.Interface.Client.{
  finished, insert_all, microbench, microbench_changes, search, chunk, insert_threads,
  search_threads, hashtable_test,
}
use hash_bench.Interface.Loops.{
  IsDistinct, IsStored, IsAbsent, find-IsStored, extend, Models, insert_all-Models, get_all_lem,
  update_all_lem, delete_all_lem,
}

module _ {ℓ} {K : Type ℓ} ⦃key : Key K⦄ where
  drop-drop : (i j n : ℕ) (ps : List (Pair K)) → i + j ≡ n → drop j (drop i ps) ≡ drop n ps
  drop-drop zero j n ps e = ap (λ t. drop t ps) (omega (arith, e))
  drop-drop (suc i) j zero ps e = let no : 1 ≤ 0 = omega (arith, e) in elim no [ ]
  drop-drop (suc i) zero (suc n) [] e = refl
  drop-drop (suc i) (suc j) (suc n) [] e = refl
  drop-drop (suc i) j (suc n) (p ∷ ps) e = drop-drop i j n ps (omega (arith, e))

  pub none-IsAbsent : (ps : List (Pair K)) → IsAbsent (λ k. none) ps
  none-IsAbsent [] = tt
  none-IsAbsent (p ∷ ps) = (refl, none-IsAbsent ps)

  extend-none : (ps : List (Pair K)) (k : K) → extend (λ k. none) ps k ≡ find k ps
  extend-none ps k = elim (Option-cases (find k ps)) [
    | inl e ↦ ground (arith, e)
    | inr (v, e) ↦ ground (arith, e)
  ]

  IsStored-take :
      (m : K → Option ℕ) (n : ℕ) (ps : List (Pair K)) → IsStored m ps → IsStored m (take n ps)
  IsStored-take m zero ps s = tt
  IsStored-take m (suc n) [] s = tt
  IsStored-take m (suc n) (p ∷ ps) (valid, e, s) = (valid, e, IsStored-take m n ps s)

  IsStored-drop :
      (m : K → Option ℕ) (n : ℕ) (ps : List (Pair K)) → IsStored m ps → IsStored m (drop n ps)
  IsStored-drop m zero ps s = s
  IsStored-drop m (suc n) [] s = tt
  IsStored-drop m (suc n) (p ∷ ps) (valid, e, s) = IsStored-drop m n ps s

  module _ (h : Hash K) where
    loaded-Models :
        (t : h.Table) (ps : List (Pair K)) {t' : h.Table}
        → Models h (λ k. none) t
        → IsDistinct ps
        → insert_all h t ps ≡ some t'
        → h.IsSmall t'
        → Models h (λ k. find k ps) t'
    loaded-Models t ps v d e small =
        let next = insert_all-Models h (λ k. none) t ps v d (none-IsAbsent ps) e small in
        (next.0, λ k n. next.1 k n ∙ extend-none ps k)

    -- On an empty table, with pairs of different valid keys, where the calls of `Insert` return and
    -- leave a table that has not outgrown its promises: `microbench` comes to its end, no assertion
    -- fails, and the table holds the pairs that it has not deleted.
    pub microbench-Models :
        (t : h.Table) (ps : List (Pair K)) {t₁ : h.Table}
        → Models h (λ k. none) t
        → IsDistinct ps
        → insert_all h t ps ≡ some t₁
        → h.IsSmall t₁
        → (t₂ : h.Table) × (microbench h t ps false ≡ some (finished t₂))
          × Models h (λ k. find k (drop (length ps / 20) ps)) t₂
    unfolding microbench microbench_changes
    microbench-Models t ps {t₁} v d e small =
        let held = loaded-Models t ps v d e small in
        let stored = find-IsStored ps d in
        let got = get_all_lem h (λ k. find k ps) t₁ ps held stored in
        let (t₂, f, held₂) =
          update_all_lem h (λ k. find k ps) t₁ (take (length ps / 30) ps) held
            (IsStored-take (λ k. find k ps) (length ps / 30) ps stored) in
        let (t₃, g, held₃) = delete_all_lem h (length ps / 20) t₂ ps held₂ d in
        (t₃, rw (microbench, e, got, microbench_changes, f) g, held₃)

    search_lem :
        (m : K → Option ℕ) (t : h.Table) (ps : List (Pair K))
        → Models h m t
        → IsStored m ps
        → search h t ps ≡ some 0
    unfolding search
    search_lem m t [] v s = refl
    search_lem m t (p ∷ ps) v (valid, e, s) =
        let read : h.get t p.key ≡ some p.value =
          h.get-view p.key v.0 valid ∙ ap (λ o. some (value_or_none o)) (v.1 p.key valid ∙ e) in
        let same : (p.value == p.value) ≡ true = ground arith in
        rw (search, read, search_lem m t ps v s, same) refl

    search_threads_lem :
        (m : K → Option ℕ) (t : h.Table) (input : List (Pair K)) (num_threads n i : ℕ)
        → Models h m t
        → IsStored m input
        → search_threads h num_threads n i t input ≡ some 0
    unfolding search_threads chunk
    search_threads_lem m t input num_threads zero i v s = refl
    search_threads_lem m t input num_threads (suc n) i v s =
        let c = length input / num_threads in
        let rest = IsStored-drop m (c * i) input s in
        let mine : IsStored m (chunk num_threads i input) =
          elim (Bool-cases (i == num_threads - 1)) [
            | inl e ↦ rw (chunk, e) rest
            | inr e ↦ rw (chunk, e) (IsStored-take m c (drop (c * i) input) rest)
          ] in
        rw
          (
            search_threads,
            search_lem m t (chunk num_threads i input) v mine,
            search_threads_lem m t input num_threads n (i + 1) v s,
          )
          refl

    abbrev then_insert : Option h.Table → List (Pair K) → Option h.Table
    then_insert o ps = elim o [ none ↦ none | some t ↦ insert_all h t ps ]

    insert_all_split :
        (c : ℕ) (t : h.Table) (ps : List (Pair K))
        → insert_all h t ps ≡ then_insert (insert_all h t (take c ps)) (drop c ps)
    unfolding insert_all
    insert_all_split zero t ps = refl
    insert_all_split (suc c) t [] = refl
    insert_all_split (suc c) t (p ∷ ps) = elim (Option-cases (h.insert t p.key p.value)) [
      | inl e ↦ rw (insert_all, e) refl
      | inr (t₁, e) ↦ rw (insert_all, e) (insert_all_split c t₁ ps)
    ]

    -- The threads insert what is left of the input.
    insert_threads-insert_all :
        (n i : ℕ) (num_threads : ℕ) (t : h.Table) (input : List (Pair K))
        → i + suc n ≡ num_threads
        → insert_threads h num_threads (suc n) i t input
          ≡ insert_all h t (drop (length input / num_threads * i) input)
    unfolding insert_threads chunk
    insert_threads-insert_all zero i num_threads t input e =
        let last : (i == num_threads - 1) ≡ true = ground arith in
        let rest = drop (length input / num_threads * i) input in
        elim (Option-cases (insert_all h t rest)) [
          | inl f ↦ rw (insert_threads, chunk, last, f) refl
          | inr (t₁, f) ↦ rw (insert_threads, chunk, last, f) refl
        ]
    insert_threads-insert_all (suc n) i num_threads t input e =
        let earlier : (i == num_threads - 1) ≡ false = ground arith in
        let c = length input / num_threads in
        let rest = drop (c * i) input in
        let next : drop c rest ≡ drop (c * (i + 1)) input =
          drop-drop (c * i) c (c * (i + 1)) input (grind arith) in
        let whole = insert_all_split c t rest in
        elim (Option-cases (insert_all h t (take c rest))) [
          | inl f ↦
              let run : insert_threads h num_threads (suc (suc n)) i t input ≡ none =
                rw (insert_threads, chunk, earlier, f) refl in
              run ∙ sym (whole ∙ ap (λ o. then_insert o (drop c rest)) f)
          | inr (t₁, f) ↦
              let run : insert_threads h num_threads (suc (suc n)) i t input
                  ≡ insert_threads h num_threads (suc n) (i + 1) t₁ input =
                rw (insert_threads, chunk, earlier, f) refl in
              run
              ∙ insert_threads-insert_all n (i + 1) num_threads t₁ input (omega (arith, e))
              ∙ ap (insert_all h t₁) (sym next)
              ∙ sym (whole ∙ ap (λ o. then_insert o (drop c rest)) f)
        ]

    -- On an empty table, with pairs of different valid keys and at least one thread, where the calls
    -- of `Insert` return in the order of the array and leave a table that has not outgrown its
    -- promises: the program, whose threads run one after the other, ends and reports no failed search.
    pub hashtable_test_lem :
        (n : ℕ) (t : h.Table) (input : List (Pair K)) {t₁ : h.Table}
        → Models h (λ k. none) t
        → IsDistinct input
        → insert_all h t input ≡ some t₁
        → h.IsSmall t₁
        → hashtable_test h (suc n) t input ≡ some 0
    unfolding hashtable_test
    hashtable_test_lem n t input {t₁} v d e small =
        let held = loaded-Models t input v d e small in
        let first : length input / suc n * 0 ≡ 0 = omega arith in
        let start : drop (length input / suc n * 0) input ≡ input = ap (λ i. drop i input) first in
        let inserted : insert_threads h (suc n) (suc n) 0 t input ≡ some t₁ =
          insert_threads-insert_all n 0 (suc n) t input (omega arith)
          ∙ ap (insert_all h t) start
          ∙ e in
        rw (hashtable_test, inserted)
          (search_threads_lem (λ k. find k input) t₁ input (suc n) (suc n) 0 held
            (find-IsStored input d))
