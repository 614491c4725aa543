-- ===== src/Cuckoo/Growth.antt =====
-- `insert4resize`, `resize` and `Insert` of index/cuckoo_hash.h.
use hash_bench.Common.{
  ℕ, zero, suc, ◌+◌, ◌/◌, ◌⊎◌, inl, inr, Bool, true, false, ◌&&◌, ◌||◌, not, Option, none, some,
  List, [], ◌∷◌, length, set, if◌then◌else◌, ◌==◌, ltb,
}
use hash_bench.Key.{Key, is_invalid}
use hash_bench.Dict.{Pair, new_array}
use hash_bench.Probe.{passes, has}
use hash_bench.Float.{FloatOps}
use hash_bench.Cuckoo.{Table, f_idx, s_idx, find_path, execute_insert, execute_push, max_grows}

-- `capacity * kResizingFactor`
unfoldable pub grown : ⦃fl : FloatOps⦄ → ℕ → ℕ
grown ⦃fl⦄ capacity = fl.to_size (fl.times (fl.of_size capacity) (fl.literal 12 10))

module _ {ℓ} {K : Type ℓ} ⦃key : Key K⦄ where
  -- The key of the first element, where there is one, is the invalid key.
  abbrev pub starts_invalid : List (ℕ × K) → Bool
  starts_invalid [] = false
  starts_invalid ((s, k) ∷ path) = is_invalid k

  abbrev pub is_empty : List (ℕ × K) → Bool
  is_empty [] = true
  is_empty (a ∷ path) = false

  -- Which path `Insert` takes, where at least one is not empty.
  unfoldable pub choose_path : List (ℕ × K) → List (ℕ × K) → List (ℕ × K)
  choose_path path1 path2 =
      if (is_empty path1
        || (not (is_empty path2) && ltb (length path2) (length path1))
        || (not (is_empty path2) && starts_invalid path1))
      then path2
      else path1

  -- Which path `insert4resize` takes.
  unfoldable pub choose_push : List (ℕ × K) → List (ℕ × K) → List (ℕ × K)
  choose_push path1 path2 =
      if is_empty path1
      then path2
      else if is_empty path2
      then path1
      else if ltb (length path1) (length path2)
      then path1
      else path2

  -- Every slot of the path still has the key that `find_path` saw.
  unfoldable pub validate : List (Pair K) → List (ℕ × K) → Bool
  validate table [] = true
  validate table ((s, k) ∷ path) = passes (has k) table s && validate table path

  -- `insert4resize`: whether the pair is in, and the table after it.
  unfoldable pub insert4resize : Table K → Pair K → Option (Bool × Table K)
  insert4resize t p =
      let f = f_idx t.capacity p.key in
      let s = s_idx t.capacity p.key in
      if passes (has key.invalid) t.table f
      then some (true, record t { table = set t.table f p })
      else if passes (has key.invalid) t.table s
      then some (true, record t { table = set t.table s p })
      else elim (find_path t f) [
        | none ↦ none
        | some path1 ↦ elim (find_path t s) [
          | none ↦ none
          | some path2 ↦
              let t' = record t { pushed_0 = p } in
              if is_empty path1 && is_empty path2
              then some (false, t')
              else some (true, execute_push t' (choose_push path1 path2))
        ]
      ]

  -- One round of the loop over the old table.
  unfoldable pub reinsert_one : Table K → Pair K → Option (Bool × Table K)
  reinsert_one t p = if is_invalid p.key then some (true, t) else insert4resize t p

  -- The loop stops at the first entry that does not fit.
  unfoldable pub reinsert : List (Pair K) → Table K → Option (Bool × Table K)
  reinsert [] t = some (true, t)
  reinsert (p ∷ ps) t = elim (reinsert_one t p) [
    | none ↦ none
    | some (success, t') ↦ elim success [ true ↦ reinsert ps t' | false ↦ some (false, t') ]
  ]

  module _ ⦃fl : FloatOps⦄ where
    -- The loop of `resize` with the rounds left; after `kMaxGrows` failures it is `exit(1)`.
    unfoldable pub resize_loop : ℕ → Table K → Option (Table K)
    resize_loop zero t = none
    resize_loop (suc n) t =
        let capacity = grown t.capacity in
        elim (reinsert t.old_tab (record t { capacity = capacity; table = new_array capacity })) [
          | none ↦ none
          | some (success, t') ↦ elim success [ true ↦ some t' | false ↦ resize_loop n t' ]
        ]

    -- `resize`; the old table stays in `old_tab`.
    unfoldable pub resize : Table K → Option (Table K)
    resize t = elim (resize_loop max_grows (record t { old_cap = t.capacity; old_tab = t.table })) [
      | none ↦ none
      | some t' ↦ some (record t' { nlocks = t'.capacity / t'.locksize + 1 })
    ]

    -- One pass from `RETRY` on: `inr` has returned, `inl` goes back to `RETRY`. A path whose keys
    -- have changed would be searched for again, with the same outcome: `none`.
    unfoldable pub insert_round : Table K → K → ℕ → Option (Table K ⊎ Table K)
    insert_round t k v =
        let f = f_idx t.capacity k in
        let s = s_idx t.capacity k in
        let p : Pair K = record { key = k; value = v } in
        if passes (has key.invalid) t.table f
        then some (inr (record t { table = set t.table f p }))
        else if passes (has key.invalid) t.table s
        then some (inr (record t { table = set t.table s p }))
        else elim (find_path t f) [
          | none ↦ none
          | some path1 ↦ elim (find_path t s) [
            | none ↦ none
            | some path2 ↦
                let path = choose_path path1 path2 in
                if is_empty path1 && is_empty path2
                then elim (resize (record t { resizing_lock = 1 })) [
                  | none ↦ none
                  | some t' ↦ some (inl (record t' { resizing_lock = 0 }))
                ]
                else if validate t.table path
                then some (inr (record t { table = execute_insert t.table path k v }))
                else none
          ]
        ]

    -- `Insert`, with fuel for the passes.
    unfoldable pub insert : ℕ → Table K → K → ℕ → Option (Table K)
    insert zero t k v = none
    insert (suc f) t k v =
        if t.resizing_lock == 0
        then elim (insert_round t k v) [
          | none ↦ none
          | some (inl t') ↦ insert f t' k v
          | some (inr t') ↦ some t'
        ]
        else none
