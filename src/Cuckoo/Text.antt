-- ===== src/Cuckoo/Text.antt =====
-- The variants of `find_path`, `execute_path`, `insert4resize` and `Insert` in index/cuckoo_hash.h
-- for keys of more than 8 bytes, whose paths keep each key as a `std::string`: what stands in front
-- of the first NUL. A key and a string are lists of bytes.
pub mod Paths
pub mod Growth
pub mod Insert
mod Tests
use hash_bench.Common.{
  ℕ, zero, suc, ◌+◌, ◌/◌, ◌⊎◌, inl, inr, Bool, true, false, ◌&&◌, ◌||◌, not, Option, none, some,
  List, [], ◌∷◌, ◌++◌, length, get_elem?, set, if◌then◌else◌, ◌==◌, ltb,
}
use hash_bench.Key.{Key, is_invalid}
use hash_bench.Dict.{Pair, new_array, write_key, write_value}
use hash_bench.Probe.{passes, has}
use hash_bench.Float.{FloatOps}
use hash_bench.GenericKey.{strcmp, is_eq}
use hash_bench.Cuckoo.{
  Table, Walk, terribly_wrong, too_long, reached, append_step, f_idx, s_idx, other_slot,
  cuckoo_threshold, max_grows,
}
use hash_bench.Cuckoo.Growth.{grown, is_empty, choose_push}

-- `string(key)`; `none`: there is no NUL, and it reads behind the key.
unfoldable pub string_of : List ℕ → Option (List ℕ)
string_of [] = none
string_of (zero ∷ xs) = some []
string_of (suc x ∷ xs) = elim (string_of xs) [ none ↦ none | some w ↦ some (suc x ∷ w) ]

-- `memcmp(path1[0].second.c_str(), INVALID<Key_t>, sizeof(Key_t)) == 0`: the bytes of the string
-- decide unless it is empty. `zeros` is what `memcmp` finds behind the NUL of an empty string.
abbrev pub starts_empty : Bool → List (ℕ × List ℕ) → Bool
starts_empty zeros [] = false
starts_empty zeros ((s, []) ∷ path) = zeros
starts_empty zeros ((s, x ∷ w) ∷ path) = false

module _ ⦃key : Key (List ℕ)⦄ where
  unfoldable pub choose_text : Bool → List (ℕ × List ℕ) → List (ℕ × List ℕ) → List (ℕ × List ℕ)
  choose_text zeros path1 path2 =
      if (is_empty path1
        || (not (is_empty path2) && ltb (length path2) (length path1))
        || (not (is_empty path2) && starts_empty zeros path1))
      then path2
      else path1

  -- The loop of `find_path(target, flag)`, with the rounds left.
  unfoldable pub walk_text : ℕ → List (Pair (List ℕ)) → ℕ → ℕ → Walk (List ℕ)
  walk_text capacity table zero cur = too_long
  walk_text capacity table (suc n) cur = elim (get_elem? table cur) [
    | none ↦ terribly_wrong
    | some p ↦ elim (is_invalid p.key) [
      | true ↦ reached []
      | false ↦ elim (other_slot capacity p.key cur) [
        | none ↦ terribly_wrong
        | some next ↦ elim (get_elem? table next) [
          | none ↦ terribly_wrong
          | some q ↦ elim (string_of q.key) [
            | none ↦ terribly_wrong
            | some w ↦ append_step next w (walk_text capacity table n next)
          ]
        ]
      ]
    ]
  ]

  unfoldable pub find_text : Table (List ℕ) → ℕ → Option (List (ℕ × List ℕ))
  find_text t target = elim (get_elem? t.table target) [
    | none ↦ none
    | some p ↦ elim (string_of p.key) [
      | none ↦ none
      | some w ↦ elim (walk_text t.capacity t.table cuckoo_threshold target) [
        | terribly_wrong ↦ none
        | too_long ↦ some []
        | reached path ↦ some ((target, w) ∷ path)
      ]
    ]
  ]

  -- The two `memcpy`s that write a pair into a slot.
  abbrev pub write_pair : List (Pair (List ℕ)) → ℕ → List ℕ → ℕ → List (Pair (List ℕ))
  write_pair table s k v = write_value (write_key table s k) s v

  abbrev pub copy_text : List (Pair (List ℕ)) → ℕ → ℕ → List (Pair (List ℕ))
  copy_text table to from = elim (get_elem? table from) [
    | none ↦ table
    | some p ↦ write_pair table to p.key p.value
  ]

  unfoldable pub shift_text : List (Pair (List ℕ)) → List (ℕ × List ℕ) → List (Pair (List ℕ))
  shift_text table [] = table
  shift_text table (a ∷ []) = table
  shift_text table (a ∷ b ∷ path) = copy_text (shift_text table (b ∷ path)) b.0 a.0

  -- `execute_path(path, key, value, flag)`
  unfoldable pub execute_insert_text :
      List (Pair (List ℕ)) → List (ℕ × List ℕ) → List ℕ → ℕ → List (Pair (List ℕ))
  execute_insert_text table [] k v = table
  execute_insert_text table (a ∷ path) k v = write_pair (shift_text table (a ∷ path)) a.0 k v

  -- The loop of `execute_path(path, flag)`: `cur` is `pushed[i]`, `other` is `pushed[j]`.
  unfoldable pub push_text :
      List (Pair (List ℕ))
      → List (ℕ × List ℕ)
      → Pair (List ℕ)
      → Pair (List ℕ)
      → List (Pair (List ℕ)) × Pair (List ℕ) × Pair (List ℕ)
  push_text table [] cur other = (table, cur, other)
  push_text table (a ∷ path) cur other = elim (get_elem? table a.0) [
    | none ↦ (table, cur, other)
    | some p ↦
        push_text (write_pair table a.0 cur.key cur.value) path
          (record { key = p.key; value = p.value }) cur
  ]

  abbrev pub even_text : List (ℕ × List ℕ) → Bool
  even_text [] = true
  even_text (a ∷ path) = not (even_text path)

  unfoldable pub execute_push_text : Table (List ℕ) → List (ℕ × List ℕ) → Table (List ℕ)
  execute_push_text t path =
      let (table, cur, other) = push_text t.table path t.pushed_0 t.pushed_1 in
      let even = even_text path in
      record t {
        table = table;
        pushed_0 = if even then cur else other;
        pushed_1 = if even then other else cur;
      }

  unfoldable pub insert4resize_text :
      Table (List ℕ) → Pair (List ℕ) → Option (Bool × Table (List ℕ))
  insert4resize_text t p =
      let f = f_idx t.capacity p.key in
      let s = s_idx t.capacity p.key in
      if passes (has key.invalid) t.table f
      then some (true, record t { table = write_pair t.table f p.key p.value })
      else if passes (has key.invalid) t.table s
      then some (true, record t { table = write_pair t.table s p.key p.value })
      else elim (find_text t f) [
        | none ↦ none
        | some path1 ↦ elim (find_text t s) [
          | none ↦ none
          | some path2 ↦
              let t' = record t { pushed_0 = p } in
              if is_empty path1 && is_empty path2
              then some (false, t')
              else some (true, execute_push_text t' (choose_push path1 path2))
        ]
      ]

  -- `strcmp(table[p.first].key, p.second.c_str()) != 0` for no element; `none`: `strcmp` reads
  -- behind a key.
  unfoldable pub validate_text : List (Pair (List ℕ)) → List (ℕ × List ℕ) → Option Bool
  validate_text table [] = some true
  validate_text table ((s, w) ∷ path) = elim (get_elem? table s) [
    | none ↦ none
    | some p ↦ elim (strcmp p.key (w ++ 0 ∷ [])) [
      | none ↦ none
      | some o ↦ elim (is_eq o) [ true ↦ validate_text table path | false ↦ some false ]
    ]
  ]
