-- ===== src/Cuckoo.antt =====
-- index/cuckoo_hash.h: two hash functions, paths of displaced entries and growth by 1.2. One
-- thread runs at a time, as in `Linear`: the locks of single slots are free, and `resizing_lock`
-- is part of the state. `none` as the result of an operation stands for `exit(1)`, for a read out
-- of bounds, and for a loop that waits for another thread.
pub mod Growth
pub mod View
pub mod Walks
pub mod Push
pub mod Insert
pub mod Reinsert
pub mod Resize
pub mod Text
mod Tests
use hash_bench.Common.{
  ℕ, zero, suc, ◌+◌, ◌/◌, ◌%◌, ◌⊎◌, inl, inr, Bool, true, false, ◌&&◌, ◌||◌, not, Option, none,
  some, List, [], ◌∷◌, length, get_elem?, set, if◌then◌else◌, ◌==◌, ltb,
}
use hash_bench.Key.{Key, ◌≐◌, is_invalid}
use hash_bench.Dict.{Pair, new_pair, new_array, none_value, write_value, write_key}
use hash_bench.Probe.{passes, has}
use hash_bench.Float.{FloatOps}

pub record Table {ℓ} (K : Type ℓ) : Type ℓ where
  pub capacity : ℕ
  pub table : List (Pair K)
  -- `pushed[0]` and `pushed[1]`
  pub pushed_0 : Pair K
  pub pushed_1 : Pair K
  pub old_cap : ℕ
  pub old_tab : List (Pair K)
  pub resizing_lock : ℕ
  pub nlocks : ℕ
  pub locksize : ℕ

abbrev pub seed : ℕ
seed = 0xc70f6907

-- `kCuckooThreshold`
abbrev pub cuckoo_threshold : ℕ
cuckoo_threshold = 512

-- `kMaxGrows`
abbrev pub max_grows : ℕ
max_grows = 128

-- How the loop of `find_path` ends: at `exit(1)`, after `kCuckooThreshold` rounds, or at an empty
-- slot, with the slots and keys that it appended to the path.
pub data Walk {ℓ} (K : Type ℓ) : Type ℓ where
  terribly_wrong : Walk K
  too_long : Walk K
  reached : List (ℕ × K) → Walk K

abbrev pub append_step {ℓ} : {K : Type ℓ} → ℕ → K → Walk K → Walk K
append_step s k terribly_wrong = terribly_wrong
append_step s k too_long = too_long
append_step s k (reached path) = reached ((s, k) ∷ path)

module _ {ℓ} {K : Type ℓ} ⦃key : Key K⦄ where
  -- `old_cap` and `old_tab` are not initialised: `resize` sets them before they are read.
  pub new : ℕ → Table K
  new capacity = record {
    capacity = capacity;
    table = new_array capacity;
    pushed_0 = record { key = key.invalid; value = 0 };
    pushed_1 = record { key = key.invalid; value = 0 };
    old_cap = 0;
    old_tab = [];
    resizing_lock = 0;
    nlocks = capacity / 256 + 1;
    locksize = 256;
  }

  -- `hash_funcs[i](key, sizeof(Key_t), _seed) % capacity` for i = 0 and 1
  abbrev pub f_idx : ℕ → K → ℕ
  f_idx capacity k = key.hash_funcs 0 k seed % capacity

  abbrev pub s_idx : ℕ → K → ℕ
  s_idx capacity k = key.hash_funcs 1 k seed % capacity

  -- The two slots that `Get`, `Update` and `Delete` look at.
  pub locate : ℕ → List (Pair K) → K → Option ℕ
  locate capacity table k =
      if passes (has k) table (f_idx capacity k)
      then some (f_idx capacity k)
      else if passes (has k) table (s_idx capacity k)
      then some (s_idx capacity k)
      else none

  pub read : ℕ → List (Pair K) → K → Option ℕ
  read capacity table k = elim (locate capacity table k) [
    | none ↦ some none_value
    | some s ↦ elim (get_elem? table s) [ none ↦ none | some p ↦ some p.value ]
  ]

  -- While a resize runs, `Get` reads the old table.
  pub get : Table K → K → Option ℕ
  get t k = if t.resizing_lock == 0 then read t.capacity t.table k else read t.old_cap t.old_tab k

  pub update : Table K → K → ℕ → Option (Bool × Table K)
  update t k v =
      if t.resizing_lock == 0
      then elim (locate t.capacity t.table k) [
        | none ↦ some (false, t)
        | some s ↦ some (true, record t { table = write_value t.table s v })
      ]
      else none

  pub delete : Table K → K → Option (Bool × Table K)
  delete t k =
      if t.resizing_lock == 0
      then elim (locate t.capacity t.table k) [
        | none ↦ some (false, t)
        | some s ↦ some (true, record t { table = write_key t.table s key.invalid })
      ]
      else none

  -- `n` of `Utilization`, which divides it by the capacity.
  pub utilization_size : List (Pair K) → ℕ
  utilization_size [] = 0
  utilization_size (p ∷ ps) = (if is_invalid p.key then 0 else 1) + utilization_size ps

  -- The other slot of a key that stands at `cur`; `none` where neither hash leads to `cur`.
  pub other_slot : ℕ → K → ℕ → Option ℕ
  other_slot capacity k cur =
      if f_idx capacity k == cur
      then some (s_idx capacity k)
      else if s_idx capacity k == cur
      then some (f_idx capacity k)
      else none

  -- The loop of `find_path`, with the rounds left: 0 is `i == kCuckooThreshold`.
  pub walk : ℕ → List (Pair K) → ℕ → ℕ → Walk K
  walk capacity table zero cur = too_long
  walk capacity table (suc n) cur = elim (get_elem? table cur) [
    | none ↦ terribly_wrong
    | some p ↦ elim (is_invalid p.key) [
      | true ↦ reached []
      | false ↦ elim (other_slot capacity p.key cur) [
        | none ↦ terribly_wrong
        | some next ↦ elim (get_elem? table next) [
          | none ↦ terribly_wrong
          | some q ↦ append_step next q.key (walk capacity table n next)
        ]
      ]
    ]
  ]

  -- The path from `target`, empty if it got too long.
  pub find_path : Table K → ℕ → Option (List (ℕ × K))
  find_path t target = elim (get_elem? t.table target) [
    | none ↦ none
    | some p ↦ elim (walk t.capacity t.table cuckoo_threshold target) [
      | terribly_wrong ↦ none
      | too_long ↦ some []
      | reached path ↦ some ((target, p.key) ∷ path)
    ]
  ]

  -- `memcpy(&table[to], &table[from], sizeof(Pair<Key_t>))`
  abbrev pub copy : List (Pair K) → ℕ → ℕ → List (Pair K)
  copy table to from = elim (get_elem? table from) [ none ↦ table | some p ↦ set table to p ]

  -- `for (int i = path.size()-1; i > 0; --i) table[path[i]] = table[path[i-1]];`
  pub shift : List (Pair K) → List (ℕ × K) → List (Pair K)
  shift table [] = table
  shift table (a ∷ []) = table
  shift table (a ∷ b ∷ path) = copy (shift table (b ∷ path)) b.0 a.0

  -- `execute_path(path, key, value)`
  pub execute_insert : List (Pair K) → List (ℕ × K) → K → ℕ → List (Pair K)
  execute_insert table [] k v = table
  execute_insert table (a ∷ path) k v =
      set (shift table (a ∷ path)) a.0 (record { key = k; value = v })

  -- The loop of `execute_path(path)`: `cur` is `pushed[i]`, `other` is `pushed[j]`.
  pub push : List (Pair K) → List (ℕ × K) → Pair K → Pair K → List (Pair K) × Pair K × Pair K
  push table [] cur other = (table, cur, other)
  push table (a ∷ path) cur other = elim (get_elem? table a.0) [
    | none ↦ (table, cur, other)
    | some p ↦ push (set table a.0 cur) path p cur
  ]

  abbrev pub even_length : List (ℕ × K) → Bool
  even_length [] = true
  even_length (a ∷ path) = not (even_length path)

  -- `execute_path(path)`: it starts with i = 0, and each step swaps i and j.
  pub execute_push : Table K → List (ℕ × K) → Table K
  execute_push t path =
      let (table, cur, other) = push t.table path t.pushed_0 t.pushed_1 in
      let even = even_length path in
      record t {
        table = table;
        pushed_0 = if even then cur else other;
        pushed_1 = if even then other else cur;
      }
