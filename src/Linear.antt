-- ===== src/Linear.antt =====
-- index/linear_probing.h: open addressing with linear probing, lock striping and doubling. An
-- operation runs alone here: `resizing_lock` is part of the state, and a loop that waits for
-- another thread to clear it does not end. Threads interleaves the operations. The `int` counters of
-- `Insert` and `resize` have their bound written out: counting past 2 ^ 31 - 1 is a fault. Those of
-- `Get`, `Update`, `Delete` and `FindAnyway` are taken to hold the capacity (below 2 ^ 31).
pub mod View
pub mod Resize
pub mod Insert
pub mod Returns
pub mod Threads
mod Tests
use hash_bench.Common.{
  ℕ, zero, suc, ◌+◌, ◌/◌, ◌%◌, ◌^◌, ◌⊎◌, inl, inr, Bool, true, false, Option, none, some, List, [],
  ◌∷◌, get_elem?, set, if◌then◌else◌, ◌==◌, ltb,
}
use hash_bench.Key.{Key, is_invalid}
use hash_bench.Dict.{Pair, new_array, none_value, write_value, write_key}
use hash_bench.Probe.{search, passes, has}
use hash_bench.Float.{FloatOps}

pub record Table {ℓ} (K : Type ℓ) : Type ℓ where
  pub capacity : ℕ
  pub dict : List (Pair K)
  pub old_cap : ℕ
  pub old_dic : List (Pair K)
  pub size : ℕ
  pub resizing_lock : ℕ
  pub nlocks : ℕ
  pub locksize : ℕ

-- the seed that `h` of util/hash.h uses by default
abbrev pub seed : ℕ
seed = 0xc70697

-- `(loc + i) % capacity`: the sum is an `uint64_t`.
abbrev pub slot_at : ℕ → ℕ → ℕ → ℕ
slot_at capacity loc i = (loc + i) % 2 ^ 64 % capacity

-- Whether an `int` holds the number: a loop `for (int i = 0; i < n; i++)` comes to its end.
unfoldable pub is_int : ℕ → Bool
is_int n = ltb n (2 ^ 31)

-- The rounds that an `int i`, counted up from 0 while it is below `n`, can make.
unfoldable pub int_rounds : ℕ → ℕ
int_rounds n = if is_int n then n else 2 ^ 31

module _ {ℓ} {K : Type ℓ} ⦃key : Key K⦄ where
  -- `h(key, sizeof(Key_t))`
  abbrev pub hash : K → ℕ
  hash k = key.hash_funcs 0 k seed

  -- `old_cap` and `old_dic` are not initialised: nothing reads them before `resize` sets them.
  unfoldable pub new : ℕ → Table K
  new capacity = record {
    capacity = capacity;
    dict = new_array capacity;
    old_cap = 0;
    old_dic = [];
    size = 0;
    resizing_lock = 0;
    nlocks = capacity / 256 + 1;
    locksize = 256;
  }

  -- The two loops of `Insert` as one, with the rounds left and the stripe whose lock is held: the
  -- inner loop goes on until the slot is the first of a stripe, where the outer one locks again. The
  -- caller gives no more rounds than `int i` can count.
  unfoldable pub find_slot : Table K → ℕ → ℕ → ℕ → ℕ → Option (ℕ × ℕ)
  find_slot t loc zero i held = none
  find_slot t loc (suc n) i held =
      let slot = slot_at t.capacity loc i in
      let next = slot_at t.capacity loc (i + 1) in
      let rest =
        find_slot t loc n (i + 1) (if next % t.locksize == 0 then next / t.locksize else held) in
      if passes (has key.invalid) t.dict slot then some (slot, held) else rest

  -- The slots that `Update`, `Delete` and `Get` look at, until one has the key.
  unfoldable pub locate : Table K → K → Option ℕ
  locate t k = search (has k) (slot_at t.capacity (hash k)) t.dict t.capacity 0

  -- `none`: the thread waits for `resizing_lock`, which nobody clears.
  unfoldable pub get : Table K → K → Option ℕ
  get t k =
      if t.resizing_lock == 0
      then elim (locate t k) [
        | none ↦ some none_value
        | some s ↦ elim (get_elem? t.dict s) [ none ↦ none | some p ↦ some p.value ]
      ]
      else none

  unfoldable pub update : Table K → K → ℕ → Option (Bool × Table K)
  update t k v =
      if t.resizing_lock == 0
      then elim (locate t k) [
        | none ↦ some (false, t)
        | some s ↦ some (true, record t { dict = write_value t.dict s v })
      ]
      else none

  pub delete : Table K → K → Option (Bool × Table K)
  delete t k =
      if t.resizing_lock == 0
      then elim (locate t k) [
        | none ↦ some (false, t)
        | some s ↦ some (true, record t { dict = write_key t.dict s key.invalid })
      ]
      else none

  -- `none` is the -1 of a search that has gone round, or an `int i` that overflows on the way.
  pub get_location : ℕ → ℕ → List (Pair K) → Option ℕ
  get_location hash_value capacity dict =
      search (has key.invalid) (λ i. (hash_value + i) % capacity) dict (int_rounds capacity) 0

  -- One round of the loop of `resize`. A write to `new_dict[-1]` is a fault, `none`.
  pub move_pair : ℕ → Pair K → List (Pair K) → Option (List (Pair K))
  move_pair capacity p dict =
      if is_invalid p.key
      then some dict
      else elim (get_location (hash p.key % capacity) capacity dict) [
        | none ↦ none
        | some loc ↦ some (set dict loc p)
      ]

  pub move_all : ℕ → List (Pair K) → List (Pair K) → Option (List (Pair K))
  move_all capacity [] dict = some dict
  move_all capacity (p ∷ ps) dict = elim (move_pair capacity p dict) [
    | none ↦ none
    | some dict' ↦ move_all capacity ps dict'
  ]

  -- The old array is kept in `old_dic` until the end, where it is dropped. The `int i` of the loop
  -- over the old array overflows where it does not hold the old capacity: a fault, `none`.
  pub resize : ℕ → Table K → Option (Table K)
  resize capacity t =
      if is_int t.capacity
      then elim (move_all capacity t.dict (new_array capacity)) [
        | none ↦ none
        | some dict ↦ some (record t {
          capacity = capacity;
          dict = dict;
          old_cap = 0;
          old_dic = [];
          nlocks = capacity / t.locksize + 1;
        })
      ]
      else none

  pub utilization_size : List (Pair K) → ℕ
  utilization_size [] = 0
  utilization_size (p ∷ ps) = (if is_invalid p.key then 0 else 1) + utilization_size ps

  abbrev pub capacity : Table K → ℕ
  capacity t = t.capacity

  -- Whether `FindAnyway` finds the key without a message.
  pub find_anyway : Table K → K → Bool
  find_anyway t k = elim (search (has k) (λ i. i) t.dict t.capacity 0) [
    | none ↦ false
    | some s ↦ true
  ]

  -- `memcpy` of key and value, and the loop that counts `size` up by CAS
  unfoldable pub store : Table K → ℕ → K → ℕ → Table K
  store t s k v = record t {
    dict = set t.dict s (record { key = k; value = v });
    size = (t.size + 1) % 2 ^ 64;
  }

  module _ ⦃fl : FloatOps⦄ where
    -- `size < capacity * kResizingThreshold`
    unfoldable pub below_threshold : Table K → Bool
    below_threshold t =
        fl.less (fl.of_size t.size) (fl.times (fl.of_size t.capacity) (fl.literal 95 100))

    -- `capacity * kResizingFactor`
    pub grown : Table K → ℕ
    grown t = fl.to_size (fl.times (fl.of_size t.capacity) (fl.literal 2 1))

    -- One pass from `RETRY` on: `inr` has returned, `inl` goes back to `RETRY`. With nobody else
    -- running the CAS on `resizing_lock` succeeds, and the lock is free again after `resize`. A
    -- search that finds nothing has counted `int i` up to the capacity, which is a fault where
    -- that does not fit.
    unfoldable pub insert_round : Table K → K → ℕ → Option (Table K ⊎ Table K)
    insert_round t k v =
        if below_threshold t
        then elim (find_slot t (hash k) (int_rounds t.capacity) 0
            (slot_at t.capacity (hash k) 0 / t.locksize)) [
              | none ↦ if is_int t.capacity then some (inl t) else none
              | some (s, held) ↦ some (inr (store t s k v))
            ]
        else elim (resize (grown t) (record t { resizing_lock = 1 })) [
          | none ↦ none
          | some t' ↦ some (inl (record t' { resizing_lock = 0 }))
        ]

    -- `Insert`, with fuel for the passes. `none`: a fault, or no return within the fuel.
    unfoldable pub insert : ℕ → Table K → K → ℕ → Option (Table K)
    insert zero t k v = none
    insert (suc f) t k v =
        if t.resizing_lock == 0
        then elim (insert_round t k v) [
          | none ↦ none
          | some (inl t') ↦ insert f t' k v
          | some (inr t') ↦ some t'
        ]
        else none
