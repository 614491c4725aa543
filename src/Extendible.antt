-- ===== src/Extendible.antt =====
-- index/extendible_hash.h, built without S_HASH, INPLACE and BREAKDOWN, as one thread runs it: a
-- directory of pointers to segments of 1024 slots, indexed by the leading bits of the first hash.
-- A pointer to a segment is an index of the list of all segments. The shifts are those of the
-- source where they are by less than 64: depths are from 1 to 64. A split of the directory past what
-- `unsigned i` and `int stride` hold gives `none`. A loop that waits for another
-- thread, on `sema` or on a segment's lock, is a test here: a thread that would wait for ever gives
-- `none`. As no other thread runs, `target_check` finds the target that was locked.
pub mod Bits
pub mod Entries
pub mod Routing
pub mod Split
pub mod View
pub mod Change
pub mod Insert
pub mod Capacity
pub mod Retry
pub mod Resplit
pub mod Start
mod Tests
use hash_bench.Common.{
  ℕ, zero, suc, ◌+◌, ◌-◌, ◌*◌, ◌/◌, ◌%◌, ◌^◌, ◌⊎◌, inl, inr, Bool, true, false, ◌&&◌, ◌||◌, not,
  Option, none, some, List, [], ◌∷◌, ◌++◌, length, get_elem?, set, replicate, if◌then◌else◌, ◌==◌,
  ltb,
}
use hash_bench.Common.Int.{ℤ, pos, negsuc}
use hash_bench.Key.{Key, ◌≐◌, is_invalid}
use hash_bench.Dict.{Pair, new_array, none_value, write_value, write_key}
use hash_bench.Probe.{search, has}

-- `kNumSlot`, and the rounds `kNumPairPerCacheLine * kNumCacheLine` of each search
unfoldable pub num_slot : ℕ
num_slot = 1024

pub record Segment {ℓ} (K : Type ℓ) : Type ℓ where
  pub slots : List (Pair K)
  pub local_depth : ℕ
  -- whether `mutex` is held exclusively between the calls
  pub locked : Bool

-- An entry is a pointer, `none` the null pointer.
pub record Directory : Type 0 where
  pub entries : List (Option ℕ)
  pub sema : ℤ
  pub capacity : ℕ
  pub depth : ℕ

pub record Table {ℓ} (K : Type ℓ) : Type ℓ where
  pub dir : Directory
  pub segments : List (Segment K)

-- `f_seed`
abbrev pub f_seed : ℕ
f_seed = 0xc70697

-- `hash >> (64 - depth)`
abbrev pub prefix : ℕ → ℕ → ℕ
prefix hash depth = hash / 2 ^ (64 - depth)

-- `hash & ((size_t)1 << (64 - local_depth - 1))`
abbrev pub split_bit : ℕ → ℕ → Bool
split_bit hash local_depth = hash / 2 ^ (64 - local_depth - 1) % 2 == 1

abbrev pub slot_at : ℕ → ℕ → ℕ
slot_at loc i = (loc + i) % num_slot

-- `dir->_[x]`, where that can be read and is not null
abbrev pub pointer : Option (Option ℕ) → Option ℕ
pointer none = none
pointer (some o) = o

unfoldable pub route : Directory → ℕ → Option ℕ
route d hash = pointer (get_elem? d.entries (prefix hash d.depth))

-- The loop that fills the doubled directory, from the entry `i` on, for as many entries as `unsigned
-- i` counts: `update_directory` sees to that.
unfoldable pub double : List (Option ℕ) → ℕ → ℕ → ℕ → ℕ → List (Option ℕ)
double [] i x s0 s1 = []
double (e ∷ es) i x s0 s1 =
    let rest = double es (i + 1) x s0 s1 in
    if i == x then some s0 ∷ some s1 ∷ rest else e ∷ e ∷ rest

-- `for (i = 0; i < n; ++i) dir->_[start + i] = s;`
unfoldable pub fill : List (Option ℕ) → ℕ → ℕ → ℕ → List (Option ℕ)
fill es start zero s = es
fill es start (suc n) s = fill (set es start (some s)) (start + 1) n s

-- The two entries of a segment one below the depth of the directory.
unfoldable pub fill_pair : List (Option ℕ) → ℕ → ℕ → ℕ → List (Option ℕ)
fill_pair es x s0 s1 =
    if x % 2 == 0
    then set (set es (x + 1) (some s1)) x (some s0)
    else set (set es x (some s1)) (x - 1) (some s0)

-- `int stride` holds what it is given: `update_directory` sees to that.
unfoldable pub fill_stride : List (Option ℕ) → ℕ → ℕ → ℕ → ℕ → List (Option ℕ)
fill_stride es x stride s0 s1 =
    let loc = x - x % stride in
    fill (fill es (loc + stride / 2) (stride / 2) s1) loc (stride / 2) s0

-- Whether the integers of `DIR_RETRY` hold what they count. `unsigned i` and `2 * i + 1` have 32
-- bits: below depth 32 they pass by every entry without wrapping, from 32 on the doubling does not
-- end. `int stride` holds `2 ^ (depth - local_depth)` for differences below 31.
unfoldable pub in_range : ℕ → ℕ → Bool
in_range depth local_depth =
    if local_depth == depth then ltb depth 32 else ltb (depth - local_depth) 31

-- From `DIR_RETRY` on: the new directory, which has `s0` and `s1` for the segment of depth
-- `local_depth` on the way of `hash`. `none` is a doubling that does not end, a stride that
-- overflows, which is undefined, or a wait that does not end: `suspend` returns at once where
-- `sema` is 0 and never where it is not; `lock` returns where it is not negative, and `unlock`
-- gives `sema` back.
unfoldable pub update_directory : Directory → ℕ → ℕ → ℕ → ℕ → Option Directory
update_directory d local_depth hash s0 s1 =
    let x = prefix hash d.depth in
    if not (in_range d.depth local_depth)
    then none
    else if local_depth == d.depth
    then elim d.sema [
      | pos zero ↦ some (record {
        entries = double d.entries 0 x s0 s1;
        sema = pos 0;
        capacity = 2 ^ (d.depth + 1);
        depth = d.depth + 1;
      })
      | pos (suc n) ↦ none
      | negsuc n ↦ none
    ]
    else elim d.sema [
      | pos n ↦ some (record d {
        entries =
            if d.depth == local_depth + 1
            then fill_pair d.entries x s0 s1
            else fill_stride d.entries x (2 ^ (d.depth - local_depth)) s0 s1;
      })
      | negsuc n ↦ none
    ]

-- The pointers to `n` segments from `i` on.
abbrev pub pointers : ℕ → ℕ → List (Option ℕ)
pointers i zero = []
pointers i (suc n) = some i ∷ pointers (i + 1) n

-- `Directory(_depth)`, with the entries that the constructors of `ExtendibleHash` fill in.
abbrev pub new_directory : ℕ → Directory
new_directory depth = record {
  entries = pointers 0 (2 ^ depth);
  sema = pos 0;
  capacity = 2 ^ depth;
  depth = depth;
}

module _ {ℓ} {K : Type ℓ} ⦃key : Key K⦄ where
  -- `hash_funcs[0](key, sizeof(Key_t), f_seed)`
  abbrev pub f_hash : K → ℕ
  f_hash k = key.hash_funcs 0 k f_seed

  -- `(f_hash & kMask) * kNumPairPerCacheLine`
  abbrev pub f_idx : K → ℕ
  f_idx k = f_hash k % 256 * 4

  abbrev pub new_segment : ℕ → Segment K
  new_segment depth = record { slots = new_array num_slot; local_depth = depth; locked = false }

  abbrev new_segments : ℕ → ℕ → List (Segment K)
  new_segments depth n = replicate n (new_segment depth)

  -- The constructors, at the depth that they compute: 0, or the logarithm of the capacity asked.
  unfoldable pub new : ℕ → Table K
  new depth = record { dir = new_directory depth; segments = new_segments depth (2 ^ depth) }

  -- `Insert4split`: whether there was room, and the slots after it.
  unfoldable pub insert4split : List (Pair K) → Pair K → ℕ → Bool × List (Pair K)
  insert4split slots p loc = elim (search (has key.invalid) (slot_at loc) slots num_slot 0) [
    | none ↦ (false, slots)
    | some s ↦ (true, set slots s p)
  ]

  -- The loop of `Split`. A pair that does not fit is reported on `cerr` and left out.
  unfoldable pub split_slots :
      ℕ → List (Pair K) → List (Pair K) → List (Pair K) → List (Pair K) × List (Pair K)
  split_slots local_depth [] split0 split1 = (split0, split1)
  split_slots local_depth (p ∷ ps) split0 split1 =
      if split_bit (f_hash p.key) local_depth
      then split_slots local_depth ps split0 (insert4split split1 p (f_idx p.key)).1
      else split_slots local_depth ps (insert4split split0 p (f_idx p.key)).1 split1

  unfoldable pub split : Segment K → Segment K × Segment K
  split seg =
      let (split0, split1) =
        split_slots seg.local_depth seg.slots (new_array num_slot) (new_array num_slot) in
      (
        record { slots = split0; local_depth = seg.local_depth + 1; locked = false },
        record { slots = split1; local_depth = seg.local_depth + 1; locked = false },
      )

  -- From `RETRY` to the lock on the segment: its pointer and what it holds. `none` is a thread that
  -- goes back to `RETRY` for ever: at a null pointer or at a segment that stays locked.
  unfoldable pub acquire : Table K → ℕ → Option (ℕ × Segment K)
  acquire t hash = elim (route t.dir hash) [
    | none ↦ none
    | some target ↦ elim (get_elem? t.segments target) [
      | none ↦ none
      | some seg ↦ if seg.locked then none else some (target, seg)
    ]
  ]

  -- The wait of `Get`, `Update` and `Delete` for `sema`, and `acquire`.
  unfoldable pub acquire_after : Table K → ℕ → Option (ℕ × Segment K)
  acquire_after t hash = elim t.dir.sema [ pos n ↦ acquire t hash | negsuc n ↦ none ]

  unfoldable pub locate : Segment K → K → Option ℕ
  locate seg k = search (has k) (slot_at (f_idx k)) seg.slots num_slot 0

  abbrev pub with_slots : Table K → ℕ → Segment K → List (Pair K) → Table K
  with_slots t target seg slots = record t {
    segments = set t.segments target (record seg { slots = slots });
  }

  unfoldable pub get : Table K → K → Option ℕ
  get t k = elim (acquire_after t (f_hash k)) [
    | none ↦ none
    | some (target, seg) ↦ elim (locate seg k) [
      | none ↦ some none_value
      | some s ↦ elim (get_elem? seg.slots s) [ none ↦ none | some p ↦ some p.value ]
    ]
  ]

  unfoldable pub update : Table K → K → ℕ → Option (Bool × Table K)
  update t k v = elim (acquire_after t (f_hash k)) [
    | none ↦ none
    | some (target, seg) ↦ elim (locate seg k) [
      | none ↦ some (false, t)
      | some s ↦ some (true, with_slots t target seg (write_value seg.slots s v))
    ]
  ]

  unfoldable pub delete : Table K → K → Option (Bool × Table K)
  delete t k = elim (acquire_after t (f_hash k)) [
    | none ↦ none
    | some (target, seg) ↦ elim (locate seg k) [
      | none ↦ some (false, t)
      | some s ↦ some (true, with_slots t target seg (write_key seg.slots s key.invalid))
    ]
  ]

  -- A slot that `Insert` may take: its key belongs to another segment, or is invalid.
  abbrev pub is_free : ℕ → ℕ → Pair K → Bool
  is_free local_depth pattern p =
      not (prefix (f_hash p.key) local_depth == pattern) || is_invalid p.key

  -- One pass of `Insert` from `RETRY` on: `inr` has returned, `inl` goes back to `RETRY` after a
  -- split. The lock on the segment that has been split is not given back.
  unfoldable pub insert_round : Table K → K → ℕ → Option (Table K ⊎ Table K)
  insert_round t k v = elim (acquire t (f_hash k)) [
    | none ↦ none
    | some (target, seg) ↦
        let depth = seg.local_depth in
        elim (search (is_free depth (prefix (f_hash k) depth)) (slot_at (f_idx k)) seg.slots
          num_slot 0) [
            | some s ↦
                some
                  (inr (with_slots t target seg (set seg.slots s (record { key = k; value = v }))))
            | none ↦
                let s0 = length t.segments in
                elim (update_directory t.dir depth (f_hash k) s0 (s0 + 1)) [
                  | none ↦ none
                  | some dir ↦ some (
                      inl (record {
                        dir = dir;
                        segments =
                            set t.segments target (record seg { locked = true })
                            ++ (split seg).0 ∷ (split seg).1 ∷ [];
                      }))
                ]
          ]
  ]

  unfoldable pub insert : ℕ → Table K → K → ℕ → Option (Table K)
  insert zero t k v = none
  insert (suc f) t k v = elim (insert_round t k v) [
    | none ↦ none
    | some (inl t') ↦ insert f t' k v
    | some (inr t') ↦ some t'
  ]
