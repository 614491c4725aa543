-- ===== src/Extendible/Tests.antt =====
-- Tests of the model of index/extendible_hash.h, and its theorems at small tables.
use hash_bench.Common.{
  ℕ, ◌+◌, ◌^◌, ◌<◌, ◌≤◌, ◌≡◌, refl, ◌⊎◌, true, false, Option, some, none, List, [], ◌∷◌, set, arith,
}
use mathlib.Core.Option
use hash_bench.Examples.{number_key}
use hash_bench.Key.{is_invalid}
use hash_bench.Dict.{Pair, assign, value_or_none, is_some, find, count, new_array, new_pair}
use hash_bench.Probe.{search}
use hash_bench.Extendible.{
  Directory, Table, num_slot, route, double, fill, fill_pair, fill_stride, in_range,
  update_directory, new_directory, new_segment, new, insert4split, split_slots, split, acquire,
  acquire_after, locate, with_slots, get, update, delete, insert_round, insert,
}
use hash_bench.Extendible.Routing.{IsDirectory, Reroutes, update_directory-Reroutes}
use hash_bench.Extendible.Split.{Divides, split-Divides}
use hash_bench.Extendible.View.{IsFilled, IsValid, content, Contains, get-content}
use hash_bench.Extendible.Change.{changed-Contains, update-Contains, delete-Contains}
use hash_bench.Extendible.Insert.{fresh-IsFilled, Stored, Splits, insert_round-Contains}
use hash_bench.Extendible.Capacity.{capacity, capacity_loop}
use hash_bench.Extendible.Retry.{insert-Contains}
use hash_bench.Extendible.Start.{new-Serves, new-Contains}

program : Unit {0}
unfolding route double fill fill_pair fill_stride in_range update_directory new insert4split
    split_slots split acquire acquire_after locate get update delete insert_round insert search find
    count num_slot capacity capacity_loop
program = tt

abbrev entries_of : Option Directory → List (Option ℕ)
entries_of none = []
entries_of (some d) = d.entries

-- Segment 1 of depth 2 is split: the directory of depth 2 doubles.
doubles :
    entries_of (update_directory (new_directory 2) 2 (2 ^ 62) 4 5)
    ≡ some 0 ∷ some 0 ∷ some 4 ∷ some 5 ∷ some 2 ∷ some 2 ∷ some 3 ∷ some 3 ∷ []
unfolding program
doubles = refl

-- Segment 1 of depth 1 is split below a directory of depth 2, and one of depth 3.
abbrev shared : Directory
shared = record (new_directory 2) { entries = some 0 ∷ some 0 ∷ some 1 ∷ some 1 ∷ [] }

splits_pair :
    entries_of (update_directory shared 1 (2 ^ 63 + 2 ^ 62) 4 5)
    ≡ some 0 ∷ some 0 ∷ some 4 ∷ some 5 ∷ []
unfolding program
splits_pair = refl

-- The last doubling that ends, and the widest run of entries that `int stride` holds.
limits :
    (in_range 31 31 ≡ true)
    × (in_range 32 32 ≡ false)
    × (in_range 31 1 ≡ true)
    × (in_range 32 1 ≡ false)
unfolding program
limits = (refl, refl, refl, refl)

abbrev deep : Directory
deep = record (new_directory 3) {
  entries = some 0 ∷ some 0 ∷ some 0 ∷ some 0 ∷ some 1 ∷ some 1 ∷ some 1 ∷ some 1 ∷ [];
}

splits_stride :
    entries_of (update_directory deep 1 (2 ^ 63) 4 5)
    ≡ some 0 ∷ some 0 ∷ some 0 ∷ some 0 ∷ some 4 ∷ some 4 ∷ some 5 ∷ some 5 ∷ []
unfolding program
splits_stride = refl

deep-IsDirectory : IsDirectory deep
deep-IsDirectory = record {
  width = refl;
  counted = refl;
  deep = omega arith;
  shallow = omega arith;
  idle = refl;
}

update_directory-Reroutes_example :
    (d' : Directory) × (update_directory deep 1 (2 ^ 63) 4 5 ≡ some d')
    × IsDirectory d'
    × (deep.depth ≤ d'.depth)
    × (1 < d'.depth)
    × Reroutes deep d' 1 (2 ^ 63) 4 5
update_directory-Reroutes_example =
    update_directory-Reroutes deep 1 (2 ^ 63) 4 5 deep-IsDirectory (omega arith) (omega arith)
      (omega arith)

-- A segment, and a table of two segments, with the key 1.
abbrev filled : List (Pair ℕ)
filled = set (new_array num_slot) 4 (record { key = 1; value = 10 })

abbrev one : Table ℕ
one = with_slots (new 1) 0 (new_segment 1) filled

filled-IsFilled :
    IsFilled {K = ℕ} 1 1 filled
    × ((j : ℕ)
        → is_invalid j ≡ false
        → find j filled ≡ assign (λ q. find q (new_array num_slot)) 1 (some 10) j)
unfolding num_slot find
filled-IsFilled =
    fresh-IsFilled 1 10 (new_segment 1) 4 new_pair
      (new-Serves 1 1 (omega arith) (omega arith) (omega arith)).filled refl refl refl

one-IsValid : IsValid one
one-IsValid =
    (changed-Contains (new 1) 1 0 (new_segment 1) filled (some 10)
      (new-Contains 1 (omega arith) (omega arith)).0
      (new-Serves 1 1 (omega arith) (omega arith) (omega arith)) filled-IsFilled.0
      filled-IsFilled.1).0

get-content_example : get one 1 ≡ some (value_or_none (content one 1))
get-content_example = get-content 1 one-IsValid refl

one_gets : get one 1 ≡ some 10
unfolding program
one_gets = refl

update-Contains_example :
    (t : Table ℕ) × (update one 1 11 ≡ some (is_some (content one 1), t))
    × Contains (assign (content one) 1 (Option.map (λ _. 11) (content one 1))) t
update-Contains_example = update-Contains 1 11 one-IsValid refl

delete-Contains_example :
    (t : Table ℕ) × (delete one 1 ≡ some (is_some (content one 1), t))
    × Contains (assign (content one) 1 none) t
delete-Contains_example = delete-Contains 1 one-IsValid refl

insert_round-Contains_example : Stored one 2 20 ⊎ Splits one 2 20
unfolding new
insert_round-Contains_example =
    insert_round-Contains 2 20 one-IsValid refl (unfold program in refl) (omega arith)

-- Two segments of 1024 slots.
one_capacity : capacity one ≡ some 2048
unfolding program
one_capacity = refl

-- The table with the keys 1 and 2.
abbrev both : Table ℕ
both =
    with_slots one 0 (record (new_segment 1) { slots = filled })
      (set filled 8 (record { key = 2; value = 20 }))

insert-Contains_example : Contains (assign (content one) 2 (some 20)) both
unfolding new
insert-Contains_example =
    insert-Contains 1 one 2 20 one-IsValid refl (unfold program in refl) (unfold program in refl)
      (omega arith)

split-Divides_example :
    Divides
      (record (new_segment 1) { slots = filled })
      (split (record (new_segment 1) { slots = filled })).0
      (split (record (new_segment 1) { slots = filled })).1
split-Divides_example =
    split-Divides (record (new_segment 1) { slots = filled }) filled-IsFilled.0.width
      filled-IsFilled.0.unique
