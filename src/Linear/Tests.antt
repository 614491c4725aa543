-- ===== src/Linear/Tests.antt =====
-- Tests of the model of index/linear_probing.h, and its theorems at a small table.
use hash_bench.Common.{
  ℕ, ◌^◌, ◌∣◌, ◌≡◌, refl, Option, some, none, false, true, List, [], ◌∷◌, arith,
}
use mathlib.Core.List.{map}
use mathlib.Core.Option
use native.Mathlib.Nat.{dvd-mul_left}
use hash_bench.Examples.{number_key, fractions}
use hash_bench.Dict.{Pair, assign, value_or_none, is_some, count, find, write_value, write_key}
use hash_bench.Probe.{search}
use hash_bench.Linear.{
  Table, new, is_int, int_rounds, find_slot, locate, get, update, delete, get_location, move_pair,
  move_all, resize, below_threshold, grown, store, insert_round, insert,
}
use hash_bench.Linear.View.{view, IsValid, Models, get-view, update-Models, delete-Models}
use hash_bench.Linear.Resize.{Resized, resize-Resized}
use hash_bench.Linear.Insert.{insert-Models}

program : Unit {0}
unfolding new is_int int_rounds find_slot locate get update delete get_location move_pair move_all
    resize below_threshold grown store insert_round insert search count find write_value write_key
program = tt

abbrev empty : Table ℕ
empty = new 4

-- keys 5 and 9 share slot 1
abbrev two : Option (Table ℕ)
two = elim (insert 2 empty 5 50) [ none ↦ none | some t ↦ insert 2 t 9 90 ]

abbrev keys_of : Option (Table ℕ) → List ℕ
keys_of none = []
keys_of (some t) = map (λ (p : Pair ℕ). p.key) t.dict

two_keys : keys_of two ≡ 0 ∷ 5 ∷ 9 ∷ 0 ∷ []
unfolding program
two_keys = refl

abbrev pair : ℕ → ℕ → Pair ℕ
pair k v = record { key = k; value = v }

-- Three of four slots are taken, and key 9 stands behind key 5.
abbrev full : Table ℕ
full = record empty { dict = pair 1 10 ∷ pair 5 50 ∷ pair 9 90 ∷ pair 0 7 ∷ []; size = 4 }

-- A deleted entry still counts in `size`: the table doubles with a slot free.
full_doubles : keys_of (insert 2 full 2 20) ≡ 0 ∷ 1 ∷ 9 ∷ 2 ∷ 0 ∷ 5 ∷ 0 ∷ 0 ∷ []
unfolding program
full_doubles = refl

-- What the stored keys read, and what `Get` gives for a key that is not there.
get_values : (get full 5 ≡ some 50) × (get full 9 ≡ some 90) × (get full 13 ≡ some 0)
unfolding program
get_values = (refl, refl, refl)

int_limits : (is_int (2147483647) ≡ true) × (is_int (2 ^ 31) ≡ false)
unfolding program
int_limits = (refl, refl)

four-power : 4 ∣ 2 ^ 64
four-power = dvd-mul_left 4 (2 ^ 62)

eight-power : 8 ∣ 2 ^ 64
eight-power = dvd-mul_left 8 (2 ^ 61)

full-IsValid : IsValid full
unfolding count new
full-IsValid = record {
  unlocked = refl;
  width = refl;
  nonempty = omega arith;
  power = four-power;
  striped = refl;
  stripes = refl;
  room = omega arith;
  fits = omega arith;
  unique = λ k n. ground arith;
}

insert-Models_example :
    (t : Table ℕ) × (insert 2 full 2 20 ≡ some t) × Models (assign (view full) 2 (some 20)) t
unfolding new find
insert-Models_example = insert-Models 2 20 full-IsValid refl refl eight-power (omega arith)

get-view_example : get full 5 ≡ some (value_or_none (view full 5))
get-view_example = get-view 5 full-IsValid refl

update-Models_example :
    (t : Table ℕ) × (update full 5 51 ≡ some (is_some (view full 5), t))
    × Models (assign (view full) 5 (Option.map (λ _. 51) (view full 5))) t
update-Models_example = update-Models 5 51 full-IsValid refl

delete-Models_example :
    (t : Table ℕ) × (delete full 5 ≡ some (is_some (view full 5), t))
    × Models (assign (view full) 5 none) t
delete-Models_example = delete-Models 5 full-IsValid refl

resize-Resized_example :
    (t : Table ℕ) × (resize 8 (record full { resizing_lock = 1 }) ≡ some t) × Resized 8 full t
unfolding new
resize-Resized_example =
    resize-Resized 8 full-IsValid eight-power (omega arith) (omega arith) (omega arith)
