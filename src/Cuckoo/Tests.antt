-- ===== src/Cuckoo/Tests.antt =====
-- Tests of the model of index/cuckoo_hash.h, and its theorems at a small table.
use hash_bench.Common.{
  ℕ, zero, suc, ◌≡◌, refl, ◌⊎◌, inl, inr, Option, some, none, List, [], ◌∷◌, arith,
}
use mathlib.Core.List.{map}
use mathlib.Core.Option
use hash_bench.Examples.{number_key, fractions}
use hash_bench.Dict.{
  Pair, assign, value_or_none, is_some, count, find, write_value, write_key, Unique,
}
use hash_bench.Cuckoo.{
  Table, reached, new, locate, read, get, update, delete, other_slot, walk, find_path, shift,
  execute_insert, push, execute_push,
}
use hash_bench.Cuckoo.Growth.{
  choose_path, choose_push, validate, insert4resize, reinsert_one, reinsert, grown, resize_loop,
  resize, insert_round, insert,
}
use hash_bench.Cuckoo.View.{
  IsPlaced, IsTidy, IsValid, held, Holds, get-held, update-Holds, delete-Holds,
}
use hash_bench.Cuckoo.Push.{execute_insert-push}
use hash_bench.Cuckoo.Insert.{Stored, Resizes, insert_round-Holds}
use hash_bench.Cuckoo.Resize.{resize-Holds, insert-Holds}

program : Unit {0}
unfolding new locate read get update delete other_slot walk find_path shift execute_insert push
    execute_push choose_path choose_push validate insert4resize reinsert_one reinsert grown
    resize_loop resize insert_round insert count find write_value write_key
program = tt

abbrev pair : ℕ → ℕ → Pair ℕ
pair k v = record { key = k; value = v }

-- Slot 3 is free; key 4 can also stand in slot 0 only, key 1 in 1 and 2, key 3 in 3 and 2.
abbrev slots : List (Pair ℕ)
slots = pair 4 40 ∷ pair 1 10 ∷ pair 3 30 ∷ pair 0 0 ∷ []

abbrev busy : Table ℕ
busy = record (new 4) { table = slots }

abbrev keys_of : Option (Table ℕ) → List ℕ
keys_of none = []
keys_of (some t) = map (λ (p : Pair ℕ). p.key) t.table

-- Key 5 belongs in slots 1 and 2: key 3 moves to slot 3 and makes room.
busy_inserts : keys_of (insert 1 busy 5 50) ≡ 4 ∷ 1 ∷ 5 ∷ 3 ∷ []
unfolding program
busy_inserts = refl

-- From slot 1 the walk passes the slots of keys 1 and 3.
busy_walks : walk 4 slots 512 1 ≡ reached ((2, 3) ∷ (3, 0) ∷ [])
unfolding program
busy_walks = refl

busy_gets : (get busy 3 ≡ some 30) × (get busy 7 ≡ some 0)
unfolding program
busy_gets = (refl, refl)

slots-IsPlaced : IsPlaced 4 slots
unfolding program
slots-IsPlaced zero p e n = ground arith
slots-IsPlaced (suc zero) p e n = ground arith
slots-IsPlaced (suc (suc zero)) p e n = ground arith
slots-IsPlaced (suc (suc (suc zero))) p e n = ground arith
slots-IsPlaced (suc (suc (suc (suc s)))) p e n = cc

slots-Unique : Unique slots
unfolding count
slots-Unique k n = ground arith

slots-IsTidy : IsTidy 4 slots
slots-IsTidy = record {
  width = refl;
  nonempty = omega arith;
  unique = slots-Unique;
  placed = slots-IsPlaced;
}

busy-IsValid : IsValid busy
unfolding new
busy-IsValid = record { unlocked = refl; striped = refl; stripes = refl; tidy = slots-IsTidy }

get-held_example : get busy 3 ≡ some (value_or_none (held busy 3))
get-held_example = get-held 3 busy-IsValid refl

cuckoo_update-Holds_example :
    (t : Table ℕ) × (update busy 3 31 ≡ some (is_some (held busy 3), t))
    × Holds (assign (held busy) 3 (Option.map (λ _. 31) (held busy 3))) t
cuckoo_update-Holds_example = update-Holds 3 31 busy-IsValid refl

cuckoo_delete-Holds_example :
    (t : Table ℕ) × (delete busy 3 ≡ some (is_some (held busy 3), t))
    × Holds (assign (held busy) 3 none) t
cuckoo_delete-Holds_example = delete-Holds 3 busy-IsValid refl

insert_round-Holds_example : Stored busy 5 50 ⊎ Resizes busy 5 50
insert_round-Holds_example = insert_round-Holds busy 5 50 busy-IsValid refl (unfold program in refl)

abbrev after : Table ℕ
after = record busy { table = pair 4 40 ∷ pair 1 10 ∷ pair 5 50 ∷ pair 3 30 ∷ [] }

insert-Holds_example : Holds (assign (held busy) 5 (some 50)) after
insert-Holds_example =
    insert-Holds 1 busy 5 50 busy-IsValid refl (unfold program in refl) (unfold program in refl)

abbrev steps : List (ℕ × ℕ)
steps = (2, 3) ∷ (3, 0) ∷ []

-- Key 5 goes to slot 1, key 1 from there to slot 2 and key 3 to the free slot.
abbrev route : List (ℕ × ℕ)
route = (1, 1) ∷ (2, 3) ∷ (3, 0) ∷ []

execute_insert-push_example :
    execute_insert slots route 5 50 ≡ (push slots route (pair 5 50) (pair 0 0)).0
execute_insert-push_example =
    execute_insert-push 4 slots route 5 50 (pair 0 0)
      (
        inl refl,
        refl,
        (
          pair 1 10,
          refl,
          refl,
          (inr refl, refl, (pair 3 30, refl, refl, (inl refl, refl, (pair 0 0, refl, refl, refl)))),
        ),
      )
      ((λ e. cc, (λ e. cc, tt)), ((λ e. cc, tt), (tt, tt)))

resize-Holds_example : Holds (held busy) (record busy {
  table = pair 4 40 ∷ pair 1 10 ∷ pair 0 77 ∷ pair 3 30 ∷ [];
  resizing_lock = 0;
  old_cap = 4;
  old_tab = slots;
})
resize-Holds_example =
    resize-Holds
      {t' = record busy {
        table = pair 4 40 ∷ pair 1 10 ∷ pair 0 77 ∷ pair 3 30 ∷ [];
        resizing_lock = 1;
        old_cap = 4;
        old_tab = slots;
      }}
      busy-IsValid (unfold program in refl)
