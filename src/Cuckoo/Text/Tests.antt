-- ===== src/Cuckoo/Text/Tests.antt =====
-- Tests of the string paths of index/cuckoo_hash.h, at a small table with keys of two bytes.
use hash_bench.Common.{
  ℕ, zero, suc, ◌%◌, ◌*◌, ◌+◌, ◌<◌, ◌^◌, ◌≡◌, refl, ◌⊎◌, inl, inr, true, false, Option, some, none,
  List, [], ◌∷◌, arith, subst, sym,
}
use mathlib.Core.List.{map}
use mathlib.Core.Option.{some-injective}
use hash_bench.Examples.{fractions}
use hash_bench.Key.{Key, is_invalid}
use hash_bench.Key.Bytes.{same_bytes, same_bytes_to, same_bytes_refl}
use hash_bench.Dict.{Pair, count, find, write_value, write_key, Unique}
use hash_bench.Cuckoo.{Table, new, other_slot}
use hash_bench.GenericKey.{strcmp}
use hash_bench.Cuckoo.Growth.{choose_push, resize}
use hash_bench.Cuckoo.View.{IsHome, IsPlaced, IsTidy, IsValid}
use hash_bench.Cuckoo.Text.{
  string_of, choose_text, walk_text, find_text, shift_text, execute_insert_text, push_text,
  execute_push_text, insert4resize_text, validate_text,
}
use hash_bench.Cuckoo.Text.Paths.{IsTerminated, Terminated}
use hash_bench.Cuckoo.Text.Growth.{
  reinsert_one_text, reinsert_text, resize_loop_text, resize_text, resize_text_same,
}
use hash_bench.Cuckoo.Text.Insert.{
  insert_round_text, insert_text, StoredText, ResizesText, insert_round_text-Holds,
}
use hash_bench.Cuckoo.Growth.{grown}

abbrev first_byte : List ℕ → ℕ
first_byte [] = 0
first_byte (x ∷ xs) = x

text_hash-lt : (i : ℕ) (k : List ℕ) (seed : ℕ) → first_byte k * (i + 1) % 2 ^ 64 < 2 ^ 64
text_hash-lt i k seed = omega arith

-- `hash_funcs[i]` multiplies the first byte by `i + 1`.
instance abbrev text_key : Key (List ℕ)
text_key = record {
  same = same_bytes;
  same_iff =
      λ a b. (same_bytes_to a b, λ e. subst (λ c. same_bytes a c ≡ true) e (same_bytes_refl a));
  invalid = 0 ∷ 0 ∷ [];
  hash_funcs = λ i k seed. first_byte k * (i + 1) % 2 ^ 64;
  hash-lt = text_hash-lt;
  uninitialised = 77;
}

program : Unit {0}
unfolding new other_slot string_of choose_text walk_text find_text shift_text execute_insert_text
    push_text execute_push_text insert4resize_text validate_text reinsert_one_text reinsert_text
    resize_loop_text resize_text insert_round_text insert_text count find write_value write_key
    choose_push strcmp grown
program = tt

abbrev pair : ℕ → ℕ → Pair (List ℕ)
pair k v = record { key = k ∷ 0 ∷ []; value = v }

abbrev slots : List (Pair (List ℕ))
slots = pair 4 40 ∷ pair 1 10 ∷ pair 3 30 ∷ pair 0 0 ∷ []

abbrev busy : Table (List ℕ)
busy = record (new 4) { table = slots }

abbrev keys_of : Option (Table (List ℕ)) → List ℕ
keys_of none = []
keys_of (some t) = map (λ (p : Pair (List ℕ)). first_byte p.key) t.table

-- Key 5 belongs in slots 1 and 2: key 3 moves to slot 3 and makes room.
busy_inserts : keys_of (insert_text (λ f. false) 1 busy (5 ∷ 0 ∷ []) 50) ≡ 4 ∷ 1 ∷ 5 ∷ 3 ∷ []
unfolding program
busy_inserts = refl

-- The path keeps what stands in front of the NUL.
busy_path : find_text busy 1 ≡ some ((1, 1 ∷ []) ∷ (2, 3 ∷ []) ∷ (3, []) ∷ [])
unfolding program
busy_path = refl

IsHome-at : (s : ℕ) (q p : Pair (List ℕ)) → IsHome 4 q.key s → some q ≡ some p → IsHome 4 p.key s
IsHome-at s q p h e = subst (λ (x : Pair (List ℕ)). IsHome 4 x.key s) (some-injective q p e) h

slots-IsPlaced : IsPlaced 4 slots
slots-IsPlaced zero p e n = IsHome-at 0 (pair 4 40) p (inl refl) e
slots-IsPlaced (suc zero) p e n = IsHome-at 1 (pair 1 10) p (inl refl) e
slots-IsPlaced (suc (suc zero)) p e n = IsHome-at 2 (pair 3 30) p (inr refl) e
slots-IsPlaced (suc (suc (suc zero))) p e n =
    let same : pair 0 0 ≡ p = some-injective (pair 0 0) p e in
    let bad : is_invalid {K = List ℕ} (0 ∷ 0 ∷ []) ≡ false =
      subst (λ (x : Pair (List ℕ)). is_invalid x.key ≡ false) (sym same) n in
    cc
slots-IsPlaced (suc (suc (suc (suc s)))) p e n = cc

slots-Unique : Unique slots
unfolding count
slots-Unique [] n = omega arith
slots-Unique (x ∷ []) n = ground arith
slots-Unique (x ∷ y ∷ []) n = ground arith
slots-Unique (x ∷ y ∷ z ∷ k) n = ground arith

slots-IsTidy : IsTidy 4 slots
slots-IsTidy = record {
  width = refl;
  nonempty = omega arith;
  unique = slots-Unique;
  placed = slots-IsPlaced;
}

busy-IsValid : IsValid busy
unfolding new
busy-IsValid = record { unlocked = refl; striped = refl; stripes = refl; tidy = slots-IsTidy }

IsTerminated-at : (q p : Pair (List ℕ)) → IsTerminated q.key → some q ≡ some p → IsTerminated p.key
IsTerminated-at q p h e = subst (λ (x : Pair (List ℕ)). IsTerminated x.key) (some-injective q p e) h

short-IsTerminated : (k : ℕ) → IsTerminated (k ∷ 0 ∷ [])
unfolding program IsTerminated
short-IsTerminated zero = refl
short-IsTerminated (suc k) = refl

slots-Terminated : Terminated slots
unfolding Terminated
slots-Terminated zero p e = IsTerminated-at (pair 4 40) p (short-IsTerminated 4) e
slots-Terminated (suc zero) p e = IsTerminated-at (pair 1 10) p (short-IsTerminated 1) e
slots-Terminated (suc (suc zero)) p e = IsTerminated-at (pair 3 30) p (short-IsTerminated 3) e
slots-Terminated (suc (suc (suc zero))) p e = IsTerminated-at (pair 0 0) p (short-IsTerminated 0) e
slots-Terminated (suc (suc (suc (suc s)))) p e = cc

insert_round_text-Holds_example :
    StoredText false busy (5 ∷ 0 ∷ []) 50 ⊎ ResizesText false busy (5 ∷ 0 ∷ []) 50
insert_round_text-Holds_example =
    insert_round_text-Holds false busy (5 ∷ 0 ∷ []) 50 busy-IsValid slots-Terminated
      (short-IsTerminated 0) (short-IsTerminated 5) refl (unfold find in refl)

resize_text_same_example :
    (resize_text busy ≡ resize busy)
    × ((t' : Table (List ℕ)) → resize busy ≡ some t' → Terminated t'.table)
resize_text_same_example = resize_text_same busy (short-IsTerminated 0) slots-Terminated
