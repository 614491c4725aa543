-- ===== src/Linear/Returns.antt =====
-- Every `Insert` of index/linear_probing.h that returns, whatever its `int` counters can hold.
use hash_bench.Common.{
  ℕ, ◌/◌, ◌^◌, ◌≤◌, ◌<◌, ◌≡◌, ◌∙◌, sym, subst, refl, inl, inr, true, false, none, some, arith,
  get_elem?, ltb→lt, Bool-cases, Option-cases,
}
use mathlib.Core.Option.{some-injective, none-ne-some}
use hash_bench.Word.Powers.{double-dvd, double-dvd_le}
use hash_bench.Key.{Key, is_invalid}
use hash_bench.Dict.{Pair, assign}
use hash_bench.Float.{FloatOps}
use hash_bench.Probe.{search, has, passes_lem, search_sound}
use hash_bench.Linear.{
  Table, is_int, int_rounds, slot_at, hash, find_slot, resize, below_threshold, grown, store,
  insert_round, insert,
}
use hash_bench.Linear.View.{view, IsValid, Models}
use hash_bench.Linear.Insert.{find_slot-search, below_threshold-lt, store-Models, insert-Models}

module _ {ℓ} {K : Type ℓ} ⦃key : Key K⦄ ⦃fl : FloatOps⦄ where
  -- A slot that the loops of `Insert` take is empty.
  find_slot-empty :
      (t : Table K) (loc n held s h : ℕ)
      → find_slot t loc n 0 held ≡ some (s, h)
      → (p : Pair K) × (get_elem? t.dict s ≡ some p) × (has key.invalid p ≡ true)
  find_slot-empty t loc n held s h f =
      let found : search (has key.invalid) (slot_at t.capacity loc) t.dict n 0 ≡ some s =
        cc (find_slot-search t loc n 0 held, f) in
      passes_lem key.invalid t.dict s
        (search_sound (has key.invalid) (slot_at t.capacity loc) t.dict n 0 found).0

  -- `Insert` into a table that an `int` does not count.
  large-Models :
      {t t' : Table K} (k : K) (x : ℕ)
      → IsValid t
      → is_invalid k ≡ false
      → view t k ≡ none
      → t.capacity ≤ 2 ^ 60
      → is_int t.capacity ≡ false
      → insert 2 t k x ≡ some t'
      → Models (assign (view t) k (some x)) t'
  unfolding insert insert_round resize
  large-Models {t} {t'} k x v valid absent fits big e = elim (Bool-cases (below_threshold t)) [
    | inl below ↦
        let held = slot_at t.capacity (hash k) 0 / t.locksize in
        elim (Option-cases (find_slot t (hash k) (int_rounds t.capacity) 0 held)) [
          | inl f ↦
              let run : insert_round t k x ≡ none = rw (insert_round, below, f, big) refl in
              let stuck : insert 2 t k x ≡ none = ground (arith, v.unlocked, run) in
              absurd (none-ne-some t' (sym stuck ∙ e))
          | inr ((s, h), f) ↦
              let space = below_threshold-lt t below in
              let (p, r, empty) = find_slot-empty t (hash k) (int_rounds t.capacity) held s h f in
              let run : insert_round t k x ≡ some (inr (store t s k x)) =
                rw (insert_round, below, f) refl in
              let done : insert 2 t k x ≡ some (store t s k x) = ground (arith, v.unlocked, run) in
              subst (Models (assign (view t) k (some x)))
                (some-injective (store t s k x) t' (sym done ∙ e))
                (store-Models s k x p v valid absent space (omega (arith, space, fits)) r empty)
        ]
    | inr full ↦
        let fault : resize (grown t) (record t { resizing_lock = 1 }) ≡ none =
          rw (resize, big) refl in
        let run : insert_round t k x ≡ none = rw (insert_round, full, fault) refl in
        let stuck : insert 2 t k x ≡ none = ground (arith, v.unlocked, run) in
        absurd (none-ne-some t' (sym stuck ∙ e))
  ]

  -- `Insert` of a valid key that a valid table of up to 2 ^ 60 slots does not hold, where it returns,
  -- leaves a valid table that holds the key with its value beside what it held.
  pub insert-returns :
      {t t' : Table K} (k : K) (x : ℕ)
      → IsValid t
      → is_invalid k ≡ false
      → view t k ≡ none
      → t.capacity ≤ 2 ^ 60
      → insert 2 t k x ≡ some t'
      → Models (assign (view t) k (some x)) t'
  unfolding is_int
  insert-returns {t} {t'} k x v valid absent fits e = elim (Bool-cases (is_int t.capacity)) [
    | inr big ↦ large-Models k x v valid absent fits big e
    | inl held ↦
        let below : t.capacity < 2 ^ 31 = ltb→lt _ _ held in
        let (t₁, f, m) =
          insert-Models k x v valid absent (double-dvd t.capacity v.power (omega (arith, below)))
            (double-dvd_le t.capacity v.power below) in
        subst (Models (assign (view t) k (some x))) (some-injective t₁ t' (sym f ∙ e)) m
  ]
