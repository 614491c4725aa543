-- ===== src/Cuckoo/Resize.antt =====
-- `resize` of index/cuckoo_hash.h, and `Insert` as a whole.
use mathlib.Core.Option.{some-injective, or_else}
use hash_bench.Common.{
  ℕ, zero, suc, ◌+◌, ◌/◌, ◌<◌, ◌≡◌, ◌∙◌, refl, sym, subst, ap, inl, inr, false, none, some, arith,
  length-replicate, get_elem?-replicate, Bool-cases, Option-cases,
}
use hash_bench.Key.{Key, is_invalid, ≐_refl, ≐_invalid}
use hash_bench.Dict.{Pair, new_pair, new_array, hit, count, find, Unique, assign}
use hash_bench.Dict
use hash_bench.Float.{FloatOps}
use hash_bench.Cuckoo.{new, Table, max_grows}
use hash_bench.Cuckoo.Growth.{grown, resize_loop, resize, insert}
use hash_bench.Cuckoo.View.{IsTidy, IsValid, Holds, held}
use hash_bench.Cuckoo.Insert.{insert_round-Holds}
use hash_bench.Cuckoo.Reinsert.{reinsert-AddsAll}

module _ {ℓ} {K : Type ℓ} ⦃key : Key K⦄ where
  new_array-count : (n : ℕ) (k : K) → is_invalid k ≡ false → count k (new_array n) ≡ 0
  new_array-count n k valid =
      Dict.count-replicate_other n new_pair k (≐_invalid key.invalid k (≐_refl key.invalid) valid)

  new_array-IsTidy : (n : ℕ) → 0 < n → IsTidy {K = K} n (new_array n)
  new_array-IsTidy n pos = record {
    width = length-replicate n new_pair;
    nonempty = pos;
    unique = λ k v. omega (arith, new_array-count n k v);
    placed = λ s p e v.
        let same = some-injective p new_pair (get_elem?-replicate n new_pair s e) in
        cc (≐_refl key.invalid);
  }

  -- The constructor, for a capacity that is not 0, gives a valid table that holds nothing.
  pub new-Holds : (capacity : ℕ) → 0 < capacity → Holds (λ (k : K). none) (new capacity)
  unfolding new
  new-Holds capacity some_room = (
    record {
      unlocked = refl;
      striped = refl;
      stripes = refl;
      tidy = new_array-IsTidy capacity some_room;
    },
    λ k n. Dict.find-eq-none k (new_array capacity) (new_array-count capacity k n),
  )

  module _ ⦃fl : FloatOps⦄ where
    -- What the loop of `resize` has done where it ends with success.
    record IsGrown (t t' : Table K) : Type ℓ where
      tidy : IsTidy t'.capacity t'.table
      reads : (k : K) → is_invalid k ≡ false → find k t'.table ≡ find k t.old_tab
      locksize : t'.locksize ≡ t.locksize

    resize_loop-IsGrown :
        (n : ℕ) (t t' : Table K)
        → 0 < t.capacity
        → Unique t.old_tab
        → resize_loop n t ≡ some t'
        → IsGrown t t'
    unfolding resize_loop or_else
    resize_loop-IsGrown zero t t' pos once e = cc
    resize_loop-IsGrown (suc n) t t' pos once e =
        let c = grown t.capacity in
        let larger = fl.to_size-pos t.capacity 12 10 (omega arith) (omega arith) pos in
        let fresh = new_array-IsTidy c (unfold grown in larger) in
        let start = record t { capacity = c; table = new_array c } in
        let (r, t₁, run, keeps, adds) =
          reinsert-AddsAll t.old_tab start fresh
            (λ k v. omega (arith, new_array-count c k v, once k v)) in
        elim (Bool-cases r) [
          | inl good ↦
              let same = some-injective t₁ t' (rw (run, good, resize_loop) at e) in
              let (tidy, reads) = adds good in
              subst (IsGrown t) same (record {
                tidy = subst (λ d. IsTidy d t₁.table) (sym keeps.capacity) tidy;
                reads = λ k v.
                    ground
                      (arith, reads k v, Dict.find-eq-none k (new_array c), new_array-count c k v);
                locksize = keeps.locksize;
              })
          | inr bad ↦
              let again =
                resize_loop-IsGrown n t₁ t'
                  (subst (λ d. 0 < d) (sym keeps.capacity) (unfold grown in larger))
                  (subst Unique (sym keeps.old_tab) once) (rw (run, bad, resize_loop) at e) in
              record {
                tidy = again.tidy;
                reads = λ k v. again.reads k v ∙ ap (find k) keeps.old_tab;
                locksize = again.locksize ∙ keeps.locksize;
              }
        ]

    -- Where `resize` of a valid table under the lock returns, after however many growths, the table is
    -- valid once the lock is cleared, and holds what it held.
    pub resize-Holds :
        {t t' : Table K}
        → IsValid t
        → resize (record t { resizing_lock = 1 }) ≡ some t'
        → Holds (held t) (record t' { resizing_lock = 0 })
    unfolding resize
    resize-Holds {t} {t'} v e =
        let start = record t { old_cap = t.capacity; old_tab = t.table; resizing_lock = 1 } in
        elim (Option-cases (resize_loop max_grows start)) [
          | inl f ↦ cc (rw (f, resize) at e)
          | inr (t₁, f) ↦
              let g = resize_loop-IsGrown max_grows start t₁ v.tidy.nonempty v.tidy.unique f in
              let same =
                some-injective (record t₁ { nlocks = t₁.capacity / t₁.locksize + 1 }) t'
                  (rw (f, resize) at e) in
              subst (λ u. Holds (held t) (record u { resizing_lock = 0 })) same
                (
                  record {
                    unlocked = refl;
                    striped = g.locksize ∙ v.striped;
                    stripes = rw (g.locksize, v.striped);
                    tidy = g.tidy;
                  },
                  g.reads,
                )
        ]

    -- Where `Insert` of a valid key that a valid table does not hold returns, after however many
    -- resizes, the table is valid and holds the key with its value beside what it held.
    pub insert-Holds :
        (f : ℕ) (t : Table K) (k : K) (x : ℕ) {t' : Table K}
        → IsValid t
        → is_invalid k ≡ false
        → held t k ≡ none
        → insert f t k x ≡ some t'
        → Holds (assign (held t) k (some x)) t'
    unfolding insert
    insert-Holds zero t k x {t'} v valid absent e = cc
    insert-Holds (suc f) t k x {t'} v valid absent e =
        elim (insert_round-Holds t k x v valid absent) [
          | inl (t₁, run, m) ↦
              subst (Holds (assign (held t) k (some x)))
                (some-injective t₁ t' (sym (ground (arith, v.unlocked, run)) ∙ e)) m
          | inr (_, _, run) ↦ elim (Option-cases (resize (record t { resizing_lock = 1 }))) [
            | inl a ↦ ground (arith, v.unlocked, run, a, e)
            | inr (t₁, a) ↦
                let t₂ = record t₁ { resizing_lock = 0 } in
                let (v₂, reads) = resize-Holds v a in
                let rest : insert f t₂ k x ≡ some t' = ground (arith, v.unlocked, run, a, e) in
                let (v', final) = insert-Holds f t₂ k x v₂ valid (reads k valid ∙ absent) rest in
                (
                  v',
                  λ j n. final j n ∙ Dict.assign_congr (held t₂) (held t) k (some x) j (reads j n),
                )
          ]
        ]
