-- ===== src/Cuckoo/Text/Insert.antt =====
-- `Insert` of index/cuckoo_hash.h for keys of more than 8 bytes.
use native.Mathlib.Nat.{mod-lt}
use mathlib.Core.Option.{some-injective}
use hash_bench.Common.{
  ℕ, zero, suc, ◌≡◌, ◌∙◌, ◌⊎◌, ◌&&◌, refl, sym, subst, ap, inl, inr, Bool, true, false, Option,
  none, some, List, [], ◌∷◌, arith, length, get_elem?, set, Bool-cases, Option-cases, ◌==◌,
  if◌then◌else◌, ltb,
}
use hash_bench.Key.{Key, is_invalid}
use hash_bench.Dict.{Pair, assign}
use hash_bench.Dict
use hash_bench.Probe.{passes, has}
use hash_bench.Float.{FloatOps}
use hash_bench.Cuckoo.{Table, f_idx, s_idx, copy, shift, execute_insert}
use hash_bench.Cuckoo.Growth.{is_empty, resize}
use hash_bench.Cuckoo.View.{IsHome, IsValid, Holds, held}
use hash_bench.Cuckoo.Insert.{
  fill-IsTidy, with_table-IsValid, along, IsRoute, find_path-IsRoute, both_empty, entry,
}
use hash_bench.Cuckoo.Resize.{resize-Holds}
use hash_bench.Cuckoo.Text.{
  starts_empty, choose_text, find_text, write_pair, execute_insert_text, validate_text,
}
use hash_bench.Cuckoo.Text.Paths.{
  IsTerminated, Terminated, texts, find_text-texts, write_pair-set, execute_insert_text-texts,
  is_empty-texts, validate_text-texts,
}
use hash_bench.Cuckoo.Text.Growth.{resize_text, Terminated-set, resize_text_same}

module _ ⦃key : Key (List ℕ)⦄ where
  module _ ⦃fl : FloatOps⦄ where
    -- One pass from `RETRY` on, as `insert_round`, with what `memcmp` finds behind an empty string.
    unfoldable pub insert_round_text :
        Bool → Table (List ℕ) → List ℕ → ℕ → Option (Table (List ℕ) ⊎ Table (List ℕ))
    insert_round_text zeros t k v =
        let f = f_idx t.capacity k in
        let s = s_idx t.capacity k in
        if passes (has key.invalid) t.table f
        then some (inr (record t { table = write_pair t.table f k v }))
        else if passes (has key.invalid) t.table s
        then some (inr (record t { table = write_pair t.table s k v }))
        else elim (find_text t f) [
          | none ↦ none
          | some path1 ↦ elim (find_text t s) [
            | none ↦ none
            | some path2 ↦
                let path = choose_text zeros path1 path2 in
                if is_empty path1 && is_empty path2
                then elim (resize_text (record t { resizing_lock = 1 })) [
                  | none ↦ none
                  | some t' ↦ some (inl (record t' { resizing_lock = 0 }))
                ]
                else elim (validate_text t.table path) [
                  | none ↦ none
                  | some valid ↦ elim valid [
                    | true ↦ some (inr (record t { table = execute_insert_text t.table path k v }))
                    | false ↦ none
                  ]
                ]
          ]
        ]

    -- `Insert`, with fuel for the passes and what each finds behind an empty string.
    unfoldable pub insert_text :
        (ℕ → Bool) → ℕ → Table (List ℕ) → List ℕ → ℕ → Option (Table (List ℕ))
    insert_text zeros zero t k v = none
    insert_text zeros (suc f) t k v =
        if t.resizing_lock == 0
        then elim (insert_round_text (zeros f) t k v) [
          | none ↦ none
          | some (inl t') ↦ insert_text zeros f t' k v
          | some (inr t') ↦ some t'
        ]
        else none

  choose_text-cases :
      (zeros : Bool) (a b : List (ℕ × List ℕ))
      → (is_empty a && is_empty b) ≡ false
      → ((choose_text zeros (texts a) (texts b) ≡ texts a) × (is_empty a ≡ false))
        ⊎ ((choose_text zeros (texts a) (texts b) ≡ texts b) × (is_empty b ≡ false))
  unfolding choose_text
  choose_text-cases zeros [] [] h = cc
  choose_text-cases zeros [] (y ∷ b) h = inr (refl, refl)
  choose_text-cases zeros (x ∷ a) [] h = inl (refl, refl)
  choose_text-cases zeros (x ∷ a) (y ∷ b) h =
      elim (Bool-cases (starts_empty zeros (texts (x ∷ a)))) [
        | inl e ↦ elim (Bool-cases (ltb (length (texts (y ∷ b))) (length (texts (x ∷ a))))) [
          | inl l ↦ inr (rw l refl, refl)
          | inr l ↦ inr (rw (l, e) refl, refl)
        ]
        | inr e ↦ elim (Bool-cases (ltb (length (texts (y ∷ b))) (length (texts (x ∷ a))))) [
          | inl l ↦ inr (rw l refl, refl)
          | inr l ↦ inl (rw (l, e) refl, refl)
        ]
      ]

  shift-Terminated :
      (d : List (Pair (List ℕ))) (path : List (ℕ × List ℕ))
      → Terminated d
      → Terminated (shift d path)
  unfolding shift Terminated
  shift-Terminated d [] term = term
  shift-Terminated d (a ∷ []) term = term
  shift-Terminated d (a ∷ b ∷ path) term =
      let inner = shift-Terminated d (b ∷ path) term in
      elim (Option-cases (get_elem? (shift d (b ∷ path)) a.0)) [
        | inl e ↦ rw (copy, e) inner
        | inr (p, e) ↦
            rw (copy, e) (Terminated-set (shift d (b ∷ path)) b.0 p inner (inner a.0 p e))
      ]

  execute_insert-Terminated :
      (d : List (Pair (List ℕ))) (path : List (ℕ × List ℕ)) (k : List ℕ) (x : ℕ)
      → Terminated d
      → IsTerminated k
      → Terminated (execute_insert d path k x)
  unfolding execute_insert
  execute_insert-Terminated d [] k x term e = term
  execute_insert-Terminated d (a ∷ path) k x term e =
      Terminated-set (shift d (a ∷ path)) a.0 (record { key = k; value = x })
        (shift-Terminated d (a ∷ path) term) e

  -- A path that is a route for the new key, taken as a path with strings.
  along_text :
      ⦃fl : FloatOps⦄
      → (t : Table (List ℕ)) (k : List ℕ) (x : ℕ) → IsValid t
      → Terminated t.table
      → IsTerminated k
      → (target : ℕ) (path : List (ℕ × List ℕ)) → IsHome t.capacity k target
      → is_invalid k ≡ false
      → held t k ≡ none
      → IsRoute t.capacity t.table target path
      → (validate_text t.table (texts path) ≡ some true)
        × (execute_insert_text t.table (texts path) k x ≡ execute_insert t.table path k x)
        × Holds (assign (held t) k (some x)) (record t { table = execute_insert t.table path k x })
        × Terminated (execute_insert t.table path k x)
  along_text t k x v term end target path home valid absent route =
      let (fits, m) = along t k x v target path home valid absent route in
      (
        validate_text-texts t.table path term fits,
        execute_insert_text-texts t.table path k x,
        m,
        execute_insert-Terminated t.table path k x term end,
      )

  module _ ⦃fl : FloatOps⦄ (zeros : Bool) (t : Table (List ℕ)) (k : List ℕ) (x : ℕ) where
    -- What a pass that returns has done.
    abbrev pub StoredText : Type 0
    StoredText =
        (t' : Table (List ℕ)) × (insert_round_text zeros t k x ≡ some (inr t'))
        × Holds (assign (held t) k (some x)) t'
        × Terminated t'.table

    -- What a pass that resizes hands back to `RETRY`.
    abbrev pub ResizesText : Type 0
    ResizesText =
        (find_text t (f_idx t.capacity k) ≡ some [])
        × (find_text t (s_idx t.capacity k) ≡ some [])
        × (insert_round_text zeros t k x ≡ (elim (resize (record t { resizing_lock = 1 })) [
          | none ↦ none
          | some t' ↦ some (inl (record t' { resizing_lock = 0 }))
        ]))

    -- A pass whose chosen path can take the new key returns.
    stores_along :
        (path1 path2 path : List (ℕ × List ℕ))
        → passes (has key.invalid) t.table (f_idx t.capacity k) ≡ false
        → passes (has key.invalid) t.table (s_idx t.capacity k) ≡ false
        → find_text t (f_idx t.capacity k) ≡ some (texts path1)
        → find_text t (s_idx t.capacity k) ≡ some (texts path2)
        → (is_empty path1 && is_empty path2) ≡ false
        → choose_text zeros (texts path1) (texts path2) ≡ texts path
        → (validate_text t.table (texts path) ≡ some true)
          × (execute_insert_text t.table (texts path) k x ≡ execute_insert t.table path k x)
          × Holds
              (assign (held t) k (some x))
              (record t { table = execute_insert t.table path k x })
          × Terminated (execute_insert t.table path k x)
        → StoredText
    unfolding insert_round_text
    stores_along path1 path2 path a b e1 e2 some_left chosen (fits, same, m, ends) =
        let empty1 = is_empty-texts path1 in
        let empty2 = is_empty-texts path2 in
        (
          record t { table = execute_insert t.table path k x },
          rw (a, b, e1, e2, empty1, empty2, some_left, chosen, fits, chosen, same) refl,
          m,
          ends,
        )

    -- One pass of `Insert` with strings, of a valid key that a valid table does not hold, where the
    -- key, the keys of the table and the invalid key end in a NUL: whatever `memcmp` finds behind
    -- an empty string, the pass returns, and the table then is valid, its keys end in a NUL, and it
    -- holds the key with its value beside what it held; or both paths are too long, and the pass
    -- does what `resize` with keys does and clears the lock.
    pub insert_round_text-Holds :
        IsValid t
        → Terminated t.table
        → IsTerminated key.invalid
        → IsTerminated k
        → is_invalid k ≡ false
        → held t k ≡ none
        → StoredText ⊎ ResizesText
    unfolding insert_round_text
    insert_round_text-Holds v term inv end valid absent =
        let c = t.capacity in
        let p = entry k x in
        let f = f_idx c k in
        let s = s_idx c k in
        let (path1, e1, route1) = find_path-IsRoute t f v.tidy (mod-lt _ v.tidy.nonempty) in
        let (path2, e2, route2) = find_path-IsRoute t s v.tidy (mod-lt _ v.tidy.nonempty) in
        let found1 : find_text t f ≡ some (texts path1) = find_text-texts t f term ∙ rw e1 refl in
        let found2 : find_text t s ≡ some (texts path2) = find_text-texts t s term ∙ rw e2 refl in
        elim (Bool-cases (passes (has key.invalid) t.table f)) [
          | inl a ↦
              let (tidy, reads) = fill-IsTidy c t.table f p v.tidy a (inl refl) absent in
              inl (
                record t { table = set t.table f p },
                rw (a, write_pair-set t.table f k x) refl,
                (with_table-IsValid _ v tidy, reads),
                Terminated-set t.table f p term end,
              )
          | inr a ↦ elim (Bool-cases (passes (has key.invalid) t.table s)) [
            | inl b ↦
                let (tidy, reads) = fill-IsTidy c t.table s p v.tidy b (inr refl) absent in
                inl (
                  record t { table = set t.table s p },
                  rw (a, b, write_pair-set t.table s k x) refl,
                  (with_table-IsValid _ v tidy, reads),
                  Terminated-set t.table s p term end,
                )
            | inr b ↦ elim (Bool-cases (is_empty path1 && is_empty path2)) [
              | inl none_left ↦
                  let empty1 = is_empty-texts path1 in
                  let empty2 = is_empty-texts path2 in
                  let both = both_empty path1 path2 none_left in
                  let same = (resize_text_same (record t { resizing_lock = 1 }) inv term).0 in
                  inr (
                    found1 ∙ ap (λ path. some (texts path)) both.0,
                    found2 ∙ ap (λ path. some (texts path)) both.1,
                    rw (a, b, found1, found2, empty1, empty2, none_left, same) refl,
                  )
              | inr some_left ↦ elim (choose_text-cases zeros path1 path2 some_left) [
                | inl (chosen, full) ↦ inl (
                    stores_along path1 path2 path1 a b found1 found2 some_left chosen
                      (along_text t k x v term end f path1 (inl refl) valid absent (route1 full)))
                | inr (chosen, full) ↦ inl (
                    stores_along path1 path2 path2 a b found1 found2 some_left chosen
                      (along_text t k x v term end s path2 (inr refl) valid absent (route2 full)))
              ]
            ]
          ]
        ]

  module _ ⦃fl : FloatOps⦄ where
    -- Where `Insert` with strings of a valid key that a valid table does not hold returns, after
    -- however many resizes, and the key, the keys of the table and the invalid key end in a NUL, the
    -- table is valid and holds the key with its value beside what it held.
    pub insert_text-Holds :
        (zeros : ℕ → Bool) (f : ℕ) (t : Table (List ℕ)) (k : List ℕ) (x : ℕ) {t' : Table (List ℕ)}
        → IsValid t
        → Terminated t.table
        → IsTerminated key.invalid
        → IsTerminated k
        → is_invalid k ≡ false
        → held t k ≡ none
        → insert_text zeros f t k x ≡ some t'
        → Holds (assign (held t) k (some x)) t'
    unfolding insert_text
    insert_text-Holds zeros zero t k x v term inv end valid absent e = cc
    insert_text-Holds zeros (suc f) t k x {t'} v term inv end valid absent e =
        elim (insert_round_text-Holds (zeros f) t k x v term inv end valid absent) [
          | inl (t₁, run, m, kept) ↦
              subst (Holds (assign (held t) k (some x)))
                (some-injective t₁ t' (sym (ground (arith, v.unlocked, run)) ∙ e)) m
          | inr (_, _, run) ↦ elim (Option-cases (resize (record t { resizing_lock = 1 }))) [
            | inl a ↦ ground (arith, v.unlocked, run, a, e)
            | inr (t₁, a) ↦
                let t₂ = record t₁ { resizing_lock = 0 } in
                let (v₂, reads) = resize-Holds v a in
                let ends = (resize_text_same (record t { resizing_lock = 1 }) inv term).1 t₁ a in
                let rest : insert_text zeros f t₂ k x ≡ some t' =
                  ground (arith, v.unlocked, run, a, e) in
                let (v', final) =
                  insert_text-Holds zeros f t₂ k x v₂ ends inv end valid (reads k valid ∙ absent)
                    rest in
                (
                  v',
                  λ j n. final j n ∙ Dict.assign_congr (held t₂) (held t) k (some x) j (reads j n),
                )
          ]
        ]
