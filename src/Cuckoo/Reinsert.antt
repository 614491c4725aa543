-- ===== src/Cuckoo/Reinsert.antt =====
-- `insert4resize` of index/cuckoo_hash.h, and the loop of `resize` that calls it.
use mathlib.Core.Option.{or_else}
use native.Mathlib.Nat.{mod-lt}
use hash_bench.Common.{
  ℕ, ◌+◌, ◌≤◌, ◌≡◌, ◌∙◌, ◌⊎◌, ◌&&◌, refl, sym, subst, inl, inr, Bool, true, false, none, some, List,
  [], ◌∷◌, arith, set, Bool-cases,
}
use hash_bench.Key.{Key, is_invalid, ≐_refl, ≐_invalid}
use hash_bench.Dict.{Pair, new_pair, new_array, hit, count, find, Unique, assign}
use hash_bench.Dict
use hash_bench.Probe.{passes, has}
use hash_bench.Cuckoo.{Table, f_idx, s_idx, execute_push}
use hash_bench.Cuckoo.Growth.{is_empty, choose_push, insert4resize, reinsert_one, reinsert}
use hash_bench.Cuckoo.View.{IsHome, IsTidy}
use hash_bench.Cuckoo.Push.{push-IsTidy}
use hash_bench.Cuckoo.Insert.{IsRoute, find_path-IsRoute, fill-IsTidy}

module _ {ℓ} {K : Type ℓ} ⦃key : Key K⦄ where
  choose_push-cases :
      (a b : List (ℕ × K))
      → (is_empty a && is_empty b) ≡ false
      → ((choose_push a b ≡ a) × (is_empty a ≡ false))
        ⊎ ((choose_push a b ≡ b) × (is_empty b ≡ false))
  unfolding choose_push
  choose_push-cases [] [] h = cc
  choose_push-cases [] (y ∷ b) h = ground arith
  choose_push-cases (x ∷ a) [] h = ground arith
  choose_push-cases (x ∷ a) (y ∷ b) h = ground arith

  -- The fields that `insert4resize` leaves alone.
  pub record Keeps (t t' : Table K) : Type ℓ where
    pub capacity : t'.capacity ≡ t.capacity
    pub old_cap : t'.old_cap ≡ t.old_cap
    pub old_tab : t'.old_tab ≡ t.old_tab
    pub locksize : t'.locksize ≡ t.locksize
    pub resizing : t'.resizing_lock ≡ t.resizing_lock

  -- The new table is tidy, and has `p` beside what it had.
  abbrev Adds : Table K → Pair K → Table K → Type ℓ
  Adds t p t' =
      IsTidy t.capacity t'.table
      × ((k : K)
          → is_invalid k ≡ false
          → find k t'.table ≡ assign (λ j. find j t.table) p.key (some p.value) k)

  execute_push-Adds :
      (t : Table K) (p : Pair K) (target : ℕ) (path : List (ℕ × K))
      → IsTidy t.capacity t.table
      → is_invalid p.key ≡ false
      → find p.key t.table ≡ none
      → IsHome t.capacity p.key target
      → IsRoute t.capacity t.table target path
      → Adds t p (execute_push (record t { pushed_0 = p }) path)
  unfolding execute_push
  execute_push-Adds t p target path tidy valid absent home route =
      push-IsTidy t.capacity t.table path p t.pushed_1 tidy (route.chain p home valid)
        route.distinct valid absent

  execute_push-Keeps :
      (t : Table K) (p : Pair K) (path : List (ℕ × K))
      → Keeps t (execute_push (record t { pushed_0 = p }) path)
  unfolding execute_push
  execute_push-Keeps t p path = record {
    capacity = refl;
    old_cap = refl;
    old_tab = refl;
    locksize = refl;
    resizing = refl;
  }

  -- `insert4resize` of a new key returns; where it returns `true` the entry is in.
  insert4resize-Adds :
      (t : Table K) (p : Pair K)
      → IsTidy t.capacity t.table
      → is_invalid p.key ≡ false
      → find p.key t.table ≡ none
      → (r : Bool) × (t' : Table K) × (insert4resize t p ≡ some (r, t'))
        × Keeps t t'
        × (r ≡ true → Adds t p t')
  unfolding insert4resize
  insert4resize-Adds t p tidy valid absent =
      let c = t.capacity in
      let f = f_idx c p.key in
      let s = s_idx c p.key in
      let (path1, e1, route1) = find_path-IsRoute t f tidy (mod-lt _ tidy.nonempty) in
      let (path2, e2, route2) = find_path-IsRoute t s tidy (mod-lt _ tidy.nonempty) in
      elim (Bool-cases (passes (has key.invalid) t.table f)) [
        | inl a ↦ (
          true,
          record t { table = set t.table f p },
          rw a,
          record {
            capacity = refl;
            old_cap = refl;
            old_tab = refl;
            locksize = refl;
            resizing = refl;
          },
          λ _. fill-IsTidy c t.table f p tidy a (inl refl) absent,
        )
        | inr a ↦ elim (Bool-cases (passes (has key.invalid) t.table s)) [
          | inl b ↦ (
            true,
            record t { table = set t.table s p },
            rw (a, b),
            record {
              capacity = refl;
              old_cap = refl;
              old_tab = refl;
              locksize = refl;
              resizing = refl;
            },
            λ _. fill-IsTidy c t.table s p tidy b (inr refl) absent,
          )
          | inr b ↦ elim (Bool-cases (is_empty path1 && is_empty path2)) [
            | inl none_left ↦ (
              false,
              record t { pushed_0 = p },
              rw (a, b, e1, e2, none_left),
              record {
                capacity = refl;
                old_cap = refl;
                old_tab = refl;
                locksize = refl;
                resizing = refl;
              },
              λ n. cc,
            )
            | inr some_left ↦ elim (choose_push-cases path1 path2 some_left) [
              | inl (chosen, full) ↦ (
                true,
                execute_push (record t { pushed_0 = p }) path1,
                rw (a, b, e1, e2, some_left, chosen),
                execute_push-Keeps t p path1,
                λ _. execute_push-Adds t p f path1 tidy valid absent (inl refl) (route1 full),
              )
              | inr (chosen, full) ↦ (
                true,
                execute_push (record t { pushed_0 = p }) path2,
                rw (a, b, e1, e2, some_left, chosen),
                execute_push-Keeps t p path2,
                λ _. execute_push-Adds t p s path2 tidy valid absent (inr refl) (route2 full),
              )
            ]
          ]
        ]
      ]

  Keeps-trans : {t u w : Table K} → Keeps t u → Keeps u w → Keeps t w
  Keeps-trans a b = record {
    capacity = b.capacity ∙ a.capacity;
    old_cap = b.old_cap ∙ a.old_cap;
    old_tab = b.old_tab ∙ a.old_tab;
    locksize = b.locksize ∙ a.locksize;
    resizing = b.resizing ∙ a.resizing;
  }

  Keeps-refl : {t : Table K} → Keeps t t
  Keeps-refl = record {
    capacity = refl;
    old_cap = refl;
    old_tab = refl;
    locksize = refl;
    resizing = refl;
  }

  -- The new table is tidy, and has the entries `ps` beside what it had.
  abbrev pub AddsAll : Table K → List (Pair K) → Table K → Type ℓ
  AddsAll t ps t' =
      IsTidy t.capacity t'.table
      × ((k : K) → is_invalid k ≡ false → find k t'.table ≡ or_else (find k t.table) (find k ps))

  -- A key that waits to be moved is not yet in the table, and waits once.
  abbrev pub IsDue : List (Pair K) → List (Pair K) → Type ℓ
  IsDue d ps = (k : K) → is_invalid k ≡ false → count k d + count k ps ≤ 1

  reinsert_one-AddsAll :
      (t : Table K) (p : Pair K) (ps : List (Pair K))
      → IsTidy t.capacity t.table
      → IsDue t.table (p ∷ ps)
      → (r : Bool) × (t' : Table K) × (reinsert_one t p ≡ some (r, t'))
        × Keeps t t'
        × (r ≡ true → AddsAll t (p ∷ []) t' × IsDue t'.table ps)
  unfolding reinsert_one count find or_else
  reinsert_one-AddsAll t p ps tidy due = elim (Bool-cases (is_invalid p.key)) [
    | inl e ↦ (
      true,
      t,
      rw e,
      Keeps-refl,
      λ _. (
        (tidy, λ k n. ground (arith, ≐_invalid p.key k e n)),
        λ k n. ground (arith, due k n, ≐_invalid p.key k e n),
      ),
    )
    | inr e ↦
        let absent = Dict.find-eq-none p.key t.table (ground (arith, due p.key e, ≐_refl p.key)) in
        let (r, t', run, keeps, adds) = insert4resize-Adds t p tidy e absent in
        (
          r,
          t',
          rw e run,
          keeps,
          λ good.
              let (tidy', reads) = adds good in
              (
                (tidy', λ k n. ground (arith, reads k n, due k n, Dict.find-eq-none k t.table)),
                λ k n. ground (
                  arith,
                  reads k n,
                  due k n,
                  tidy'.unique k n,
                  Dict.find-eq-none k t.table,
                  Dict.count_of_find-none k t'.table,
                ),
              ),
        )
  ]

  pub reinsert-AddsAll :
      (ps : List (Pair K)) (t : Table K)
      → IsTidy t.capacity t.table
      → IsDue t.table ps
      → (r : Bool) × (t' : Table K) × (reinsert ps t ≡ some (r, t'))
        × Keeps t t'
        × (r ≡ true → AddsAll t ps t')
  unfolding reinsert count find or_else
  reinsert-AddsAll [] t tidy due = (true, t, refl, Keeps-refl, λ _. (tidy, λ k n. ground arith))
  reinsert-AddsAll (p ∷ ps) t tidy due =
      let (r, t₁, run, keeps, adds) = reinsert_one-AddsAll t p ps tidy due in
      elim (Bool-cases r) [
        | inr bad ↦ (false, t₁, rw (run, bad, reinsert), keeps, λ n. cc)
        | inl good ↦
            let ((tidy₁, reads₁), due₁) = adds good in
            let (r₂, t₂, run₂, keeps₂, adds₂) =
              reinsert-AddsAll ps t₁ (subst (λ c. IsTidy c t₁.table) (sym keeps.capacity) tidy₁)
                due₁ in
            (
              r₂,
              t₂,
              rw (run, good, reinsert) run₂,
              Keeps-trans keeps keeps₂,
              λ good₂.
                  let (tidy₂, reads₂) = adds₂ good₂ in
                  (
                    subst (λ c. IsTidy c t₂.table) keeps.capacity tidy₂,
                    λ k n. ground (arith, reads₂ k n, reads₁ k n),
                  ),
            )
      ]
