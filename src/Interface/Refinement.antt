-- ===== src/Interface/Refinement.antt =====
-- The loop of `exec_func` in `ycsb_exec` of bench/benchmark.hpp, against the map that a table stands
-- for.
use mathlib.Core.Option
use mathlib.Core.Option.{some-injective, none-ne-some}
use hash_bench.Common.{
  ℕ, ◌+◌, ◌≡◌, ◌∙◌, refl, sym, ap, ap₂, subst, inl, inr, Bool, false, Option-cases, Option, none,
  some, List, [], ◌∷◌, if◌then◌else◌, ◌==◌,
}
use hash_bench.Key.{Key, is_invalid}
use hash_bench.Dict.{Pair, assign, is_some, value_or_none}
use hash_bench.Dict
use hash_bench.Interface.{Hash}
use hash_bench.Interface.Client.{Op, op_insert, op_read, op_update, op_delete, exec}
use hash_bench.Interface.Loops.{Models}

module _ {ℓ} {K : Type ℓ} ⦃key : Key K⦄ where
  abbrev overwrite_value : (K → Option ℕ) → Pair K → K → Option ℕ
  overwrite_value m p = assign m p.key (Option.map (λ _. p.value) (m p.key))

  -- What the loop does to a map, and the number of keys it reads that are not there or hold `NONE`.
  abbrev pub exec_map : (K → Option ℕ) → List (Op × Pair K) → ℕ × (K → Option ℕ)
  exec_map m [] = (0, m)
  exec_map m ((op_insert, p) ∷ ops) = exec_map (assign m p.key (some p.value)) ops
  exec_map m ((op_read, p) ∷ ops) =
      let rest = exec_map m ops in
      (if value_or_none (m p.key) == 0 then rest.0 + 1 else rest.0, rest.1)
  exec_map m ((op_update, p) ∷ ops) = exec_map (overwrite_value m p) ops
  exec_map m ((op_delete, p) ∷ ops) = exec_map m ops

  -- The keys are valid, and a key that is inserted is not there.
  abbrev pub IsLegal : (K → Option ℕ) → List (Op × Pair K) → Type 0
  IsLegal m [] = Unit
  IsLegal m ((op_insert, p) ∷ ops) =
      (is_invalid p.key ≡ false) × (m p.key ≡ none) × IsLegal (assign m p.key (some p.value)) ops
  IsLegal m ((op_read, p) ∷ ops) = (is_invalid p.key ≡ false) × IsLegal m ops
  IsLegal m ((op_update, p) ∷ ops) = (is_invalid p.key ≡ false) × IsLegal (overwrite_value m p) ops
  IsLegal m ((op_delete, p) ∷ ops) = IsLegal m ops

  module _ (h : Hash K) where
    -- The steps of the loop, backwards from its result.
    exec_inserts :
        (t : h.Table) (p : Pair K) (ops : List (Op × Pair K)) {r : ℕ × h.Table}
        → exec h t ((op_insert, p) ∷ ops) ≡ some r
        → (t₁ : h.Table) × (h.insert t p.key p.value ≡ some t₁) × (exec h t₁ ops ≡ some r)
    unfolding exec
    exec_inserts t p ops {r} e = elim (Option-cases (h.insert t p.key p.value)) [
      | inl f ↦
          let run : exec h t ((op_insert, p) ∷ ops) ≡ none = rw (exec, f) refl in
          absurd (none-ne-some r (sym run ∙ e))
      | inr (t₁, f) ↦
          let run : exec h t ((op_insert, p) ∷ ops) ≡ exec h t₁ ops = rw (exec, f) refl in
          (t₁, f, sym run ∙ e)
    ]

    exec_updates :
        (t : h.Table) (p : Pair K) (ops : List (Op × Pair K)) {r : ℕ × h.Table}
        → exec h t ((op_update, p) ∷ ops) ≡ some r
        → (u : Bool × h.Table) × (h.update t p.key p.value ≡ some u) × (exec h u.1 ops ≡ some r)
    unfolding exec
    exec_updates t p ops {r} e = elim (Option-cases (h.update t p.key p.value)) [
      | inl f ↦
          let run : exec h t ((op_update, p) ∷ ops) ≡ none = rw (exec, f) refl in
          absurd (none-ne-some r (sym run ∙ e))
      | inr (u, f) ↦
          let run : exec h t ((op_update, p) ∷ ops) ≡ exec h u.1 ops = rw (exec, f) refl in
          (u, f, sym run ∙ e)
    ]

    exec_reads :
        (t : h.Table) (p : Pair K) (ops : List (Op × Pair K)) {r : ℕ × h.Table}
        → exec h t ((op_read, p) ∷ ops) ≡ some r
        → (v : ℕ) × (h.get t p.key ≡ some v)
          × ((s : ℕ × h.Table) × (exec h t ops ≡ some s)
              × ((if v == 0 then s.0 + 1 else s.0, s.1) ≡ r))
    unfolding exec
    exec_reads t p ops {r} e = elim (Option-cases (h.get t p.key)) [
      | inl f ↦
          let run : exec h t ((op_read, p) ∷ ops) ≡ none = rw (exec, f) refl in
          absurd (none-ne-some r (sym run ∙ e))
      | inr (v, f) ↦ elim (Option-cases (exec h t ops)) [
        | inl g ↦
            let run : exec h t ((op_read, p) ∷ ops) ≡ none = rw (exec, f, g) refl in
            absurd (none-ne-some r (sym run ∙ e))
        | inr (s, g) ↦
            let run : exec h t ((op_read, p) ∷ ops) ≡ some (if v == 0 then s.0 + 1 else s.0, s.1) =
              rw (exec, f, g) refl in
            (v, f, (s, g, some-injective (if v == 0 then s.0 + 1 else s.0, s.1) r (sym run ∙ e)))
      ]
    ]

    exec-small :
        (t : h.Table) (ops : List (Op × Pair K)) {r : ℕ × h.Table}
        → exec h t ops ≡ some r
        → h.IsSmall r.1
        → h.IsSmall t
    unfolding exec
    exec-small t [] {r} e small = subst (λ r. h.IsSmall r.1) (sym (some-injective (0, t) r e)) small
    exec-small t ((op_insert, p) ∷ ops) {r} e small =
        let (t₁, f, rest) = exec_inserts t p ops e in
        h.small_before p.key p.value f (exec-small t₁ ops rest small)
    exec-small t ((op_read, p) ∷ ops) {r} e small =
        let (v, f, (s, rest, out)) = exec_reads t p ops e in
        exec-small t ops rest (subst (λ r. h.IsSmall r.1) (sym out) small)
    exec-small t ((op_update, p) ∷ ops) {r} e small =
        let (u, f, rest) = exec_updates t p ops e in
        h.small_before-update p.key p.value f (exec-small u.1 ops rest small)
    exec-small t ((op_delete, p) ∷ ops) {r} e small = exec-small t ops e small

    -- On a table that holds a map, with operations that are legal for the map, where the loop comes to
    -- its end and leaves a table that has not outgrown its promises: it prints "not found" as often
    -- as the map says, and the table holds what the operations make of the map.
    pub exec-exec_map :
        (m : K → Option ℕ) (t : h.Table) (ops : List (Op × Pair K)) {r : ℕ × h.Table}
        → Models h m t
        → IsLegal m ops
        → exec h t ops ≡ some r
        → h.IsSmall r.1
        → (r.0 ≡ (exec_map m ops).0) × Models h (exec_map m ops).1 r.1
    unfolding exec
    exec-exec_map m t [] {r} v legal e small =
        let same = some-injective (0, t) r e in
        (sym (ap (λ r. r.0) same), subst (λ r. Models h m r.1) same v)
    exec-exec_map m t ((op_insert, p) ∷ ops) {r} v (valid, absent, legal) e small =
        let (t₁, f, rest) = exec_inserts t p ops e in
        let (v₁, reads₁) =
          h.insert-view p.key p.value v.0 valid (v.1 p.key valid ∙ absent) f
            (exec-small t₁ ops rest small) in
        exec-exec_map (assign m p.key (some p.value)) t₁ ops
          (v₁, λ q n. reads₁ q n ∙ Dict.assign_congr (h.view t) m p.key (some p.value) q (v.1 q n))
          legal rest small
    exec-exec_map m t ((op_read, p) ∷ ops) {r} v (valid, legal) e small =
        let (x, f, (s, rest, out)) = exec_reads t p ops e in
        let (lines, v') =
          exec-exec_map m t ops v legal rest (subst (λ r. h.IsSmall r.1) (sym out) small) in
        let read : value_or_none (m p.key) ≡ x = some-injective (value_or_none (m p.key)) x (
          sym (h.get-view p.key v.0 valid ∙ ap (λ o. some (value_or_none o)) (v.1 p.key valid))
          ∙ f) in
        (
          sym (ap (λ r. r.0) out) ∙ ap₂ (λ a b. if a == 0 then b + 1 else b) (sym read) lines,
          subst (λ r. Models h (exec_map m ops).1 r.1) out v',
        )
    exec-exec_map m t ((op_update, p) ∷ ops) {r} v (valid, legal) e small =
        let (u, f, rest) = exec_updates t p ops e in
        let (t₁, f₁, (v₁, reads₁)) = h.update-view p.key p.value v.0 valid in
        let same : (is_some (h.view t p.key), t₁) ≡ u =
          some-injective (is_some (h.view t p.key), t₁) u (sym f₁ ∙ f) in
        let rest' : exec h t₁ ops ≡ some r = subst (λ u. exec h u.1 ops ≡ some r) (sym same) rest in
        exec-exec_map (overwrite_value m p) t₁ ops
          (
            v₁,
            λ q n.
                reads₁ q n
                ∙ ap (λ o. assign (h.view t) p.key (Option.map (λ _. p.value) o) q)
                    (v.1 p.key valid)
                ∙ Dict.assign_congr (h.view t) m p.key (Option.map (λ _. p.value) (m p.key)) q
                    (v.1 q n),
          )
          legal rest' small
    exec-exec_map m t ((op_delete, p) ∷ ops) {r} v legal e small =
        exec-exec_map m t ops v legal e small
