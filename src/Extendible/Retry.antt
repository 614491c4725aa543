-- ===== src/Extendible/Retry.antt =====
-- The whole of `Insert` of index/extendible_hash.h, with its retries.
use hash_bench.Common.{
  ◌==◌, ℕ, zero, suc, ◌+◌, ◌<◌, ◌≤◌, ◌≡◌, ◌⊎◌, ◌∙◌, refl, sym, ap, subst, arith, inl, inr, Bool,
  true, false, Option-cases, Bool-cases, none, some, length, set, ◌++◌, ◌∷◌, [],
}
use hash_bench.Common.Int.{ℤ, pos, negsuc}
use mathlib.Core.Option.{some-injective, none-ne-some}
use hash_bench.Key.{Key, is_invalid}
use hash_bench.Dict.{Pair, assign}
use hash_bench.Dict
use hash_bench.Extendible.{
  Directory, Table, in_range, update_directory, insert_round, insert, update, locate, acquire,
  acquire_after, f_hash, f_idx, is_free, prefix, slot_at, num_slot, with_slots, split,
}
use hash_bench.Probe.{search}
use hash_bench.Extendible.Routing.{update_directory-over}
use hash_bench.Extendible.View.{IsValid, content, Contains}
use hash_bench.Extendible.Insert.{insert_round-cases}

-- What `suspend` and `lock` let through.
from_suspend :
    (sema : ℤ) {d d' : Directory}
    → (elim sema [ pos zero ↦ some d | pos (suc n) ↦ none | negsuc n ↦ none ]) ≡ some d'
    → d ≡ d'
from_suspend (pos zero) {d} {d'} e = some-injective d d' e
from_suspend (pos (suc n)) {d} {d'} e = absurd (none-ne-some d' e)
from_suspend (negsuc n) {d} {d'} e = absurd (none-ne-some d' e)

from_lock :
    (sema : ℤ) {d d' : Directory}
    → (elim sema [ pos n ↦ some d | negsuc n ↦ none ]) ≡ some d'
    → d ≡ d'
from_lock (pos n) {d} {d'} e = some-injective d d' e
from_lock (negsuc n) {d} {d'} e = absurd (none-ne-some d' e)

-- The update of the directory does not make it less deep.
update_directory_depth :
    (d d' : Directory) (local_depth hash s0 s1 : ℕ)
    → update_directory d local_depth hash s0 s1 ≡ some d'
    → d.depth ≤ d'.depth
unfolding update_directory
update_directory_depth d d' local_depth hash s0 s1 e =
    elim (Bool-cases (in_range d.depth local_depth)) [
      | inr over ↦
          absurd (none-ne-some d' (sym (update_directory-over d local_depth hash s0 s1 over) ∙ e))
      | inl fits ↦ elim (Bool-cases (local_depth == d.depth)) [
        | inl same ↦
            let deeper = from_suspend d.sema (rw (update_directory, fits, same) at e) in
            omega (arith, ap (λ c. c.depth) deeper)
        | inr other ↦
            let kept = from_lock d.sema (rw (update_directory, fits, other) at e) in
            omega (arith, ap (λ c. c.depth) kept)
      ]
    ]

module _ {ℓ} {K : Type ℓ} ⦃key : Key K⦄ where
  abbrev depth_after : Table K ⊎ Table K → ℕ
  depth_after (inl t) = t.dir.depth
  depth_after (inr t) = t.dir.depth

  insert_round_depth :
      (t : Table K) (k : K) (x : ℕ) (r : Table K ⊎ Table K)
      → insert_round t k x ≡ some r
      → t.dir.depth ≤ depth_after r
  unfolding insert_round
  insert_round_depth t k x r e = elim (Option-cases (acquire t (f_hash k))) [
    | inl f ↦
        let run : insert_round t k x ≡ none = rw (insert_round, f) refl in
        absurd (none-ne-some r (sym run ∙ e))
    | inr ((target, seg), f) ↦
        let free = is_free seg.local_depth (prefix (f_hash k) seg.local_depth) in
        elim (Option-cases (search free (slot_at (f_idx k)) seg.slots num_slot 0)) [
          | inr (s, g) ↦
              let after =
                with_slots t target seg (set seg.slots s (record { key = k; value = x })) in
              let run : insert_round t k x ≡ some (inr after) = rw (insert_round, f, g) refl in
              subst (λ o. t.dir.depth ≤ depth_after o) (some-injective (inr after) r (sym run ∙ e))
                (omega arith)
          | inl g ↦
              let n = length t.segments in
              elim (Option-cases (update_directory t.dir seg.local_depth (f_hash k) n (n + 1))) [
                | inl u ↦
                    let run : insert_round t k x ≡ none = rw (insert_round, f, g, u) refl in
                    absurd (none-ne-some r (sym run ∙ e))
                | inr (d', u) ↦
                    let after : Table K = record {
                      dir = d';
                      segments =
                          set t.segments target (record seg { locked = true })
                          ++ (split seg).0 ∷ (split seg).1 ∷ [];
                    } in
                    let run : insert_round t k x ≡ some (inl after) =
                      rw (insert_round, f, g, u) refl in
                    subst (λ o. t.dir.depth ≤ depth_after o)
                      (some-injective (inl after) r (sym run ∙ e))
                      (update_directory_depth t.dir d' seg.local_depth (f_hash k) n (n + 1) u)
              ]
        ]
  ]

  pub update_depth :
      (t : Table K) (k : K) (x : ℕ) (r : Bool × Table K)
      → update t k x ≡ some r
      → t.dir.depth ≤ r.1.dir.depth
  unfolding update
  update_depth t k x r e = elim (Option-cases (acquire_after t (f_hash k))) [
    | inl f ↦
        let run : update t k x ≡ none = rw (update, f) refl in absurd (none-ne-some r (sym run ∙ e))
    | inr ((target, seg), f) ↦ elim (Option-cases (locate seg k)) [
      | inl g ↦
          let run : update t k x ≡ some (false, t) = rw (update, f, g) refl in
          subst (λ o. t.dir.depth ≤ o.1.dir.depth) (some-injective (false, t) r (sym run ∙ e))
            (omega arith)
      | inr (s, g) ↦
          let after = with_slots t target seg (Dict.write_value seg.slots s x) in
          let run : update t k x ≡ some (true, after) = rw (update, f, g) refl in
          subst (λ o. t.dir.depth ≤ o.1.dir.depth) (some-injective (true, after) r (sym run ∙ e))
            (omega arith)
    ]
  ]

  -- `Insert` by its passes.
  insert_passes :
      (f : ℕ) (t : Table K) (k : K) (x : ℕ) {t' : Table K}
      → insert (suc f) t k x ≡ some t'
      → (insert_round t k x ≡ some (inr t'))
        ⊎ ((t₁ : Table K) × (insert_round t k x ≡ some (inl t₁)) × (insert f t₁ k x ≡ some t'))
  unfolding insert
  insert_passes f t k x {t'} e = elim (Option-cases (insert_round t k x)) [
    | inl g ↦
        let run : insert (suc f) t k x ≡ none = rw (insert, g) refl in
        absurd (none-ne-some t' (sym run ∙ e))
    | inr (inl t₁, g) ↦
        let run : insert (suc f) t k x ≡ insert f t₁ k x = rw (insert, g) refl in
        inr (t₁, g, sym run ∙ e)
    | inr (inr t₁, g) ↦
        let run : insert (suc f) t k x ≡ some t₁ = rw (insert, g) refl in
        inl (g ∙ ap (λ t. some (inr t)) (some-injective t₁ t' (sym run ∙ e)))
  ]

  -- `Insert` does not make the directory less deep.
  pub insert_depth :
      (f : ℕ) (t : Table K) (k : K) (x : ℕ) {t' : Table K}
      → insert f t k x ≡ some t'
      → t.dir.depth ≤ t'.dir.depth
  unfolding insert
  insert_depth zero t k x {t'} e = absurd (none-ne-some t' e)
  insert_depth (suc f) t k x {t'} e = elim (insert_passes f t k x e) [
    | inl g ↦ insert_round_depth t k x (inr t') g
    | inr (t₁, g, rest) ↦
        omega (arith, insert_round_depth t k x (inl t₁) g, insert_depth f t₁ k x rest)
  ]

  -- Where `Insert` of a valid key that a valid table does not hold returns, after however many
  -- splits, with a directory of depth below 64, the table is valid and holds the key with its
  -- value beside what it held.
  pub insert-Contains :
      (f : ℕ) (t : Table K) (k : K) (x : ℕ) {t' : Table K}
      → IsValid t
      → is_invalid k ≡ false
      → content t k ≡ none
      → insert f t k x ≡ some t'
      → t'.dir.depth < 64
      → Contains (assign (content t) k (some x)) t'
  unfolding insert
  insert-Contains zero t k x {t'} v valid absent e small = absurd (none-ne-some t' e)
  insert-Contains (suc f) t k x {t'} v valid absent e small =
      let shallow : t.dir.depth < 64 = omega (arith, insert_depth (suc f) t k x e, small) in
      elim (insert_passes f t k x e) [
        | inl g ↦ elim (insert_round-cases k x v valid absent shallow) [
          | inl (far, stuck) ↦ cc
          | inr (inl (t₁, run, m)) ↦
              let same : t₁ ≡ t' = cc in subst (Contains (assign (content t) k (some x))) same m
          | inr (inr (full, (t₁, run, m))) ↦ cc
        ]
        | inr (t₁, g, rest) ↦ elim (insert_round-cases k x v valid absent shallow) [
          | inl (far, stuck) ↦ cc
          | inr (inl (t₂, run, m)) ↦ cc
          | inr (inr (full, (t₂, run, m))) ↦
              let same : t₁ ≡ t₂ = cc in
              let rest' : insert f t₂ k x ≡ some t' =
                subst (λ t. insert f t k x ≡ some t') same rest in
              let next = insert-Contains f t₂ k x m.0 valid (m.1 k valid ∙ absent) rest' small in
              (
                next.0,
                λ q n.
                    next.1 q n ∙ Dict.assign_congr (content t₂) (content t) k (some x) q (m.1 q n),
              )
        ]
      ]
