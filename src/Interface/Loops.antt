-- ===== src/Interface/Loops.antt =====
-- The loops of the clients over a table that holds a list of pairs with different keys.
use mathlib.Core.Option
use mathlib.Core.Option.{some-injective, none-ne-some}
use hash_bench.Common.{
  ℕ, zero, suc, ◌≡◌, ◌∙◌, refl, sym, ap, subst, arith, inl, inr, true, false, Bool-cases,
  Option-cases, Option, none, some, List, [], ◌∷◌, take, drop, ◌==◌,
}
use hash_bench.Key.{Key, ◌≐◌, is_invalid, ≐_symm}
use hash_bench.Dict.{Pair, assign, assign_self, is_some, value_or_none, count, find}
use hash_bench.Dict
use hash_bench.Interface.{Hash}
use hash_bench.Interface
use hash_bench.Interface.Client.{finished, insert_all, get_all, update_all, delete_all}

module _ {ℓ} {K : Type ℓ} ⦃key : Key K⦄ where
  -- Valid keys, each one once.
  abbrev pub IsDistinct : List (Pair K) → Type 0
  IsDistinct [] = Unit
  IsDistinct (p ∷ ps) = (is_invalid p.key ≡ false) × (count p.key ps ≡ 0) × IsDistinct ps

  -- Each pair is in the map.
  abbrev pub IsStored : (K → Option ℕ) → List (Pair K) → Type 0
  IsStored m [] = Unit
  IsStored m (p ∷ ps) = (is_invalid p.key ≡ false) × (m p.key ≡ some p.value) × IsStored m ps

  -- No key is in the map.
  abbrev pub IsAbsent : (K → Option ℕ) → List (Pair K) → Type 0
  IsAbsent m [] = Unit
  IsAbsent m (p ∷ ps) = (m p.key ≡ none) × IsAbsent m ps

  assign_other :
      (m : K → Option ℕ) (k : K) (o : Option ℕ) (q : K) → (k ≐ q) ≡ false → assign m k o q ≡ m q
  assign_other m k o q e = rw e refl

  count_other :
      (k : K) (p : Pair K) (ps : List (Pair K))
      → count k (p ∷ ps) ≡ 0
      → ((k ≐ p.key) ≡ false) × (count k ps ≡ 0)
  unfolding count
  count_other k p ps c = (≐_symm k p.key ∙ (ground (arith, c)), ground (arith, c))

  assign-IsStored :
      (m : K → Option ℕ) (k : K) (o : Option ℕ) (ps : List (Pair K))
      → count k ps ≡ 0
      → IsStored m ps
      → IsStored (assign m k o) ps
  assign-IsStored m k o [] c s = tt
  assign-IsStored m k o (p ∷ ps) c (valid, e, s) =
      let (other, c') = count_other k p ps c in
      (valid, assign_other m k o p.key other ∙ e, assign-IsStored m k o ps c' s)

  pub assign-IsAbsent :
      (m : K → Option ℕ) (k : K) (o : Option ℕ) (ps : List (Pair K))
      → count k ps ≡ 0
      → IsAbsent m ps
      → IsAbsent (assign m k o) ps
  assign-IsAbsent m k o [] c s = tt
  assign-IsAbsent m k o (p ∷ ps) c (e, s) =
      let (other, c') = count_other k p ps c in
      (assign_other m k o p.key other ∙ e, assign-IsAbsent m k o ps c' s)

  -- A list of distinct keys is a map that stores each of its pairs.
  find-IsStored_other :
      (p : Pair K) (qs ps : List (Pair K))
      → count p.key ps ≡ 0
      → IsStored (λ k. find k qs) ps
      → IsStored (λ k. find k (p ∷ qs)) ps
  unfolding find
  find-IsStored_other p qs [] c s = tt
  find-IsStored_other p qs (r ∷ ps) c (valid, e, s) =
      let (other, c') = count_other p.key r ps c in
      (valid, ground (arith, other, e), find-IsStored_other p qs ps c' s)

  pub find-IsStored : (ps : List (Pair K)) → IsDistinct ps → IsStored (λ k. find k ps) ps
  find-IsStored [] d = tt
  find-IsStored (p ∷ ps) (valid, c, d) =
      (valid, Dict.find_first p ps, find-IsStored_other p ps ps c (find-IsStored ps d))

  -- The map that the list adds to.
  abbrev pub extend : (K → Option ℕ) → List (Pair K) → K → Option ℕ
  extend m ps k = elim (find k ps) [ none ↦ m k | some v ↦ some v ]

  extend-assign :
      (m : K → Option ℕ) (p : Pair K) (ps : List (Pair K)) (q : K)
      → count p.key ps ≡ 0
      → extend (assign m p.key (some p.value)) ps q ≡ extend m (p ∷ ps) q
  unfolding find
  extend-assign m p ps q c = elim (Bool-cases (p.key ≐ q)) [
    | inl same ↦ ground (arith, same, Dict.find-eq-none q ps (Dict.count_congr p.key q ps same ∙ c))
    | inr other ↦ ground (arith, other)
  ]

  assign-find :
      (m : K → Option ℕ) (p : Pair K) (ps : List (Pair K)) (q : K)
      → count p.key ps ≡ 0
      → m q ≡ find q (p ∷ ps)
      → assign m p.key none q ≡ find q ps
  unfolding find
  assign-find m p ps q c e = elim (Bool-cases (p.key ≐ q)) [
    | inl same ↦ ground (arith, same, Dict.find-eq-none q ps (Dict.count_congr p.key q ps same ∙ c))
    | inr other ↦ ground (arith, other, e)
  ]

  -- What the tables keep of a map, as `Linear.View.Models`.
  module _ (h : Hash K) where
    abbrev pub Models : (K → Option ℕ) → h.Table → Type ℓ
    Models m t = Interface.Models h.IsValid h.view m t

    insert_all_step :
        (t : h.Table) (p : Pair K) (ps : List (Pair K)) {t' : h.Table}
        → insert_all h t (p ∷ ps) ≡ some t'
        → (t₁ : h.Table) × (h.insert t p.key p.value ≡ some t₁) × (insert_all h t₁ ps ≡ some t')
    unfolding insert_all
    insert_all_step t p ps {t'} e =
        let then_insert : Option h.Table → Option h.Table =
          λ o. elim o [ none ↦ none | some t ↦ insert_all h t ps ] in
        elim (Option-cases (h.insert t p.key p.value)) [
          | inl f ↦ absurd (none-ne-some t' (sym (ap then_insert f) ∙ e))
          | inr (t₁, f) ↦ (t₁, f, sym (ap then_insert f) ∙ e)
        ]

    insert_all-small :
        (t : h.Table) (ps : List (Pair K)) {t' : h.Table}
        → insert_all h t ps ≡ some t'
        → h.IsSmall t'
        → h.IsSmall t
    unfolding insert_all
    insert_all-small t [] {t'} e small = subst h.IsSmall (sym (some-injective t t' e)) small
    insert_all-small t (p ∷ ps) {t'} e small =
        let (t₁, f, rest) = insert_all_step t p ps e in
        h.small_before p.key p.value f (insert_all-small t₁ ps rest small)

    -- After the loop of `Insert`, where it returns, a table holds the list beside what it held.
    pub insert_all-Models :
        (m : K → Option ℕ) (t : h.Table) (ps : List (Pair K)) {t' : h.Table}
        → Models m t
        → IsDistinct ps
        → IsAbsent m ps
        → insert_all h t ps ≡ some t'
        → h.IsSmall t'
        → Models (extend m ps) t'
    unfolding insert_all find
    insert_all-Models m t [] {t'} v d a e small = subst (Models m) (some-injective t t' e) v
    insert_all-Models m t (p ∷ ps) {t'} (v, reads) (valid, c, d) (absent, a) e small =
        let (t₁, f, rest) = insert_all_step t p ps e in
        let (v₁, reads₁) =
          h.insert-view p.key p.value v valid (reads p.key valid ∙ absent) f
            (insert_all-small t₁ ps rest small) in
        let next =
          insert_all-Models (assign m p.key (some p.value)) t₁ ps
            (
              v₁,
              λ q n. reads₁ q n ∙ Dict.assign_congr (h.view t) m p.key (some p.value) q (reads q n),
            )
            d (assign-IsAbsent m p.key (some p.value) ps c a) rest small in
        (next.0, λ q n. next.1 q n ∙ extend-assign m p ps q c)

    -- The loop of `Get` on a table that holds the pairs finds no difference.
    pub get_all_lem :
        (m : K → Option ℕ) (t : h.Table) (ps : List (Pair K))
        → Models m t
        → IsStored m ps
        → get_all h t ps ≡ some true
    unfolding get_all
    get_all_lem m t [] v s = refl
    get_all_lem m t (p ∷ ps) v (valid, e, s) =
        let read : h.get t p.key ≡ some p.value =
          h.get-view p.key v.0 valid ∙ ap (λ o. some (value_or_none o)) (v.1 p.key valid ∙ e) in
        let same : (p.value == p.value) ≡ true = ground arith in
        rw (get_all, read, same) (get_all_lem m t ps v s)

    -- The loop of `Update` with the values that are there finds all and leaves what the table holds.
    pub update_all_lem :
        (m : K → Option ℕ) (t : h.Table) (ps : List (Pair K))
        → Models m t
        → IsStored m ps
        → (t' : h.Table) × (update_all h t ps ≡ some (finished t')) × Models m t'
    unfolding update_all
    update_all_lem m t [] v s = (t, refl, v)
    update_all_lem m t (p ∷ ps) v (valid, e, s) =
        let held : h.view t p.key ≡ some p.value = v.1 p.key valid ∙ e in
        let (t₁, f, (v₁, reads₁)) = h.update-view p.key p.value v.0 valid in
        let (t', rest, v') =
          update_all_lem m t₁ ps
            (
              v₁,
              λ q n.
                  reads₁ q n
                  ∙ ap (λ o. assign (h.view t) p.key (Option.map (λ _. p.value) o) q) held
                  ∙ sym (assign_self (h.view t) p.key held q)
                  ∙ v.1 q n,
            )
            s in
        (t', rw (update_all, f, held) rest, v')

    -- The loop of `Delete` on the first pairs finds all and leaves the other pairs.
    pub delete_all_lem :
        (n : ℕ) (t : h.Table) (ps : List (Pair K))
        → Models (λ k. find k ps) t
        → IsDistinct ps
        → (t' : h.Table) × (delete_all h t (take n ps) ≡ some (finished t'))
          × Models (λ k. find k (drop n ps)) t'
    unfolding delete_all
    delete_all_lem zero t ps v d = (t, refl, v)
    delete_all_lem (suc n) t [] v d = (t, refl, v)
    delete_all_lem (suc n) t (p ∷ ps) v (valid, c, d) =
        let held : h.view t p.key ≡ some p.value = v.1 p.key valid ∙ Dict.find_first p ps in
        let (t₁, f, (v₁, reads₁)) = h.delete-view p.key v.0 valid in
        let (t', rest, v') =
          delete_all_lem n t₁ ps (v₁, λ q k. reads₁ q k ∙ assign-find (h.view t) p ps q c (v.1 q k))
            d in
        (t', rw (delete_all, f, held) rest, v')
