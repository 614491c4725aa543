-- ===== src/Cuckoo/Text/Growth.antt =====
-- `resize` of index/cuckoo_hash.h for keys of more than 8 bytes, and the keys that it leaves.
use mathlib.Core.Option.{some-injective}
use hash_bench.Common.{
  ℕ, zero, suc, ◌+◌, ◌/◌, ◌<◌, ◌≡◌, ◌∙◌, refl, sym, ap, subst, Bool, true, false, ◌&&◌, Option,
  none, some, List, [], ◌∷◌, length, get_elem?, set, if◌then◌else◌, inl, inr, Option-cases,
  Bool-cases, ℕ_discrete, get_elem?-set_self, get_elem?-set_ne, get_elem?_bound, length-set,
  get_elem?-replicate,
}
use hash_bench.Key.{Key, is_invalid}
use hash_bench.Dict.{Pair, new_pair, new_array}
use hash_bench.Probe.{passes, has}
use hash_bench.Float.{FloatOps}
use hash_bench.Cuckoo.{Table, f_idx, s_idx, find_path, push, execute_push, max_grows}
use hash_bench.Cuckoo.Growth.{
  grown, is_empty, choose_push, insert4resize, reinsert_one, reinsert, resize_loop, resize,
}
use hash_bench.Cuckoo.Text.{insert4resize_text}
use hash_bench.Cuckoo.Text.Paths.{IsTerminated, Terminated, insert4resize_text_same}

module _ ⦃key : Key (List ℕ)⦄ where
  -- One round of the loop over the old table.
  unfoldable pub reinsert_one_text : Table (List ℕ) → Pair (List ℕ) → Option (Bool × Table (List ℕ))
  reinsert_one_text t p = if is_invalid p.key then some (true, t) else insert4resize_text t p

  unfoldable pub reinsert_text :
      List (Pair (List ℕ)) → Table (List ℕ) → Option (Bool × Table (List ℕ))
  reinsert_text [] t = some (true, t)
  reinsert_text (p ∷ ps) t = elim (reinsert_one_text t p) [
    | none ↦ none
    | some (success, t') ↦ elim success [ true ↦ reinsert_text ps t' | false ↦ some (false, t') ]
  ]

  module _ ⦃fl : FloatOps⦄ where
    unfoldable pub resize_loop_text : ℕ → Table (List ℕ) → Option (Table (List ℕ))
    resize_loop_text zero t = none
    resize_loop_text (suc n) t =
        let capacity = grown t.capacity in
        elim (reinsert_text t.old_tab
          (record t { capacity = capacity; table = new_array capacity })) [
            | none ↦ none
            | some (success, t') ↦ elim success [ true ↦ some t' | false ↦ resize_loop_text n t' ]
          ]

    unfoldable pub resize_text : Table (List ℕ) → Option (Table (List ℕ))
    resize_text t =
        elim (resize_loop_text max_grows (record t { old_cap = t.capacity; old_tab = t.table })) [
          | none ↦ none
          | some t' ↦ some (record t' { nlocks = t'.capacity / t'.locksize + 1 })
        ]

  pub Terminated-set :
      (d : List (Pair (List ℕ))) (s : ℕ) (p : Pair (List ℕ))
      → Terminated d
      → IsTerminated p.key
      → Terminated (set d s p)
  unfolding Terminated
  Terminated-set d s p term e j q at = elim (ℕ_discrete s j) [
    | no other ↦ term j q (sym (get_elem?-set_ne d p other) ∙ at)
    | yes same ↦
        let at' : get_elem? (set d s p) s ≡ some q = ap (get_elem? (set d s p)) same ∙ at in
        let low : s < length d =
          subst (λ n. s < n) (length-set d s p) (get_elem?_bound (set d s p) s at') in
        let one : p ≡ q = some-injective p q (sym (get_elem?-set_self d s p low) ∙ at') in
        subst (λ (x : Pair (List ℕ)). IsTerminated x.key) one e
  ]

  push-Terminated :
      (d : List (Pair (List ℕ))) (path : List (ℕ × List ℕ)) (cur other : Pair (List ℕ))
      → Terminated d
      → IsTerminated cur.key
      → Terminated (push d path cur other).0
  unfolding push Terminated
  push-Terminated d [] cur other term e = term
  push-Terminated d (a ∷ path) cur other term e = elim (Option-cases (get_elem? d a.0)) [
    | inl g ↦ rw (push, g) term
    | inr (p, g) ↦
        rw (push, g)
          (push-Terminated (set d a.0 cur) path p cur (Terminated-set d a.0 cur term e)
            (term a.0 p g))
  ]

  -- What a step of `resize` keeps.
  pub record Kept (t t' : Table (List ℕ)) : Type 0 where
    pub terminated : Terminated t'.table
    pub old_tab : t'.old_tab ≡ t.old_tab

  KeptResult : Table (List ℕ) → Option (Bool × Table (List ℕ)) → Type 0
  KeptResult t none = Unit
  KeptResult t (some (b, t')) = Kept t t'

  insert4resize-Kept :
      (t : Table (List ℕ)) (p : Pair (List ℕ))
      → Terminated t.table
      → IsTerminated p.key
      → KeptResult t (insert4resize t p)
  unfolding insert4resize KeptResult execute_push
  insert4resize-Kept t p term e =
      let f = f_idx t.capacity p.key in
      let s = s_idx t.capacity p.key in
      elim (Bool-cases (passes (has key.invalid) t.table f)) [
        | inl a ↦ rw a (record { terminated = Terminated-set t.table f p term e; old_tab = refl })
        | inr a ↦ elim (Bool-cases (passes (has key.invalid) t.table s)) [
          | inl b ↦
              rw (a, b) (record { terminated = Terminated-set t.table s p term e; old_tab = refl })
          | inr b ↦ elim (Option-cases (find_path t f)) [
            | inl g ↦ rw (a, b, g) tt
            | inr (path1, g) ↦ elim (Option-cases (find_path t s)) [
              | inl h ↦ rw (a, b, g, h) tt
              | inr (path2, h) ↦ elim (Bool-cases (is_empty path1 && is_empty path2)) [
                | inl z ↦ rw (a, b, g, h, z) (record { terminated = term; old_tab = refl })
                | inr z ↦
                    rw (a, b, g, h, z)
                      (record {
                        terminated =
                            push-Terminated t.table (choose_push path1 path2) p t.pushed_1 term e;
                        old_tab = refl;
                      })
              ]
            ]
          ]
        ]
      ]

  reinsert_one-Kept :
      (t : Table (List ℕ)) (p : Pair (List ℕ))
      → Terminated t.table
      → IsTerminated p.key
      → KeptResult t (reinsert_one t p)
  unfolding reinsert_one KeptResult
  reinsert_one-Kept t p term e = elim (Bool-cases (is_invalid p.key)) [
    | inl i ↦ rw i (record { terminated = term; old_tab = refl })
    | inr i ↦ rw i (insert4resize-Kept t p term e)
  ]

  reinsert_one_text_same :
      (t : Table (List ℕ)) (p : Pair (List ℕ))
      → Terminated t.table
      → reinsert_one_text t p ≡ reinsert_one t p
  unfolding reinsert_one reinsert_one_text
  reinsert_one_text_same t p term =
      ap (λ r. if is_invalid p.key then some (true, t) else r) (insert4resize_text_same t p term)

  AllTerminated : List (Pair (List ℕ)) → Type 0
  AllTerminated [] = Unit
  AllTerminated (p ∷ ps) = IsTerminated p.key × AllTerminated ps

  Terminated-all : (d : List (Pair (List ℕ))) → Terminated d → AllTerminated d
  unfolding Terminated AllTerminated
  Terminated-all [] term = tt
  Terminated-all (p ∷ ps) term = (term 0 p refl, Terminated-all ps (λ s q e. term (suc s) q e))

  KeptResult-after :
      (t t' : Table (List ℕ)) (r : Option (Bool × Table (List ℕ)))
      → Kept t t'
      → KeptResult t' r
      → KeptResult t r
  unfolding KeptResult
  KeptResult-after t t' none a b = tt
  KeptResult-after t t' (some (ok, u)) a b = record {
    terminated = b.terminated;
    old_tab = b.old_tab ∙ a.old_tab;
  }

  -- Re-inserting with strings does what it does with keys, and keeps the keys ended by a NUL.
  reinsert_text_same :
      (ps : List (Pair (List ℕ))) (t : Table (List ℕ))
      → AllTerminated ps
      → Terminated t.table
      → (reinsert_text ps t ≡ reinsert ps t) × KeptResult t (reinsert ps t)
  unfolding reinsert reinsert_text KeptResult AllTerminated
  reinsert_text_same [] t all term = (refl, record { terminated = term; old_tab = refl })
  reinsert_text_same (p ∷ ps) t all term =
      let same = reinsert_one_text_same t p term in
      let kept = reinsert_one-Kept t p term all.0 in
      elim (Option-cases (reinsert_one t p)) [
        | inl e ↦ (rw (reinsert_text, reinsert, same, e) refl, rw (reinsert, e) tt)
        | inr ((success, t'), e) ↦
            let kept' : Kept t t' = rw e at kept in
            elim (Bool-cases success) [
              | inl good ↦
                  let (rest, rest_kept) = reinsert_text_same ps t' all.1 kept'.terminated in
                  (
                    rw (reinsert_text, reinsert, same, e, good) rest,
                    rw (reinsert, e, good) (KeptResult-after t t' (reinsert ps t') kept' rest_kept),
                  )
              | inr bad ↦
                  (rw (reinsert_text, reinsert, same, e, bad) refl, rw (reinsert, e, bad) kept')
            ]
      ]

  new_array-Terminated : (n : ℕ) → IsTerminated key.invalid → Terminated (new_array n)
  unfolding Terminated
  new_array-Terminated n e s p at =
      subst (λ (x : Pair (List ℕ)). IsTerminated x.key)
        (sym (some-injective p new_pair (get_elem?-replicate n new_pair s at))) e

  module _ ⦃fl : FloatOps⦄ where
    resize_loop_text_same :
        (n : ℕ) (t : Table (List ℕ))
        → IsTerminated key.invalid
        → Terminated t.old_tab
        → (resize_loop_text n t ≡ resize_loop n t)
          × ((t' : Table (List ℕ)) → resize_loop n t ≡ some t' → Terminated t'.table)
    unfolding resize_loop resize_loop_text KeptResult
    resize_loop_text_same zero t inv term = (refl, λ t' e. cc)
    resize_loop_text_same (suc n) t inv term =
        let c = grown t.capacity in
        let start = record t { capacity = c; table = new_array c } in
        let (same, kept) =
          reinsert_text_same t.old_tab start (Terminated-all t.old_tab term)
            (new_array-Terminated c inv) in
        elim (Option-cases (reinsert t.old_tab start)) [
          | inl e ↦ (
            rw (resize_loop_text, resize_loop, same, e) refl,
            λ t' h. cc (rw (resize_loop, e) at h),
          )
          | inr ((success, t₁), e) ↦
              let kept' : Kept start t₁ = rw e at kept in
              elim (Bool-cases success) [
                | inl good ↦ (
                  rw (resize_loop_text, resize_loop, same, e, good) refl,
                  λ t' h.
                      subst (λ (x : Table (List ℕ)). Terminated x.table)
                        (some-injective t₁ t' (rw (resize_loop, e, good) at h)) kept'.terminated,
                )
                | inr bad ↦
                    let (rest, ends) =
                      resize_loop_text_same n t₁ inv (subst Terminated (sym kept'.old_tab) term) in
                    (
                      rw (resize_loop_text, resize_loop, same, e, bad) rest,
                      λ t' h. ends t' (rw (resize_loop, e, bad) at h),
                    )
              ]
        ]

    -- Where the keys of the table and the invalid key end in a NUL, `resize` with strings does what
    -- it does with keys, and the keys of the new table end in a NUL.
    pub resize_text_same :
        (t : Table (List ℕ))
        → IsTerminated key.invalid
        → Terminated t.table
        → (resize_text t ≡ resize t)
          × ((t' : Table (List ℕ)) → resize t ≡ some t' → Terminated t'.table)
    unfolding resize resize_text
    resize_text_same t inv term =
        let start = record t { old_cap = t.capacity; old_tab = t.table } in
        let (same, ends) = resize_loop_text_same max_grows start inv term in
        elim (Option-cases (resize_loop max_grows start)) [
          | inl e ↦ (rw (resize_text, resize, same, e) refl, λ t' h. cc (rw (resize, e) at h))
          | inr (t₁, e) ↦ (
            rw (resize_text, resize, same, e) refl,
            λ t' h.
                subst (λ (x : Table (List ℕ)). Terminated x.table)
                  (some-injective (record t₁ { nlocks = t₁.capacity / t₁.locksize + 1 }) t'
                    (rw (resize, e) at h))
                  (ends t₁ e),
          )
        ]
