-- ===== src/Cuckoo/Insert.antt =====
-- `find_path` and one pass of `Insert` of index/cuckoo_hash.h.
use native.Mathlib.Nat.{mod-lt}
use hash_bench.Common.{
  ℕ, zero, suc, ◌≤◌, ◌<◌, ◌≡◌, ◌≢◌, ◌∙◌, ◌⊎◌, ◌&&◌, refl, sym, subst, ap, inl, inr, true, false,
  none, some, List, [], ◌∷◌, arith, length, get_elem?_total, set, Bool-cases, ◌==◌,
}
use hash_bench.Key.{Key, is_invalid, ≐_invalid}
use hash_bench.Dict.{Pair, count, find, Unique, assign}
use hash_bench.Dict
use hash_bench.Probe.{passes, passes_lem, has}
use hash_bench.Float.{FloatOps}
use hash_bench.Cuckoo.{
  Table, Walk, terribly_wrong, too_long, reached, append_step, f_idx, s_idx, other_slot, walk,
  find_path, cuckoo_threshold, execute_insert,
}
use hash_bench.Cuckoo.Growth.{is_empty, choose_path, validate, resize, insert_round}
use hash_bench.Cuckoo.View.{IsHome, IsTidy, IsValid, Holds, held, overwrite-IsTidy}
use hash_bench.Cuckoo.Walks.{Distinct, Chain, walk-Distinct, walk-Chain, walk-length}
use hash_bench.Cuckoo.Push.{execute_insert-push, push-IsTidy}

module _ {ℓ} {K : Type ℓ} ⦃key : Key K⦄ where
  Walk-cases :
      (w : Walk K)
      → (w ≡ terribly_wrong) ⊎ ((w ≡ too_long) ⊎ ((path : List (ℕ × K)) × (w ≡ reached path)))
  Walk-cases terribly_wrong = inl refl
  Walk-cases too_long = inr (inl refl)
  Walk-cases (reached path) = inr (inr (path, refl))

  append_step-ne :
      (s : ℕ) (k : K) (w : Walk K) → w ≢ terribly_wrong → append_step s k w ≢ terribly_wrong
  append_step-ne s k terribly_wrong n e = n refl
  append_step-ne s k too_long n e = cc
  append_step-ne s k (reached path) n e = cc

  other_slot_total :
      (c : ℕ) (k : K) (cur : ℕ)
      → 0 < c
      → IsHome c k cur
      → (next : ℕ) × (other_slot c k cur ≡ some next) × (next < c)
  unfolding other_slot
  other_slot_total c k cur pos home = elim (Bool-cases (f_idx c k == cur)) [
    | inl e ↦ (s_idx c k, rw e, mod-lt _ pos)
    | inr e ↦ (f_idx c k, ground arith, mod-lt _ pos)
  ]

  -- In a tidy table the loop of `find_path`, started at any slot, never comes to its `exit(1)`.
  pub walk_total :
      (c : ℕ) (d : List (Pair K)) (n cur : ℕ)
      → IsTidy c d
      → cur < c
      → walk c d n cur ≢ terribly_wrong
  unfolding walk
  walk_total c d zero cur tidy lt = ground arith
  walk_total c d (suc n) cur tidy lt =
      let (p, r) = get_elem?_total d cur (omega (arith, tidy.width)) in
      elim (Bool-cases (is_invalid p.key)) [
        | inl e ↦ rw (r, e, walk) (ground arith)
        | inr e ↦
            let (next, o, below) =
              other_slot_total c p.key cur tidy.nonempty (tidy.placed cur p r e) in
            let (q, g) = get_elem?_total d next (omega (arith, tidy.width)) in
            rw (r, e, o, g, walk)
              (append_step-ne next q.key (walk c d n next) (walk_total c d n next tidy below))
      ]

  -- What `find_path` returns where it returns a path: an entry with a home at the path's start can
  -- be moved in along it, no slot comes twice, and it fits the array of locks.
  pub record IsRoute (c : ℕ) (d : List (Pair K)) (target : ℕ) (path : List (ℕ × K)) : Type ℓ where
    pub chain : (p : Pair K) → IsHome c p.key target → is_invalid p.key ≡ false → Chain c d p path
    pub distinct : Distinct path
    pub short : length path ≤ cuckoo_threshold

  -- `find_path` from a slot of a tidy table returns, and a path that is not empty is a route.
  pub find_path-IsRoute :
      (t : Table K) (target : ℕ)
      → IsTidy t.capacity t.table
      → target < t.capacity
      → (path : List (ℕ × K)) × (find_path t target ≡ some path)
        × (is_empty path ≡ false → IsRoute t.capacity t.table target path)
  unfolding find_path
  find_path-IsRoute t target tidy lt =
      let c = t.capacity in
      let d = t.table in
      let (p, r) = get_elem?_total d target (omega (arith, tidy.width)) in
      elim (Walk-cases (walk c d cuckoo_threshold target)) [
        | inl e ↦ absurd (walk_total c d cuckoo_threshold target tidy lt e)
        | inr (inl e) ↦ ([], rw (r, e, find_path), λ n. cc)
        | inr (inr (path, e)) ↦ (
          (target, p.key) ∷ path,
          rw (r, e, find_path),
          λ _. record {
            chain = λ q home valid.
                (home, valid, (p, r, refl, walk-Chain c d cuckoo_threshold target path p e r));
            distinct = walk-Distinct c d cuckoo_threshold target path e;
            short = omega (arith, walk-length c d cuckoo_threshold target path e);
          },
        )
      ]

  validate-Chain :
      (c : ℕ) (d : List (Pair K)) (p : Pair K) (path : List (ℕ × K))
      → Chain c d p path
      → validate d path ≡ true
  unfolding validate
  validate-Chain c d p [] ch = refl
  validate-Chain c d p ((s, k) ∷ path) (home, valid, (q, g, e, rest)) =
      rw (g, passes) (ground (arith, (key.same_iff q.key k).1 e, validate-Chain c d q path rest))

  pub both_empty : (a b : List (ℕ × K)) → (is_empty a && is_empty b) ≡ true → (a ≡ []) × (b ≡ [])
  both_empty [] [] h = (refl, refl)
  both_empty [] (y ∷ b) h = cc
  both_empty (x ∷ a) b h = cc

  choose_path-cases :
      (a b : List (ℕ × K))
      → (is_empty a && is_empty b) ≡ false
      → ((choose_path a b ≡ a) × (is_empty a ≡ false))
        ⊎ ((choose_path a b ≡ b) × (is_empty b ≡ false))
  unfolding choose_path
  choose_path-cases [] [] h = cc
  choose_path-cases [] (y ∷ b) h = ground arith
  choose_path-cases (x ∷ a) [] h = ground arith
  choose_path-cases (x ∷ a) (y ∷ b) h = elim (Bool-cases (is_invalid x.1)) [
    | inl e ↦ ground arith
    | inr e ↦ ground arith
  ]

  -- An empty slot takes a new entry that has its home there.
  pub fill-IsTidy :
      (c : ℕ) (d : List (Pair K)) (s : ℕ) (p : Pair K)
      → IsTidy c d
      → passes (has key.invalid) d s ≡ true
      → IsHome c p.key s
      → find p.key d ≡ none
      → IsTidy c (set d s p)
        × ((k : K)
            → is_invalid k ≡ false
            → find k (set d s p) ≡ assign (λ j. find j d) p.key (some p.value) k)
  fill-IsTidy c d s p tidy free home absent =
      let (q, r, e) = passes_lem key.invalid d s free in
      let once = Dict.Unique-fresh d s q p tidy.unique r (Dict.count_of_find-none p.key d absent) in
      (
        overwrite-IsTidy s q p tidy r once (λ _. home),
        λ k n.
            ground (
              arith,
              Dict.find-set k d s q p r (tidy.unique k n) (once k n),
              ≐_invalid q.key k e n,
            ),
      )

  pub with_table-IsValid :
      {t : Table K} (d : List (Pair K))
      → IsValid t
      → IsTidy t.capacity d
      → IsValid (record t { table = d })
  with_table-IsValid d v tidy = record {
    unlocked = v.unlocked;
    striped = v.striped;
    stripes = v.stripes;
    tidy = tidy;
  }

  abbrev pub entry : K → ℕ → Pair K
  entry k x = record { key = k; value = x }

  module _ ⦃fl : FloatOps⦄ (t : Table K) (k : K) (x : ℕ) where
    -- What a pass that returns has done.
    abbrev pub Stored : Type ℓ
    Stored =
        (t' : Table K) × (insert_round t k x ≡ some (inr t'))
        × Holds (assign (held t) k (some x)) t'

    -- What a pass that resizes hands back to `RETRY`.
    abbrev pub Resizes : Type ℓ
    Resizes =
        (find_path t (f_idx t.capacity k) ≡ some [])
        × (find_path t (s_idx t.capacity k) ≡ some [])
        × (insert_round t k x ≡ (elim (resize (record t { resizing_lock = 1 })) [
          | none ↦ none
          | some t' ↦ some (inl (record t' { resizing_lock = 0 }))
        ]))

    pub along :
        (v : IsValid t) (target : ℕ) (path : List (ℕ × K))
        → IsHome t.capacity k target
        → is_invalid k ≡ false
        → held t k ≡ none
        → IsRoute t.capacity t.table target path
        → (validate t.table path ≡ true)
          × Holds
              (assign (held t) k (some x))
              (record t { table = execute_insert t.table path k x })
    along v target path home valid absent route =
        let p = entry k x in
        let chain = route.chain p home valid in
        let same = execute_insert-push t.capacity t.table path k x p chain route.distinct in
        let (tidy, reads) =
          push-IsTidy t.capacity t.table path p p v.tidy chain route.distinct valid absent in
        (
          validate-Chain t.capacity t.table p path chain,
          (
            with_table-IsValid _ v (subst (IsTidy t.capacity) (sym same) tidy),
            λ j n. ap (find j) same ∙ reads j n,
          ),
        )

    -- One pass of `Insert` of a valid key that a valid table does not hold either returns, and the
    -- table then is valid and holds the key with its value beside what it held; or both paths are too
    -- long, and the pass does what `resize` does and clears the lock.
    pub insert_round-Holds : IsValid t → is_invalid k ≡ false → held t k ≡ none → Stored ⊎ Resizes
    unfolding insert_round
    insert_round-Holds v valid absent =
        let c = t.capacity in
        let p = entry k x in
        let f = f_idx c k in
        let s = s_idx c k in
        let (path1, e1, route1) = find_path-IsRoute t f v.tidy (mod-lt _ v.tidy.nonempty) in
        let (path2, e2, route2) = find_path-IsRoute t s v.tidy (mod-lt _ v.tidy.nonempty) in
        elim (Bool-cases (passes (has key.invalid) t.table f)) [
          | inl a ↦
              let (tidy, reads) = fill-IsTidy c t.table f p v.tidy a (inl refl) absent in
              inl (_, rw a, (with_table-IsValid _ v tidy, reads))
          | inr a ↦ elim (Bool-cases (passes (has key.invalid) t.table s)) [
            | inl b ↦
                let (tidy, reads) = fill-IsTidy c t.table s p v.tidy b (inr refl) absent in
                inl (_, rw (a, b), (with_table-IsValid _ v tidy, reads))
            | inr b ↦ elim (Bool-cases (is_empty path1 && is_empty path2)) [
              | inl none_left ↦ inr (
                e1 ∙ ap some (both_empty path1 path2 none_left).0,
                e2 ∙ ap some (both_empty path1 path2 none_left).1,
                rw (a, b, e1, e2, none_left),
              )
              | inr some_left ↦ elim (choose_path-cases path1 path2 some_left) [
                | inl (chosen, full) ↦
                    let (fits, m) = along v f path1 (inl refl) valid absent (route1 full) in
                    inl (
                      record t { table = execute_insert t.table path1 k x },
                      rw (a, b, e1, e2, some_left, chosen, fits),
                      m,
                    )
                | inr (chosen, full) ↦
                    let (fits, m) = along v s path2 (inr refl) valid absent (route2 full) in
                    inl (
                      record t { table = execute_insert t.table path2 k x },
                      rw (a, b, e1, e2, some_left, chosen, fits),
                      m,
                    )
              ]
            ]
          ]
        ]
