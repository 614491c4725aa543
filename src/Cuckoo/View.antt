-- ===== src/Cuckoo/View.antt =====
-- What a table of index/cuckoo_hash.h means, and `Get`, `Update` and `Delete` on it.
use mathlib.Core.Option
use mathlib.Core.Option.{some-injective}
use hash_bench.Common.{
  List, [], ◌∷◌, ℕ, ◌+◌, ◌/◌, ◌<◌, ◌≡◌, ◌∙◌, ◌⊎◌, sym, subst, dec_lt, ℕ_discrete,
  get_elem?-set_self, get_elem?-set_ne, inl, inr, true, false, Option, none, some, arith, length,
  length-set, get_elem?, get_elem?_bound, set, if◌then◌else◌, Bool-cases, Option-cases, List,
}
use hash_bench.Key.{Key, ◌≐◌, is_invalid, ≐_refl, ≐_congr, ≐_invalid}
use hash_bench.Dict.{
  Pair, is_some, assign, assign_self, none_value, count, find, Unique, new_pair, new_array,
  value_or_none,
}
use hash_bench.Dict
use hash_bench.Probe.{passes, passes_lem, has}
use hash_bench.Cuckoo.{utilization_size, Table, f_idx, s_idx, locate, read, get, update, delete}

module _ {ℓ} {K : Type ℓ} ⦃key : Key K⦄ where
  -- `s` is one of the two slots of `k`.
  abbrev pub IsHome : ℕ → K → ℕ → Type 0
  IsHome capacity k s = (f_idx capacity k ≡ s) ⊎ (s_idx capacity k ≡ s)

  -- Every entry stands in one of the two slots of its key.
  abbrev pub IsPlaced : ℕ → List (Pair K) → Type ℓ
  IsPlaced capacity table =
      (s : ℕ) (p : Pair K)
      → get_elem? table s ≡ some p
      → is_invalid p.key ≡ false
      → IsHome capacity p.key s

  -- The slots are `capacity` many, no key stands twice, and each stands where it is looked for.
  pub record IsTidy (capacity : ℕ) (table : List (Pair K)) : Type ℓ where
    pub width : length table ≡ capacity
    pub nonempty : 0 < capacity
    pub unique : Unique table
    pub placed : IsPlaced capacity table

  -- the table as a map
  abbrev pub held : Table K → K → Option ℕ
  held t k = find k t.table

  pub record IsValid (t : Table K) : Type ℓ where
    pub unlocked : t.resizing_lock ≡ 0
    pub striped : t.locksize ≡ 256
    pub stripes : t.nlocks ≡ t.capacity / 256 + 1
    pub tidy : IsTidy t.capacity t.table

  -- `t` is a valid table that holds the map `m`.
  abbrev pub Holds : (K → Option ℕ) → Table K → Type ℓ
  Holds m t = IsValid t × ((k : K) → is_invalid k ≡ false → held t k ≡ m k)

  passes_at :
      (k : K) (d : List (Pair K)) (s : ℕ) (p : Pair K)
      → get_elem? d s ≡ some p
      → passes (has k) d s ≡ p.key ≐ k
  passes_at k d s p e = rw (e, passes)

  home-passes :
      (k : K) (d : List (Pair K)) (s i : ℕ) (p : Pair K)
      → get_elem? d s ≡ some p
      → (p.key ≐ k) ≡ true
      → i ≡ s
      → passes (has k) d i ≡ true
  home-passes k d s i p r e same = rw same (passes_at k d s p r ∙ e)

  -- A key that occurs in a placed table passes at one of its two slots.
  placed-passes :
      (k : K) (c : ℕ) (d : List (Pair K))
      → is_invalid k ≡ false
      → IsPlaced c d
      → 0 < count k d
      → (passes (has k) d (f_idx c k) ≡ true) ⊎ (passes (has k) d (s_idx c k) ≡ true)
  placed-passes k c d valid placed h =
      let (s, p, r, e) = Dict.count-pos k d h in
      let same = (key.same_iff p.key k).0 e in
      elim (placed s p r (≐_congr p.key k key.invalid e ∙ valid)) [
        | inl f ↦ inl (home-passes k d s (f_idx c k) p r e (subst (λ j. f_idx c j ≡ s) same f))
        | inr f ↦ inr (home-passes k d s (s_idx c k) p r e (subst (λ j. s_idx c j ≡ s) same f))
      ]

  pub locate-none :
      (c : ℕ) (d : List (Pair K)) (k : K)
      → is_invalid k ≡ false
      → IsPlaced c d
      → locate c d k ≡ none
      → find k d ≡ none
  unfolding locate
  locate-none c d k valid placed e = elim (dec_lt 0 (count k d)) [
    | yes h ↦ elim (placed-passes k c d valid placed h) [
      | inl a ↦ ground (arith, a, e)
      | inr a ↦ ground (arith, a, e)
    ]
    | no h ↦ Dict.find-eq-none k d (omega arith)
  ]

  found :
      (d : List (Pair K)) (k : K) (s : ℕ)
      → is_invalid k ≡ false
      → Unique d
      → passes (has k) d s ≡ true
      → (p : Pair K) × (get_elem? d s ≡ some p) × (has k p ≡ true) × (find k d ≡ some p.value)
  found d k s valid once a =
      let (p, r, h) = passes_lem k d s a in (p, r, h, Dict.find-at k d s p (once k valid) r h)

  pub locate-some :
      (c : ℕ) (d : List (Pair K)) (k : K) {s : ℕ}
      → is_invalid k ≡ false
      → Unique d
      → locate c d k ≡ some s
      → (p : Pair K) × (get_elem? d s ≡ some p) × (has k p ≡ true) × (find k d ≡ some p.value)
  unfolding locate
  locate-some c d k {s} valid once e =
      found d k s valid once (elim (Bool-cases (passes (has k) d (f_idx c k))) [
        | inl a ↦ subst (λ i. passes (has k) d i ≡ true) (some-injective _ s (rw a at e)) a
        | inr a ↦ elim (Bool-cases (passes (has k) d (s_idx c k))) [
          | inl b ↦ subst (λ i. passes (has k) d i ≡ true) (some-injective _ s (rw (a, b) at e)) b
          | inr b ↦ cc (rw (a, b) at e)
        ]
      ])

  -- `Get` of a valid key in a valid table returns the value that the table holds for the key, and
  -- `NONE` if it holds none.
  pub get-held :
      {t : Table K} (k : K)
      → IsValid t
      → is_invalid k ≡ false
      → get t k ≡ some (value_or_none (held t k))
  unfolding get read
  get-held {t} k v valid = elim (Option-cases (locate t.capacity t.table k)) [
    | inl e ↦ ground (arith, v.unlocked, e, locate-none t.capacity t.table k valid v.tidy.placed e)
    | inr (s, e) ↦
        let (p, r, h, f) = locate-some t.capacity t.table k valid v.tidy.unique e in
        ground (arith, v.unlocked, e, r, f)
  ]

  -- A pair written to one of its slots leaves the table placed.
  pub overwrite-IsPlaced :
      (c : ℕ) (d : List (Pair K)) (s : ℕ) (p q : Pair K)
      → IsPlaced c d
      → get_elem? d s ≡ some p
      → (is_invalid q.key ≡ false → IsHome c q.key s)
      → IsPlaced c (set d s q)
  overwrite-IsPlaced c d s p q placed r home i x e valid = elim (ℕ_discrete s i) [
    | yes same ↦
        let at_s = get_elem?-set_self d s q (get_elem?_bound d s r) in
        let equal = some-injective q x (sym at_s ∙ rw (← same) at e) in
        subst (IsHome c x.key) same (
          subst (λ y. IsHome c y.key s) equal
            (home (subst (λ y. is_invalid y.key ≡ false) (sym equal) valid)))
    | no other ↦ placed i x (sym (get_elem?-set_ne d q other) ∙ e) valid
  ]

  pub overwrite-IsTidy :
      {c : ℕ} {d : List (Pair K)} (s : ℕ) (p q : Pair K)
      → IsTidy c d
      → get_elem? d s ≡ some p
      → Unique (set d s q)
      → (is_invalid q.key ≡ false → IsHome c q.key s)
      → IsTidy c (set d s q)
  overwrite-IsTidy {c} {d} s p q tidy r once home = record {
    width = length-set d s q ∙ tidy.width;
    nonempty = tidy.nonempty;
    unique = once;
    placed = overwrite-IsPlaced c d s p q tidy.placed r home;
  }

  module _ {t : Table K} (s : ℕ) (p q : Pair K) (v : IsValid t) (r : get_elem? t.table s ≡ some p)
      (valid : is_invalid p.key ≡ false)
      (same : ((q.key ≐ p.key) ≡ true) ⊎ (is_invalid q.key ≡ true)) where
    once : Unique (set t.table s q)
    once = Dict.Unique-overwrite t.table s p q v.tidy.unique r same

    overwrite-IsValid : IsValid (record t { table = set t.table s q })
    overwrite-IsValid = record {
      unlocked = v.unlocked;
      striped = v.striped;
      stripes = v.stripes;
      tidy = overwrite-IsTidy s p q v.tidy r once λ n. elim same [
        | inl e ↦
            subst (λ k. IsHome t.capacity k s) (sym ((key.same_iff q.key p.key).0 e))
              (v.tidy.placed s p r valid)
        | inr e ↦ cc (e, n)
      ];
    }

    overwrite-held :
        (k : K)
        → is_invalid k ≡ false
        → find k (set t.table s q)
          ≡ (if q.key ≐ k then some q.value else if p.key ≐ k then none else held t k)
    overwrite-held k n = Dict.find-set k t.table s p q r (v.tidy.unique k n) (once k n)

  -- `Update` of a valid key in a valid table returns whether the key is there; the table is valid
  -- after it and holds what it held, with the new value for that key if it was there.
  pub update-Holds :
      {t : Table K} (k : K) (x : ℕ)
      → IsValid t
      → is_invalid k ≡ false
      → (t' : Table K) × (update t k x ≡ some (is_some (held t k), t'))
        × Holds (assign (held t) k (Option.map (λ _. x) (held t k))) t'
  unfolding update Dict.write_value
  update-Holds {t} k x v valid = elim (Option-cases (locate t.capacity t.table k)) [
    | inl e ↦
        let absent = locate-none t.capacity t.table k valid v.tidy.placed e in
        (
          t,
          ground (arith, v.unlocked, e, absent),
          (v, λ q n. rw absent (assign_self (held t) k absent q)),
        )
    | inr (s, e) ↦
        let (p, r, h, f) = locate-some t.capacity t.table k valid v.tidy.unique e in
        let q : Pair K = record p { value = x } in
        let there = ≐_congr p.key k key.invalid h ∙ valid in
        (
          record t { table = set t.table s q },
          ground (arith, v.unlocked, e, r, f),
          (
            overwrite-IsValid s p q v r there (inl (≐_refl p.key)),
            λ j n. ground (
              arith,
              overwrite-held s p q v r there (inl (≐_refl p.key)) j n,
              ≐_congr p.key k j h,
              f,
            ),
          ),
        )
  ]

  -- `Delete` of a valid key in a valid table returns whether the key is there; the table is valid
  -- after it and holds what it held, without that key.
  pub delete-Holds :
      {t : Table K} (k : K)
      → IsValid t
      → is_invalid k ≡ false
      → (t' : Table K) × (delete t k ≡ some (is_some (held t k), t'))
        × Holds (assign (held t) k none) t'
  unfolding delete Dict.write_key
  delete-Holds {t} k v valid = elim (Option-cases (locate t.capacity t.table k)) [
    | inl e ↦
        let absent = locate-none t.capacity t.table k valid v.tidy.placed e in
        (t, ground (arith, v.unlocked, e, absent), (v, λ q n. assign_self (held t) k absent q))
    | inr (s, e) ↦
        let (p, r, h, f) = locate-some t.capacity t.table k valid v.tidy.unique e in
        let q : Pair K = record p { key = key.invalid } in
        let there = ≐_congr p.key k key.invalid h ∙ valid in
        let empty = ≐_refl key.invalid in
        (
          record t { table = set t.table s q },
          ground (arith, v.unlocked, e, r, f),
          (
            overwrite-IsValid s p q v r there (inr empty),
            λ j n. ground (
              arith,
              overwrite-held s p q v r there (inr empty) j n,
              ≐_congr p.key k j h,
              ≐_invalid key.invalid j empty n,
            ),
          ),
        )
  ]

  -- What `Utilization` counts and the empty slots are all slots.
  pub utilization_size-count :
      (d : List (Pair K)) → utilization_size d + count key.invalid d ≡ length d
  unfolding utilization_size count
  utilization_size-count [] = omega arith
  utilization_size-count (p ∷ d) = ground (arith, utilization_size-count d)
