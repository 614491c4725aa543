-- ===== src/Linear/View.antt =====
-- What a table of index/linear_probing.h means, and `Get`, `Update` and `Delete` on it.
use hash_bench.Common.{
  List, [], ◌∷◌, refl, length-replicate, ℕ, ◌+◌, ◌/◌, ◌^◌, ◌≤◌, ◌<◌, ◌∣◌, ◌≡◌, ◌∙◌, ◌⊎◌, inl, inr,
  true, false, Option, none, some, arith, length, length-set, get_elem?, set, if◌then◌else◌,
  Option-cases,
}
use mathlib.Core.Option
use hash_bench.Key.{Key, ◌≐◌, is_invalid, ≐_refl, ≐_congr, ≐_invalid}
use hash_bench.Dict.{Pair, is_some, assign, assign_self, new_pair, none_value, count, find, Unique}
use hash_bench.Dict
use hash_bench.Probe.{search, search_sound, passes_lem, has, Covers, Covers-wrapped, search-none}
use hash_bench.Linear.{
  find_anyway, utilization_size, Table, slot_at, hash, new, locate, get, update, delete,
}

module _ {ℓ} {K : Type ℓ} ⦃key : Key K⦄ where
  -- the table as a map
  abbrev pub view : Table K → K → Option ℕ
  view t k = find k t.dict

  -- The capacity is a power of two: so are those of the program.
  pub record IsValid (t : Table K) : Type ℓ where
    pub unlocked : t.resizing_lock ≡ 0
    pub width : length t.dict ≡ t.capacity
    pub nonempty : 0 < t.capacity
    pub power : t.capacity ∣ 2 ^ 64
    pub striped : t.locksize ≡ 256
    pub stripes : t.nlocks ≡ t.capacity / 256 + 1
    pub room : t.capacity ≤ t.size + count key.invalid t.dict
    pub fits : t.size ≤ t.capacity
    pub unique : Unique t.dict

  -- `t` is a valid table that holds the map `m`.
  abbrev pub Models : (K → Option ℕ) → Table K → Type ℓ
  Models m t = IsValid t × ((k : K) → is_invalid k ≡ false → view t k ≡ m k)

  pub Covers-slot_at :
      {t : Table K} (loc : ℕ) → IsValid t → Covers (slot_at t.capacity loc) t.capacity
  Covers-slot_at {t} loc v = Covers-wrapped loc t.capacity (2 ^ 64) v.power

  pub locate-none : {t : Table K} (k : K) → IsValid t → locate t k ≡ none → view t k ≡ none
  unfolding locate
  locate-none {t} k v e =
      Dict.find-eq-none k t.dict
        (search-none k _ t.dict t.capacity v.width (Covers-slot_at (hash k) v) e)

  pub locate-some :
      {t : Table K} (k : K) {s : ℕ}
      → IsValid t
      → is_invalid k ≡ false
      → locate t k ≡ some s
      → (p : Pair K) × (get_elem? t.dict s ≡ some p) × (has k p ≡ true) × (view t k ≡ some p.value)
  unfolding locate
  locate-some {t} k v valid e =
      let (p, r, h) = passes_lem k t.dict _ (search_sound (has k) _ t.dict t.capacity 0 e).0 in
      (p, r, h, Dict.find-at k t.dict _ p (v.unique k valid) r h)

  -- `Get` of a valid key in a valid table, with no resize running, returns the value that the table
  -- holds for the key, and `NONE` if it holds none.
  pub get-view :
      {t : Table K} (k : K)
      → IsValid t
      → is_invalid k ≡ false
      → get t k ≡ some (Dict.value_or_none (view t k))
  unfolding get
  get-view {t} k v valid = elim (Option-cases (locate t k)) [
    | inl e ↦ ground (arith, v.unlocked, e, locate-none k v e)
    | inr (s, e) ↦ let (p, r, h, f) = locate-some k v valid e in ground (arith, v.unlocked, e, r, f)
  ]

  -- A write over a pair `p` with a valid key, by the same key or the invalid one, keeps the
  -- invariant; what the keys read is given by the new pair.
  overwrite-IsValid :
      {t : Table K} (s : ℕ) (p q : Pair K)
      → IsValid t
      → get_elem? t.dict s ≡ some p
      → is_invalid p.key ≡ false
      → ((q.key ≐ p.key) ≡ true) ⊎ (is_invalid q.key ≡ true)
      → IsValid (record t { dict = set t.dict s q })
        × ((k : K)
            → is_invalid k ≡ false
            → find k (set t.dict s q)
              ≡ (if q.key ≐ k then some q.value else if p.key ≐ k then none else view t k))
  overwrite-IsValid {t} s p q v r valid same = (
    record {
      unlocked = v.unlocked;
      width = length-set t.dict s q ∙ v.width;
      nonempty = v.nonempty;
      power = v.power;
      striped = v.striped;
      stripes = v.stripes;
      room = ground (arith, v.room, Dict.count-set key.invalid t.dict s p q r);
      fits = v.fits;
      unique = once;
    },
    λ k n. Dict.find-set k t.dict s p q r (v.unique k n) (once k n),
  )
    where
      once : Unique (set t.dict s q)
      once = Dict.Unique-overwrite t.dict s p q v.unique r same

  -- `Update` of a valid key in a valid table returns whether the key is there; the table is valid
  -- after it and holds what it held, with the new value for that key if it was there.
  pub update-Models :
      {t : Table K} (k : K) (v : ℕ)
      → IsValid t
      → is_invalid k ≡ false
      → (t' : Table K) × (update t k v ≡ some (is_some (view t k), t'))
        × Models (assign (view t) k (Option.map (λ _. v) (view t k))) t'
  unfolding update Dict.write_value
  update-Models {t} k x v valid = elim (Option-cases (locate t k)) [
    | inl e ↦ (
      t,
      ground (arith, v.unlocked, e, locate-none k v e),
      (v, λ q n. rw (locate-none k v e) (assign_self (view t) k (locate-none k v e) q)),
    )
    | inr (s, e) ↦
        let (p, r, h, f) = locate-some k v valid e in
        let (v', reads) =
          overwrite-IsValid s p (record p { value = x }) v r (≐_congr p.key k key.invalid h ∙ valid)
            (inl (≐_refl p.key)) in
        (
          record t { dict = set t.dict s (record p { value = x }) },
          ground (arith, v.unlocked, e, r, f),
          (v', λ q n. ground (arith, reads q n, ≐_congr p.key k q h, f)),
        )
  ]

  -- `Delete` of a valid key in a valid table returns whether the key is there; the table is valid
  -- after it and holds what it held, without that key.
  pub delete-Models :
      {t : Table K} (k : K)
      → IsValid t
      → is_invalid k ≡ false
      → (t' : Table K) × (delete t k ≡ some (is_some (view t k), t'))
        × Models (assign (view t) k none) t'
  unfolding delete Dict.write_key
  delete-Models {t} k v valid = elim (Option-cases (locate t k)) [
    | inl e ↦ (
      t,
      ground (arith, v.unlocked, e, locate-none k v e),
      (v, λ q n. assign_self (view t) k (locate-none k v e) q),
    )
    | inr (s, e) ↦
        let (p, r, h, f) = locate-some k v valid e in
        let (v', reads) =
          overwrite-IsValid s p (record p { key = key.invalid }) v r
            (≐_congr p.key k key.invalid h ∙ valid) (inr (≐_refl key.invalid)) in
        (
          record t { dict = set t.dict s (record p { key = key.invalid }) },
          ground (arith, v.unlocked, e, r, f),
          (
            v',
            λ q n. ground (
              arith,
              reads q n,
              ≐_congr p.key k q h,
              ≐_invalid key.invalid q (≐_refl key.invalid) n,
            ),
          ),
        )
  ]

  -- The constructor, for a capacity that is a power of two up to 2 ^ 64 (a divisor of it), gives a
  -- valid table that holds nothing.
  pub new-Models :
      (capacity : ℕ) → 0 < capacity → capacity ∣ 2 ^ 64 → Models (λ (k : K). none) (new capacity)
  unfolding new
  new-Models capacity pos power =
      let empty = λ (k : K) (valid : is_invalid k ≡ false).
        Dict.count-replicate_other capacity new_pair k
          (≐_invalid key.invalid k (≐_refl key.invalid) valid) in
      (
        record {
          unlocked = refl;
          width = length-replicate capacity new_pair;
          nonempty = pos;
          power = power;
          striped = refl;
          stripes = refl;
          room = omega (arith, Dict.count-replicate_self capacity (new_pair {K = K}));
          fits = omega arith;
          unique = λ k valid. omega (arith, empty k valid);
        },
        λ k valid. Dict.find-eq-none k _ (empty k valid),
      )

  -- `FindAnyway` of a valid key in a valid table finds it exactly where the table holds it.
  pub find_anyway-view :
      {t : Table K} (k : K)
      → IsValid t
      → is_invalid k ≡ false
      → find_anyway t k ≡ is_some (view t k)
  unfolding find_anyway
  find_anyway-view {t} k v valid =
      let every : Covers (λ i. i) t.capacity = λ s lt. (s, lt, refl) in
      elim (Option-cases (search (has k) (λ i. i) t.dict t.capacity 0)) [
        | inl e ↦ ground (
          arith,
          e,
          Dict.find-eq-none k t.dict (search-none k (λ i. i) t.dict t.capacity v.width every e),
        )
        | inr (s, e) ↦
            let (p, r, h) =
              passes_lem k t.dict s (search_sound (has k) (λ i. i) t.dict t.capacity 0 e).0 in
            ground (arith, e, Dict.find-at k t.dict s p (v.unique k valid) r h)
      ]

  -- The loop of `Utilization` counts every slot but those with the invalid key.
  pub utilization_size-count :
      (d : List (Pair K)) → utilization_size d + count key.invalid d ≡ length d
  unfolding utilization_size count
  utilization_size-count [] = omega arith
  utilization_size-count (p ∷ d) = ground (arith, utilization_size-count d)
