-- ===== src/Extendible/Insert.antt =====
-- `Insert` of index/extendible_hash.h: what one pass does to the map that the table holds.
use hash_bench.Common.{
  ℕ, subst, get_elem?_bound, ℕ_discrete, ◌+◌, ◌<◌, ◌≡◌, ◌∙◌, ◌⊎◌, ◌++◌, inl, inr, sym, ap, arith,
  Bool, true, false, none, some, List, [], ◌∷◌, length, get_elem?, set, length-set, if◌then◌else◌,
  ==_iff, Bool-cases, Option-cases,
}
use hash_bench.Key.{Key, ◌≐◌, is_invalid, ≐_refl, ≐_invalid}
use hash_bench.Dict.{Pair, count, find, Unique, assign}
use hash_bench.Dict
use hash_bench.Probe.{Covers-mod, search_complete, passes, search, search_sound}
use hash_bench.Extendible.{
  Segment, Table, num_slot, prefix, f_hash, f_idx, slot_at, with_slots, is_free, split, in_range,
  insert_round,
}
use hash_bench.Extendible.Routing.{in_range-Reroutes, in_range-shallow, update_directory-over}
use hash_bench.Extendible.Change.{changed-Contains}
use hash_bench.Extendible.Resplit.{after-Contains}
use hash_bench.Extendible.View.{
  Serves, IsFilled, IsValid, content, Contains, content-Serves, acquire-Serves,
}

module _ {ℓ} {K : Type ℓ} ⦃key : Key K⦄ where
  passes_at :
      (test : Pair K → Bool) (d : List (Pair K)) (i : ℕ)
      → passes test d i ≡ true
      → (p : Pair K) × (get_elem? d i ≡ some p) × (test p ≡ true)
  passes_at test d i h = elim (Option-cases (get_elem? d i)) [
    | inl e ↦ cc (rw (e, passes) at h)
    | inr (p, e) ↦ (p, e, rw (e, passes) at h)
  ]

  -- A slot that `Insert` takes has the invalid key: no key stands in a segment that is not its own.
  free-invalid :
      (k : K) (seg : Segment K) (i : ℕ) (p : Pair K)
      → IsFilled seg.local_depth (f_hash k) seg.slots
      → get_elem? seg.slots i ≡ some p
      → is_free seg.local_depth (prefix (f_hash k) seg.local_depth) p ≡ true
      → is_invalid p.key ≡ true
  free-invalid k seg i p v r free = elim (Bool-cases (is_invalid p.key)) [
    | inl e ↦ e
    | inr n ↦
        let f = Dict.find-at p.key seg.slots i p (v.unique p.key n) r (≐_refl p.key) in
        let same = v.placed p.key p.value n f in
        cc (
          free,
          (==_iff (prefix (f_hash p.key) seg.local_depth) (prefix (f_hash k) seg.local_depth)).1
              same,
        )
  ]

  pub fresh-IsFilled :
      (k : K) (x : ℕ) (seg : Segment K) (i : ℕ) (p : Pair K)
      → IsFilled seg.local_depth (f_hash k) seg.slots
      → get_elem? seg.slots i ≡ some p
      → is_invalid p.key ≡ true
      → find k seg.slots ≡ none
      → IsFilled seg.local_depth (f_hash k) (set seg.slots i (record { key = k; value = x }))
        × ((j : K)
            → is_invalid j ≡ false
            → find j (set seg.slots i (record { key = k; value = x }))
              ≡ assign (λ q. find q seg.slots) k (some x) j)
  fresh-IsFilled k x seg i p v r free absent =
      let q : Pair K = record { key = k; value = x } in
      let once =
        Dict.Unique-fresh seg.slots i p q v.unique r (Dict.count_of_find-none k seg.slots absent) in
      let reads = λ (j : K) (n : is_invalid j ≡ false).
        Dict.find-set j seg.slots i p q r (v.unique j n) (once j n)
        ∙ ap (λ b. if k ≐ j then some x else if b then none else find j seg.slots)
            (≐_invalid p.key j free n) in
      (
        record {
          width = length-set seg.slots i q ∙ v.width;
          unique = once;
          placed = λ j y n f. elim (Bool-cases (k ≐ j)) [
            | inl e ↦ ap (λ a. prefix (f_hash a) seg.local_depth) (sym ((key.same_iff k j).0 e))
            | inr e ↦
                v.placed j y n
                  (sym (ap (λ b. if b then some x else find j seg.slots) e) ∙ sym (reads j n) ∙ f)
          ];
        },
        reads,
      )

  -- What a pass that returns, or goes back to `RETRY` after a split, has done.
  abbrev pub Stored : Table K → K → ℕ → Type ℓ
  Stored t k x =
      (t' : Table K) × (insert_round t k x ≡ some (inr t'))
      × Contains (assign (content t) k (some x)) t'

  abbrev pub Splits : Table K → K → ℕ → Type ℓ
  Splits t k x =
      ((s : ℕ) × (seg : Segment K) × Serves t (f_hash k) s seg × (count key.invalid seg.slots ≡ 0))
      × ((t' : Table K) × (insert_round t k x ≡ some (inl t')) × Contains (content t) t')

  -- A search for a slot to take that finds none has come by every slot.
  full :
      (k : K) (seg : Segment K)
      → length seg.slots ≡ num_slot
      → search
          (is_free seg.local_depth (prefix (f_hash k) seg.local_depth))
          (slot_at (f_idx k))
          seg.slots
          num_slot
          0
        ≡ none
      → count key.invalid seg.slots ≡ 0
  full k seg wide e = elim (ℕ_discrete (count key.invalid seg.slots) 0) [
    | yes z ↦ z
    | no more ↦
        let free : Pair K → Bool = is_free seg.local_depth (prefix (f_hash k) seg.local_depth) in
        let (s, p, r, h) = Dict.count-pos key.invalid seg.slots (omega arith) in
        let (j, below, at) =
          Covers-mod (f_idx k) num_slot s (omega (arith, get_elem?_bound seg.slots s r)) in
        let missed =
          search_complete free (slot_at (f_idx k)) seg.slots num_slot 0 e j (omega arith)
            (omega arith) in
        let here : passes free seg.slots s ≡ false =
          subst (λ i. passes free seg.slots i ≡ false) at missed in
        ground (arith, here, r, h)
  ]

  -- Where a pass does not return: the split of the segment that serves the key's hash is one that
  -- the integers of the source do not hold.
  abbrev pub Faults : Table K → K → ℕ → Type ℓ
  Faults t k x =
      ((s : ℕ) × (seg : Segment K) × Serves t (f_hash k) s seg
        × (in_range t.dir.depth seg.local_depth ≡ false))
      × (insert_round t k x ≡ none)

  -- `insert_round-Contains` for each depth below 64, with the passes that do not return.
  pub insert_round-cases :
      {t : Table K} (k : K) (x : ℕ)
      → IsValid t
      → is_invalid k ≡ false
      → content t k ≡ none
      → t.dir.depth < 64
      → Faults t k x ⊎ (Stored t k x ⊎ Splits t k x)
  unfolding insert_round
  insert_round-cases {t} k x v valid absent shallow =
      let (s, seg, serves) = v.serves (f_hash k) (key.hash-lt 0 k _) in
      let got = acquire-Serves (f_hash k) s seg serves in
      let seen = content-Serves k serves in
      let free = is_free seg.local_depth (prefix (f_hash k) seg.local_depth) in
      elim (Option-cases (search free (slot_at (f_idx k)) seg.slots num_slot 0)) [
        | inl e ↦
            let n = length t.segments in
            elim (Bool-cases (in_range t.dir.depth seg.local_depth)) [
              | inr over ↦
                  let run = update_directory-over t.dir seg.local_depth (f_hash k) n (n + 1) over in
                  inl ((s, seg, serves, over), ground (arith, got, e, run))
              | inl fits ↦
                  let (d', run, good, not_less, deeper, reroutes) =
                    in_range-Reroutes t.dir seg.local_depth (f_hash k) n (n + 1) v.directory
                      serves.low serves.high shallow fits in
                  inr (
                    inr (
                      (s, seg, serves, full k seg serves.filled.width e),
                      (
                        record {
                          dir = d';
                          segments =
                              set t.segments s (record seg { locked = true })
                              ++ (split seg).0 ∷ (split seg).1 ∷ [];
                        },
                        ground (arith, got, e, run),
                        after-Contains t d' (f_hash k) s seg v (key.hash-lt 0 k _) serves good
                            not_less deeper reroutes,
                      ),
                    ))
            ]
        | inr (i, e) ↦
            let (p, r, f) =
              passes_at free seg.slots i
                (search_sound free (slot_at (f_idx k)) seg.slots num_slot 0 e).0 in
            let gone = free-invalid k seg i p serves.filled r f in
            let (filled, reads) =
              fresh-IsFilled k x seg i p serves.filled r gone (sym seen ∙ absent) in
            inr (
              inl (
                with_slots t s seg (set seg.slots i (record { key = k; value = x })),
                ground (arith, got, e),
                changed-Contains t k s seg (set seg.slots i (record { key = k; value = x }))
                    (some x) v serves filled reads,
              ))
      ]

  -- One pass of `Insert` of a valid key that a valid table, of depth below 32, does not hold. It
  -- either returns, with a valid table that holds the key beside what it held; or the segment that
  -- serves the key's hash has no slot with the invalid key, and the pass goes back to `RETRY` with a
  -- valid table that holds what it held.
  pub insert_round-Contains :
      {t : Table K} (k : K) (x : ℕ)
      → IsValid t
      → is_invalid k ≡ false
      → content t k ≡ none
      → t.dir.depth < 32
      → Stored t k x ⊎ Splits t k x
  insert_round-Contains {t} k x v valid absent shallow =
      elim (insert_round-cases k x v valid absent (omega (arith, shallow))) [
        | inr done ↦ done
        | inl ((s, seg, serves, over), run) ↦
            cc (over, in_range-shallow t.dir seg.local_depth serves.low serves.high shallow)
      ]
