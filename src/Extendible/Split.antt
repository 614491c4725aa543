-- ===== src/Extendible/Split.antt =====
-- `Insert4split` and `Split` of index/extendible_hash.h: where the pairs of a segment go.
use hash_bench.Common.{
  ℕ, ◌+◌, ◌≤◌, ◌<◌, ◌≡◌, ◌≢◌, ◌∙◌, inl, inr, sym, ap, refl, arith, Bool, true, false, Option, none,
  some, List, [], ◌∷◌, length, set, length-set, length-replicate, if◌then◌else◌, Bool-cases,
  Option-cases,
}
use hash_bench.Key.{Key, ◌≐◌, is_invalid, ≐_invalid, ≐_refl}
use hash_bench.Dict.{Pair, hit, count, find, new_array, new_pair, Unique}
use hash_bench.Dict
use hash_bench.Probe.{search, has, search-some, Covers-mod}
use hash_bench.Extendible.{
  Segment, num_slot, f_hash, f_idx, slot_at, split_bit, insert4split, split_slots, split,
}

-- The first of two lookups, where it finds something.
abbrev pub or_else : Option ℕ → Option ℕ → Option ℕ
or_else none o = o
or_else (some v) o = some v

module _ {ℓ} {K : Type ℓ} ⦃key : Key K⦄ where
  -- What `Insert4split` of `p` does to an array that has a free slot, as `k` sees it.
  record Adds (k : K) (a : List (Pair K)) (p : Pair K) (r : Bool × List (Pair K)) : Type ℓ where
    success : r.0 ≡ true
    width : length r.1 ≡ num_slot
    room : count key.invalid a ≤ count key.invalid r.1 + 1
    counts : count k r.1 ≡ count k a + hit k p
    finds : find k r.1 ≡ (if p.key ≐ k then some p.value else find k a)

  insert4split-Adds :
      (k : K) (a : List (Pair K)) (p : Pair K) (loc : ℕ)
      → length a ≡ num_slot
      → 0 < count key.invalid a
      → is_invalid k ≡ false
      → count k a + hit k p ≤ 1
      → Adds k a p (insert4split a p loc)
  unfolding insert4split
  insert4split-Adds k a p loc wide free valid one =
      let (s, q, at, r, e) =
        search-some key.invalid (slot_at loc) a num_slot wide (Covers-mod loc num_slot) free in
      let other = ≐_invalid q.key k e valid in
      let sum : count k (set a s p) ≡ count k a + hit k p =
        ground (arith, Dict.count-set k a s q p r, other) in
      let low : hit key.invalid q ≤ 1 = ground arith in
      rw (at, insert4split)
        (record {
          success = refl;
          width = length-set a s p ∙ wide;
          room = omega (arith, Dict.count-set key.invalid a s q p r, low);
          counts = sum;
          finds = ground (arith, Dict.find-set k a s q p r (omega arith) (omega arith), other);
        })

  module _ (local_depth : ℕ) (k : K) (valid : is_invalid k ≡ false) where
    abbrev goes_up : Bool
    goes_up = split_bit (f_hash k) local_depth

    -- What the loop of `Split` over `ps` makes of the two arrays, as `k` sees it.
    record Splits (ps a b : List (Pair K)) (r : List (Pair K) × List (Pair K)) : Type ℓ where
      width0 : length r.0 ≡ num_slot
      width1 : length r.1 ≡ num_slot
      counts0 : count k r.0 ≡ (if goes_up then count k a else count k ps + count k a)
      counts1 : count k r.1 ≡ (if goes_up then count k ps + count k b else count k b)
      finds0 : find k r.0 ≡ (if goes_up then find k a else or_else (find k ps) (find k a))
      finds1 : find k r.1 ≡ (if goes_up then or_else (find k ps) (find k b) else find k b)

    -- A pair with the key `k` goes where `k` does.
    with_key : (p : Pair K) → (p.key ≐ k) ≡ true → split_bit (f_hash p.key) local_depth ≡ goes_up
    with_key p e = ap (λ j. split_bit (f_hash j) local_depth) ((key.same_iff p.key k).0 e)

    split_slots-Splits :
        (ps a b : List (Pair K))
        → length a ≡ num_slot
        → length b ≡ num_slot
        → length ps ≤ count key.invalid a
        → length ps ≤ count key.invalid b
        → count k ps + count k a + count k b ≤ 1
        → Splits ps a b (split_slots local_depth ps a b)
    unfolding split_slots count find
    split_slots-Splits [] a b wa wb ra rb one = record {
      width0 = wa;
      width1 = wb;
      counts0 = ground arith;
      counts1 = ground arith;
      finds0 = ground arith;
      finds1 = ground arith;
    }
    split_slots-Splits (p ∷ ps) a b wa wb ra rb one =
        elim (Bool-cases (split_bit (f_hash p.key) local_depth)) [
          | inl up ↦
              let add =
                insert4split-Adds k b p (f_idx p.key) wb (omega arith) valid (omega arith) in
              let rest =
                split_slots-Splits ps a (insert4split b p (f_idx p.key)).1 wa add.width
                  (omega arith) (omega (arith, add.room)) (omega (arith, add.counts)) in
              rw up (elim (Bool-cases (p.key ≐ k)) [
                | inl e ↦
                    let same = sym (with_key p e) ∙ up in
                    let absent = Dict.find-eq-none k ps (ground arith) in
                    record {
                      width0 = rest.width0;
                      width1 = rest.width1;
                      counts0 = ground (arith, rest.counts0, same, add.counts);
                      counts1 = ground (arith, rest.counts1, same, add.counts);
                      finds0 = ground (arith, rest.finds0, same, add.finds, absent);
                      finds1 = ground (arith, rest.finds1, same, add.finds, absent);
                    }
                | inr e ↦ record {
                  width0 = rest.width0;
                  width1 = rest.width1;
                  counts0 = ground (arith, rest.counts0, add.counts);
                  counts1 = ground (arith, rest.counts1, add.counts);
                  finds0 = ground (arith, rest.finds0, add.finds);
                  finds1 = ground (arith, rest.finds1, add.finds);
                }
              ])
          | inr down ↦
              let add =
                insert4split-Adds k a p (f_idx p.key) wa (omega arith) valid (omega arith) in
              let rest =
                split_slots-Splits ps (insert4split a p (f_idx p.key)).1 b add.width wb
                  (omega (arith, add.room)) (omega arith) (omega (arith, add.counts)) in
              rw down (elim (Bool-cases (p.key ≐ k)) [
                | inl e ↦
                    let same = sym (with_key p e) ∙ down in
                    let absent = Dict.find-eq-none k ps (ground arith) in
                    record {
                      width0 = rest.width0;
                      width1 = rest.width1;
                      counts0 = ground (arith, rest.counts0, same, add.counts);
                      counts1 = ground (arith, rest.counts1, same, add.counts);
                      finds0 = ground (arith, rest.finds0, same, add.finds, absent);
                      finds1 = ground (arith, rest.finds1, same, add.finds, absent);
                    }
                | inr e ↦ record {
                  width0 = rest.width0;
                  width1 = rest.width1;
                  counts0 = ground (arith, rest.counts0, add.counts);
                  counts1 = ground (arith, rest.counts1, add.counts);
                  finds0 = ground (arith, rest.finds0, add.finds);
                  finds1 = ground (arith, rest.finds1, add.finds);
                }
              ])
        ]

  insert4split-length :
      (a : List (Pair K)) (p : Pair K) (loc : ℕ) → length (insert4split a p loc).1 ≡ length a
  unfolding insert4split
  insert4split-length a p loc =
      elim (Option-cases (search (has key.invalid) (slot_at loc) a num_slot 0)) [
        | inl e ↦ rw (e, insert4split)
        | inr (s, e) ↦ rw (e, insert4split) (length-set a s p)
      ]

  split_slots-length :
      (local_depth : ℕ) (ps a b : List (Pair K)) {n : ℕ}
      → length a ≡ n
      → length b ≡ n
      → (length (split_slots local_depth ps a b).0 ≡ n)
        × (length (split_slots local_depth ps a b).1 ≡ n)
  unfolding split_slots
  split_slots-length local_depth [] a b wa wb = (wa, wb)
  split_slots-length local_depth (p ∷ ps) a b wa wb =
      elim (Bool-cases (split_bit (f_hash p.key) local_depth)) [
        | inl up ↦
            rw up (
              split_slots-length local_depth ps a _ wa (insert4split-length b p (f_idx p.key) ∙ wb))
        | inr down ↦
            rw down (
              split_slots-length local_depth ps _ b (insert4split-length a p (f_idx p.key) ∙ wa) wb)
      ]

  fresh-count : (k : K) → is_invalid k ≡ false → count k (new_array num_slot) ≡ 0
  fresh-count k valid =
      Dict.count-replicate_other num_slot new_pair k
        (≐_invalid key.invalid k (≐_refl key.invalid) valid)

  -- What `Split` of a segment yields: two segments one bit deeper that share out what it held.
  pub record Divides (seg seg0 seg1 : Segment K) : Type ℓ where
    pub width0 : length seg0.slots ≡ num_slot
    pub width1 : length seg1.slots ≡ num_slot
    pub depth0 : seg0.local_depth ≡ seg.local_depth + 1
    pub depth1 : seg1.local_depth ≡ seg.local_depth + 1
    pub unlocked0 : seg0.locked ≡ false
    pub unlocked1 : seg1.locked ≡ false
    pub unique0 : Unique seg0.slots
    pub unique1 : Unique seg1.slots
    pub finds0 :
        (k : K)
        → is_invalid k ≡ false
        → find k seg0.slots
          ≡ (if split_bit (f_hash k) seg.local_depth then none else find k seg.slots)
    pub finds1 :
        (k : K)
        → is_invalid k ≡ false
        → find k seg1.slots
          ≡ (if split_bit (f_hash k) seg.local_depth then find k seg.slots else none)

  -- `Split` of a segment of 1024 slots in which no key stands twice loses no pair: each of the two
  -- new segments holds, of what the old one held, the keys whose next bit is its own, with their
  -- values, and no key twice.
  pub split-Divides :
      (seg : Segment K)
      → length seg.slots ≡ num_slot
      → Unique seg.slots
      → Divides seg (split seg).0 (split seg).1
  unfolding split
  split-Divides seg wide once =
      let fresh : List (Pair K) = new_array num_slot in
      let wa : length fresh ≡ num_slot = length-replicate num_slot new_pair in
      let ra : count key.invalid fresh ≡ num_slot = Dict.count-replicate_self num_slot new_pair in
      let all = λ (k : K) (v : is_invalid k ≡ false).
        split_slots-Splits seg.local_depth k v seg.slots fresh fresh wa wa (omega arith)
          (omega arith) (omega (arith, fresh-count k v, once k v)) in
      record {
        width0 = (split_slots-length seg.local_depth seg.slots fresh fresh wa wa).0;
        width1 = (split_slots-length seg.local_depth seg.slots fresh fresh wa wa).1;
        depth0 = refl;
        depth1 = refl;
        unlocked0 = refl;
        unlocked1 = refl;
        unique0 = λ k v. ground (arith, (all k v).counts0, fresh-count k v, once k v);
        unique1 = λ k v. ground (arith, (all k v).counts1, fresh-count k v, once k v);
        finds0 =
            λ k v. ground (arith, (all k v).finds0, Dict.find-eq-none k fresh (fresh-count k v));
        finds1 =
            λ k v. ground (arith, (all k v).finds1, Dict.find-eq-none k fresh (fresh-count k v));
      }

  -- The new segment for the hashes whose next bit is `b`.
  abbrev pub side : Bool → Segment K → Segment K
  side true seg = (split seg).1
  side false seg = (split seg).0

  pub record Side (b : Bool) (seg new : Segment K) : Type ℓ where
    pub width : length new.slots ≡ num_slot
    pub depth : new.local_depth ≡ seg.local_depth + 1
    pub unlocked : new.locked ≡ false
    pub unique : Unique new.slots
    pub mine :
        (k : K)
        → is_invalid k ≡ false
        → split_bit (f_hash k) seg.local_depth ≡ b
        → find k new.slots ≡ find k seg.slots
    pub others :
        (k : K)
        → is_invalid k ≡ false
        → split_bit (f_hash k) seg.local_depth ≢ b
        → find k new.slots ≡ none

  pub side-Side :
      (b : Bool) (seg : Segment K)
      → length seg.slots ≡ num_slot
      → Unique seg.slots
      → Side b seg (side b seg)
  side-Side true seg wide once =
      let d = split-Divides seg wide once in
      record {
        width = d.width1;
        depth = d.depth1;
        unlocked = d.unlocked1;
        unique = d.unique1;
        mine = λ k n e. ground (arith, d.finds1 k n, e);
        others = λ k n e. ground (arith, d.finds1 k n, e);
      }
  side-Side false seg wide once =
      let d = split-Divides seg wide once in
      record {
        width = d.width0;
        depth = d.depth0;
        unlocked = d.unlocked0;
        unique = d.unique0;
        mine = λ k n e. ground (arith, d.finds0 k n, e);
        others = λ k n e. ground (arith, d.finds0 k n, e);
      }
