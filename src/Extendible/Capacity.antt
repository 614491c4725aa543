-- ===== src/Extendible/Capacity.antt =====
-- `Utilization` and `Capacity` of index/extendible_hash.h: the loops over the segments of the
-- directory.
use native.Mathlib.Nat.{mul-div_cancel, mul-lt-mul_of_pos_right}
use hash_bench.Common.{
  ℕ, zero, suc, ◌+◌, ◌-◌, ◌*◌, ◌/◌, ◌^◌, ◌≤◌, ◌<◌, ◌≡◌, ◌∙◌, refl, sym, ap, subst, arith, inl, inr,
  true, false, Bool-cases, Option, none, some, List, [], ◌∷◌, length, get_elem?, if◌then◌else◌,
  ◌==◌, ◌&&◌, not, leb,
}
use hash_bench.Word.Powers.{pow-add, pow-pos}
use hash_bench.Key.{Key, is_invalid}
use hash_bench.Dict.{Pair}
use hash_bench.Extendible.{Table, Segment, pointer, prefix, route, f_hash, num_slot}
use hash_bench.Extendible.View.{IsValid}

module _ {ℓ} {K : Type ℓ} ⦃key : Key K⦄ where
  -- The slots of a segment whose key belongs to the segment and is not the invalid one.
  unfoldable pub used_slots : ℕ → ℕ → List (Pair K) → ℕ
  used_slots local_depth pattern [] = 0
  used_slots local_depth pattern (p ∷ ps) =
      (if (prefix (f_hash p.key) local_depth == pattern) && not (is_invalid p.key) then 1 else 0)
      + used_slots local_depth pattern ps

  -- The segment of entry `i`.
  abbrev segment_at : Table K → ℕ → Option (Segment K)
  segment_at t i = elim (pointer (get_elem? t.dir.entries i)) [
    | none ↦ none
    | some target ↦ get_elem? t.segments target
  ]

  -- The loop of `Utilization`, with fuel: `sum` and `cnt` from the entry `i` on.
  unfoldable pub utilization_loop : ℕ → Table K → ℕ → Option (ℕ × ℕ)
  utilization_loop zero t i = if leb t.dir.capacity i then some (0, 0) else none
  utilization_loop (suc f) t i = elim (leb t.dir.capacity i) [
    | true ↦ some (0, 0)
    | false ↦ elim (segment_at t i) [
      | none ↦ none
      | some seg ↦
          let stride = 2 ^ (t.dir.depth - seg.local_depth) in
          elim (utilization_loop f t (i + stride)) [
            | none ↦ none
            | some (sum, cnt) ↦
                some (used_slots seg.local_depth (i / stride) seg.slots + sum, cnt + 1)
          ]
    ]
  ]

  -- `sum` and `cnt` of `Utilization`, whose result is the quotient of `sum` and `cnt * kNumSlot`.
  -- Each round goes on by an entry or more, so one for each entry is fuel enough.
  unfoldable pub utilization : Table K → Option (ℕ × ℕ)
  utilization t = utilization_loop t.dir.capacity t 0

  -- The loop of `Capacity`
  unfoldable pub capacity_loop : ℕ → Table K → ℕ → Option ℕ
  capacity_loop zero t i = if leb t.dir.capacity i then some 0 else none
  capacity_loop (suc f) t i = elim (leb t.dir.capacity i) [
    | true ↦ some 0
    | false ↦ elim (segment_at t i) [
      | none ↦ none
      | some seg ↦ elim (capacity_loop f t (i + 2 ^ (t.dir.depth - seg.local_depth))) [
        | none ↦ none
        | some cnt ↦ some (cnt + 1)
      ]
    ]
  ]

  unfoldable pub capacity : Table K → Option ℕ
  capacity t = elim (capacity_loop t.dir.capacity t 0) [
    | none ↦ none
    | some cnt ↦ some (cnt * num_slot)
  ]

  used_slots-le :
      (local_depth pattern : ℕ) (ps : List (Pair K)) → used_slots local_depth pattern ps ≤ length ps
  unfolding used_slots
  used_slots-le local_depth pattern [] = omega arith
  used_slots-le local_depth pattern (p ∷ ps) = ground (arith, used_slots-le local_depth pattern ps)

  -- Every entry has a segment.
  segment_at_total :
      (t : Table K) (i : ℕ)
      → IsValid t
      → i < 2 ^ t.dir.depth
      → (seg : Segment K) × (segment_at t i ≡ some seg) × (length seg.slots ≡ num_slot)
  unfolding route
  segment_at_total t i v lt =
      let d = t.dir.depth in
      let le : d ≤ 64 = v.directory.shallow in
      let h = i * 2 ^ (64 - d) in
      let sum : d + (64 - d) ≡ 64 = omega arith in
      let whole : 2 ^ d * 2 ^ (64 - d) ≡ 2 ^ 64 =
        sym (pow-add 2 d (64 - d)) ∙ ap (λ n. 2 ^ n) sum in
      let small : h < 2 ^ 64 =
        subst (λ n. h < n) whole (mul-lt-mul_of_pos_right lt (pow-pos (64 - d))) in
      let at : prefix h d ≡ i = mul-div_cancel i (pow-pos (64 - d)) in
      let (s, seg, serves) = v.serves h small in
      let here : pointer (get_elem? t.dir.entries i) ≡ some s =
        ap (λ n. pointer (get_elem? t.dir.entries n)) (sym at) ∙ serves.routed in
      (seg, rw (segment_at, here) serves.stored, serves.filled.width)

  -- Both loops return, and count the same segments.
  record Counted (t : Table K) (f i : ℕ) : Type 0 where
    sum : ℕ
    cnt : ℕ
    utilization_lem : utilization_loop f t i ≡ some (sum, cnt)
    capacity_lem : capacity_loop f t i ≡ some cnt
    sum-le : sum ≤ cnt * num_slot
    cnt-le : cnt ≤ f
    some_left : i < t.dir.capacity → 0 < cnt

  loops-Counted : (f : ℕ) (t : Table K) (i : ℕ) → IsValid t → t.dir.capacity ≤ i + f → Counted t f i
  unfolding utilization_loop capacity_loop
  loops-Counted zero t i v fuel =
      let done : leb t.dir.capacity i ≡ true = ground (arith, fuel) in
      record {
        sum = 0;
        cnt = 0;
        utilization_lem = rw done refl;
        capacity_lem = rw done refl;
        sum-le = omega arith;
        cnt-le = omega arith;
        some_left = λ lt. omega (arith, lt, fuel);
      }
  loops-Counted (suc f) t i v fuel = elim (Bool-cases (leb t.dir.capacity i)) [
    | inl done ↦
        let le : t.dir.capacity ≤ i = ground (arith, done) in
        record {
          sum = 0;
          cnt = 0;
          utilization_lem = rw (utilization_loop, done) refl;
          capacity_lem = rw (capacity_loop, done) refl;
          sum-le = omega arith;
          cnt-le = omega arith;
          some_left = λ lt. omega (arith, lt, le);
        }
    | inr more ↦
        let lt : i < 2 ^ t.dir.depth = ground (arith, more, v.directory.counted) in
        let (seg, at, width) = segment_at_total t i v lt in
        let stride = 2 ^ (t.dir.depth - seg.local_depth) in
        let pos : 0 < stride = pow-pos (t.dir.depth - seg.local_depth) in
        let c = loops-Counted f t (i + stride) v (omega (arith, fuel, pos)) in
        let used = used_slots seg.local_depth (i / stride) seg.slots in
        record {
          sum = used + c.sum;
          cnt = c.cnt + 1;
          utilization_lem = rw (utilization_loop, more, at, c.utilization_lem) refl;
          capacity_lem = rw (capacity_loop, more, at, c.capacity_lem) refl;
          sum-le =
              grind (arith, used_slots-le seg.local_depth (i / stride) seg.slots, width, c.sum-le);
          cnt-le = omega (arith, c.cnt-le);
          some_left = λ lt. omega arith;
        }
  ]

  -- On a valid table `Utilization` and `Capacity` return, and count the same number of segments, from 1
  -- to the number of entries; `Utilization` finds no more pairs than these have slots.
  pub utilization-capacity :
      (t : Table K)
      → IsValid t
      → (sum : ℕ) × (cnt : ℕ) × (utilization t ≡ some (sum, cnt))
        × (capacity t ≡ some (cnt * num_slot))
        × (sum ≤ cnt * num_slot)
        × (0 < cnt)
        × (cnt ≤ 2 ^ t.dir.depth)
  unfolding utilization capacity
  utilization-capacity t v =
      let c = loops-Counted t.dir.capacity t 0 v (omega arith) in
      let some_entry : 0 < t.dir.capacity =
        omega (arith, v.directory.counted, pow-pos t.dir.depth) in
      (
        c.sum,
        c.cnt,
        c.utilization_lem,
        rw (capacity, c.capacity_lem) refl,
        c.sum-le,
        c.some_left some_entry,
        omega (arith, c.cnt-le, v.directory.counted),
      )
