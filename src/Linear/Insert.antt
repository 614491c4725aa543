-- ===== src/Linear/Insert.antt =====
-- `Insert` of index/linear_probing.h: the lock that it holds, the slot that it takes, that it
-- returns, and what it stores.
use native.Mathlib.Nat.{zero-mod, le_of_dvd, mod-eq_of_lt}
use hash_bench.Common.{
  ℕ, zero, suc, ◌+◌, ◌*◌, ◌/◌, ◌%◌, ◌^◌, ◌≤◌, ◌<◌, ◌∣◌, ◌≡◌, ◌≢◌, ◌∙◌, refl, sym, ap, subst, ◌⊎◌,
  inl, inr, true, false, none, some, arith, length-set, get_elem?, set, ◌==◌, dec_lt, if◌then◌else◌,
  Bool-cases, Option-cases,
}
use hash_bench.Key.{Key, is_invalid, ≐_invalid}
use hash_bench.Dict.{Pair, hit, new_pair, new_array, none_value, count, find, Unique, assign}
use mathlib.Core.Option
use mathlib.Core.Option.{some-injective}
use hash_bench.Dict
use hash_bench.Float.{FloatOps}
use hash_bench.Probe.{search, has, search-some}
use hash_bench.Linear.{
  Table, slot_at, hash, find_slot, below_threshold, grown, store, insert_round, insert,
}
use hash_bench.Linear.View.{view, IsValid, Models, Covers-slot_at}
use hash_bench.Linear.Resize.{int_rounds-le, resize-Resized, Resized}

-- The next slot of a probe is the first of a stripe, or lies in the same stripe.
next_stripe : (a c ls : ℕ) → 0 < ls → (a + 1) % c % ls ≢ 0 → (a + 1) % c / ls ≡ a % c / ls
next_stripe a c ls pos h = grind arith

next_slot_stripe :
    (a b c ls : ℕ)
    → b ≡ a + 1
    → 0 < ls
    → b % 2 ^ 64 % c % ls ≢ 0
    → b % 2 ^ 64 % c / ls ≡ a % 2 ^ 64 % c / ls
next_slot_stripe a b c ls eq pos h = elim (dec_lt (a % 2 ^ 64 + 1) (2 ^ 64)) [
  | yes p ↦
      let e : b % 2 ^ 64 ≡ a % 2 ^ 64 + 1 = omega arith in
      rw e (next_stripe (a % 2 ^ 64) c ls pos (rw e at h))
  | no p ↦ let e : b % 2 ^ 64 ≡ 0 = omega arith in absurd (h (rw (e, zero-mod, zero-mod)))
]

module _ {ℓ} {K : Type ℓ} ⦃key : Key K⦄ where
  -- Without its locks, the search of `Insert` is the common loop for an empty slot.
  pub find_slot-search :
      (t : Table K) (loc n i held : ℕ)
      → Option.map (λ (r : ℕ × ℕ). r.0) (find_slot t loc n i held)
        ≡ search (has key.invalid) (slot_at t.capacity loc) t.dict n i
  unfolding find_slot search
  find_slot-search t loc zero i held = refl
  find_slot-search t loc (suc n) i held =
      let next = slot_at t.capacity loc (i + 1) in
      ground (
        arith,
        find_slot-search t loc n (i + 1)
            (if next % t.locksize == 0 then next / t.locksize else held),
      )

  pub next_held :
      (t : Table K) (loc i : ℕ)
      → 0 < t.locksize
      → let next = slot_at t.capacity loc (i + 1) in
        (if next % t.locksize == 0
          then next / t.locksize
          else slot_at t.capacity loc i / t.locksize)
        ≡ next / t.locksize
  next_held t loc i pos =
      let next = slot_at t.capacity loc (i + 1) in
      elim (Bool-cases (next % t.locksize == 0)) [
        | inl e ↦ rw e
        | inr e ↦ rw e (
            sym (
              next_slot_stripe (loc + i) (loc + (i + 1)) t.capacity t.locksize (omega arith) pos
                (ground arith)))
      ]

  -- Where the loops of `Insert`, started at any round under the lock of its slot's stripe, take a
  -- slot, the lock that is held is the one of that slot's stripe; the stripes are not empty.
  pub find_slot-held :
      (t : Table K) (loc n i held : ℕ) {s h : ℕ}
      → 0 < t.locksize
      → held ≡ slot_at t.capacity loc i / t.locksize
      → find_slot t loc n i held ≡ some (s, h)
      → h ≡ s / t.locksize
  unfolding find_slot
  find_slot-held t loc zero i held pos e f = cc
  find_slot-held t loc (suc n) i held {s} {h} pos e f =
      let next = slot_at t.capacity loc (i + 1) in
      ground (
        arith,
        next_held t loc i pos,
        find_slot-held t loc n (i + 1) (if next % t.locksize == 0 then next / t.locksize else held)
            {s = s} {h = h},
      )

  -- An empty slot takes a new key.
  pub store-Models :
      {t : Table K} (s : ℕ) (k : K) (x : ℕ) (p : Pair K)
      → IsValid t
      → is_invalid k ≡ false
      → view t k ≡ none
      → t.size < t.capacity
      → t.size + 1 < 2 ^ 64
      → get_elem? t.dict s ≡ some p
      → has key.invalid p ≡ true
      → Models (assign (view t) k (some x)) (store t s k x)
  unfolding store
  store-Models {t} s k x p v valid absent space small r empty = (
    record {
      unlocked = v.unlocked;
      width = length-set t.dict s q ∙ v.width;
      nonempty = v.nonempty;
      power = v.power;
      striped = v.striped;
      stripes = v.stripes;
      room = ground (arith, v.room, Dict.count-set key.invalid t.dict s p q r);
      fits = omega (arith, v.fits);
      unique = once;
    },
    λ j n. ground (
      arith,
      Dict.find-set j t.dict s p q r (v.unique j n) (once j n),
      ≐_invalid p.key j empty n,
    ),
  )
    where
      q : Pair K
      q = record { key = k; value = x }

      once : Unique (set t.dict s q)
      once = Dict.Unique-fresh t.dict s p q v.unique r (Dict.count_of_find-none k t.dict absent)

  module _ ⦃fl : FloatOps⦄ where
    pub below_threshold-lt : (t : Table K) → below_threshold t ≡ true → t.size < t.capacity
    unfolding below_threshold
    below_threshold-lt t h = fl.less-lt t.size t.capacity 95 100 (omega arith) (omega arith) h

    below_threshold-double :
        (t t' : Table K)
        → 0 < t.capacity
        → t.size ≤ t.capacity
        → t'.size ≡ t.size
        → t'.capacity ≡ 2 * t.capacity
        → below_threshold t' ≡ true
    unfolding below_threshold
    below_threshold-double t t' pos fits size capacity =
        rw (size, capacity)
          (fl.lt-less t.size t.capacity 95 100 (omega arith) pos fits (omega arith))

    insert_round-store :
        {t : Table K} (k : K) (x : ℕ)
        → IsValid t
        → is_invalid k ≡ false
        → view t k ≡ none
        → t.size + 1 < 2 ^ 64
        → t.capacity ≤ 2 ^ 31
        → below_threshold t ≡ true
        → (t' : Table K) × (insert_round t k x ≡ some (inr t'))
          × Models (assign (view t) k (some x)) t'
          × ((t'.size ≡ t.size + 1) × (t'.capacity ≡ t.capacity))
    unfolding insert_round store
    insert_round-store {t} k x v valid absent small fits below =
        let space = below_threshold-lt t below in
        let slot = slot_at t.capacity (hash k) in
        let (s, p, e, r, empty) =
          search-some key.invalid slot t.dict t.capacity v.width (Covers-slot_at (hash k) v)
            (omega (arith, v.room)) in
        let held = slot 0 / t.locksize in
        elim (Option-cases (find_slot t (hash k) t.capacity 0 held)) [
          | inl f ↦ cc (find_slot-search t (hash k) t.capacity 0 held, f, e)
          | inr (sh, f) ↦
              let found : some s ≡ some sh.0 =
                cc (find_slot-search t (hash k) t.capacity 0 held, f, e) in
              (
                store t sh.0 k x,
                rw (insert_round, below, int_rounds-le t.capacity fits, f) refl,
                store-Models sh.0 k x p v valid absent space small
                    (subst (λ i. get_elem? t.dict i ≡ some p) (some-injective s sh.0 found) r)
                    empty,
                (mod-eq_of_lt small, refl),
              )
        ]

    insert_round-resize :
        {t : Table K} (k : K) (x : ℕ)
        → IsValid t
        → 2 * t.capacity ∣ 2 ^ 64
        → 2 * t.capacity ≤ 2 ^ 31
        → below_threshold t ≡ false
        → (t' : Table K) × (insert_round t k x ≡ some (inl (record t' { resizing_lock = 0 })))
          × Resized (2 * t.capacity) t t'
    unfolding insert_round grown
    insert_round-resize {t} k x v power fits full =
        let (t', e, m) =
          resize-Resized (2 * t.capacity) v power (omega arith) (omega (arith, fits, v.nonempty))
            fits in
        (
          t',
          rw
              (
                insert_round,
                full,
                grown,
                fl.to_size-double t.capacity power (omega (arith, fits)),
                e,
              )
              refl,
          m,
        )

    -- What `Insert` does to the size and the capacity.
    abbrev pub Grows : Table K → Table K → Type 0
    Grows t t' =
        (t'.size ≡ t.size + 1)
        × ((t'.capacity ≡ t.capacity)
            ⊎ ((below_threshold t ≡ false) × (t'.capacity ≡ 2 * t.capacity)))

    pub insert-Grows :
        {t : Table K} (k : K) (x : ℕ)
        → IsValid t
        → is_invalid k ≡ false
        → view t k ≡ none
        → 2 * t.capacity ∣ 2 ^ 64
        → 2 * t.capacity ≤ 2 ^ 31
        → (t' : Table K) × (insert 2 t k x ≡ some t')
          × Models (assign (view t) k (some x)) t'
          × Grows t t'
    unfolding insert
    insert-Grows {t} k x v valid absent power fits =
        let small : t.size + 1 < 2 ^ 64 =
          omega (arith, v.fits, le_of_dvd {m = 2 * t.capacity} {n = 2 ^ 64} (omega arith) power) in
        elim (Bool-cases (below_threshold t)) [
          | inl below ↦
              let (t', e, m, (size, capacity)) =
                insert_round-store k x v valid absent small (omega (arith, fits)) below in
              (t', ground (arith, v.unlocked, e), m, (size, inl capacity))
          | inr full ↦
              let (t₁, e₁, r) = insert_round-resize k x v power fits full in
              let (t', e, m, (size, capacity)) =
                insert_round-store {t = record t₁ { resizing_lock = 0 }} k x r.valid valid
                  (r.keeps k valid ∙ absent) (rw r.size small) (rw r.capacity fits)
                  (below_threshold-double t (record t₁ { resizing_lock = 0 }) v.nonempty v.fits
                    r.size r.capacity) in
              (
                t',
                ground (arith, v.unlocked, e₁, e),
                (
                  m.0,
                  λ q n. m.1 q n ∙ Dict.assign_congr (view t₁) (view t) k (some x) q (r.keeps q n),
                ),
                (size ∙ ap (λ n. n + 1) r.size, inr (full, capacity ∙ r.capacity)),
              )
        ]

    -- In a valid table whose doubled capacity is a power of two up to 2 ^ 31, `Insert` of a valid key
    -- that the table does not hold returns within two passes, with or without a resize; the table is
    -- valid then, and holds the key with its value beside what it held.
    pub insert-Models :
        {t : Table K} (k : K) (x : ℕ)
        → IsValid t
        → is_invalid k ≡ false
        → view t k ≡ none
        → 2 * t.capacity ∣ 2 ^ 64
        → 2 * t.capacity ≤ 2 ^ 31
        → (t' : Table K) × (insert 2 t k x ≡ some t') × Models (assign (view t) k (some x)) t'
    insert-Models {t} k x v valid absent power fits =
        let (t', e, m, grows) = insert-Grows k x v valid absent power fits in (t', e, m)
