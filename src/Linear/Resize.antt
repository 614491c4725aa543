-- ===== src/Linear/Resize.antt =====
-- `resize` and `getLocation` of index/linear_probing.h: the move of every entry to a new array.
use hash_bench.Common.{
  ℕ, ◌+◌, ◌/◌, ◌%◌, ◌^◌, ◌≤◌, ◌<◌, lt→ltb, ◌∣◌, ◌≡◌, ◌∙◌, refl, inl, inr, false, some, List, [],
  ◌∷◌, arith, length, length-set, length-replicate, set, Bool-cases,
}
use mathlib.Core.Option.{or_else}
use hash_bench.Key.{Key, is_invalid, ≐_refl, ≐_invalid}
use hash_bench.Dict.{Pair, hit, new_pair, new_array, none_value, count, find, Unique}
use hash_bench.Dict
use hash_bench.Probe.{Covers-mod, search-some}
use hash_bench.Linear.{Table, is_int, int_rounds, hash, get_location, move_pair, move_all, resize}
use hash_bench.Linear.View.{view, IsValid}

pub int_rounds-le : (n : ℕ) → n ≤ 2 ^ 31 → int_rounds n ≡ n
unfolding int_rounds is_int
int_rounds-le n le = ground (arith, le)

module _ {ℓ} {K : Type ℓ} ⦃key : Key K⦄ where
  -- What a new array has after it took over the entries `ps`, that `d` had before.
  record Moved (ps d d' : List (Pair K)) : Type ℓ where
    width : length d' ≡ length d
    counts : (k : K) → is_invalid k ≡ false → count k d' ≡ count k d + count k ps
    empties : count key.invalid d' + length ps ≡ count key.invalid d + count key.invalid ps
    finds :
        (k : K)
        → is_invalid k ≡ false
        → count k d + count k ps ≤ 1
        → find k d' ≡ or_else (find k d) (find k ps)

  -- With a free slot, `getLocation` finds one, and the entry goes there.
  move_pair-Moved :
      (p : Pair K) (d : List (Pair K)) (n : ℕ)
      → length d ≡ n
      → n ≤ 2 ^ 31
      → 1 ≤ count key.invalid d + hit key.invalid p
      → (d' : List (Pair K)) × (move_pair n p d ≡ some d') × Moved (p ∷ []) d d'
  unfolding move_pair get_location count find or_else
  move_pair-Moved p d n len fits free = elim (Bool-cases (is_invalid p.key)) [
    | inl empty ↦ (
      d,
      rw empty,
      record {
        width = refl;
        counts = λ k v. ground (arith, ≐_invalid p.key k empty v);
        empties = ground (arith, empty);
        finds = λ k v c. ground (arith, ≐_invalid p.key k empty v);
      },
    )
    | inr full ↦
        let slot = λ (i : ℕ). (hash p.key % n + i) % n in
        let (s, q, e, r, h) =
          search-some key.invalid slot d n len (Covers-mod _ n) (ground arith) in
        (
          set d s p,
          rw (move_pair, full, get_location, int_rounds-le n fits, e) refl,
          record {
            width = length-set d s p;
            counts = λ k v. ground (arith, Dict.count-set k d s q p r, ≐_invalid q.key k h v);
            empties = ground (arith, Dict.count-set key.invalid d s q p r, full);
            finds = λ k v c. ground (
              arith,
              Dict.count-set k d s q p r,
              ≐_invalid q.key k h v,
              Dict.find-set k d s q p r,
              Dict.find-eq-none k d,
            );
          },
        )
  ]

  count-le : (k : K) (ps : List (Pair K)) → count k ps ≤ length ps
  unfolding count
  count-le k [] = omega arith
  count-le k (p ∷ ps) = ground (arith, count-le k ps)

  -- The loop over the old array never misses a free slot, if there are as many as entries.
  move_all-Moved :
      (ps d : List (Pair K)) (n : ℕ)
      → length d ≡ n
      → n ≤ 2 ^ 31
      → length ps ≤ count key.invalid d + count key.invalid ps
      → (d' : List (Pair K)) × (move_all n ps d ≡ some d') × Moved ps d d'
  unfolding move_all count find or_else
  move_all-Moved [] d n len fits free = (
    d,
    refl,
    record {
      width = refl;
      counts = λ k v. omega arith;
      empties = omega arith;
      finds = λ k v c. ground arith;
    },
  )
  move_all-Moved (p ∷ ps) d n len fits free =
      let (d₁, e₁, m₁) = move_pair-Moved p d n len fits (omega (arith, count-le key.invalid ps)) in
      let (d₂, e₂, m₂) = move_all-Moved ps d₁ n (m₁.width ∙ len) fits (omega (arith, m₁.empties)) in
      (
        d₂,
        rw (e₁, move_all) e₂,
        record {
          width = m₂.width ∙ m₁.width;
          counts = λ k v. omega (arith, m₁.counts k v, m₂.counts k v);
          empties = omega (arith, m₁.empties, m₂.empties);
          finds = λ k v c.
              ground (arith, m₁.counts k v, m₁.finds k v, m₂.finds k v, Dict.find-eq-none k ps);
        },
      )

  new_array-counts : (n : ℕ) (k : K) → is_invalid k ≡ false → count k (new_array n) ≡ 0
  new_array-counts n k valid =
      Dict.count-replicate_other n new_pair k (≐_invalid key.invalid k (≐_refl key.invalid) valid)

  -- What `resize` leaves, once `Insert` has released `resizing_lock`.
  pub record Resized (n : ℕ) (t t' : Table K) : Type ℓ where
    pub valid : IsValid (record t' { resizing_lock = 0 })
    pub capacity : t'.capacity ≡ n
    pub size : t'.size ≡ t.size
    pub keeps : (k : K) → is_invalid k ≡ false → view t' k ≡ view t k

  -- `resize` of a valid table whose capacity is below 2 ^ 31, under the lock, to a power of two up
  -- to 2 ^ 31 that is not below its capacity, does not fault; the table has that capacity, is
  -- valid once the lock is cleared, and has the same size and the same value for each valid key.
  pub resize-Resized :
      {t : Table K} (n : ℕ)
      → IsValid t
      → n ∣ 2 ^ 64
      → t.capacity ≤ n
      → t.capacity < 2 ^ 31
      → n ≤ 2 ^ 31
      → (t' : Table K) × (resize n (record t { resizing_lock = 1 }) ≡ some t') × Resized n t t'
  unfolding resize or_else is_int
  resize-Resized {t} n v power big held fits =
      let (d, e, m) =
        move_all-Moved t.dict (new_array n) n (length-replicate n new_pair) fits
          (omega (arith, v.width, Dict.count-replicate_self {K = K} n new_pair)) in
      (
        record t {
          capacity = n;
          dict = d;
          old_cap = 0;
          old_dic = [];
          resizing_lock = 1;
          nlocks = n / t.locksize + 1;
        },
        rw (resize, lt→ltb _ _ held, e) refl,
        record {
          valid = record {
            unlocked = refl;
            width = m.width ∙ length-replicate n new_pair;
            nonempty = omega (arith, v.nonempty);
            power = power;
            striped = v.striped;
            stripes = rw v.striped;
            room =
                omega
                  (arith, m.empties, Dict.count-replicate_self {K = K} n new_pair, v.room, v.width);
            fits = omega (arith, v.fits);
            unique = λ k valid.
                omega (arith, m.counts k valid, new_array-counts n k valid, v.unique k valid);
          };
          capacity = refl;
          size = refl;
          keeps = λ k valid. ground (
            arith,
            m.finds k valid,
            new_array-counts n k valid,
            v.unique k valid,
            Dict.find-eq-none k (new_array n),
          );
        },
      )
