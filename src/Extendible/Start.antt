-- ===== src/Extendible/Start.antt =====
-- The table that the constructors of index/extendible_hash.h build.
use hash_bench.Common.{
  ℕ, zero, suc, ◌+◌, ◌^◌, ◌≤◌, ◌<◌, ◌≡◌, ◌∙◌, sym, ap, refl, arith, false, none, some, length,
  get_elem?, replicate, get_elem?_total, get_elem?-replicate, length-replicate,
}
use mathlib.Core.Option.{some-injective}
use hash_bench.Key.{Key, is_invalid, ≐_invalid, ≐_refl}
use hash_bench.Dict.{Pair, count, find, new_array, new_pair, Unique}
use hash_bench.Dict
use hash_bench.Extendible.{
  num_slot, prefix, route, pointer, pointers, f_hash, new_segment, new_directory, new,
}
use hash_bench.Extendible.Bits.{prefix-lt}
use hash_bench.Extendible.View.{Serves, Contains, content-Serves}

length-pointers : (i n : ℕ) → length (pointers i n) ≡ n
length-pointers i zero = refl
length-pointers i (suc n) = ap suc (length-pointers (i + 1) n)

get_elem?-pointers : (i n j : ℕ) → j < n → get_elem? (pointers i n) j ≡ some (some (i + j))
get_elem?-pointers i zero j h = absurd (omega arith)
get_elem?-pointers i (suc n) zero h =
    let here : i ≡ i + 0 = omega arith in ap (λ x. some (some x)) here
get_elem?-pointers i (suc n) (suc j) h =
    let here : i + 1 + j ≡ i + suc j = omega arith in
    get_elem?-pointers (i + 1) n j (omega arith) ∙ ap (λ x. some (some x)) here

new-route :
    (depth h : ℕ) → depth ≤ 64 → h < 2 ^ 64 → route (new_directory depth) h ≡ some (prefix h depth)
unfolding route
new-route depth h le lt =
    let plain : 0 + prefix h depth ≡ prefix h depth = omega arith in
    ap pointer (get_elem?-pointers 0 (2 ^ depth) (prefix h depth) (prefix-lt h depth lt le))
    ∙ ap some plain

module _ {ℓ} {K : Type ℓ} ⦃key : Key K⦄ where
  empty_find : (k : K) → is_invalid k ≡ false → find k (new_array num_slot) ≡ none
  empty_find k valid = Dict.find-eq-none k (new_array num_slot) (
      Dict.count-replicate_other num_slot new_pair k
        (≐_invalid key.invalid k (≐_refl key.invalid) valid))

  pub new-Serves :
      (depth h : ℕ)
      → 0 < depth
      → depth ≤ 64
      → h < 2 ^ 64
      → Serves (new {K = K} depth) h (prefix h depth) (new_segment depth)
  unfolding new
  new-Serves depth h deep le lt = record {
    routed = new-route depth h le lt;
    stored =
        let (x, e) = get_elem?_total (replicate (2 ^ depth) (new_segment depth)) (prefix h depth) (
          omega (
            arith,
            prefix-lt h depth lt le,
            length-replicate (2 ^ depth) (new_segment {K = K} depth),
          )) in
        e ∙ get_elem?-replicate (2 ^ depth) (new_segment depth) (prefix h depth) e;
    unlocked = refl;
    low = deep;
    high = omega arith;
    region = λ h' lt' e. new-route depth h' le lt' ∙ ap some e;
    only = λ h' lt' e.
        some-injective (prefix h' depth) (prefix h depth) (sym (new-route depth h' le lt') ∙ e);
    filled = record {
      width = length-replicate num_slot new_pair;
      unique = λ k n. omega (
        arith,
        Dict.count-replicate_other num_slot new_pair k
            (≐_invalid key.invalid k (≐_refl key.invalid) n),
      );
      placed = λ k v n f. cc (empty_find k n, f);
    };
  }

  -- A table built with a depth of 1 to 64 is valid and holds nothing.
  pub new-Contains : (depth : ℕ) → 0 < depth → depth ≤ 64 → Contains (λ (k : K). none) (new depth)
  unfolding new
  new-Contains depth deep le = (
    record {
      directory = record {
        width = length-pointers 0 (2 ^ depth);
        counted = refl;
        deep = deep;
        shallow = le;
        idle = refl;
      };
      serves = λ h lt. (prefix h depth, new_segment depth, new-Serves depth h deep le lt);
    },
    λ k n.
        content-Serves {t = new depth} k (new-Serves depth (f_hash k) deep le (key.hash-lt 0 k _))
        ∙ empty_find k n,
  )
