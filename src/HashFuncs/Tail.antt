-- ===== src/HashFuncs/Tail.antt =====
-- What the loop of `hash_compute` in util/hash.h over stripes of 32 bytes computes and leaves.
use hash_bench.Common.{
  ℕ, zero, suc, ◌+◌, ◌-◌, ◌*◌, ◌/◌, ◌≤◌, ◌<◌, ◌≡◌, ◌∙◌, refl, sym, ap, ap₂, arith, List, length,
  drop, length-drop, drop-drop, inl, inr, leb, Bool-cases, if◌then◌else◌,
}
use hash_bench.HashFuncs.{Lanes, lane_round, read64, stripes}

-- A lane after `n` rounds, where the round `i` adds the word at the byte `at + 32 * i`.
unfoldable pub lane_after : (p : List ℕ) (at v n : ℕ) → ℕ
lane_after p at v zero = v
lane_after p at v (suc n) = lane_round (lane_after p at v n) (read64 (drop (at + 32 * n) p))

abbrev pub lanes_after : List ℕ → Lanes → ℕ → Lanes
lanes_after p v n = record {
  v1 = lane_after p 0 v.v1 n;
  v2 = lane_after p 8 v.v2 n;
  v3 = lane_after p 16 v.v3 n;
  v4 = lane_after p 24 v.v4 n;
}

-- The first round, and the others on the bytes after it.
lane_after-first :
    (p : List ℕ) (at v n : ℕ)
    → lane_after (drop 32 p) at (lane_round v (read64 (drop at p))) n ≡ lane_after p at v (suc n)
unfolding lane_after
lane_after-first p at v zero =
    let start : at ≡ at + 32 * 0 = omega arith in ap (λ i. lane_round v (read64 (drop i p))) start
lane_after-first p at v (suc n) =
    let next : 32 + (at + 32 * n) ≡ at + 32 * suc n = omega arith in
    ap₂ (λ a q. lane_round a (read64 q)) (lane_after-first p at v n)
      (drop-drop (at + 32 * n) 32 p ∙ ap (λ i. drop i p) next)

-- One round of the loop on the lanes.
abbrev round : Lanes → List ℕ → Lanes
round v p = record {
  v1 = lane_round v.v1 (read64 p);
  v2 = lane_round v.v2 (read64 (drop 8 p));
  v3 = lane_round v.v3 (read64 (drop 16 p));
  v4 = lane_round v.v4 (read64 (drop 24 p));
}

lanes_after-first :
    (p : List ℕ) (v : Lanes) (n : ℕ)
    → lanes_after (drop 32 p) (round v p) n ≡ lanes_after p v (suc n)
lanes_after-first p v n =
    rw
      (
        lane_after-first p 0 v.v1 n,
        lane_after-first p 8 v.v2 n,
        lane_after-first p 16 v.v3 n,
        lane_after-first p 24 v.v4 n,
      )
      refl

stripes-first :
    (n : ℕ) (v : Lanes) (p : List ℕ)
    → stripes (suc n) v p ≡ (
        if leb 32 (length (drop 32 p))
        then stripes n (round v p) (drop 32 p)
        else (round v p, drop 32 p))
unfolding stripes
stripes-first n v p = rw (stripes, drop-drop 8 8 p, drop-drop 8 16 p, drop-drop 8 24 p) refl

-- With fuel for as many rounds as there are bytes, the loop over stripes ends by its own test: of
-- an input of 32 bytes or more it takes every whole stripe and leaves exactly the bytes after the
-- last one; each of the four lanes has taken, in order, its word of each stripe.
pub stripes_lem :
    (n : ℕ) (v : Lanes) (p : List ℕ)
    → 32 ≤ length p
    → length p ≤ n
    → stripes n v p ≡ (lanes_after p v (length p / 32), drop (32 * (length p / 32)) p)
unfolding lane_after
stripes_lem zero v p h k = absurd (omega arith)
stripes_lem (suc n) v p h k =
    let left : length (drop 32 p) ≡ length p - 32 = length-drop 32 p in
    elim (Bool-cases (leb 32 (length (drop 32 p)))) [
      | inl more ↦
          let m = length (drop 32 p) / 32 in
          let count : length p / 32 ≡ suc m = ground (arith, left, more) in
          let bytes : 32 + 32 * m ≡ 32 * suc m = omega arith in
          stripes-first n v p
          ∙ rw more (
              stripes_lem n (round v p) (drop 32 p) (ground arith) (omega (arith, left))
              ∙ ap₂ (λ a b. (a, b)) (lanes_after-first p v m)
                  (drop-drop (32 * m) 32 p ∙ ap (λ i. drop i p) bytes)
              ∙ ap (λ c. (lanes_after p v c, drop (32 * c) p)) (sym count))
      | inr done ↦
          let low : length (drop 32 p) < 32 = ground arith in
          let count : 1 ≡ length p / 32 = omega (arith, left, low) in
          stripes-first n v p ∙ rw done (ap (λ c. (lanes_after p v c, drop (32 * c) p)) count)
    ]
