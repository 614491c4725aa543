-- ===== src/Extendible/Entries.antt =====
-- What the loops over the directory of index/extendible_hash.h write.
use hash_bench.Common.{
  ℕ, zero, suc, ◌+◌, ◌-◌, ◌*◌, ◌/◌, ◌%◌, ◌≤◌, ◌<◌, ◌≡◌, ◌≢◌, ◌∙◌, ◌⊎◌, inl, inr, ap, subst, refl,
  arith, ℕ_discrete, Bool, true, false, Option, some, List, [], ◌∷◌, length, get_elem?, set,
  length-set, get_elem?-set_self, get_elem?-set_ne, if◌then◌else◌, ◌==◌, ==_iff,
}
use hash_bench.Extendible.{double, fill, fill_pair, fill_stride}
use hash_bench.Extendible.Bits.{run_upper, run_lower, run_outside}

pub double-length :
    (es : List (Option ℕ)) (i x s0 s1 : ℕ) → length (double es i x s0 s1) ≡ length es + length es
unfolding double
double-length [] i x s0 s1 = omega arith
double-length (e ∷ es) i x s0 s1 = ground (arith, double-length es (i + 1) x s0 s1)

two_more :
    (b : Bool) (s0 s1 : ℕ) (e : Option ℕ) (es : List (Option ℕ)) (n : ℕ)
    → get_elem? (if b then some s0 ∷ some s1 ∷ es else e ∷ e ∷ es) (suc (suc n)) ≡ get_elem? es n
two_more true s0 s1 e es n = refl
two_more false s0 s1 e es n = refl

pub double-get :
    (es : List (Option ℕ)) (i x s0 s1 j b : ℕ)
    → j < length es
    → b < 2
    → get_elem? (double es i x s0 s1) (j + j + b)
      ≡ (if i + j == x then some (some (if b == 1 then s1 else s0)) else get_elem? es j)
unfolding double
double-get [] i x s0 s1 j b h lt = absurd (omega arith)
double-get (e ∷ es) i x s0 s1 zero zero h lt = ground arith
double-get (e ∷ es) i x s0 s1 zero (suc zero) h lt = ground arith
double-get (e ∷ es) i x s0 s1 zero (suc (suc b)) h lt = absurd (omega arith)
double-get (e ∷ es) i x s0 s1 (suc j) b h lt =
    let here : i + 1 + j ≡ i + suc j = omega arith in
    let at : suc j + suc j + b ≡ suc (suc (j + j + b)) = omega arith in
    let rest = double-get es (i + 1) x s0 s1 j b (omega arith) lt in
    rw at (
      two_more (i == x) s0 s1 e (double es (i + 1) x s0 s1) (j + j + b)
      ∙ rest
      ∙ ap (λ n. if n == x then some (some (if b == 1 then s1 else s0)) else get_elem? es j) here)

pub fill-length : (es : List (Option ℕ)) (a n s : ℕ) → length (fill es a n s) ≡ length es
unfolding fill
fill-length es a zero s = refl
fill-length es a (suc n) s = fill-length (set es a (some s)) (a + 1) n s ∙ length-set es a (some s)

fill_outside :
    (es : List (Option ℕ)) (a n s j : ℕ)
    → (j < a) ⊎ (a + n ≤ j)
    → get_elem? (fill es a n s) j ≡ get_elem? es j
unfolding fill
fill_outside es a zero s j h = refl
fill_outside es a (suc n) s j h =
    fill_outside (set es a (some s)) (a + 1) n s j
      (elim h [ inl l ↦ inl (omega arith) | inr r ↦ inr (omega arith) ])
    ∙ get_elem?-set_ne es (some s)
        (λ e. elim h [ inl l ↦ absurd (omega arith) | inr r ↦ absurd (omega arith) ])

fill_inside :
    (es : List (Option ℕ)) (a n s j : ℕ)
    → a ≤ j
    → j < a + n
    → j < length es
    → get_elem? (fill es a n s) j ≡ some (some s)
unfolding fill
fill_inside es a zero s j lo hi lt = absurd (omega arith)
fill_inside es a (suc n) s j lo hi lt = elim (ℕ_discrete a j) [
  | yes h ↦
      fill_outside (set es a (some s)) (a + 1) n s j (inl (omega arith))
      ∙ subst (λ i. get_elem? (set es a (some s)) i ≡ some (some s)) h
          (get_elem?-set_self es a (some s) (omega arith))
  | no h ↦
      fill_inside (set es a (some s)) (a + 1) n s j (omega arith) (omega arith)
        (omega (arith, length-set es a (some s)))
]

pub ==_no : (a b : ℕ) → a ≢ b → a == b ≡ false
==_no a b h = ground arith

-- Where each entry of a segment below the depth of the directory goes.
pub fill_stride-get :
    (es : List (Option ℕ)) (x half s0 s1 y : ℕ)
    → 0 < half
    → y < length es
    → get_elem? (fill_stride es x (2 * half) s0 s1) y ≡ (
        if y / (2 * half) == x / (2 * half)
        then some (some (if y / half % 2 == 1 then s1 else s0))
        else get_elem? es y)
unfolding fill_stride
fill_stride-get es x half s0 s1 y h lt =
    let a = x - x % (2 * half) in
    let halved : 2 * half / 2 ≡ half = omega arith in
    let upper = fill es (a + half) half s1 in
    let wide = fill-length es (a + half) half s1 in
    rw halved (elim (ℕ_discrete (y / (2 * half)) (x / (2 * half))) [
      | yes same ↦ elim (ℕ_discrete (y / half % 2) 1) [
        | yes bit ↦
            let (lo, hi) = run_upper half x y h same bit in
            rw ((==_iff _ _).1 same, (==_iff _ _).1 bit)
              (fill_outside upper a half s0 y (inr lo)
                ∙ fill_inside es (a + half) half s1 y lo hi lt)
        | no bit ↦
            let (lo, hi) = run_lower half x y h same (omega arith) in
            rw ((==_iff _ _).1 same, ==_no _ _ bit)
              (fill_inside upper a half s0 y lo hi (omega arith))
      ]
      | no other ↦
          let out = run_outside half x y h other in
          rw (==_no _ _ other) (
            fill_outside upper a half s0 y (elim out [ inl l ↦ inl l | inr r ↦ inr (omega arith) ])
            ∙ fill_outside es (a + half) half s1 y
                (elim out [ inl l ↦ inl (omega arith) | inr r ↦ inr r ]))
    ])

-- The case of two entries does what the general one would do.
pub fill_pair-stride :
    (es : List (Option ℕ)) (x s0 s1 : ℕ) → fill_pair es x s0 s1 ≡ fill_stride es x 2 s0 s1
unfolding fill_pair fill_stride fill
fill_pair-stride es x s0 s1 = elim (ℕ_discrete (x % 2) 0) [
  | yes even ↦ let same : x - x % 2 ≡ x = omega arith in rw ((==_iff _ _).1 even, same)
  | no odd ↦
      let same : x - x % 2 ≡ x - 1 = omega arith in
      let next : x - 1 + 1 ≡ x = omega arith in rw (==_no _ _ odd, same, next)
]
