-- ===== src/GenericKey/Compare.antt =====
-- Comparisons of keys that `setFromString` of util/config.h has set.
use hash_bench.Common.{
  ℕ, zero, suc, ◌+◌, ◌-◌, ◌<◌, ◌≤◌, ◌≡◌, ◌∙◌, ◌↔◌, refl, sym, ap, ap₂, arith, inl, inr, Bool, true,
  false, Bool-cases, some, List, [], ◌∷◌, ◌++◌, length, replicate, take, length-take, length-append,
  set, overwrite, leb, ℕ_discrete,
}
use hash_bench.GenericKey.{until_nul, set_from_string, strcmp, same}

-- There is a 0 in the array.
abbrev pub IsTerminated : List ℕ → Type 0
IsTerminated [] = ⊥
IsTerminated (zero ∷ xs) = Unit
IsTerminated (suc x ∷ xs) = IsTerminated xs

abbrev SameText : List ℕ → List ℕ → Type 0
SameText xs ys = (b : Bool) × (same xs ys ≡ some b) × ((b ≡ true) ↔ (until_nul xs ≡ until_nul ys))

overwrite_cleared :
    (n m : ℕ) (ys : List ℕ)
    → length ys + m ≡ n
    → overwrite (replicate n 0) 0 ys ≡ ys ++ replicate m 0
overwrite_cleared zero m [] e = let z : 0 ≡ m = omega (arith, e) in ap (λ t. replicate t 0) z
overwrite_cleared zero m (y ∷ ys) e = let no : 1 ≤ 0 = omega (arith, e) in elim no [ ]
overwrite_cleared (suc n) m [] e = let z : suc n ≡ m = omega (arith, e) in ap (λ t. replicate t 0) z
overwrite_cleared (suc n) m (y ∷ ys) e =
    ap (λ r. y ∷ r) (overwrite_cleared n m ys (omega (arith, e)))

until_nul-append : (ys zs : List ℕ) → until_nul (ys ++ 0 ∷ zs) ≡ until_nul ys
until_nul-append [] zs = refl
until_nul-append (zero ∷ ys) zs = refl
until_nul-append (suc y ∷ ys) zs = ap (λ r. suc y ∷ r) (until_nul-append ys zs)

append-IsTerminated : (ys zs : List ℕ) → IsTerminated (ys ++ 0 ∷ zs)
append-IsTerminated [] zs = tt
append-IsTerminated (zero ∷ ys) zs = tt
append-IsTerminated (suc y ∷ ys) zs = append-IsTerminated ys zs

until_nul_idem : (ys : List ℕ) → until_nul (until_nul ys) ≡ until_nul ys
until_nul_idem [] = refl
until_nul_idem (zero ∷ ys) = refl
until_nul_idem (suc y ∷ ys) = ap (λ r. suc y ∷ r) (until_nul_idem ys)

take_all : (n : ℕ) (ys : List ℕ) → length ys ≤ n → take n ys ≡ ys
take_all zero [] le = refl
take_all zero (y ∷ ys) le = elim le [ ]
take_all (suc n) [] le = refl
take_all (suc n) (y ∷ ys) le = ap (λ r. y ∷ r) (take_all n ys (omega arith))

set_last : (ys : List ℕ) (i : ℕ) → length ys ≡ i → set (ys ++ 0 ∷ []) i 0 ≡ ys ++ 0 ∷ []
set_last [] zero e = refl
set_last [] (suc i) e = let no : 1 ≤ 0 = omega (arith, e) in elim no [ ]
set_last (y ∷ ys) zero e = let no : 1 ≤ 0 = omega (arith, e) in elim no [ ]
set_last (y ∷ ys) (suc i) e = ap (λ r. y ∷ r) (set_last ys i (omega (arith, e)))

length-until_nul : (ys : List ℕ) → length (until_nul ys) ≤ length ys
length-until_nul [] = omega arith
length-until_nul (zero ∷ ys) = omega arith
length-until_nul (suc y ∷ ys) = omega (arith, length-until_nul ys)

append_last : (ys zs : List ℕ) → (ys ++ 0 ∷ []) ++ zs ≡ ys ++ 0 ∷ zs
append_last [] zs = refl
append_last (y ∷ ys) zs = ap (λ r. y ∷ r) (append_last ys zs)

-- What `setFromString` leaves is a text and a 0 behind it.
set_from_string_parts :
    (n : ℕ) (key : List ℕ)
    → 0 < n
    → (ys : List ℕ) × (zs : List ℕ) × (set_from_string n key ≡ ys ++ 0 ∷ zs)
      × (until_nul ys ≡ until_nul (take (n - 1) key))
unfolding set_from_string
set_from_string_parts n key pos = elim (Bool-cases (leb n (length key))) [
  | inl long ↦
      let text = take (n - 1) key in
      let width : length text ≡ n - 1 = length-take (n - 1) key (ground (arith, long)) in
      let written : overwrite (replicate n 0) 0 text ≡ text ++ 0 ∷ [] =
        overwrite_cleared n 1 text (omega (arith, width, pos)) in
      (text, [], rw (set_from_string, long, written) (set_last text (n - 1) width), refl)
  | inr short ↦
      let text = until_nul key in
      let room : length key < n = ground (arith, short) in
      let m = n - length text - 1 in
      let width : length (text ++ 0 ∷ []) + m ≡ n =
        omega (arith, length-append text (0 ∷ []), length-until_nul key, room) in
      let whole : until_nul (take (n - 1) key) ≡ until_nul key =
        ap until_nul (take_all (n - 1) key (omega (arith, room))) in
      (
        text,
        replicate m 0,
        rw (set_from_string, short)
            (overwrite_cleared n m (text ++ 0 ∷ []) width ∙ append_last text (replicate m 0)),
        until_nul_idem key ∙ sym whole,
      )
]

abbrev head_or : List ℕ → ℕ
head_or [] = 0
head_or (x ∷ xs) = x

abbrev tail_of : List ℕ → List ℕ
tail_of [] = []
tail_of (x ∷ xs) = xs

-- Of arrays with a 0 in them, `strcmp` compares the bytes in front of it.
strcmp-SameText : (xs ys : List ℕ) → IsTerminated xs → IsTerminated ys → SameText xs ys
unfolding strcmp same
strcmp-SameText [] ys t u = elim t [ ]
strcmp-SameText (x ∷ xs) [] t u = elim u [ ]
strcmp-SameText (zero ∷ xs) (zero ∷ ys) t u = (true, refl, (λ e. refl, λ e. refl))
strcmp-SameText (zero ∷ xs) (suc y ∷ ys) t u = (
  false,
  ground arith,
  (
    λ e. cc,
    λ e. let head : 0 ≡ suc y = ap head_or e in let no : 1 ≤ 0 = omega (arith, head) in elim no [ ],
  ),
)
strcmp-SameText (suc x ∷ xs) (zero ∷ ys) t u = (
  false,
  ground arith,
  (
    λ e. cc,
    λ e. let head : suc x ≡ 0 = ap head_or e in let no : 1 ≤ 0 = omega (arith, head) in elim no [ ],
  ),
)
strcmp-SameText (suc x ∷ xs) (suc y ∷ ys) t u = elim (ℕ_discrete x y) [
  | yes e ↦
      let (b, run, (to, from)) = strcmp-SameText xs ys t u in
      (b, ground (arith, run, e), (λ h. ap₂ (λ p r. suc p ∷ r) e (to h), λ h. from (ap tail_of h)))
  | no ne ↦ (
    false,
    ground (arith, ne),
    (λ e. cc, λ h. let head : suc x ≡ suc y = ap head_or h in absurd (ne (omega (arith, head)))),
  )
]

-- For arrays of at least one byte, `==` of two keys that `setFromString` has set reads no byte behind
-- them, and tells whether the strings agree up to their first 0 and up to the size that is stored.
pub set_from_string-same :
    (n : ℕ) (a b : List ℕ)
    → 0 < n
    → (r : Bool) × (same (set_from_string n a) (set_from_string n b) ≡ some r)
      × ((r ≡ true) ↔ (until_nul (take (n - 1) a) ≡ until_nul (take (n - 1) b)))
set_from_string-same n a b pos =
    let (xs, zs, e, f) = set_from_string_parts n a pos in
    let (ys, ws, e', f') = set_from_string_parts n b pos in
    let (r, run, (to, from)) =
      strcmp-SameText (xs ++ 0 ∷ zs) (ys ++ 0 ∷ ws) (append-IsTerminated xs zs)
        (append-IsTerminated ys ws) in
    let left : until_nul (xs ++ 0 ∷ zs) ≡ until_nul (take (n - 1) a) = until_nul-append xs zs ∙ f in
    let right : until_nul (ys ++ 0 ∷ ws) ≡ until_nul (take (n - 1) b) =
      until_nul-append ys ws ∙ f' in
    (r, ap₂ same e e' ∙ run, (λ h. sym left ∙ to h ∙ right, λ h. from (left ∙ h ∙ sym right)))
