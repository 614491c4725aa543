-- ===== src/Common/Totals.antt =====
-- Sums of a weight over a list, for counting threads and entries.
use hash_bench.Common.{
  ℕ, zero, suc, ◌+◌, ◌≤◌, ◌≡◌, ◌≢◌, refl, List, [], ◌∷◌, some, get_elem?, set, arith,
}

module _ {ℓ} {A : Type ℓ} (w : A → ℕ) where
  unfoldable pub total : List A → ℕ
  total [] = 0
  total (x ∷ xs) = w x + total xs

  pub total-set :
      (xs : List A) (i : ℕ) (x y : A)
      → get_elem? xs i ≡ some x
      → total (set xs i y) + w x ≡ total xs + w y
  unfolding total
  total-set [] i x y e = cc
  total-set (z ∷ xs) zero x y e = ground arith
  total-set (z ∷ xs) (suc i) x y e = omega (arith, total-set xs i x y e)

  pub total-at : (xs : List A) (i : ℕ) (x : A) → get_elem? xs i ≡ some x → w x ≤ total xs
  unfolding total
  total-at [] i x e = cc
  total-at (z ∷ xs) zero x e = ground arith
  total-at (z ∷ xs) (suc i) x e = omega (arith, total-at xs i x e)

  -- Two places count twice.
  pub total-two :
      (xs : List A) (i j : ℕ) (x y : A)
      → i ≢ j
      → get_elem? xs i ≡ some x
      → get_elem? xs j ≡ some y
      → w x + w y ≤ total xs
  unfolding total
  total-two [] i j x y ne a b = cc
  total-two (z ∷ xs) zero zero x y ne a b = absurd (ne refl)
  total-two (z ∷ xs) zero (suc j) x y ne a b = ground (arith, total-at xs j y b)
  total-two (z ∷ xs) (suc i) zero x y ne a b = ground (arith, total-at xs i x a)
  total-two (z ∷ xs) (suc i) (suc j) x y ne a b =
      omega (arith, total-two xs i j x y (λ e. ne (cc e)) a b)

  pub total-zero :
      (xs : List A) → ((i : ℕ) (x : A) → get_elem? xs i ≡ some x → w x ≡ 0) → total xs ≡ 0
  unfolding total
  total-zero [] h = refl
  total-zero (x ∷ xs) h = omega (arith, h 0 x refl, total-zero xs (λ i y e. h (suc i) y e))
