-- ===== src/Linear/Threads/Stripes.antt =====
-- The locks of index/linear_probing.h: who holds a stripe, before and after one thread's step.
use hash_bench.Common.{
  ℕ, ◌≤◌, ◌≡◌, ◌≢◌, ◌⊎◌, ◌∙◌, inl, inr, sym, ap, subst, none, some, List, arith, get_elem?, set,
  ℕ_discrete,
}
use hash_bench.Common.Totals.{total-set, total-at, total-two}
use hash_bench.Linear.Threads.{Pc, Thread, exclusive, shared, is_at, writers, readers, Free}

is_at_self : (c : ℕ) → is_at c (some c) ≡ 1
is_at_self c = ground arith

module _ {ℓ} {K : Type ℓ} where
  -- What one step does to the locks of its thread.
  pub data Change (ths : List (Thread K)) (p q : Pc K) : Type ℓ where
    quiet :
        ((c : ℕ) → is_at c (exclusive q) ≤ is_at c (exclusive p))
        → ((c : ℕ) → is_at c (shared q) ≤ is_at c (shared p))
        → Change ths p q
    takes :
        (d : ℕ)
        → Free d ths
        → exclusive p ≡ none
        → exclusive q ≡ some d
        → shared p ≡ none
        → shared q ≡ none
        → Change ths p q
    joins :
        (d : ℕ)
        → writers d ths ≡ 0
        → exclusive p ≡ none
        → exclusive q ≡ none
        → shared p ≡ none
        → shared q ≡ some d
        → Change ths p q

  pub keeps :
      {ths : List (Thread K)} {p q : Pc K}
      → exclusive q ≡ exclusive p
      → shared q ≡ shared p
      → Change ths p q
  keeps {p = p} e s =
      quiet (λ c. subst (λ o. is_at c o ≤ is_at c (exclusive p)) (sym e) (omega arith))
        (λ c. subst (λ o. is_at c o ≤ is_at c (shared p)) (sym s) (omega arith))

  pub releases :
      {ths : List (Thread K)} {p q : Pc K} → exclusive q ≡ none → shared q ≡ none → Change ths p q
  releases {p = p} e s =
      quiet (λ c. subst (λ o. is_at c o ≤ is_at c (exclusive p)) (sym e) (omega arith))
        (λ c. subst (λ o. is_at c o ≤ is_at c (shared p)) (sym s) (omega arith))

  -- A stripe has no writer, or one and no reader.
  unfoldable pub Exclusion : List (Thread K) → Type 0
  Exclusion ths = (c : ℕ) → (writers c ths ≡ 0) ⊎ ((writers c ths ≡ 1) × (readers c ths ≡ 0))

  -- A thread that writes a stripe shares it with no other.
  pub alone :
      (ths : List (Thread K)) (i j c : ℕ) (th th' : Thread K)
      → Exclusion ths
      → i ≢ j
      → get_elem? ths i ≡ some th
      → get_elem? ths j ≡ some th'
      → exclusive th.pc ≡ some c
      → (exclusive th'.pc ≡ some c) ⊎ (shared th'.pc ≡ some c)
      → 1 ≤ 0
  unfolding Exclusion
  alone ths i j c th th' ex ne at at' own (inl e) =
      let two = total-two (λ x. is_at c (exclusive x.pc)) ths i j th th' ne at at' in
      let a : is_at c (exclusive th.pc) ≡ 1 = ap (is_at c) own ∙ is_at_self c in
      let b : is_at c (exclusive th'.pc) ≡ 1 = ap (is_at c) e ∙ is_at_self c in
      elim (ex c) [ inl z ↦ omega arith | inr z ↦ omega (arith, z.0) ]
  alone ths i j c th th' ex ne at at' own (inr e) =
      let one = total-at (λ x. is_at c (exclusive x.pc)) ths i th at in
      let other = total-at (λ x. is_at c (shared x.pc)) ths j th' at' in
      let a : is_at c (exclusive th.pc) ≡ 1 = ap (is_at c) own ∙ is_at_self c in
      let b : is_at c (shared th'.pc) ≡ 1 = ap (is_at c) e ∙ is_at_self c in
      elim (ex c) [ inl z ↦ omega arith | inr z ↦ omega (arith, z.1) ]

  -- After one thread's step.
  pub set-Exclusion :
      (ths : List (Thread K)) (i : ℕ) (th th' : Thread K)
      → get_elem? ths i ≡ some th
      → Change ths th.pc th'.pc
      → Exclusion ths
      → Exclusion (set ths i th')
  unfolding Exclusion
  set-Exclusion ths i th th' at change ex c =
      let w = total-set (λ x. is_at c (exclusive x.pc)) ths i th th' at in
      let r = total-set (λ x. is_at c (shared x.pc)) ths i th th' at in
      elim change [
        | quiet a b ↦
            let a' = a c in
            let b' = b c in
            elim (ex c) [ inl z ↦ inl (omega arith) | inr z ↦ ground (arith, z.0, z.1) ]
        | takes d f ep eq sp sq ↦
            let a : is_at c (exclusive th.pc) ≡ 0 = ap (is_at c) ep in
            let b : is_at c (exclusive th'.pc) ≡ is_at c (some d) = ap (is_at c) eq in
            let a' : is_at c (shared th.pc) ≡ 0 = ap (is_at c) sp in
            let b' : is_at c (shared th'.pc) ≡ 0 = ap (is_at c) sq in
            elim (ℕ_discrete c d) [
              | yes e ↦
                  let here : Free c ths = subst (λ x. Free x ths) (sym e) f in
                  let one : is_at c (some d) ≡ 1 =
                    subst (λ x. is_at c (some x) ≡ 1) e (is_at_self c) in
                  inr (omega (arith, here.0), omega (arith, here.1))
              | no ne ↦
                  let zero : is_at c (some d) ≡ 0 = ground arith in
                  elim (ex c) [
                    | inl z ↦ inl (omega arith)
                    | inr z ↦ inr (omega (arith, z.0), omega (arith, z.1))
                  ]
            ]
        | joins d f ep eq sp sq ↦
            let a : is_at c (exclusive th.pc) ≡ 0 = ap (is_at c) ep in
            let b : is_at c (exclusive th'.pc) ≡ 0 = ap (is_at c) eq in
            let a' : is_at c (shared th.pc) ≡ 0 = ap (is_at c) sp in
            let b' : is_at c (shared th'.pc) ≡ is_at c (some d) = ap (is_at c) sq in
            elim (ℕ_discrete c d) [
              | yes e ↦
                  let here : writers c ths ≡ 0 = subst (λ x. writers x ths ≡ 0) (sym e) f in
                  inl (omega arith)
              | no ne ↦
                  let zero : is_at c (some d) ≡ 0 = ground arith in
                  elim (ex c) [
                    | inl z ↦ inl (omega arith)
                    | inr z ↦ inr (omega (arith, z.0), omega (arith, z.1))
                  ]
            ]
      ]
