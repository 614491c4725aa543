-- ===== src/Key.antt =====
-- What the tables use of a key type `Key_t` and of the functions that hash it: `memcmp` on all of
-- its bytes, the key `INVALID<Key_t>` of util/pair.h (all bytes zero) and `hash_funcs[i]` of
-- util/hash.h. A key is moved and compared as a block of bytes, so both branches of each
-- `if constexpr(sizeof(Key_t) > 8)` do the same with it.
pub mod Bytes
use hash_bench.Common.{
  ℕ, ◌<◌, ◌^◌, ◌≡◌, refl, sym, ◌∙◌, ap, ◌↔◌, inl, inr, Bool, true, false, Bool-cases,
}

pub record Key {ℓ} (K : Type ℓ) : Type ℓ where
  -- `memcmp(a, b, sizeof(Key_t)) == 0`
  pub same : K → K → Bool
  pub same_iff : (a b : K) → (same a b ≡ true) ↔ (a ≡ b)
  pub invalid : K
  -- `hash_funcs[i](key, sizeof(Key_t), seed)`, a `size_t`
  pub hash_funcs : ℕ → K → ℕ → ℕ
  pub hash-lt : (i : ℕ) (k : K) (seed : ℕ) → hash_funcs i k seed < 2 ^ 64
  -- what a read of memory that `new` has left uninitialised gives
  pub uninitialised : ℕ

module _ {ℓ} {K : Type ℓ} ⦃key : Key K⦄ where
  infix 50 ◌≐◌
  abbrev pub ◌≐◌ : K → K → Bool
  a ≐ b = key.same a b

  abbrev pub is_invalid : K → Bool
  is_invalid k = key.same k key.invalid

  pub ≐_refl : (a : K) → a ≐ a ≡ true
  ≐_refl a = (key.same_iff a a).1 refl

  -- Keys that `memcmp` finds equal are equal to the same keys.
  pub ≐_congr : (a b c : K) → (a ≐ b) ≡ true → a ≐ c ≡ b ≐ c
  ≐_congr a b c e = ap (λ k. k ≐ c) ((key.same_iff a b).0 e)

  pub ≐_symm : (a b : K) → a ≐ b ≡ b ≐ a
  ≐_symm a b = elim (Bool-cases (a ≐ b)) [
    | inl e ↦ e ∙ sym (sym (≐_congr a b a e) ∙ ≐_refl a)
    | inr e ↦ elim (Bool-cases (b ≐ a)) [ inl e' ↦ ≐_congr_back b a e' e | inr e' ↦ e ∙ sym e' ]
  ]
    where
      ≐_congr_back : (b a : K) → (b ≐ a) ≡ true → (a ≐ b) ≡ false → a ≐ b ≡ b ≐ a
      ≐_congr_back b a e n = sym (≐_congr b a b e) ∙ ≐_refl b ∙ sym e

  -- A key that is the invalid one differs from each valid key.
  pub ≐_invalid : (a b : K) → is_invalid a ≡ true → is_invalid b ≡ false → a ≐ b ≡ false
  ≐_invalid a b e n = ≐_congr a key.invalid b e ∙ ≐_symm key.invalid b ∙ n
