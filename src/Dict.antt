-- ===== src/Dict.antt =====
-- `Pair` of util/pair.h, arrays of pairs, and what such an array holds: how often a key occurs,
-- and the value of its first occurrence.
use hash_bench.Common.{
  sym, ap, ◌∙◌, inl, inr, Bool-cases, get_elem?-set_self, get_elem?_bound, ℕ, zero, suc, ◌+◌, ◌≤◌,
  ◌<◌, ◌≡◌, ◌⊎◌, refl, Bool, true, false, Option, none, some, List, [], ◌∷◌, arith, get_elem?, set,
  replicate, if◌then◌else◌,
}
use hash_bench.Key.{Key, ◌≐◌, ≐_refl, ≐_congr, ≐_invalid}

pub record Pair {ℓ} (K : Type ℓ) : Type ℓ where
  pub key : K
  -- `Value_t` is `int64_t`; values are only moved, so a value is its bit pattern.
  pub value : ℕ

-- `NONE`
abbrev pub none_value : ℕ
none_value = 0

-- What a lookup returns for the value held, if any.
abbrev pub value_or_none : Option ℕ → ℕ
value_or_none none = none_value
value_or_none (some v) = v

abbrev pub is_some : Option ℕ → Bool
is_some none = false
is_some (some v) = true

module _ {ℓ} {K : Type ℓ} ⦃key : Key K⦄ where
  -- The map that holds `o` for one key, and for the others what it held.
  abbrev pub assign : (K → Option ℕ) → K → Option ℕ → K → Option ℕ
  assign m k o q = if k ≐ q then o else m q

  pub assign_self :
      (m : K → Option ℕ) (k : K) {o : Option ℕ} → m k ≡ o → (q : K) → m q ≡ assign m k o q
  assign_self m k e q = elim (Bool-cases (k ≐ q)) [
    | inl same ↦ rw same (ap m (sym ((key.same_iff k q).0 same)) ∙ e)
    | inr other ↦ rw other
  ]

  pub assign_congr :
      (m m' : K → Option ℕ) (k : K) (o : Option ℕ) (q : K)
      → m q ≡ m' q
      → assign m k o q ≡ assign m' k o q
  assign_congr m m' k o q e = ap (λ r. if k ≐ q then o else r) e

  -- `Pair(void)` clears the key and leaves the value.
  abbrev pub new_pair : Pair K
  new_pair = record { key = key.invalid; value = key.uninitialised }

  -- `new Pair<Key_t>[n]`
  abbrev pub new_array : ℕ → List (Pair K)
  new_array n = replicate n new_pair

  abbrev pub hit : K → Pair K → ℕ
  hit k p = if p.key ≐ k then 1 else 0

  -- The number of slots with key `k`.
  unfoldable pub count : K → List (Pair K) → ℕ
  count k [] = 0
  count k (p ∷ ps) = hit k p + count k ps

  -- The value at the first slot with key `k`.
  unfoldable pub find : K → List (Pair K) → Option ℕ
  find k [] = none
  find k (p ∷ ps) = if p.key ≐ k then some p.value else find k ps

  pub count-set :
      (k : K) (d : List (Pair K)) (s : ℕ) (p q : Pair K)
      → get_elem? d s ≡ some p
      → count k (set d s q) + hit k p ≡ count k d + hit k q
  unfolding count
  count-set k [] s p q h = ground arith
  count-set k (x ∷ d) zero p q h = ground arith
  count-set k (x ∷ d) (suc s) p q h = ground (arith, count-set k d s p q h)

  pub find_first : (p : Pair K) (ps : List (Pair K)) → find p.key (p ∷ ps) ≡ some p.value
  unfolding find
  find_first p ps = rw (≐_refl p.key) refl

  pub find-eq-none : (k : K) (d : List (Pair K)) → count k d ≡ 0 → find k d ≡ none
  unfolding count find
  find-eq-none k [] h = refl
  find-eq-none k (x ∷ d) h = ground (arith, find-eq-none k d)

  pub count_congr : (k j : K) (d : List (Pair K)) → (k ≐ j) ≡ true → count j d ≡ count k d
  count_congr k j d e = ap (λ i. count i d) (sym ((key.same_iff k j).0 e))

  pub count_of_find-none : (k : K) (d : List (Pair K)) → find k d ≡ none → count k d ≡ 0
  unfolding count find
  count_of_find-none k [] h = refl
  count_of_find-none k (x ∷ d) h = ground (arith, count_of_find-none k d)

  pub count-at :
      (k : K) (d : List (Pair K)) (s : ℕ) (p : Pair K)
      → get_elem? d s ≡ some p
      → (p.key ≐ k) ≡ true
      → 0 < count k d
  unfolding count
  count-at k [] s p h e = ground arith
  count-at k (x ∷ d) zero p h e = ground arith
  count-at k (x ∷ d) (suc s) p h e = ground (arith, count-at k d s p h e)

  -- A key that occurs has a slot.
  pub count-pos :
      (k : K) (d : List (Pair K))
      → 0 < count k d
      → (s : ℕ) × (p : Pair K) × (get_elem? d s ≡ some p) × ((p.key ≐ k) ≡ true)
  unfolding count
  count-pos k [] h = absurd (omega arith)
  count-pos k (x ∷ d) h = elim (Bool-cases (x.key ≐ k)) [
    | inl e ↦ (0, x, refl, e)
    | inr e ↦ let (s, p, r, f) = count-pos k d (ground arith) in (suc s, p, r, f)
  ]

  -- Where a key occurs once, any slot that has it has the value that `find` gives.
  pub find-at :
      (k : K) (d : List (Pair K)) (s : ℕ) (p : Pair K)
      → count k d ≤ 1
      → get_elem? d s ≡ some p
      → (p.key ≐ k) ≡ true
      → find k d ≡ some p.value
  unfolding count find
  find-at k [] s p c h e = ground arith
  find-at k (x ∷ d) zero p c h e = ground arith
  find-at k (x ∷ d) (suc s) p c h e = ground (arith, find-at k d s p, count-at k d s p h e)

  pub find-set_other :
      (k : K) (d : List (Pair K)) (s : ℕ) (p q : Pair K)
      → get_elem? d s ≡ some p
      → (p.key ≐ k) ≡ false
      → (q.key ≐ k) ≡ false
      → find k (set d s q) ≡ find k d
  unfolding find
  find-set_other k [] s p q h a b = refl
  find-set_other k (x ∷ d) zero p q h a b = ground arith
  find-set_other k (x ∷ d) (suc s) p q h a b = ground (arith, find-set_other k d s p q h a b)

  pub count-replicate_self : (n : ℕ) (p : Pair K) → count p.key (replicate n p) ≡ n
  unfolding count
  count-replicate_self zero p = refl
  count-replicate_self (suc n) p = ground (arith, ≐_refl p.key, count-replicate_self n p)

  pub count-replicate_other :
      (n : ℕ) (p : Pair K) (k : K) → (p.key ≐ k) ≡ false → count k (replicate n p) ≡ 0
  unfolding count
  count-replicate_other zero p k h = refl
  count-replicate_other (suc n) p k h = ground (arith, count-replicate_other n p k h)

  -- `memcpy(&d[s].value, &v, sizeof(Value_t))`
  unfoldable pub write_value : List (Pair K) → ℕ → ℕ → List (Pair K)
  write_value d s v = elim (get_elem? d s) [ none ↦ d | some p ↦ set d s (record p { value = v }) ]

  -- `memcpy(&d[s].key, &k, sizeof(Key_t))`
  unfoldable pub write_key : List (Pair K) → ℕ → K → List (Pair K)
  write_key d s k = elim (get_elem? d s) [ none ↦ d | some p ↦ set d s (record p { key = k }) ]

  -- What an array holds for `k` after a write of the pair `q` over `p`, where it occurs once.
  pub find-set :
      (k : K) (d : List (Pair K)) (s : ℕ) (p q : Pair K)
      → get_elem? d s ≡ some p
      → count k d ≤ 1
      → count k (set d s q) ≤ 1
      → find k (set d s q)
        ≡ (if q.key ≐ k then some q.value else if p.key ≐ k then none else find k d)
  find-set k d s p q h one one' = elim (Bool-cases (q.key ≐ k)) [
    | inl new ↦
        rw new
          (find-at k (set d s q) s q one' (get_elem?-set_self d s q (get_elem?_bound d s h)) new)
    | inr other ↦ elim (Bool-cases (p.key ≐ k)) [
      | inl old ↦
          rw (other, old) (find-eq-none k (set d s q) (ground (arith, count-set k d s p q h)))
      | inr same ↦ rw (other, same) (find-set_other k d s p q h same other)
    ]
  ]

  -- Each key but the invalid one occurs at most once.
  abbrev pub Unique : List (Pair K) → Type ℓ
  Unique d = (k : K) → (k ≐ key.invalid) ≡ false → count k d ≤ 1

  -- A write over `p` with the same key, or with the invalid one, adds no key.
  pub Unique-overwrite :
      (d : List (Pair K)) (s : ℕ) (p q : Pair K)
      → Unique d
      → get_elem? d s ≡ some p
      → ((q.key ≐ p.key) ≡ true) ⊎ ((q.key ≐ key.invalid) ≡ true)
      → Unique (set d s q)
  Unique-overwrite d s p q once r same k n = elim same [
    | inl e ↦ ground (arith, once k n, count-set k d s p q r, ≐_congr q.key p.key k e)
    | inr e ↦ ground (arith, once k n, count-set k d s p q r, ≐_invalid q.key k e n)
  ]

  -- A new key in an empty slot.
  pub Unique-fresh :
      (d : List (Pair K)) (s : ℕ) (p q : Pair K)
      → Unique d
      → get_elem? d s ≡ some p
      → count q.key d ≡ 0
      → Unique (set d s q)
  Unique-fresh d s p q once r fresh k n =
      ground (arith, once k n, count-set k d s p q r, count_congr q.key k d)
