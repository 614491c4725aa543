-- ===== src/Probe.antt =====
-- The loop that every table runs over a sequence of slots, with an early exit at the first slot
-- that passes a test, and the slot sequences that reach a whole array.
use native.Mathlib.Nat.{
  mod-mod_of_dvd, mod-lt, mod-eq_of_lt, add-mod-mod, mod-add-mod, add-mod_right,
}
use mathlib.Core.Option.{some-injective}
use hash_bench.Common.{
  ℕ, zero, suc, ◌+◌, ◌-◌, ◌%◌, ◌∣◌, ◌≤◌, ◌<◌, ◌≡◌, refl, sym, ◌∙◌, ap, subst, Bool, true, false,
  Option, none, some, List, [], ◌∷◌, arith, length, get_elem?, if◌then◌else◌, inl, inr, Bool-cases,
  Option-cases, ℕ_discrete,
}
use hash_bench.Key.{Key, ◌≐◌}
use hash_bench.Dict.{Pair, count}

module _ {ℓ} {A : Type ℓ} (test : A → Bool) where
  -- Whether the slot can be read and its content passes.
  abbrev pub passes : List A → ℕ → Bool
  passes d s = elim (get_elem? d s) [ none ↦ false | some p ↦ test p ]

  -- `for (; rounds; i++) if (test(d[slot(i)])) break;`
  unfoldable pub search : (ℕ → ℕ) → List A → ℕ → ℕ → Option ℕ
  search slot d zero i = none
  search slot d (suc n) i =
      let rest = search slot d n (i + 1) in if passes d (slot i) then some (slot i) else rest

  pub search_sound :
      (slot : ℕ → ℕ) (d : List A) (n i : ℕ) {s : ℕ}
      → search slot d n i ≡ some s
      → (passes d s ≡ true) × ((j : ℕ) × (s ≡ slot j))
  unfolding search
  search_sound slot d zero i {s} h = cc
  search_sound slot d (suc n) i {s} h = elim (Bool-cases (passes d (slot i))) [
    | inl e ↦
        let same = some-injective (slot i) s (rw e at h) in
        (subst (λ t. passes d t ≡ true) same e, (i, sym same))
    | inr e ↦ search_sound slot d n (i + 1) (rw e at h)
  ]

  pub search_complete :
      (slot : ℕ → ℕ) (d : List A) (n i : ℕ)
      → search slot d n i ≡ none
      → (j : ℕ) → i ≤ j
      → j < i + n
      → passes d (slot j) ≡ false
  unfolding search
  search_complete slot d zero i h j lo hi = absurd (omega arith)
  search_complete slot d (suc n) i h j lo hi = elim (Bool-cases (passes d (slot i))) [
    | inl e ↦ cc (rw e at h)
    | inr e ↦ elim (ℕ_discrete i j) [
      | yes here ↦ rw here at e
      | no later ↦ search_complete slot d n (i + 1) (rw e at h) j (omega arith) (omega arith)
    ]
  ]

-- The first `n` slots of the sequence reach every index below `n`.
abbrev pub Covers : (ℕ → ℕ) → ℕ → Type 0
Covers slot n = (s : ℕ) → s < n → (j : ℕ) × (j < n) × (slot j ≡ s)

rotate : ℕ → ℕ → ℕ → ℕ
rotate loc n s = (s + n - loc % n) % n

rotate_lem : (loc n s : ℕ) → s < n → (loc + rotate loc n s) % n ≡ s
unfolding rotate
rotate_lem loc n s h =
    let back : loc % n + (s + n - loc % n) ≡ s + n =
      omega (arith, mod-lt loc {m = n} (omega arith)) in
    add-mod-mod loc (s + n - loc % n) n
    ∙ sym (mod-add-mod loc n (s + n - loc % n))
    ∙ ap (λ k. k % n) back
    ∙ add-mod_right s n
    ∙ mod-eq_of_lt h

-- Stepping round an array from any start covers it.
pub Covers-mod : (loc n : ℕ) → Covers (λ i. (loc + i) % n) n
unfolding rotate
Covers-mod loc n s h =
    (rotate loc n s, mod-lt (s + n - loc % n) {m = n} (omega arith), rotate_lem loc n s h)

-- So it does where the sum wraps at a multiple of the array's size.
pub Covers-wrapped : (loc n m : ℕ) → n ∣ m → Covers (λ i. (loc + i) % m % n) n
Covers-wrapped loc n m div s h =
    let (j, lt, e) = Covers-mod loc n s h in (j, lt, mod-mod_of_dvd n (loc + j) div ∙ e)

module _ {ℓ} {K : Type ℓ} ⦃key : Key K⦄ where
  abbrev pub has : K → Pair K → Bool
  has k p = p.key ≐ k

  count_missed :
      (k : K) (d : List (Pair K))
      → ((s : ℕ) → s < length d → passes (has k) d s ≡ false)
      → count k d ≡ 0
  unfolding count
  count_missed k [] h = refl
  count_missed k (x ∷ d) h =
      ground (arith, h 0 (omega arith), count_missed k d (λ s lt. h (suc s) (omega arith)))

  pub passes_lem :
      (k : K) (d : List (Pair K)) (s : ℕ)
      → passes (has k) d s ≡ true
      → (p : Pair K) × (get_elem? d s ≡ some p) × (has k p ≡ true)
  passes_lem k d s h = elim (Option-cases (get_elem? d s)) [
    | inl e ↦ cc (rw (e, passes) at h)
    | inr (p, e) ↦ (p, e, rw (e, passes) at h)
  ]

  -- A search over slots that cover the array misses a key only if no slot has it.
  pub search-none :
      (k : K) (slot : ℕ → ℕ) (d : List (Pair K)) (n : ℕ)
      → length d ≡ n
      → Covers slot n
      → search (has k) slot d n 0 ≡ none
      → count k d ≡ 0
  search-none k slot d n len cover h = count_missed k d λ s lt.
      let (j, below, e) = cover s (omega arith) in
      rw e at (search_complete (has k) slot d n 0 h j (omega arith) (omega arith))

  -- A key that occurs is found, at a slot that has it.
  pub search-some :
      (k : K) (slot : ℕ → ℕ) (d : List (Pair K)) (n : ℕ)
      → length d ≡ n
      → Covers slot n
      → 0 < count k d
      → (s : ℕ) × (p : Pair K) × (search (has k) slot d n 0 ≡ some s)
        × (get_elem? d s ≡ some p)
        × (has k p ≡ true)
  search-some k slot d n len cover h = elim (Option-cases (search (has k) slot d n 0)) [
    | inl e ↦ absurd (omega (arith, search-none k slot d n len cover e))
    | inr (s, e) ↦
        let (p, r, t) = passes_lem k d s (search_sound (has k) slot d n 0 e).0 in (s, p, e, r, t)
  ]
