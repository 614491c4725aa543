-- ===== src/Cuckoo/Walks.antt =====
-- `find_path` of index/cuckoo_hash.h: the slots that it visits.
use mathlib.Core.Option.{some-injective}
use hash_bench.Common.{
  ℕ, zero, suc, ◌≤◌, ◌<◌, ◌≡◌, ◌≢◌, ◌∙◌, refl, sym, subst, ap, inl, inr, true, false, some, List,
  [], ◌∷◌, arith, length, get_elem?, Bool-cases, Option-cases,
}
use hash_bench.Key.{Key, is_invalid}
use hash_bench.Dict.{Pair}
use hash_bench.Cuckoo.{Walk, terribly_wrong, too_long, reached, append_step, other_slot, walk}
use hash_bench.Cuckoo.View.{IsHome}

module _ {ℓ} {K : Type ℓ} where
  -- The slot is not on the path; no slot is twice on the path.
  abbrev pub NotIn : ℕ → List (ℕ × K) → Type 0
  NotIn s [] = Unit
  NotIn s (a ∷ path) = (s ≢ a.0) × NotIn s path

  abbrev pub Distinct : List (ℕ × K) → Type 0
  Distinct [] = Unit
  Distinct (a ∷ path) = NotIn a.0 path × Distinct path

  append_step-reached :
      (s : ℕ) (k : K) (w : Walk K) (path : List (ℕ × K))
      → append_step s k w ≡ reached path
      → (rest : List (ℕ × K)) × (w ≡ reached rest) × (path ≡ (s, k) ∷ rest)
  append_step-reached s k terribly_wrong path e = cc
  append_step-reached s k too_long path e = cc
  append_step-reached s k (reached rest) path e = (rest, refl, cc)

module _ {ℓ} {K : Type ℓ} ⦃key : Key K⦄ where
  -- The entry `p` can be moved along the path: each slot is one of the two of the entry before
  -- it, and the last entry is empty.
  abbrev pub Chain : ℕ → List (Pair K) → Pair K → List (ℕ × K) → Type ℓ
  Chain c d p [] = p.key ≡ key.invalid
  Chain c d p ((s, k) ∷ path) =
      IsHome c p.key s
      × (is_invalid p.key ≡ false)
      × ((q : Pair K) × (get_elem? d s ≡ some q) × (q.key ≡ k) × Chain c d q path)

  pub other_slot-IsHome :
      (c : ℕ) (k : K) (cur next : ℕ) → other_slot c k cur ≡ some next → IsHome c k next
  unfolding other_slot
  other_slot-IsHome c k cur next e = ground arith

  module _ (c : ℕ) (d : List (Pair K)) where
    -- The first of `n + 1` rounds of a walk that reaches an empty slot.
    data Visit (n cur : ℕ) (path : List (ℕ × K)) : Type ℓ where
      stop :
          (p : Pair K)
          → get_elem? d cur ≡ some p
          → is_invalid p.key ≡ true
          → path ≡ []
          → Visit n cur path
      step :
          (p q : Pair K) (next : ℕ) (rest : List (ℕ × K))
          → get_elem? d cur ≡ some p
          → is_invalid p.key ≡ false
          → other_slot c p.key cur ≡ some next
          → get_elem? d next ≡ some q
          → walk c d n next ≡ reached rest
          → path ≡ (next, q.key) ∷ rest
          → Visit n cur path

    visit :
        (n cur : ℕ) (path : List (ℕ × K)) → walk c d (suc n) cur ≡ reached path → Visit n cur path
    unfolding walk
    visit n cur path e = elim (Option-cases (get_elem? d cur)) [
      | inl a ↦ cc (rw (a, walk) at e)
      | inr (p, a) ↦ elim (Bool-cases (is_invalid p.key)) [
        | inl b ↦ stop p a b (cc (rw (a, b, walk) at e))
        | inr b ↦ elim (Option-cases (other_slot c p.key cur)) [
          | inl f ↦ cc (rw (a, b, f, walk) at e)
          | inr (next, f) ↦ elim (Option-cases (get_elem? d next)) [
            | inl g ↦ cc (rw (a, b, f, g, walk) at e)
            | inr (q, g) ↦
                let (rest, w, eq) =
                  append_step-reached next q.key (walk c d n next) path
                    (rw (a, b, f, g, walk) at e) in
                step p q next rest a b f g w eq
          ]
        ]
      ]
    ]

    -- Two walks from one slot that reach an empty one are equally long.
    length-det :
        (n m cur : ℕ) (a b : List (ℕ × K))
        → walk c d n cur ≡ reached a
        → walk c d m cur ≡ reached b
        → length a ≡ length b
    unfolding walk
    length-det zero m cur a b e f = cc
    length-det (suc n) zero cur a b e f = cc
    length-det (suc n) (suc m) cur a b e f = go (length-det n m) (visit n cur a e) (visit m cur b f)
      where
        go :
            ((next : ℕ) (x y : List (ℕ × K))
              → walk c d n next ≡ reached x
              → walk c d m next ≡ reached y
              → length x ≡ length y)
            → Visit n cur a
            → Visit m cur b
            → length a ≡ length b
        go ih (stop p r i ea) (stop q r' i' eb) = rw (ea, eb)
        go ih (stop p r i ea) (step p' q next rest r' i' o g w eb) = ground (arith, r, r', i, i')
        go ih (step p q next rest r i o g w ea) (stop p' r' i' eb) = ground (arith, r, r', i, i')
        go ih (step p q next rest r i o g w ea) (step p' q' next' rest' r' i' o' g' w' eb) =
            let same : some p ≡ some p' = sym r ∙ r' in
            let slots : some next ≡ some next' =
              sym o ∙ ap (λ (x : Pair K). other_slot c x.key cur) (some-injective p p' same) ∙ o' in
            let shorter = ih next rest rest' w (
              subst (λ x. walk c d m x ≡ reached rest') (sym (some-injective next next' slots))
                w') in
            rw (ea, eb) (ap suc shorter)

    -- A slot from which every walk takes at least `bound` steps is not on a path that is no longer.
    NotIn-long :
        (x bound : ℕ)
        → ((m : ℕ) (b : List (ℕ × K)) → walk c d m x ≡ reached b → bound ≤ length b)
        → (n cur : ℕ) (a : List (ℕ × K)) → walk c d n cur ≡ reached a
        → length a ≤ bound
        → NotIn x a
    unfolding walk
    NotIn-long x bound far zero cur a e le = cc
    NotIn-long x bound far (suc n) cur a e le = elim (visit n cur a e) [
      | stop p r i ea ↦ rw ea tt
      | step p q next rest r i o g w ea ↦
          let shorter : length rest < bound = omega (arith, ap length ea) in
          rw ea (
            λ same.
                absurd (
                  omega
                    (arith, far n rest (subst (λ y. walk c d n y ≡ reached rest) (sym same) w))),
            NotIn-long x bound far n next rest w (omega arith),
          )
    ]

    -- The slots that the loop of `find_path` appends, where it ends at an empty slot, are different
    -- from each other and from the slot where it started.
    pub walk-Distinct :
        (n cur : ℕ) (a : List (ℕ × K)) → walk c d n cur ≡ reached a → NotIn cur a × Distinct a
    unfolding walk
    walk-Distinct zero cur a e = cc
    walk-Distinct (suc n) cur a e = (
      NotIn-long cur (length a) (λ m b f. omega (arith, length-det (suc n) m cur a b e f)) (suc n)
          cur a e (omega arith),
      elim (visit n cur a e) [
        | stop p r i ea ↦ rw ea tt
        | step p q next rest r i o g w ea ↦ rw ea (walk-Distinct n next rest w)
      ],
    )

    -- Such a path is one along which the entry at its start can be moved.
    pub walk-Chain :
        (n cur : ℕ) (a : List (ℕ × K)) (p : Pair K)
        → walk c d n cur ≡ reached a
        → get_elem? d cur ≡ some p
        → Chain c d p a
    unfolding walk
    walk-Chain zero cur a p e r = cc
    walk-Chain (suc n) cur a p e r = elim (visit n cur a e) [
      | stop p' r' i ea ↦
          let same = some-injective p' p (sym r' ∙ r) in
          rw ea (
            subst (λ (x : Pair K). x.key ≡ key.invalid) same
              ((key.same_iff p'.key key.invalid).0 i))
      | step p' q next rest r' i o g w ea ↦
          let same = some-injective p' p (sym r' ∙ r) in
          rw ea (
            subst (λ (x : Pair K). IsHome c x.key next) same
                (other_slot-IsHome c p'.key cur next o),
            subst (λ (x : Pair K). is_invalid x.key ≡ false) same i,
            (q, g, refl, walk-Chain n next rest q w g),
          )
    ]

    pub walk-length : (n cur : ℕ) (a : List (ℕ × K)) → walk c d n cur ≡ reached a → length a < n
    unfolding walk
    walk-length zero cur a e = cc
    walk-length (suc n) cur a e = elim (visit n cur a e) [
      | stop p r i ea ↦ rw ea (omega arith)
      | step p q next rest r i o g w ea ↦ rw ea (omega (arith, walk-length n next rest w))
    ]
