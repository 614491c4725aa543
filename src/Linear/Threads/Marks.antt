-- ===== src/Linear/Threads/Marks.antt =====
-- Which entries of the array of index/linear_probing.h are whole while threads write them.
use mathlib.Core.Option.{some-injective}
use hash_bench.Common.{
  ℕ, ◌≤◌, ◌<◌, ◌≡◌, ◌⊎◌, ◌∙◌, inl, inr, sym, ap, subst, true, false, some, List, [], ◌∷◌, get_elem?,
  set, ℕ_discrete, get_elem?-set_self, get_elem?-set_ne, get_elem?_bound, length, length-set,
}
use hash_bench.Key.{Key, is_invalid}
use hash_bench.Dict.{Pair}
use hash_bench.Probe.{has}
use hash_bench.Linear.Threads.{
  get, update, delete, Call, insert, search, Pc, spinning, measuring, locking, probing, vacant,
  keyed, resizing, seeking, reading, hit, Thread,
}
use hash_bench.Linear.Threads.Invariant.{each-set}

-- A predicate on all elements
abbrev pub All {ℓ κ} : {A : Type ℓ} → (A → Type κ) → List A → Type κ
All P [] = Unit
All P (x ∷ xs) = P x × All P xs

module _ {ℓ} {K : Type ℓ} where
  -- Between the two `memcpy`s at slot `s`
  abbrev pub Halfway : (K → ℕ → ℕ) → ℕ → Pc K → Type 0
  Halfway sl s (keyed p i c u) = sl p.key i ≡ s
  Halfway sl s _ = 1 ≤ 0

module _ {ℓ} {K : Type ℓ} ⦃key : Key K⦄ (Good : Pair K → Type 0) where
  -- The calls bring good entries only, and look for valid keys.
  abbrev pub IsSound : Call K → Type 0
  IsSound (insert p) = Good p
  IsSound (search (get k)) = is_invalid k ≡ false
  IsSound (search (update k v)) = Good (record { key = k; value = v })
  IsSound (search (delete k)) = Unit

  abbrev pub SoundPc : Pc K → Type 0
  SoundPc (spinning o) = IsSound o
  SoundPc (measuring p) = Good p
  SoundPc (locking p i) = Good p
  SoundPc (probing p i c) = Good p
  SoundPc (vacant p i c) = Good p
  SoundPc (keyed p i c u) = Good p
  SoundPc (resizing p) = Good p
  SoundPc (seeking o i) = IsSound (search o)
  SoundPc (reading o i c) = IsSound (search o)
  SoundPc (hit o i c) = IsSound (search o)
  SoundPc _ = Unit

  -- A slot is empty, holds a good entry, or is being written.
  unfoldable pub Fine : (K → ℕ → ℕ) → List (Thread K) → ℕ → Pair K → Type ℓ
  Fine sl ths s q =
      (has key.invalid q ≡ true)
      ⊎ (Good q ⊎ ((j : ℕ) × (th : Thread K) × (get_elem? ths j ≡ some th) × Halfway sl s th.pc))

  -- What one step leaves: the array and the mark of its thread as they were, or a write at a slot
  -- that is left empty, good or marked.
  pub data Writing (sl : K → ℕ → ℕ) (d : List (Pair K)) (p q : Pc K) : List (Pair K) → Type ℓ where
    none_at : ((s : ℕ) → Halfway sl s p → Halfway sl s q) → Writing sl d p q d
    one_at :
        (s : ℕ) (r : Pair K)
        → ((s' : ℕ) → Halfway sl s' p → s ≡ s')
        → (has key.invalid r ≡ true) ⊎ (Good r ⊎ Halfway sl s q)
        → Writing sl d p q (set d s r)

  -- The invariant: each slot is fine, each thread is sound.
  pub record Whole (sl : K → ℕ → ℕ) (d : List (Pair K)) (ths : List (Thread K)) : Type ℓ where
    pub slots : (s : ℕ) (q : Pair K) → get_elem? d s ≡ some q → Fine sl ths s q
    pub todo : (i : ℕ) (th : Thread K) → get_elem? ths i ≡ some th → All IsSound th.todo
    pub now : (i : ℕ) (th : Thread K) → get_elem? ths i ≡ some th → SoundPc th.pc
    pub past : (i : ℕ) (th : Thread K) → get_elem? ths i ≡ some th → All Good th.answers

  -- The marks of the other threads stay.
  Fine-set :
      (sl : K → ℕ → ℕ) (ths : List (Thread K)) (i : ℕ) (th th' : Thread K) (s : ℕ) (q : Pair K)
      → get_elem? ths i ≡ some th
      → (Halfway sl s th.pc → Halfway sl s th'.pc)
      → Fine sl ths s q
      → Fine sl (set ths i th') s q
  unfolding Fine
  Fine-set sl ths i th th' s q at keep (inl e) = inl e
  Fine-set sl ths i th th' s q at keep (inr (inl g)) = inr (inl g)
  Fine-set sl ths i th th' s q at keep (inr (inr (j, x, e, h))) = elim (ℕ_discrete i j) [
    | yes same ↦
        let own : th ≡ x = some-injective th x (sym at ∙ ap (get_elem? ths) same ∙ e) in
        inr (
          inr (
            i,
            th',
            get_elem?-set_self ths i th' (get_elem?_bound ths i at),
            keep (subst (λ y. Halfway sl s y.pc) (sym own) h),
          ))
    | no other ↦ inr (inr (j, x, get_elem?-set_ne ths th' other ∙ e, h))
  ]

  Fine-written :
      (sl : K → ℕ → ℕ) (d : List (Pair K)) (ths : List (Thread K)) (i : ℕ) (th th' : Thread K)
      (s : ℕ) (r q : Pair K)
      → get_elem? ths i ≡ some th
      → (has key.invalid r ≡ true) ⊎ (Good r ⊎ Halfway sl s th'.pc)
      → get_elem? (set d s r) s ≡ some q
      → Fine sl (set ths i th') s q
  unfolding Fine
  Fine-written sl d ths i th th' s r q at left e =
      let low : s < length d =
        subst (λ n. s < n) (length-set d s r) (get_elem?_bound (set d s r) s e) in
      let same : r ≡ q = some-injective r q (sym (get_elem?-set_self d s r low) ∙ e) in
      elim left [
        | inl z ↦ inl (subst (λ x. has key.invalid x ≡ true) same z)
        | inr (inl g) ↦ inr (inl (subst Good same g))
        | inr (inr h) ↦
            inr (inr (i, th', get_elem?-set_self ths i th' (get_elem?_bound ths i at), h))
      ]

  turn-slots :
      (sl : K → ℕ → ℕ) (d d' : List (Pair K)) (ths : List (Thread K)) (i : ℕ) (th th' : Thread K)
      → get_elem? ths i ≡ some th
      → Writing sl d th.pc th'.pc d'
      → ((s : ℕ) (q : Pair K) → get_elem? d s ≡ some q → Fine sl ths s q)
      → (s : ℕ) (q : Pair K) → get_elem? d' s ≡ some q
      → Fine sl (set ths i th') s q
  turn-slots sl d _ ths i th th' at (none_at keep) fine s q e =
      Fine-set sl ths i th th' s q at (keep s) (fine s q e)
  turn-slots sl d _ ths i th th' at (one_at s r only left) fine s' q e = elim (ℕ_discrete s s') [
    | no other ↦
        Fine-set sl ths i th th' s' q at (λ h. absurd (other (only s' h)))
          (fine s' q (sym (get_elem?-set_ne d r other) ∙ e))
    | yes same ↦
        subst (λ x. get_elem? (set d s r) x ≡ some q → Fine sl (set ths i th') x q) same
          (Fine-written sl d ths i th th' s r q at left) e
  ]

  pub turn-Whole :
      {sl : K → ℕ → ℕ} {d : List (Pair K)} {ths : List (Thread K)} (d' : List (Pair K)) (i : ℕ)
      (th th' : Thread K)
      → Whole sl d ths
      → get_elem? ths i ≡ some th
      → Writing sl d th.pc th'.pc d'
      → All IsSound th'.todo
      → SoundPc th'.pc
      → All Good th'.answers
      → Whole sl d' (set ths i th')
  turn-Whole {sl} {d} {ths} d' i th th' wh at writing a b c = record {
    slots = turn-slots sl d d' ths i th th' at writing wh.slots;
    todo = each-set (λ x. All IsSound x.todo) ths i th th' at a (λ j x ne e. wh.todo j x e);
    now = each-set (λ x. SoundPc x.pc) ths i th th' at b (λ j x ne e. wh.now j x e);
    past = each-set (λ x. All Good x.answers) ths i th th' at c (λ j x ne e. wh.past j x e);
  }
