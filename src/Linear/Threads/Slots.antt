-- ===== src/Linear/Threads/Slots.antt =====
-- The slots that the threads of index/linear_probing.h work on, their stripes, and what a thread
-- has seen there.
use hash_bench.Common.{
  ℕ, ◌+◌, ◌/◌, ◌≤◌, ◌<◌, ◌≡◌, ◌≢◌, ◌⊎◌, ◌∙◌, inl, inr, refl, sym, ap, subst, true, some, List,
  get_elem?, set, get_elem?-set_self, get_elem?-set_ne, get_elem?_bound, Bool-cases, ==_iff, ◌%◌,
  ◌==◌,
}
use hash_bench.Key.{Key}
use hash_bench.Dict.{Pair, write_key, write_value}
use hash_bench.Probe.{has}
use hash_bench.Float.{FloatOps}
use hash_bench.Linear.{Table, hash}
use hash_bench.Linear.Insert.{next_held}
use hash_bench.Linear.Threads.{
  get, update, delete, insert, search, Pc, idle, spinning, measuring, locking, probing, vacant,
  keyed, stored, counting, leaving, resizing, seeking, reading, hit, Thread, exclusive, shared,
  sought, slot, stripe, Move, spin, pass, below, take_resize, miss_resize, round_over, lock_stripe,
  empty, go_on, next_stripe, no_slot, copy_key, copy_value, load_size, cas_size, cas_again, leave,
  not_found, lock_slot, differs, matches,
}
use hash_bench.Linear.Threads.Stripes.{Change, keeps, releases, takes, joins}

module _ {ℓ} {K : Type ℓ} ⦃key : Key K⦄ where
  -- With the slot of a key's round `i` and the size of a stripe, what a thread that holds a stripe
  -- knows of it.
  unfoldable pub Held : (K → ℕ → ℕ) → ℕ → Pc K → Type 0
  Held sl ls (probing p i c) = c ≡ sl p.key i / ls
  Held sl ls (vacant p i c) = c ≡ sl p.key i / ls
  Held sl ls (keyed p i c u) = c ≡ sl p.key i / ls
  Held sl ls (reading o i c) = c ≡ sl (sought o) i / ls
  Held sl ls (hit o i c) = c ≡ sl (sought o) i / ls
  Held sl ls _ = Unit

  -- What the slot holds.
  unfoldable pub Seen : (K → ℕ → ℕ) → List (Pair K) → Pc K → Type ℓ
  Seen sl d (vacant p i c) =
      (q : Pair K) × (get_elem? d (sl p.key i) ≡ some q) × (has key.invalid q ≡ true)
  Seen sl d (keyed p i c u) = get_elem? d (sl p.key i) ≡ some (record p { value = u })
  Seen sl d (hit o i c) =
      (q : Pair K) × (get_elem? d (sl (sought o) i) ≡ some q) × (has (sought o) q ≡ true)
  Seen sl d _ = Unit

  -- What one step does to the array: nothing, or a write to a slot of a stripe that the thread
  -- holds by a `unique_lock`.
  pub data Writes (sl : K → ℕ → ℕ) (ls : ℕ) (p : Pc K) (d : List (Pair K))
      : List (Pair K) → Type ℓ where
    nothing : Writes sl ls p d d
    at_slot :
        (s : ℕ) {q : Pair K} (r : Pair K)
        → exclusive p ≡ some (s / ls)
        → get_elem? d s ≡ some q
        → Writes sl ls p d (set d s r)

  -- A write to another slot keeps what a thread has seen.
  pub Seen-apart :
      (sl : K → ℕ → ℕ) (ls : ℕ) (d : List (Pair K)) (s : ℕ) (r : Pair K) (p : Pc K)
      → ((exclusive p ≡ some (s / ls)) ⊎ (shared p ≡ some (s / ls)) → 1 ≤ 0)
      → Held sl ls p
      → Seen sl d p
      → Seen sl (set d s r) p
  unfolding Held Seen
  Seen-apart sl ls d s r (vacant p i c) clash h (q, e, f) =
      let ne : s ≢ sl p.key i =
        λ same. elim (clash (inl (ap some (h ∙ ap (λ x. x / ls) (sym same))))) [ ] in
      (q, get_elem?-set_ne d r ne ∙ e, f)
  Seen-apart sl ls d s r (keyed p i c u) clash h e =
      let ne : s ≢ sl p.key i =
        λ same. elim (clash (inl (ap some (h ∙ ap (λ x. x / ls) (sym same))))) [ ] in
      get_elem?-set_ne d r ne ∙ e
  Seen-apart sl ls d s r (hit (get k) i c) clash h (q, e, f) =
      let ne : s ≢ sl k i =
        λ same. elim (clash (inr (ap some (h ∙ ap (λ x. x / ls) (sym same))))) [ ] in
      (q, get_elem?-set_ne d r ne ∙ e, f)
  Seen-apart sl ls d s r (hit (update k v) i c) clash h (q, e, f) =
      let ne : s ≢ sl k i =
        λ same. elim (clash (inl (ap some (h ∙ ap (λ x. x / ls) (sym same))))) [ ] in
      (q, get_elem?-set_ne d r ne ∙ e, f)
  Seen-apart sl ls d s r (hit (delete k) i c) clash h (q, e, f) =
      let ne : s ≢ sl k i =
        λ same. elim (clash (inl (ap some (h ∙ ap (λ x. x / ls) (sym same))))) [ ] in
      (q, get_elem?-set_ne d r ne ∙ e, f)
  Seen-apart sl ls d s r idle clash h seen = tt
  Seen-apart sl ls d s r (spinning o) clash h seen = tt
  Seen-apart sl ls d s r (measuring p) clash h seen = tt
  Seen-apart sl ls d s r (locking p i) clash h seen = tt
  Seen-apart sl ls d s r (probing p i c) clash h seen = tt
  Seen-apart sl ls d s r (stored p c) clash h seen = tt
  Seen-apart sl ls d s r (counting p c n) clash h seen = tt
  Seen-apart sl ls d s r (leaving c) clash h seen = tt
  Seen-apart sl ls d s r (resizing p) clash h seen = tt
  Seen-apart sl ls d s r (seeking o i) clash h seen = tt
  Seen-apart sl ls d s r (reading o i c) clash h seen = tt

  pub write_key-at :
      (d : List (Pair K)) (s : ℕ) (k : K) (q : Pair K)
      → get_elem? d s ≡ some q
      → write_key d s k ≡ set d s (record q { key = k })
  unfolding write_key
  write_key-at d s k q e = rw (write_key, e) refl

  pub write_value-at :
      (d : List (Pair K)) (s v : ℕ) (q : Pair K)
      → get_elem? d s ≡ some q
      → write_value d s v ≡ set d s (record q { value = v })
  unfolding write_value
  write_value-at d s v q e = rw (write_value, e) refl

  next_same :
      (t : Table K) (k : K) (i : ℕ)
      → 0 < t.locksize
      → slot t k (i + 1) % t.locksize ≢ 0
      → slot t k (i + 1) / t.locksize ≡ slot t k i / t.locksize
  next_same t k i pos ne = elim (Bool-cases (slot t k (i + 1) % t.locksize == 0)) [
    | inl e ↦ absurd (ne ((==_iff _ 0).0 e))
    | inr e ↦ sym (rw e at (next_held t (hash k) i pos))
  ]

  module _ ⦃fl : FloatOps⦄ where
    -- The slot that a round reaches, and the stripes, stay.
    pub Move-frame :
        {ths : List (Thread K)} {t t' : Table K} {p q : Pc K}
        → Move ths t p t' q
        → (slot t' ≡ slot t) × (t'.locksize ≡ t.locksize)
    Move-frame (spin d) = (refl, refl)
    Move-frame (pass d) = (refl, refl)
    Move-frame (below d) = (refl, refl)
    Move-frame (take_resize d e) = (refl, refl)
    Move-frame (miss_resize d e) = (refl, refl)
    Move-frame (round_over d) = (refl, refl)
    Move-frame (lock_stripe d f) = (refl, refl)
    Move-frame (empty d e) = (refl, refl)
    Move-frame (go_on d e f g) = (refl, refl)
    Move-frame (next_stripe d e f g) = (refl, refl)
    Move-frame (no_slot d e f) = (refl, refl)
    Move-frame (copy_key d) = (refl, refl)
    Move-frame copy_value = (refl, refl)
    Move-frame load_size = (refl, refl)
    Move-frame (cas_size d) = (refl, refl)
    Move-frame (cas_again d) = (refl, refl)
    Move-frame leave = (refl, refl)
    Move-frame (not_found d) = (refl, refl)
    Move-frame (lock_slot d g) = (refl, refl)
    Move-frame (differs d e) = (refl, refl)
    Move-frame (matches d e) = (refl, refl)

    pub Move-Held :
        {ths : List (Thread K)} {t t' : Table K} {p q : Pc K}
        → 0 < t.locksize
        → Move ths t p t' q
        → Held (slot t) t.locksize p
        → Held (slot t) t.locksize q
    unfolding Held
    Move-Held {t = t} pos (spin d) h = tt
    Move-Held {t = t} pos (pass {o = insert p} d) h = tt
    Move-Held {t = t} pos (pass {o = search o} d) h = tt
    Move-Held {t = t} pos (below d) h = tt
    Move-Held {t = t} pos (take_resize d e) h = tt
    Move-Held {t = t} pos (miss_resize d e) h = tt
    Move-Held {t = t} pos (round_over d) h = tt
    Move-Held {t = t} pos (lock_stripe d f) h = refl
    Move-Held {t = t} pos (empty d e) h = h
    Move-Held {t = t} pos (go_on {p = p} {q = q} {i = i} d e f g) h =
        h ∙ sym (next_same t p.key i pos g)
    Move-Held {t = t} pos (next_stripe d e f g) h = tt
    Move-Held {t = t} pos (no_slot d e f) h = tt
    Move-Held {t = t} pos (copy_key d) h = h
    Move-Held {t = t} pos copy_value h = tt
    Move-Held {t = t} pos load_size h = tt
    Move-Held {t = t} pos (cas_size d) h = tt
    Move-Held {t = t} pos (cas_again d) h = tt
    Move-Held {t = t} pos leave h = tt
    Move-Held {t = t} pos (not_found d) h = tt
    Move-Held {t = t} pos (lock_slot d g) h = refl
    Move-Held {t = t} pos (differs d e) h = tt
    Move-Held {t = t} pos (matches d e) h = h

    pub Move-Seen :
        {ths : List (Thread K)} {t t' : Table K} {p q : Pc K}
        → Move ths t p t' q
        → Seen (slot t) t.dict p
        → Seen (slot t) t'.dict q
    unfolding Seen
    Move-Seen (spin d) h = tt
    Move-Seen (pass {o = insert p} d) h = tt
    Move-Seen (pass {o = search o} d) h = tt
    Move-Seen (below d) h = tt
    Move-Seen (take_resize d e) h = tt
    Move-Seen (miss_resize d e) h = tt
    Move-Seen (round_over d) h = tt
    Move-Seen (lock_stripe d f) h = tt
    Move-Seen (empty {q = q} d e) h = (q, d, e)
    Move-Seen (go_on d e f g) h = tt
    Move-Seen (next_stripe d e f g) h = tt
    Move-Seen (no_slot d e f) h = tt
    Move-Seen {t = t} (copy_key {p = p} {q = q} {i = i} d) h =
        ap (λ x. get_elem? x (slot t p.key i)) (write_key-at t.dict (slot t p.key i) p.key q d)
        ∙ get_elem?-set_self t.dict (slot t p.key i) (record q { key = p.key })
            (get_elem?_bound t.dict (slot t p.key i) d)
    Move-Seen copy_value h = tt
    Move-Seen load_size h = tt
    Move-Seen (cas_size d) h = tt
    Move-Seen (cas_again d) h = tt
    Move-Seen leave h = tt
    Move-Seen (not_found d) h = tt
    Move-Seen (lock_slot d g) h = tt
    Move-Seen (differs d e) h = tt
    Move-Seen (matches {q = q} d e) h = (q, d, e)

    pub Move-Writes :
        {ths : List (Thread K)} {t t' : Table K} {p q : Pc K}
        → Move ths t p t' q
        → Held (slot t) t.locksize p
        → Seen (slot t) t.dict p
        → Writes (slot t) t.locksize p t.dict t'.dict
    unfolding Held Seen
    Move-Writes (spin d) h seen = nothing
    Move-Writes (pass d) h seen = nothing
    Move-Writes (below d) h seen = nothing
    Move-Writes (take_resize d e) h seen = nothing
    Move-Writes (miss_resize d e) h seen = nothing
    Move-Writes (round_over d) h seen = nothing
    Move-Writes (lock_stripe d f) h seen = nothing
    Move-Writes (empty d e) h seen = nothing
    Move-Writes (go_on d e f g) h seen = nothing
    Move-Writes (next_stripe d e f g) h seen = nothing
    Move-Writes (no_slot d e f) h seen = nothing
    Move-Writes {t = t} (copy_key {p = p} {q = q} {i = i} d) h seen =
        subst (Writes (slot t) t.locksize _ t.dict)
          (sym (write_key-at t.dict (slot t p.key i) p.key q d))
          (at_slot (slot t p.key i) (record q { key = p.key }) (ap some h) d)
    Move-Writes {t = t} (copy_value {p = p} {i = i} {u = u}) h seen =
        subst (Writes (slot t) t.locksize _ t.dict)
          (sym (write_value-at t.dict (slot t p.key i) p.value (record p { value = u }) seen))
          (at_slot (slot t p.key i) p (ap some h) seen)
    Move-Writes load_size h seen = nothing
    Move-Writes (cas_size d) h seen = nothing
    Move-Writes (cas_again d) h seen = nothing
    Move-Writes leave h seen = nothing
    Move-Writes (not_found d) h seen = nothing
    Move-Writes (lock_slot d g) h seen = nothing
    Move-Writes (differs d e) h seen = nothing
    Move-Writes (matches d e) h seen = nothing

    pub Move-Change :
        {ths : List (Thread K)} {t t' : Table K} {p q : Pc K} → Move ths t p t' q → Change ths p q
    Move-Change (spin d) = keeps refl refl
    Move-Change (pass {o = insert p} d) = keeps refl refl
    Move-Change (pass {o = search o} d) = keeps refl refl
    Move-Change (below d) = keeps refl refl
    Move-Change (take_resize d e) = keeps refl refl
    Move-Change (miss_resize d e) = keeps refl refl
    Move-Change (round_over d) = keeps refl refl
    Move-Change {t = t} (lock_stripe {p = p} {i = i} d f) =
        takes (stripe t p.key i) f refl refl refl refl
    Move-Change (empty d e) = keeps refl refl
    Move-Change (go_on d e f g) = keeps refl refl
    Move-Change (next_stripe d e f g) = releases refl refl
    Move-Change (no_slot d e f) = releases refl refl
    Move-Change (copy_key d) = keeps refl refl
    Move-Change copy_value = keeps refl refl
    Move-Change load_size = keeps refl refl
    Move-Change (cas_size d) = keeps refl refl
    Move-Change (cas_again d) = keeps refl refl
    Move-Change leave = releases refl refl
    Move-Change (not_found d) = keeps refl refl
    Move-Change {t = t} (lock_slot {o = get k} {i = i} d g) =
        joins (stripe t k i) g refl refl refl refl
    Move-Change {t = t} (lock_slot {o = update k v} {i = i} d g) =
        takes (stripe t k i) g refl refl refl refl
    Move-Change {t = t} (lock_slot {o = delete k} {i = i} d g) =
        takes (stripe t k i) g refl refl refl refl
    Move-Change (differs d e) = releases refl refl
    Move-Change (matches {o = get k} d e) = keeps refl refl
    Move-Change (matches {o = update k v} d e) = keeps refl refl
    Move-Change (matches {o = delete k} d e) = keeps refl refl
