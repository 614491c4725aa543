-- ===== src/Linear/Threads/Invariant.antt =====
-- The locks, the slots and the array of index/linear_probing.h in the states that threads reach.
use hash_bench.Common.{
  ℕ, zero, suc, ◌/◌, ◌<◌, ◌≡◌, ◌≢◌, ◌∙◌, inl, refl, sym, ap, subst, some, List, [], ◌∷◌, get_elem?,
  set, ℕ_discrete, get_elem?-set_self, get_elem?-set_ne, get_elem?_bound,
}
use mathlib.Core.Option.{some-injective}
use hash_bench.Common.Totals.{total-zero}
use hash_bench.Key.{Key}
use hash_bench.Dict.{Pair}
use hash_bench.Float.{FloatOps}
use hash_bench.Linear.{Table}
use hash_bench.Linear.Threads.{
  Search, get, update, delete, Call, Pc, idle, spinning, hit, Thread, exclusive, shared, is_at,
  sought, slot, effect, note, System, Step, call, run, finish, Reach, here, next, begin, begin_all,
}
use hash_bench.Linear.Threads.Stripes.{Change, releases, keeps, Exclusion, alone, set-Exclusion}
use hash_bench.Linear.Threads.Slots.{
  Held, Seen, Seen-apart, Writes, nothing, at_slot, write_key-at, write_value-at, Move-frame,
  Move-Held, Move-Seen, Move-Writes, Move-Change,
}

-- What holds of each element after a write at one place.
pub each-set {ℓ κ} :
    {A : Type ℓ} (P : A → Type κ) (xs : List A) (i : ℕ) (x y : A)
    → get_elem? xs i ≡ some x
    → P y
    → ((j : ℕ) (z : A) → i ≢ j → get_elem? xs j ≡ some z → P z)
    → (j : ℕ) (z : A) → get_elem? (set xs i y) j ≡ some z
    → P z
each-set P xs i x y at new old j z e =
    let self : get_elem? (set xs i y) i ≡ some y =
      get_elem?-set_self xs i y (get_elem?_bound xs i at) in
    elim (ℕ_discrete i j) [
      | yes h ↦ let same : y ≡ z = cc in subst P same new
      | no h ↦ old j z h (sym (get_elem?-set_ne xs y h) ∙ e)
    ]

module _ {ℓ} {K : Type ℓ} ⦃key : Key K⦄ where
  pub record Inv (sl : K → ℕ → ℕ) (ls : ℕ) (d : List (Pair K)) (ths : List (Thread K))
      : Type ℓ where
    pub pos : 0 < ls
    pub exclusion : Exclusion ths
    pub held : (j : ℕ) (th : Thread K) → get_elem? ths j ≡ some th → Held sl ls th.pc
    pub seen : (j : ℕ) (th : Thread K) → get_elem? ths j ≡ some th → Seen sl d th.pc

  -- A thread that writes the slot of another does not hold its stripe alone.
  turn-Seen :
      (sl : K → ℕ → ℕ) (ls : ℕ) (d d' : List (Pair K)) (ths : List (Thread K)) (i : ℕ)
      (th : Thread K)
      → Inv sl ls d ths
      → get_elem? ths i ≡ some th
      → Writes sl ls th.pc d d'
      → (j : ℕ) (x : Thread K) → i ≢ j
      → get_elem? ths j ≡ some x
      → Seen sl d' x.pc
  turn-Seen sl ls d _ ths i th inv at nothing j x ne e = inv.seen j x e
  turn-Seen sl ls d _ ths i th inv at (at_slot s r own q) j x ne e =
      Seen-apart sl ls d s r x.pc (alone ths i j (s / ls) th x inv.exclusion ne at e own)
        (inv.held j x e) (inv.seen j x e)

  -- One thread's step keeps the invariant.
  turn :
      {sl : K → ℕ → ℕ} {ls : ℕ} {d : List (Pair K)} {ths : List (Thread K)} (d' : List (Pair K))
      (i : ℕ) (th th' : Thread K)
      → Inv sl ls d ths
      → get_elem? ths i ≡ some th
      → Change ths th.pc th'.pc
      → Held sl ls th'.pc
      → Seen sl d' th'.pc
      → Writes sl ls th.pc d d'
      → Inv sl ls d' (set ths i th')
  turn {sl} {ls} {d} {ths} d' i th th' inv at change held seen writes = record {
    pos = inv.pos;
    exclusion = set-Exclusion ths i th th' at change inv.exclusion;
    held = each-set (λ x. Held sl ls x.pc) ths i th th' at held (λ j x ne e. inv.held j x e);
    seen =
        each-set (λ x. Seen sl d' x.pc) ths i th th' at seen
          (turn-Seen sl ls d d' ths i th inv at writes);
  }

  effect-Writes :
      (o : Search K) (sl : K → ℕ → ℕ) (ls n c : ℕ) (d : List (Pair K)) (q : Pair K)
      → c ≡ sl (sought o) n / ls
      → get_elem? d (sl (sought o) n) ≡ some q
      → Writes sl ls (hit o n c) d (effect o (sl (sought o) n) d)
  effect-Writes (get k) sl ls n c d q h e = nothing
  effect-Writes (update k v) sl ls n c d q h e =
      subst (Writes sl ls (hit (update k v) n c) d) (sym (write_value-at d (sl k n) v q e))
        (at_slot (sl k n) (record q { value = v }) (ap some h) e)
  effect-Writes (delete k) sl ls n c d q h e =
      subst (Writes sl ls (hit (delete k) n c) d) (sym (write_key-at d (sl k n) key.invalid q e))
        (at_slot (sl k n) (record q { key = key.invalid }) (ap some h) e)

  pub note-idle : (o : Search K) (q : Pair K) (th : Thread K) → (note o q th).pc ≡ idle
  note-idle (get k) q th = refl
  note-idle (update k v) q th = refl
  note-idle (delete k) q th = refl

  Change-idle : {ths : List (Thread K)} {p q : Pc K} → q ≡ idle → Change ths p q
  Change-idle e = releases (ap exclusive e) (ap shared e)

  abbrev pub Invariant : System K → Type ℓ
  Invariant s = Inv (slot s.table) s.table.locksize s.table.dict s.threads

  module _ ⦃fl : FloatOps⦄ where
    Step-Invariant : {s s' : System K} → Step s s' → Invariant s → Invariant s'
    unfolding Held Seen
    Step-Invariant {s} (call i {th = th} {o = o} {os = os} at e e') inv =
        turn s.table.dict i th (record th { todo = os; pc = spinning o }) inv at
          (keeps (sym (ap exclusive e)) (sym (ap shared e))) tt tt nothing
    Step-Invariant {s} (run i {th = th} {t = t} {q = q} at m) inv =
        let (f, g) = Move-frame m in
        let held = inv.held i th at in
        let seen = inv.seen i th at in
        let kept : Inv (slot s.table) s.table.locksize t.dict
            (set s.threads i (record th { pc = q })) =
          turn t.dict i th (record th { pc = q }) inv at (Move-Change m) (Move-Held inv.pos m held)
            (Move-Seen m seen) (Move-Writes m held seen) in
        subst (λ l. Inv (slot t) l t.dict (set s.threads i (record th { pc = q }))) (sym g)
          (subst (λ x. Inv x s.table.locksize t.dict (set s.threads i (record th { pc = q })))
            (sym f) kept)
    Step-Invariant {s} (finish i {th = th} {o = o} {q = q} {n = n} {c = c} at e r) inv =
        let idles = note-idle o q th in
        let held : Held (slot s.table) s.table.locksize (hit o n c) =
          subst (Held (slot s.table) s.table.locksize) e (inv.held i th at) in
        let d' = effect o (slot s.table (sought o) n) s.table.dict in
        turn d' i th (note o q th) inv at (Change-idle idles)
          (subst (Held (slot s.table) s.table.locksize) (sym idles) tt)
          (subst (Seen (slot s.table) d') (sym idles) tt)
          (subst (λ p. Writes (slot s.table) s.table.locksize p s.table.dict d') (sym e)
            (effect-Writes o (slot s.table) s.table.locksize n c s.table.dict q held r))

    pub begin_all-idle :
        (jobs : List (List (Call K))) (i : ℕ) (th : Thread K)
        → get_elem? (begin_all jobs) i ≡ some th
        → th.pc ≡ idle
    begin_all-idle [] i th e = cc
    begin_all-idle (os ∷ jobs) zero th e =
        sym (ap (λ (x : Thread K). x.pc) (some-injective (begin os) th e))
    begin_all-idle (os ∷ jobs) (suc i) th e = begin_all-idle jobs i th e

    -- In every state that the threads reach from a table with stripes, no two hold a stripe if
    -- one of them holds it by a `unique_lock`; each holds that of the slot it works on, and the
    -- slot still holds what the thread has found or written there.
    pub Reach-Invariant :
        (t : Table K) (jobs : List (List (Call K))) (s : System K)
        → 0 < t.locksize
        → Reach t jobs s
        → Invariant s
    unfolding Held Seen Exclusion
    Reach-Invariant t jobs _ pos here = record {
      pos = pos;
      exclusion = λ c. inl (
          total-zero (λ x. is_at c (exclusive x.pc)) (begin_all jobs)
            (λ i x e. ap (λ p. is_at c (exclusive p)) (begin_all-idle jobs i x e)));
      held = λ j x e. subst (Held (slot t) t.locksize) (sym (begin_all-idle jobs j x e)) tt;
      seen = λ j x e. subst (Seen (slot t) t.dict) (sym (begin_all-idle jobs j x e)) tt;
    }
    Reach-Invariant t jobs _ pos (next r st) = Step-Invariant st (Reach-Invariant t jobs _ pos r)
