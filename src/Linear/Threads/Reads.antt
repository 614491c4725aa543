-- ===== src/Linear/Threads/Reads.antt =====
-- `Get` of index/linear_probing.h under threads: where an entry that it reads comes from.
use mathlib.Core.Option.{some-injective}
use hash_bench.Common.{
  ℕ, zero, suc, ◌/◌, ◌≤◌, ◌<◌, ◌≡◌, ◌≢◌, ◌⊎◌, ◌∙◌, inl, inr, refl, sym, ap, subst, true, false,
  some, List, [], ◌∷◌, get_elem?, set,
}
use hash_bench.Key.{Key, ≐_congr, ≐_refl}
use hash_bench.Dict.{Pair}
use hash_bench.Probe.{has}
use hash_bench.Float.{FloatOps}
use hash_bench.Linear.{Table}
use hash_bench.Linear.Threads.{
  exclusive, shared, Search, get, update, delete, Call, insert, search, Pc, idle, spinning,
  measuring, locking, probing, vacant, keyed, stored, counting, leaving, resizing, seeking, reading,
  hit, Thread, sought, slot, Move, spin, pass, below, take_resize, miss_resize, round_over,
  lock_stripe, empty, go_on, next_stripe, no_slot, copy_key, copy_value, load_size, cas_size,
  cas_again, leave, not_found, lock_slot, differs, matches, effect, note, System, Step, call, run,
  finish, Reach, here, next, begin, begin_all,
}
use hash_bench.Linear.Threads.Balance.{note-todo}
use hash_bench.Linear.Threads.Marks.{
  All, IsSound, SoundPc, Halfway, Fine, Writing, none_at, one_at, Whole, turn-Whole,
}
use hash_bench.Linear.Threads.Stripes.{alone}
use hash_bench.Linear.Threads.Slots.{Held, Seen, write_key-at, write_value-at, Move-frame}
use hash_bench.Linear.Threads.Invariant.{Invariant, Inv, Reach-Invariant, note-idle, begin_all-idle}

module _ {ℓ} {K : Type ℓ} ⦃key : Key K⦄ where
  Halfway-owner :
      (sl : K → ℕ → ℕ) (ls s : ℕ) (p : Pc K)
      → Held sl ls p
      → Halfway sl s p
      → exclusive p ≡ some (s / ls)
  unfolding Held
  Halfway-owner sl ls s (keyed p i c u) held h = ap some (held ∙ ap (λ x. x / ls) h)
  Halfway-owner sl ls s idle held h = elim h [ ]
  Halfway-owner sl ls s (spinning o) held h = elim h [ ]
  Halfway-owner sl ls s (measuring p) held h = elim h [ ]
  Halfway-owner sl ls s (locking p i) held h = elim h [ ]
  Halfway-owner sl ls s (probing p i c) held h = elim h [ ]
  Halfway-owner sl ls s (vacant p i c) held h = elim h [ ]
  Halfway-owner sl ls s (stored p c) held h = elim h [ ]
  Halfway-owner sl ls s (counting p c m) held h = elim h [ ]
  Halfway-owner sl ls s (leaving c) held h = elim h [ ]
  Halfway-owner sl ls s (resizing p) held h = elim h [ ]
  Halfway-owner sl ls s (seeking o i) held h = elim h [ ]
  Halfway-owner sl ls s (reading o i c) held h = elim h [ ]
  Halfway-owner sl ls s (hit o i c) held h = elim h [ ]

module _ {ℓ} {K : Type ℓ} ⦃key : Key K⦄ (Good : Pair K → Type 0) where
  -- A thread that has found a good key in its slot reads an entry that nobody is writing.
  read_good :
      {sl : K → ℕ → ℕ} {ls : ℕ} {d : List (Pair K)} {ths : List (Thread K)} (i : ℕ) (th : Thread K)
      (k : K) (n c : ℕ) (q : Pair K)
      → Inv sl ls d ths
      → Whole Good sl d ths
      → get_elem? ths i ≡ some th
      → th.pc ≡ hit (get k) n c
      → get_elem? d (sl k n) ≡ some q
      → Good q
  unfolding Fine Held Seen
  read_good {sl} {ls} {d} {ths} i th k n c q inv wh at e r =
      let seen : Seen sl d (hit (get k) n c) = subst (Seen sl d) e (inv.seen i th at) in
      let held : Held sl ls (hit (get k) n c) = subst (Held sl ls) e (inv.held i th at) in
      let valid : SoundPc Good (hit (get k) n c) = subst (SoundPc Good) e (wh.now i th at) in
      elim (wh.slots (sl k n) q r) [
        | inl z ↦
            let (x, e', m) = seen in
            let same : x ≡ q = some-injective x q (sym e' ∙ r) in
            let m' : has k q ≡ true = subst (λ y. has k y ≡ true) same m in
            let clash : true ≡ false = sym z ∙ ≐_congr q.key k key.invalid m' ∙ valid in cc
        | inr (inl g) ↦ g
        | inr (inr (j, x, at', h)) ↦
            let other : j ≢ i = λ same.
              let own : x ≡ th = some-injective x th (sym at' ∙ ap (get_elem? ths) same ∙ at) in
              let clash : 1 ≤ 0 =
                subst (Halfway sl (sl k n)) (ap (λ (y : Thread K). y.pc) own ∙ e) h in
              elim clash [ ] in
            elim (alone ths j i (sl k n / ls) x th inv.exclusion other at' at
              (Halfway-owner sl ls (sl k n) x.pc (inv.held j x at') h)
              (inr (ap shared e ∙ ap some held))) [ ]
      ]

  sought_key :
      (k : K) (n : ℕ) (d : List (Pair K)) (q : Pair K)
      → (x : Pair K) × (get_elem? d n ≡ some x) × (has k x ≡ true)
      → get_elem? d n ≡ some q
      → q.key ≡ k
  sought_key k n d q (x, e, m) r =
      let same : x ≡ q = some-injective x q (sym e ∙ r) in
      (key.same_iff q.key k).0 (subst (λ (y : Pair K). has k y ≡ true) same m)

  module _ (s : System K) (i : ℕ) (th : Thread K) where
    no_mark :
        (o : Search K) (n c : ℕ) (q : Pc K)
        → th.pc ≡ hit o n c
        → (m : ℕ) → Halfway (slot s.table) m th.pc
        → Halfway (slot s.table) m q
    no_mark o n c q e m h =
        let clash : 1 ≤ 0 = subst (Halfway (slot s.table) m) e h in elim clash [ ]

    finish-Writing :
        (o : Search K) (q : Pair K) (n c : ℕ)
        → Invariant s
        → Whole Good (slot s.table) s.table.dict s.threads
        → get_elem? s.threads i ≡ some th
        → th.pc ≡ hit o n c
        → get_elem? s.table.dict (slot s.table (sought o) n) ≡ some q
        → Writing Good
            (slot s.table)
            s.table.dict
            th.pc
            (note o q th).pc
            (effect o (slot s.table (sought o) n) s.table.dict)
    unfolding Seen
    finish-Writing (get k) q n c inv wh at e r = none_at (no_mark (get k) n c idle e)
    finish-Writing (update k v) q n c inv wh at e r =
        let seen : Seen (slot s.table) s.table.dict (hit (update k v) n c) =
          subst (Seen (slot s.table) s.table.dict) e (inv.seen i th at) in
        let good : Good (record { key = k; value = v }) = subst (SoundPc Good) e (wh.now i th at) in
        let same = sought_key k (slot s.table k n) s.table.dict q seen r in
        subst (Writing Good (slot s.table) s.table.dict th.pc idle)
          (sym (write_value-at s.table.dict (slot s.table k n) v q r))
          (one_at (slot s.table k n) (record q { value = v })
            (λ m h. let clash : 1 ≤ 0 = subst (Halfway (slot s.table) m) e h in elim clash [ ])
            (inr (inl (subst (λ x. Good (record { key = x; value = v })) (sym same) good))))
    finish-Writing (delete k) q n c inv wh at e r =
        subst (Writing Good (slot s.table) s.table.dict th.pc idle)
          (sym (write_key-at s.table.dict (slot s.table k n) key.invalid q r))
          (one_at (slot s.table k n) (record q { key = key.invalid })
            (λ m h. let clash : 1 ≤ 0 = subst (Halfway (slot s.table) m) e h in elim clash [ ])
            (inl (≐_refl key.invalid)))

    note-answers :
        (o : Search K) (q : Pair K) (n c : ℕ)
        → Invariant s
        → Whole Good (slot s.table) s.table.dict s.threads
        → get_elem? s.threads i ≡ some th
        → th.pc ≡ hit o n c
        → get_elem? s.table.dict (slot s.table (sought o) n) ≡ some q
        → All Good (note o q th).answers
    note-answers (get k) q n c inv wh at e r =
        (read_good i th k n c q inv wh at e r, wh.past i th at)
    note-answers (update k v) q n c inv wh at e r = wh.past i th at
    note-answers (delete k) q n c inv wh at e r = wh.past i th at

  module _ ⦃fl : FloatOps⦄ where
    Move-Sound :
        {ths : List (Thread K)} {t t' : Table K} {p q : Pc K}
        → Move ths t p t' q
        → SoundPc Good p
        → SoundPc Good q
    Move-Sound (spin d) h = h
    Move-Sound (pass {o = insert p} d) h = h
    Move-Sound (pass {o = search o} d) h = h
    Move-Sound (below d) h = h
    Move-Sound (take_resize d e) h = h
    Move-Sound (miss_resize d e) h = h
    Move-Sound (round_over d) h = h
    Move-Sound (lock_stripe d x) h = h
    Move-Sound (empty d e) h = h
    Move-Sound (go_on d e x g) h = h
    Move-Sound (next_stripe d e x g) h = h
    Move-Sound (no_slot d e x) h = h
    Move-Sound (copy_key d) h = h
    Move-Sound copy_value h = tt
    Move-Sound load_size h = tt
    Move-Sound (cas_size d) h = tt
    Move-Sound (cas_again d) h = tt
    Move-Sound leave h = tt
    Move-Sound (not_found d) h = tt
    Move-Sound (lock_slot d g) h = h
    Move-Sound (differs d e) h = h
    Move-Sound (matches d e) h = h

    Move-Writing :
        {ths : List (Thread K)} {t t' : Table K} {p q : Pc K}
        → Move ths t p t' q
        → SoundPc Good p
        → Seen (slot t) t.dict p
        → Writing Good (slot t) t.dict p q t'.dict
    unfolding Seen
    Move-Writing (spin d) h seen = none_at (λ s z. elim z [ ])
    Move-Writing (pass d) h seen = none_at (λ s z. elim z [ ])
    Move-Writing (below d) h seen = none_at (λ s z. elim z [ ])
    Move-Writing (take_resize d e) h seen = none_at (λ s z. elim z [ ])
    Move-Writing (miss_resize d e) h seen = none_at (λ s z. elim z [ ])
    Move-Writing (round_over d) h seen = none_at (λ s z. elim z [ ])
    Move-Writing (lock_stripe d x) h seen = none_at (λ s z. elim z [ ])
    Move-Writing (empty d e) h seen = none_at (λ s z. elim z [ ])
    Move-Writing (go_on d e x g) h seen = none_at (λ s z. elim z [ ])
    Move-Writing (next_stripe d e x g) h seen = none_at (λ s z. elim z [ ])
    Move-Writing (no_slot d e x) h seen = none_at (λ s z. elim z [ ])
    Move-Writing {t = t} (copy_key {p = p} {q = q} {i = i} d) h seen =
        subst (Writing Good (slot t) t.dict _ _)
          (sym (write_key-at t.dict (slot t p.key i) p.key q d))
          (one_at (slot t p.key i) (record q { key = p.key }) (λ s z. elim z [ ]) (inr (inr refl)))
    Move-Writing {t = t} (copy_value {p = p} {i = i} {u = u}) h seen =
        subst (Writing Good (slot t) t.dict _ _)
          (sym (write_value-at t.dict (slot t p.key i) p.value (record p { value = u }) seen))
          (one_at (slot t p.key i) p (λ s z. z) (inr (inl h)))
    Move-Writing load_size h seen = none_at (λ s z. elim z [ ])
    Move-Writing (cas_size d) h seen = none_at (λ s z. elim z [ ])
    Move-Writing (cas_again d) h seen = none_at (λ s z. elim z [ ])
    Move-Writing leave h seen = none_at (λ s z. elim z [ ])
    Move-Writing (not_found d) h seen = none_at (λ s z. elim z [ ])
    Move-Writing (lock_slot d g) h seen = none_at (λ s z. elim z [ ])
    Move-Writing (differs d e) h seen = none_at (λ s z. elim z [ ])
    Move-Writing (matches d e) h seen = none_at (λ s z. elim z [ ])

    Step-Whole :
        {s s' : System K}
        → Invariant s
        → Step s s'
        → Whole Good (slot s.table) s.table.dict s.threads
        → Whole Good (slot s'.table) s'.table.dict s'.threads
    Step-Whole {s} inv (call i {th = th} {o = o} {os = os} at e e') wh =
        let sound : All (IsSound Good) (o ∷ os) = subst (All (IsSound Good)) e' (wh.todo i th at) in
        let keep : (n : ℕ) → Halfway (slot s.table) n th.pc → 1 ≤ 0 =
          λ n h. subst (Halfway (slot s.table) n) e h in
        turn-Whole Good s.table.dict i th (record th { todo = os; pc = spinning o }) wh at
          (none_at keep) sound.1 sound.0 (wh.past i th at)
    Step-Whole {s} inv (run i {th = th} {t = t} {q = q} at m) wh =
        let next_pc = record th { pc = q } in
        let kept : Whole Good (slot s.table) t.dict (set s.threads i (record th { pc = q })) =
          turn-Whole Good t.dict i th (record th { pc = q }) wh at
            (Move-Writing m (wh.now i th at) (inv.seen i th at)) (wh.todo i th at)
            (Move-Sound m (wh.now i th at)) (wh.past i th at) in
        subst (λ x. Whole Good x t.dict (set s.threads i (record th { pc = q })))
          (sym (Move-frame m).0) kept
    Step-Whole {s} inv (finish i {th = th} {o = o} {q = q} {n = n} {c = c} at e r) wh =
        let sl = slot s.table in
        let idles = note-idle o q th in
        turn-Whole Good (effect o (sl (sought o) n) s.table.dict) i th (note o q th) wh at
          (finish-Writing s i th o q n c inv wh at e r)
          (subst (All (IsSound Good)) (sym (note-todo o q th)) (wh.todo i th at))
          (subst (SoundPc Good) (sym idles) tt) (note-answers s i th o q n c inv wh at e r)

    begin_all-Whole :
        (t : Table K) (jobs : List (List (Call K)))
        → All (All (IsSound Good)) jobs
        → ((i : ℕ) (q : Pair K) → get_elem? t.dict i ≡ some q → (has key.invalid q ≡ true) ⊎ Good q)
        → Whole Good (slot t) t.dict (begin_all jobs)
    unfolding Fine
    begin_all-Whole t jobs sound good = record {
      slots = λ n q e. elim (good n q e) [ inl z ↦ inl z | inr g ↦ inr (inl g) ];
      todo = λ i th e. (fresh jobs sound i th e).0;
      now = λ i th e. subst (SoundPc Good) (sym (begin_all-idle jobs i th e)) tt;
      past = λ i th e. (fresh jobs sound i th e).1;
    }
      where
        fresh :
            (os : List (List (Call K)))
            → All (All (IsSound Good)) os
            → (i : ℕ) (th : Thread K) → get_elem? (begin_all os) i ≡ some th
            → All (IsSound Good) th.todo × All Good th.answers
        fresh [] a i th e = cc
        fresh (o ∷ os) a zero th e =
            subst (λ (x : Thread K). All (IsSound Good) x.todo × All Good x.answers)
              (some-injective (begin o) th e) (a.0, tt)
        fresh (o ∷ os) a (suc i) th e = fresh os a.1 i th e

    Reach-Whole :
        (t : Table K) (jobs : List (List (Call K))) (s : System K)
        → 0 < t.locksize
        → All (All (IsSound Good)) jobs
        → ((i : ℕ) (q : Pair K) → get_elem? t.dict i ≡ some q → (has key.invalid q ≡ true) ⊎ Good q)
        → Reach t jobs s
        → Whole Good (slot s.table) s.table.dict s.threads
    Reach-Whole t jobs _ pos sound good here = begin_all-Whole t jobs sound good
    Reach-Whole t jobs _ pos sound good (next {s = s} r st) =
        Step-Whole (Reach-Invariant t jobs s pos r) st (Reach-Whole t jobs s pos sound good r)

    -- Let threads run any lists of calls on a table, interleaved in any way, up to a resize, and let
    -- a property hold of each entry of the array at the start whose key is valid, of each entry
    -- given to an `Insert` and of each key with the new value of an `Update`. If the keys of the
    -- `Get`s are valid, the property holds of each entry that a `Get` has read: no `Get` sees a
    -- key without the value that was stored with it.
    pub get-whole :
        (t : Table K) (jobs : List (List (Call K))) (s : System K)
        → 0 < t.locksize
        → All (All (IsSound Good)) jobs
        → ((i : ℕ) (q : Pair K) → get_elem? t.dict i ≡ some q → (has key.invalid q ≡ true) ⊎ Good q)
        → Reach t jobs s
        → (i : ℕ) (th : Thread K) → get_elem? s.threads i ≡ some th
        → All Good th.answers
    get-whole t jobs s pos sound good r = (Reach-Whole t jobs s pos sound good r).past
