-- ===== src/Linear/Threads/Balance.antt =====
-- The entries that the threads of index/linear_probing.h have still to store, and those that the
-- array holds.
use hash_bench.Common.{
  ℕ, ◌+◌, ◌<◌, ◌≡◌, ◌∙◌, refl, sym, ap, subst, true, some, List, [], ◌∷◌, arith, get_elem?, set,
}
use mathlib.Core.Option.{some-injective}
use hash_bench.Common.Totals.{total, total-set}
use hash_bench.Key.{Key, ≐_refl}
use hash_bench.Dict.{Pair, write_key, write_value}
use hash_bench.Probe.{has}
use hash_bench.Float.{FloatOps}
use hash_bench.Linear.{Table}
use hash_bench.Linear.Threads.{
  Search, get, update, delete, Call, insert, search, Pc, spinning, measuring, locking, probing,
  vacant, keyed, resizing, Thread, sought, slot, Move, spin, pass, below, take_resize, miss_resize,
  round_over, lock_stripe, empty, go_on, next_stripe, no_slot, copy_key, copy_value, load_size,
  cas_size, cas_again, leave, not_found, lock_slot, differs, matches, effect, note, System, Step,
  call, run, finish, Reach, here, next, begin_all,
}
use hash_bench.Linear.Threads.Slots.{Seen, write_key-at, write_value-at}
use hash_bench.Linear.Threads.Invariant.{Invariant, Reach-Invariant, note-idle}

module _ {ℓ} {K : Type ℓ} where
  -- With a weight of entries: what the `Insert`s of a call bring, what a thread has still to store,
  -- and what a slot holds between the two `memcpy`s.
  abbrev pub given : (Pair K → ℕ) → Call K → ℕ
  given f (insert p) = f p
  given f (search o) = 0

  abbrev pub owed : (Pair K → ℕ) → Pc K → ℕ
  owed f (spinning o) = given f o
  owed f (measuring p) = f p
  owed f (locking p i) = f p
  owed f (probing p i c) = f p
  owed f (vacant p i c) = f p
  owed f (keyed p i c u) = f p
  owed f (resizing p) = f p
  owed f _ = 0

  abbrev pub half : (Pair K → ℕ) → Pc K → ℕ
  half f (keyed p i c u) = f (record p { value = u })
  half f _ = 0

  -- The weights of what has left the array or is not there yet, and of what came otherwise.
  abbrev pub out : (Pair K → ℕ) → Thread K → ℕ
  out f th = total f th.replaced + total (given f) th.todo + owed f th.pc

  abbrev pub inside : (Pair K → ℕ) → Thread K → ℕ
  inside f th = total f th.updated + half f th.pc

  abbrev pub Balanced : (Pair K → ℕ) → ℕ → List (Pair K) → List (Thread K) → Type 0
  Balanced f w d ths = total f d + total (out f) ths ≡ w + total (inside f) ths

  turn-Balanced :
      (f : Pair K → ℕ) (w : ℕ) (d d' : List (Pair K)) (ths : List (Thread K)) (i : ℕ)
      (th th' : Thread K)
      → get_elem? ths i ≡ some th
      → total f d' + out f th' + inside f th ≡ total f d + out f th + inside f th'
      → Balanced f w d ths
      → Balanced f w d' (set ths i th')
  turn-Balanced f w d d' ths i th th' at e b =
      let a = total-set (out f) ths i th th' at in
      let c = total-set (inside f) ths i th th' at in omega arith

module _ {ℓ} {K : Type ℓ} ⦃key : Key K⦄ where
  -- A weight that does not count an empty slot
  abbrev pub IsWeight : (Pair K → ℕ) → Type ℓ
  IsWeight f = (q : Pair K) → has key.invalid q ≡ true → f q ≡ 0

  total-copy_key :
      (f : Pair K → ℕ) (d : List (Pair K)) (s : ℕ) (k : K) (q : Pair K)
      → IsWeight f
      → get_elem? d s ≡ some q
      → has key.invalid q ≡ true
      → total f (write_key d s k) ≡ total f d + f (record q { key = k })
  total-copy_key f d s k q w e v =
      let set_to = ap (total f) (write_key-at d s k q e) in
      let zero_weight = w q v in omega (arith, total-set f d s q (record q { key = k }) e)

  total-clear_key :
      (f : Pair K → ℕ) (d : List (Pair K)) (s : ℕ) (q : Pair K)
      → IsWeight f
      → get_elem? d s ≡ some q
      → total f (write_key d s key.invalid) + f q ≡ total f d
  total-clear_key f d s q w e =
      let set_to = ap (total f) (write_key-at d s key.invalid q e) in
      let zero_weight = w (record q { key = key.invalid }) (≐_refl key.invalid) in
      omega (arith, total-set f d s q (record q { key = key.invalid }) e)

  total-copy_value :
      (f : Pair K → ℕ) (d : List (Pair K)) (s v : ℕ) (q : Pair K)
      → get_elem? d s ≡ some q
      → total f (write_value d s v) + f q ≡ total f d + f (record q { value = v })
  total-copy_value f d s v q e =
      let set_to = ap (total f) (write_value-at d s v q e) in
      omega (arith, total-set f d s q (record q { value = v }) e)

  total-effect :
      (f : Pair K → ℕ) (o : Search K) (d : List (Pair K)) (s : ℕ) (q : Pair K) (th : Thread K)
      → IsWeight f
      → get_elem? d s ≡ some q
      → total f (effect o s d) + total f (note o q th).replaced + total f th.updated
        ≡ total f d + total f th.replaced + total f (note o q th).updated
  unfolding total
  total-effect f (get k) d s q th w e = refl
  total-effect f (update k v) d s q th w e = omega (arith, total-copy_value f d s v q e)
  total-effect f (delete k) d s q th w e = omega (arith, total-clear_key f d s q w e)

  pub note-todo : (o : Search K) (q : Pair K) (th : Thread K) → (note o q th).todo ≡ th.todo
  note-todo (get k) q th = refl
  note-todo (update k v) q th = refl
  note-todo (delete k) q th = refl

  module _ ⦃fl : FloatOps⦄ where
    total-Move :
        (f : Pair K → ℕ) {ths : List (Thread K)} {t t' : Table K} {p q : Pc K}
        → IsWeight f
        → Move ths t p t' q
        → Seen (slot t) t.dict p
        → total f t'.dict + owed f q + half f p ≡ total f t.dict + owed f p + half f q
    unfolding Seen
    total-Move f w (spin d) h = refl
    total-Move f w (pass {o = insert p} d) h = refl
    total-Move f w (pass {o = search o} d) h = refl
    total-Move f w (below d) h = refl
    total-Move f w (take_resize d e) h = refl
    total-Move f w (miss_resize d e) h = refl
    total-Move f w (round_over d) h = refl
    total-Move f w (lock_stripe d x) h = refl
    total-Move f w (empty d e) h = refl
    total-Move f w (go_on d e x g) h = refl
    total-Move f w (next_stripe d e x g) h = refl
    total-Move f w (no_slot d e x) h = refl
    total-Move f {t = t} w (copy_key {p = p} {q = q} {i = i} d) (r, e, v) =
        let same : q ≡ r = some-injective q r (sym d ∙ e) in
        let v' : has key.invalid q ≡ true = subst (λ x. has key.invalid x ≡ true) (sym same) v in
        omega (arith, total-copy_key f t.dict (slot t p.key i) p.key q w d v')
    total-Move f {t = t} w (copy_value {p = p} {i = i} {u = u}) e =
        omega (arith, total-copy_value f t.dict (slot t p.key i) p.value (record p { value = u }) e)
    total-Move f w load_size h = refl
    total-Move f w (cas_size d) h = refl
    total-Move f w (cas_again d) h = refl
    total-Move f w leave h = refl
    total-Move f w (not_found d) h = refl
    total-Move f w (lock_slot d g) h = refl
    total-Move f w (differs d e) h = refl
    total-Move f w (matches d e) h = refl

    Step-Balanced :
        (f : Pair K → ℕ) (w : ℕ) {s s' : System K}
        → IsWeight f
        → Invariant s
        → Step s s'
        → Balanced f w s.table.dict s.threads
        → Balanced f w s'.table.dict s'.threads
    unfolding total
    Step-Balanced f w {s} z inv (call i {th = th} {o = o} {os = os} at e e') =
        let a : owed f th.pc ≡ 0 = ap (owed f) e in
        let b : half f th.pc ≡ 0 = ap (half f) e in
        let c : total (given f) th.todo ≡ given f o + total (given f) os =
          ap (total (given f)) e' in
        turn-Balanced f w s.table.dict s.table.dict s.threads i th
          (record th { todo = os; pc = spinning o }) at (omega arith)
    Step-Balanced f w {s} z inv (run i {th = th} {t = t} {q = q} at m) =
        turn-Balanced f w s.table.dict t.dict s.threads i th (record th { pc = q }) at
          (omega (arith, total-Move f z m (inv.seen i th at)))
    Step-Balanced f w {s} z inv (finish i {th = th} {o = o} {q = q} {n = n} at e r) =
        let a : owed f th.pc ≡ 0 = ap (owed f) e in
        let b : half f th.pc ≡ 0 = ap (half f) e in
        let d = slot s.table (sought o) n in
        let idles = note-idle o q th in
        let a' : owed f (note o q th).pc ≡ 0 = ap (owed f) idles in
        let b' : half f (note o q th).pc ≡ 0 = ap (half f) idles in
        let c : (note o q th).todo ≡ th.todo = note-todo o q th in
        let c' : total (given f) (note o q th).todo ≡ total (given f) th.todo =
          ap (total (given f)) c in
        turn-Balanced f w s.table.dict (effect o d s.table.dict) s.threads i th (note o q th) at
          (omega (arith, total-effect f o s.table.dict d q th z r))

    begin_all-Balanced :
        (f : Pair K → ℕ) (jobs : List (List (Call K)))
        → (total (out f) (begin_all jobs) ≡ total (total (given f)) jobs)
          × (total (inside f) (begin_all jobs) ≡ 0)
    unfolding total
    begin_all-Balanced f [] = (refl, refl)
    begin_all-Balanced f (os ∷ jobs) =
        let (a, b) = begin_all-Balanced f jobs in (omega arith, omega arith)

    pub Reach-Balanced :
        (f : Pair K → ℕ) (t : Table K) (jobs : List (List (Call K))) (s : System K)
        → IsWeight f
        → 0 < t.locksize
        → Reach t jobs s
        → Balanced f (total f t.dict + total (total (given f)) jobs) s.table.dict s.threads
    Reach-Balanced f t jobs _ w pos here = let (a, b) = begin_all-Balanced f jobs in omega arith
    Reach-Balanced f t jobs _ w pos (next {s = s} r st) =
        Step-Balanced f (total f t.dict + total (total (given f)) jobs) w
          (Reach-Invariant t jobs s pos r) st (Reach-Balanced f t jobs s w pos r)
