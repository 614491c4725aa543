-- ===== src/Linear/Threads/Load.antt =====
-- `size` of index/linear_probing.h under threads, and what a load by many threads leaves.
use hash_bench.Common.{
  ℕ, suc, ◌+◌, ◌%◌, ◌^◌, ◌<◌, ◌≡◌, refl, ap, List, [], ◌∷◌, arith, get_elem?, set, some,
}
use hash_bench.Common.Totals.{total, total-set, total-zero}
use hash_bench.Key.{Key}
use hash_bench.Dict.{Pair}
use hash_bench.Float.{FloatOps}
use hash_bench.Linear.{Table}
use hash_bench.Linear.Threads.{
  Call, insert, search, Pc, idle, spinning, stored, counting, Thread, Move, spin, pass, below,
  take_resize, miss_resize, round_over, lock_stripe, empty, go_on, next_stripe, no_slot, copy_key,
  copy_value, load_size, cas_size, cas_again, leave, not_found, lock_slot, differs, matches, note,
  System, Step, call, run, finish, Reach, here, next, begin_all,
}
use hash_bench.Linear.Threads.Invariant.{note-idle}
use hash_bench.Linear.Threads.Balance.{
  given, owed, half, out, inside, IsWeight, note-todo, Reach-Balanced,
}

module _ {ℓ} {K : Type ℓ} where
  -- The `Insert`s among the calls, and those that have not counted up `size` yet.
  abbrev pub inserts : Call K → ℕ
  inserts = given (λ p. 1)

  abbrev pub uncounted : Pc K → ℕ
  uncounted (stored p c) = 1
  uncounted (counting p c n) = 1
  uncounted pc = owed (λ p. 1) pc

  abbrev lag : Thread K → ℕ
  lag th = total inserts th.todo + uncounted th.pc

  -- With no call left to make or to finish.
  unfoldable pub IsDone : List (Thread K) → Type ℓ
  IsDone ths = (i : ℕ) (th : Thread K) → get_elem? ths i ≡ some th → (th.todo ≡ []) × (th.pc ≡ idle)

  done-lag : (ths : List (Thread K)) → IsDone ths → total lag ths ≡ 0
  unfolding IsDone total
  done-lag ths done = total-zero lag ths (λ i th at.
      let (a, b) = done i th at in
      let a' : total inserts th.todo ≡ 0 = ap (total inserts) a in
      let b' : uncounted th.pc ≡ 0 = ap uncounted b in omega arith)

  done-weights :
      (f : Pair K → ℕ) (ths : List (Thread K))
      → IsDone ths
      → (total (out f) ths ≡ total (λ th. total f th.replaced) ths)
        × (total (inside f) ths ≡ total (λ th. total f th.updated) ths)
  unfolding IsDone total
  done-weights f [] done = (refl, refl)
  done-weights f (th ∷ ths) done =
      let (a, b) = done 0 th refl in
      let c : total (given f) th.todo ≡ 0 = ap (total (given f)) a in
      let d : owed f th.pc ≡ 0 = ap (owed f) b in
      let e : half f th.pc ≡ 0 = ap (half f) b in
      let (g, h) = done-weights f ths (λ i x at. done (suc i) x at) in (omega arith, omega arith)

module _ {ℓ} {K : Type ℓ} ⦃key : Key K⦄ ⦃fl : FloatOps⦄ where
  Move-size :
      {ths : List (Thread K)} {t t' : Table K} {p q : Pc K}
      → Move ths t p t' q
      → (t'.size + uncounted q) % 2 ^ 64 ≡ (t.size + uncounted p) % 2 ^ 64
  Move-size (spin d) = refl
  Move-size (pass {o = insert p} d) = refl
  Move-size (pass {o = search o} d) = refl
  Move-size (below d) = refl
  Move-size (take_resize d e) = refl
  Move-size (miss_resize d e) = refl
  Move-size (round_over d) = refl
  Move-size (lock_stripe d x) = refl
  Move-size (empty d e) = refl
  Move-size (go_on d e x g) = refl
  Move-size (next_stripe d e x g) = refl
  Move-size (no_slot d e x) = refl
  Move-size (copy_key d) = refl
  Move-size copy_value = refl
  Move-size load_size = refl
  Move-size (cas_size d) = omega arith
  Move-size (cas_again d) = refl
  Move-size leave = refl
  Move-size (not_found d) = refl
  Move-size (lock_slot d g) = refl
  Move-size (differs d e) = refl
  Move-size (matches d e) = refl

  Counted : ℕ → System K → Type 0
  Counted w s = (s.table.size + total lag s.threads) % 2 ^ 64 ≡ w % 2 ^ 64

  turn-size :
      (w n n' : ℕ) (ths : List (Thread K)) (i : ℕ) (th th' : Thread K)
      → get_elem? ths i ≡ some th
      → (n' + lag th') % 2 ^ 64 ≡ (n + lag th) % 2 ^ 64
      → (n + total lag ths) % 2 ^ 64 ≡ w % 2 ^ 64
      → (n' + total lag (set ths i th')) % 2 ^ 64 ≡ w % 2 ^ 64
  turn-size w n n' ths i th th' at e b = let a = total-set lag ths i th th' at in omega arith

  Step-Counted : (w : ℕ) {s s' : System K} → Step s s' → Counted w s → Counted w s'
  unfolding Counted total
  Step-Counted w {s} (call i {th = th} {o = o} {os = os} at e e') b =
      let a : uncounted th.pc ≡ 0 = ap uncounted e in
      let c : total inserts th.todo ≡ inserts o + total inserts os = ap (total inserts) e' in
      turn-size w s.table.size s.table.size s.threads i th
        (record th { todo = os; pc = spinning o }) at (omega arith) b
  Step-Counted w {s} (run i {th = th} {t = t} {q = q} at m) b =
      let a = Move-size m in
      turn-size w s.table.size t.size s.threads i th (record th { pc = q }) at (omega arith) b
  Step-Counted w {s} (finish i {th = th} {o = o} {q = q} {n = n} at e r) b =
      let a : uncounted th.pc ≡ 0 = ap uncounted e in
      let a' : uncounted (note o q th).pc ≡ 0 = ap uncounted (note-idle o q th) in
      let c : total inserts (note o q th).todo ≡ total inserts th.todo =
        ap (total inserts) (note-todo o q th) in
      turn-size w s.table.size s.table.size s.threads i th (note o q th) at (omega arith) b

  begin_all-lag :
      (jobs : List (List (Call K))) → total lag (begin_all jobs) ≡ total (total inserts) jobs
  unfolding total
  begin_all-lag [] = refl
  begin_all-lag (os ∷ jobs) = omega (arith, begin_all-lag jobs)

  Reach-Counted :
      (t : Table K) (jobs : List (List (Call K))) (s : System K)
      → Reach t jobs s
      → Counted (t.size + total (total inserts) jobs) s
  unfolding Counted
  Reach-Counted t jobs _ here = omega (arith, begin_all-lag jobs)
  Reach-Counted t jobs _ (next r st) =
      Step-Counted (t.size + total (total inserts) jobs) st (Reach-Counted t jobs _ r)

  -- Let threads run any lists of calls on a table, interleaved in any way, without a resize, until
  -- all have returned. Then for each weight of entries that gives an empty slot 0, the weights of
  -- the array and of the entries that `Update`s and `Delete`s have overwritten are together those
  -- of the array at the start, of the entries given to the `Insert`s and of those that `Update`s
  -- have written; and `size` has grown by the number of `Insert`s, modulo 2 ^ 64.
  pub load_lem :
      (f : Pair K → ℕ) (t : Table K) (jobs : List (List (Call K))) (s : System K)
      → IsWeight f
      → 0 < t.locksize
      → Reach t jobs s
      → IsDone s.threads
      → (total f s.table.dict + total (λ th. total f th.replaced) s.threads
          ≡ total f t.dict
            + total (total (given f)) jobs
            + total (λ th. total f th.updated) s.threads)
        × (s.table.size % 2 ^ 64 ≡ (t.size + total (total inserts) jobs) % 2 ^ 64)
  unfolding Counted
  load_lem f t jobs s w pos r done =
      let b = Reach-Balanced f t jobs s w pos r in
      let n = Reach-Counted t jobs s r in
      let z = done-lag s.threads done in
      let (a, c) = done-weights f s.threads done in (omega arith, omega arith)
