-- ===== src/Bench/Latency.antt =====
-- `latency` of bench/benchmark.hpp, with the threads interleaved over one table of linear probing.
use native.Mathlib.Nat.{div-mul-le_self}
use mathlib.Core.Option.{some-injective}
use hash_bench.Common.{
  ℕ, zero, suc, ◌+◌, ◌*◌, ◌/◌, ◌%◌, ◌^◌, ◌≤◌, ◌<◌, ◌≡◌, ◌∙◌, refl, sym, ap, subst, some, List, [],
  ◌∷◌, arith, length, take, drop, get_elem?, length-take, get_elem?-replicate,
}
use hash_bench.Common.Totals.{total, total-zero}
use hash_bench.Key.{Key, ≐_refl}
use hash_bench.Dict.{Pair, new_pair, new_array}
use hash_bench.Float.{FloatOps}
use hash_bench.Linear.{Table, new}
use hash_bench.Linear.Threads.{
  Call, insert, search, Pc, spinning, seeking, reading, hit, Thread, Move, spin, pass, below,
  take_resize, miss_resize, round_over, lock_stripe, empty, go_on, next_stripe, no_slot, copy_key,
  copy_value, load_size, cas_size, cas_again, leave, not_found, lock_slot, differs, matches, System,
  Step, call, run, finish, Reach, here, next, begin, begin_all,
}
use hash_bench.Linear.Threads.Invariant.{each-set}
use hash_bench.Linear.Threads.Balance.{given, IsWeight}
use hash_bench.Linear.Threads.Load.{inserts, IsDone, load_lem}
use hash_bench.Linear.Threads.Marks.{All}
use hash_bench.Bench.{inserts_of, latency_func, latency_threads}
use hash_bench.Bench.Parts.{latency_threads_lem}

total-nil {ℓ} : {A : Type ℓ} (g : A → ℕ) → total g [] ≡ 0
unfolding total
total-nil g = refl

module _ {ℓ} {K : Type ℓ} where
  pub ones : (xs : List (Pair K)) → total (λ p. 1) xs ≡ length xs
  unfolding total
  ones [] = refl
  ones (p ∷ xs) = omega (arith, ones xs)

  -- A call that inserts, and a place in `Insert`
  abbrev pub Inserts : Call K → Type 0
  Inserts (insert p) = Unit
  Inserts (search o) = 1 ≤ 0

  abbrev pub InsertsAt : Pc K → Type 0
  InsertsAt (spinning o) = Inserts o
  InsertsAt (seeking o i) = 1 ≤ 0
  InsertsAt (reading o i c) = 1 ≤ 0
  InsertsAt (hit o i c) = 1 ≤ 0
  InsertsAt _ = Unit

  -- A thread that only inserts
  unfoldable pub OnlyInserts : Thread K → Type ℓ
  OnlyInserts th = All Inserts th.todo × InsertsAt th.pc × (th.replaced ≡ []) × (th.updated ≡ [])

  unfoldable pub AllOnly : List (Thread K) → Type ℓ
  AllOnly ths = (i : ℕ) (th : Thread K) → get_elem? ths i ≡ some th → OnlyInserts th

  pub inserts_of-Inserts : (ps : List (Pair K)) → All Inserts (inserts_of ps)
  inserts_of-Inserts [] = tt
  inserts_of-Inserts (p ∷ ps) = (tt, inserts_of-Inserts ps)

module _ {ℓ} {K : Type ℓ} ⦃key : Key K⦄ ⦃fl : FloatOps⦄ where
  latency_threads-AllOnly :
      (n : ℕ) (kv : List (Pair K)) (m i : ℕ) → AllOnly (begin_all (latency_threads n kv m i))
  unfolding latency_threads latency_func AllOnly OnlyInserts
  latency_threads-AllOnly n kv zero i j th e = cc
  latency_threads-AllOnly n kv (suc m) i zero th e =
      subst OnlyInserts (some-injective (begin (latency_func n kv i)) th e)
        (inserts_of-Inserts (take (length kv / n) (drop (length kv / n * i) kv)), tt, refl, refl)
  latency_threads-AllOnly n kv (suc m) i (suc j) th e =
      latency_threads-AllOnly n kv m (i + 1) j th e

  Move-InsertsAt :
      {ths : List (Thread K)} {t t' : Table K} {p q : Pc K}
      → Move ths t p t' q
      → InsertsAt p
      → InsertsAt q
  Move-InsertsAt (spin d) h = h
  Move-InsertsAt (pass {o = insert p} d) h = tt
  Move-InsertsAt (pass {o = search o} d) h = h
  Move-InsertsAt (below d) h = tt
  Move-InsertsAt (take_resize d e) h = tt
  Move-InsertsAt (miss_resize d e) h = tt
  Move-InsertsAt (round_over d) h = tt
  Move-InsertsAt (lock_stripe d x) h = tt
  Move-InsertsAt (empty d e) h = tt
  Move-InsertsAt (go_on d e x g) h = tt
  Move-InsertsAt (next_stripe d e x g) h = tt
  Move-InsertsAt (no_slot d e x) h = tt
  Move-InsertsAt (copy_key d) h = tt
  Move-InsertsAt copy_value h = tt
  Move-InsertsAt load_size h = tt
  Move-InsertsAt (cas_size d) h = tt
  Move-InsertsAt (cas_again d) h = tt
  Move-InsertsAt leave h = tt
  Move-InsertsAt (not_found d) h = tt
  Move-InsertsAt (lock_slot d g) h = h
  Move-InsertsAt (differs d e) h = h
  Move-InsertsAt (matches d e) h = h

  Step-AllOnly : {s s' : System K} → Step s s' → AllOnly s.threads → AllOnly s'.threads
  unfolding AllOnly OnlyInserts
  Step-AllOnly {s} (call i {th = th} {o = o} {os = os} at e e') all =
      let (todo, pc, a, b) = all i th at in
      let now : All Inserts (o ∷ os) = subst (All Inserts) e' todo in
      each-set OnlyInserts s.threads i th (record th { todo = os; pc = spinning o }) at
        (now.1, now.0, a, b) (λ j x ne g. all j x g)
  Step-AllOnly {s} (run i {th = th} {t = t} {q = q} at m) all =
      let (todo, pc, a, b) = all i th at in
      each-set OnlyInserts s.threads i th (record th { pc = q }) at
        (todo, Move-InsertsAt m pc, a, b) (λ j x ne g. all j x g)
  Step-AllOnly {s} (finish i {th = th} {o = o} {q = q} {n = n} {c = c} at e r) all =
      let (todo, pc, a, b) = all i th at in let bad : 1 ≤ 0 = subst InsertsAt e pc in elim bad [ ]

  Reach-AllOnly :
      (t : Table K) (jobs : List (List (Call K))) (s : System K)
      → AllOnly (begin_all jobs)
      → Reach t jobs s
      → AllOnly s.threads
  Reach-AllOnly t jobs _ all here = all
  Reach-AllOnly t jobs _ all (next {s = s} r st) = Step-AllOnly st (Reach-AllOnly t jobs s all r)

  new-total : (f : Pair K → ℕ) (c : ℕ) → IsWeight f → total f (new c).dict ≡ 0
  unfolding new
  new-total f c w = total-zero f (new_array c) (λ i x e.
      subst (λ (y : Pair K). f y ≡ 0)
        (some-injective new_pair x (sym (get_elem?-replicate c new_pair i e)))
        (w new_pair (≐_refl key.invalid)))

  AllOnly-logs :
      (g : Pair K → ℕ) (ths : List (Thread K))
      → AllOnly ths
      → (total (λ th. total g th.replaced) ths ≡ 0) × (total (λ th. total g th.updated) ths ≡ 0)
  unfolding AllOnly OnlyInserts
  AllOnly-logs g ths all = (
    total-zero (λ th. total g th.replaced) ths
        (λ i x e. let (todo, pc, a, b) = all i x e in ap (total g) a ∙ total-nil g),
    total-zero (λ th. total g th.updated) ths
        (λ i x e. let (todo, pc, a, b) = all i x e in ap (total g) b ∙ total-nil g),
  )

  -- What threads that only insert leave in a new table.
  pub insert_only-total :
      (f : Pair K → ℕ) (c : ℕ) (jobs : List (List (Call K))) (s : System K)
      → IsWeight f
      → AllOnly (begin_all jobs)
      → Reach (new c) jobs s
      → IsDone s.threads
      → (total f s.table.dict ≡ total (total (given f)) jobs)
        × (s.table.size % 2 ^ 64 ≡ total (total inserts) jobs % 2 ^ 64)
  unfolding new
  insert_only-total f c jobs s w only r done =
      let pos : 0 < 256 = omega arith in
      let all = Reach-AllOnly (new c) jobs s only r in
      let (sum, count) = load_lem f (new c) jobs s w pos r done in
      let logs = AllOnly-logs f s.threads all in
      let nothing = new-total f c w in
      let empty_size : (new {K = K} c).size ≡ 0 = refl in
      (omega (arith, logs.0, logs.1), omega arith)

  -- Let the threads of `latency` run over a new table of linear probing, interleaved in any way,
  -- without a resize, until all have returned. Then the array holds, by any weight of entries that
  -- gives an empty slot 0, what the pairs up to the last multiple of the number of threads weigh,
  -- and `size` is the number of those pairs, modulo 2 ^ 64.
  pub latency-total :
      (f : Pair K → ℕ) (c n : ℕ) (kv : List (Pair K)) (s : System K)
      → IsWeight f
      → Reach (new c) (latency_threads n kv n 0) s
      → IsDone s.threads
      → (total f s.table.dict ≡ total f (take (length kv / n * n) kv))
        × (s.table.size % 2 ^ 64 ≡ length kv / n * n % 2 ^ 64)
  latency-total f c n kv s w r done =
      let (sum, count) =
        insert_only-total f c (latency_threads n kv n 0) s w (latency_threads-AllOnly n kv n 0) r
          done in
      let brought = latency_threads_lem f n kv in
      let counted = latency_threads_lem (λ p. 1) n kv in
      let size = ones (take (length kv / n * n) kv) in
      let width = length-take (length kv / n * n) kv (div-mul-le_self (length kv) n) in
      (sum ∙ brought, omega arith)
