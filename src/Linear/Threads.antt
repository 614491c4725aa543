-- ===== src/Linear/Threads.antt =====
-- `Insert`, `Update`, `Delete` and `Get` of index/linear_probing.h run by any number of threads
-- over one table. Each read or write of shared memory, and each lock taken, is one atomic step,
-- and the steps of the threads are interleaved in any order, up to the moment at which a thread
-- wins the CAS on `resizing_lock`: that thread goes no further, so there is no step of `resize`.
pub mod Stripes
pub mod Slots
pub mod Invariant
pub mod Balance
pub mod Load
pub mod Marks
pub mod Reads
pub mod Sizes
pub mod Progress
mod Tests
use hash_bench.Common.{
  ℕ, zero, suc, ◌+◌, ◌/◌, ◌%◌, ◌^◌, ◌≤◌, ◌<◌, ◌≡◌, ◌≢◌, Bool, true, false, Option, none, some, List,
  [], ◌∷◌, get_elem?, set, if◌then◌else◌, ◌==◌,
}
use hash_bench.Common.Totals.{total}
use hash_bench.Key.{Key, is_invalid}
use hash_bench.Dict.{Pair, write_key, write_value}
use hash_bench.Probe.{has}
use hash_bench.Float.{FloatOps}
use hash_bench.Linear.{Table, slot_at, hash, below_threshold}

pub data Search {ℓ} (K : Type ℓ) : Type ℓ where
  get : K → Search K
  update : K → ℕ → Search K
  delete : K → Search K

pub data Call {ℓ} (K : Type ℓ) : Type ℓ where
  insert : Pair K → Call K
  search : Search K → Call K

-- Where a thread stands. `i` is the local of that name, `c` the stripe whose lock is held.
pub data Pc {ℓ} (K : Type ℓ) : Type ℓ where
  idle : Pc K
  -- `while(resizing_lock)`
  spinning : Call K → Pc K
  -- in `Insert`, before `size < capacity*kResizingThreshold`
  measuring : Pair K → Pc K
  -- at `while(i < capacity)`
  locking : Pair K → ℕ → Pc K
  -- before the test of the slot's key
  probing : Pair K → ℕ → ℕ → Pc K
  -- before the `memcpy` of the key
  vacant : Pair K → ℕ → ℕ → Pc K
  -- before the `memcpy` of the value, in whose place the slot still has the last argument
  keyed : Pair K → ℕ → ℕ → ℕ → Pc K
  -- before `_size = size`
  stored : Pair K → ℕ → Pc K
  -- before the CAS, with `_size`
  counting : Pair K → ℕ → ℕ → Pc K
  -- at `return`, before the lock is released
  leaving : ℕ → Pc K
  -- after the CAS on `resizing_lock`
  resizing : Pair K → Pc K
  -- in `Update`, `Delete` or `Get`, at `i < capacity`
  seeking : Search K → ℕ → Pc K
  -- before the test of the slot's key
  reading : Search K → ℕ → ℕ → Pc K
  -- the key has been found
  hit : Search K → ℕ → ℕ → Pc K

-- A thread, the calls that it has not begun, and a record of what it has done: the entries that
-- its `Update`s and `Delete`s have overwritten, those that its `Update`s have written, and the
-- entries that its `Get`s have read.
pub record Thread {ℓ} (K : Type ℓ) : Type ℓ where
  pub todo : List (Call K)
  pub pc : Pc K
  pub replaced : List (Pair K)
  pub updated : List (Pair K)
  pub answers : List (Pair K)

pub record System {ℓ} (K : Type ℓ) : Type ℓ where
  pub table : Table K
  pub threads : List (Thread K)

-- The stripe that a thread holds by a `unique_lock`, and by a `shared_lock`.
abbrev pub exclusive {ℓ} : {K : Type ℓ} → Pc K → Option ℕ
exclusive (probing p i c) = some c
exclusive (vacant p i c) = some c
exclusive (keyed p i c u) = some c
exclusive (stored p c) = some c
exclusive (counting p c n) = some c
exclusive (leaving c) = some c
exclusive (reading (update k v) i c) = some c
exclusive (reading (delete k) i c) = some c
exclusive (hit (update k v) i c) = some c
exclusive (hit (delete k) i c) = some c
exclusive _ = none

abbrev pub shared {ℓ} : {K : Type ℓ} → Pc K → Option ℕ
shared (reading (get k) i c) = some c
shared (hit (get k) i c) = some c
shared _ = none

abbrev pub is_at : ℕ → Option ℕ → ℕ
is_at c none = 0
is_at c (some d) = if d == c then 1 else 0

module _ {ℓ} {K : Type ℓ} where
  -- How many threads hold the stripe.
  abbrev pub writers : ℕ → List (Thread K) → ℕ
  writers c = total (λ th. is_at c (exclusive th.pc))

  abbrev pub readers : ℕ → List (Thread K) → ℕ
  readers c = total (λ th. is_at c (shared th.pc))

  -- When `shared_mutex` grants the lock: a shared one if nobody writes, a unique one if nobody
  -- holds the stripe.
  abbrev pub Free : ℕ → List (Thread K) → Type 0
  Free c ths = (writers c ths ≡ 0) × (readers c ths ≡ 0)

  abbrev pub Grants : Search K → ℕ → List (Thread K) → Type 0
  Grants (get k) c ths = writers c ths ≡ 0
  Grants _ c ths = Free c ths

  abbrev pub sought : Search K → K
  sought (get k) = k
  sought (update k v) = k
  sought (delete k) = k

  -- After `while(resizing_lock)`
  abbrev pub enter : Call K → Pc K
  enter (insert p) = measuring p
  enter (search o) = seeking o 0

module _ {ℓ} {K : Type ℓ} ⦃key : Key K⦄ where
  -- `(loc + i) % capacity`, and `slot / locksize`
  abbrev pub slot : Table K → K → ℕ → ℕ
  slot t k i = slot_at t.capacity (hash k) i

  abbrev pub stripe : Table K → K → ℕ → ℕ
  stripe t k i = slot t k i / t.locksize

  -- One step of one thread that does not end a search, among all threads.
  pub data Move ⦃fl : FloatOps⦄ (ths : List (Thread K)) (t : Table K)
      : Pc K → Table K → Pc K → Type ℓ where
    spin : {o : Call K} → t.resizing_lock ≢ 0 → Move ths t (spinning o) t (spinning o)
    pass : {o : Call K} → t.resizing_lock ≡ 0 → Move ths t (spinning o) t (enter o)
    below : {p : Pair K} → below_threshold t ≡ true → Move ths t (measuring p) t (locking p 0)
    -- The CAS on `resizing_lock`, and its failure, after which there is `goto RETRY`.
    take_resize :
        {p : Pair K}
        → below_threshold t ≡ false
        → t.resizing_lock ≡ 0
        → Move ths t (measuring p) (record t { resizing_lock = 1 }) (resizing p)
    miss_resize :
        {p : Pair K}
        → below_threshold t ≡ false
        → t.resizing_lock ≢ 0
        → Move ths t (measuring p) t (spinning (insert p))
    round_over :
        {p : Pair K} {i : ℕ} → t.capacity ≤ i → Move ths t (locking p i) t (spinning (insert p))
    lock_stripe :
        {p : Pair K} {i : ℕ}
        → i < t.capacity
        → Free (stripe t p.key i) ths
        → Move ths t (locking p i) t (probing p i (stripe t p.key i))
    empty :
        {p q : Pair K} {i c : ℕ}
        → get_elem? t.dict (slot t p.key i) ≡ some q
        → has key.invalid q ≡ true
        → Move ths t (probing p i c) t (vacant p i c)
    -- The inner loop goes on in the stripe, or ends and releases the lock.
    go_on :
        {p q : Pair K} {i c : ℕ}
        → get_elem? t.dict (slot t p.key i) ≡ some q
        → has key.invalid q ≡ false
        → i + 1 < t.capacity
        → slot t p.key (i + 1) % t.locksize ≢ 0
        → Move ths t (probing p i c) t (probing p (i + 1) c)
    next_stripe :
        {p q : Pair K} {i c : ℕ}
        → get_elem? t.dict (slot t p.key i) ≡ some q
        → has key.invalid q ≡ false
        → i + 1 < t.capacity
        → slot t p.key (i + 1) % t.locksize ≡ 0
        → Move ths t (probing p i c) t (locking p (i + 1))
    no_slot :
        {p q : Pair K} {i c : ℕ}
        → get_elem? t.dict (slot t p.key i) ≡ some q
        → has key.invalid q ≡ false
        → t.capacity ≤ i + 1
        → Move ths t (probing p i c) t (locking p (i + 1))
    copy_key :
        {p q : Pair K} {i c : ℕ}
        → get_elem? t.dict (slot t p.key i) ≡ some q
        → Move ths t
            (vacant p i c)
            (record t { dict = write_key t.dict (slot t p.key i) p.key })
            (keyed p i c q.value)
    copy_value :
        {p : Pair K} {i c u : ℕ}
        → Move ths t
            (keyed p i c u)
            (record t { dict = write_value t.dict (slot t p.key i) p.value })
            (stored p c)
    load_size : {p : Pair K} {c : ℕ} → Move ths t (stored p c) t (counting p c t.size)
    cas_size :
        {p : Pair K} {c n : ℕ}
        → n ≡ t.size
        → Move ths t (counting p c n) (record t { size = (n + 1) % 2 ^ 64 }) (leaving c)
    cas_again :
        {p : Pair K} {c n : ℕ} → n ≢ t.size → Move ths t (counting p c n) t (counting p c t.size)
    leave : {c : ℕ} → Move ths t (leaving c) t idle
    not_found : {o : Search K} {i : ℕ} → t.capacity ≤ i → Move ths t (seeking o i) t idle
    lock_slot :
        {o : Search K} {i : ℕ}
        → i < t.capacity
        → Grants o (stripe t (sought o) i) ths
        → Move ths t (seeking o i) t (reading o i (stripe t (sought o) i))
    differs :
        {o : Search K} {q : Pair K} {i c : ℕ}
        → get_elem? t.dict (slot t (sought o) i) ≡ some q
        → has (sought o) q ≡ false
        → Move ths t (reading o i c) t (seeking o (i + 1))
    matches :
        {o : Search K} {q : Pair K} {i c : ℕ}
        → get_elem? t.dict (slot t (sought o) i) ≡ some q
        → has (sought o) q ≡ true
        → Move ths t (reading o i c) t (hit o i c)

  -- What the search does at the entry `q` of slot `s`, and what the thread keeps of it.
  abbrev pub effect : Search K → ℕ → List (Pair K) → List (Pair K)
  effect (get k) s d = d
  effect (update k v) s d = write_value d s v
  effect (delete k) s d = write_key d s key.invalid

  abbrev pub note : Search K → Pair K → Thread K → Thread K
  note (get k) q th = record th { pc = idle; answers = q ∷ th.answers }
  note (update k v) q th = record th {
    pc = idle;
    replaced = q ∷ th.replaced;
    updated = record q { value = v } ∷ th.updated;
  }
  note (delete k) q th = record th { pc = idle; replaced = q ∷ th.replaced }

  pub data Step ⦃fl : FloatOps⦄ (s : System K) : System K → Type ℓ where
    call :
        (i : ℕ) {th : Thread K} {o : Call K} {os : List (Call K)}
        → get_elem? s.threads i ≡ some th
        → th.pc ≡ idle
        → th.todo ≡ o ∷ os
        → Step s (record s { threads = set s.threads i (record th { todo = os; pc = spinning o }) })
    run :
        (i : ℕ) {th : Thread K} {t : Table K} {q : Pc K}
        → get_elem? s.threads i ≡ some th
        → Move s.threads s.table th.pc t q
        → Step s (record { table = t; threads = set s.threads i (record th { pc = q }) })
    -- The write of a search, its return and the release of its lock.
    finish :
        (i : ℕ) {th : Thread K} {o : Search K} {q : Pair K} {n c : ℕ}
        → get_elem? s.threads i ≡ some th
        → th.pc ≡ hit o n c
        → get_elem? s.table.dict (slot s.table (sought o) n) ≡ some q
        → Step s (record {
          table = record s.table { dict = effect o (slot s.table (sought o) n) s.table.dict };
          threads = set s.threads i (note o q th);
        })

  abbrev pub begin : List (Call K) → Thread K
  begin os = record { todo = os; pc = idle; replaced = []; updated = []; answers = [] }

  abbrev pub begin_all : List (List (Call K)) → List (Thread K)
  begin_all [] = []
  begin_all (os ∷ jobs) = begin os ∷ begin_all jobs

  -- From the table `t`, with a list of calls for each thread.
  pub data Reach ⦃fl : FloatOps⦄ (t : Table K) (jobs : List (List (Call K)))
      : System K → Type ℓ where
    here : Reach t jobs (record { table = t; threads = begin_all jobs })
    next : {s s' : System K} → Reach t jobs s → Step s s' → Reach t jobs s'
