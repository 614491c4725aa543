-- ===== src/Semaphore.antt =====
-- The semaphore of `Directory` in index/extendible_hash.h: `lock`, `unlock` and `suspend`, for any
-- number of threads. Each load and each compare-and-swap of `sema` is one atomic step, and the
-- steps of the threads are interleaved in any order.
pub mod Safety
mod Tests
use hash_bench.Common.{
  ℕ, zero, suc, ◌≡◌, ◌≢◌, Bool, true, false, Option, some, List, [], ◌∷◌, get_elem?, set,
}
use hash_bench.Common.Int.{ℤ, pos, negsuc, add_one, sub_one, is_negative, minus_minus_one}

-- Where a thread stands, with its local `val`.
pub data Pc : Type 0 where
  idle : Pc
  -- in `lock`, before its test of `val`
  locking : ℤ → Pc
  -- between a `lock` that has returned true and `unlock`
  holding : Pc
  -- in `unlock`, before the CAS
  unlocking : ℤ → Pc
  -- in `suspend`, before its test of `val`
  suspending : ℤ → Pc
  -- in the last loop of `suspend`
  waiting : ℤ → Pc
  -- `suspend` has returned true
  exclusive : Pc

-- After the CAS of `suspend`: the loop `while(val && sema != wait)` is not entered at 0.
abbrev pub after_cas : ℤ → Pc
after_cas (pos zero) = exclusive
after_cas v = waiting v

-- One step of one thread, from `sema` and its place to the new ones.
pub data Move : ℤ → Pc → ℤ → Pc → Type 0 where
  load_lock : {s : ℤ} → Move s idle s (locking s)
  lock_fails : {s v : ℤ} → is_negative v ≡ true → Move s (locking v) s idle
  lock_cas : {s v : ℤ} → is_negative v ≡ false → v ≡ s → Move s (locking v) (add_one v) holding
  lock_again : {s v : ℤ} → is_negative v ≡ false → v ≢ s → Move s (locking v) s (locking s)
  load_unlock : {s : ℤ} → Move s holding s (unlocking s)
  unlock_cas : {s v : ℤ} → v ≡ s → Move s (unlocking v) (sub_one v) idle
  unlock_again : {s v : ℤ} → v ≢ s → Move s (unlocking v) s (unlocking s)
  load_suspend : {s : ℤ} → Move s idle s (suspending s)
  suspend_fails : {s v : ℤ} → is_negative v ≡ true → Move s (suspending v) s idle
  suspend_cas :
      {s v : ℤ} → is_negative v ≡ false → v ≡ s → Move s (suspending v) (negsuc 0) (after_cas v)
  suspend_again : {s v : ℤ} → is_negative v ≡ false → v ≢ s → Move s (suspending v) s (suspending s)
  wait_more : {s v : ℤ} → s ≢ minus_minus_one v → Move s (waiting v) s (waiting v)
  wait_ends : {s v : ℤ} → s ≡ minus_minus_one v → Move s (waiting v) s exclusive

pub record System : Type 0 where
  pub sema : ℤ
  pub threads : List Pc

pub data Step (s : System) : System → Type 0 where
  run :
      (i : ℕ) {p q : Pc} {sema : ℤ}
      → get_elem? s.threads i ≡ some p
      → Move s.sema p sema q
      → Step s (record { sema = sema; threads = set s.threads i q })

abbrev pub all_idle : ℕ → List Pc
all_idle zero = []
all_idle (suc n) = idle ∷ all_idle n

-- The constructors of `Directory` set `sema` to 0.
abbrev pub start : ℕ → System
start n = record { sema = pos 0; threads = all_idle n }

pub data Reach (n : ℕ) : System → Type 0 where
  here : Reach n (start n)
  next : {s t : System} → Reach n s → Step s t → Reach n t
