-- ===== src/Semaphore/Tests.antt =====
-- A run of two threads through the semaphore of `Directory` in index/extendible_hash.h.
use hash_bench.Common.{◌≡◌, refl, true, [], ◌∷◌}
use hash_bench.Common.Totals.{total}
use hash_bench.Common.Int.{pos, negsuc, is_negative}
use hash_bench.Semaphore.{
  idle, holding, exclusive, load_lock, lock_cas, load_unlock, unlock_cas, load_suspend, suspend_cas,
  wait_ends, System, run, Reach, here, next,
}
use hash_bench.Semaphore.Safety.{shares, owns, suspend_excludes, sema-shares}

abbrev locked : System
locked = record { sema = pos 1; threads = idle ∷ holding ∷ [] }

locked-Reach : Reach 2 locked
locked-Reach = next (next here (run 1 refl load_lock)) (run 1 refl (lock_cas refl refl))

abbrev suspended : System
suspended = record { sema = negsuc 1; threads = exclusive ∷ idle ∷ [] }

-- Thread 1 locks, thread 0 passes the CAS of `suspend` and waits until thread 1 has unlocked.
suspended-Reach : Reach 2 suspended
suspended-Reach =
    let r = next locked-Reach (run 0 refl load_suspend) in
    let r' = next r (run 0 refl (suspend_cas refl refl)) in
    let r'' = next r' (run 1 refl load_unlock) in
    let r''' = next r'' (run 1 refl (unlock_cas refl)) in next r''' (run 0 refl (wait_ends refl))

suspend_excludes_example :
    (total owns suspended.threads ≡ 1)
    × (total shares suspended.threads ≡ 0)
    × (is_negative suspended.sema ≡ true)
suspend_excludes_example = suspend_excludes 2 suspended suspended-Reach 0 refl

sema-shares_example : (total shares locked.threads ≡ 1) × (total owns locked.threads ≡ 0)
sema-shares_example = sema-shares 2 locked locked-Reach 1 refl
