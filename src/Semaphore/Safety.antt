-- ===== src/Semaphore/Safety.antt =====
-- What holds of `sema` and of the threads in every reachable state.
use hash_bench.Common.{
  ℕ, zero, suc, ◌+◌, ◌≤◌, ◌≡◌, ◌∙◌, refl, sym, true, false, some, List, get_elem?, set, arith,
  subst, ap, ℕ_discrete, get_elem?-set_self, get_elem?-set_ne, get_elem?_bound,
}
use hash_bench.Common.Totals.{total, total-set, total-at}
use hash_bench.Common.Int.{ℤ, pos, negsuc, add_one, sub_one, is_negative, minus_minus_one}
use hash_bench.Semaphore.{
  Pc, idle, locking, holding, unlocking, suspending, waiting, exclusive, after_cas, Move, load_lock,
  lock_fails, lock_cas, lock_again, load_unlock, unlock_cas, unlock_again, load_suspend,
  suspend_fails, suspend_cas, suspend_again, wait_more, wait_ends, System, run, all_idle, Reach,
  here, next,
}

-- 1 for a thread between a `lock` that succeeded and the CAS of its `unlock`
abbrev pub shares : Pc → ℕ
shares holding = 1
shares (unlocking v) = 1
shares _ = 0

-- 1 for a thread whose `suspend` has passed its CAS
abbrev pub owns : Pc → ℕ
owns (waiting v) = 1
owns exclusive = 1
owns _ = 0

total-idle : (w : Pc → ℕ) (n : ℕ) → w idle ≡ 0 → total w (all_idle n) ≡ 0
unfolding total
total-idle w zero h = refl
total-idle w (suc n) h = omega (arith, total-idle w n h)

-- What a thread past the CAS of `suspend` knows, at `sema` = -(m + 1) with `c` shares held.
abbrev Owner : ℕ → ℕ → Pc → Type 0
Owner m c (waiting v) = v ≡ pos (m + c)
Owner m c exclusive = c ≡ 0
Owner m c _ = Unit

-- A `sema` that is not negative counts the shares, and nobody owns; a negative one has one owner,
-- and counts the shares given back since.
abbrev Inv : ℤ → List Pc → Type 0
Inv (pos n) ps = (total owns ps ≡ 0) × (total shares ps ≡ n)
Inv (negsuc m) ps =
    (total owns ps ≡ 1) × ((i : ℕ) (p : Pc) → get_elem? ps i ≡ some p → Owner m (total shares ps) p)

Owner-not_owning : (m c : ℕ) (p : Pc) → owns p ≡ 0 → Owner m c p
Owner-not_owning m c idle e = tt
Owner-not_owning m c (locking v) e = tt
Owner-not_owning m c holding e = tt
Owner-not_owning m c (unlocking v) e = tt
Owner-not_owning m c (suspending v) e = tt
Owner-not_owning m c (waiting v) e = cc
Owner-not_owning m c exclusive e = cc

-- An unlock moves one from the shares to `sema`.
Owner-shift :
    (m c m' c' : ℕ) → m + c ≡ m' + c' → (c ≡ 0 → c' ≡ 0) → (p : Pc) → Owner m c p → Owner m' c' p
Owner-shift m c m' c' e z (waiting v) o = o ∙ ap pos e
Owner-shift m c m' c' e z exclusive o = z o
Owner-shift m c m' c' e z idle o = tt
Owner-shift m c m' c' e z (locking v) o = tt
Owner-shift m c m' c' e z holding o = tt
Owner-shift m c m' c' e z (unlocking v) o = tt
Owner-shift m c m' c' e z (suspending v) o = tt

shares-after_cas : (n : ℕ) → shares (after_cas (pos n)) ≡ 0
shares-after_cas zero = refl
shares-after_cas (suc n) = refl

owns-after_cas : (n : ℕ) → owns (after_cas (pos n)) ≡ 1
owns-after_cas zero = refl
owns-after_cas (suc n) = refl

Owner-after_cas : (n : ℕ) → Owner 0 n (after_cas (pos n))
Owner-after_cas zero = refl
Owner-after_cas (suc n) = ap pos (omega arith)

-- The owners after one thread has moved
owners-set :
    (m c : ℕ) (ps : List Pc) (i : ℕ) (p q : Pc)
    → get_elem? ps i ≡ some p
    → Owner m c q
    → ((j : ℕ) (r : Pc) → get_elem? ps j ≡ some r → Owner m c r)
    → (j : ℕ) (r : Pc) → get_elem? (set ps i q) j ≡ some r
    → Owner m c r
owners-set m c ps i p q at o os j r e =
    let self : get_elem? (set ps i q) i ≡ some q =
      get_elem?-set_self ps i q (get_elem?_bound ps i at) in
    elim (ℕ_discrete i j) [
      | yes h ↦ let same : q ≡ r = cc in subst (Owner m c) same o
      | no h ↦ os j r (sym (get_elem?-set_ne ps q h) ∙ e)
    ]

-- The counts after one thread has moved
module _ (ps : List Pc) (i : ℕ) (p q : Pc) (at : get_elem? ps i ≡ some p) where
  -- A move that leaves `sema`, the shares and the owners as they are
  still :
      (s : ℤ)
      → shares p ≡ shares q
      → owns p ≡ owns q
      → ((m c : ℕ) → s ≡ negsuc m → Owner m c p → Owner m c q)
      → Inv s ps
      → Inv s (set ps i q)
  still (pos n) es eo k (a, b) =
      (omega (arith, total-set owns ps i p q at), omega (arith, total-set shares ps i p q at))
  still (negsuc m) es eo k (a, os) =
      let c : total shares (set ps i q) ≡ total shares ps =
        omega (arith, total-set shares ps i p q at) in
      (
        omega (arith, total-set owns ps i p q at),
        λ j r e.
            subst (λ x. Owner m x r) (sym c)
              (owners-set m (total shares ps) ps i p q at (k m (total shares ps) refl (os i p at))
                os j r e),
      )

  -- A move that takes a share
  takes :
      (n : ℕ)
      → shares p ≡ 0
      → shares q ≡ 1
      → owns p ≡ owns q
      → Inv (pos n) ps
      → Inv (pos (suc n)) (set ps i q)
  takes n ep eq eo (a, b) =
      (omega (arith, total-set owns ps i p q at), omega (arith, total-set shares ps i p q at))

  -- A move that gives a share back
  gives :
      (s : ℤ)
      → shares p ≡ 1
      → shares q ≡ 0
      → owns p ≡ 0
      → owns q ≡ 0
      → Inv s ps
      → Inv (sub_one s) (set ps i q)
  gives (pos zero) ep eq op oq (a, b) =
      let bad : 1 ≤ 0 = omega (arith, total-at shares ps i p at) in elim bad [ ]
  gives (pos (suc n)) ep eq op oq (a, b) =
      (omega (arith, total-set owns ps i p q at), omega (arith, total-set shares ps i p q at))
  gives (negsuc m) ep eq op oq (a, os) =
      let c = total shares ps in
      let c' = total shares (set ps i q) in
      let e : c' + 1 ≡ c = omega (arith, total-set shares ps i p q at) in
      let sum : m + c ≡ suc m + c' = omega arith in
      let low : c ≡ 0 → c' ≡ 0 = λ z. omega arith in
      (
        omega (arith, total-set owns ps i p q at),
        owners-set (suc m) c' ps i p q at (Owner-not_owning (suc m) c' q oq)
            (λ j r h. Owner-shift m c (suc m) c' sum low r (os j r h)),
      )

  -- The CAS of `suspend`
  suspends :
      (n : ℕ)
      → shares p ≡ 0
      → owns p ≡ 0
      → q ≡ after_cas (pos n)
      → Inv (pos n) ps
      → Inv (negsuc 0) (set ps i q)
  suspends n ep op eq (a, b) =
      let c' = total shares (set ps i q) in
      let same : shares q ≡ 0 = subst (λ x. shares x ≡ 0) (sym eq) (shares-after_cas n) in
      let one : owns q ≡ 1 = subst (λ x. owns x ≡ 1) (sym eq) (owns-after_cas n) in
      let e : n ≡ c' = omega (arith, total-set shares ps i p q at) in
      let o : Owner 0 c' q =
        subst (λ x. Owner 0 x q) e (subst (Owner 0 n) (sym eq) (Owner-after_cas n)) in
      (
        omega (arith, total-set owns ps i p q at),
        owners-set 0 c' ps i p q at o
            (λ j r h. Owner-not_owning 0 c' r (omega (arith, total-at owns ps j r h))),
      )

lock_cas-Inv :
    (ps : List Pc) (i : ℕ) (v : ℤ)
    → get_elem? ps i ≡ some (locking v)
    → is_negative v ≡ false
    → Inv v ps
    → Inv (add_one v) (set ps i holding)
lock_cas-Inv ps i (pos n) at h inv = takes ps i (locking (pos n)) holding at n refl refl refl inv
lock_cas-Inv ps i (negsuc n) at h inv = cc

suspend_cas-Inv :
    (ps : List Pc) (i : ℕ) (v : ℤ)
    → get_elem? ps i ≡ some (suspending v)
    → is_negative v ≡ false
    → Inv v ps
    → Inv (negsuc 0) (set ps i (after_cas v))
suspend_cas-Inv ps i (pos n) at h inv =
    suspends ps i (suspending (pos n)) (after_cas (pos n)) at n refl refl refl inv
suspend_cas-Inv ps i (negsuc n) at h inv = cc

negsuc_value : ℤ → ℕ
negsuc_value (pos n) = 0
negsuc_value (negsuc n) = n

waited : (m c : ℕ) → negsuc m ≡ negsuc (m + c) → c ≡ 0
unfolding negsuc_value
waited m c e = let same : m ≡ m + c = ap negsuc_value e in omega arith

-- Every move of every thread keeps the invariant.
Move-Inv :
    (s s' : ℤ) (ps : List Pc) (i : ℕ) (p q : Pc)
    → get_elem? ps i ≡ some p
    → Move s p s' q
    → Inv s ps
    → Inv s' (set ps i q)
Move-Inv s _ ps i _ _ at load_lock = still ps i idle (locking s) at s refl refl (λ m c h o. o)
Move-Inv s _ ps i _ _ at (lock_fails {v = v} n) =
    still ps i (locking v) idle at s refl refl (λ m c h o. o)
Move-Inv s _ ps i _ _ at (lock_again {v = v} n d) =
    still ps i (locking v) (locking s) at s refl refl (λ m c h o. o)
Move-Inv s _ ps i _ _ at load_unlock =
    still ps i holding (unlocking s) at s refl refl (λ m c h o. o)
Move-Inv s _ ps i _ _ at (unlock_again {v = v} d) =
    still ps i (unlocking v) (unlocking s) at s refl refl (λ m c h o. o)
Move-Inv s _ ps i _ _ at load_suspend = still ps i idle (suspending s) at s refl refl (λ m c h o. o)
Move-Inv s _ ps i _ _ at (suspend_fails {v = v} n) =
    still ps i (suspending v) idle at s refl refl (λ m c h o. o)
Move-Inv s _ ps i _ _ at (suspend_again {v = v} n d) =
    still ps i (suspending v) (suspending s) at s refl refl (λ m c h o. o)
Move-Inv s _ ps i _ _ at (wait_more {v = v} d) =
    still ps i (waiting v) (waiting v) at s refl refl (λ m c h o. o)
Move-Inv (pos n) _ ps i _ _ at (wait_ends {v = v} e) =
    λ (a, b). let bad : 1 ≤ 0 = omega (arith, total-at owns ps i (waiting v) at) in elim bad [ ]
Move-Inv (negsuc m) _ ps i _ _ at (wait_ends {v = v} e) =
    still ps i (waiting v) exclusive at (negsuc m) refl refl
      (λ m' c h o. waited m' c (sym h ∙ e ∙ ap minus_minus_one o))
Move-Inv s _ ps i _ _ at (lock_cas {v = v} h e) =
    λ inv. lock_cas-Inv ps i v at h (subst (λ x. Inv x ps) (sym e) inv)
Move-Inv s _ ps i _ _ at (unlock_cas {v = v} e) = λ inv.
    gives ps i (unlocking v) idle at v refl refl refl refl (subst (λ x. Inv x ps) (sym e) inv)
Move-Inv s _ ps i _ _ at (suspend_cas {v = v} h e) =
    λ inv. suspend_cas-Inv ps i v at h (subst (λ x. Inv x ps) (sym e) inv)

Reach-Inv : (n : ℕ) (s : System) → Reach n s → Inv s.sema s.threads
Reach-Inv n _ here = (total-idle owns n refl, total-idle shares n refl)
Reach-Inv n _ (next {s = s} r (run i {p = p} {q = q} {sema = sema} at m)) =
    Move-Inv s.sema sema s.threads i p q at m (Reach-Inv n s r)

-- In every state that any number `n` of threads can reach from the start, a thread whose
-- `suspend` has returned true is the only one whose `suspend` has passed its CAS, no thread is
-- between a `lock` that returned true and the CAS of its `unlock`, and `sema` is negative.
pub suspend_excludes :
    (n : ℕ) (s : System)
    → Reach n s
    → (i : ℕ) → get_elem? s.threads i ≡ some exclusive
    → (total owns s.threads ≡ 1) × (total shares s.threads ≡ 0) × (is_negative s.sema ≡ true)
suspend_excludes n s r i at = excludes s.sema (Reach-Inv n s r)
  where
    excludes :
        (v : ℤ)
        → Inv v s.threads
        → (total owns s.threads ≡ 1) × (total shares s.threads ≡ 0) × (is_negative v ≡ true)
    excludes (pos k) (a, b) =
        let bad : 1 ≤ 0 = omega (arith, total-at owns s.threads i exclusive at) in elim bad [ ]
    excludes (negsuc m) (a, os) = (a, os i exclusive at, refl)

-- In every reachable state with `sema` not negative, `sema` is the number of threads between a
-- `lock` that returned true and the CAS of its `unlock`.
pub sema-shares :
    (n : ℕ) (s : System)
    → Reach n s
    → (v : ℕ) → s.sema ≡ pos v
    → (total shares s.threads ≡ v) × (total owns s.threads ≡ 0)
sema-shares n s r v e =
    let inv : Inv (pos v) s.threads = subst (λ x. Inv x s.threads) e (Reach-Inv n s r) in
    (inv.1, inv.0)
