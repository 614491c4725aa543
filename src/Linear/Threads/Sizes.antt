-- ===== src/Linear/Threads/Sizes.antt =====
-- The width of the array and `resizing_lock` of index/linear_probing.h while threads run.
use hash_bench.Common.{
  ℕ, ◌+◌, ◌<◌, ◌≡◌, ◌∙◌, inl, inr, refl, sym, ap, List, arith, length, length-set, get_elem?,
  Option-cases,
}
use hash_bench.Common.Totals.{total, total-set, total-zero}
use hash_bench.Key.{Key}
use hash_bench.Dict.{Pair, write_key, write_value}
use hash_bench.Float.{FloatOps}
use hash_bench.Linear.{Table}
use hash_bench.Linear.Threads.{
  Search, get, update, delete, Call, insert, search, Pc, spinning, resizing, Thread, sought, slot,
  Move, spin, pass, below, take_resize, miss_resize, round_over, lock_stripe, empty, go_on,
  next_stripe, no_slot, copy_key, copy_value, load_size, cas_size, cas_again, leave, not_found,
  lock_slot, differs, matches, effect, note, System, Step, call, run, finish, Reach, here, next,
  begin_all,
}
use hash_bench.Linear.Threads.Slots.{Writes, nothing, at_slot, Move-Writes}
use hash_bench.Linear.Threads.Invariant.{Invariant, Reach-Invariant, note-idle, begin_all-idle}

module _ {ℓ} {K : Type ℓ} where
  abbrev pub resizes : Pc K → ℕ
  resizes (resizing p) = 1
  resizes _ = 0

module _ {ℓ} {K : Type ℓ} ⦃key : Key K⦄ ⦃fl : FloatOps⦄ where
  -- The array fills the capacity, which is not 0, and the lock counts who holds it.
  pub record IsSized (s : System K) : Type 0 where
    pub width : length s.table.dict ≡ s.table.capacity
    pub nonempty : 0 < s.table.capacity
    pub locked : s.table.resizing_lock ≡ total (λ th. resizes th.pc) s.threads

  Move-locked :
      {ths : List (Thread K)} {t t' : Table K} {p q : Pc K}
      → Move ths t p t' q
      → t'.resizing_lock + resizes p ≡ t.resizing_lock + resizes q
  Move-locked (spin d) = refl
  Move-locked (pass {o = insert p} d) = refl
  Move-locked (pass {o = search o} d) = refl
  Move-locked (below d) = refl
  Move-locked (take_resize d e) = omega arith
  Move-locked (miss_resize d e) = refl
  Move-locked (round_over d) = refl
  Move-locked (lock_stripe d x) = refl
  Move-locked (empty d e) = refl
  Move-locked (go_on d e x g) = refl
  Move-locked (next_stripe d e x g) = refl
  Move-locked (no_slot d e x) = refl
  Move-locked (copy_key d) = refl
  Move-locked copy_value = refl
  Move-locked load_size = refl
  Move-locked (cas_size d) = refl
  Move-locked (cas_again d) = refl
  Move-locked leave = refl
  Move-locked (not_found d) = refl
  Move-locked (lock_slot d g) = refl
  Move-locked (differs d e) = refl
  Move-locked (matches d e) = refl

  Move-capacity :
      {ths : List (Thread K)} {t t' : Table K} {p q : Pc K}
      → Move ths t p t' q
      → t'.capacity ≡ t.capacity
  Move-capacity (spin d) = refl
  Move-capacity (pass d) = refl
  Move-capacity (below d) = refl
  Move-capacity (take_resize d e) = refl
  Move-capacity (miss_resize d e) = refl
  Move-capacity (round_over d) = refl
  Move-capacity (lock_stripe d x) = refl
  Move-capacity (empty d e) = refl
  Move-capacity (go_on d e x g) = refl
  Move-capacity (next_stripe d e x g) = refl
  Move-capacity (no_slot d e x) = refl
  Move-capacity (copy_key d) = refl
  Move-capacity copy_value = refl
  Move-capacity load_size = refl
  Move-capacity (cas_size d) = refl
  Move-capacity (cas_again d) = refl
  Move-capacity leave = refl
  Move-capacity (not_found d) = refl
  Move-capacity (lock_slot d g) = refl
  Move-capacity (differs d e) = refl
  Move-capacity (matches d e) = refl

  length-Writes :
      (sl : K → ℕ → ℕ) (ls : ℕ) (p : Pc K) (d d' : List (Pair K))
      → Writes sl ls p d d'
      → length d' ≡ length d
  length-Writes sl ls p d _ nothing = refl
  length-Writes sl ls p d _ (at_slot s {q = q} r own at) = length-set d s r

  length-write_key : (d : List (Pair K)) (s : ℕ) (k : K) → length (write_key d s k) ≡ length d
  unfolding write_key
  length-write_key d s k = elim (Option-cases (get_elem? d s)) [
    | inl e ↦ rw (write_key, e) refl
    | inr (q, e) ↦ rw (write_key, e) (length-set d s (record q { key = k }))
  ]

  length-write_value : (d : List (Pair K)) (s v : ℕ) → length (write_value d s v) ≡ length d
  unfolding write_value
  length-write_value d s v = elim (Option-cases (get_elem? d s)) [
    | inl e ↦ rw (write_value, e) refl
    | inr (q, e) ↦ rw (write_value, e) (length-set d s (record q { value = v }))
  ]

  length-effect : (o : Search K) (s : ℕ) (d : List (Pair K)) → length (effect o s d) ≡ length d
  length-effect (get k) s d = refl
  length-effect (update k v) s d = length-write_value d s v
  length-effect (delete k) s d = length-write_key d s key.invalid

  Step-IsSized : {s s' : System K} → Invariant s → Step s s' → IsSized s → IsSized s'
  Step-IsSized {s} inv (call i {th = th} {o = o} {os = os} at e e') z =
      let before : resizes th.pc ≡ 0 = ap resizes e in
      let sum =
        total-set (λ x. resizes x.pc) s.threads i th (record th { todo = os; pc = spinning o })
          at in
      record { width = z.width; nonempty = z.nonempty; locked = omega (arith, z.locked) }
  Step-IsSized {s} inv (run i {th = th} {t = t} {q = q} at m) z =
      let same = Move-capacity m in
      let writes = Move-Writes m (inv.held i th at) (inv.seen i th at) in
      let kept = length-Writes _ _ _ _ _ writes in
      let lock = Move-locked m in
      let sum = total-set (λ x. resizes x.pc) s.threads i th (record th { pc = q }) at in
      record {
        width = kept ∙ z.width ∙ sym same;
        nonempty = omega (arith, z.nonempty);
        locked = omega (arith, z.locked);
      }
  Step-IsSized {s} inv (finish i {th = th} {o = o} {q = q} {n = n} at e r) z =
      let before : resizes th.pc ≡ 0 = ap resizes e in
      let after : resizes (note o q th).pc ≡ 0 = ap resizes (note-idle o q th) in
      let sum = total-set (λ x. resizes x.pc) s.threads i th (note o q th) at in
      record {
        width = length-effect o (slot s.table (sought o) n) s.table.dict ∙ z.width;
        nonempty = z.nonempty;
        locked = omega (arith, z.locked);
      }

  pub Reach-IsSized :
      (t : Table K) (jobs : List (List (Call K))) (s : System K)
      → 0 < t.locksize
      → 0 < t.capacity
      → length t.dict ≡ t.capacity
      → t.resizing_lock ≡ 0
      → Reach t jobs s
      → IsSized s
  Reach-IsSized t jobs _ pos some_room width unlocked here = record {
    width = width;
    nonempty = some_room;
    locked =
        unlocked
        ∙ sym (
            total-zero (λ x. resizes x.pc) (begin_all jobs)
              (λ i x e. ap resizes (begin_all-idle jobs i x e)));
  }
  Reach-IsSized t jobs _ pos some_room width unlocked (next {s = s} r st) =
      Step-IsSized (Reach-Invariant t jobs s pos r) st
        (Reach-IsSized t jobs s pos some_room width unlocked r)
