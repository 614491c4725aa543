-- ===== src/Linear/Threads/Progress.antt =====
-- Whether the threads of index/linear_probing.h can go on.
use native.Mathlib.Nat.{mod-lt}
use mathlib.Core.Option.{some-injective}
use hash_bench.Common.{
  ℕ, zero, suc, ◌+◌, ◌%◌, ◌<◌, ◌≡◌, ◌≢◌, ◌⊎◌, ◌∙◌, inl, inr, refl, sym, subst, Bool, true, false,
  some, List, [], ◌∷◌, arith, length, get_elem?, get_elem?_total, ℕ_discrete, dec_lt, Bool-cases,
}
use hash_bench.Common.Totals.{total, total-zero}
use hash_bench.Key.{Key}
use hash_bench.Dict.{Pair}
use hash_bench.Probe.{has}
use hash_bench.Float.{FloatOps}
use hash_bench.Linear.{Table, below_threshold}
use hash_bench.Linear.Threads.{
  Search, get, update, delete, Call, Pc, idle, spinning, measuring, locking, probing, vacant, keyed,
  stored, counting, leaving, resizing, seeking, reading, hit, Thread, exclusive, shared, is_at,
  writers, readers, Grants, Free, sought, slot, stripe, Move, pass, below, take_resize, round_over,
  lock_stripe, empty, go_on, next_stripe, no_slot, copy_key, copy_value, load_size, cas_size,
  cas_again, leave, not_found, lock_slot, differs, matches, System, Step, call, run, finish, Reach,
}
use hash_bench.Linear.Threads.Sizes.{resizes, IsSized, Reach-IsSized}
use hash_bench.Linear.Threads.Load.{IsDone}

module _ {ℓ} {K : Type ℓ} where
  abbrev resting : List (Call K) → Pc K → Bool
  resting [] idle = true
  resting _ _ = false

  -- A sum that is not 0 has a part that is not 0.
  total-some :
      (w : Thread K → ℕ) (ths : List (Thread K))
      → total w ths ≢ 0
      → (i : ℕ) × (th : Thread K) × (get_elem? ths i ≡ some th) × (w th ≢ 0)
  unfolding total
  total-some w [] ne = absurd (ne refl)
  total-some w (th ∷ ths) ne = elim (ℕ_discrete (w th) 0) [
    | no weighs ↦ (0, th, refl, weighs)
    | yes z ↦ let (i, x, at, n) = total-some w ths (λ e. ne (omega arith)) in (suc i, x, at, n)
  ]

  -- All threads are done, or one is not.
  IsDone-or :
      (ths : List (Thread K))
      → IsDone ths
        ⊎ ((i : ℕ) × (th : Thread K) × (get_elem? ths i ≡ some th)
            × (resting th.todo th.pc ≡ false))
  unfolding IsDone
  IsDone-or [] = inl (λ i th e. cc)
  IsDone-or (th ∷ ths) = elim (Bool-cases (resting th.todo th.pc)) [
    | inr busy ↦ inr (0, th, refl, busy)
    | inl over ↦ elim (IsDone-or ths) [
      | inr (i, x, at, busy) ↦ inr (suc i, x, at, busy)
      | inl rest ↦ inl (done_cons th ths (rests th.todo th.pc over) rest)
    ]
  ]
    where
      rests : (os : List (Call K)) (p : Pc K) → resting os p ≡ true → (os ≡ []) × (p ≡ idle)
      rests [] idle e = (refl, refl)
      rests [] (spinning o) e = cc
      rests [] (measuring p) e = cc
      rests [] (locking p i) e = cc
      rests [] (probing p i c) e = cc
      rests [] (vacant p i c) e = cc
      rests [] (keyed p i c u) e = cc
      rests [] (stored p c) e = cc
      rests [] (counting p c m) e = cc
      rests [] (leaving c) e = cc
      rests [] (resizing p) e = cc
      rests [] (seeking o i) e = cc
      rests [] (reading o i c) e = cc
      rests [] (hit o i c) e = cc
      rests (o ∷ os) p e = cc

      done_cons :
          (x : Thread K) (xs : List (Thread K))
          → (x.todo ≡ []) × (x.pc ≡ idle)
          → IsDone xs
          → IsDone (x ∷ xs)
      done_cons x xs h rest zero y e =
          subst (λ (z : Thread K). (z.todo ≡ []) × (z.pc ≡ idle)) (some-injective x y e) h
      done_cons x xs h rest (suc i) y e = rest i y e

module _ {ℓ} {K : Type ℓ} ⦃key : Key K⦄ ⦃fl : FloatOps⦄ where
  module _ (s : System K) (z : IsSized s) (clear : s.table.resizing_lock ≡ 0) where
    -- A step of some thread
    abbrev Moves : Type ℓ
    Moves = (s' : System K) × Step s s'

    entry : (k : K) (i : ℕ) → (q : Pair K) × (get_elem? s.table.dict (slot s.table k i) ≡ some q)
    entry k i =
        let low : slot s.table k i < s.table.capacity = mod-lt _ z.nonempty in
        get_elem?_total s.table.dict (slot s.table k i) (omega (arith, z.width))

    moves :
        (i : ℕ) (th : Thread K) (p : Pc K) {t : Table K} {q : Pc K}
        → get_elem? s.threads i ≡ some th
        → th.pc ≡ p
        → Move s.threads s.table p t q
        → Moves
    moves i th p {t} {q} at e m =
        (_, run i at (subst (λ x. Move s.threads s.table x t q) (sym e) m))

    -- A thread in `Insert` that holds a stripe goes on.
    probe_moves :
        (i : ℕ) (th : Thread K) (p : Pair K) (n c : ℕ)
        → get_elem? s.threads i ≡ some th
        → th.pc ≡ probing p n c
        → Moves
    probe_moves i th p n c at e =
        let (q, r) = entry p.key n in
        elim (Bool-cases (has key.invalid q)) [
          | inl free ↦ moves i th (probing p n c) at e (empty r free)
          | inr taken ↦ elim (dec_lt (n + 1) s.table.capacity) [
            | no last ↦ moves i th (probing p n c) at e (no_slot r taken (omega arith))
            | yes more ↦ elim (ℕ_discrete (slot s.table p.key (n + 1) % s.table.locksize) 0) [
              | yes first ↦ moves i th (probing p n c) at e (next_stripe r taken more first)
              | no inner ↦ moves i th (probing p n c) at e (go_on r taken more inner)
            ]
          ]
        ]

    read_moves :
        (i : ℕ) (th : Thread K) (o : Search K) (n c : ℕ)
        → get_elem? s.threads i ≡ some th
        → th.pc ≡ reading o n c
        → Moves
    read_moves i th o n c at e =
        let (q, r) = entry (sought o) n in
        elim (Bool-cases (has (sought o) q)) [
          | inl same ↦ moves i th (reading o n c) at e (matches r same)
          | inr other ↦ moves i th (reading o n c) at e (differs r other)
        ]

    hit_moves :
        (i : ℕ) (th : Thread K) (o : Search K) (n c : ℕ)
        → get_elem? s.threads i ≡ some th
        → th.pc ≡ hit o n c
        → Moves
    hit_moves i th o n c at e = let (q, r) = entry (sought o) n in (_, finish i at e r)

    count_moves :
        (i : ℕ) (th : Thread K) (p : Pair K) (c n : ℕ)
        → get_elem? s.threads i ≡ some th
        → th.pc ≡ counting p c n
        → Moves
    count_moves i th p c n at e = elim (ℕ_discrete n s.table.size) [
      | yes same ↦ moves i th (counting p c n) at e (cas_size same)
      | no stale ↦ moves i th (counting p c n) at e (cas_again stale)
    ]

    -- A thread that holds a stripe, by either lock, waits for nobody.
    holder_moves :
        (i : ℕ) (th : Thread K) (p : Pc K)
        → get_elem? s.threads i ≡ some th
        → th.pc ≡ p
        → (d : ℕ) → is_at d (exclusive p) + is_at d (shared p) ≢ 0
        → Moves
    holder_moves i th (probing p n c) at e d ne = probe_moves i th p n c at e
    holder_moves i th (vacant p n c) at e d ne =
        moves i th (vacant p n c) at e (copy_key (entry p.key n).1)
    holder_moves i th (keyed p n c u) at e d ne = moves i th (keyed p n c u) at e copy_value
    holder_moves i th (stored p c) at e d ne = moves i th (stored p c) at e load_size
    holder_moves i th (counting p c n) at e d ne = count_moves i th p c n at e
    holder_moves i th (leaving c) at e d ne = moves i th (leaving c) at e leave
    holder_moves i th (reading o n c) at e d ne = read_moves i th o n c at e
    holder_moves i th (hit o n c) at e d ne = hit_moves i th o n c at e
    holder_moves i th idle at e d ne = absurd (ne refl)
    holder_moves i th (spinning o) at e d ne = absurd (ne refl)
    holder_moves i th (measuring p) at e d ne = absurd (ne refl)
    holder_moves i th (locking p n) at e d ne = absurd (ne refl)
    holder_moves i th (resizing p) at e d ne = absurd (ne refl)
    holder_moves i th (seeking o n) at e d ne = absurd (ne refl)

    -- Where a stripe is held, its holder can go on.
    Free-or : (d : ℕ) → Free d s.threads ⊎ Moves
    Free-or d = elim (ℕ_discrete (writers d s.threads) 0) [
      | no held ↦
          let (i, th, at, n) = total-some (λ x. is_at d (exclusive x.pc)) s.threads held in
          inr (holder_moves i th th.pc at refl d (λ e. n (omega arith)))
      | yes a ↦ elim (ℕ_discrete (readers d s.threads) 0) [
        | no held ↦
            let (i, th, at, n) = total-some (λ x. is_at d (shared x.pc)) s.threads held in
            inr (holder_moves i th th.pc at refl d (λ e. n (omega arith)))
        | yes b ↦ inl (a, b)
      ]
    ]

    Grants-or : (o : Search K) (d : ℕ) → Grants o d s.threads ⊎ Moves
    Grants-or (get k) d = elim (Free-or d) [ inl f ↦ inl f.0 | inr m ↦ inr m ]
    Grants-or (update k v) d = Free-or d
    Grants-or (delete k) d = Free-or d

    lock_moves :
        (i : ℕ) (th : Thread K) (p : Pair K) (n : ℕ)
        → get_elem? s.threads i ≡ some th
        → th.pc ≡ locking p n
        → Moves
    lock_moves i th p n at e = elim (dec_lt n s.table.capacity) [
      | no last ↦ moves i th (locking p n) at e (round_over (omega arith))
      | yes more ↦ elim (Free-or (stripe s.table p.key n)) [
        | inl free ↦ moves i th (locking p n) at e (lock_stripe more free)
        | inr m ↦ m
      ]
    ]

    seek_moves :
        (i : ℕ) (th : Thread K) (o : Search K) (n : ℕ)
        → get_elem? s.threads i ≡ some th
        → th.pc ≡ seeking o n
        → Moves
    seek_moves i th o n at e = elim (dec_lt n s.table.capacity) [
      | no last ↦ moves i th (seeking o n) at e (not_found (omega arith))
      | yes more ↦ elim (Grants-or o (stripe s.table (sought o) n)) [
        | inl free ↦ moves i th (seeking o n) at e (lock_slot more free)
        | inr m ↦ m
      ]
    ]

    measure_moves :
        (i : ℕ) (th : Thread K) (p : Pair K)
        → get_elem? s.threads i ≡ some th
        → th.pc ≡ measuring p
        → Moves
    measure_moves i th p at e = elim (Bool-cases (below_threshold s.table)) [
      | inl room ↦ moves i th (measuring p) at e (below room)
      | inr full ↦ moves i th (measuring p) at e (take_resize full clear)
    ]

    -- A thread with a call to make or to finish, that has not begun a resize
    busy_moves :
        (i : ℕ) (th : Thread K) (p : Pc K) (os : List (Call K))
        → get_elem? s.threads i ≡ some th
        → th.pc ≡ p
        → th.todo ≡ os
        → resting os p ≡ false
        → resizes p ≡ 0
        → Moves
    busy_moves i th idle [] at e e' busy no_resize = cc
    busy_moves i th idle (o ∷ os) at e e' busy no_resize = (_, call i at e e')
    busy_moves i th (spinning o) os at e e' busy no_resize =
        moves i th (spinning o) at e (pass clear)
    busy_moves i th (measuring p) os at e e' busy no_resize = measure_moves i th p at e
    busy_moves i th (locking p n) os at e e' busy no_resize = lock_moves i th p n at e
    busy_moves i th (probing p n c) os at e e' busy no_resize = probe_moves i th p n c at e
    busy_moves i th (vacant p n c) os at e e' busy no_resize =
        moves i th (vacant p n c) at e (copy_key (entry p.key n).1)
    busy_moves i th (keyed p n c u) os at e e' busy no_resize =
        moves i th (keyed p n c u) at e copy_value
    busy_moves i th (stored p c) os at e e' busy no_resize = moves i th (stored p c) at e load_size
    busy_moves i th (counting p c n) os at e e' busy no_resize = count_moves i th p c n at e
    busy_moves i th (leaving c) os at e e' busy no_resize = moves i th (leaving c) at e leave
    busy_moves i th (resizing p) os at e e' busy no_resize = cc
    busy_moves i th (seeking o n) os at e e' busy no_resize = seek_moves i th o n at e
    busy_moves i th (reading o n c) os at e e' busy no_resize = read_moves i th o n c at e
    busy_moves i th (hit o n c) os at e e' busy no_resize = hit_moves i th o n c at e

  -- No deadlock: from a table with stripes whose array fills its capacity, which is not 0, with
  -- `resizing_lock` clear, in every state that threads reach in which none has begun a resize,
  -- `resizing_lock` is clear, and all threads are done or one of them can make a step; with
  -- `resizing_lock` clear that step is no round of `while(resizing_lock)`.
  pub progress :
      (t : Table K) (jobs : List (List (Call K))) (s : System K)
      → 0 < t.locksize
      → 0 < t.capacity
      → length t.dict ≡ t.capacity
      → t.resizing_lock ≡ 0
      → Reach t jobs s
      → ((i : ℕ) (th : Thread K) → get_elem? s.threads i ≡ some th → resizes th.pc ≡ 0)
      → (s.table.resizing_lock ≡ 0) × (IsDone s.threads ⊎ ((s' : System K) × Step s s'))
  progress t jobs s pos some_room width unlocked r no_resize =
      let z = Reach-IsSized t jobs s pos some_room width unlocked r in
      let clear : s.table.resizing_lock ≡ 0 =
        z.locked ∙ total-zero (λ th. resizes th.pc) s.threads no_resize in
      (
        clear,
        elim (IsDone-or s.threads) [
          | inl done ↦ inl done
          | inr (i, th, at, busy) ↦
              inr (busy_moves s z clear i th th.pc th.todo at refl refl busy (no_resize i th at))
        ],
      )
