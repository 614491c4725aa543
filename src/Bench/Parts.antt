-- ===== src/Bench/Parts.antt =====
-- The parts of the array that the threads of bench/benchmark.hpp work on.
use native.Mathlib.Nat.{div-mul-le_self, mul-le-mul_left}
use hash_bench.Common.{
  ℕ, zero, suc, ◌+◌, ◌*◌, ◌/◌, ◌%◌, ◌≤◌, ◌<◌, ◌≡◌, ◌∙◌, refl, ap, inl, inr, some, List, [], ◌∷◌,
  ◌++◌, arith, length, take, drop, length-take, length-drop, drop-drop, length-append, subst, ltb,
  Bool-cases,
}
use hash_bench.Common.Totals.{total}
use hash_bench.Dict.{Pair}
use hash_bench.Linear.Threads.{Search, Call}
use hash_bench.Linear.Threads.Balance.{given}
use hash_bench.Bench.{
  inserts_of, latency_func, latency_threads, window, searches_of, chosen, mixed_loop, mixed_func,
}

module _ {ℓ} {A : Type ℓ} where
  ones : (xs : List A) → total (λ x. 1) xs ≡ length xs
  unfolding total
  ones [] = refl
  ones (x ∷ xs) = omega (arith, ones xs)

module _ {ℓ} {A : Type ℓ} (w : A → ℕ) where
  pub total-append : (xs ys : List A) → total w (xs ++ ys) ≡ total w xs + total w ys
  unfolding total
  total-append [] ys = omega arith
  total-append (x ∷ xs) ys = omega (arith, total-append xs ys)

  pub total-split : (n : ℕ) (xs : List A) → total w (take n xs) + total w (drop n xs) ≡ total w xs
  unfolding total
  total-split zero xs = omega arith
  total-split (suc n) [] = refl
  total-split (suc n) (x ∷ xs) = omega (arith, total-split n xs)

  zero_of : (n : ℕ) → 0 ≡ total w (take n [])
  unfolding total
  zero_of zero = refl
  zero_of (suc n) = refl

  -- Two parts that follow each other
  pub total-take_add :
      (m n : ℕ) (xs : List A)
      → total w (take (m + n) xs) ≡ total w (take m xs) + total w (take n (drop m xs))
  unfolding total
  total-take_add zero n xs =
      let same : 0 + n ≡ n = omega arith in
      let part = ap (λ x. total w (take x xs)) same in omega arith
  total-take_add (suc m) n [] = omega (arith, zero_of (suc m + n), zero_of n)
  total-take_add (suc m) n (x ∷ xs) =
      let same : suc m + n ≡ suc (m + n) = omega arith in
      let part = ap (λ y. total w (take y (x ∷ xs))) same in omega (arith, total-take_add m n xs)

module _ {ℓ} {K : Type ℓ} (f : Pair K → ℕ) where
  pub total-inserts_of : (ps : List (Pair K)) → total (given f) (inserts_of ps) ≡ total f ps
  unfolding total
  total-inserts_of [] = refl
  total-inserts_of (p ∷ ps) = omega (arith, total-inserts_of ps)

  pub total-searches_of :
      (o : Pair K → Search K) (ps : List (Pair K)) → total (given f) (searches_of o ps) ≡ 0
  unfolding total
  total-searches_of o [] = refl
  total-searches_of o (p ∷ ps) = omega (arith, total-searches_of o ps)

  total-none : (xs : List (Pair K)) → total f (take 0 xs) ≡ 0
  unfolding total
  total-none xs = refl

  -- The threads of `latency` from the first on insert the first parts of the array.
  total-latency_threads :
      (num_threads : ℕ) (kv : List (Pair K)) (n i : ℕ)
      → total f (take (length kv / num_threads * i) kv)
          + total (total (given f)) (latency_threads num_threads kv n i)
        ≡ total f (take (length kv / num_threads * (i + n)) kv)
  unfolding latency_threads latency_func total
  total-latency_threads num_threads kv zero i =
      let c = length kv / num_threads in
      let same : c * (i + 0) ≡ c * i = ap (λ x. c * x) (omega arith) in
      let to = ap (λ x. total f (take x kv)) same in omega arith
  total-latency_threads num_threads kv (suc n) i =
      let c = length kv / num_threads in
      let here = total-take_add f (c * i) c kv in
      let given_here = total-inserts_of (take c (drop (c * i) kv)) in
      let rest = total-latency_threads num_threads kv n (i + 1) in
      let next : c * (i + 1) ≡ c * i + c = grind arith in
      let end : i + suc n ≡ i + 1 + n = omega arith in
      let next' = ap (λ x. total f (take x kv)) next in
      let end' = ap (λ x. total f (take (c * x) kv)) end in omega arith

  window-some :
      (kv : List (Pair K)) (i : ℕ)
      → i + 1000 ≤ length kv
      → window kv i ≡ some (take 1000 (drop i kv))
  unfolding window
  window-some kv i le = ground (arith, le)

  length-window :
      (kv : List (Pair K)) (i : ℕ) → i + 1000 ≤ length kv → length (take 1000 (drop i kv)) ≡ 1000
  length-window kv i le = length-take 1000 (drop i kv) (omega (arith, length-drop i kv))

  calls-inserts_of : (ps : List (Pair K)) → length (inserts_of ps) ≡ length ps
  calls-inserts_of [] = refl
  calls-inserts_of (p ∷ ps) = ap suc (calls-inserts_of ps)

  calls-searches_of :
      (o : Pair K → Search K) (ps : List (Pair K)) → length (searches_of o ps) ≡ length ps
  calls-searches_of o [] = refl
  calls-searches_of o (p ∷ ps) = ap suc (calls-searches_of o ps)

  -- With room for all rounds, the loop of `mixed` stays in the array, and inserts only pairs that
  -- follow `insert_idx`.
  pub mixed_loop-some :
      (kv : List (Pair K)) (rand : ℕ → ℕ) (n i a b : ℕ)
      → a + 1000 * n ≤ length kv
      → b + 1000 * n ≤ length kv
      → (calls : List (Call K)) × (mixed_loop kv rand n i a b ≡ some calls)
        × (length calls ≡ 1000 * n)
        × (total (given f) calls ≤ total f (take (1000 * n) (drop a kv)))
  unfolding mixed_loop window total
  mixed_loop-some kv rand zero i a b ha hb = ([], refl, refl, omega arith)
  mixed_loop-some kv rand (suc n) i a b ha hb =
      let r = rand i % 100 in
      let part = total-take_add f 1000 (1000 * n) (drop a kv) in
      let sum : 1000 * suc n ≡ 1000 + 1000 * n = omega arith in
      let whole = ap (λ x. total f (take x (drop a kv))) sum in
      let after = ap (λ x. total f (take (1000 * n) x)) (drop-drop 1000 a kv) in
      elim (Bool-cases (ltb r 15)) [
        | inl l ↦
            let (calls, e, m, g) =
              mixed_loop-some kv rand n (i + 1) (a + 1000) b (omega arith) (omega arith) in
            let ps = take 1000 (drop a kv) in
            (
              inserts_of ps ++ calls,
              rw (mixed_loop, l, window-some kv a (omega arith), e) refl,
              omega (
                arith,
                length-append (inserts_of ps) calls,
                calls-inserts_of ps,
                length-window kv a (omega arith),
              ),
              omega (arith, total-append (given f) (inserts_of ps) calls, total-inserts_of ps),
            )
        | inr l ↦
            let (calls, e, m, g) =
              mixed_loop-some kv rand n (i + 1) a (b + 1000) (omega arith) (omega arith) in
            let ps = take 1000 (drop b kv) in
            let cs = searches_of (chosen r) ps in
            let less = total-take_add f (1000 * n) 1000 (drop a kv) in
            let sum' : 1000 * suc n ≡ 1000 * n + 1000 = omega arith in
            let whole' = ap (λ x. total f (take x (drop a kv))) sum' in
            (
              cs ++ calls,
              rw (mixed_loop, l, window-some kv b (omega arith), e) refl,
              omega (
                arith,
                length-append cs calls,
                calls-searches_of (chosen r) ps,
                length-window kv b (omega arith),
              ),
              omega (arith, total-append (given f) cs calls, total-searches_of (chosen r) ps),
            )
      ]

  -- Where each thread's part of half of the array is a multiple of 1000, `mixed_func` stays in the
  -- array, whatever `rand` gives: a thread makes one call for each pair of its part, and its
  -- `Insert`s bring no more than its own part of the second half, counted with any weight.
  pub mixed_func-some :
      (n : ℕ) (kv : List (Pair K)) (id : ℕ) (rand : ℕ → ℕ)
      → id < n
      → length kv / 2 / n % 1000 ≡ 0
      → (calls : List (Call K)) × (mixed_func n kv id rand ≡ some calls)
        × (length calls ≡ length kv / 2 / n)
        × (total (given f) calls
            ≤ total f (take (length kv / 2 / n) (drop (length kv / 2 + length kv / 2 / n * id) kv)))
  unfolding mixed_func
  mixed_func-some n kv id rand lt whole =
      let warmup = length kv / 2 in
      let chunk = warmup / n in
      let from = chunk * id in
      let rounds : 1000 * ((chunk + 999) / 1000) ≡ chunk = omega arith in
      let part : chunk * (id + 1) ≤ chunk * n = mul-le-mul_left chunk (omega arith) in
      let all : chunk * n ≤ warmup = div-mul-le_self warmup n in
      let next : chunk * (id + 1) ≡ from + chunk = grind arith in
      let low : from + chunk ≤ warmup = omega arith in
      let (calls, e, m, g) =
        mixed_loop-some kv rand ((chunk + 999) / 1000) 0 (warmup + from) from (omega arith)
          (omega arith) in
      (
        calls,
        e,
        m ∙ rounds,
        subst (λ x. total (given f) calls ≤ total f (take x (drop (warmup + from) kv))) rounds g,
      )

module _ {ℓ} {K : Type ℓ} where
  -- The threads of `latency` insert the pairs of the array up to the last multiple of their number.
  pub latency_threads_lem :
      (f : Pair K → ℕ) (n : ℕ) (kv : List (Pair K))
      → total (total (given f)) (latency_threads n kv n 0) ≡ total f (take (length kv / n * n) kv)
  latency_threads_lem f n kv =
      let c = length kv / n in
      let all = total-latency_threads f n kv n 0 in
      let start : c * 0 ≡ 0 = omega arith in
      let end : 0 + n ≡ n = omega arith in
      let from = ap (λ x. total f (take x kv)) start in
      let to = ap (λ x. total f (take (c * x) kv)) end in
      let nothing = total-none f kv in omega arith
