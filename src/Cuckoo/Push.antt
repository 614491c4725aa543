-- ===== src/Cuckoo/Push.antt =====
-- The two versions of `execute_path` of index/cuckoo_hash.h: each entry of the path moves one
-- slot on, and a new one takes the first.
use hash_bench.Common.{
  ℕ, ◌+◌, ◌≤◌, ◌≡◌, ◌∙◌, refl, sym, ap, inl, inr, false, none, some, List, [], ◌∷◌, arith, length,
  length-set, get_elem?, get_elem?-set_ne, set, set_comm, Option-cases, if◌then◌else◌,
}
use hash_bench.Key.{Key, ◌≐◌, is_invalid, ≐_invalid}
use hash_bench.Dict.{Pair, hit, count, find, Unique, assign}
use hash_bench.Dict
use hash_bench.Cuckoo.{copy, shift, execute_insert, push}
use hash_bench.Cuckoo.View.{IsPlaced, IsTidy, overwrite-IsPlaced}
use hash_bench.Cuckoo.Walks.{NotIn, Distinct, Chain}

module _ {ℓ} {K : Type ℓ} ⦃key : Key K⦄ where
  -- Nothing is lost or added but the entry in hand.
  pub push-count :
      (k : K) (d : List (Pair K)) (path : List (ℕ × K)) (p o : Pair K)
      → count k (push d path p o).0 + hit k (push d path p o).1 ≡ count k d + hit k p
  unfolding push
  push-count k d [] p o = refl
  push-count k d (a ∷ path) p o = elim (Option-cases (get_elem? d a.0)) [
    | inl e ↦ rw (e, push) refl
    | inr (q, e) ↦
        rw (e, push)
          (omega (arith, push-count k (set d a.0 p) path q p, Dict.count-set k d a.0 q p e))
  ]

  pub push-find :
      (k : K) (d : List (Pair K)) (path : List (ℕ × K)) (p o : Pair K)
      → count k d + hit k p ≤ 1
      → hit k (push d path p o).1 ≡ 0
      → find k (push d path p o).0 ≡ (if p.key ≐ k then some p.value else find k d)
  unfolding push
  push-find k d [] p o once out = ground arith
  push-find k d (a ∷ path) p o once out = elim (Option-cases (get_elem? d a.0)) [
    | inl e ↦ let out' : hit k p ≡ 0 = rw (e, push) at out in rw (e, push) (ground arith)
    | inr (q, e) ↦
        let moved = Dict.count-set k d a.0 q p e in
        let rest = push-find k (set d a.0 p) path q p (omega arith) (rw (e, push) at out) in
        rw (e, push)
          (rest
            ∙ ground (
              arith,
              moved,
              Dict.find-set k d a.0 q p e,
              Dict.find-at k d a.0 q,
              Dict.find-eq-none k (set d a.0 p),
              e,
            ))
  ]

  pub push-length :
      (d : List (Pair K)) (path : List (ℕ × K)) (p o : Pair K)
      → length (push d path p o).0 ≡ length d
  unfolding push
  push-length d [] p o = refl
  push-length d (a ∷ path) p o = elim (Option-cases (get_elem? d a.0)) [
    | inl e ↦ rw (e, push) refl
    | inr (q, e) ↦ rw (e, push) (push-length (set d a.0 p) path q p ∙ length-set d a.0 p)
  ]

  Chain-set :
      (c : ℕ) (d : List (Pair K)) (s : ℕ) (x p : Pair K) (path : List (ℕ × K))
      → NotIn s path
      → Chain c d p path
      → Chain c (set d s x) p path
  Chain-set c d s x p [] apart ch = ch
  Chain-set c d s x p (a ∷ path) apart (home, valid, (q, g, e, rest)) =
      (home, valid, (q, get_elem?-set_ne d x apart.0 ∙ g, e, Chain-set c d s x q path apart.1 rest))

  -- Along a chain the entries stay where they are looked for, and the last one falls on an empty
  -- slot.
  push-IsPlaced :
      (c : ℕ) (d : List (Pair K)) (path : List (ℕ × K)) (p o : Pair K)
      → IsPlaced c d
      → Chain c d p path
      → Distinct path
      → IsPlaced c (push d path p o).0 × ((push d path p o).1.key ≡ key.invalid)
  unfolding push
  push-IsPlaced c d [] p o placed ch distinct = (placed, ch)
  push-IsPlaced c d (a ∷ path) p o placed (home, valid, (q, g, e, rest)) (apart, distinct) =
      rw (g, push)
        (push-IsPlaced c (set d a.0 p) path q p
          (overwrite-IsPlaced c d a.0 q p placed g (λ n. home))
          (Chain-set c d a.0 p q path apart rest) distinct)

  -- `pushed[j]` is only written over: what it held before does not matter.
  push-scratch :
      (d : List (Pair K)) (path : List (ℕ × K)) (p o o' : Pair K)
      → (push d path p o).0 ≡ (push d path p o').0
  unfolding push
  push-scratch d [] p o o' = refl
  push-scratch d (a ∷ path) p o o' = elim (Option-cases (get_elem? d a.0)) [
    | inl e ↦ rw (e, push)
    | inr (q, e) ↦ rw (e, push)
  ]

  push-set :
      (c : ℕ) (d : List (Pair K)) (s : ℕ) (x p o : Pair K) (path : List (ℕ × K))
      → NotIn s path
      → Chain c d p path
      → Distinct path
      → (push (set d s x) path p o).0 ≡ set (push d path p o).0 s x
  unfolding push
  push-set c d s x p o [] apart ch distinct = refl
  push-set c d s x p o (a ∷ path) apart (home, valid, (q, g, e, rest)) (apart', distinct) =
      let g' = get_elem?-set_ne d x apart.0 ∙ g in
      rw (g', g, push)
        (rw (set_comm d s a.0 x p apart.0) (
          push-set c (set d a.0 p) s x q p path apart.1 (Chain-set c d a.0 p q path apart' rest)
            distinct))

  shift-apart :
      (d : List (Pair K)) (s : ℕ) (a : ℕ × K) (path : List (ℕ × K))
      → NotIn s path
      → get_elem? (shift d (a ∷ path)) s ≡ get_elem? d s
  unfolding shift
  shift-apart d s a [] apart = refl
  shift-apart d s a (b ∷ path) apart = elim (Option-cases (get_elem? (shift d (b ∷ path)) a.0)) [
    | inl e ↦ rw (e, copy) (shift-apart d s b path apart.1)
    | inr (q, e) ↦
        rw (e, copy)
          (get_elem?-set_ne _ q (λ same. apart.0 (sym same)) ∙ shift-apart d s b path apart.1)
  ]

  push-step :
      (d : List (Pair K)) (a : ℕ × K) (path : List (ℕ × K)) (p q o : Pair K)
      → get_elem? d a.0 ≡ some q
      → push d (a ∷ path) p o ≡ push (set d a.0 p) path q p
  unfolding push
  push-step d a path p q o e = rw (e, push)

  shift-step :
      (d : List (Pair K)) (a b : ℕ × K) (path : List (ℕ × K)) (q : Pair K)
      → NotIn a.0 path
      → get_elem? d a.0 ≡ some q
      → shift d (a ∷ b ∷ path) ≡ set (shift d (b ∷ path)) b.0 q
  shift-step d a b path q apart e = shift-copy ∙ rw (shift-apart d a.0 b path apart, e, copy)
    where
      shift-copy : shift d (a ∷ b ∷ path) ≡ copy (shift d (b ∷ path)) b.0 a.0
      shift-copy = unfold shift in refl

  -- The copies from the end of the path back and the moves from its start on do the same.
  shift-push :
      (c : ℕ) (d : List (Pair K)) (a : ℕ × K) (path : List (ℕ × K)) (p o : Pair K)
      → Chain c d p (a ∷ path)
      → Distinct (a ∷ path)
      → set (shift d (a ∷ path)) a.0 p ≡ (push d (a ∷ path) p o).0
  shift-push c d a [] p o (home, valid, (q, g, e, rest)) distinct =
      unfold shift push in rw (g, push)
  shift-push c d a (b ∷ path) p o (home, valid, (q, g, e, rest)) (apart, distinct) =
      ap (λ t. set t a.0 p)
        (shift-step d a b path q apart.1 g ∙ shift-push c d b path q p rest distinct)
      ∙ sym (push-set c d a.0 p q p (b ∷ path) apart rest distinct)
      ∙ sym (ap (λ (r : List (Pair K) × Pair K × Pair K). r.0) (push-step d a (b ∷ path) p q o g))

  -- For a path whose slots are different and along which the new entry can be moved,
  -- `execute_path(path, key, value)` leaves the same table as `execute_path(path)` with the new entry
  -- in `pushed[0]`.
  pub execute_insert-push :
      (c : ℕ) (d : List (Pair K)) (path : List (ℕ × K)) (k : K) (v : ℕ) (o : Pair K)
      → Chain c d (record { key = k; value = v }) path
      → Distinct path
      → execute_insert d path k v ≡ (push d path (record { key = k; value = v }) o).0
  unfolding execute_insert
  execute_insert-push c d [] k v o ch distinct = unfold push in refl
  execute_insert-push c d (a ∷ path) k v o ch distinct =
      shift-push c d a path (record { key = k; value = v }) o ch distinct

  -- Along such a path a new entry comes in and every other one stays.
  pub push-IsTidy :
      (c : ℕ) (d : List (Pair K)) (path : List (ℕ × K)) (p o : Pair K)
      → IsTidy c d
      → Chain c d p path
      → Distinct path
      → is_invalid p.key ≡ false
      → find p.key d ≡ none
      → IsTidy c (push d path p o).0
        × ((k : K)
            → is_invalid k ≡ false
            → find k (push d path p o).0 ≡ assign (λ j. find j d) p.key (some p.value) k)
  push-IsTidy c d path p o tidy ch distinct valid absent = (
    record {
      width = push-length d path p o ∙ tidy.width;
      nonempty = tidy.nonempty;
      unique = λ k n. omega (arith, push-count k d path p o, room k n);
      placed = (push-IsPlaced c d path p o tidy.placed ch distinct).0;
    },
    λ k n. push-find k d path p o (room k n) (gone k n),
  )
    where
      room : (k : K) → is_invalid k ≡ false → count k d + hit k p ≤ 1
      room k n = ground (
        arith,
        tidy.unique k n,
        Dict.count_congr p.key k d,
        Dict.count_of_find-none p.key d absent,
      )

      gone : (k : K) → is_invalid k ≡ false → hit k (push d path p o).1 ≡ 0
      gone k n =
          let e = (push-IsPlaced c d path p o tidy.placed ch distinct).1 in
          ground (
            arith,
            ≐_invalid (push d path p o).1.key k
                ((key.same_iff (push d path p o).1.key key.invalid).1 e) n,
          )
