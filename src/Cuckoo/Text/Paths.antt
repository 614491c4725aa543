-- ===== src/Cuckoo/Text/Paths.antt =====
-- The paths with strings of index/cuckoo_hash.h, beside those with keys.
use mathlib.Core.Option
use mathlib.Core.Option.{some-injective}
use hash_bench.Common.{
  ℕ, zero, suc, ◌≡◌, ◌∙◌, refl, sym, ap, subst, inl, inr, Bool, true, false, ◌&&◌, Option, none,
  some, List, [], ◌∷◌, ◌++◌, arith, length, get_elem?, set, if◌then◌else◌, ltb, Option-cases,
  Bool-cases, set-out, set-set, get_elem?-set_self, get_elem?_bound, not,
}
use hash_bench.Key.{Key, is_invalid}
use hash_bench.Dict.{Pair, write_key, write_value}
use hash_bench.Probe.{passes, has}
use Prim.Native.Nat.{eq}
use hash_bench.GenericKey.{strcmp, until_nul}
use hash_bench.Cuckoo.{
  Table, Walk, terribly_wrong, too_long, reached, append_step, f_idx, s_idx, other_slot, walk,
  find_path, copy, shift, execute_insert, push, even_length, execute_push, cuckoo_threshold,
}
use hash_bench.Cuckoo.Growth.{is_empty, choose_push, insert4resize, validate}
use hash_bench.Cuckoo.Text.{
  string_of, walk_text, find_text, write_pair, copy_text, shift_text, execute_insert_text,
  push_text, even_text, execute_push_text, insert4resize_text, validate_text,
}

-- A key that `string(key)` does not read behind
unfoldable pub IsTerminated : List ℕ → Type 0
IsTerminated k = string_of k ≡ some (until_nul k)

-- A path with the strings of its keys
abbrev pub texts : List (ℕ × List ℕ) → List (ℕ × List ℕ)
texts [] = []
texts ((s, k) ∷ path) = (s, until_nul k) ∷ texts path

abbrev texts_of : Walk (List ℕ) → Walk (List ℕ)
texts_of terribly_wrong = terribly_wrong
texts_of too_long = too_long
texts_of (reached path) = reached (texts path)

texts_of-append_step :
    (s : ℕ) (k : List ℕ) (w : Walk (List ℕ))
    → append_step s (until_nul k) (texts_of w) ≡ texts_of (append_step s k w)
texts_of-append_step s k terribly_wrong = refl
texts_of-append_step s k too_long = refl
texts_of-append_step s k (reached path) = refl

module _ ⦃key : Key (List ℕ)⦄ where
  -- Every key of the table ends in a NUL.
  unfoldable pub Terminated : List (Pair (List ℕ)) → Type 0
  Terminated d = (s : ℕ) (p : Pair (List ℕ)) → get_elem? d s ≡ some p → IsTerminated p.key

  walk_text-texts :
      (c : ℕ) (d : List (Pair (List ℕ))) (n cur : ℕ)
      → Terminated d
      → walk_text c d n cur ≡ texts_of (walk c d n cur)
  unfolding walk walk_text Terminated IsTerminated
  walk_text-texts c d zero cur term = refl
  walk_text-texts c d (suc n) cur term = elim (Option-cases (get_elem? d cur)) [
    | inl e ↦ rw (walk_text, walk, e) refl
    | inr (p, e) ↦ elim (Bool-cases (is_invalid p.key)) [
      | inl i ↦ rw (walk_text, walk, e, i) refl
      | inr i ↦ elim (Option-cases (other_slot c p.key cur)) [
        | inl o ↦ rw (walk_text, walk, e, i, o) refl
        | inr (next, o) ↦ elim (Option-cases (get_elem? d next)) [
          | inl g ↦ rw (walk_text, walk, e, i, o, g) refl
          | inr (q, g) ↦
              rw (walk_text, walk, e, i, o, g, term next q g)
                (ap (append_step next (until_nul q.key)) (walk_text-texts c d n next term)
                  ∙ texts_of-append_step next q.key (walk c d n next))
        ]
      ]
    ]
  ]

  -- Where every key ends in a NUL, `find_path` with strings returns, and stops, where the one with
  -- keys does, and its path has the same slots, each with the part of its key in front of the NUL.
  pub find_text-texts :
      (t : Table (List ℕ)) (target : ℕ)
      → Terminated t.table
      → find_text t target ≡ Option.map texts (find_path t target)
  unfolding find_path find_text Terminated IsTerminated
  find_text-texts t target term = elim (Option-cases (get_elem? t.table target)) [
    | inl e ↦ rw (find_text, find_path, e) refl
    | inr (p, e) ↦
        let w = walk_text-texts t.capacity t.table cuckoo_threshold target term in
        rw (find_text, find_path, e, term target p e, w)
          (outcome (walk t.capacity t.table cuckoo_threshold target) p)
  ]
    where
      outcome :
          (w : Walk (List ℕ)) (p : Pair (List ℕ))
          → (elim (texts_of w) [
            | terribly_wrong ↦ none
            | too_long ↦ some []
            | reached path ↦ some ((target, until_nul p.key) ∷ path)
          ])
            ≡ Option.map texts (elim w [
              | terribly_wrong ↦ none
              | too_long ↦ some []
              | reached path ↦ some ((target, p.key) ∷ path)
            ])
      outcome terribly_wrong p = refl
      outcome too_long p = refl
      outcome (reached path) p = refl

  pub write_pair-set :
      (d : List (Pair (List ℕ))) (s : ℕ) (k : List ℕ) (v : ℕ)
      → write_pair d s k v ≡ set d s (record { key = k; value = v })
  unfolding write_key write_value
  write_pair-set d s k v = elim (Option-cases (get_elem? d s)) [
    | inl e ↦
        let kept : write_key d s k ≡ d = rw (write_key, e) refl in
        ap (λ x. write_value x s v) kept
        ∙ rw (write_value, e) (sym (set-out d s (record { key = k; value = v }) e))
    | inr (q, e) ↦
        let self : get_elem? (set d s (record q { key = k })) s ≡ some (record q { key = k }) =
          get_elem?-set_self d s (record q { key = k }) (get_elem?_bound d s e) in
        let keyed : write_key d s k ≡ set d s (record q { key = k }) = rw (write_key, e) refl in
        ap (λ x. write_value x s v) keyed
        ∙ rw (write_value, self)
            (set-set d s (record q { key = k }) (record { key = k; value = v }))
  ]

  shift_text-texts :
      (d : List (Pair (List ℕ))) (path : List (ℕ × List ℕ))
      → shift_text d (texts path) ≡ shift d path
  unfolding shift shift_text
  shift_text-texts d [] = refl
  shift_text-texts d (a ∷ []) = refl
  shift_text-texts d (a ∷ b ∷ path) =
      rw (shift_text-texts d (b ∷ path)) (copied (shift d (b ∷ path)) b.0 a.0)
    where
      copied : (e : List (Pair (List ℕ))) (to from : ℕ) → copy_text e to from ≡ copy e to from
      copied e to from = elim (Option-cases (get_elem? e from)) [
        | inl g ↦ rw (copy_text, copy, g) refl
        | inr (p, g) ↦ rw (copy_text, copy, g) (write_pair-set e to p.key p.value)
      ]

  -- `execute_path` with strings writes the slots of the path as the one with keys does.
  pub execute_insert_text-texts :
      (d : List (Pair (List ℕ))) (path : List (ℕ × List ℕ)) (k : List ℕ) (v : ℕ)
      → execute_insert_text d (texts path) k v ≡ execute_insert d path k v
  unfolding execute_insert execute_insert_text
  execute_insert_text-texts d [] k v = refl
  execute_insert_text-texts d (a ∷ path) k v =
      write_pair-set (shift_text d (texts (a ∷ path))) a.0 k v
      ∙ ap (λ e. set e a.0 (record { key = k; value = v })) (shift_text-texts d (a ∷ path))

  push_text-texts :
      (d : List (Pair (List ℕ))) (path : List (ℕ × List ℕ)) (cur other : Pair (List ℕ))
      → push_text d (texts path) cur other ≡ push d path cur other
  unfolding push push_text
  push_text-texts d [] cur other = refl
  push_text-texts d (a ∷ path) cur other = elim (Option-cases (get_elem? d a.0)) [
    | inl e ↦ rw (push_text, push, e) refl
    | inr (p, e) ↦
        rw (push_text, push, e, write_pair-set d a.0 cur.key cur.value)
          (push_text-texts (set d a.0 cur) path p cur)
  ]

  even_text-texts : (path : List (ℕ × List ℕ)) → even_text (texts path) ≡ even_length path
  even_text-texts [] = refl
  even_text-texts (a ∷ path) = ap not (even_text-texts path)

  execute_push_text-texts :
      (t : Table (List ℕ)) (path : List (ℕ × List ℕ))
      → execute_push_text t (texts path) ≡ execute_push t path
  unfolding execute_push execute_push_text
  execute_push_text-texts t path =
      rw (push_text-texts t.table path t.pushed_0 t.pushed_1, even_text-texts path) refl

  pub is_empty-texts : (a : List (ℕ × List ℕ)) → is_empty (texts a) ≡ is_empty a
  is_empty-texts [] = refl
  is_empty-texts (x ∷ a) = refl

  pub length-texts : (a : List (ℕ × List ℕ)) → length (texts a) ≡ length a
  length-texts [] = refl
  length-texts (x ∷ a) = ap suc (length-texts a)

  choose_push-texts :
      (a b : List (ℕ × List ℕ)) → choose_push (texts a) (texts b) ≡ texts (choose_push a b)
  unfolding choose_push
  choose_push-texts a b = elim (Bool-cases (is_empty a)) [
    | inl e ↦ rw (is_empty-texts a, e) refl
    | inr e ↦ elim (Bool-cases (is_empty b)) [
      | inl g ↦ rw (is_empty-texts a, e, is_empty-texts b, g) refl
      | inr g ↦ elim (Bool-cases (ltb (length a) (length b))) [
        | inl l ↦
            rw (is_empty-texts a, e, is_empty-texts b, g, length-texts a, length-texts b, l) refl
        | inr l ↦
            rw (is_empty-texts a, e, is_empty-texts b, g, length-texts a, length-texts b, l) refl
      ]
    ]
  ]

  -- Where every key ends in a NUL, `insert4resize` with strings does what the one with keys does.
  pub insert4resize_text_same :
      (t : Table (List ℕ)) (p : Pair (List ℕ))
      → Terminated t.table
      → insert4resize_text t p ≡ insert4resize t p
  unfolding insert4resize insert4resize_text
  insert4resize_text_same t p term =
      let f = f_idx t.capacity p.key in
      let s = s_idx t.capacity p.key in
      let write : (i : ℕ) → write_pair t.table i p.key p.value ≡ set t.table i p =
        λ i. write_pair-set t.table i p.key p.value in
      let found1 = find_text-texts t f term in
      let found2 = find_text-texts t s term in
      elim (Bool-cases (passes (has key.invalid) t.table f)) [
        | inl a ↦ rw (a, write f) refl
        | inr a ↦ elim (Bool-cases (passes (has key.invalid) t.table s)) [
          | inl b ↦ rw (a, b, write s) refl
          | inr b ↦ elim (Option-cases (find_path t f)) [
            | inl e ↦ rw (a, b, found1, e) refl
            | inr (path1, e) ↦ elim (Option-cases (find_path t s)) [
              | inl g ↦ rw (a, b, found1, e, found2, g) refl
              | inr (path2, g) ↦ rw (a, b, found1, e, found2, g) (pushed path1 path2)
            ]
          ]
        ]
      ]
    where
      pushed :
          (path1 path2 : List (ℕ × List ℕ))
          → if◌then◌else◌ {A = Option (Bool × Table (List ℕ))}
              (is_empty (texts path1) && is_empty (texts path2))
              (some (false, record t { pushed_0 = p }))
              (some (
                true,
                execute_push_text
                    (record t { pushed_0 = p })
                    (choose_push (texts path1) (texts path2)),
              ))
            ≡ if◌then◌else◌ {A = Option (Bool × Table (List ℕ))}
                (is_empty path1 && is_empty path2)
                (some (false, record t { pushed_0 = p }))
                (some (true, execute_push (record t { pushed_0 = p }) (choose_push path1 path2)))
      pushed path1 path2 =
          rw
            (
              is_empty-texts path1,
              is_empty-texts path2,
              choose_push-texts path1 path2,
              execute_push_text-texts (record t { pushed_0 = p }) (choose_push path1 path2),
            )
            refl

  strcmp-string : (k w : List ℕ) → string_of k ≡ some w → strcmp k (w ++ 0 ∷ []) ≡ some eq
  unfolding strcmp string_of
  strcmp-string [] w e = cc
  strcmp-string (zero ∷ k) w e =
      let same : [] ≡ w = some-injective [] w e in
      subst (λ x. strcmp (zero ∷ k) (x ++ 0 ∷ []) ≡ some eq) same refl
  strcmp-string (suc x ∷ k) w e = elim (Option-cases (string_of k)) [
    | inl g ↦ cc (rw (string_of, g) at e)
    | inr (u, g) ↦
        let same : suc x ∷ u ≡ w = some-injective (suc x ∷ u) w (rw (string_of, g) at e) in
        let rest = strcmp-string k u g in
        subst (λ y. strcmp (suc x ∷ k) (y ++ 0 ∷ []) ≡ some eq) same (ground (arith, rest))
  ]

  -- In a table whose keys end in a NUL, a path whose keys are all in place passes the test with
  -- `strcmp`.
  pub validate_text-texts :
      (d : List (Pair (List ℕ))) (path : List (ℕ × List ℕ))
      → Terminated d
      → validate d path ≡ true
      → validate_text d (texts path) ≡ some true
  unfolding validate validate_text Terminated IsTerminated
  validate_text-texts d [] term e = refl
  validate_text-texts d ((s, k) ∷ path) term e = elim (Option-cases (get_elem? d s)) [
    | inl g ↦ cc (rw (validate, passes, g) at e)
    | inr (p, g) ↦ elim (Bool-cases (has k p)) [
      | inr h ↦ cc (rw (validate, passes, g, h) at e)
      | inl h ↦
          let rest = validate_text-texts d path term (rw (validate, passes, g, h) at e) in
          let key_same : p.key ≡ k = (key.same_iff p.key k).0 h in
          let found : string_of p.key ≡ some (until_nul k) =
            term s p g ∙ ap (λ x. some (until_nul x)) key_same in
          rw (validate_text, g, strcmp-string p.key (until_nul k) found) rest
    ]
  ]
