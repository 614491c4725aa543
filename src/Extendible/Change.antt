-- ===== src/Extendible/Change.antt =====
-- `Update` and `Delete` of index/extendible_hash.h, and any change of the slots of one segment.
use hash_bench.Common.{
  ℕ, ◌^◌, ◌<◌, ◌≡◌, ◌≢◌, ◌∙◌, ◌⊎◌, inl, inr, sym, ap, subst, arith, true, false, Option, none, some,
  List, get_elem?, set, length-set, get_elem?-set_self, get_elem?-set_ne, get_elem?_bound,
  if◌then◌else◌, Bool-cases, Option-cases, ℕ_discrete,
}
use mathlib.Core.Option.{some-injective}
use mathlib.Core.Option
use hash_bench.Key.{Key, ◌≐◌, is_invalid, ≐_refl, ≐_congr, ≐_invalid}
use hash_bench.Dict.{
  Pair, count, find, Unique, assign, assign_self, value_or_none, none_value, is_some, write_value,
  write_key,
}
use hash_bench.Dict
use hash_bench.Extendible.{Segment, Table, route, f_hash, locate, with_slots, update, delete}
use hash_bench.Extendible.View.{
  IsFilled, Serves, IsValid, content, Contains, content-Serves, acquire_after-Serves, locate-none,
  locate-some,
}

module _ {ℓ} {K : Type ℓ} ⦃key : Key K⦄ where
  -- New slots for one segment, which hold for `k` what `o` says and for the rest what they held.
  module _ (t : Table K) (k : K) (s : ℕ) (seg : Segment K) (slots : List (Pair K)) where
    abbrev changed : Table K
    changed = with_slots t s seg slots

    changed-other :
        (h i : ℕ) (other : Segment K) → i ≢ s → Serves t h i other → Serves changed h i other
    changed-other h i other ne v = record {
      routed = v.routed;
      stored =
          get_elem?-set_ne t.segments (record seg { slots = slots }) (λ e. ne (sym e)) ∙ v.stored;
      unlocked = v.unlocked;
      low = v.low;
      high = v.high;
      region = v.region;
      only = v.only;
      filled = v.filled;
    }

    changed-same :
        (h : ℕ)
        → h < 2 ^ 64
        → Serves t (f_hash k) s seg
        → IsFilled seg.local_depth (f_hash k) slots
        → Serves t h s seg
        → Serves changed h s (record seg { slots = slots })
    changed-same h bound mine new v = record {
      routed = v.routed;
      stored =
          get_elem?-set_self t.segments s (record seg { slots = slots })
            (get_elem?_bound t.segments s v.stored);
      unlocked = v.unlocked;
      low = v.low;
      high = v.high;
      region = v.region;
      only = v.only;
      filled = record {
        width = new.width;
        unique = new.unique;
        placed = λ q x n f. new.placed q x n f ∙ sym (mine.only h bound v.routed);
      };
    }

    changed-IsValid :
        IsValid t
        → Serves t (f_hash k) s seg
        → IsFilled seg.local_depth (f_hash k) slots
        → IsValid changed
    changed-IsValid v mine new = record {
      directory = v.directory;
      serves = λ h bound.
          let (i, other, u) = v.serves h bound in
          elim (ℕ_discrete i s) [
            | yes same ↦
                let u' = subst (λ j. Serves t h j other) same u in
                let seg' = some-injective other seg (sym u'.stored ∙ mine.stored) in
                (
                  s,
                  record seg { slots = slots },
                  changed-same h bound mine new (subst (Serves t h s) seg' u'),
                )
            | no ne ↦ (i, other, changed-other h i other ne u)
          ];
    }

    pub changed-Contains :
        (o : Option ℕ)
        → IsValid t
        → Serves t (f_hash k) s seg
        → IsFilled seg.local_depth (f_hash k) slots
        → ((q : K) → is_invalid q ≡ false → find q slots ≡ assign (λ j. find j seg.slots) k o q)
        → Contains (assign (content t) k o) changed
    changed-Contains o v mine new reads = (
      changed-IsValid v mine new,
      λ q n.
          let bound = key.hash-lt 0 q _ in
          let (i, other, u) = v.serves (f_hash q) bound in
          elim (ℕ_discrete i s) [
            | yes same ↦
                let u' = subst (λ j. Serves t (f_hash q) j other) same u in
                let seg' = some-injective other seg (sym u'.stored ∙ mine.stored) in
                let u'' = subst (Serves t (f_hash q) s) seg' u' in
                content-Serves {t = changed} q (changed-same (f_hash q) bound mine new u'')
                ∙ reads q n
                ∙ ap (λ x. if k ≐ q then o else x) (sym (content-Serves q u''))
            | no ne ↦
                let here =
                  content-Serves {t = changed} q (changed-other (f_hash q) i other ne u)
                  ∙ sym (content-Serves q u) in
                let apart : k ≐ q ≡ false = elim (Bool-cases (k ≐ q)) [
                  | inl e ↦
                      let there : route t.dir (f_hash q) ≡ some s =
                        subst (λ j. route t.dir (f_hash j) ≡ some s) ((key.same_iff k q).0 e)
                          mine.routed in
                      absurd (ne (some-injective i s (sym u.routed ∙ there)))
                  | inr e ↦ e
                ] in
                here ∙ sym (ap (λ b. if b then o else content t q) apart)
          ],
    )

  -- The slots of a segment after a write over a pair, by the same key or by the invalid one.
  overwrite-IsFilled :
      (k : K) (seg : Segment K) (h i : ℕ) (p q : Pair K)
      → IsFilled seg.local_depth h seg.slots
      → get_elem? seg.slots i ≡ some p
      → is_invalid p.key ≡ false
      → ((q.key ≐ p.key) ≡ true) ⊎ (is_invalid q.key ≡ true)
      → IsFilled seg.local_depth h (set seg.slots i q)
        × ((j : K)
            → is_invalid j ≡ false
            → find j (set seg.slots i q)
              ≡ (if q.key ≐ j then some q.value else if p.key ≐ j then none else find j seg.slots))
  overwrite-IsFilled k seg h i p q v r valid same =
      let once = Dict.Unique-overwrite seg.slots i p q v.unique r same in
      let reads = λ (j : K) (n : is_invalid j ≡ false).
        Dict.find-set j seg.slots i p q r (v.unique j n) (once j n) in
      (
        record {
          width = length-set seg.slots i q ∙ v.width;
          unique = once;
          placed = λ j x n f. elim (Bool-cases (p.key ≐ j)) [
            | inl e ↦ v.placed j p.value n (Dict.find-at j seg.slots i p (v.unique j n) r e)
            | inr e ↦ elim same [
              | inl a ↦
                  v.placed j x n (sym (ground (arith, reads j n, e, ≐_congr q.key p.key j a)) ∙ f)
              | inr b ↦
                  v.placed j x n (sym (ground (arith, reads j n, e, ≐_invalid q.key j b n)) ∙ f)
            ]
          ];
        },
        reads,
      )

  -- `Update` of a valid key in a valid table returns whether the key is there; the table is valid
  -- after it and holds what it held, with the new value for that key if it was there.
  pub update-Contains :
      {t : Table K} (k : K) (x : ℕ)
      → IsValid t
      → is_invalid k ≡ false
      → (t' : Table K) × (update t k x ≡ some (is_some (content t k), t'))
        × Contains (assign (content t) k (Option.map (λ _. x) (content t k))) t'
  unfolding update Dict.write_value
  update-Contains {t} k x v valid =
      let (s, seg, serves) = v.serves (f_hash k) (key.hash-lt 0 k _) in
      let got = acquire_after-Serves (f_hash k) s seg v.directory serves in
      let seen = content-Serves k serves in
      elim (Option-cases (locate seg k)) [
        | inl e ↦
            let absent = seen ∙ locate-none k seg serves.filled.width e in
            (
              t,
              ground (arith, got, e, absent),
              (v, λ q n. rw absent (assign_self (content t) k absent q)),
            )
        | inr (i, e) ↦
            let (p, r, h, f) = locate-some k seg serves.filled.unique valid e in
            let q = record p { value = x } in
            let (filled, reads) =
              overwrite-IsFilled k seg (f_hash k) i p q serves.filled r
                (≐_congr p.key k key.invalid h ∙ valid) (inl (≐_refl p.key)) in
            (
              with_slots t s seg (set seg.slots i q),
              ground (arith, got, e, r, f, seen),
              rw (seen, f)
                  (changed-Contains t k s seg (set seg.slots i q) (some x) v serves filled
                    (λ j n. ground (arith, reads j n, ≐_congr p.key k j h))),
            )
      ]

  -- `Delete` of a valid key in a valid table returns whether the key is there; the table is valid
  -- after it and holds what it held, without that key.
  pub delete-Contains :
      {t : Table K} (k : K)
      → IsValid t
      → is_invalid k ≡ false
      → (t' : Table K) × (delete t k ≡ some (is_some (content t k), t'))
        × Contains (assign (content t) k none) t'
  unfolding delete Dict.write_key
  delete-Contains {t} k v valid =
      let (s, seg, serves) = v.serves (f_hash k) (key.hash-lt 0 k _) in
      let got = acquire_after-Serves (f_hash k) s seg v.directory serves in
      let seen = content-Serves k serves in
      elim (Option-cases (locate seg k)) [
        | inl e ↦
            let absent = seen ∙ locate-none k seg serves.filled.width e in
            (t, ground (arith, got, e, absent), (v, λ q n. assign_self (content t) k absent q))
        | inr (i, e) ↦
            let (p, r, h, f) = locate-some k seg serves.filled.unique valid e in
            let q = record p { key = key.invalid } in
            let (filled, reads) =
              overwrite-IsFilled k seg (f_hash k) i p q serves.filled r
                (≐_congr p.key k key.invalid h ∙ valid) (inr (≐_refl key.invalid)) in
            (
              with_slots t s seg (set seg.slots i q),
              ground (arith, got, e, r, f, seen),
              changed-Contains t k s seg (set seg.slots i q) none v serves filled (λ j n. ground (
                arith,
                reads j n,
                ≐_congr p.key k j h,
                ≐_invalid key.invalid j (≐_refl key.invalid) n,
              )),
            )
      ]
