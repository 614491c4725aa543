-- ===== src/Extendible/Resplit.antt =====
-- A segment split of index/extendible_hash.h in the whole table, after the directory has been updated.
use hash_bench.Common.{
  ℕ, ◌+◌, ◌^◌, ◌≤◌, ◌<◌, ◌≡◌, ◌≢◌, ◌∙◌, ◌⊎◌, ◌++◌, inl, inr, sym, ap, subst, refl, arith, Bool,
  true, false, none, some, [], ◌∷◌, length, get_elem?, set, length-set, get_elem?-set_ne,
  get_elem?_bound, if◌then◌else◌, ==_iff, ℕ_discrete, get_elem?-append_left, get_elem?-append_right,
}
use mathlib.Core.Option.{some-injective}
use hash_bench.Key.{Key, is_invalid}
use hash_bench.Dict.{find}
use hash_bench.Extendible.{Segment, Directory, Table, prefix, split_bit, route, f_hash, split}
use hash_bench.Extendible.Bits.{prefix-suc_iff}
use hash_bench.Extendible.Routing.{IsDirectory, Reroutes}
use hash_bench.Extendible.Entries.{==_no}
use hash_bench.Extendible.Split.{side, Side, side-Side}
use hash_bench.Extendible.View.{Serves, IsValid, held, content, Contains, content-Serves}

same_Bool : (a b : Bool) → (a ≡ b) ⊎ (a ≢ b)
same_Bool true true = inl refl
same_Bool true false = inr (λ e. cc)
same_Bool false true = inr (λ e. cc)
same_Bool false false = inl refl

module _ {ℓ} {K : Type ℓ} ⦃key : Key K⦄ (t : Table K) (d' : Directory) (hash s : ℕ)
    (seg : Segment K) (v : IsValid t) (bound : hash < 2 ^ 64) (old : Serves t hash s seg)
    (directory : IsDirectory d') (not_less : t.dir.depth ≤ d'.depth)
    (deeper : seg.local_depth < d'.depth)
    (reroutes : Reroutes t.dir d' seg.local_depth hash
      (length t.segments)
      (length t.segments + 1)) where
  abbrev n : ℕ
  n = length t.segments

  abbrev after : Table K
  after = record {
    dir = d';
    segments =
        set t.segments s (record seg { locked = true }) ++ (split seg).0 ∷ (split seg).1 ∷ [];
  }

  abbrev pointer_of : Bool → ℕ
  pointer_of true = n + 1
  pointer_of false = n

  wide : length (set t.segments s (record seg { locked = true })) ≡ n
  wide = length-set t.segments s (record seg { locked = true })

  stored_new : (b : Bool) → get_elem? after.segments (pointer_of b) ≡ some (side b seg)
  stored_new true =
      ap (λ m. get_elem? after.segments (m + 1)) (sym wide)
      ∙ get_elem?-append_right (set t.segments s (record seg { locked = true }))
          ((split seg).0 ∷ (split seg).1 ∷ []) 1
  stored_new false =
      let here : n ≡ length (set t.segments s (record seg { locked = true })) + 0 =
        omega (arith, wide) in
      ap (get_elem? after.segments) here
      ∙ get_elem?-append_right (set t.segments s (record seg { locked = true }))
          ((split seg).0 ∷ (split seg).1 ∷ []) 0

  stored_old :
      (i : ℕ) (other : Segment K)
      → i ≢ s
      → get_elem? t.segments i ≡ some other
      → get_elem? after.segments i ≡ some other
  stored_old i other ne e =
      get_elem?-append_left (set t.segments s (record seg { locked = true }))
        ((split seg).0 ∷ (split seg).1 ∷ []) i
        (get_elem?-set_ne t.segments (record seg { locked = true }) (λ h. ne (sym h)) ∙ e)

  -- Where the new directory leads a hash
  routed_in :
      (h : ℕ) (b : Bool)
      → h < 2 ^ 64
      → prefix h seg.local_depth ≡ prefix hash seg.local_depth
      → split_bit h seg.local_depth ≡ b
      → route d' h ≡ some (pointer_of b)
  routed_in h true lt same bit =
      reroutes h lt
      ∙ ground
          (arith, (==_iff (prefix h seg.local_depth) (prefix hash seg.local_depth)).1 same, bit)
  routed_in h false lt same bit =
      reroutes h lt
      ∙ ground
          (arith, (==_iff (prefix h seg.local_depth) (prefix hash seg.local_depth)).1 same, bit)

  routed_out :
      (h : ℕ)
      → h < 2 ^ 64
      → prefix h seg.local_depth ≢ prefix hash seg.local_depth
      → route d' h ≡ route t.dir h
  routed_out h lt other =
      reroutes h lt
      ∙ ap
          (λ x.
            if x then some (if split_bit h seg.local_depth then n + 1 else n) else route t.dir h)
          (==_no (prefix h seg.local_depth) (prefix hash seg.local_depth) other)

  -- No pointer of the old directory is one of the new segments.
  is_old : (h i : ℕ) → h < 2 ^ 64 → route t.dir h ≡ some i → i < n
  is_old h i lt e =
      let (j, other, u) = v.serves h lt in
      subst (λ x. x < n) (some-injective j i (sym u.routed ∙ e))
        (get_elem?_bound t.segments j u.stored)

  pointer_of-injective : (a b : Bool) → pointer_of a ≡ pointer_of b → a ≡ b
  pointer_of-injective true true e = refl
  pointer_of-injective true false e = absurd (omega arith)
  pointer_of-injective false true e = absurd (omega arith)
  pointer_of-injective false false e = refl

  pointer_of-large : (b : Bool) → n ≤ pointer_of b
  pointer_of-large true = omega arith
  pointer_of-large false = omega arith

  -- What a new segment holds, the old one held.
  old_holds :
      (b : Bool) (new : Segment K)
      → Side b seg new
      → (k : K) (x : ℕ) → is_invalid k ≡ false
      → find k new.slots ≡ some x
      → (split_bit (f_hash k) seg.local_depth ≡ b) × (find k seg.slots ≡ some x)
  old_holds b new w k x valid f = elim (same_Bool (split_bit (f_hash k) seg.local_depth) b) [
    | inl e ↦ (e, sym (w.mine k valid e) ∙ f)
    | inr ne ↦ cc (w.others k valid ne, f)
  ]

  new_Serves :
      (h : ℕ) (b : Bool)
      → h < 2 ^ 64
      → prefix h seg.local_depth ≡ prefix hash seg.local_depth
      → split_bit h seg.local_depth ≡ b
      → Serves after h (pointer_of b) (side b seg)
  new_Serves h b lt same bit =
      let w = side-Side b seg old.filled.width old.filled.unique in
      let shallow : seg.local_depth < 64 = omega (arith, directory.shallow) in
      record {
        routed = routed_in h b lt same bit;
        stored = stored_new b;
        unlocked = w.unlocked;
        low = omega (arith, w.depth);
        high = omega (arith, w.depth);
        region = λ h' lt' e.
            let (a, c) =
              (prefix-suc_iff h' h seg.local_depth shallow).0
                (subst (λ m. prefix h' m ≡ prefix h m) w.depth e) in
            routed_in h' b lt' (a ∙ same) (c ∙ bit);
        only = λ h' lt' e.
            elim (ℕ_discrete (prefix h' seg.local_depth) (prefix hash seg.local_depth)) [
              | yes in_it ↦
                  let there = routed_in h' (split_bit h' seg.local_depth) lt' in_it refl in
                  let c = pointer_of-injective (split_bit h' seg.local_depth) b (
                    some-injective (pointer_of (split_bit h' seg.local_depth)) (pointer_of b)
                      (sym there ∙ e)) in
                  subst (λ m. prefix h' m ≡ prefix h m) (sym w.depth)
                    ((prefix-suc_iff h' h seg.local_depth shallow).1
                      (in_it ∙ sym same, c ∙ sym bit))
              | no out ↦
                  let small = is_old h' (pointer_of b) lt' (sym (routed_out h' lt' out) ∙ e) in
                  absurd (omega (arith, pointer_of-large b))
            ];
        filled = record {
          width = w.width;
          unique = w.unique;
          placed = λ k x valid f.
              let (c, g) = old_holds b (side b seg) w k x valid f in
              subst (λ m. prefix (f_hash k) m ≡ prefix h m) (sym w.depth)
                ((prefix-suc_iff (f_hash k) h seg.local_depth shallow).1
                  (old.filled.placed k x valid g ∙ sym same, c ∙ sym bit));
        };
      }

  old_Serves :
      (h i : ℕ) (other : Segment K)
      → h < 2 ^ 64
      → prefix h seg.local_depth ≢ prefix hash seg.local_depth
      → Serves t h i other
      → Serves after h i other
  old_Serves h i other lt out u =
      let u_ne_s : i ≢ s = λ e. out (old.only h lt (u.routed ∙ ap some e)) in
      record {
        routed = routed_out h lt out ∙ u.routed;
        stored = stored_old i other u_ne_s u.stored;
        unlocked = u.unlocked;
        low = u.low;
        high = omega (arith, u.high);
        region = λ h' lt' e.
            let there = u.region h' lt' e in
            elim (ℕ_discrete (prefix h' seg.local_depth) (prefix hash seg.local_depth)) [
              | yes in_it ↦
                  absurd (u_ne_s (some-injective i s (sym there ∙ old.region h' lt' in_it)))
              | no out' ↦ routed_out h' lt' out' ∙ there
            ];
        only = λ h' lt' e.
            elim (ℕ_discrete (prefix h' seg.local_depth) (prefix hash seg.local_depth)) [
              | yes in_it ↦
                  let b = split_bit h' seg.local_depth in
                  let same =
                    some-injective (pointer_of b) i (sym (routed_in h' b lt' in_it refl) ∙ e) in
                  absurd (omega (arith, same, pointer_of-large b, is_old h i lt u.routed))
              | no out' ↦ u.only h' lt' (sym (routed_out h' lt' out') ∙ e)
            ];
        filled = u.filled;
      }

  after-IsValid : IsValid after
  after-IsValid = record {
    directory = directory;
    serves = λ h lt. elim (ℕ_discrete (prefix h seg.local_depth) (prefix hash seg.local_depth)) [
      | yes in_it ↦
          let b = split_bit h seg.local_depth in
          (pointer_of b, side b seg, new_Serves h b lt in_it refl)
      | no out ↦ let (i, other, u) = v.serves h lt in (i, other, old_Serves h i other lt out u)
    ];
  }

  pub after-Contains : Contains (content t) after
  after-Contains = (
    after-IsValid,
    λ k valid.
        let lt = key.hash-lt 0 k _ in
        let h = f_hash k in
        elim (ℕ_discrete (prefix h seg.local_depth) (prefix hash seg.local_depth)) [
          | yes in_it ↦
              let b = split_bit h seg.local_depth in
              let w = side-Side b seg old.filled.width old.filled.unique in
              content-Serves {t = after} k (new_Serves h b lt in_it refl)
              ∙ w.mine k valid refl
              ∙ sym (
                  ap (λ o. held t.segments o k) (old.region h lt in_it)
                  ∙ ap (λ o. elim o [ none ↦ none | some x ↦ find k x.slots ]) old.stored)
          | no out ↦
              let (i, other, u) = v.serves h lt in
              content-Serves {t = after} k (old_Serves h i other lt out u)
              ∙ sym (content-Serves k u)
        ],
  )
