-- ===== src/Extendible/View.antt =====
-- The table of index/extendible_hash.h as a map, and `Get` on it.
use hash_bench.Common.{
  ℕ, ◌^◌, ◌≤◌, ◌<◌, ◌≡◌, ◌∙◌, inl, inr, ap, arith, true, false, Option, none, some, List, length,
  get_elem?, Option-cases,
}
use hash_bench.Key.{Key, is_invalid}
use hash_bench.Dict.{
  Pair, count, find, Unique, assign, assign_self, value_or_none, none_value, is_some, write_value,
  write_key,
}
use hash_bench.Dict
use hash_bench.Probe.{has, passes_lem, search-none, search_sound, Covers-mod}
use hash_bench.Extendible.{
  Segment, Table, num_slot, prefix, route, f_hash, f_idx, slot_at, acquire, acquire_after, locate,
  get,
}
use hash_bench.Extendible.Routing.{IsDirectory}

module _ {ℓ} {K : Type ℓ} ⦃key : Key K⦄ where
  -- The slots of a segment that serves the hashes with the leading bits of `h`.
  pub record IsFilled (local_depth h : ℕ) (slots : List (Pair K)) : Type ℓ where
    pub width : length slots ≡ num_slot
    pub unique : Unique slots
    pub placed :
        (k : K) (v : ℕ)
        → is_invalid k ≡ false
        → find k slots ≡ some v
        → prefix (f_hash k) local_depth ≡ prefix h local_depth

  -- `s` points to the segment `seg`, to which the directory leads `h`, and those hashes that have
  -- the same first `local_depth` bits.
  pub record Serves (t : Table K) (h s : ℕ) (seg : Segment K) : Type ℓ where
    pub routed : route t.dir h ≡ some s
    pub stored : get_elem? t.segments s ≡ some seg
    pub unlocked : seg.locked ≡ false
    pub low : 0 < seg.local_depth
    pub high : seg.local_depth ≤ t.dir.depth
    pub region :
        (h' : ℕ)
        → h' < 2 ^ 64
        → prefix h' seg.local_depth ≡ prefix h seg.local_depth
        → route t.dir h' ≡ some s
    pub only :
        (h' : ℕ)
        → h' < 2 ^ 64
        → route t.dir h' ≡ some s
        → prefix h' seg.local_depth ≡ prefix h seg.local_depth
    pub filled : IsFilled seg.local_depth h seg.slots

  pub record IsValid (t : Table K) : Type ℓ where
    pub directory : IsDirectory t.dir
    pub serves : (h : ℕ) → h < 2 ^ 64 → (s : ℕ) × (seg : Segment K) × Serves t h s seg

  -- What the segment with pointer `o` holds for `k`.
  abbrev pub held : List (Segment K) → Option ℕ → K → Option ℕ
  held segments none k = none
  held segments (some s) k = elim (get_elem? segments s) [
    | none ↦ none
    | some seg ↦ find k seg.slots
  ]

  -- the table as a map
  abbrev pub content : Table K → K → Option ℕ
  content t k = held t.segments (route t.dir (f_hash k)) k

  -- `t` is a valid table that holds the map `m`.
  abbrev pub Contains : (K → Option ℕ) → Table K → Type ℓ
  Contains m t = IsValid t × ((k : K) → is_invalid k ≡ false → content t k ≡ m k)

  pub content-Serves :
      {t : Table K} (k : K) {s : ℕ} {seg : Segment K}
      → Serves t (f_hash k) s seg
      → content t k ≡ find k seg.slots
  content-Serves {t} k {s} {seg} v =
      ap (λ o. held t.segments o k) v.routed
      ∙ ap (λ o. elim o [ none ↦ none | some x ↦ find k x.slots ]) v.stored

  pub acquire-Serves :
      {t : Table K} (h s : ℕ) (seg : Segment K) → Serves t h s seg → acquire t h ≡ some (s, seg)
  unfolding acquire
  acquire-Serves h s seg v = ground (arith, v.routed, v.stored, v.unlocked)

  pub acquire_after-Serves :
      {t : Table K} (h s : ℕ) (seg : Segment K)
      → IsDirectory t.dir
      → Serves t h s seg
      → acquire_after t h ≡ some (s, seg)
  unfolding acquire_after
  acquire_after-Serves h s seg d v = ground (arith, d.idle, acquire-Serves h s seg v)

  -- A search of a segment finds the slot of a key, or the segment does not hold it.
  pub locate-none :
      (k : K) (seg : Segment K)
      → length seg.slots ≡ num_slot
      → locate seg k ≡ none
      → find k seg.slots ≡ none
  unfolding locate
  locate-none k seg wide e =
      Dict.find-eq-none k seg.slots (
        search-none k (slot_at (f_idx k)) seg.slots num_slot wide (Covers-mod (f_idx k) num_slot) e)

  pub locate-some :
      (k : K) (seg : Segment K) {s : ℕ}
      → Unique seg.slots
      → is_invalid k ≡ false
      → locate seg k ≡ some s
      → (p : Pair K) × (get_elem? seg.slots s ≡ some p)
        × (has k p ≡ true)
        × (find k seg.slots ≡ some p.value)
  unfolding locate
  locate-some k seg {s} once valid e =
      let (p, r, h) =
        passes_lem k seg.slots s
          (search_sound (has k) (slot_at (f_idx k)) seg.slots num_slot 0 e).0 in
      (p, r, h, Dict.find-at k seg.slots s p (once k valid) r h)

  -- `Get` of a valid key in a valid table returns the value that the table holds for the key, and
  -- `NONE` if it holds none.
  pub get-content :
      {t : Table K} (k : K)
      → IsValid t
      → is_invalid k ≡ false
      → get t k ≡ some (value_or_none (content t k))
  unfolding get
  get-content {t} k v valid =
      let (s, seg, serves) = v.serves (f_hash k) (key.hash-lt 0 k _) in
      let got = acquire_after-Serves (f_hash k) s seg v.directory serves in
      let seen = content-Serves k serves in
      elim (Option-cases (locate seg k)) [
        | inl e ↦ ground (arith, got, e, seen, locate-none k seg serves.filled.width e)
        | inr (i, e) ↦
            let (p, r, h, f) = locate-some k seg serves.filled.unique valid e in
            ground (arith, got, e, r, f, seen)
      ]
