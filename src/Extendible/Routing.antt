-- ===== src/Extendible/Routing.antt =====
-- Where the directory of index/extendible_hash.h leads each hash after a split.
use hash_bench.Common.{
  ℕ, suc, ◌+◌, ◌-◌, ◌*◌, ◌/◌, ◌%◌, ◌^◌, ◌≤◌, ◌<◌, ◌≡◌, ◌∙◌, sym, ap, ap₂, subst, refl, arith,
  ℕ_discrete, Bool, true, false, Option, none, some, List, length, get_elem?, if◌then◌else◌, ◌==◌,
  ==_iff, lt→ltb,
}
use native.Mathlib.Nat.{pow-suc}
use hash_bench.Common.Int.{ℤ, pos, negsuc}
use hash_bench.Extendible.{
  Directory, prefix, split_bit, pointer, route, double, fill, fill_pair, fill_stride, in_range,
  update_directory,
}
use hash_bench.Extendible.Bits.{prefix-prefix, prefix-lt}
use hash_bench.Word.Powers.{pow-add, pow-pos}
use hash_bench.Extendible.Entries.{
  double-length, double-get, fill-length, fill_stride-get, fill_pair-stride, ==_no,
}

-- The directory has an entry for each pattern of `depth` bits, no thread is in `lock` or `suspend`,
-- and it is not so deep that it cannot double.
pub record IsDirectory (d : Directory) : Type 0 where
  pub width : length d.entries ≡ 2 ^ d.depth
  pub counted : d.capacity ≡ 2 ^ d.depth
  pub deep : 0 < d.depth
  pub shallow : d.depth ≤ 64
  pub idle : d.sema ≡ pos 0

-- Where `d'` leads the hashes once the segment of depth `local_depth` on the way of `hash` is split.
abbrev pub Reroutes : Directory → Directory → ℕ → ℕ → ℕ → ℕ → Type 0
Reroutes d d' local_depth hash s0 s1 =
    (h : ℕ)
    → h < 2 ^ 64
    → route d' h ≡ (
        if prefix h local_depth == prefix hash local_depth
        then some (if split_bit h local_depth then s1 else s0)
        else route d h)

pointer_if :
    (b : Bool) (s : ℕ) (o : Option (Option ℕ))
    → pointer (if b then some (some s) else o) ≡ (if b then some s else pointer o)
pointer_if true s o = refl
pointer_if false s o = refl

when_idle :
    (s : ℤ) (o : Option Directory) → s ≡ pos 0 → (elim s [ pos n ↦ o | negsuc n ↦ none ]) ≡ o
when_idle (pos n) o e = refl
when_idle (negsuc n) o e = cc

fill_stride-length :
    (es : List (Option ℕ)) (x stride s0 s1 : ℕ) → length (fill_stride es x stride s0 s1) ≡ length es
unfolding fill_stride
fill_stride-length es x stride s0 s1 =
    let loc = x - x % stride in
    fill-length (fill es (loc + stride / 2) (stride / 2) s1) loc (stride / 2) s0
    ∙ fill-length es (loc + stride / 2) (stride / 2) s1

-- What the integers of the source do not hold does not return.
pub update_directory-over :
    (d : Directory) (local_depth hash s0 s1 : ℕ)
    → in_range d.depth local_depth ≡ false
    → update_directory d local_depth hash s0 s1 ≡ none
unfolding update_directory
update_directory-over d local_depth hash s0 s1 over = rw (update_directory, over) refl

pub in_range-shallow :
    (d : Directory) (local_depth : ℕ)
    → 0 < local_depth
    → local_depth ≤ d.depth
    → d.depth < 32
    → in_range d.depth local_depth ≡ true
unfolding in_range
in_range-shallow d local_depth low le room = elim (ℕ_discrete local_depth d.depth) [
  | yes same ↦ rw ((==_iff _ _).1 same) (lt→ltb _ _ room)
  | no other ↦
      let less : d.depth - local_depth < 31 = omega arith in rw (==_no _ _ other) (lt→ltb _ _ less)
]

module _ (d : Directory) (local_depth hash s0 s1 : ℕ) (v : IsDirectory d) where
  strided-Reroutes :
      0 < local_depth
      → local_depth < d.depth
      → (d' : Directory) → d'.depth ≡ d.depth
      → d'.entries ≡ fill_stride d.entries (prefix hash d.depth) (2 ^ (d.depth - local_depth)) s0 s1
      → Reroutes d d' local_depth hash s0 s1
  unfolding route
  strided-Reroutes low lt d' same es h bound =
      let D = d.depth in
      let half = 2 ^ (D - (local_depth + 1)) in
      let less : 64 - (local_depth + 1) ≡ 64 - local_depth - 1 = omega arith in
      let up : D - local_depth ≡ suc (D - (local_depth + 1)) = omega arith in
      let power : 2 ^ (D - local_depth) ≡ 2 ^ suc (D - (local_depth + 1)) = ap (λ n. 2 ^ n) up in
      let stride : 2 ^ (D - local_depth) ≡ 2 * half =
        omega (arith, power, pow-suc 2 (D - (local_depth + 1))) in
      let shift : 2 ^ (64 - (local_depth + 1)) ≡ 2 ^ (64 - local_depth - 1) =
        ap (λ n. 2 ^ n) less in
      let y = prefix h D in
      let x = prefix hash D in
      let ya : y / (2 * half) ≡ prefix h local_depth =
        ap (λ n. y / n) (sym stride) ∙ prefix-prefix h D local_depth (omega arith) v.shallow in
      let xa : x / (2 * half) ≡ prefix hash local_depth =
        ap (λ n. x / n) (sym stride) ∙ prefix-prefix hash D local_depth (omega arith) v.shallow in
      let ba : y / half ≡ h / 2 ^ (64 - local_depth - 1) =
        prefix-prefix h D (local_depth + 1) (omega arith) v.shallow ∙ ap (λ n. h / n) shift in
      let at =
        fill_stride-get d.entries x half s0 s1 y (pow-pos (D - (local_depth + 1)))
          (omega (arith, prefix-lt h D bound v.shallow, v.width)) in
      let all = es ∙ ap (λ n. fill_stride d.entries x n s0 s1) stride in
      ap₂ (λ a n. pointer (get_elem? a (prefix h n))) all same
      ∙ ap pointer at
      ∙ pointer_if (y / (2 * half) == x / (2 * half)) (if y / half % 2 == 1 then s1 else s0)
          (get_elem? d.entries y)
      ∙ ap₂ (λ m n. if m == n then some (if y / half % 2 == 1 then s1 else s0) else route d h) ya xa
      ∙ ap
          (λ n.
            if prefix h local_depth == prefix hash local_depth
            then some (if n % 2 == 1 then s1 else s0)
            else route d h)
          ba

  doubled : Directory
  doubled = record {
    entries = double d.entries 0 (prefix hash d.depth) s0 s1;
    sema = pos 0;
    capacity = 2 ^ (d.depth + 1);
    depth = d.depth + 1;
  }

  doubled-Reroutes : d.depth < 64 → Reroutes d doubled d.depth hash s0 s1
  unfolding route doubled
  doubled-Reroutes room h bound =
      let D = d.depth in
      let z = prefix h (D + 1) in
      let y = prefix h D in
      let x = prefix hash D in
      let step : D + 1 - D ≡ 1 = omega arith in
      let less : 64 - (D + 1) ≡ 64 - D - 1 = omega arith in
      let one : 2 ^ (D + 1 - D) ≡ 2 = ap (λ n. 2 ^ n) step in
      let half : z / 2 ≡ y =
        ap (λ n. z / n) (sym one) ∙ prefix-prefix h (D + 1) D (omega arith) (omega arith) in
      let parts : z ≡ y + y + z % 2 = omega arith in
      let ba : z ≡ h / 2 ^ (64 - D - 1) = ap (λ n. h / 2 ^ n) less in
      let at =
        double-get d.entries 0 x s0 s1 y (z % 2)
          (omega (arith, prefix-lt h D bound v.shallow, v.width)) (omega arith) in
      let plain : 0 + y ≡ y = omega arith in
      ap (λ n. pointer (get_elem? (double d.entries 0 x s0 s1) n)) parts
      ∙ ap pointer at
      ∙ pointer_if (0 + y == x) (if z % 2 == 1 then s1 else s0) (get_elem? d.entries y)
      ∙ ap (λ n. if n == x then some (if z % 2 == 1 then s1 else s0) else route d h) plain
      ∙ ap (λ n. if y == x then some (if n % 2 == 1 then s1 else s0) else route d h) ba

  doubled-IsDirectory : d.depth < 64 → IsDirectory doubled
  unfolding doubled
  doubled-IsDirectory room = record {
    width = omega (
      arith,
      double-length d.entries 0 (prefix hash d.depth) s0 s1,
      v.width,
      pow-add 2 d.depth 1,
    );
    counted = refl;
    deep = omega arith;
    shallow = omega arith;
    idle = refl;
  }

  split_entries : List (Option ℕ)
  split_entries =
      if d.depth == local_depth + 1
      then fill_pair d.entries (prefix hash d.depth) s0 s1
      else fill_stride d.entries (prefix hash d.depth) (2 ^ (d.depth - local_depth)) s0 s1

  split_entries_lem :
      local_depth < d.depth
      → split_entries
        ≡ fill_stride d.entries (prefix hash d.depth) (2 ^ (d.depth - local_depth)) s0 s1
  unfolding split_entries
  split_entries_lem lt = elim (ℕ_discrete d.depth (local_depth + 1)) [
    | yes next ↦
        let step : 1 ≡ d.depth - local_depth = omega arith in
        rw ((==_iff _ _).1 next) (
          fill_pair-stride d.entries (prefix hash d.depth) s0 s1
          ∙ ap (λ n. fill_stride d.entries (prefix hash d.depth) (2 ^ n) s0 s1) step)
    | no more ↦ rw (==_no _ _ more)
  ]

  -- `update_directory-Reroutes`, wherever the integers of the source hold.
  pub in_range-Reroutes :
      0 < local_depth
      → local_depth ≤ d.depth
      → d.depth < 64
      → in_range d.depth local_depth ≡ true
      → (d' : Directory) × (update_directory d local_depth hash s0 s1 ≡ some d')
        × IsDirectory d'
        × (d.depth ≤ d'.depth)
        × (local_depth < d'.depth)
        × Reroutes d d' local_depth hash s0 s1
  unfolding update_directory doubled split_entries
  in_range-Reroutes low le room fits = elim (ℕ_discrete local_depth d.depth) [
    | yes same ↦ (
      doubled,
      rw (update_directory, fits, (==_iff _ _).1 same, v.idle) refl,
      doubled-IsDirectory room,
      omega arith,
      omega arith,
      subst (λ n. Reroutes d doubled n hash s0 s1) (sym same) (doubled-Reroutes room),
    )
    | no other ↦
        let lt : local_depth < d.depth = omega arith in
        let es = split_entries_lem lt in
        let d' = record d { entries = split_entries } in
        (
          d',
          rw (update_directory, fits, ==_no _ _ other) (when_idle d.sema (some d') v.idle),
          record {
            width =
                ap length es
                ∙ fill_stride-length d.entries (prefix hash d.depth) (2 ^ (d.depth - local_depth))
                    s0 s1
                ∙ v.width;
            counted = v.counted;
            deep = v.deep;
            shallow = v.shallow;
            idle = v.idle;
          },
          omega arith,
          lt,
          strided-Reroutes low lt d' refl es,
        )
  ]

  -- Where `local_depth` is at least 1 and at most the depth of the directory, which is less than
  -- 32, so that the source's 32-bit counter and `int` stride hold, the update of the directory
  -- after a split returns, by doubling or in place, a directory that is again well formed, not
  -- less deep and deeper than `local_depth`. It leads a hash of 64 bits to `s1` or `s0`, as its
  -- next bit says, where its first `local_depth` bits are those of `hash`, and else to where it
  -- led before.
  pub update_directory-Reroutes :
      0 < local_depth
      → local_depth ≤ d.depth
      → d.depth < 32
      → (d' : Directory) × (update_directory d local_depth hash s0 s1 ≡ some d')
        × IsDirectory d'
        × (d.depth ≤ d'.depth)
        × (local_depth < d'.depth)
        × Reroutes d d' local_depth hash s0 s1
  update_directory-Reroutes low le room =
      in_range-Reroutes low le (omega arith) (in_range-shallow d local_depth low le room)
