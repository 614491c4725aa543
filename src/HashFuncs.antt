-- ===== src/HashFuncs.antt =====
-- util/hash.h: jenkins, murmur2 and xxhash over the bytes of a key, and the table `hash_funcs`. The
-- function `standard` is `std::_Hash_bytes`, a parameter. The machine is the source's x86-64: `char`
-- is signed, and a read through a cast pointer is little-endian, aligned or not.
pub mod Mix
pub mod Tail
mod Tests
use hash_bench.Common.{
  ℕ, zero, suc, ◌+◌, ◌-◌, ◌*◌, ◌/◌, ◌%◌, ◌^◌, Bool, true, false, List, [], ◌∷◌, length,
  if◌then◌else◌, ltb, leb, drop, take,
}
use hash_bench.Word.{u32, u64, bit_xor, signed_char, little_endian}

-- One round of the loop of `jenkins`
unfoldable pub jenkins_round : ℕ → ℕ → ℕ
jenkins_round hash b =
    let h1 = u64 (hash + signed_char b) in
    let h2 = u64 (h1 + u64 (h1 * 2 ^ 10)) in bit_xor h2 (h2 / 2 ^ 6)

unfoldable pub jenkins_loop : ℕ → List ℕ → ℕ
jenkins_loop hash [] = hash
jenkins_loop hash (b ∷ key) = jenkins_loop (jenkins_round hash b) key

-- The lines of `jenkins` after the loop
unfoldable pub jenkins_final : ℕ → ℕ
jenkins_final hash =
    let h1 = u64 (hash + u64 (hash * 2 ^ 3)) in
    let h2 = bit_xor h1 (h1 / 2 ^ 11) in u64 (h2 + u64 (h2 * 2 ^ 15))

-- The seed is not used.
unfoldable pub jenkins : List ℕ → ℕ → ℕ
jenkins key seed = jenkins_final (jenkins_loop 0 key)

abbrev pub murmur_m : ℕ
murmur_m = 0x5bd1e995

unfoldable pub murmur_round : ℕ → ℕ → ℕ
murmur_round h k =
    let k1 = u32 (k * murmur_m) in
    let k2 = u32 (bit_xor k1 (k1 / 2 ^ 24) * murmur_m) in bit_xor (u32 (h * murmur_m)) k2

-- The loop over words of 4 bytes, and the `switch` on the bytes that are left, which falls through.
unfoldable pub murmur_loop : ℕ → List ℕ → ℕ
murmur_loop h (a ∷ b ∷ c ∷ d ∷ key) =
    murmur_loop (murmur_round h (little_endian (a ∷ b ∷ c ∷ d ∷ []))) key
murmur_loop h (a ∷ b ∷ c ∷ []) =
    u32 (bit_xor (bit_xor (bit_xor h (c * 2 ^ 16)) (b * 2 ^ 8)) a * murmur_m)
murmur_loop h (a ∷ b ∷ []) = u32 (bit_xor (bit_xor h (b * 2 ^ 8)) a * murmur_m)
murmur_loop h (a ∷ []) = u32 (bit_xor h a * murmur_m)
murmur_loop h [] = h

unfoldable pub murmur_final : ℕ → ℕ
murmur_final h = let h1 = u32 (bit_xor h (h / 2 ^ 13) * murmur_m) in bit_xor h1 (h1 / 2 ^ 15)

unfoldable pub murmur2 : List ℕ → ℕ → ℕ
murmur2 key seed = murmur_final (murmur_loop (u32 (bit_xor seed (length key))) key)

abbrev pub number_1 : ℕ
number_1 = 11400714785074694791

abbrev pub number_2 : ℕ
number_2 = 14029467366897019727

abbrev pub number_3 : ℕ
number_3 = 1609587929392839161

abbrev pub number_4 : ℕ
number_4 = 9650029242287828579

abbrev pub number_5 : ℕ
number_5 = 2870177450012600261

-- `shifting_hash(x, r)`: the two parts of the `|` have no bit in common, so it is their sum.
unfoldable pub shifting_hash : ℕ → ℕ → ℕ
shifting_hash x r = u64 (x * 2 ^ r) + x / 2 ^ (64 - r)

-- `hash_get64bits(p)` and `hash_get32bits(p)`
abbrev pub read64 : List ℕ → ℕ
read64 p = little_endian (take 8 p)

abbrev pub read32 : List ℕ → ℕ
read32 p = little_endian (take 4 p)

pub record Lanes : Type 0 where
  pub v1 : ℕ
  pub v2 : ℕ
  pub v3 : ℕ
  pub v4 : ℕ

-- `v += k * NUMBER64_2; v = shifting_hash(v, 31); v *= NUMBER64_1`
unfoldable pub lane_round : ℕ → ℕ → ℕ
lane_round v k = u64 (shifting_hash (u64 (v + u64 (k * number_2))) 31 * number_1)

-- The loop over stripes of 32 bytes, with fuel for its rounds: the hash state and the bytes left.
unfoldable pub stripes : ℕ → Lanes → List ℕ → Lanes × List ℕ
stripes zero v p = (v, p)
stripes (suc n) v p =
    let p1 = drop 8 p in
    let p2 = drop 8 p1 in
    let p3 = drop 8 p2 in
    let p4 = drop 8 p3 in
    let v' : Lanes = record {
      v1 = lane_round v.v1 (read64 p);
      v2 = lane_round v.v2 (read64 p1);
      v3 = lane_round v.v3 (read64 p2);
      v4 = lane_round v.v4 (read64 p3);
    } in
    let rest = stripes n v' p4 in if leb 32 (length p4) then rest else (v', p4)

-- `v *= NUMBER64_2; v = shifting_hash(v, 31); v *= NUMBER64_1; hash ^= v; ...`
unfoldable pub merge_lane : ℕ → ℕ → ℕ
merge_lane hash v =
    let v' = u64 (shifting_hash (u64 (v * number_2)) 31 * number_1) in
    u64 (u64 (bit_xor hash v' * number_1) + number_4)

unfoldable pub merge_lanes : Lanes → ℕ
merge_lanes v =
    let hash = u64 (
      shifting_hash v.v1 1
      + shifting_hash v.v2 7
      + shifting_hash v.v3 12
      + shifting_hash v.v4 18) in
    merge_lane (merge_lane (merge_lane (merge_lane hash v.v1) v.v2) v.v3) v.v4

-- The hash before the tail of the input, and the tail
unfoldable pub xx_body : List ℕ → ℕ → ℕ × List ℕ
xx_body p seed =
    if leb 32 (length p)
    then (let (v, rest) =
          stripes (length p)
            (record {
              v1 = u64 (seed + number_1 + number_2);
              v2 = u64 (seed + number_2);
              v3 = u64 seed;
              v4 = u64 (u64 seed + 2 ^ 64 - number_1);
            })
            p in
        (merge_lanes v, rest))
    else (u64 (seed + number_5), p)

-- `while (p + 8 <= end)`, `if (p + 4 <= end)` and `while (p < end)`
unfoldable pub xx_words : ℕ → List ℕ → ℕ × List ℕ
xx_words hash (a ∷ b ∷ c ∷ d ∷ e ∷ f ∷ g ∷ h ∷ p) =
    xx_words
      (u64 (
        shifting_hash
            (bit_xor hash (
              u64 (
                shifting_hash (u64 (little_endian (a ∷ b ∷ c ∷ d ∷ e ∷ f ∷ g ∷ h ∷ []) * number_2))
                  31
                * number_1)))
            27
          * number_1
        + number_4))
      p
xx_words hash p = (hash, p)

unfoldable pub xx_half_word : ℕ → List ℕ → ℕ × List ℕ
xx_half_word hash p =
    if leb 4 (length p)
    then (
      u64 (shifting_hash (bit_xor hash (u64 (read32 p * number_1))) 23 * number_2 + number_3),
      drop 4 p,
    )
    else (hash, p)

unfoldable pub xx_bytes : ℕ → List ℕ → ℕ
xx_bytes hash [] = hash
xx_bytes hash (b ∷ p) =
    xx_bytes (u64 (shifting_hash (bit_xor hash (u64 (b * number_5))) 11 * number_1)) p

-- The lines after the last loop
unfoldable pub xx_final : ℕ → ℕ
xx_final hash =
    let h1 = u64 (bit_xor hash (hash / 2 ^ 33) * number_2) in
    let h2 = u64 (bit_xor h1 (h1 / 2 ^ 29) * number_3) in bit_xor h2 (h2 / 2 ^ 32)

-- `hash_compute`; `align` chooses between two reads that are the same on this machine.
unfoldable pub xxhash : List ℕ → ℕ → ℕ
xxhash key seed =
    let (hash, p) = xx_body key seed in
    let (hash', p') = xx_words (u64 (hash + length key)) p in
    let (hash'', p'') = xx_half_word hash' p' in xx_final (xx_bytes hash'' p'')

-- `hash_funcs[i](key, len, seed)`: an index past the table is not a call of the source.
unfoldable pub hash_funcs : (List ℕ → ℕ → ℕ) → ℕ → List ℕ → ℕ → ℕ
hash_funcs standard zero = standard
hash_funcs standard (suc zero) = murmur2
hash_funcs standard (suc (suc zero)) = jenkins
hash_funcs standard (suc (suc (suc i))) = xxhash
