-- ===== src/HashFuncs/Tests.antt =====
-- The hash functions of util/hash.h at known inputs, and their theorems at examples.
use hash_bench.Common.{ℕ, ◌≡◌, refl, List, [], ◌∷◌, drop, arith}
use hash_bench.Word.{u64}
use hash_bench.HashFuncs.Tail.{lanes_after, stripes_lem}
use hash_bench.HashFuncs.{
  Lanes, jenkins_round, jenkins_loop, jenkins_final, jenkins, murmur_round, murmur_loop,
  murmur_final, murmur2, shifting_hash, lane_round, stripes, merge_lane, merge_lanes, xx_body,
  xx_words, xx_half_word, xx_bytes, xx_final, xxhash, hash_funcs,
}

program : Unit {0}
unfolding jenkins_round jenkins_loop jenkins_final jenkins murmur_round murmur_loop murmur_final
    murmur2 shifting_hash lane_round stripes merge_lane merge_lanes xx_body xx_words xx_half_word
    xx_bytes xx_final xxhash hash_funcs
program = tt

-- XXH64 of the empty input and of "abc", from the reference implementation.
xxhash_empty : xxhash [] 0 ≡ 0xef46db3751d8e999
unfolding program
xxhash_empty = refl

xxhash_abc : xxhash (b'a' ∷ b'b' ∷ b'c' ∷ []) 0 ≡ 0x44bc2cf5ad770999
unfolding program
xxhash_abc = refl

abbrev ishmael : List ℕ
ishmael =
    67 ∷ 97 ∷ 108 ∷ 108 ∷ 32 ∷ 109 ∷ 101 ∷ 32 ∷ 73 ∷ 115 ∷ 104 ∷ 109 ∷ 97 ∷ 101 ∷ 108 ∷ 46 ∷ 32 ∷ 83
    ∷ 111 ∷ 109 ∷ 101 ∷ 32 ∷ 121 ∷ 101 ∷ 97 ∷ 114 ∷ 115 ∷ 32 ∷ 97 ∷ 103 ∷ 111 ∷ 45 ∷ 45 ∷ 110 ∷ 101
    ∷ 118 ∷ 101 ∷ 114 ∷ 32 ∷ 109 ∷ 105 ∷ 110 ∷ 100 ∷ 32 ∷ 104 ∷ 111 ∷ 119 ∷ 32 ∷ 108 ∷ 111 ∷ 110
    ∷ 103 ∷ 32 ∷ 112 ∷ 114 ∷ 101 ∷ 99 ∷ 105 ∷ 115 ∷ 101 ∷ 108 ∷ 121 ∷ 45 ∷ []

-- XXH64 of a longer text of the reference implementation's users.
xxhash_long : xxhash ishmael 0 ≡ 0x02a2e85470d6fd96
unfolding program
xxhash_long = refl

-- Seven bytes, so that the loop and the `switch` both run.
murmur2_seven : murmur2 (104 ∷ 101 ∷ 108 ∷ 108 ∷ 111 ∷ 32 ∷ 119 ∷ []) 7 ≡ 1771328160
unfolding program
murmur2_seven = refl

-- The last byte is a negative `char`.
jenkins_negative : jenkins (104 ∷ 101 ∷ 121 ∷ 255 ∷ []) 0 ≡ 15383213459115957362
unfolding program
jenkins_negative = refl

abbrev only_seed : List ℕ → ℕ → ℕ
only_seed key seed = u64 seed

abbrev lanes : Lanes
lanes = record { v1 = 1; v2 = 2; v3 = 3; v4 = 4 }

stripes_lem_example : stripes 63 lanes ishmael ≡ (lanes_after ishmael lanes 1, drop 32 ishmael)
stripes_lem_example = stripes_lem 63 lanes ishmael (omega arith) (omega arith)
