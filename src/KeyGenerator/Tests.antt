-- ===== src/KeyGenerator/Tests.antt =====
-- The key generators of bench/key_generator.h on known identifiers, and their theorem at an example.
use hash_bench.Common.{ℕ, ◌≡◌, refl, arith, true, some, List, [], ◌∷◌, replicate, ◌++◌}
use hash_bench.KeyGenerator.{KeyGenerator, fnv1a, fnv1a_loop, new_key_generator}
use hash_bench.KeyGenerator.RoundTrip.{IsValid, NextKey, next-NextKey}

-- FNV-1a of "a", from the reference implementation.
fnv1a_a : fnv1a (97 ∷ []) ≡ 0xaf63dc4c8601ec8c
unfolding fnv1a fnv1a_loop
fnv1a_a = refl

abbrev usr : List ℕ
usr = 117 ∷ 115 ∷ 114 ∷ []

abbrev started : KeyGenerator
started = record {
  buf = usr ++ replicate 125 0;
  current_id = 5;
  keyspace = 1000;
  key_size = 12;
  prefix = usr;
}

started_lem : new_key_generator 1000 12 usr 5 ≡ some started
unfolding new_key_generator
started_lem = refl

started-IsValid : IsValid started
started-IsValid = record {
  width = refl;
  prefixed = refl;
  some_room = omega arith;
  fits = omega arith;
}

next-NextKey_example : NextKey started true 0 5
next-NextKey_example = next-NextKey started true 0 started-IsValid
