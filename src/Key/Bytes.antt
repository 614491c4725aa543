-- ===== src/Key/Bytes.antt =====
-- Keys as the tables see them in memory: `sizeof(Key_t)` bytes, compared by `memcmp` and hashed by
-- the functions of util/hash.h. So are both the 8-byte keys and the arrays of characters.
use hash_bench.Common.{
  ℕ, ◌<◌, ◌^◌, ◌≡◌, refl, ap₂, subst, arith, Bool, true, false, ◌&&◌, ◌==◌, List, [], ◌∷◌,
  replicate,
}
use hash_bench.HashFuncs.{hash_funcs}
use hash_bench.HashFuncs.Mix.{hash_funcs-lt}
use hash_bench.Key.{Key}

-- `memcmp(a, b, sizeof(Key_t)) == 0`
abbrev pub same_bytes : List ℕ → List ℕ → Bool
same_bytes [] [] = true
same_bytes [] (b ∷ ys) = false
same_bytes (a ∷ xs) [] = false
same_bytes (a ∷ xs) (b ∷ ys) = (a == b) && same_bytes xs ys

pub same_bytes_to : (a b : List ℕ) → same_bytes a b ≡ true → a ≡ b
same_bytes_to [] [] e = refl
same_bytes_to [] (b ∷ ys) e = cc
same_bytes_to (a ∷ xs) [] e = cc
same_bytes_to (a ∷ xs) (b ∷ ys) e =
    let first : a ≡ b = ground (arith, e) in
    let rest : same_bytes xs ys ≡ true = ground (arith, e) in
    ap₂ (λ x r. x ∷ r) first (same_bytes_to xs ys rest)

pub same_bytes_refl : (a : List ℕ) → same_bytes a a ≡ true
same_bytes_refl [] = refl
same_bytes_refl (a ∷ xs) =
    let first : (a == a) ≡ true = ground arith in rw (first, same_bytes_refl xs) refl

-- The keys of `size` bytes, over `std::_Hash_bytes`, which is taken to return a `size_t`. A list of
-- another length is no key of the source.
abbrev pub byte_key :
    (standard : List ℕ → ℕ → ℕ)
    → ((key : List ℕ) (seed : ℕ) → standard key seed < 2 ^ 64)
    → (size uninitialised : ℕ) → Key (List ℕ)
byte_key standard bound size uninitialised = record {
  same = same_bytes;
  same_iff =
      λ a b. (same_bytes_to a b, λ e. subst (λ c. same_bytes a c ≡ true) e (same_bytes_refl a));
  invalid = replicate size 0;
  hash_funcs = hash_funcs standard;
  hash-lt = λ i k seed. (hash_funcs-lt standard bound i k seed).0;
  uninitialised = uninitialised;
}
