-- ===== src/KeyGenerator.antt =====
-- The key generators of bench/key_generator.h and the two hashes of bench/utils.h that scramble
-- integers. A buffer is the list of its bytes.
pub mod Bytes
pub mod RoundTrip
mod Tests
use hash_bench.Common.{
  ℕ, zero, suc, ◌+◌, ◌-◌, ◌*◌, ◌/◌, ◌%◌, ◌^◌, Bool, true, false, Option, none, some, List, [], ◌∷◌,
  ◌++◌, length, replicate, overwrite, if◌then◌else◌, ◌==◌, ltb, leb,
}
use hash_bench.Word.{u32, u64, bit_xor, signed_char}

-- `multiplicative_hash<uint64_t>` and `multiplicative_hash<uint32_t>`
unfoldable pub multiplicative_hash : ℕ → ℕ
multiplicative_hash x = u64 (11400714819323198393 * x)

unfoldable pub multiplicative_hash32 : ℕ → ℕ
multiplicative_hash32 x = u32 (2654435761 * x)

abbrev pub key_max : ℕ
key_max = 128

-- `buf` and `current_id` are static in the source. What the members inherit from the distribution,
-- `next_id`, is an argument of `next`.
pub record KeyGenerator : Type 0 where
  pub buf : List ℕ
  pub current_id : ℕ
  pub keyspace : ℕ
  pub key_size : ℕ
  pub prefix : List ℕ

-- `memcpy` to `&buf[i]`; `none`: it leaves the array, which is undefined.
abbrev pub memcpy : List ℕ → ℕ → List ℕ → Option (List ℕ)
memcpy buf i bytes =
    if leb (i + length bytes) (length buf) then some (overwrite buf i bytes) else none

-- The first `n` bytes of a number in memory, the lowest one first.
abbrev pub bytes_of : ℕ → ℕ → List ℕ
bytes_of zero x = []
bytes_of (suc n) x = x % 256 ∷ bytes_of n (x / 256)

-- The constructor, on the static members' values.
unfoldable pub new_key_generator : ℕ → ℕ → List ℕ → ℕ → Option KeyGenerator
new_key_generator n key_size prefix current_id = elim (memcpy (replicate key_max 0) 0 prefix) [
  | none ↦ none
  | some buf ↦ some (record {
    buf = buf;
    current_id = current_id;
    keyspace = n;
    key_size = key_size;
    prefix = prefix;
  })
]

unfoldable pub size : KeyGenerator → ℕ
size g = length g.prefix + g.key_size

-- What `next` writes behind the prefix: `none` for a shift by the width of the word, which is
-- undefined.
unfoldable pub id_bytes : ℕ → ℕ → Option (List ℕ)
id_bytes n hashed_id =
    if ltb n 8
    then (let bits_to_shift = (8 - n) * 8 in
        if bits_to_shift == 64
        then none
        else some (bytes_of n (u64 (hashed_id * 2 ^ bits_to_shift) / 2 ^ bits_to_shift)))
    else some (replicate (n - 8) 1 ++ bytes_of 8 hashed_id)

-- `next`, where `drawn` is what `next_id` gives.
unfoldable pub next :
    (sequential : Bool) → (drawn : ℕ) → KeyGenerator → Option (List ℕ × KeyGenerator)
next sequential drawn g =
    let id = if sequential then g.current_id else drawn in
    let current_id = if sequential then u64 (g.current_id + 1) else g.current_id in
    elim (id_bytes g.key_size (multiplicative_hash id)) [
      | none ↦ none
      | some bytes ↦ elim (memcpy g.buf (length g.prefix) bytes) [
        | none ↦ none
        | some buf ↦ some (
          buf,
          record {
            buf = buf;
            current_id = current_id;
            keyspace = g.keyspace;
            key_size = g.key_size;
            prefix = g.prefix;
          },
        )
      ]
    ]

-- `fnv1a<uint64_t>`, byte by byte
unfoldable pub fnv1a_loop : ℕ → List ℕ → ℕ
fnv1a_loop sum [] = sum
fnv1a_loop sum (b ∷ bytes) = fnv1a_loop (u64 (bit_xor sum (signed_char b) * 1099511628211)) bytes

unfoldable pub fnv1a : List ℕ → ℕ
fnv1a bytes = fnv1a_loop 14695981039346656037 bytes
