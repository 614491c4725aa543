-- ===== src/Word.antt =====
-- Machine words as native numbers: the casts, shifts and the exclusive or of the source.
pub mod Powers
pub mod Xor
use hash_bench.Common.{ℕ, ◌+◌, ◌*◌, ◌/◌, ◌%◌, ◌^◌, ◌-◌, if◌then◌else◌, ltb, List, [], ◌∷◌}
pub use Prim.Native.Nat.{bit_xor}

abbrev pub u32 : ℕ → ℕ
u32 n = n % 2 ^ 32

abbrev pub u64 : ℕ → ℕ
u64 n = n % 2 ^ 64

-- A `char` as a `size_t`: the sign is extended.
abbrev pub signed_char : ℕ → ℕ
signed_char b = if ltb b 128 then b else b + 2 ^ 64 - 256

-- The number that bytes stand for, the first one lowest: a read through a cast pointer.
abbrev pub little_endian : List ℕ → ℕ
little_endian [] = 0
little_endian (b ∷ bs) = b + 256 * little_endian bs
