-- ===== src/GenericKey.antt =====
-- `GenericKey` of util/config.h: a string in an array of `keySize` characters. The array is the list
-- of its bytes, and a `std::string` that of its characters, which may hold the byte 0.
pub mod Compare
mod Tests
use Prim.Native.Nat.{Ordering, lt, eq, gt}
use hash_bench.Common.{
  ℕ, zero, suc, ◌-◌, Bool, true, false, Option, none, some, List, [], ◌∷◌, ◌++◌, length, replicate,
  take, set, overwrite, if◌then◌else◌, ◌==◌, leb, ltb,
}

-- What `strcpy` and `strcmp` see of a string: the bytes in front of the first 0.
abbrev pub until_nul : List ℕ → List ℕ
until_nul [] = []
until_nul (zero ∷ xs) = []
until_nul (suc x ∷ xs) = suc x ∷ until_nul xs

-- `setFromString`: what it leaves in `data`, for a `keySize` of 1 or more.
unfoldable pub set_from_string : (key_size : ℕ) → List ℕ → List ℕ
set_from_string key_size key =
    let cleared = replicate key_size 0 in
    if leb key_size (length key)
    then set (overwrite cleared 0 (take (key_size - 1) key)) (key_size - 1) 0
    else overwrite cleared 0 (until_nul key ++ 0 ∷ [])

-- `strcmp`, on the bytes of the two arrays; `none`: it reads behind one of them.
unfoldable pub strcmp : List ℕ → List ℕ → Option Ordering
strcmp [] ys = none
strcmp (x ∷ xs) [] = none
strcmp (x ∷ xs) (y ∷ ys) =
    let rest = strcmp xs ys in
    if ltb x y then some lt else if ltb y x then some gt else if x == 0 then some eq else rest

abbrev pub is_eq : Ordering → Bool
is_eq eq = true
is_eq lt = false
is_eq gt = false

-- `operator==`
unfoldable pub same : List ℕ → List ℕ → Option Bool
same xs ys = elim (strcmp xs ys) [ none ↦ none | some o ↦ some (is_eq o) ]
