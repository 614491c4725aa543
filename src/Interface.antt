-- ===== src/Interface.antt =====
-- index/interface.h: what a client of a table may call, with what each call promises. The clients
-- in the modules below know the tables only by it; `Interface.Tables` makes it of the three tables.
pub mod Loops
pub mod Client
pub mod Passes
pub mod Refinement
pub mod Tables
pub mod Input
pub mod Load
mod Tests
use hash_bench.Common.{ℕ, ◌≡◌, Bool, true, false, Option, none, some}
use mathlib.Core.Option
use hash_bench.Key.{Key, is_invalid}
use hash_bench.Dict.{assign, is_some, value_or_none}

-- `t` is a valid table that holds the map `m`.
abbrev pub Models {ℓ} :
    {K T : Type ℓ} → ⦃key : Key K⦄ → (T → Type ℓ) → (T → K → Option ℕ) → (K → Option ℕ) → T → Type ℓ
Models {K = K} valid view m t = valid t × ((k : K) → is_invalid k ≡ false → view t k ≡ m k)

-- `none` for an operation is a fault or a call that does not return.
pub record Hash {ℓ} (K : Type ℓ) ⦃key : Key K⦄ : Type (ℓ + 1) where
  pub Table : Type ℓ
  pub insert : Table → K → ℕ → Option Table
  pub update : Table → K → ℕ → Option (Bool × Table)
  pub delete : Table → K → Option (Bool × Table)
  pub get : Table → K → Option ℕ
  -- the value that a table holds for a key, where its invariant holds
  pub view : Table → K → Option ℕ
  pub IsValid : Table → Type ℓ
  -- that a table has not outgrown what its operations promise anything for; insertions keep it so
  -- only forwards
  pub IsSmall : Table → Type 0
  pub small_before :
      {t t' : Table} (k : K) (x : ℕ) → insert t k x ≡ some t' → IsSmall t' → IsSmall t
  pub small_before-update :
      {t t' : Table} (k : K) (x : ℕ) {found : Bool}
      → update t k x ≡ some (found, t')
      → IsSmall t'
      → IsSmall t
  pub get-view :
      {t : Table} (k : K)
      → IsValid t
      → is_invalid k ≡ false
      → get t k ≡ some (value_or_none (view t k))
  pub insert-view :
      {t t' : Table} (k : K) (x : ℕ)
      → IsValid t
      → is_invalid k ≡ false
      → view t k ≡ none
      → insert t k x ≡ some t'
      → IsSmall t'
      → Models IsValid view (assign (view t) k (some x)) t'
  pub update-view :
      {t : Table} (k : K) (x : ℕ)
      → IsValid t
      → is_invalid k ≡ false
      → (t' : Table) × (update t k x ≡ some (is_some (view t k), t'))
        × Models IsValid view (assign (view t) k (Option.map (λ _. x) (view t k))) t'
  pub delete-view :
      {t : Table} (k : K)
      → IsValid t
      → is_invalid k ≡ false
      → (t' : Table) × (delete t k ≡ some (is_some (view t k), t'))
        × Models IsValid view (assign (view t) k none) t'
