-- ===== src/Interface/Tables.antt =====
-- The three tables as instances of the record of index/interface.h; `getInstance` of util/config.h.
use hash_bench.Common.{
  ℕ, ◌*◌, ◌^◌, ◌≤◌, ◌<◌, ◌≡◌, ◌∙◌, sym, inl, inr, Bool-cases, leb, refl, arith, false, none, some,
  if◌then◌else◌,
}
use hash_bench.Key.{Key, is_invalid}
use hash_bench.Dict.{assign}
use mathlib.Core.Option.{none-ne-some}
use hash_bench.Float.{FloatOps}
use hash_bench.Interface.{Hash}
use hash_bench.Linear
use hash_bench.Linear.View as LinearView
use hash_bench.Linear.Returns
use hash_bench.Cuckoo
use hash_bench.Cuckoo.View as CuckooView
use hash_bench.Cuckoo.Growth
use hash_bench.Cuckoo.Resize as CuckooResize
use hash_bench.Extendible
use hash_bench.Extendible.View as ExtendibleView
use hash_bench.Extendible.Change
use hash_bench.Extendible.Retry
use hash_bench.Extendible.Start
use hash_bench.Interface.Loops.{Models}
use native.Mathlib.Nat.{dvd-mul_left}

module _ {ℓ} {K : Type ℓ} ⦃key : Key K⦄ ⦃fl : FloatOps⦄ where
  pub linear_insert :
      {t t' : Linear.Table K} (k : K) (x : ℕ)
      → LinearView.IsValid t
      → is_invalid k ≡ false
      → LinearView.view t k ≡ none
      → (if leb t.capacity (2 ^ 60) then Linear.insert 2 t k x else none) ≡ some t'
      → Unit {0}
      → LinearView.Models (assign (LinearView.view t) k (some x)) t'
  linear_insert {t} {t'} k x v valid absent e small = elim (Bool-cases (leb t.capacity (2 ^ 60))) [
    | inl le ↦
        let fits : t.capacity ≤ 2 ^ 60 = ground arith in
        let run : Linear.insert 2 t k x ≡ some t' = sym (rw le refl) ∙ e in
        Returns.insert-returns k x v valid absent fits run
    | inr gt ↦ absurd (none-ne-some t' (sym (rw gt refl) ∙ e))
  ]

  -- `LinearProbingHash`. An array of more than 2 ^ 60 pairs, which have 16 bytes at least, cannot be
  -- made with `new`, so no table has one.
  abbrev pub linear : Hash K
  linear = record {
    Table = Linear.Table K;
    insert = λ t k v. if leb t.capacity (2 ^ 60) then Linear.insert 2 t k v else none;
    update = λ t k v. Linear.update t k v;
    delete = λ t k. Linear.delete t k;
    get = λ t k. Linear.get t k;
    view = LinearView.view;
    IsValid = LinearView.IsValid;
    IsSmall = λ t. Unit;
    small_before = λ k x e small. tt;
    small_before-update = λ k x e small. tt;
    get-view = LinearView.get-view;
    insert-view = linear_insert;
    update-view = LinearView.update-Models;
    delete-view = LinearView.delete-Models;
  }

  abbrev pub cuckoo : ℕ → Hash K
  cuckoo fuel = record {
    Table = Cuckoo.Table K;
    insert = Growth.insert fuel;
    update = λ t k v. Cuckoo.update t k v;
    delete = λ t k. Cuckoo.delete t k;
    get = λ t k. Cuckoo.get t k;
    view = CuckooView.held;
    IsValid = CuckooView.IsValid;
    IsSmall = λ t. Unit;
    small_before = λ k x e small. tt;
    small_before-update = λ k x e small. tt;
    get-view = CuckooView.get-held;
    insert-view =
        λ k x v valid absent e small. CuckooResize.insert-Holds fuel _ k x v valid absent e;
    update-view = CuckooView.update-Holds;
    delete-view = CuckooView.delete-Holds;
  }

  -- `ExtendibleHash`, with fuel for the passes of `Insert`; its promises are for directories of depth
  -- below 64.
  abbrev pub extendible : ℕ → Hash K
  extendible fuel = record {
    Table = Extendible.Table K;
    insert = Extendible.insert fuel;
    update = λ t k v. Extendible.update t k v;
    delete = λ t k. Extendible.delete t k;
    get = λ t k. Extendible.get t k;
    view = ExtendibleView.content;
    IsValid = ExtendibleView.IsValid;
    IsSmall = λ t. t.dir.depth < 64;
    small_before = λ k x e small. omega (arith, Retry.insert_depth fuel _ k x e, small);
    small_before-update = λ k x e small. omega (arith, Retry.update_depth _ k x _ e, small);
    get-view = ExtendibleView.get-content;
    insert-view =
        λ k x v valid absent e small. Retry.insert-Contains fuel _ k x v valid absent e small;
    update-view = Change.update-Contains;
    delete-view = Change.delete-Contains;
  }

-- `TYPE_EXTENDIBLE_HASH` and the others
pub data IndexType : Type 0 where
  type_extendible_hash : IndexType
  type_linear_hash : IndexType
  type_cuckoo_hash : IndexType

abbrev pub initial_table_size : ℕ
initial_table_size = 1024 * 16

module _ {ℓ} {K : Type ℓ} ⦃key : Key K⦄ ⦃fl : FloatOps⦄ where
  -- What `getInstance` makes has the operations of its class.
  abbrev pub hash_of : ℕ → IndexType → Hash K
  hash_of fuel type_extendible_hash = extendible fuel
  hash_of fuel type_linear_hash = linear
  hash_of fuel type_cuckoo_hash = cuckoo fuel

module _ {ℓ} (K : Type ℓ) ⦃key : Key K⦄ ⦃fl : FloatOps⦄ where
  -- The new table; `ExtendibleHash(16)` computes the depth log2(16), which is 4. Of an index type
  -- that is none of the three there is no table: the source prints a message and returns a null
  -- pointer.
  abbrev pub get_instance :
      (fuel : ℕ) (index_type : IndexType) → (hash_of {K = K} fuel index_type).Table
  get_instance fuel type_extendible_hash = Extendible.new 4
  get_instance fuel type_linear_hash = Linear.new initial_table_size
  get_instance fuel type_cuckoo_hash = Cuckoo.new initial_table_size

  -- Each table that `getInstance` makes is valid and holds nothing.
  pub get_instance-Models :
      (fuel : ℕ) (index_type : IndexType)
      → Models (hash_of {K = K} fuel index_type) (λ k. none) (get_instance fuel index_type)
  get_instance-Models fuel type_extendible_hash = Start.new-Contains 4 (omega arith) (omega arith)
  get_instance-Models fuel type_linear_hash =
      LinearView.new-Models initial_table_size (omega arith)
        (dvd-mul_left initial_table_size (2 ^ 50))
  get_instance-Models fuel type_cuckoo_hash =
      CuckooResize.new-Holds initial_table_size (omega arith)
