-- ===== src/Schema/Svm/Balances.antt =====
-- svm-schema/src/lib.rs: `BalancesBuilder`.
use cherry_core.Base.{ℕ, ◌≡◌, [], ◌∷◌, Result, ok, List}
use cherry_core.Arrow.Types.{uint32, uint64, binary}
use cherry_core.Arrow.Kernels.{ArrowError}
use cherry_core.Arrow.Builders.{Builders}
use cherry_core.Schema.Rows.{
  RowBuilders, RowBuilderLaws, finish_batch, finish-Finishes, IsBatch, finish_batch-IsBatch,
}
use cherry_core.Schema.Svm.{balances_schema}

pub record BalancesBuilder (B : Builders) (R : RowBuilders B) : Type 0 where
  pub block_slot : R.Builder uint64
  pub block_hash : R.Builder binary
  pub transaction_index : R.Builder uint32
  pub account : R.Builder binary
  pub pre : R.Builder uint64
  pub post : R.Builder uint64

module _ (B : Builders) (R : RowBuilders B) where
  -- The columns, with the `unwrap`s of the precisions as errors.
  abbrev pub columns : BalancesBuilder B R → List (Result ArrowError B.Column)
  columns b =
      ok (R.finish b.block_slot)
      ∷ ok (R.finish b.block_hash)
      ∷ ok (R.finish b.transaction_index)
      ∷ ok (R.finish b.account)
      ∷ ok (R.finish b.pre)
      ∷ ok (R.finish b.post)
      ∷ []

  unfoldable pub finish : BalancesBuilder B R → Result ArrowError R.RecordBatch
  finish b = finish_batch B R balances_schema (columns b)

  -- All builders have the same number of rows, and a nested one the type that its schema has.
  abbrev pub HasRows : ℕ → BalancesBuilder B R → Type 0
  HasRows n b =
      (R.rows b.block_slot ≡ n)
      × (R.rows b.block_hash ≡ n)
      × (R.rows b.transaction_index ≡ n)
      × (R.rows b.account ≡ n)
      × (R.rows b.pre ≡ n)
      × (R.rows b.post ≡ n)

module _ (B : Builders) (R : RowBuilders B) (laws : RowBuilderLaws B R) where
  pub finish-IsBatch :
      (n : ℕ) (b : BalancesBuilder B R)
      → HasRows B R n b
      → IsBatch B R n balances_schema (finish B R b)
  unfolding finish
  finish-IsBatch n b h =
      finish_batch-IsBatch B R laws n balances_schema (columns B R b) tt
        (search (h, finish-Finishes B R laws n))
