-- ===== src/Schema/Evm/Logs.antt =====
-- evm-schema/src/lib.rs: `LogsBuilder`.
use cherry_core.Base.{ℕ, ◌≡◌, [], ◌∷◌, Result, ok, List}
use cherry_core.Arrow.Types.{boolean, uint64, binary}
use cherry_core.Arrow.Kernels.{ArrowError}
use cherry_core.Arrow.Builders.{Builders}
use cherry_core.Schema.Rows.{
  RowBuilders, RowBuilderLaws, finish_batch, finish-Finishes, IsBatch, finish_batch-IsBatch,
}
use cherry_core.Schema.Evm.{logs_schema}

pub record LogsBuilder (B : Builders) (R : RowBuilders B) : Type 0 where
  pub removed : R.Builder boolean
  pub log_index : R.Builder uint64
  pub transaction_index : R.Builder uint64
  pub transaction_hash : R.Builder binary
  pub block_hash : R.Builder binary
  pub block_number : R.Builder uint64
  pub address : R.Builder binary
  pub data_ : R.Builder binary
  pub topic0 : R.Builder binary
  pub topic1 : R.Builder binary
  pub topic2 : R.Builder binary
  pub topic3 : R.Builder binary

module _ (B : Builders) (R : RowBuilders B) where
  -- The columns, with the `unwrap`s of the precisions as errors.
  abbrev pub columns : LogsBuilder B R → List (Result ArrowError B.Column)
  columns b =
      ok (R.finish b.removed)
      ∷ ok (R.finish b.log_index)
      ∷ ok (R.finish b.transaction_index)
      ∷ ok (R.finish b.transaction_hash)
      ∷ ok (R.finish b.block_hash)
      ∷ ok (R.finish b.block_number)
      ∷ ok (R.finish b.address)
      ∷ ok (R.finish b.data_)
      ∷ ok (R.finish b.topic0)
      ∷ ok (R.finish b.topic1)
      ∷ ok (R.finish b.topic2)
      ∷ ok (R.finish b.topic3)
      ∷ []

  unfoldable pub finish : LogsBuilder B R → Result ArrowError R.RecordBatch
  finish b = finish_batch B R logs_schema (columns b)

  -- All builders have the same number of rows, and a nested one the type that its schema has.
  abbrev pub HasRows : ℕ → LogsBuilder B R → Type 0
  HasRows n b =
      (R.rows b.removed ≡ n)
      × (R.rows b.log_index ≡ n)
      × (R.rows b.transaction_index ≡ n)
      × (R.rows b.transaction_hash ≡ n)
      × (R.rows b.block_hash ≡ n)
      × (R.rows b.block_number ≡ n)
      × (R.rows b.address ≡ n)
      × (R.rows b.data_ ≡ n)
      × (R.rows b.topic0 ≡ n)
      × (R.rows b.topic1 ≡ n)
      × (R.rows b.topic2 ≡ n)
      × (R.rows b.topic3 ≡ n)

module _ (B : Builders) (R : RowBuilders B) (laws : RowBuilderLaws B R) where
  pub finish-IsBatch :
      (n : ℕ) (b : LogsBuilder B R) → HasRows B R n b → IsBatch B R n logs_schema (finish B R b)
  unfolding finish
  finish-IsBatch n b h =
      finish_batch-IsBatch B R laws n logs_schema (columns B R b) tt
        (search (h, finish-Finishes B R laws n))
