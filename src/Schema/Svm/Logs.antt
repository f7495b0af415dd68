-- ===== src/Schema/Svm/Logs.antt =====
-- svm-schema/src/lib.rs: `LogsBuilder`.
use cherry_core.Base.{ℕ, ◌≡◌, [], ◌∷◌, Result, ok, true, List}
use cherry_core.Arrow.Types.{field, list, uint32, uint64, binary, utf8}
use cherry_core.Arrow.Kernels.{ArrowError}
use cherry_core.Arrow.Builders.{Builders}
use cherry_core.Schema.Rows.{
  RowBuilders, RowBuilderLaws, finish_batch, finish-Finishes, IsBatch, finish_batch-IsBatch,
}
use cherry_core.Schema.Svm.{logs_schema}

pub record LogsBuilder (B : Builders) (R : RowBuilders B) : Type 0 where
  pub block_slot : R.Builder uint64
  pub block_hash : R.Builder binary
  pub transaction_index : R.Builder uint32
  pub log_index : R.Builder uint32
  pub instruction_address : R.Builder (list (field "item" uint32 true))
  pub program_id : R.Builder binary
  pub kind : R.Builder utf8
  pub message : R.Builder utf8

module _ (B : Builders) (R : RowBuilders B) where
  -- The columns, with the `unwrap`s of the precisions as errors.
  abbrev pub columns : LogsBuilder B R → List (Result ArrowError B.Column)
  columns b =
      ok (R.finish b.block_slot)
      ∷ ok (R.finish b.block_hash)
      ∷ ok (R.finish b.transaction_index)
      ∷ ok (R.finish b.log_index)
      ∷ ok (R.finish b.instruction_address)
      ∷ ok (R.finish b.program_id)
      ∷ ok (R.finish b.kind)
      ∷ ok (R.finish b.message)
      ∷ []

  unfoldable pub finish : LogsBuilder B R → Result ArrowError R.RecordBatch
  finish b = finish_batch B R logs_schema (columns b)

  -- All builders have the same number of rows, and a nested one the type that its schema has.
  abbrev pub HasRows : ℕ → LogsBuilder B R → Type 0
  HasRows n b =
      (R.rows b.block_slot ≡ n)
      × (R.rows b.block_hash ≡ n)
      × (R.rows b.transaction_index ≡ n)
      × (R.rows b.log_index ≡ n)
      × (R.rows b.instruction_address ≡ n)
      × (R.rows b.program_id ≡ n)
      × (R.rows b.kind ≡ n)
      × (R.rows b.message ≡ n)

module _ (B : Builders) (R : RowBuilders B) (laws : RowBuilderLaws B R) where
  pub finish-IsBatch :
      (n : ℕ) (b : LogsBuilder B R) → HasRows B R n b → IsBatch B R n logs_schema (finish B R b)
  unfolding finish
  finish-IsBatch n b h =
      finish_batch-IsBatch B R laws n logs_schema (columns B R b) tt
        (search (h, finish-Finishes B R laws n))
