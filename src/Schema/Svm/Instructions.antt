-- ===== src/Schema/Svm/Instructions.antt =====
-- svm-schema/src/lib.rs: `InstructionsBuilder`.
use cherry_core.Base.{ℕ, ◌≡◌, [], ◌∷◌, Result, ok, true, List}
use cherry_core.Arrow.Types.{field, list, boolean, uint32, uint64, binary, utf8}
use cherry_core.Arrow.Kernels.{ArrowError}
use cherry_core.Arrow.Builders.{Builders}
use cherry_core.Schema.Rows.{
  RowBuilders, RowBuilderLaws, finish_batch, finish-Finishes, IsBatch, finish_batch-IsBatch,
}
use cherry_core.Schema.Svm.{instructions_schema}

pub record InstructionsBuilder (B : Builders) (R : RowBuilders B) : Type 0 where
  pub block_slot : R.Builder uint64
  pub block_hash : R.Builder binary
  pub transaction_index : R.Builder uint32
  pub instruction_address : R.Builder (list (field "item" uint32 true))
  pub program_id : R.Builder binary
  pub a0 : R.Builder binary
  pub a1 : R.Builder binary
  pub a2 : R.Builder binary
  pub a3 : R.Builder binary
  pub a4 : R.Builder binary
  pub a5 : R.Builder binary
  pub a6 : R.Builder binary
  pub a7 : R.Builder binary
  pub a8 : R.Builder binary
  pub a9 : R.Builder binary
  pub rest_of_accounts : R.Builder (list (field "item" binary true))
  pub data_ : R.Builder binary
  pub d1 : R.Builder binary
  pub d2 : R.Builder binary
  pub d4 : R.Builder binary
  pub d8 : R.Builder binary
  pub error : R.Builder utf8
  pub compute_units_consumed : R.Builder uint64
  pub is_committed : R.Builder boolean
  pub has_dropped_log_messages : R.Builder boolean

module _ (B : Builders) (R : RowBuilders B) where
  -- The columns, with the `unwrap`s of the precisions as errors.
  abbrev pub columns : InstructionsBuilder B R → List (Result ArrowError B.Column)
  columns b =
      ok (R.finish b.block_slot)
      ∷ ok (R.finish b.block_hash)
      ∷ ok (R.finish b.transaction_index)
      ∷ ok (R.finish b.instruction_address)
      ∷ ok (R.finish b.program_id)
      ∷ ok (R.finish b.a0)
      ∷ ok (R.finish b.a1)
      ∷ ok (R.finish b.a2)
      ∷ ok (R.finish b.a3)
      ∷ ok (R.finish b.a4)
      ∷ ok (R.finish b.a5)
      ∷ ok (R.finish b.a6)
      ∷ ok (R.finish b.a7)
      ∷ ok (R.finish b.a8)
      ∷ ok (R.finish b.a9)
      ∷ ok (R.finish b.rest_of_accounts)
      ∷ ok (R.finish b.data_)
      ∷ ok (R.finish b.d1)
      ∷ ok (R.finish b.d2)
      ∷ ok (R.finish b.d4)
      ∷ ok (R.finish b.d8)
      ∷ ok (R.finish b.error)
      ∷ ok (R.finish b.compute_units_consumed)
      ∷ ok (R.finish b.is_committed)
      ∷ ok (R.finish b.has_dropped_log_messages)
      ∷ []

  unfoldable pub finish : InstructionsBuilder B R → Result ArrowError R.RecordBatch
  finish b = finish_batch B R instructions_schema (columns b)

  -- All builders have the same number of rows, and a nested one the type that its schema has.
  abbrev pub HasRows : ℕ → InstructionsBuilder B R → Type 0
  HasRows n b =
      (R.rows b.block_slot ≡ n)
      × (R.rows b.block_hash ≡ n)
      × (R.rows b.transaction_index ≡ n)
      × (R.rows b.instruction_address ≡ n)
      × (R.rows b.program_id ≡ n)
      × (R.rows b.a0 ≡ n)
      × (R.rows b.a1 ≡ n)
      × (R.rows b.a2 ≡ n)
      × (R.rows b.a3 ≡ n)
      × (R.rows b.a4 ≡ n)
      × (R.rows b.a5 ≡ n)
      × (R.rows b.a6 ≡ n)
      × (R.rows b.a7 ≡ n)
      × (R.rows b.a8 ≡ n)
      × (R.rows b.a9 ≡ n)
      × (R.rows b.rest_of_accounts ≡ n)
      × (R.rows b.data_ ≡ n)
      × (R.rows b.d1 ≡ n)
      × (R.rows b.d2 ≡ n)
      × (R.rows b.d4 ≡ n)
      × (R.rows b.d8 ≡ n)
      × (R.rows b.error ≡ n)
      × (R.rows b.compute_units_consumed ≡ n)
      × (R.rows b.is_committed ≡ n)
      × (R.rows b.has_dropped_log_messages ≡ n)

module _ (B : Builders) (R : RowBuilders B) (laws : RowBuilderLaws B R) where
  pub finish-IsBatch :
      (n : ℕ) (b : InstructionsBuilder B R)
      → HasRows B R n b
      → IsBatch B R n instructions_schema (finish B R b)
  unfolding finish
  finish-IsBatch n b h =
      finish_batch-IsBatch B R laws n instructions_schema (columns B R b) tt
        (search (h, finish-Finishes B R laws n))
