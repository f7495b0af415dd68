-- ===== src/Schema/Evm/Traces.antt =====
-- evm-schema/src/lib.rs: `TracesBuilder`.
use cherry_core.Base.{ℕ, ◌≡◌, [], ◌∷◌, Result, ok, pos, true, List}
use cherry_core.Arrow.Types.{field, list, uint64, binary, utf8}
use cherry_core.Arrow.Kernels.{ArrowError}
use cherry_core.Arrow.Builders.{Builders}
use cherry_core.Schema.Rows.{
  RowBuilders, RowBuilderLaws, decimal, finish_batch, finish-Finishes, decimal-Finishes, IsBatch,
  finish_batch-IsBatch,
}
use cherry_core.Schema.Evm.{traces_schema}

pub record TracesBuilder (B : Builders) (R : RowBuilders B) : Type 0 where
  pub from : R.Builder binary
  pub to : R.Builder binary
  pub call_type : R.Builder utf8
  pub gas : R.Decimal256Builder
  pub input : R.Builder binary
  pub init : R.Builder binary
  pub value : R.Decimal256Builder
  pub author : R.Builder binary
  pub reward_type : R.Builder utf8
  pub block_hash : R.Builder binary
  pub block_number : R.Builder uint64
  pub address : R.Builder binary
  pub code : R.Builder binary
  pub gas_used : R.Decimal256Builder
  pub output : R.Builder binary
  pub subtraces : R.Builder uint64
  pub trace_address : R.Builder (list (field "item" uint64 true))
  pub transaction_hash : R.Builder binary
  pub transaction_position : R.Builder uint64
  pub type_ : R.Builder utf8
  pub error : R.Builder utf8
  pub sighash : R.Builder binary
  pub action_address : R.Builder binary
  pub balance : R.Decimal256Builder
  pub refund_address : R.Builder binary

module _ (B : Builders) (R : RowBuilders B) where
  -- The columns, with the `unwrap`s of the precisions as errors.
  abbrev pub columns : TracesBuilder B R → List (Result ArrowError B.Column)
  columns b =
      ok (R.finish b.from)
      ∷ ok (R.finish b.to)
      ∷ ok (R.finish b.call_type)
      ∷ decimal B R 76 (pos 0) b.gas
      ∷ ok (R.finish b.input)
      ∷ ok (R.finish b.init)
      ∷ decimal B R 76 (pos 0) b.value
      ∷ ok (R.finish b.author)
      ∷ ok (R.finish b.reward_type)
      ∷ ok (R.finish b.block_hash)
      ∷ ok (R.finish b.block_number)
      ∷ ok (R.finish b.address)
      ∷ ok (R.finish b.code)
      ∷ decimal B R 76 (pos 0) b.gas_used
      ∷ ok (R.finish b.output)
      ∷ ok (R.finish b.subtraces)
      ∷ ok (R.finish b.trace_address)
      ∷ ok (R.finish b.transaction_hash)
      ∷ ok (R.finish b.transaction_position)
      ∷ ok (R.finish b.type_)
      ∷ ok (R.finish b.error)
      ∷ ok (R.finish b.sighash)
      ∷ ok (R.finish b.action_address)
      ∷ decimal B R 76 (pos 0) b.balance
      ∷ ok (R.finish b.refund_address)
      ∷ []

  unfoldable pub finish : TracesBuilder B R → Result ArrowError R.RecordBatch
  finish b = finish_batch B R traces_schema (columns b)

  -- All builders have the same number of rows, and a nested one the type that its schema has.
  abbrev pub HasRows : ℕ → TracesBuilder B R → Type 0
  HasRows n b =
      (R.rows b.from ≡ n)
      × (R.rows b.to ≡ n)
      × (R.rows b.call_type ≡ n)
      × (R.decimal_rows b.gas ≡ n)
      × (R.rows b.input ≡ n)
      × (R.rows b.init ≡ n)
      × (R.decimal_rows b.value ≡ n)
      × (R.rows b.author ≡ n)
      × (R.rows b.reward_type ≡ n)
      × (R.rows b.block_hash ≡ n)
      × (R.rows b.block_number ≡ n)
      × (R.rows b.address ≡ n)
      × (R.rows b.code ≡ n)
      × (R.decimal_rows b.gas_used ≡ n)
      × (R.rows b.output ≡ n)
      × (R.rows b.subtraces ≡ n)
      × (R.rows b.trace_address ≡ n)
      × (R.rows b.transaction_hash ≡ n)
      × (R.rows b.transaction_position ≡ n)
      × (R.rows b.type_ ≡ n)
      × (R.rows b.error ≡ n)
      × (R.rows b.sighash ≡ n)
      × (R.rows b.action_address ≡ n)
      × (R.decimal_rows b.balance ≡ n)
      × (R.rows b.refund_address ≡ n)

module _ (B : Builders) (R : RowBuilders B) (laws : RowBuilderLaws B R) where
  pub finish-IsBatch :
      (n : ℕ) (b : TracesBuilder B R) → HasRows B R n b → IsBatch B R n traces_schema (finish B R b)
  unfolding finish
  finish-IsBatch n b h =
      finish_batch-IsBatch B R laws n traces_schema (columns B R b) tt
        (search (h, finish-Finishes B R laws n, decimal-Finishes B R laws n))
