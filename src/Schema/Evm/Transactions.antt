-- ===== src/Schema/Evm/Transactions.antt =====
-- evm-schema/src/lib.rs: `TransactionsBuilder`.
use cherry_core.Base.{ℕ, ◌≡◌, [], ◌∷◌, Result, ok, pos, true, List}
use cherry_core.Arrow.Types.{field, list, boolean, uint8, uint64, binary}
use cherry_core.Arrow.Kernels.{ArrowError}
use cherry_core.Arrow.Builders.{Builders}
use cherry_core.Schema.Rows.{
  RowBuilders, RowBuilderLaws, decimal, finish_batch, finish-Finishes, decimal-Finishes,
  struct_list-Finishes, IsBatch, finish_batch-IsBatch,
}
use cherry_core.Schema.Evm.{transactions_schema, access_list_elem_dt}

pub record TransactionsBuilder (B : Builders) (R : RowBuilders B) : Type 0 where
  pub block_hash : R.Builder binary
  pub block_number : R.Builder uint64
  pub from : R.Builder binary
  pub gas : R.Decimal256Builder
  pub gas_price : R.Decimal256Builder
  pub hash : R.Builder binary
  pub input : R.Builder binary
  pub nonce : R.Decimal256Builder
  pub to : R.Builder binary
  pub transaction_index : R.Builder uint64
  pub value : R.Decimal256Builder
  pub v : R.Builder uint8
  pub r : R.Builder binary
  pub s : R.Builder binary
  pub max_priority_fee_per_gas : R.Decimal256Builder
  pub max_fee_per_gas : R.Decimal256Builder
  pub chain_id : R.Decimal256Builder
  pub cumulative_gas_used : R.Decimal256Builder
  pub effective_gas_price : R.Decimal256Builder
  pub gas_used : R.Decimal256Builder
  pub contract_address : R.Builder binary
  pub logs_bloom : R.Builder binary
  pub type_ : R.Builder uint8
  pub root : R.Builder binary
  pub status : R.Builder uint8
  pub sighash : R.Builder binary
  pub y_parity : R.Builder boolean
  pub access_list : R.StructListBuilder
  pub l1_fee : R.Decimal256Builder
  pub l1_gas_price : R.Decimal256Builder
  pub l1_gas_used : R.Decimal256Builder
  pub l1_fee_scalar : R.Decimal256Builder
  pub gas_used_for_l1 : R.Decimal256Builder
  pub max_fee_per_blob_gas : R.Decimal256Builder
  pub blob_versioned_hashes : R.Builder (list (field "item" binary true))
  pub deposit_nonce : R.Decimal256Builder
  pub blob_gas_price : R.Decimal256Builder
  pub deposit_receipt_version : R.Decimal256Builder
  pub blob_gas_used : R.Decimal256Builder
  pub l1_base_fee_scalar : R.Decimal256Builder
  pub l1_blob_base_fee : R.Decimal256Builder
  pub l1_blob_base_fee_scalar : R.Decimal256Builder
  pub l1_block_number : R.Builder uint64
  pub mint : R.Decimal256Builder
  pub source_hash : R.Builder binary

module _ (B : Builders) (R : RowBuilders B) where
  -- The columns, with the `unwrap`s of the precisions as errors.
  abbrev pub columns : TransactionsBuilder B R → List (Result ArrowError B.Column)
  columns b =
      ok (R.finish b.block_hash)
      ∷ ok (R.finish b.block_number)
      ∷ ok (R.finish b.from)
      ∷ decimal B R 76 (pos 0) b.gas
      ∷ decimal B R 76 (pos 0) b.gas_price
      ∷ ok (R.finish b.hash)
      ∷ ok (R.finish b.input)
      ∷ decimal B R 76 (pos 0) b.nonce
      ∷ ok (R.finish b.to)
      ∷ ok (R.finish b.transaction_index)
      ∷ decimal B R 76 (pos 0) b.value
      ∷ ok (R.finish b.v)
      ∷ ok (R.finish b.r)
      ∷ ok (R.finish b.s)
      ∷ decimal B R 76 (pos 0) b.max_priority_fee_per_gas
      ∷ decimal B R 76 (pos 0) b.max_fee_per_gas
      ∷ decimal B R 76 (pos 0) b.chain_id
      ∷ decimal B R 76 (pos 0) b.cumulative_gas_used
      ∷ decimal B R 76 (pos 0) b.effective_gas_price
      ∷ decimal B R 76 (pos 0) b.gas_used
      ∷ ok (R.finish b.contract_address)
      ∷ ok (R.finish b.logs_bloom)
      ∷ ok (R.finish b.type_)
      ∷ ok (R.finish b.root)
      ∷ ok (R.finish b.status)
      ∷ ok (R.finish b.sighash)
      ∷ ok (R.finish b.y_parity)
      ∷ ok (R.struct_list_finish b.access_list)
      ∷ decimal B R 76 (pos 0) b.l1_fee
      ∷ decimal B R 76 (pos 0) b.l1_gas_price
      ∷ decimal B R 76 (pos 0) b.l1_gas_used
      ∷ decimal B R 76 (pos 0) b.l1_fee_scalar
      ∷ decimal B R 76 (pos 0) b.gas_used_for_l1
      ∷ decimal B R 76 (pos 0) b.max_fee_per_blob_gas
      ∷ ok (R.finish b.blob_versioned_hashes)
      ∷ decimal B R 76 (pos 0) b.deposit_nonce
      ∷ decimal B R 76 (pos 0) b.blob_gas_price
      ∷ decimal B R 76 (pos 0) b.deposit_receipt_version
      ∷ decimal B R 76 (pos 0) b.blob_gas_used
      ∷ decimal B R 76 (pos 0) b.l1_base_fee_scalar
      ∷ decimal B R 76 (pos 0) b.l1_blob_base_fee
      ∷ decimal B R 76 (pos 0) b.l1_blob_base_fee_scalar
      ∷ ok (R.finish b.l1_block_number)
      ∷ decimal B R 76 (pos 0) b.mint
      ∷ ok (R.finish b.source_hash)
      ∷ []

  unfoldable pub finish : TransactionsBuilder B R → Result ArrowError R.RecordBatch
  finish b = finish_batch B R transactions_schema (columns b)

  -- All builders have the same number of rows, and a nested one the type that its schema has.
  abbrev pub HasRows : ℕ → TransactionsBuilder B R → Type 0
  HasRows n b =
      (R.rows b.block_hash ≡ n)
      × (R.rows b.block_number ≡ n)
      × (R.rows b.from ≡ n)
      × (R.decimal_rows b.gas ≡ n)
      × (R.decimal_rows b.gas_price ≡ n)
      × (R.rows b.hash ≡ n)
      × (R.rows b.input ≡ n)
      × (R.decimal_rows b.nonce ≡ n)
      × (R.rows b.to ≡ n)
      × (R.rows b.transaction_index ≡ n)
      × (R.decimal_rows b.value ≡ n)
      × (R.rows b.v ≡ n)
      × (R.rows b.r ≡ n)
      × (R.rows b.s ≡ n)
      × (R.decimal_rows b.max_priority_fee_per_gas ≡ n)
      × (R.decimal_rows b.max_fee_per_gas ≡ n)
      × (R.decimal_rows b.chain_id ≡ n)
      × (R.decimal_rows b.cumulative_gas_used ≡ n)
      × (R.decimal_rows b.effective_gas_price ≡ n)
      × (R.decimal_rows b.gas_used ≡ n)
      × (R.rows b.contract_address ≡ n)
      × (R.rows b.logs_bloom ≡ n)
      × (R.rows b.type_ ≡ n)
      × (R.rows b.root ≡ n)
      × (R.rows b.status ≡ n)
      × (R.rows b.sighash ≡ n)
      × (R.rows b.y_parity ≡ n)
      × (R.struct_list_rows b.access_list ≡ n)
      × (R.decimal_rows b.l1_fee ≡ n)
      × (R.decimal_rows b.l1_gas_price ≡ n)
      × (R.decimal_rows b.l1_gas_used ≡ n)
      × (R.decimal_rows b.l1_fee_scalar ≡ n)
      × (R.decimal_rows b.gas_used_for_l1 ≡ n)
      × (R.decimal_rows b.max_fee_per_blob_gas ≡ n)
      × (R.rows b.blob_versioned_hashes ≡ n)
      × (R.decimal_rows b.deposit_nonce ≡ n)
      × (R.decimal_rows b.blob_gas_price ≡ n)
      × (R.decimal_rows b.deposit_receipt_version ≡ n)
      × (R.decimal_rows b.blob_gas_used ≡ n)
      × (R.decimal_rows b.l1_base_fee_scalar ≡ n)
      × (R.decimal_rows b.l1_blob_base_fee ≡ n)
      × (R.decimal_rows b.l1_blob_base_fee_scalar ≡ n)
      × (R.rows b.l1_block_number ≡ n)
      × (R.decimal_rows b.mint ≡ n)
      × (R.rows b.source_hash ≡ n)
      × (R.struct_list_type b.access_list ≡ (list (field "item" access_list_elem_dt true)))

module _ (B : Builders) (R : RowBuilders B) (laws : RowBuilderLaws B R) where
  pub finish-IsBatch :
      (n : ℕ) (b : TransactionsBuilder B R)
      → HasRows B R n b
      → IsBatch B R n transactions_schema (finish B R b)
  unfolding finish
  finish-IsBatch n b h = finish_batch-IsBatch B R laws n transactions_schema (columns B R b) tt (
      search (
        h,
        finish-Finishes B R laws n,
        decimal-Finishes B R laws n,
        struct_list-Finishes B R laws n,
      ))
