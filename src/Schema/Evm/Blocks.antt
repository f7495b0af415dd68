-- ===== src/Schema/Evm/Blocks.antt =====
-- evm-schema/src/lib.rs: `BlocksBuilder`.
use cherry_core.Base.{ℕ, ◌≡◌, [], ◌∷◌, Result, ok, pos, true, List}
use cherry_core.Arrow.Types.{field, list, uint64, binary}
use cherry_core.Arrow.Kernels.{ArrowError}
use cherry_core.Arrow.Builders.{Builders}
use cherry_core.Schema.Rows.{
  RowBuilders, RowBuilderLaws, decimal, finish_batch, finish-Finishes, decimal-Finishes,
  struct_list-Finishes, IsBatch, finish_batch-IsBatch,
}
use cherry_core.Schema.Evm.{blocks_schema, withdrawal_dt}

pub record BlocksBuilder (B : Builders) (R : RowBuilders B) : Type 0 where
  pub number : R.Builder uint64
  pub hash : R.Builder binary
  pub parent_hash : R.Builder binary
  pub nonce : R.Builder binary
  pub sha3_uncles : R.Builder binary
  pub logs_bloom : R.Builder binary
  pub transactions_root : R.Builder binary
  pub state_root : R.Builder binary
  pub receipts_root : R.Builder binary
  pub miner : R.Builder binary
  pub difficulty : R.Decimal256Builder
  pub total_difficulty : R.Decimal256Builder
  pub extra_data : R.Builder binary
  pub size : R.Decimal256Builder
  pub gas_limit : R.Decimal256Builder
  pub gas_used : R.Decimal256Builder
  pub timestamp : R.Decimal256Builder
  pub uncles : R.Builder (list (field "item" binary true))
  pub base_fee_per_gas : R.Decimal256Builder
  pub blob_gas_used : R.Decimal256Builder
  pub excess_blob_gas : R.Decimal256Builder
  pub parent_beacon_block_root : R.Builder binary
  pub withdrawals_root : R.Builder binary
  pub withdrawals : R.StructListBuilder
  pub l1_block_number : R.Builder uint64
  pub send_count : R.Decimal256Builder
  pub send_root : R.Builder binary
  pub mix_hash : R.Builder binary

module _ (B : Builders) (R : RowBuilders B) where
  -- The columns, with the `unwrap`s of the precisions as errors.
  abbrev pub columns : BlocksBuilder B R → List (Result ArrowError B.Column)
  columns b =
      ok (R.finish b.number)
      ∷ ok (R.finish b.hash)
      ∷ ok (R.finish b.parent_hash)
      ∷ ok (R.finish b.nonce)
      ∷ ok (R.finish b.sha3_uncles)
      ∷ ok (R.finish b.logs_bloom)
      ∷ ok (R.finish b.transactions_root)
      ∷ ok (R.finish b.state_root)
      ∷ ok (R.finish b.receipts_root)
      ∷ ok (R.finish b.miner)
      ∷ decimal B R 76 (pos 0) b.difficulty
      ∷ decimal B R 76 (pos 0) b.total_difficulty
      ∷ ok (R.finish b.extra_data)
      ∷ decimal B R 76 (pos 0) b.size
      ∷ decimal B R 76 (pos 0) b.gas_limit
      ∷ decimal B R 76 (pos 0) b.gas_used
      ∷ decimal B R 76 (pos 0) b.timestamp
      ∷ ok (R.finish b.uncles)
      ∷ decimal B R 76 (pos 0) b.base_fee_per_gas
      ∷ decimal B R 76 (pos 0) b.blob_gas_used
      ∷ decimal B R 76 (pos 0) b.excess_blob_gas
      ∷ ok (R.finish b.parent_beacon_block_root)
      ∷ ok (R.finish b.withdrawals_root)
      ∷ ok (R.struct_list_finish b.withdrawals)
      ∷ ok (R.finish b.l1_block_number)
      ∷ decimal B R 76 (pos 0) b.send_count
      ∷ ok (R.finish b.send_root)
      ∷ ok (R.finish b.mix_hash)
      ∷ []

  unfoldable pub finish : BlocksBuilder B R → Result ArrowError R.RecordBatch
  finish b = finish_batch B R blocks_schema (columns b)

  -- All builders have the same number of rows, and a nested one the type that its schema has.
  abbrev pub HasRows : ℕ → BlocksBuilder B R → Type 0
  HasRows n b =
      (R.rows b.number ≡ n)
      × (R.rows b.hash ≡ n)
      × (R.rows b.parent_hash ≡ n)
      × (R.rows b.nonce ≡ n)
      × (R.rows b.sha3_uncles ≡ n)
      × (R.rows b.logs_bloom ≡ n)
      × (R.rows b.transactions_root ≡ n)
      × (R.rows b.state_root ≡ n)
      × (R.rows b.receipts_root ≡ n)
      × (R.rows b.miner ≡ n)
      × (R.decimal_rows b.difficulty ≡ n)
      × (R.decimal_rows b.total_difficulty ≡ n)
      × (R.rows b.extra_data ≡ n)
      × (R.decimal_rows b.size ≡ n)
      × (R.decimal_rows b.gas_limit ≡ n)
      × (R.decimal_rows b.gas_used ≡ n)
      × (R.decimal_rows b.timestamp ≡ n)
      × (R.rows b.uncles ≡ n)
      × (R.decimal_rows b.base_fee_per_gas ≡ n)
      × (R.decimal_rows b.blob_gas_used ≡ n)
      × (R.decimal_rows b.excess_blob_gas ≡ n)
      × (R.rows b.parent_beacon_block_root ≡ n)
      × (R.rows b.withdrawals_root ≡ n)
      × (R.struct_list_rows b.withdrawals ≡ n)
      × (R.rows b.l1_block_number ≡ n)
      × (R.decimal_rows b.send_count ≡ n)
      × (R.rows b.send_root ≡ n)
      × (R.rows b.mix_hash ≡ n)
      × (R.struct_list_type b.withdrawals ≡ (list (field "item" withdrawal_dt true)))

module _ (B : Builders) (R : RowBuilders B) (laws : RowBuilderLaws B R) where
  pub finish-IsBatch :
      (n : ℕ) (b : BlocksBuilder B R) → HasRows B R n b → IsBatch B R n blocks_schema (finish B R b)
  unfolding finish
  finish-IsBatch n b h = finish_batch-IsBatch B R laws n blocks_schema (columns B R b) tt (
      search (
        h,
        finish-Finishes B R laws n,
        decimal-Finishes B R laws n,
        struct_list-Finishes B R laws n,
      ))
