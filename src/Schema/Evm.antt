-- ===== src/Schema/Evm.antt =====
-- evm-schema/src/lib.rs: the schemas of the tables.
pub mod Finish
mod Tests
pub mod Blocks
pub mod Transactions
pub mod Logs
pub mod Traces
use cherry_core.Base.{[], ◌∷◌, true, pos}
use cherry_core.Arrow.Types.{
  DataType, Fields, field, cons_field, no_fields, list, struct, boolean, int8, int64, uint8, uint16,
  uint32, uint64, binary, utf8, decimal256,
}
use cherry_core.Schema.Rows.{schema}

abbrev pub withdrawal_dt : DataType
withdrawal_dt = struct (
    cons_field (field "index" uint64 true) (
      cons_field (field "validator_index" uint64 true) (
        cons_field (field "address" binary true)
          (cons_field (field "amount" (decimal256 76 (pos 0)) true) no_fields))))

abbrev pub access_list_elem_dt : DataType
access_list_elem_dt = struct (
    cons_field (field "address" binary true)
      (cons_field (field "storage_keys" (list (field "item" binary true)) true) no_fields))

abbrev pub blocks_schema : Fields
blocks_schema = schema (
    ("number", uint64)
    ∷ ("hash", binary)
    ∷ ("parent_hash", binary)
    ∷ ("nonce", binary)
    ∷ ("sha3_uncles", binary)
    ∷ ("logs_bloom", binary)
    ∷ ("transactions_root", binary)
    ∷ ("state_root", binary)
    ∷ ("receipts_root", binary)
    ∷ ("miner", binary)
    ∷ ("difficulty", (decimal256 76 (pos 0)))
    ∷ ("total_difficulty", (decimal256 76 (pos 0)))
    ∷ ("extra_data", binary)
    ∷ ("size", (decimal256 76 (pos 0)))
    ∷ ("gas_limit", (decimal256 76 (pos 0)))
    ∷ ("gas_used", (decimal256 76 (pos 0)))
    ∷ ("timestamp", (decimal256 76 (pos 0)))
    ∷ ("uncles", (list (field "item" binary true)))
    ∷ ("base_fee_per_gas", (decimal256 76 (pos 0)))
    ∷ ("blob_gas_used", (decimal256 76 (pos 0)))
    ∷ ("excess_blob_gas", (decimal256 76 (pos 0)))
    ∷ ("parent_beacon_block_root", binary)
    ∷ ("withdrawals_root", binary)
    ∷ ("withdrawals", (list (field "item" withdrawal_dt true)))
    ∷ ("l1_block_number", uint64)
    ∷ ("send_count", (decimal256 76 (pos 0)))
    ∷ ("send_root", binary)
    ∷ ("mix_hash", binary)
    ∷ [])

abbrev pub transactions_schema : Fields
transactions_schema = schema (
    ("block_hash", binary)
    ∷ ("block_number", uint64)
    ∷ ("from", binary)
    ∷ ("gas", (decimal256 76 (pos 0)))
    ∷ ("gas_price", (decimal256 76 (pos 0)))
    ∷ ("hash", binary)
    ∷ ("input", binary)
    ∷ ("nonce", (decimal256 76 (pos 0)))
    ∷ ("to", binary)
    ∷ ("transaction_index", uint64)
    ∷ ("value", (decimal256 76 (pos 0)))
    ∷ ("v", uint8)
    ∷ ("r", binary)
    ∷ ("s", binary)
    ∷ ("max_priority_fee_per_gas", (decimal256 76 (pos 0)))
    ∷ ("max_fee_per_gas", (decimal256 76 (pos 0)))
    ∷ ("chain_id", (decimal256 76 (pos 0)))
    ∷ ("cumulative_gas_used", (decimal256 76 (pos 0)))
    ∷ ("effective_gas_price", (decimal256 76 (pos 0)))
    ∷ ("gas_used", (decimal256 76 (pos 0)))
    ∷ ("contract_address", binary)
    ∷ ("logs_bloom", binary)
    ∷ ("type", uint8)
    ∷ ("root", binary)
    ∷ ("status", uint8)
    ∷ ("sighash", binary)
    ∷ ("y_parity", boolean)
    ∷ ("access_list", (list (field "item" access_list_elem_dt true)))
    ∷ ("l1_fee", (decimal256 76 (pos 0)))
    ∷ ("l1_gas_price", (decimal256 76 (pos 0)))
    ∷ ("l1_gas_used", (decimal256 76 (pos 0)))
    ∷ ("l1_fee_scalar", (decimal256 76 (pos 0)))
    ∷ ("gas_used_for_l1", (decimal256 76 (pos 0)))
    ∷ ("max_fee_per_blob_gas", (decimal256 76 (pos 0)))
    ∷ ("blob_versioned_hashes", (list (field "item" binary true)))
    ∷ ("deposit_nonce", (decimal256 76 (pos 0)))
    ∷ ("blob_gas_price", (decimal256 76 (pos 0)))
    ∷ ("deposit_receipt_version", (decimal256 76 (pos 0)))
    ∷ ("blob_gas_used", (decimal256 76 (pos 0)))
    ∷ ("l1_base_fee_scalar", (decimal256 76 (pos 0)))
    ∷ ("l1_blob_base_fee", (decimal256 76 (pos 0)))
    ∷ ("l1_blob_base_fee_scalar", (decimal256 76 (pos 0)))
    ∷ ("l1_block_number", uint64)
    ∷ ("mint", (decimal256 76 (pos 0)))
    ∷ ("source_hash", binary)
    ∷ [])

abbrev pub logs_schema : Fields
logs_schema = schema (
    ("removed", boolean)
    ∷ ("log_index", uint64)
    ∷ ("transaction_index", uint64)
    ∷ ("transaction_hash", binary)
    ∷ ("block_hash", binary)
    ∷ ("block_number", uint64)
    ∷ ("address", binary)
    ∷ ("data", binary)
    ∷ ("topic0", binary)
    ∷ ("topic1", binary)
    ∷ ("topic2", binary)
    ∷ ("topic3", binary)
    ∷ [])

abbrev pub traces_schema : Fields
traces_schema = schema (
    ("from", binary)
    ∷ ("to", binary)
    ∷ ("call_type", utf8)
    ∷ ("gas", (decimal256 76 (pos 0)))
    ∷ ("input", binary)
    ∷ ("init", binary)
    ∷ ("value", (decimal256 76 (pos 0)))
    ∷ ("author", binary)
    ∷ ("reward_type", utf8)
    ∷ ("block_hash", binary)
    ∷ ("block_number", uint64)
    ∷ ("address", binary)
    ∷ ("code", binary)
    ∷ ("gas_used", (decimal256 76 (pos 0)))
    ∷ ("output", binary)
    ∷ ("subtraces", uint64)
    ∷ ("trace_address", (list (field "item" uint64 true)))
    ∷ ("transaction_hash", binary)
    ∷ ("transaction_position", uint64)
    ∷ ("type", utf8)
    ∷ ("error", utf8)
    ∷ ("sighash", binary)
    ∷ ("action_address", binary)
    ∷ ("balance", (decimal256 76 (pos 0)))
    ∷ ("refund_address", binary)
    ∷ [])
