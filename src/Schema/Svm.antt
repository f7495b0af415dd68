-- ===== src/Schema/Svm.antt =====
-- svm-schema/src/lib.rs: the schemas of the tables.
pub mod Finish
mod Tests
pub mod Blocks
pub mod Rewards
pub mod TokenBalances
pub mod Balances
pub mod Logs
pub mod Transactions
pub mod Instructions
use cherry_core.Base.{[], ◌∷◌, true, pos}
use cherry_core.Arrow.Types.{
  DataType, Fields, field, cons_field, no_fields, list, struct, boolean, int8, int64, uint8, uint16,
  uint32, uint64, binary, utf8, decimal256,
}
use cherry_core.Schema.Rows.{schema}

abbrev pub address_table_lookup_dt : DataType
address_table_lookup_dt = struct (
    cons_field (field "account_key" binary true) (
      cons_field (field "writable_indexes" (list (field "item" uint64 true)) true)
        (cons_field (field "readonly_indexes" (list (field "item" uint64 true)) true) no_fields)))

abbrev pub blocks_schema : Fields
blocks_schema = schema (
    ("slot", uint64)
    ∷ ("hash", binary)
    ∷ ("parent_slot", uint64)
    ∷ ("parent_hash", binary)
    ∷ ("height", uint64)
    ∷ ("timestamp", int64)
    ∷ [])

abbrev pub rewards_schema : Fields
rewards_schema = schema (
    ("block_slot", uint64)
    ∷ ("block_hash", binary)
    ∷ ("pubkey", binary)
    ∷ ("lamports", int64)
    ∷ ("post_balance", uint64)
    ∷ ("reward_type", utf8)
    ∷ ("commission", uint8)
    ∷ [])

abbrev pub token_balances_schema : Fields
token_balances_schema = schema (
    ("block_slot", uint64)
    ∷ ("block_hash", binary)
    ∷ ("transaction_index", uint32)
    ∷ ("account", binary)
    ∷ ("pre_mint", binary)
    ∷ ("post_mint", binary)
    ∷ ("pre_decimals", uint16)
    ∷ ("post_decimals", uint16)
    ∷ ("pre_program_id", binary)
    ∷ ("post_program_id", binary)
    ∷ ("pre_owner", binary)
    ∷ ("post_owner", binary)
    ∷ ("pre_amount", uint64)
    ∷ ("post_amount", uint64)
    ∷ [])

abbrev pub balances_schema : Fields
balances_schema = schema (
    ("block_slot", uint64)
    ∷ ("block_hash", binary)
    ∷ ("transaction_index", uint32)
    ∷ ("account", binary)
    ∷ ("pre", uint64)
    ∷ ("post", uint64)
    ∷ [])

abbrev pub logs_schema : Fields
logs_schema = schema (
    ("block_slot", uint64)
    ∷ ("block_hash", binary)
    ∷ ("transaction_index", uint32)
    ∷ ("log_index", uint32)
    ∷ ("instruction_address", (list (field "item" uint32 true)))
    ∷ ("program_id", binary)
    ∷ ("kind", utf8)
    ∷ ("message", utf8)
    ∷ [])

abbrev pub transactions_schema : Fields
transactions_schema = schema (
    ("block_slot", uint64)
    ∷ ("block_hash", binary)
    ∷ ("transaction_index", uint32)
    ∷ ("signature", binary)
    ∷ ("version", int8)
    ∷ ("account_keys", (list (field "item" binary true)))
    ∷ ("address_table_lookups", (list (field "item" address_table_lookup_dt true)))
    ∷ ("num_readonly_signed_accounts", uint32)
    ∷ ("num_readonly_unsigned_accounts", uint32)
    ∷ ("num_required_signatures", uint32)
    ∷ ("recent_blockhash", binary)
    ∷ ("signatures", (list (field "item" binary true)))
    ∷ ("err", utf8)
    ∷ ("fee", uint64)
    ∷ ("compute_units_consumed", uint64)
    ∷ ("loaded_readonly_addresses", (list (field "item" binary true)))
    ∷ ("loaded_writable_addresses", (list (field "item" binary true)))
    ∷ ("fee_payer", binary)
    ∷ ("has_dropped_log_messages", boolean)
    ∷ [])

abbrev pub instructions_schema : Fields
instructions_schema = schema (
    ("block_slot", uint64)
    ∷ ("block_hash", binary)
    ∷ ("transaction_index", uint32)
    ∷ ("instruction_address", (list (field "item" uint32 true)))
    ∷ ("program_id", binary)
    ∷ ("a0", binary)
    ∷ ("a1", binary)
    ∷ ("a2", binary)
    ∷ ("a3", binary)
    ∷ ("a4", binary)
    ∷ ("a5", binary)
    ∷ ("a6", binary)
    ∷ ("a7", binary)
    ∷ ("a8", binary)
    ∷ ("a9", binary)
    ∷ ("rest_of_accounts", (list (field "item" binary true)))
    ∷ ("data", binary)
    ∷ ("d1", binary)
    ∷ ("d2", binary)
    ∷ ("d4", binary)
    ∷ ("d8", binary)
    ∷ ("error", utf8)
    ∷ ("compute_units_consumed", uint64)
    ∷ ("is_committed", boolean)
    ∷ ("has_dropped_log_messages", boolean)
    ∷ [])
