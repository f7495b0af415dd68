-- ===== src/Schema/Evm/Tests.antt =====
-- evm-schema/src/lib.rs: builders with two rows.
use cherry_core.Base.{pos, true}
use cherry_core.Arrow.Types.{list, field, decimal256}
use cherry_core.Arrow.Shapes.{shapes}
use cherry_core.Schema.Shapes.{row_shapes}
use cherry_core.Schema.Evm.{withdrawal_dt, access_list_elem_dt}
use cherry_core.Schema.Evm.Blocks
use cherry_core.Schema.Evm.Blocks.{BlocksBuilder}
use cherry_core.Schema.Evm.Transactions
use cherry_core.Schema.Evm.Transactions.{TransactionsBuilder}
use cherry_core.Schema.Evm.Logs
use cherry_core.Schema.Evm.Logs.{LogsBuilder}
use cherry_core.Schema.Evm.Traces
use cherry_core.Schema.Evm.Traces.{TracesBuilder}

abbrev two_blocks : BlocksBuilder shapes row_shapes
unfolding row_shapes
two_blocks = record {
  number = 2;
  hash = 2;
  parent_hash = 2;
  nonce = 2;
  sha3_uncles = 2;
  logs_bloom = 2;
  transactions_root = 2;
  state_root = 2;
  receipts_root = 2;
  miner = 2;
  difficulty = (decimal256 76 (pos 0), 2);
  total_difficulty = (decimal256 76 (pos 0), 2);
  extra_data = 2;
  size = (decimal256 76 (pos 0), 2);
  gas_limit = (decimal256 76 (pos 0), 2);
  gas_used = (decimal256 76 (pos 0), 2);
  timestamp = (decimal256 76 (pos 0), 2);
  uncles = 2;
  base_fee_per_gas = (decimal256 76 (pos 0), 2);
  blob_gas_used = (decimal256 76 (pos 0), 2);
  excess_blob_gas = (decimal256 76 (pos 0), 2);
  parent_beacon_block_root = 2;
  withdrawals_root = 2;
  withdrawals = (list (field "item" withdrawal_dt true), 2);
  l1_block_number = 2;
  send_count = (decimal256 76 (pos 0), 2);
  send_root = 2;
  mix_hash = 2;
}

abbrev two_transactions : TransactionsBuilder shapes row_shapes
unfolding row_shapes
two_transactions = record {
  block_hash = 2;
  block_number = 2;
  from = 2;
  gas = (decimal256 76 (pos 0), 2);
  gas_price = (decimal256 76 (pos 0), 2);
  hash = 2;
  input = 2;
  nonce = (decimal256 76 (pos 0), 2);
  to = 2;
  transaction_index = 2;
  value = (decimal256 76 (pos 0), 2);
  v = 2;
  r = 2;
  s = 2;
  max_priority_fee_per_gas = (decimal256 76 (pos 0), 2);
  max_fee_per_gas = (decimal256 76 (pos 0), 2);
  chain_id = (decimal256 76 (pos 0), 2);
  cumulative_gas_used = (decimal256 76 (pos 0), 2);
  effective_gas_price = (decimal256 76 (pos 0), 2);
  gas_used = (decimal256 76 (pos 0), 2);
  contract_address = 2;
  logs_bloom = 2;
  type_ = 2;
  root = 2;
  status = 2;
  sighash = 2;
  y_parity = 2;
  access_list = (list (field "item" access_list_elem_dt true), 2);
  l1_fee = (decimal256 76 (pos 0), 2);
  l1_gas_price = (decimal256 76 (pos 0), 2);
  l1_gas_used = (decimal256 76 (pos 0), 2);
  l1_fee_scalar = (decimal256 76 (pos 0), 2);
  gas_used_for_l1 = (decimal256 76 (pos 0), 2);
  max_fee_per_blob_gas = (decimal256 76 (pos 0), 2);
  blob_versioned_hashes = 2;
  deposit_nonce = (decimal256 76 (pos 0), 2);
  blob_gas_price = (decimal256 76 (pos 0), 2);
  deposit_receipt_version = (decimal256 76 (pos 0), 2);
  blob_gas_used = (decimal256 76 (pos 0), 2);
  l1_base_fee_scalar = (decimal256 76 (pos 0), 2);
  l1_blob_base_fee = (decimal256 76 (pos 0), 2);
  l1_blob_base_fee_scalar = (decimal256 76 (pos 0), 2);
  l1_block_number = 2;
  mint = (decimal256 76 (pos 0), 2);
  source_hash = 2;
}

abbrev two_logs : LogsBuilder shapes row_shapes
unfolding row_shapes
two_logs = record {
  removed = 2;
  log_index = 2;
  transaction_index = 2;
  transaction_hash = 2;
  block_hash = 2;
  block_number = 2;
  address = 2;
  data_ = 2;
  topic0 = 2;
  topic1 = 2;
  topic2 = 2;
  topic3 = 2;
}

abbrev two_traces : TracesBuilder shapes row_shapes
unfolding row_shapes
two_traces = record {
  from = 2;
  to = 2;
  call_type = 2;
  gas = (decimal256 76 (pos 0), 2);
  input = 2;
  init = 2;
  value = (decimal256 76 (pos 0), 2);
  author = 2;
  reward_type = 2;
  block_hash = 2;
  block_number = 2;
  address = 2;
  code = 2;
  gas_used = (decimal256 76 (pos 0), 2);
  output = 2;
  subtraces = 2;
  trace_address = 2;
  transaction_hash = 2;
  transaction_position = 2;
  type_ = 2;
  error = 2;
  sighash = 2;
  action_address = 2;
  balance = (decimal256 76 (pos 0), 2);
  refund_address = 2;
}
