-- ===== src/Schema/Svm/Tests.antt =====
-- svm-schema/src/lib.rs: builders with two rows.
use cherry_core.Base.{true}
use cherry_core.Arrow.Types.{list, field}
use cherry_core.Arrow.Shapes.{shapes}
use cherry_core.Schema.Shapes.{row_shapes}
use cherry_core.Schema.Svm.{address_table_lookup_dt}
use cherry_core.Schema.Svm.Blocks
use cherry_core.Schema.Svm.Blocks.{BlocksBuilder}
use cherry_core.Schema.Svm.Rewards
use cherry_core.Schema.Svm.Rewards.{RewardsBuilder}
use cherry_core.Schema.Svm.TokenBalances
use cherry_core.Schema.Svm.TokenBalances.{TokenBalancesBuilder}
use cherry_core.Schema.Svm.Balances
use cherry_core.Schema.Svm.Balances.{BalancesBuilder}
use cherry_core.Schema.Svm.Logs
use cherry_core.Schema.Svm.Logs.{LogsBuilder}
use cherry_core.Schema.Svm.Transactions
use cherry_core.Schema.Svm.Transactions.{TransactionsBuilder}
use cherry_core.Schema.Svm.Instructions
use cherry_core.Schema.Svm.Instructions.{InstructionsBuilder}

abbrev two_blocks : BlocksBuilder shapes row_shapes
unfolding row_shapes
two_blocks = record {
  slot = 2;
  hash = 2;
  parent_slot = 2;
  parent_hash = 2;
  height = 2;
  timestamp = 2;
}

abbrev two_rewards : RewardsBuilder shapes row_shapes
unfolding row_shapes
two_rewards = record {
  block_slot = 2;
  block_hash = 2;
  pubkey = 2;
  lamports = 2;
  post_balance = 2;
  reward_type = 2;
  commission = 2;
}

abbrev two_token_balances : TokenBalancesBuilder shapes row_shapes
unfolding row_shapes
two_token_balances = record {
  block_slot = 2;
  block_hash = 2;
  transaction_index = 2;
  account = 2;
  pre_mint = 2;
  post_mint = 2;
  pre_decimals = 2;
  post_decimals = 2;
  pre_program_id = 2;
  post_program_id = 2;
  pre_owner = 2;
  post_owner = 2;
  pre_amount = 2;
  post_amount = 2;
}

abbrev two_balances : BalancesBuilder shapes row_shapes
unfolding row_shapes
two_balances = record {
  block_slot = 2;
  block_hash = 2;
  transaction_index = 2;
  account = 2;
  pre = 2;
  post = 2;
}

abbrev two_logs : LogsBuilder shapes row_shapes
unfolding row_shapes
two_logs = record {
  block_slot = 2;
  block_hash = 2;
  transaction_index = 2;
  log_index = 2;
  instruction_address = 2;
  program_id = 2;
  kind = 2;
  message = 2;
}

abbrev two_transactions : TransactionsBuilder shapes row_shapes
unfolding row_shapes
two_transactions = record {
  block_slot = 2;
  block_hash = 2;
  transaction_index = 2;
  signature = 2;
  version = 2;
  account_keys = 2;
  address_table_lookups = (list (field "item" address_table_lookup_dt true), 2);
  num_readonly_signed_accounts = 2;
  num_readonly_unsigned_accounts = 2;
  num_required_signatures = 2;
  recent_blockhash = 2;
  signatures = 2;
  err = 2;
  fee = 2;
  compute_units_consumed = 2;
  loaded_readonly_addresses = 2;
  loaded_writable_addresses = 2;
  fee_payer = 2;
  has_dropped_log_messages = 2;
}

abbrev two_instructions : InstructionsBuilder shapes row_shapes
unfolding row_shapes
two_instructions = record {
  block_slot = 2;
  block_hash = 2;
  transaction_index = 2;
  instruction_address = 2;
  program_id = 2;
  a0 = 2;
  a1 = 2;
  a2 = 2;
  a3 = 2;
  a4 = 2;
  a5 = 2;
  a6 = 2;
  a7 = 2;
  a8 = 2;
  a9 = 2;
  rest_of_accounts = 2;
  data_ = 2;
  d1 = 2;
  d2 = 2;
  d4 = 2;
  d8 = 2;
  error = 2;
  compute_units_consumed = 2;
  is_committed = 2;
  has_dropped_log_messages = 2;
}
