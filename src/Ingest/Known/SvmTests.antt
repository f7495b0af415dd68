-- ===== src/Ingest/Known/SvmTests.antt =====
-- ingest/src/svm.rs: the selection of all fields.
use cherry_core.Base.{true, ◌≡◌}
use cherry_core.Ingest.Serde.{field_selection_to_set}
use cherry_core.Ingest.Known.{has_names}
use cherry_core.Ingest.Known.SvmFields.{svm_fields-columns}
use cherry_core.Schema.Rows.{names}
use cherry_core.Schema.Svm.{
  instructions_schema, transactions_schema, logs_schema, balances_schema, token_balances_schema,
  rewards_schema, blocks_schema,
}
use cherry_core.Ingest.Svm.{all}
use cherry_core.Ingest.Svm.Selections.Instruction.{instruction_selection}
use cherry_core.Ingest.Svm.Selections.Transaction.{transaction_selection}
use cherry_core.Ingest.Svm.Selections.Log.{log_selection}
use cherry_core.Ingest.Svm.Selections.Balance.{balance_selection}
use cherry_core.Ingest.Svm.Selections.TokenBalance.{token_balance_selection}
use cherry_core.Ingest.Svm.Selections.Reward.{reward_selection}
use cherry_core.Ingest.Svm.Selections.Block.{block_selection}

svm_fields-columns_example :
    (has_names (field_selection_to_set all.instruction) (names instructions_schema) ≡ true)
    × (has_names (field_selection_to_set all.transaction) (names transactions_schema) ≡ true)
    × (has_names (field_selection_to_set all.log) (names logs_schema) ≡ true)
    × (has_names (field_selection_to_set all.balance) (names balances_schema) ≡ true)
    × (has_names (field_selection_to_set all.token_balance) (names token_balances_schema) ≡ true)
    × (has_names (field_selection_to_set all.reward) (names rewards_schema) ≡ true)
    × (has_names (field_selection_to_set all.block) (names blocks_schema) ≡ true)
svm_fields-columns_example = svm_fields-columns all
