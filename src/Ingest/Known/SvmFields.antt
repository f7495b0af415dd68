-- ===== src/Ingest/Known/SvmFields.antt =====
-- ingest/src/svm.rs against svm-schema/src/lib.rs: the fields that can be selected.
use cherry_core.Base.{true, ◌≡◌, refl}
use cherry_core.Ingest.Serde.{field_selection_to_set}
use cherry_core.Ingest.Serde.Names.{has_names-field_selection_to_set}
use cherry_core.Ingest.Known.{has_names}
use cherry_core.Schema.Rows.{names}
use cherry_core.Schema.Svm.{
  instructions_schema, transactions_schema, logs_schema, balances_schema, token_balances_schema,
  rewards_schema, blocks_schema,
}
use cherry_core.Ingest.Svm.{Fields}
use cherry_core.Ingest.Svm.Selections.Instruction.{instruction_selection}
use cherry_core.Ingest.Svm.Selections.Transaction.{transaction_selection}
use cherry_core.Ingest.Svm.Selections.Log.{log_selection}
use cherry_core.Ingest.Svm.Selections.Balance.{balance_selection}
use cherry_core.Ingest.Svm.Selections.TokenBalance.{token_balance_selection}
use cherry_core.Ingest.Svm.Selections.Reward.{reward_selection}
use cherry_core.Ingest.Svm.Selections.Block.{block_selection}

-- All names that a field selection of an SVM query can give are columns of the schema of its table.
pub svm_fields-columns :
    (fields : Fields)
    → (has_names (field_selection_to_set fields.instruction) (names instructions_schema) ≡ true)
      × (has_names (field_selection_to_set fields.transaction) (names transactions_schema) ≡ true)
      × (has_names (field_selection_to_set fields.log) (names logs_schema) ≡ true)
      × (has_names (field_selection_to_set fields.balance) (names balances_schema) ≡ true)
      × (has_names (field_selection_to_set fields.token_balance) (names token_balances_schema)
          ≡ true)
      × (has_names (field_selection_to_set fields.reward) (names rewards_schema) ≡ true)
      × (has_names (field_selection_to_set fields.block) (names blocks_schema) ≡ true)
svm_fields-columns fields = (
  has_names-field_selection_to_set instruction_selection fields.instruction
      (names instructions_schema) refl,
  has_names-field_selection_to_set transaction_selection fields.transaction
      (names transactions_schema) refl,
  has_names-field_selection_to_set log_selection fields.log (names logs_schema) refl,
  has_names-field_selection_to_set balance_selection fields.balance (names balances_schema) refl,
  has_names-field_selection_to_set token_balance_selection fields.token_balance
      (names token_balances_schema) refl,
  has_names-field_selection_to_set reward_selection fields.reward (names rewards_schema) refl,
  has_names-field_selection_to_set block_selection fields.block (names blocks_schema) refl,
)
