-- ===== src/Ingest/Common/Svm.antt =====
-- ingest/src/provider/common.rs: the conversion of SVM queries.
use cherry_core.Base.{String, true, List, [], ◌∷◌, map, Result, ok, ◌>>=◌, if◌then◌else◌}
use cherry_core.Base.Dict.{Dict, insert, str_eq}
use cherry_core.Arrow.Data.{Array}
use cherry_core.Query.Hashing.{Hashing}
use cherry_core.Query.Filter.{Filter, bool_filter, any}
use cherry_core.Query.Filter
use cherry_core.Query.Engine.{Include, TableSelection, Query}
use cherry_core.Ingest.Serde.{field_selection_to_set}
use cherry_core.Ingest.Svm
use cherry_core.Ingest.Svm.{
  InstructionRequest, TransactionRequest, LogRequest, BalanceRequest, TokenBalanceRequest,
  RewardRequest, as_str,
}
use cherry_core.Ingest.Svm.Selections.Instruction.{instruction_selection}
use cherry_core.Ingest.Svm.Selections.Transaction.{transaction_selection}
use cherry_core.Ingest.Svm.Selections.Log.{log_selection}
use cherry_core.Ingest.Svm.Selections.Balance.{balance_selection}
use cherry_core.Ingest.Svm.Selections.TokenBalance.{token_balance_selection}
use cherry_core.Ingest.Svm.Selections.Reward.{reward_selection}
use cherry_core.Ingest.Svm.Selections.Block.{block_selection}
use cherry_core.Ingest.Common.{
  Error, binary_array, string_array, include_if, filter_contains, filter_starts_with,
  collect_filters, collect_selections, with_all_blocks,
}

abbrev pub svm_instruction_selection_filters : InstructionRequest → List (String × Array)
svm_instruction_selection_filters selection =
    ("program_id", binary_array selection.program_id)
    ∷ ("data", binary_array selection.discriminator)
    ∷ ("d1", binary_array selection.d1)
    ∷ ("d2", binary_array selection.d2)
    ∷ ("d3", binary_array selection.d3)
    ∷ ("d4", binary_array selection.d4)
    ∷ ("d8", binary_array selection.d8)
    ∷ ("a0", binary_array selection.a0)
    ∷ ("a1", binary_array selection.a1)
    ∷ ("a2", binary_array selection.a2)
    ∷ ("a3", binary_array selection.a3)
    ∷ ("a4", binary_array selection.a4)
    ∷ ("a5", binary_array selection.a5)
    ∷ ("a6", binary_array selection.a6)
    ∷ ("a7", binary_array selection.a7)
    ∷ ("a8", binary_array selection.a8)
    ∷ ("a9", binary_array selection.a9)
    ∷ []

abbrev pub svm_instruction_selection_include : InstructionRequest → List Include
svm_instruction_selection_include selection =
    include_if selection.include_logs "logs"
      ("block_slot" ∷ "transaction_index" ∷ "instruction_address" ∷ [])
      ("block_slot" ∷ "transaction_index" ∷ "instruction_address" ∷ [])
      (include_if selection.include_blocks "blocks" ("block_slot" ∷ []) ("slot" ∷ []) (
        include_if selection.include_transactions "transactions"
          ("block_slot" ∷ "transaction_index" ∷ []) ("block_slot" ∷ "transaction_index" ∷ [])
          (include_if selection.include_inner_instructions "instructions"
            ("block_slot" ∷ "transaction_index" ∷ []) ("block_slot" ∷ "transaction_index" ∷ [])
            (include_if selection.include_logs "instructions"
              ("block_slot" ∷ "instruction_address" ∷ [])
              ("block_slot" ∷ "instruction_address" ∷ [])
              (include_if selection.include_transaction_token_balances "token_balances"
                ("block_slot" ∷ "transaction_index" ∷ []) ("block_slot" ∷ "transaction_index" ∷ [])
                [])))))

abbrev pub svm_transaction_selection_filters : TransactionRequest → List (String × Array)
svm_transaction_selection_filters selection = ("fee_payer", binary_array selection.fee_payer) ∷ []

abbrev pub svm_transaction_selection_include : TransactionRequest → List Include
svm_transaction_selection_include selection =
    include_if selection.include_logs "logs" ("block_slot" ∷ "transaction_index" ∷ [])
      ("block_slot" ∷ "transaction_index" ∷ [])
      (include_if selection.include_instructions "instructions"
        ("block_slot" ∷ "transaction_index" ∷ []) ("block_slot" ∷ "transaction_index" ∷ [])
        (include_if selection.include_blocks "blocks" ("block_slot" ∷ []) ("slot" ∷ []) []))

abbrev pub svm_log_selection_filters : LogRequest → List (String × Array)
svm_log_selection_filters selection =
    ("program_id", binary_array selection.program_id)
    ∷ ("kind", string_array (map as_str selection.kind))
    ∷ []

abbrev pub svm_log_selection_include : LogRequest → List Include
svm_log_selection_include selection =
    include_if selection.include_transactions "transactions"
      ("block_slot" ∷ "transaction_index" ∷ []) ("block_slot" ∷ "transaction_index" ∷ [])
      (include_if selection.include_instructions "instructions"
        ("block_slot" ∷ "transaction_index" ∷ []) ("block_slot" ∷ "transaction_index" ∷ [])
        (include_if selection.include_blocks "blocks" ("block_slot" ∷ []) ("slot" ∷ []) []))

abbrev pub svm_balance_selection_filters : BalanceRequest → List (String × Array)
svm_balance_selection_filters selection = ("account", binary_array selection.account) ∷ []

abbrev pub svm_balance_selection_include : BalanceRequest → List Include
svm_balance_selection_include selection =
    include_if selection.include_transactions "transactions"
      ("block_slot" ∷ "transaction_index" ∷ []) ("block_slot" ∷ "transaction_index" ∷ [])
      (include_if selection.include_transaction_instructions "instructions"
        ("block_slot" ∷ "transaction_index" ∷ []) ("block_slot" ∷ "transaction_index" ∷ [])
        (include_if selection.include_blocks "blocks" ("block_slot" ∷ []) ("slot" ∷ []) []))

abbrev pub svm_token_balance_selection_filters : TokenBalanceRequest → List (String × Array)
svm_token_balance_selection_filters selection =
    ("account", binary_array selection.account)
    ∷ ("pre_program_id", binary_array selection.pre_program_id)
    ∷ ("post_program_id", binary_array selection.post_program_id)
    ∷ ("pre_mint", binary_array selection.pre_mint)
    ∷ ("post_mint", binary_array selection.post_mint)
    ∷ ("pre_owner", binary_array selection.pre_owner)
    ∷ ("post_owner", binary_array selection.post_owner)
    ∷ []

abbrev pub svm_token_balance_selection_include : TokenBalanceRequest → List Include
svm_token_balance_selection_include selection =
    include_if selection.include_transactions "transactions"
      ("block_slot" ∷ "transaction_index" ∷ []) ("block_slot" ∷ "transaction_index" ∷ [])
      (include_if selection.include_transaction_instructions "instructions"
        ("block_slot" ∷ "transaction_index" ∷ []) ("block_slot" ∷ "transaction_index" ∷ [])
        (include_if selection.include_blocks "blocks" ("block_slot" ∷ []) ("slot" ∷ []) []))

abbrev pub svm_reward_selection_filters : RewardRequest → List (String × Array)
svm_reward_selection_filters selection = ("pubkey", binary_array selection.pubkey) ∷ []

abbrev pub svm_reward_selection_include : RewardRequest → List Include
svm_reward_selection_include selection =
    include_if selection.include_blocks "blocks" ("block_slot" ∷ []) ("slot" ∷ []) []

module _ (H : Hashing) where
  -- The discriminators are prefixes of the instruction's data.
  unfoldable pub data_or_contains : String → Array → Result Filter.Error (Filter H)
  unfolding filter_contains filter_starts_with
  data_or_contains name arr =
      if str_eq name "data" then filter_starts_with H arr else filter_contains H arr

  unfoldable pub svm_instruction_selection_to_generic :
      InstructionRequest → Result Error (TableSelection H)
  unfolding data_or_contains collect_filters
  svm_instruction_selection_to_generic selection = do
    filters ← collect_filters H data_or_contains (svm_instruction_selection_filters selection) []
    let filters' =
        if selection.is_committed then insert "is_committed" (bool_filter true) filters else filters
    ok (record { filters = filters'; include = svm_instruction_selection_include selection })

  unfoldable pub svm_transaction_selection_to_generic :
      TransactionRequest → Result Error (TableSelection H)
  unfolding filter_contains collect_filters
  svm_transaction_selection_to_generic selection = do
    filters ←
        collect_filters H (λ _. filter_contains H) (svm_transaction_selection_filters selection) []
    ok (record { filters = filters; include = svm_transaction_selection_include selection })

  unfoldable pub svm_log_selection_to_generic : LogRequest → Result Error (TableSelection H)
  unfolding filter_contains collect_filters
  svm_log_selection_to_generic selection = do
    filters ← collect_filters H (λ _. filter_contains H) (svm_log_selection_filters selection) []
    ok (record { filters = filters; include = svm_log_selection_include selection })

  unfoldable pub svm_balance_selection_to_generic : BalanceRequest → Result Error (TableSelection H)
  unfolding filter_contains collect_filters
  svm_balance_selection_to_generic selection = do
    filters ←
        collect_filters H (λ _. filter_contains H) (svm_balance_selection_filters selection) []
    ok (record { filters = filters; include = svm_balance_selection_include selection })

  unfoldable pub svm_token_balance_selection_to_generic :
      TokenBalanceRequest → Result Error (TableSelection H)
  unfolding filter_contains collect_filters
  svm_token_balance_selection_to_generic selection = do
    filters ←
        collect_filters H (λ _. filter_contains H) (svm_token_balance_selection_filters selection)
          []
    ok (record { filters = filters; include = svm_token_balance_selection_include selection })

  unfoldable pub svm_reward_selection_to_generic : RewardRequest → Result Error (TableSelection H)
  unfolding filter_contains collect_filters
  svm_reward_selection_to_generic selection = do
    filters ← collect_filters H (λ _. filter_contains H) (svm_reward_selection_filters selection) []
    ok (record { filters = filters; include = svm_reward_selection_include selection })

abbrev pub svm_fields : Svm.Query → Dict (List String)
svm_fields query = insert "blocks" (field_selection_to_set query.fields.block) (
    insert "rewards" (field_selection_to_set query.fields.reward) (
      insert "token_balances" (field_selection_to_set query.fields.token_balance) (
        insert "balances" (field_selection_to_set query.fields.balance) (
          insert "logs" (field_selection_to_set query.fields.log) (
            insert "transactions" (field_selection_to_set query.fields.transaction)
              (insert "instructions" (field_selection_to_set query.fields.instruction) []))))))

module _ (H : Hashing) where
  unfoldable pub svm_selection : Svm.Query → Result Error (Dict (List (TableSelection H)))
  unfolding collect_selections svm_instruction_selection_to_generic
      svm_transaction_selection_to_generic svm_log_selection_to_generic
      svm_balance_selection_to_generic svm_token_balance_selection_to_generic
      svm_reward_selection_to_generic
  svm_selection query = do
    instructions ← collect_selections H (svm_instruction_selection_to_generic H) query.instructions
    transactions ← collect_selections H (svm_transaction_selection_to_generic H) query.transactions
    logs ← collect_selections H (svm_log_selection_to_generic H) query.logs
    balances ← collect_selections H (svm_balance_selection_to_generic H) query.balances
    token_balances ←
        collect_selections H (svm_token_balance_selection_to_generic H) query.token_balances
    rewards ← collect_selections H (svm_reward_selection_to_generic H) query.rewards
    ok (
        with_all_blocks H query.include_all_blocks (
          insert "rewards" rewards (
            insert "token_balances" token_balances (
              insert "balances" balances (
                insert "logs" logs
                  (insert "transactions" transactions (insert "instructions" instructions [])))))))

  unfoldable pub svm_query_to_generic : Svm.Query → Result Error (Query H)
  unfolding svm_selection
  svm_query_to_generic query = do
    selection ← svm_selection query
    ok (record { selection = selection; fields = svm_fields query })
