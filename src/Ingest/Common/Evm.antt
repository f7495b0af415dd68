-- ===== src/Ingest/Common/Evm.antt =====
-- ingest/src/provider/common.rs: the conversion of EVM queries.
use cherry_core.Base.{
  String, Bool, not, ◌&&◌, ◌||◌, List, [], ◌∷◌, Result, ok, err, ◌>>=◌, if◌then◌else◌,
}
use cherry_core.Base.Dict.{Dict, insert}
use cherry_core.Arrow.Data.{Array}
use cherry_core.Query.Hashing.{Hashing}
use cherry_core.Query.Filter.{any}
use cherry_core.Query.Engine.{Include, TableSelection, Query}
use cherry_core.Ingest.Serde.{field_selection_to_set}
use cherry_core.Ingest.Evm
use cherry_core.Ingest.Evm.{TransactionRequest, TraceRequest, LogRequest}
use cherry_core.Ingest.Evm.Selections.Block.{block_selection}
use cherry_core.Ingest.Evm.Selections.Transaction.{transaction_selection}
use cherry_core.Ingest.Evm.Selections.Log.{log_selection}
use cherry_core.Ingest.Evm.Selections.Trace.{trace_selection}
use cherry_core.Ingest.Common.{
  Error, never_fetched, binary_array, string_array, uint8_array, is_empty, include_if,
  filter_contains, collect_filters, collect_selections, with_all_blocks,
}

abbrev pub evm_tx_selection_filters : TransactionRequest → List (String × Array)
evm_tx_selection_filters selection =
    ("from", binary_array selection.from_)
    ∷ ("to", binary_array selection.to)
    ∷ ("sighash", binary_array selection.sighash)
    ∷ ("status", uint8_array selection.status)
    ∷ ("type", uint8_array selection.type_)
    ∷ ("contract_deployment_address", binary_array selection.contract_deployment_address)
    ∷ ("hash", binary_array selection.hash)
    ∷ []

abbrev pub evm_tx_selection_include : TransactionRequest → List Include
evm_tx_selection_include selection =
    include_if selection.include_logs "logs" ("block_number" ∷ "transaction_index" ∷ [])
      ("block_number" ∷ "transaction_index" ∷ [])
      (include_if selection.include_traces "traces" ("block_number" ∷ "transaction_index" ∷ [])
        ("block_number" ∷ "transaction_position" ∷ [])
        (include_if selection.include_blocks "blocks" ("block_number" ∷ []) ("number" ∷ []) []))

abbrev pub evm_trace_selection_filters : TraceRequest → List (String × Array)
evm_trace_selection_filters selection =
    ("from", binary_array selection.from_)
    ∷ ("to", binary_array selection.to)
    ∷ ("address", binary_array selection.address)
    ∷ ("call_type", string_array selection.call_type)
    ∷ ("reward_type", string_array selection.reward_type)
    ∷ ("type", string_array selection.type_)
    ∷ ("sighash", binary_array selection.sighash)
    ∷ ("author", binary_array selection.author)
    ∷ []

abbrev pub evm_trace_selection_include : TraceRequest → List Include
evm_trace_selection_include selection =
    include_if selection.include_transaction_logs "logs"
      ("block_number" ∷ "transaction_position" ∷ []) ("block_number" ∷ "transaction_index" ∷ [])
      (include_if selection.include_transaction_traces "traces"
        ("block_number" ∷ "transaction_position" ∷ [])
        ("block_number" ∷ "transaction_position" ∷ [])
        (include_if selection.include_transactions "transactions"
          ("block_number" ∷ "transaction_position" ∷ []) ("block_number" ∷ "transaction_index" ∷ [])
          (include_if selection.include_blocks "blocks" ("block_number" ∷ []) ("number" ∷ []) [])))

abbrev pub evm_log_selection_filters : LogRequest → List (String × Array)
evm_log_selection_filters selection =
    ("address", binary_array selection.address)
    ∷ ("topic0", binary_array selection.topic0)
    ∷ ("topic1", binary_array selection.topic1)
    ∷ ("topic2", binary_array selection.topic2)
    ∷ ("topic3", binary_array selection.topic3)
    ∷ []

abbrev pub evm_log_selection_include : LogRequest → List Include
evm_log_selection_include selection =
    include_if selection.include_transaction_logs "logs" ("block_number" ∷ "transaction_index" ∷ [])
      ("block_number" ∷ "transaction_index" ∷ [])
      (include_if selection.include_transactions "transactions"
        ("block_number" ∷ "transaction_index" ∷ []) ("block_number" ∷ "transaction_index" ∷ [])
        (include_if selection.include_transaction_traces "traces"
          ("block_number" ∷ "transaction_index" ∷ []) ("block_number" ∷ "transaction_position" ∷ [])
          (include_if selection.include_blocks "blocks" ("block_number" ∷ []) ("number" ∷ []) [])))

module _ (H : Hashing) where
  unfoldable pub evm_tx_selection_to_generic : TransactionRequest → Result Error (TableSelection H)
  unfolding filter_contains collect_filters
  evm_tx_selection_to_generic selection = do
    filters ← collect_filters H (λ _. filter_contains H) (evm_tx_selection_filters selection) []
    ok (record { filters = filters; include = evm_tx_selection_include selection })

  unfoldable pub evm_trace_selection_to_generic : TraceRequest → Result Error (TableSelection H)
  unfolding filter_contains collect_filters
  evm_trace_selection_to_generic selection = do
    filters ← collect_filters H (λ _. filter_contains H) (evm_trace_selection_filters selection) []
    ok (record { filters = filters; include = evm_trace_selection_include selection })

  unfoldable pub evm_log_selection_to_generic : LogRequest → Result Error (TableSelection H)
  unfolding filter_contains collect_filters
  evm_log_selection_to_generic selection = do
    filters ← collect_filters H (λ _. filter_contains H) (evm_log_selection_filters selection) []
    ok (record { filters = filters; include = evm_log_selection_include selection })

-- The checks at the top of `evm_query_to_generic`.
abbrev pub any_includes_transactions : Evm.Query → Bool
any_includes_transactions query =
    any (λ r. r.include_transactions) query.logs || any (λ r. r.include_transactions) query.traces

abbrev pub any_includes_logs : Evm.Query → Bool
any_includes_logs query =
    any (λ r. r.include_logs) query.transactions
    || any (λ r. r.include_transaction_logs) query.traces

abbrev pub any_includes_traces : Evm.Query → Bool
any_includes_traces query =
    any (λ r. r.include_traces) query.transactions
    || any (λ r. r.include_transaction_traces) query.logs
    || any (λ r. r.include_transaction_traces) query.traces

abbrev pub any_request_includes_blocks : Evm.Query → Bool
any_request_includes_blocks query =
    any (λ r. r.include_blocks) query.transactions
    || any (λ r. r.include_blocks) query.logs
    || any (λ r. r.include_blocks) query.traces

-- Fields are asked for, no request is for their table, and no other request brings it along.
abbrev pub check_fetched : String → List String → Bool → Bool → Result Error (Unit {0})
check_fetched table fields none_requested any_includes =
    if not (is_empty fields) && none_requested && not any_includes
    then err (never_fetched table)
    else ok tt

unfoldable pub check_fields : Evm.Query → Result Error (Unit {0})
check_fields query = do
  _ ←
      check_fetched "transactions" (field_selection_to_set query.fields.transaction)
        (is_empty query.transactions) (any_includes_transactions query)
  _ ←
      check_fetched "logs" (field_selection_to_set query.fields.log) (is_empty query.logs)
        (any_includes_logs query)
  _ ←
      check_fetched "traces" (field_selection_to_set query.fields.trace) (is_empty query.traces)
        (any_includes_traces query)
  check_fetched "blocks" (field_selection_to_set query.fields.block) (not query.include_all_blocks)
      (any_request_includes_blocks query)

abbrev pub evm_fields : Evm.Query → Dict (List String)
evm_fields query = insert "logs" (field_selection_to_set query.fields.log) (
    insert "traces" (field_selection_to_set query.fields.trace) (
      insert "transactions" (field_selection_to_set query.fields.transaction)
        (insert "blocks" (field_selection_to_set query.fields.block) [])))

module _ (H : Hashing) where
  unfoldable pub evm_selection : Evm.Query → Result Error (Dict (List (TableSelection H)))
  unfolding collect_selections evm_tx_selection_to_generic evm_trace_selection_to_generic
      evm_log_selection_to_generic
  evm_selection query = do
    transactions ← collect_selections H (evm_tx_selection_to_generic H) query.transactions
    traces ← collect_selections H (evm_trace_selection_to_generic H) query.traces
    logs ← collect_selections H (evm_log_selection_to_generic H) query.logs
    ok (
        with_all_blocks H query.include_all_blocks
          (insert "logs" logs (insert "traces" traces (insert "transactions" transactions []))))

  unfoldable pub evm_query_to_generic : Evm.Query → Result Error (Query H)
  unfolding check_fields evm_selection
  evm_query_to_generic query = do
    _ ← check_fields query
    selection ← evm_selection query
    ok (record { selection = selection; fields = evm_fields query })
