-- ===== src/Ingest/Fetched/Mentions.antt =====
-- ingest/src/provider/common.rs: the tables of a converted EVM query, by the flags of its requests.
use cherry_core.Base.{arith, Bool, false, not, ◌||◌, List, [], String, ok, ◌≡◌}
use cherry_core.Base.Dict.{Dict, insert}
use cherry_core.Query.Hashing.{Hashing}
use cherry_core.Query.Filter.{any}
use cherry_core.Query.Engine.{TableSelection}
use cherry_core.Ingest.Evm
use cherry_core.Ingest.Evm.Selections.Block.{block_selection}
use cherry_core.Ingest.Evm.Selections.Transaction.{transaction_selection}
use cherry_core.Ingest.Evm.Selections.Log.{log_selection}
use cherry_core.Ingest.Evm.Selections.Trace.{trace_selection}
use cherry_core.Ingest.Evm.{TransactionRequest, TraceRequest, LogRequest}
use cherry_core.Ingest.Common.{is_empty, collect_selections, with_all_blocks}
use cherry_core.Ingest.Common.Evm.{
  evm_tx_selection_to_generic, evm_trace_selection_to_generic, evm_log_selection_to_generic,
  evm_tx_selection_include, evm_trace_selection_include, evm_log_selection_include,
  any_includes_transactions, any_includes_logs, any_includes_traces, any_request_includes_blocks,
}
use cherry_core.Ingest.Fetched.{joins, mentions}
use cherry_core.Ingest.Fetched.Joins.{
  any-false, any-empty, tx_joins, trace_joins, log_joins, any-collect_selections, include_of,
}

module _ (H : Hashing) (query : Evm.Query) (txs traces logs : List (TableSelection H))
    (tx_e : collect_selections H (evm_tx_selection_to_generic H) query.transactions ≡ ok txs)
    (trace_e : collect_selections H (evm_trace_selection_to_generic H) query.traces ≡ ok traces)
    (log_e : collect_selections H (evm_log_selection_to_generic H) query.logs ≡ ok logs) where
  abbrev pub selected : Dict (List (TableSelection H))
  selected =
      with_all_blocks H query.include_all_blocks
        (insert "logs" logs (insert "traces" traces (insert "transactions" txs [])))

  -- The joins of all selections with a table, by the flags of the requests.
  joins_of :
      (t : String) (f : TransactionRequest → Bool) (g : TraceRequest → Bool) (k : LogRequest → Bool)
      → ((r : TransactionRequest) → joins t (evm_tx_selection_include r) ≡ f r)
      → ((r : TraceRequest) → joins t (evm_trace_selection_include r) ≡ g r)
      → ((r : LogRequest) → joins t (evm_log_selection_include r) ≡ k r)
      → ((is_empty txs ≡ is_empty query.transactions)
          × (any (λ s. joins t s.include) txs ≡ any f query.transactions))
        × ((is_empty traces ≡ is_empty query.traces)
            × (any (λ s. joins t s.include) traces ≡ any g query.traces))
        × ((is_empty logs ≡ is_empty query.logs)
            × (any (λ s. joins t s.include) logs ≡ any k query.logs))
  unfolding evm_tx_selection_to_generic evm_trace_selection_to_generic evm_log_selection_to_generic
  joins_of t f g k hf hg hk = (
    any-collect_selections H t (evm_tx_selection_to_generic H) evm_tx_selection_include f
        (λ r s. include_of H _ (evm_tx_selection_include r) s) hf query.transactions txs tx_e,
    any-collect_selections H t (evm_trace_selection_to_generic H) evm_trace_selection_include g
        (λ r s. include_of H _ (evm_trace_selection_include r) s) hg query.traces traces trace_e,
    any-collect_selections H t (evm_log_selection_to_generic H) evm_log_selection_include k
        (λ r s. include_of H _ (evm_log_selection_include r) s) hk query.logs logs log_e,
  )

  pub mentions-transactions :
      mentions H "transactions" selected
      ≡ (not (is_empty query.transactions) || any_includes_transactions query)
  unfolding insert
  mentions-transactions =
      let ((e, j), (e', j'), (e'', j'')) =
        joins_of "transactions" (λ _. false) (λ r. r.include_transactions)
          (λ r. r.include_transactions) (λ r. (tx_joins r).0) (λ r. (trace_joins r).0)
          (λ r. (log_joins r).0) in
      ground (arith, e, j, e', j', e'', j'', any-false query.transactions)

  pub mentions-logs :
      mentions H "logs" selected ≡ (not (is_empty query.logs) || any_includes_logs query)
  unfolding insert
  mentions-logs =
      let ((e, j), (e', j'), (e'', j'')) =
        joins_of "logs" (λ r. r.include_logs) (λ r. r.include_transaction_logs)
          (λ r. r.include_transaction_logs) (λ r. (tx_joins r).1) (λ r. (trace_joins r).1)
          (λ r. (log_joins r).1) in
      ground (arith, e, j, e', j', e'', j'', any-empty (λ r. r.include_transaction_logs) query.logs)

  pub mentions-traces :
      mentions H "traces" selected ≡ (not (is_empty query.traces) || any_includes_traces query)
  unfolding insert
  mentions-traces =
      let ((e, j), (e', j'), (e'', j'')) =
        joins_of "traces" (λ r. r.include_traces) (λ r. r.include_transaction_traces)
          (λ r. r.include_transaction_traces) (λ r. (tx_joins r).2) (λ r. (trace_joins r).2)
          (λ r. (log_joins r).2) in
      ground (arith, e, j, e', j', e'', j'')

  pub mentions-blocks :
      mentions H "blocks" selected ≡ (query.include_all_blocks || any_request_includes_blocks query)
  unfolding insert
  mentions-blocks =
      let ((e, j), (e', j'), (e'', j'')) =
        joins_of "blocks" (λ r. r.include_blocks) (λ r. r.include_blocks) (λ r. r.include_blocks)
          (λ r. (tx_joins r).3) (λ r. (trace_joins r).3) (λ r. (log_joins r).3) in
      ground (arith, e, j, e', j', e'', j'')
