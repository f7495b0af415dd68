-- ===== src/Ingest/Known/Evm.antt =====
-- ingest/src/provider/common.rs against evm-schema/src/lib.rs: the columns that an EVM query asks for.
use cherry_core.Base.{
  Result, All, ok, false, String, List, [], ◌∷◌, ◌≡◌, refl, All-weaken, All-of_each,
}
use cherry_core.Base.Dict.{insert, Dict, get}
use cherry_core.Query.Hashing.{Hashing}
use cherry_core.Ingest.Evm
use cherry_core.Query.Engine.{TableSelection}
use cherry_core.Query.Request.Names.{all_requests}
use cherry_core.Schema.Rows.{names}
use cherry_core.Schema.Evm.{blocks_schema, logs_schema, traces_schema, transactions_schema}
use cherry_core.Ingest.Evm.{TransactionRequest, TraceRequest, LogRequest}
use cherry_core.Ingest.Common.{
  Error, collect_selections, with_all_blocks, binary_array, is_empty, filter_contains,
}
use cherry_core.Ingest.Common.Evm.{
  evm_tx_selection_filters, evm_tx_selection_include, evm_tx_selection_to_generic,
  evm_trace_selection_to_generic, evm_log_selection_to_generic, evm_log_selection_filters,
  evm_trace_selection_filters, evm_log_selection_include, evm_trace_selection_include,
  evm_selection,
}
use cherry_core.Ingest.Common.Asked.{
  Succeeds, AllAsk, with_all_blocks-AllAsk, All-insert, include_if-All, Converts,
  Converts-of_filters, binary_filter, uint8_filter, string_filter, collect_selections-Succeeds,
  Asks, all_requests-All,
}
use cherry_core.Ingest.Known.{Knows}

abbrev pub evm_tables : Dict (List String)
evm_tables =
    ("blocks", names blocks_schema)
    ∷ ("logs", names logs_schema)
    ∷ ("traces", names traces_schema)
    ∷ ("transactions", names transactions_schema)
    ∷ []

-- The entry of the tables for a filter on the address of a deployed contract.
abbrev pub deployment : String × List String
deployment = ("transactions", "contract_deployment_address" ∷ [])

module _ (H : Hashing) (Q : String × List String → Type 0)
    (known : (e : String × List String) → Knows evm_tables e → Q e) where
  evm_tx-Converts :
      (r : TransactionRequest)
      → (is_empty (binary_array r.contract_deployment_address).values ≡ false → Q deployment)
      → Converts H Q "transactions" (evm_tx_selection_to_generic H r)
  unfolding get evm_tx_selection_to_generic
  evm_tx-Converts r h =
      Converts-of_filters H Q "transactions" (λ _. filter_contains H) (evm_tx_selection_filters r)
        (evm_tx_selection_include r) (search (h, known, binary_filter H, uint8_filter H))
        (search (known, include_if-All) depth 9)

  evm_trace-Converts :
      (r : TraceRequest) → Converts H Q "traces" (evm_trace_selection_to_generic H r)
  unfolding get evm_trace_selection_to_generic
  evm_trace-Converts r =
      Converts-of_filters H Q "traces" (λ _. filter_contains H) (evm_trace_selection_filters r)
        (evm_trace_selection_include r) (search (known, binary_filter H, string_filter H))
        (search (known, include_if-All) depth 9)

  evm_log-Converts : (r : LogRequest) → Converts H Q "logs" (evm_log_selection_to_generic H r)
  unfolding get evm_log_selection_to_generic
  evm_log-Converts r =
      Converts-of_filters H Q "logs" (λ _. filter_contains H) (evm_log_selection_filters r)
        (evm_log_selection_include r) (search (known, binary_filter H))
        (search (known, include_if-All) depth 9)

  -- No request has the address of a deployed contract, or the property holds of that name.
  abbrev pub Deployments : Evm.Query → Type 0
  Deployments query =
      All (λ r. is_empty (binary_array r.contract_deployment_address).values ≡ false → Q deployment)
        query.transactions

  pub evm_selection-Asks :
      (query : Evm.Query)
      → Deployments query
      → (selection : Dict (List (TableSelection H))) × (evm_selection H query ≡ ok selection)
        × All Q (all_requests H selection)
  unfolding evm_selection
  evm_selection-Asks query h =
      let (txs, e, p) =
        collect_selections-Succeeds H (evm_tx_selection_to_generic H) (Asks H Q "transactions")
          query.transactions (All-weaken evm_tx-Converts query.transactions h) in
      let (traces, e', p') =
        collect_selections-Succeeds H (evm_trace_selection_to_generic H) (Asks H Q "traces")
          query.traces (All-of_each evm_trace-Converts query.traces) in
      let (logs, e'', p'') =
        collect_selections-Succeeds H (evm_log_selection_to_generic H) (Asks H Q "logs") query.logs
          (All-of_each evm_log-Converts query.logs) in
      (
        with_all_blocks H query.include_all_blocks
            (insert "logs" logs (insert "traces" traces (insert "transactions" txs []))),
        rw (e, e', e'') refl,
        all_requests-All H Q _ (
            with_all_blocks-AllAsk H Q query.include_all_blocks _
              (add "logs" logs _ p'' (add "traces" traces _ p' (add "transactions" txs _ p tt)))),
      )
    where
      add :
          (table : String) (ss : List (TableSelection H))
          (selection : Dict (List (TableSelection H)))
          → All (Asks H Q table) ss
          → AllAsk H Q selection
          → AllAsk H Q (insert table ss selection)
      add = All-insert (λ e. All (Asks H Q e.0) e.1)

module _ (H : Hashing) where
  Anything : String × List String → Type 0
  Anything e = Unit

  -- The requests of an EVM query are converted one by one, without a panic.
  pub evm_requests-Succeeds :
      (query : Evm.Query)
      → Succeeds (collect_selections H (evm_tx_selection_to_generic H) query.transactions)
        × Succeeds (collect_selections H (evm_trace_selection_to_generic H) query.traces)
        × Succeeds (collect_selections H (evm_log_selection_to_generic H) query.logs)
  unfolding Anything
  evm_requests-Succeeds query = (
    each "transactions" (evm_tx_selection_to_generic H) query.transactions
        (λ r. evm_tx-Converts H Anything (λ _ _. tt) r (λ _. tt)),
    each "traces" (evm_trace_selection_to_generic H) query.traces
        (evm_trace-Converts H Anything (λ _ _. tt)),
    each "logs" (evm_log_selection_to_generic H) query.logs
        (evm_log-Converts H Anything (λ _ _. tt)),
  )
    where
      each :
          {R : Type 0} (table : String) (convert : R → Result Error (TableSelection H))
          (rs : List R)
          → ((r : R) → Converts H Anything table (convert r))
          → Succeeds (collect_selections H convert rs)
      each table convert rs h =
          let (ss, e, _) =
            collect_selections-Succeeds H convert (Asks H Anything table) rs (All-of_each h rs) in
          (ss, e)
