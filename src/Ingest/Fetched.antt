-- ===== src/Ingest/Fetched.antt =====
-- ingest/src/provider/common.rs: which tables the requests of an EVM query bring along.
pub mod Joins
pub mod Mentions
pub mod Checks
use cherry_core.Base.{
  ◌⊎◌, arith, Bool, true, false, not, ◌&&◌, ◌||◌, List, [], ◌∷◌, String, none, some, Result, ok,
  err, ◌>>=◌, ◌≡◌, refl, All, ap, sym, ◌∙◌, Bool-cases, inl, inr, Result-cases, if◌then◌else◌,
  >>=-eq_ok, ok-injective,
}
use cherry_core.Base.Dict.{Dict, get, insert, str_eq}
use cherry_core.Query.Hashing.{Hashing}
use cherry_core.Query.Filter.{Filter, any}
use cherry_core.Query.Engine.{Include, TableSelection}
use cherry_core.Ingest.Evm
use cherry_core.Ingest.Serde.{field_selection_to_set}
use cherry_core.Ingest.Evm.Selections.Block.{block_selection}
use cherry_core.Ingest.Evm.Selections.Transaction.{transaction_selection}
use cherry_core.Ingest.Evm.Selections.Log.{log_selection}
use cherry_core.Ingest.Evm.Selections.Trace.{trace_selection}
use cherry_core.Ingest.Known.Evm.{evm_requests-Succeeds}
use cherry_core.Ingest.Evm.{TransactionRequest, TraceRequest, LogRequest}
use cherry_core.Ingest.Common.{Error, never_fetched, is_empty, collect_selections, with_all_blocks}
use cherry_core.Ingest.Common.Evm.{
  evm_tx_selection_to_generic, evm_trace_selection_to_generic, evm_log_selection_to_generic,
  evm_tx_selection_include, evm_trace_selection_include, evm_log_selection_include,
  any_includes_transactions, any_includes_logs, any_includes_traces, any_request_includes_blocks,
  check_fetched, check_fields, evm_fields, evm_selection, evm_query_to_generic,
}

-- A join brings rows of the table along.
abbrev pub joins : String → List Include → Bool
joins t incs = any (λ inc. str_eq inc.other_table_name t) incs

module _ (H : Hashing) where
  -- The table has a selection, or a join of one brings it along.
  abbrev pub mentions : String → Dict (List (TableSelection H)) → Bool
  mentions t [] = false
  mentions t ((table, selections) ∷ rest) =
      (str_eq table t && not (is_empty selections))
      || any (λ s. joins t s.include) selections
      || mentions t rest
