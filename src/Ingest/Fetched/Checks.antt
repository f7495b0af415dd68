-- ===== src/Ingest/Fetched/Checks.antt =====
-- ingest/src/provider/common.rs: the checks of `evm_query_to_generic`.
use cherry_core.Base.{
  ◌⊎◌, arith, Bool, true, false, not, ◌&&◌, ◌||◌, List, [], ◌∷◌, String, none, some, Result, ok,
  err, ◌>>=◌, ◌≡◌, refl, All, ◌∙◌, Bool-cases, inl, inr, if◌then◌else◌, >>=-eq_ok,
}
use cherry_core.Base.Dict.{Dict, get, insert}
use cherry_core.Query.Hashing.{Hashing}
use cherry_core.Query.Engine.{TableSelection}
use cherry_core.Ingest.Evm
use cherry_core.Ingest.Serde.{field_selection_to_set}
use cherry_core.Ingest.Evm.Selections.Block.{block_selection}
use cherry_core.Ingest.Evm.Selections.Transaction.{transaction_selection}
use cherry_core.Ingest.Evm.Selections.Log.{log_selection}
use cherry_core.Ingest.Evm.Selections.Trace.{trace_selection}
use cherry_core.Ingest.Known.Evm.{evm_requests-Succeeds}
use cherry_core.Ingest.Evm.{TransactionRequest, TraceRequest, LogRequest}
use cherry_core.Ingest.Common.{Error, never_fetched, is_empty}
use cherry_core.Ingest.Common.Evm.{
  any_includes_transactions, any_includes_logs, any_includes_traces, any_request_includes_blocks,
  check_fetched, check_fields, evm_fields, evm_selection, evm_query_to_generic,
}
use cherry_core.Ingest.Fetched.{mentions}
use cherry_core.Ingest.Fetched.Mentions.{
  selected, mentions-transactions, mentions-logs, mentions-traces, mentions-blocks,
}

-- Names are asked of the table.
abbrev pub asks_for : String → Dict (List String) → Bool
asks_for t fields = elim (get t fields) [ none ↦ false | some names ↦ not (is_empty names) ]

check_fetched-eq :
    (t : String) (fields : List String) (none_requested any_includes mentioned : Bool)
    → mentioned ≡ (not none_requested || any_includes)
    → check_fetched t fields none_requested any_includes
      ≡ (if not (is_empty fields) && not mentioned then err (never_fetched t) else ok tt)
check_fetched-eq t fields none_requested any_includes mentioned h = ground (arith, h)

-- A check that fails by a test, before others.
first_check :
    (r rest : Result Error (Unit {0})) (t : String) (w : Bool)
    → r ≡ (if w then err (never_fetched t) else ok tt)
    → ((w ≡ true) × ((r >>= λ _. rest) ≡ err (never_fetched t)))
      ⊎ ((w ≡ false) × ((r >>= λ _. rest) ≡ rest))
first_check r rest t true h = inl (refl, rw h refl)
first_check r rest t false h = inr (refl, rw h refl)

-- The checks that are left after the first, the second and the third.
check_blocks : Evm.Query → Result Error (Unit {0})
check_blocks query =
    check_fetched "blocks" (field_selection_to_set query.fields.block)
      (not query.include_all_blocks) (any_request_includes_blocks query)

behind_logs : Evm.Query → Result Error (Unit {0})
unfolding check_blocks
behind_logs query =
    check_fetched "traces" (field_selection_to_set query.fields.trace) (is_empty query.traces)
      (any_includes_traces query)
    >>= λ _. check_blocks query

behind_transactions : Evm.Query → Result Error (Unit {0})
unfolding behind_logs
behind_transactions query =
    check_fetched "logs" (field_selection_to_set query.fields.log) (is_empty query.logs)
      (any_includes_logs query)
    >>= λ _. behind_logs query

-- The tables of an EVM query.
abbrev pub table_names : List String
table_names = "transactions" ∷ "logs" ∷ "traces" ∷ "blocks" ∷ []

module _ (H : Hashing) (query : Evm.Query) where
  -- Names are asked of the table, and no selection of the query brings rows of it along.
  abbrev pub wasted : Dict (List (TableSelection H)) → String → Bool
  wasted selection t = asks_for t (evm_fields query) && not (mentions H t selection)

  check_fields-eq :
      (selection : Dict (List (TableSelection H)))
      → mentions H "transactions" selection
        ≡ (not (is_empty query.transactions) || any_includes_transactions query)
      → mentions H "logs" selection ≡ (not (is_empty query.logs) || any_includes_logs query)
      → mentions H "traces" selection ≡ (not (is_empty query.traces) || any_includes_traces query)
      → mentions H "blocks" selection
        ≡ (query.include_all_blocks || any_request_includes_blocks query)
      → ((check_fields query ≡ ok tt) × All (λ t. wasted selection t ≡ false) table_names)
        ⊎ ((t : String) × (check_fields query ≡ err (never_fetched t))
            × (wasted selection t ≡ true))
  unfolding check_fields insert get behind_transactions
  check_fields-eq selection a b c d =
      let d' : mentions H "blocks" selection
          ≡ (not (not query.include_all_blocks) || any_request_includes_blocks query) =
        ground (arith, d) in
      let on_transactions =
        check_fetched-eq "transactions" (field_selection_to_set query.fields.transaction)
          (is_empty query.transactions) (any_includes_transactions query) _ a in
      let on_logs =
        check_fetched-eq "logs" (field_selection_to_set query.fields.log) (is_empty query.logs)
          (any_includes_logs query) _ b in
      let on_traces =
        check_fetched-eq "traces" (field_selection_to_set query.fields.trace)
          (is_empty query.traces) (any_includes_traces query) _ c in
      let on_blocks =
        check_fetched-eq "blocks" (field_selection_to_set query.fields.block)
          (not query.include_all_blocks) (any_request_includes_blocks query) _ d' in
      elim (first_check _ (behind_transactions query) "transactions" _ on_transactions) [
        | inl (w, e) ↦ inr ("transactions", e, w)
        | inr (w, e) ↦ elim (first_check _ (behind_logs query) "logs" _ on_logs) [
          | inl (w', e') ↦ inr ("logs", e ∙ e', w')
          | inr (w', e') ↦ elim (first_check _ (check_blocks query) "traces" _ on_traces) [
            | inl (w'', e'') ↦ inr ("traces", e ∙ e' ∙ e'', w'')
            | inr (w'', e'') ↦
                let rest : check_fields query ≡ check_blocks query = e ∙ e' ∙ e'' in
                elim (Bool-cases (wasted selection "blocks")) [
                  | inl v ↦ inr ("blocks", rest ∙ on_blocks ∙ rw v refl, v)
                  | inr v ↦ inl (rest ∙ on_blocks ∙ rw v refl, (w, (w', (w'', (v, tt)))))
                ]
          ]
        ]
      ]

  -- An EVM query is converted if no fields are asked of a table that no selection or join of the
  -- converted query names, and the conversion is an error that names such a table if there is one;
  -- its `unwrap`s never panic.
  pub evm_query_to_generic-wasted :
      (selection : Dict (List (TableSelection H))) × (evm_selection H query ≡ ok selection)
      × (((evm_query_to_generic H query
              ≡ ok (record { selection = selection; fields = evm_fields query }))
            × All (λ t. wasted selection t ≡ false) table_names)
          ⊎ ((t : String) × (evm_query_to_generic H query ≡ err (never_fetched t))
              × (wasted selection t ≡ true)))
  unfolding evm_query_to_generic evm_selection
  evm_query_to_generic-wasted =
      let ((txs, tx_e), (traces, trace_e), (logs, log_e)) = evm_requests-Succeeds H query in
      let selection = selected H query txs traces logs tx_e trace_e log_e in
      let made : evm_selection H query ≡ ok selection =
        >>=-eq_ok _ tx_e (>>=-eq_ok _ trace_e (>>=-eq_ok _ log_e refl)) in
      let checked =
        check_fields-eq selection (mentions-transactions H query txs traces logs tx_e trace_e log_e)
          (mentions-logs H query txs traces logs tx_e trace_e log_e)
          (mentions-traces H query txs traces logs tx_e trace_e log_e)
          (mentions-blocks H query txs traces logs tx_e trace_e log_e) in
      (
        selection,
        made,
        elim checked [
          | inl (passed, none_wasted) ↦
              inl (>>=-eq_ok _ passed (>>=-eq_ok _ made refl), none_wasted)
          | inr (t, failed, w) ↦ inr (t, rw failed refl, w)
        ],
      )
