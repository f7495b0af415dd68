-- ===== src/Ingest/Known/Svm.antt =====
-- ingest/src/provider/common.rs against svm-schema/src/lib.rs: the columns that an SVM query asks for.
use cherry_core.Base.{
  drop, All-weaken, >>=-eq_ok, if◌then◌else◌, All, Bool, ok, Result, false, String, true, List, [],
  ◌∷◌, ◌≡◌, refl, All-of_each, ℕ,
}
use cherry_core.Base.Dict.{Dict, get, insert}
use cherry_core.Query.Hashing.{Hashing}
use cherry_core.Query.Filter.{layout_of, byte_array, bool_filter, Filter}
use cherry_core.Query.Engine.{TableSelection}
use cherry_core.Query.Request.Names.{all_requests}
use cherry_core.Schema.Rows.{names}
use cherry_core.Schema.Svm.{
  blocks_schema, rewards_schema, token_balances_schema, balances_schema, logs_schema,
  transactions_schema, instructions_schema,
}
use cherry_core.Ingest.Svm
use cherry_core.Ingest.Svm.{
  InstructionRequest, TransactionRequest, LogRequest, BalanceRequest, TokenBalanceRequest,
  RewardRequest,
}
use cherry_core.Ingest.Common.{
  is_empty, Error, collect_selections, with_all_blocks, filter_contains, binary_array,
  filter_starts_with,
}
use cherry_core.Ingest.Common.Svm.{
  data_or_contains, svm_selection, svm_instruction_selection_filters,
  svm_instruction_selection_include, svm_instruction_selection_to_generic,
  svm_transaction_selection_filters, svm_transaction_selection_include,
  svm_transaction_selection_to_generic, svm_log_selection_filters, svm_log_selection_include,
  svm_log_selection_to_generic, svm_balance_selection_filters, svm_balance_selection_include,
  svm_balance_selection_to_generic, svm_token_balance_selection_filters,
  svm_token_balance_selection_include, svm_token_balance_selection_to_generic,
  svm_reward_selection_filters, svm_reward_selection_include, svm_reward_selection_to_generic,
}
use cherry_core.Ingest.Common.Asked.{
  Makes-of, AllAsk, Asks, Converts, Converts-of_filters, include_if-All, binary_filter,
  string_filter, Succeeds, filter_starts_with-Succeeds, with_all_blocks-AllAsk, All-insert,
  all_requests-All, collect_selections-Succeeds, collect_filters-Succeeds,
}
use cherry_core.Ingest.Known.{has_names-All, Knows}

abbrev pub svm_tables : Dict (List String)
svm_tables =
    ("balances", names balances_schema)
    ∷ ("blocks", names blocks_schema)
    ∷ ("instructions", names instructions_schema)
    ∷ ("logs", names logs_schema)
    ∷ ("rewards", names rewards_schema)
    ∷ ("token_balances", names token_balances_schema)
    ∷ ("transactions", names transactions_schema)
    ∷ []

-- The entry of the tables for a filter on three bytes of the data.
abbrev pub d3_prefix : String × List String
d3_prefix = ("instructions", "d3" ∷ [])

module _ (H : Hashing) (Q : String × List String → Type 0)
    (known : (e : String × List String) → Knows svm_tables e → Q e) where
  svm_transaction-Converts :
      (r : TransactionRequest)
      → Converts H Q "transactions" (svm_transaction_selection_to_generic H r)
  unfolding get svm_transaction_selection_to_generic
  svm_transaction-Converts r =
      Converts-of_filters H Q "transactions" (λ _. filter_contains H)
        (svm_transaction_selection_filters r) (svm_transaction_selection_include r)
        (search (known, binary_filter H)) (search (known, include_if-All) depth 9)

  svm_log-Converts : (r : LogRequest) → Converts H Q "logs" (svm_log_selection_to_generic H r)
  unfolding get svm_log_selection_to_generic
  svm_log-Converts r =
      Converts-of_filters H Q "logs" (λ _. filter_contains H) (svm_log_selection_filters r)
        (svm_log_selection_include r) (search (known, binary_filter H, string_filter H))
        (search (known, include_if-All) depth 9)

  svm_balance-Converts :
      (r : BalanceRequest) → Converts H Q "balances" (svm_balance_selection_to_generic H r)
  unfolding get svm_balance_selection_to_generic
  svm_balance-Converts r =
      Converts-of_filters H Q "balances" (λ _. filter_contains H) (svm_balance_selection_filters r)
        (svm_balance_selection_include r) (search (known, binary_filter H))
        (search (known, include_if-All) depth 9)

  svm_token_balance-Converts :
      (r : TokenBalanceRequest)
      → Converts H Q "token_balances" (svm_token_balance_selection_to_generic H r)
  unfolding get svm_token_balance_selection_to_generic
  svm_token_balance-Converts r =
      Converts-of_filters H Q "token_balances" (λ _. filter_contains H)
        (svm_token_balance_selection_filters r) (svm_token_balance_selection_include r)
        (search (known, binary_filter H) depth 9) (search (known, include_if-All) depth 9)

  svm_reward-Converts :
      (r : RewardRequest) → Converts H Q "rewards" (svm_reward_selection_to_generic H r)
  unfolding get svm_reward_selection_to_generic
  svm_reward-Converts r =
      Converts-of_filters H Q "rewards" (λ _. filter_contains H) (svm_reward_selection_filters r)
        (svm_reward_selection_include r) (search (known, binary_filter H))
        (search (known, include_if-All) depth 9)

  data_filter : (vs : List (List ℕ)) → Succeeds (filter_starts_with H (binary_array vs))
  unfolding layout_of
  data_filter vs = filter_starts_with-Succeeds H (binary_array vs) (refl, byte_array, refl)

  -- The filter on `is_committed` beside the others.
  committed-All :
      (is_committed : Bool) (filters : Dict (Filter H))
      → All (λ e. Q ("instructions", e.0 ∷ [])) filters
      → All
          (λ e. Q ("instructions", e.0 ∷ []))
          (if is_committed then insert "is_committed" (bool_filter true) filters else filters)
  unfolding get
  committed-All true filters h =
      All-insert (λ e. Q ("instructions", e.0 ∷ [])) "is_committed" (bool_filter true) filters
        (known ("instructions", "is_committed" ∷ []) refl) h
  committed-All false filters h = h

  svm_instruction-Converts :
      (r : InstructionRequest)
      → (is_empty (binary_array r.d3).values ≡ false → Q d3_prefix)
      → Converts H Q "instructions" (svm_instruction_selection_to_generic H r)
  unfolding get svm_instruction_selection_to_generic data_or_contains
  svm_instruction-Converts r d3 =
      let filters_behind = drop 5 (svm_instruction_selection_filters r) in
      let rest =
        Makes-of H (data_or_contains H) (λ n. Q ("instructions", n ∷ [])) filters_behind
          (search (binary_filter H) depth 20)
          (All-weaken (λ e k. known ("instructions", e.0 ∷ []) k) filters_behind
            (has_names-All (names instructions_schema) filters_behind refl)) in
      let (filters, e, asked) =
        collect_filters-Succeeds H (data_or_contains H) (λ n. Q ("instructions", n ∷ []))
          (svm_instruction_selection_filters r) []
          (
            (binary_filter H r.program_id, λ _. known ("instructions", "program_id" ∷ []) refl),
            (
              (data_filter r.discriminator, λ _. known ("instructions", "data" ∷ []) refl),
              (
                (binary_filter H r.d1, λ _. known ("instructions", "d1" ∷ []) refl),
                (
                  (binary_filter H r.d2, λ _. known ("instructions", "d2" ∷ []) refl),
                  ((binary_filter H r.d3, d3), rest),
                ),
              ),
            ),
          )
          tt in
      (
        record {
          filters =
              if r.is_committed then insert "is_committed" (bool_filter true) filters else filters;
          include = svm_instruction_selection_include r;
        },
        rw e refl,
        (committed-All r.is_committed filters asked, search (known, include_if-All) depth 12),
      )

  -- No request has a prefix of three bytes, or the property holds of that name.
  abbrev pub ThreeBytes : Svm.Query → Type 0
  ThreeBytes query =
      All (λ r. is_empty (binary_array r.d3).values ≡ false → Q d3_prefix) query.instructions

  pub svm_selection-Asks :
      (query : Svm.Query)
      → ThreeBytes query
      → (selection : Dict (List (TableSelection H))) × (svm_selection H query ≡ ok selection)
        × All Q (all_requests H selection)
  unfolding svm_selection
  svm_selection-Asks query h =
      let (a, ea, pa) =
        collect_selections-Succeeds H (svm_instruction_selection_to_generic H)
          (Asks H Q "instructions") query.instructions
          (All-weaken svm_instruction-Converts query.instructions h) in
      let (b, eb, pb) =
        collected "transactions" (svm_transaction_selection_to_generic H) query.transactions
          svm_transaction-Converts in
      let (c, ec, pc) =
        collected "logs" (svm_log_selection_to_generic H) query.logs svm_log-Converts in
      let (d, ed, pd) =
        collected "balances" (svm_balance_selection_to_generic H) query.balances
          svm_balance-Converts in
      let (f, ef, pf) =
        collected "token_balances" (svm_token_balance_selection_to_generic H) query.token_balances
          svm_token_balance-Converts in
      let (g, eg, pg) =
        collected "rewards" (svm_reward_selection_to_generic H) query.rewards svm_reward-Converts in
      let added = add "rewards" g _ pg (
        add "token_balances" f _ pf (
          add "balances" d _ pd
            (add "logs" c _ pc (add "transactions" b _ pb (add "instructions" a [] pa tt))))) in
      (
        with_all_blocks H query.include_all_blocks (
            insert "rewards" g (
              insert "token_balances" f (
                insert "balances" d
                  (insert "logs" c (insert "transactions" b (insert "instructions" a [])))))),
        >>=-eq_ok _ ea (
            >>=-eq_ok _ eb
              (>>=-eq_ok _ ec (>>=-eq_ok _ ed (>>=-eq_ok _ ef (>>=-eq_ok _ eg refl))))),
        all_requests-All H Q _ (with_all_blocks-AllAsk H Q query.include_all_blocks _ added),
      )
    where
      add :
          (table : String) (ss : List (TableSelection H))
          (selection : Dict (List (TableSelection H)))
          → All (Asks H Q table) ss
          → AllAsk H Q selection
          → AllAsk H Q (insert table ss selection)
      add = All-insert (λ e. All (Asks H Q e.0) e.1)

      collected :
          {R : Type 0} (table : String) (convert : R → Result Error (TableSelection H))
          (rs : List R)
          → ((r : R) → Converts H Q table (convert r))
          → (ss : List (TableSelection H)) × (collect_selections H convert rs ≡ ok ss)
            × All (Asks H Q table) ss
      collected table convert rs h =
          collect_selections-Succeeds H convert (Asks H Q table) rs (All-of_each h rs)
