-- ===== src/Ingest/Tests.antt =====
-- ingest/src: queries and batches on which the theorems apply.
use cherry_core.Base.{
  ℕ, String, true, false, List, [], ◌∷◌, Option, none, some, ok, err, ◌≡◌, refl, All, ◌⊎◌, ◌&&◌,
  arith,
}
use cherry_core.Base.Dict.{Dict}
use cherry_core.Arrow.Types.{uint64}
use cherry_core.Arrow.Data.{Array, RecordBatch, num, column_by_name}
use cherry_core.Query.Engine.{Query, TableSelection}
use cherry_core.Query.Request.Names.{all_requests}
use cherry_core.Query.Reference.{by_length}
use cherry_core.Ingest.Serde.{field_selection_to_set, asks}
use cherry_core.Ingest.Serde.Names.{deserialize-field_selection_to_set}
use cherry_core.Ingest.Known.{Knows, has_name}
use cherry_core.Ingest.Known.Evm.{evm_tables}
use cherry_core.Ingest.Known.Svm.{svm_tables}
use cherry_core.Ingest.Known.Converted.{
  Extends, evm_query_to_generic-Extends, evm_query_to_generic-Knows, svm_query_to_generic-Knows,
}
use cherry_core.Ingest.Fetched.Checks.{wasted, table_names, evm_query_to_generic-wasted}
use cherry_core.Ingest.LastBlock.{extract_last_block, read_maximum}
use cherry_core.Ingest.LastBlock.Maximum.{
  IsMaximum, MaxLaw, numbers, block_ids, extract_last_block-IsMaximum, IsMaximum-append,
}
use cherry_core.Ingest.Common.{never_fetched}
use cherry_core.Ingest.Common.Evm.{evm_query_to_generic, evm_selection, evm_fields}
use cherry_core.Ingest.Common.Svm.{svm_query_to_generic}
use cherry_core.Query.Filter.{new_contains, new_starts_with}
use native.Mathlib.Nat.{le_refl}
use cherry_core.Ingest.Evm
use cherry_core.Ingest.Svm
use cherry_core.Ingest.Evm.Selections.Block
use cherry_core.Ingest.Evm.Selections.Block.{block_selection}
use cherry_core.Ingest.Evm.Selections.Transaction
use cherry_core.Ingest.Evm.Selections.Log
use cherry_core.Ingest.Evm.Selections.Trace

abbrev evm_asked : Evm.Fields
evm_asked = record {
  block = Block.from_object (("number", true) ∷ []);
  transaction = Transaction.from_object (("hash", true) ∷ ("from", true) ∷ []);
  log = Log.from_object (("data", true) ∷ []);
  trace = Trace.from_object [];
}

-- Transactions from one address, with their logs.
abbrev sent : Evm.TransactionRequest
sent = record {
  from_ = (1 ∷ 2 ∷ []) ∷ [];
  to = [];
  sighash = [];
  status = 1 ∷ [];
  type_ = [];
  contract_deployment_address = [];
  hash = [];
  include_logs = true;
  include_traces = false;
  include_blocks = true;
}

abbrev evm_query : Evm.Query
evm_query = record {
  from_block = 10;
  to_block = some 20;
  include_all_blocks = false;
  transactions = sent ∷ [];
  logs = [];
  traces = [];
  fields = evm_asked;
}

unasked_runs :
    evm_query_to_generic by_length (record evm_query { transactions = [] })
    ≡ err (never_fetched "transactions")
unfolding evm_query_to_generic field_selection_to_set
unasked_runs = refl

evm_query_to_generic-wasted_example :
    (selection : Dict (List (TableSelection by_length))) × (evm_selection by_length evm_query
      ≡ ok selection)
    × (((evm_query_to_generic by_length evm_query
            ≡ ok (record { selection = selection; fields = evm_fields evm_query }))
          × All (λ t. wasted by_length evm_query selection t ≡ false) table_names)
        ⊎ ((t : String) × (evm_query_to_generic by_length evm_query ≡ err (never_fetched t))
            × (wasted by_length evm_query selection t ≡ true)))
evm_query_to_generic-wasted_example = evm_query_to_generic-wasted by_length evm_query

abbrev evm_generic : Query by_length
unfolding evm_query_to_generic
evm_generic = elim (evm_query_to_generic by_length evm_query) [
  | ok out ↦ out
  | err e ↦ record { selection = []; fields = [] }
]

evm_generic_runs : evm_query_to_generic by_length evm_query ≡ ok evm_generic
unfolding evm_query_to_generic field_selection_to_set new_contains
evm_generic_runs = refl

evm_query_to_generic-Extends_example : Extends by_length evm_generic
evm_query_to_generic-Extends_example =
    evm_query_to_generic-Extends by_length evm_query evm_generic evm_generic_runs

evm_query_to_generic-Knows_example :
    All (Knows evm_tables) (all_requests by_length evm_generic.selection)
evm_query_to_generic-Knows_example =
    evm_query_to_generic-Knows by_length evm_query evm_generic (refl, tt) evm_generic_runs

-- Instructions by the start of their data, with their logs and blocks.
abbrev called : Svm.InstructionRequest
called = record {
  program_id = (7 ∷ []) ∷ [];
  discriminator = (1 ∷ 2 ∷ []) ∷ [];
  d1 = [];
  d2 = [];
  d3 = [];
  d4 = [];
  d8 = [];
  a0 = [];
  a1 = [];
  a2 = [];
  a3 = [];
  a4 = [];
  a5 = [];
  a6 = [];
  a7 = [];
  a8 = [];
  a9 = [];
  is_committed = true;
  include_transactions = false;
  include_transaction_token_balances = false;
  include_logs = true;
  include_inner_instructions = false;
  include_blocks = true;
}

abbrev svm_query : Svm.Query
svm_query = record {
  from_block = 10;
  to_block = none;
  include_all_blocks = false;
  fields = Svm.all;
  instructions = called ∷ [];
  transactions = [];
  logs =
      record {
        program_id = [];
        kind = Svm.log ∷ [];
        include_transactions = false;
        include_instructions = true;
        include_blocks = false;
      }
      ∷ [];
  balances = [];
  token_balances = [];
  rewards = [];
}

abbrev svm_generic : Query by_length
unfolding svm_query_to_generic
svm_generic = elim (svm_query_to_generic by_length svm_query) [
  | ok out ↦ out
  | err e ↦ record { selection = []; fields = [] }
]

svm_query_to_generic-Knows_example :
    All (Knows svm_tables) (all_requests by_length svm_generic.selection)
unfolding svm_query_to_generic field_selection_to_set new_contains new_starts_with
svm_query_to_generic-Knows_example =
    svm_query_to_generic-Knows by_length svm_query svm_generic (refl, tt) refl

deserialize-field_selection_to_set_example :
    has_name "hash"
      (field_selection_to_set (Block.from_object (("hash", true) ∷ ("size", false) ∷ [])))
    ≡ (has_name "hash" block_selection.keys && asks "hash" (("hash", true) ∷ ("size", false) ∷ []))
deserialize-field_selection_to_set_example =
    deserialize-field_selection_to_set block_selection (("hash", true) ∷ ("size", false) ∷ [])
      "hash"

-- The greatest number, found from the back.
greatest_of : List ℕ → Option ℕ
greatest_of [] = none
greatest_of (x ∷ xs) = read_maximum (greatest_of xs) (some x)

greatest_of-IsMaximum : (xs : List ℕ) → IsMaximum xs (greatest_of xs)
unfolding greatest_of
greatest_of-IsMaximum [] = refl
greatest_of-IsMaximum (x ∷ xs) =
    IsMaximum-append (x ∷ []) xs (some x) (greatest_of xs) (ground arith, (le_refl x, tt))
      (greatest_of-IsMaximum xs)

greatest : Array → Option ℕ
unfolding greatest_of
greatest a = greatest_of (numbers a.values a.nulls)

greatest_law : MaxLaw greatest
unfolding greatest
greatest_law a = greatest_of-IsMaximum (numbers a.values a.nulls)

abbrev two_tables : Dict RecordBatch
two_tables =
    (
      "blocks",
      record {
        columns =
            (
              "number",
              record {
                data_type = uint64;
                values = num 7 ∷ num 9 ∷ [];
                nulls = some (true ∷ false ∷ []);
              },
            )
            ∷ [];
        num_rows = 2;
      },
    )
    ∷ (
      "logs",
      record {
        columns =
            ("block_number", record { data_type = uint64; values = num 8 ∷ []; nulls = none }) ∷ [];
        num_rows = 1;
      },
    )
    ∷ []

extract_last_block_runs : extract_last_block greatest two_tables ≡ some 8
unfolding extract_last_block greatest column_by_name
extract_last_block_runs = refl

extract_last_block-IsMaximum_example :
    IsMaximum (block_ids two_tables) (extract_last_block greatest two_tables)
extract_last_block-IsMaximum_example = extract_last_block-IsMaximum greatest greatest_law two_tables
