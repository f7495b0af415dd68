-- ===== src/Ingest/Known/EvmTests.antt =====
-- ingest/src/evm.rs: the selection of all fields.
use cherry_core.Base.{true, ◌≡◌}
use cherry_core.Ingest.Serde.{field_selection_to_set}
use cherry_core.Ingest.Known.{has_names}
use cherry_core.Ingest.Known.EvmFields.{evm_fields-columns}
use cherry_core.Schema.Rows.{names}
use cherry_core.Schema.Evm.{blocks_schema, transactions_schema, logs_schema, traces_schema}
use cherry_core.Ingest.Evm.{all}
use cherry_core.Ingest.Evm.Selections.Block.{block_selection}
use cherry_core.Ingest.Evm.Selections.Transaction.{transaction_selection}
use cherry_core.Ingest.Evm.Selections.Log.{log_selection}
use cherry_core.Ingest.Evm.Selections.Trace.{trace_selection}

evm_fields-columns_example :
    (has_names (field_selection_to_set all.block) (names blocks_schema) ≡ true)
    × (has_names (field_selection_to_set all.transaction) (names transactions_schema) ≡ true)
    × (has_names (field_selection_to_set all.log) (names logs_schema) ≡ true)
    × (has_names (field_selection_to_set all.trace) (names traces_schema) ≡ true)
evm_fields-columns_example = evm_fields-columns all
