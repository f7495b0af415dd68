-- ===== src/Ingest/Known/EvmFields.antt =====
-- ingest/src/evm.rs against evm-schema/src/lib.rs: the fields that can be selected.
use cherry_core.Base.{true, ◌≡◌, refl}
use cherry_core.Ingest.Serde.{field_selection_to_set}
use cherry_core.Ingest.Serde.Names.{has_names-field_selection_to_set}
use cherry_core.Ingest.Known.{has_names}
use cherry_core.Schema.Rows.{names}
use cherry_core.Schema.Evm.{blocks_schema, transactions_schema, logs_schema, traces_schema}
use cherry_core.Ingest.Evm.{Fields}
use cherry_core.Ingest.Evm.Selections.Block.{block_selection}
use cherry_core.Ingest.Evm.Selections.Transaction.{transaction_selection}
use cherry_core.Ingest.Evm.Selections.Log.{log_selection}
use cherry_core.Ingest.Evm.Selections.Trace.{trace_selection}

-- All names that a field selection of an EVM query can give are columns of the schema of its table.
pub evm_fields-columns :
    (fields : Fields)
    → (has_names (field_selection_to_set fields.block) (names blocks_schema) ≡ true)
      × (has_names (field_selection_to_set fields.transaction) (names transactions_schema) ≡ true)
      × (has_names (field_selection_to_set fields.log) (names logs_schema) ≡ true)
      × (has_names (field_selection_to_set fields.trace) (names traces_schema) ≡ true)
evm_fields-columns fields = (
  has_names-field_selection_to_set block_selection fields.block (names blocks_schema) refl,
  has_names-field_selection_to_set transaction_selection fields.transaction
      (names transactions_schema) refl,
  has_names-field_selection_to_set log_selection fields.log (names logs_schema) refl,
  has_names-field_selection_to_set trace_selection fields.trace (names traces_schema) refl,
)
