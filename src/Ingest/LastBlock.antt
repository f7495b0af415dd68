-- ===== src/Ingest/LastBlock.antt =====
-- ingest/src/lib.rs: `extract_last_block`.
pub mod Maximum
use cherry_core.Base.{
  ℕ, String, Bool, List, [], ◌∷◌, Option, none, some, ltb, if◌then◌else◌, ◌≡◌, ◌≤◌, All, is_some,
}
use cherry_core.Base.Dict.{Dict}
use cherry_core.Arrow.Types.{DataType, uint64}
use cherry_core.Arrow.Data.{Array, RecordBatch, column_by_name, Scalar, num}

-- `downcast_ref::<UInt64Array>()`, which succeeds on columns of that type.
abbrev pub as_uint64 : Array → Option Array
as_uint64 a = elim (a.data_type) [ uint64 ↦ some a | _ ↦ none ]

abbrev pub max : ℕ → ℕ → ℕ
max a b = if ltb a b then b else a

-- `out.map_or(m, |cur| cur.max(m))`
abbrev pub map_or_max : ℕ → Option ℕ → ℕ
map_or_max m none = m
map_or_max m (some cur) = max cur m

abbrev pub block_id_columns : List String
block_id_columns = "block_number" ∷ "number" ∷ "slot" ∷ []

-- One column: a missing one, one of another type and one without a value are passed over.
unfoldable pub read_maximum : Option ℕ → Option ℕ → Option ℕ
read_maximum none out = out
read_maximum (some m) out = some (map_or_max m out)

-- `arrow::compute::max`
module _ (array_max : Array → Option ℕ) where
  unfoldable pub read_uint64_array : Option Array → Option ℕ → Option ℕ
  unfolding read_maximum
  read_uint64_array none out = out
  read_uint64_array (some arr) out = read_maximum (array_max arr) out

  unfoldable pub read_column : Option Array → Option ℕ → Option ℕ
  unfolding read_uint64_array
  read_column none out = out
  read_column (some col) out = read_uint64_array (as_uint64 col) out

  unfoldable pub read_columns : RecordBatch → List String → Option ℕ → Option ℕ
  unfolding read_column
  read_columns batch [] out = out
  read_columns batch (col_name ∷ names) out =
      read_columns batch names (read_column (column_by_name col_name batch.columns) out)

  unfoldable pub read_batches : Dict RecordBatch → Option ℕ → Option ℕ
  unfolding read_columns
  read_batches [] out = out
  read_batches ((_, batch) ∷ batches) out =
      read_batches batches (read_columns batch block_id_columns out)

  unfoldable pub extract_last_block : Dict RecordBatch → Option ℕ
  unfolding read_batches
  extract_last_block tables = read_batches tables none
