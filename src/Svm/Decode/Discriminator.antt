-- ===== src/Svm/Decode/Discriminator.antt =====
-- svm-decode/src/lib.rs: the filter by discriminator, which drops rows before they are decoded.
pub mod Kept
mod Tests
use cherry_core.Base.{
  ℕ, ◌≡◌, Bool, true, false, List, [], ◌∷◌, map, Option, none, some, Result, ok, err, ◌>>=◌,
  if◌then◌else◌,
}
use cherry_core.Arrow.Types.{DataType, same_type, binary, large_binary}
use cherry_core.Arrow.Data.{Scalar, bytes, Array, Mask, RecordBatch, column_by_name}
use cherry_core.Arrow.Kernels.{Kernels, ArrowError}
use cherry_core.Query.Filter.{has_prefix}
use cherry_core.Svm.Decode.{InstructionSignature}

-- The errors, one for each message; `context` is left out.
pub data Error : Type 0 where
  unexpected_type : DataType → Error
  not_filtered : ArrowError → Error

-- `downcast_ref` to an array of binary values; the rows of it.
abbrev pub bytes_of : Scalar → Bool → Option (List ℕ)
bytes_of (bytes b) true = some b
bytes_of _ _ = none

abbrev pub bytes_at : List Scalar → List Bool → List (Option (List ℕ))
bytes_at (v ∷ vs) (valid ∷ bits) = bytes_of v valid ∷ bytes_at vs bits
bytes_at _ _ = []

abbrev pub all_bytes : List Scalar → List (Option (List ℕ))
all_bytes [] = []
all_bytes (v ∷ vs) = bytes_of v true ∷ all_bytes vs

abbrev pub binary_rows : List Scalar → Option (List Bool) → List (Option (List ℕ))
binary_rows values none = all_bytes values
binary_rows values (some bits) = bytes_at values bits

-- `v.map(|b| b.starts_with(discriminator))`
unfoldable pub starts_row : List ℕ → Option (List ℕ) → Option Bool
starts_row discriminator none = none
starts_row discriminator (some b) = some (has_prefix discriminator b)

unfoldable pub build_discriminator_mask : Array → List ℕ → Result Error Mask
unfolding starts_row
build_discriminator_mask col discriminator =
    if same_type col.data_type binary
    then ok (map (starts_row discriminator) (binary_rows col.values col.nulls))
    else if same_type col.data_type large_binary
    then ok (map (starts_row discriminator) (binary_rows col.values col.nulls))
    else err (unexpected_type col.data_type)

abbrev pub filtered : Result ArrowError RecordBatch → Result Error RecordBatch
filtered (ok b) = ok b
filtered (err e) = err (not_filtered e)

unfoldable pub filter_by_discriminator_impl :
    Kernels → InstructionSignature → RecordBatch → Result Error RecordBatch
unfolding build_discriminator_mask
filter_by_discriminator_impl K signature batch = elim (column_by_name "data" batch.columns) [
  | none ↦ ok batch
  | some data_col ↦ do
    mask ← build_discriminator_mask data_col signature.discriminator
    filtered (K.filter_record_batch batch mask)
]
