-- ===== src/Svm/Decode/Batches.antt =====
-- svm-decode/src/lib.rs: `decode_instructions`, `decode_logs` and `instruction_signature_to_arrow_schema`.
pub mod Rows
mod Tests
pub mod Schemas
pub mod Logs
use cherry_core.Base.{
  ℕ, suc, ◌+◌, ◌/◌, ◌%◌, Bool, true, List, [], ◌∷◌, ◌++◌, Option, none, some, Result, ok, err,
  ◌>>=◌, String, get_elem?, if◌then◌else◌, ltb,
}
use cherry_core.Base.Dict.{str_eq}
use cherry_core.Base.Strings.{decimal}
use cherry_core.Arrow.Types
use cherry_core.Arrow.Types.{DataType, Field, same_type}
use cherry_core.Arrow.Kernels.{ArrowError}
use cherry_core.Arrow.Builders.{Builders}
use cherry_core.Arrow.Batches.{Batches}
use cherry_core.Svm.Types.{DynValue, ParamInput}
use cherry_core.Svm.ArrowConverter
use cherry_core.Svm.ArrowConverter.{to_arrow_dtype}
use cherry_core.Svm.ArrowConverter.Nested.{to_arrow}
use cherry_core.Svm.Decode
use cherry_core.Svm.Decode.{
  InstructionSignature, LogSignature, Columns, decode_instruction_rows, decode_log_rows, in_row,
}

pub data Error : Type 0 where
  in_rows : Decode.Error → Error
  not_converted : ArrowConverter.Error → Error
  no_arrow_type : ArrowConverter.Error → Error
  account_not_found : ℕ → Error
  arrow : ArrowError → Error
  -- `signature.params[i]` out of bounds
  index_panic : Error

abbrev pub lift {ℓ} : {E : Type 0} {A : Type ℓ} → (E → Error) → Result E A → Result Error A
lift f (ok a) = ok a
lift f (err e) = err (f e)

abbrev pub or_error {ℓ} : {A : Type ℓ} → Error → Option A → Result Error A
or_error e none = err e
or_error e (some a) = ok a

-- `Schema::new(fields)`
abbrev pub to_schema : List Field → Types.Fields
to_schema [] = Types.no_fields
to_schema (f ∷ fs) = Types.cons_field f (to_schema fs)

-- The loop over the parameters that makes `data_fields`.
unfoldable pub param_fields : List ParamInput → Result Error (List Field)
param_fields [] = ok []
param_fields (param ∷ params) = do
  dt ← lift no_arrow_type (to_arrow_dtype param.param_type)
  fields ← param_fields params
  ok (Field.field param.name dt true ∷ fields)

-- `instruction_signature_to_arrow_schema`
abbrev pub binary_fields : List String → List Field
binary_fields [] = []
binary_fields (account ∷ accounts) =
    Field.field account DataType.binary true ∷ binary_fields accounts

unfoldable pub instruction_signature_to_arrow_schema :
    InstructionSignature → Result Error Types.Fields
unfolding param_fields
instruction_signature_to_arrow_schema signature = do
  fields ← param_fields signature.params
  ok (to_schema (fields ++ binary_fields signature.accounts_names))

-- The name of an account's column; one without a name has that of its number.
abbrev pub account_name : ℕ → String → String
account_name i name = if str_eq name "" then decimal "a" i else name

abbrev pub account_fields : ℕ → List String → List Field
account_fields i [] = []
account_fields i (name ∷ names) =
    Field.field (account_name i name) DataType.binary true ∷ account_fields (i + 1) names

module _ (B : Builders) where
  -- `to_arrow` of each parameter's rows.
  unfoldable pub data_arrays : List ParamInput → Columns → Result Error (List B.Column)
  data_arrays params [] = ok []
  data_arrays [] (col ∷ cols) = err index_panic
  data_arrays (param ∷ params) (col ∷ cols) = do
    a ← lift not_converted (to_arrow B param.param_type col)
    arrays ← data_arrays params cols
    ok (a ∷ arrays)

  module _ (cast : B.Column → DataType → Result ArrowError B.Column) where
    -- The account's column, as `Binary`; `cast` is `arrow::compute::cast`.
    unfoldable pub account_array : B.Column → Result Error B.Column
    account_array arr =
        if same_type (B.data_type arr) DataType.large_binary
        then lift arrow (cast arr DataType.binary)
        else ok arr

    -- The loop over the account names from number `i` on.
    unfoldable pub account_arrays : ℕ → List String → List B.Column → Result Error (List B.Column)
    unfolding account_array
    account_arrays i [] accounts = ok []
    account_arrays i (name ∷ names) accounts = do
      arr ← or_error (account_not_found i) (get_elem? accounts i)
      a ← account_array arr
      arrays ← account_arrays (i + 1) names accounts
      ok (a ∷ arrays)

module _ (B : Builders) (T : Batches B) where
  -- `cast` is `arrow::compute::cast`.
  unfoldable pub decode_instructions :
      (B.Column → DataType → Result ArrowError B.Column)
      → InstructionSignature
      → List B.Column
      → List (Option (List ℕ))
      → Bool
      → Result Error T.RecordBatch
  unfolding data_arrays param_fields account_arrays decode_instruction_rows
  decode_instructions cast signature accounts rows allow_decode_fail = do
    cols ← lift in_rows (decode_instruction_rows signature allow_decode_fail rows)
    arrays ← data_arrays B signature.params cols
    fields ← param_fields signature.params
    more ← account_arrays B cast 0 signature.accounts_names accounts
    lift arrow (
        T.try_new (to_schema (fields ++ account_fields 0 signature.accounts_names))
          (arrays ++ more))

  -- `decode` is `STANDARD.decode` of the base64 crate.
  unfoldable pub decode_logs :
      (List ℕ → Option (List ℕ))
      → LogSignature
      → List (Option (List ℕ))
      → Bool
      → Result Error T.RecordBatch
  unfolding data_arrays param_fields decode_log_rows
  decode_logs decode signature rows allow_decode_fail = do
    cols ← lift in_rows (decode_log_rows decode signature allow_decode_fail rows)
    arrays ← data_arrays B signature.params cols
    fields ← param_fields signature.params
    lift arrow (T.try_new (to_schema fields) arrays)
