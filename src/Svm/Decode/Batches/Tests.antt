-- ===== src/Svm/Decode/Batches/Tests.antt =====
-- svm-decode/src/lib.rs: instructions that become a batch.
use cherry_core.Base.{
  subst, IsBytes, Bool-cases, inl, inr, if◌then◌else◌, Option, All, ℕ, ◌≡◌, refl, true, List, [],
  ◌∷◌, ◌++◌, some, none, ok, arith, from_le_bytes,
}
use cherry_core.Arrow.Types.{DataType, Field, same_type}
use cherry_core.Arrow.Builders.{ColumnsFit}
use cherry_core.Arrow.Batches.{IsBatchOf}
use cherry_core.Arrow.Shapes.{shapes, shapes_laws, shape_batches, shape_batches_laws}
use cherry_core.Svm.Types
use cherry_core.Svm.Types.{ParamInput}
use cherry_core.Svm.Deserialize.{deserialize_data}
use cherry_core.Svm.Deserialize.Sound.{FitsUsize}
use cherry_core.Svm.ArrowConverter.Decoded.{Plain}
use cherry_core.Svm.ArrowConverter.Typed.{Supported}
use cherry_core.Svm.ArrowConverter.Nested.{to_arrow}
use cherry_core.Svm.ArrowConverter.Offsets.{OffsetsFit, elements_of_rows}
use cherry_core.Query.Filter.{bytes_eq}
use cherry_core.Svm.Decode.Batches.Logs.{decode_logs-IsBatchOf}
use cherry_core.Svm.Decode.{LogSignature, decode_log, InstructionSignature, decode_instruction}
use cherry_core.Svm.Decode.Columns.{columns, decoded}
use cherry_core.Svm.Decode.Batches.{
  param_fields, to_schema, account_fields, decode_instructions,
  instruction_signature_to_arrow_schema, decode_logs,
}
use cherry_core.Svm.Decode.Batches.Rows.{IsDecodable, IsRow}
use cherry_core.Svm.Decode.Batches.Schemas.{
  AccountsFit, decode_instructions-IsBatchOf, decode_instructions-schema,
}

abbrev transfer : InstructionSignature
transfer = record {
  discriminator = 7 ∷ 8 ∷ [];
  params = record { name = "amount"; param_type = Types.DynType.u8 } ∷ [];
  accounts_names = "from" ∷ "to" ∷ [];
}

abbrev two_rows : List (Option (List ℕ))
two_rows = some (7 ∷ 8 ∷ 5 ∷ []) ∷ none ∷ []

abbrev two_accounts : List shapes.Column
unfolding shapes
two_accounts = (DataType.binary, 2) ∷ (DataType.binary, 2) ∷ []

transfer-IsDecodable : IsDecodable transfer.params
unfolding FitsUsize Plain Supported
transfer-IsDecodable = ((tt, tt, tt), tt)

two_rows-IsRow : All IsRow two_rows
two_rows-IsRow = ((omega arith, (omega arith, (omega arith, tt))), (tt, tt))

two_rows-OffsetsFit : All OffsetsFit (columns 1 (decoded (decode_instruction transfer) 0 two_rows))
unfolding elements_of_rows decode_instruction deserialize_data from_le_bytes
two_rows-OffsetsFit = (omega arith, tt)

two_accounts-AccountsFit : AccountsFit shapes 2 0 transfer.accounts_names two_accounts
unfolding shapes
two_accounts-AccountsFit = (((_, refl, refl, refl), ((_, refl, refl, refl), tt)))

abbrev transfers : shape_batches.RecordBatch
unfolding shapes shape_batches
transfers = (
  to_schema (
      Field.field "amount" DataType.uint8 true
      ∷ Field.field "from" DataType.binary true
      ∷ Field.field "to" DataType.binary true
      ∷ []),
  (DataType.uint8, 2) ∷ two_accounts,
  2,
)

decode_instructions_runs :
    decode_instructions shapes shape_batches (λ c _. ok c) transfer two_accounts two_rows true
    ≡ ok transfers
unfolding decode_instructions shapes shape_batches deserialize_data to_arrow from_le_bytes same_type
decode_instructions_runs = refl

decode_instructions-IsBatchOf_example :
    (batch : shape_batches.RecordBatch) × (fields : List Field) × (columns : List shapes.Column)
    × (decode_instructions shapes shape_batches (λ c _. ok c) transfer two_accounts two_rows true
        ≡ ok batch)
    × (param_fields transfer.params ≡ ok fields)
    × IsBatchOf shapes shape_batches 2
        (to_schema (fields ++ account_fields 0 transfer.accounts_names))
        columns
        batch
    × ColumnsFit shapes 2 (to_schema (fields ++ account_fields 0 transfer.accounts_names)) columns
unfolding shapes
decode_instructions-IsBatchOf_example =
    decode_instructions-IsBatchOf shapes shapes_laws shape_batches shape_batches_laws (λ c _. ok c)
      transfer two_accounts two_rows transfer-IsDecodable two_rows-IsRow two_rows-OffsetsFit
      two_accounts-AccountsFit (omega arith)

decode_instructions-schema_example :
    instruction_signature_to_arrow_schema transfer ≡ ok (shape_batches.schema transfers)
unfolding shapes
decode_instructions-schema_example =
    decode_instructions-schema shapes shapes_laws shape_batches shape_batches_laws (λ c _. ok c)
      transfer two_accounts two_rows transfers transfer-IsDecodable two_rows-IsRow
      two_rows-OffsetsFit two_accounts-AccountsFit (refl, (refl, tt)) (omega arith)
      decode_instructions_runs

abbrev transfer_log : LogSignature
transfer_log = record { params = transfer.params }

-- Base64 at one text, `BQ==`; every other text is refused.
abbrev decode_five : List ℕ → Option (List ℕ)
decode_five text = if bytes_eq text (66 ∷ 81 ∷ 61 ∷ 61 ∷ []) then some (5 ∷ []) else none

decode_five-IsBytes : (text bytes : List ℕ) → decode_five text ≡ some bytes → IsBytes bytes
decode_five-IsBytes text bytes e = elim (Bool-cases (bytes_eq text (66 ∷ 81 ∷ 61 ∷ 61 ∷ []))) [
  | inl same ↦
      let five : 5 ∷ [] ≡ bytes = cc (rw same at e) in
      let small : IsBytes (5 ∷ []) = (omega arith, tt) in subst IsBytes five small
  | inr other ↦ absurd (none_not_some (rw other at e))
]
  where
    none_not_some : ◌≡◌ {A = Option (List ℕ)} none (some bytes) → ⊥
    none_not_some h = cc

-- A text that is read, one that is not, and a null.
abbrev three_texts : List (Option (List ℕ))
three_texts = some (66 ∷ 81 ∷ 61 ∷ 61 ∷ []) ∷ some (66 ∷ []) ∷ none ∷ []

decode_logs-IsBatchOf_example :
    (batch : shape_batches.RecordBatch) × (fields : List Field) × (arrays : List shapes.Column)
    × (decode_logs shapes shape_batches decode_five transfer_log three_texts true ≡ ok batch)
    × (param_fields transfer_log.params ≡ ok fields)
    × IsBatchOf shapes shape_batches 3 (to_schema fields) arrays batch
    × ColumnsFit shapes 3 (to_schema fields) arrays
unfolding elements_of_rows decode_log deserialize_data from_le_bytes
decode_logs-IsBatchOf_example =
    decode_logs-IsBatchOf decode_five decode_five-IsBytes transfer_log transfer-IsDecodable shapes
      shapes_laws shape_batches shape_batches_laws three_texts (omega arith, tt) (omega arith)
