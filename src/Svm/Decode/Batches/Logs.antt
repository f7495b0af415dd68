-- ===== src/Svm/Decode/Batches/Logs.antt =====
-- svm-decode/src/lib.rs: the batch that `decode_logs` makes.
use cherry_core.Base.{
  ℕ, ◌+◌, ◌<◌, ◌≡◌, refl, true, List, [], ◌∷◌, Option, none, some, ok, All, IsBytes, arith,
  Result-cases, Option-cases, inl, inr, length,
}
use cherry_core.Arrow.Types.{Field}
use cherry_core.Arrow.Batches.{Batches, BatchLaws, IsBatchOf}
use cherry_core.Arrow.Builders.{Builders, BuilderLaws, ColumnsFit}
use cherry_core.Svm.Deserialize.Program.{deserialize_data-eq_ok_front_iff}
use cherry_core.Svm.ArrowConverter.Offsets.{OffsetsFit}
use cherry_core.Svm.Decode.{LogSignature, decode_log, not_deserialized}
use cherry_core.Svm.Decode.Columns.{columns, decoded, value_of}
use cherry_core.Svm.Decode.Instructions.{decode_log_rows-outcome, unrow}
use cherry_core.Svm.Decode.Batches.{param_fields, to_schema, decode_logs}
use cherry_core.Svm.Decode.Batches.Rows.{
  IsDecodable, IsDecodable-AllFit, TypedRow, EncodesParams-HasParams,
}
use cherry_core.Svm.Decode.Batches.Schemas.{data_arrays-fit, length-decoded, batch_of}

module _ (decode : List ℕ → Option (List ℕ))
    (byte : (text bytes : List ℕ) → decode text ≡ some bytes → IsBytes bytes)
    (signature : LogSignature) (h : IsDecodable signature.params) where
  log-TypedRow :
      (i : ℕ) (row : Option (List ℕ))
      → TypedRow signature.params (value_of (decode_log decode signature i row))
  unfolding decode_log
  log-TypedRow i none = tt
  log-TypedRow i (some text) = elim (Option-cases (decode text)) [
    | inl bad ↦ rw (bad, decode_log) tt
    | inr (bytes, good) ↦ elim (Result-cases (decode_log decode signature i (some text))) [
      | inl (vs, e) ↦
          let read = unrow (not_deserialized i) _ vs (rw (good, decode_log) at e) in
          let (_, _, _, encoded) =
            (deserialize_data-eq_ok_front_iff bytes signature.params vs
                (IsDecodable-AllFit signature.params h) (byte text bytes good)).0
              read in
          rw e (EncodesParams-HasParams encoded h)
      | inr (x, e) ↦ rw e tt
    ]
  ]

  logs-TypedRow :
      (i : ℕ) (rows : List (Option (List ℕ)))
      → All (TypedRow signature.params) (decoded (decode_log decode signature) i rows)
  logs-TypedRow i [] = tt
  logs-TypedRow i (row ∷ rows) = (log-TypedRow i row, logs-TypedRow (i + 1) rows)

  module _ (B : Builders) (laws : BuilderLaws B) (T : Batches B) (batch_laws : BatchLaws B T) where
    -- With `allow_decode_fail`, `decode_logs` makes a batch with a row for each row of the data, of
    -- the fields of the parameters, whether the rows are null, no base64, or decoded or not, if
    -- base64 gives bytes, the types of the parameters can be decoded and converted, the elements of
    -- the lists and binary values that are decoded for each parameter, of a struct those of its
    -- largest field, are fewer than 2^31, and there is a parameter.
    pub decode_logs-IsBatchOf :
        (rows : List (Option (List ℕ)))
        → All OffsetsFit
            (columns (length signature.params) (decoded (decode_log decode signature) 0 rows))
        → 0 < length signature.params
        → (batch : T.RecordBatch) × (fields : List Field) × (arrays : List B.Column) × (decode_logs
              B T decode signature rows true
            ≡ ok batch)
          × (param_fields signature.params ≡ ok fields)
          × IsBatchOf B T (length rows) (to_schema fields) arrays batch
          × ColumnsFit B (length rows) (to_schema fields) arrays
    unfolding decode_logs
    decode_logs-IsBatchOf rows o some_column =
        let values = decoded (decode_log decode signature) 0 rows in
        let (arrays, fields, converted, named, many, typed) =
          data_arrays-fit B laws signature.params values h (logs-TypedRow 0 rows) o in
        let all_fit = rw (length-decoded (decode_log decode signature) 0 rows) at typed in
        let (batch, made, is) =
          batch_of B laws T batch_laws (length rows) fields arrays
            (omega (arith, some_column, many)) all_fit in
        (
          batch,
          fields,
          arrays,
          rw (decode_log_rows-outcome decode signature true rows, converted, named, made) refl,
          named,
          is,
          all_fit,
        )
