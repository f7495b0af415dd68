-- ===== src/Svm/Decode/Batches/Schemas.antt =====
-- svm-decode/src/lib.rs: the batch that `decode_instructions` makes, and its schema.
use cherry_core.Base.{
  ap₂, ok-injective, suc, length-append, ◌<◌, Option, ap, ◌++◌, length, ok, arith, length-map, ℕ,
  ◌+◌, ◌≡◌, refl, true, List, [], ◌∷◌, map, some, Result, String, get_elem?, All, ◌∙◌, false,
}
use cherry_core.Arrow.Types.{DataType, Field, same_type}
use cherry_core.Arrow.Kernels.{ArrowError}
use cherry_core.Arrow.Batches.{Batches, BatchLaws, IsBatchOf}
use cherry_core.Arrow.Builders.{Builders, BuilderLaws, ColumnsFit}
use cherry_core.Svm.Types.{Values, ParamInput}
use cherry_core.Svm.ArrowConverter.Agreement.{to_arrow-to_arrow_dtype}
use cherry_core.Svm.ArrowConverter.Offsets.{OffsetsFit}
use cherry_core.Svm.Decode
use cherry_core.Svm.Decode.{InstructionSignature, decode_instruction}
use cherry_core.Svm.Decode.Columns.{columns, decoded, first_of, rest_of}
use cherry_core.Svm.Decode.Instructions.{decode_instruction_rows-outcome}
use cherry_core.Svm.Decode.Batches.{
  param_fields, data_arrays, account_array, account_arrays, account_fields, to_schema,
  decode_instructions, binary_fields, instruction_signature_to_arrow_schema,
}
use cherry_core.Base.Dict.{str_eq}
use cherry_core.Svm.Decode.Batches.Rows.{
  IsDecodable, IsRow, TypedRow, decoded-TypedRow, firsts_typed,
}

module _ (B : Builders) where
  -- There is a binary column with `n` rows for each account name.
  abbrev pub AccountsFit : ℕ → ℕ → List String → List B.Column → Type 0
  AccountsFit n i [] accounts = Unit
  AccountsFit n i (name ∷ names) accounts =
      ((c : B.Column) × (get_elem? accounts i ≡ some c)
        × (B.data_type c ≡ DataType.binary)
        × (B.len c ≡ n))
      × AccountsFit n (i + 1) names accounts

module _ (B : Builders) (laws : BuilderLaws B) where
  pub data_arrays-fit :
      (ps : List ParamInput) (rows : List (Option Values))
      → IsDecodable ps
      → All (TypedRow ps) rows
      → All OffsetsFit (columns (length ps) rows)
      → (arrays : List B.Column) × (fields : List Field) × (data_arrays B ps
            (columns (length ps) rows)
          ≡ ok arrays)
        × (param_fields ps ≡ ok fields)
        × (length fields ≡ length ps)
        × ColumnsFit B (length rows) (to_schema fields) arrays
  unfolding data_arrays param_fields
  data_arrays-fit [] rows h k o = ([], [], refl, refl, refl, tt)
  data_arrays-fit (p ∷ ps) rows ((_, supported, _), h) k (o, os) =
      let (firsts, rests) = firsts_typed p ps rows k in
      let (dt, c, announced, made, typed, count) =
        to_arrow-to_arrow_dtype B laws p.param_type (map first_of rows) supported firsts o in
      let (arrays, fields, converted, named, many, fit) =
        data_arrays-fit ps (map rest_of rows) h rests os in
      (
        c ∷ arrays,
        Field.field p.name dt true ∷ fields,
        rw (made, converted) refl,
        rw (announced, named) refl,
        ap suc many,
        (typed, count ∙ length-map first_of rows, refl, rw (length-map rest_of rows) at fit),
      )

  account_array-binary :
      (cast : B.Column → DataType → Result ArrowError B.Column) (c : B.Column)
      → B.data_type c ≡ DataType.binary
      → account_array B cast c ≡ ok c
  unfolding account_array same_type
  account_array-binary cast c binary = rw binary refl

  account_arrays-fit :
      (cast : B.Column → DataType → Result ArrowError B.Column) (n i : ℕ) (names : List String)
      (accounts : List B.Column)
      → AccountsFit B n i names accounts
      → (arrays : List B.Column) × (account_arrays B cast i names accounts ≡ ok arrays)
        × ColumnsFit B n (to_schema (account_fields i names)) arrays
  unfolding account_arrays
  account_arrays-fit cast n i [] accounts h = ([], refl, tt)
  account_arrays-fit cast n i (name ∷ names) accounts ((c, found, binary, count), h) =
      let (arrays, others, fit) = account_arrays-fit cast n (i + 1) names accounts h in
      (
        c ∷ arrays,
        rw (found, account_array-binary cast c binary, others) refl,
        (binary, count, refl, fit),
      )

  ColumnsFit-append :
      (n : ℕ) (fs gs : List Field) (cs ds : List B.Column)
      → ColumnsFit B n (to_schema fs) cs
      → ColumnsFit B n (to_schema gs) ds
      → ColumnsFit B n (to_schema (fs ++ gs)) (cs ++ ds)
  ColumnsFit-append n [] gs [] ds h k = k
  ColumnsFit-append n [] gs (c ∷ cs) ds h k = absurd h
  ColumnsFit-append n (Field.field name dt nullable ∷ fs) gs [] ds h k = absurd h
  ColumnsFit-append n (Field.field name dt nullable ∷ fs) gs (c ∷ cs) ds (t, l, m, h) k =
      (t, l, m, ColumnsFit-append n fs gs cs ds h k)

length-account_fields :
    (i : ℕ) (names : List String) → length (account_fields i names) ≡ length names
length-account_fields i [] = refl
length-account_fields i (name ∷ names) = ap suc (length-account_fields (i + 1) names)

account_fields-named :
    (i : ℕ) (names : List String)
    → All (λ name. str_eq name "" ≡ false) names
    → account_fields i names ≡ binary_fields names
account_fields-named i [] h = refl
account_fields-named i (name ∷ names) (some_name, h) =
    ap₂ (λ f fs. f ∷ fs) (rw some_name refl) (account_fields-named (i + 1) names h)

pub length-decoded :
    {X : Type 0} (decode_row : ℕ → X → Result Decode.Error Values) (i : ℕ) (rows : List X)
    → length (decoded decode_row i rows) ≡ length rows
length-decoded decode_row i [] = refl
length-decoded decode_row i (row ∷ rows) = ap suc (length-decoded decode_row (i + 1) rows)

module _ (B : Builders) (laws : BuilderLaws B) (T : Batches B) (batch_laws : BatchLaws B T) where
  pub batch_of :
      (n : ℕ) (fs : List Field) (cs : List B.Column)
      → 0 < length fs
      → ColumnsFit B n (to_schema fs) cs
      → (batch : T.RecordBatch) × (T.try_new (to_schema fs) cs ≡ ok batch)
        × IsBatchOf B T n (to_schema fs) cs batch
  batch_of n [] cs h k = absurd (omega (arith, h))
  batch_of n (Field.field name dt nullable ∷ fs) [] h k = absurd k
  batch_of n (Field.field name dt nullable ∷ fs) (c ∷ cs) h k = batch_laws.try_new_lem n _ c cs k

  -- With `allow_decode_fail`, `decode_instructions` makes a batch with a row for each row of the
  -- data, of the fields of the parameters and then of the accounts, whether the rows are decoded or
  -- not, if the types of the parameters can be decoded and converted, the elements of the lists and
  -- binary values that are decoded for each parameter, of a struct those of its largest field, are
  -- fewer than 2^31, there is a binary column of as many rows for each account name, and there is a
  -- parameter or an account.
  pub decode_instructions-IsBatchOf :
      (cast : B.Column → DataType → Result ArrowError B.Column) (signature : InstructionSignature)
      (accounts : List B.Column) (rows : List (Option (List ℕ)))
      → IsDecodable signature.params
      → All IsRow rows
      → All OffsetsFit
          (columns (length signature.params) (decoded (decode_instruction signature) 0 rows))
      → AccountsFit B (length rows) 0 signature.accounts_names accounts
      → 0 < length signature.params + length signature.accounts_names
      → (batch : T.RecordBatch) × (fields : List Field) × (arrays : List B.Column)
        × (decode_instructions B T cast signature accounts rows true ≡ ok batch)
        × (param_fields signature.params ≡ ok fields)
        × IsBatchOf B T
            (length rows)
            (to_schema (fields ++ account_fields 0 signature.accounts_names))
            arrays
            batch
        × ColumnsFit B
            (length rows)
            (to_schema (fields ++ account_fields 0 signature.accounts_names))
            arrays
  unfolding decode_instructions
  decode_instructions-IsBatchOf cast signature accounts rows h bytes o fit some_column =
      let values = decoded (decode_instruction signature) 0 rows in
      let (arrays, fields, converted, named, many, typed) =
        data_arrays-fit B laws signature.params values h (decoded-TypedRow signature 0 rows h bytes)
          o in
      let (more, found, binary) =
        account_arrays-fit B laws cast (length rows) 0 signature.accounts_names accounts fit in
      let all_fit =
        ColumnsFit-append B laws (length rows) fields (account_fields 0 signature.accounts_names)
          arrays more (rw (length-decoded (decode_instruction signature) 0 rows) at typed) binary in
      let (batch, made, is) =
        batch_of (length rows) (fields ++ account_fields 0 signature.accounts_names)
          (arrays ++ more)
          (omega (
            arith,
            some_column,
            many,
            length-append fields (account_fields 0 signature.accounts_names),
            length-account_fields 0 signature.accounts_names,
          ))
          all_fit in
      (
        batch,
        fields,
        arrays ++ more,
        rw (decode_instruction_rows-outcome signature true rows, converted, named, found, made)
            refl,
        named,
        is,
        all_fit,
      )

  -- Under the conditions on which `decode_instructions` makes a batch with `allow_decode_fail`, and
  -- if no account name is empty, the batch has the schema that
  -- `instruction_signature_to_arrow_schema` gives.
  pub decode_instructions-schema :
      (cast : B.Column → DataType → Result ArrowError B.Column) (signature : InstructionSignature)
      (accounts : List B.Column) (rows : List (Option (List ℕ))) (batch : T.RecordBatch)
      → IsDecodable signature.params
      → All IsRow rows
      → All OffsetsFit
          (columns (length signature.params) (decoded (decode_instruction signature) 0 rows))
      → AccountsFit B (length rows) 0 signature.accounts_names accounts
      → All (λ name. str_eq name "" ≡ false) signature.accounts_names
      → 0 < length signature.params + length signature.accounts_names
      → decode_instructions B T cast signature accounts rows true ≡ ok batch
      → instruction_signature_to_arrow_schema signature ≡ ok (T.schema batch)
  unfolding instruction_signature_to_arrow_schema
  decode_instructions-schema cast signature accounts rows batch h bytes o fit names some_column
        made =
      let (it, fields, _, same, named, (schema, _, _), _) =
        decode_instructions-IsBatchOf cast signature accounts rows h bytes o fit some_column in
      let e : batch ≡ it = ok-injective made same in
      rw (named, e, schema, account_fields-named 0 signature.accounts_names names) refl
