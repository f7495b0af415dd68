-- ===== src/Schema/Rows.antt =====
-- evm-schema/src/lib.rs and svm-schema/src/lib.rs: what the builders of the two crates have in common. The
-- builders of arrow are parameters with laws.
use cherry_core.Base.{ℕ, String, ◌≡◌, refl, true, List, [], ◌∷◌, Result, ok, ◌>>=◌, ℤ, pos, ◌∙◌}
use cherry_core.Arrow.Types.{DataType, Fields, field, cons_field, no_fields, decimal256}
use cherry_core.Arrow.Kernels.{ArrowError}
use cherry_core.Arrow.Builders.{Builders, ColumnsFit}

-- `Schema::new(vec![Field::new(name, data_type, true), …])`
abbrev pub schema : List (String × DataType) → Fields
schema [] = no_fields
schema ((name, dt) ∷ fs) = cons_field (field name dt true) (schema fs)

abbrev pub IsSome : Fields → Type 0
IsSome no_fields = ⊥
IsSome (cons_field f fs) = Unit

abbrev pub names : Fields → List String
names no_fields = []
names (cons_field (field name dt nullable) fs) = name ∷ names fs

-- A builder whose Rust type fixes the data type, `Decimal256Builder`, which has a precision and a scale
-- of its own, and `ListBuilder<StructBuilder>`, which has the fields that it was made with.
pub record RowBuilders (B : Builders) : Type 1 where
  pub Builder : DataType → Type 0
  pub rows : {t : DataType} → Builder t → ℕ
  pub finish : {t : DataType} → Builder t → B.Column
  pub Decimal256Builder : Type 0
  pub decimal_rows : Decimal256Builder → ℕ
  pub with_precision_and_scale : ℕ → ℤ → Decimal256Builder → Result ArrowError Decimal256Builder
  pub decimal_finish : Decimal256Builder → B.Column
  pub StructListBuilder : Type 0
  pub struct_list_rows : StructListBuilder → ℕ
  pub struct_list_type : StructListBuilder → DataType
  pub struct_list_finish : StructListBuilder → B.Column
  pub RecordBatch : Type 0
  pub num_rows : RecordBatch → ℕ
  pub columns : RecordBatch → List B.Column
  -- RecordBatch::try_new(schema, columns)
  pub try_new : Fields → List B.Column → Result ArrowError RecordBatch

module _ (B : Builders) (R : RowBuilders B) where
  -- `builder.with_precision_and_scale(precision, scale).unwrap().finish()`
  abbrev pub decimal : ℕ → ℤ → R.Decimal256Builder → Result ArrowError B.Column
  decimal precision scale b = do
    b' ← R.with_precision_and_scale precision scale b
    ok (R.decimal_finish b')

module _ {A : Type 0} where
  abbrev pub sequence : List (Result ArrowError A) → Result ArrowError (List A)
  sequence [] = ok []
  sequence (r ∷ rs) = do a ← r; xs ← sequence rs; ok (a ∷ xs)

module _ (B : Builders) (R : RowBuilders B) where
  abbrev pub finish_batch :
      Fields → List (Result ArrowError B.Column) → Result ArrowError R.RecordBatch
  finish_batch fields columns = do cs ← sequence columns; R.try_new fields cs

  abbrev pub IsColumn : ℕ → DataType → B.Column → Type 0
  IsColumn n t c = (B.data_type c ≡ t) × (B.len c ≡ n)

  -- The laws; a scale of 0 fits every precision up to 76.
  pub record RowBuilderLaws : Type 0 where
    pub finish_lem : {t : DataType} (b : R.Builder t) → IsColumn (R.rows b) t (R.finish b)
    pub decimal_lem :
        (b : R.Decimal256Builder)
        → (b' : R.Decimal256Builder) × (R.with_precision_and_scale 76 (pos 0) b ≡ ok b')
          × IsColumn (R.decimal_rows b) (decimal256 76 (pos 0)) (R.decimal_finish b')
    pub struct_list_lem :
        (b : R.StructListBuilder)
        → IsColumn (R.struct_list_rows b) (R.struct_list_type b) (R.struct_list_finish b)
    pub try_new_lem :
        (n : ℕ) (fs : Fields) (c : B.Column) (cs : List B.Column)
        → ColumnsFit B n fs (c ∷ cs)
        → (batch : R.RecordBatch) × (R.try_new fs (c ∷ cs) ≡ ok batch)
          × (R.num_rows batch ≡ n)
          × (R.columns batch ≡ c ∷ cs)

  -- A column of `n` rows and the type comes out.
  abbrev pub Finishes : ℕ → DataType → Result ArrowError B.Column → Type 0
  Finishes n t r = (c : B.Column) × (r ≡ ok c) × IsColumn n t c

  abbrev pub AllFinish : ℕ → Fields → List (Result ArrowError B.Column) → Type 0
  AllFinish n no_fields [] = Unit
  AllFinish n (cons_field (field name dt nullable) fs) (r ∷ rs) =
      Finishes n dt r × (nullable ≡ true) × AllFinish n fs rs
  AllFinish n _ _ = ⊥

  -- A batch of `n` rows, whose columns have the types of the schema, comes out.
  abbrev pub IsBatch : ℕ → Fields → Result ArrowError R.RecordBatch → Type 0
  IsBatch n fs r =
      (batch : R.RecordBatch) × (r ≡ ok batch)
      × (R.num_rows batch ≡ n)
      × ColumnsFit B n fs (R.columns batch)

module _ (B : Builders) (R : RowBuilders B) (laws : RowBuilderLaws B R) (n : ℕ) where
  pub finish-Finishes :
      {t : DataType} (b : R.Builder t) → R.rows b ≡ n → Finishes B R n t (ok (R.finish b))
  finish-Finishes b h = (R.finish b, refl, ((laws.finish_lem b).0, (laws.finish_lem b).1 ∙ h))

  pub decimal-Finishes :
      (b : R.Decimal256Builder)
      → R.decimal_rows b ≡ n
      → Finishes B R n (decimal256 76 (pos 0)) (decimal B R 76 (pos 0) b)
  decimal-Finishes b h =
      let (b', e, (t, l)) = laws.decimal_lem b in (R.decimal_finish b', rw e refl, (t, l ∙ h))

  pub struct_list-Finishes :
      {t : DataType} (b : R.StructListBuilder)
      → R.struct_list_rows b ≡ n
      → R.struct_list_type b ≡ t
      → Finishes B R n t (ok (R.struct_list_finish b))
  struct_list-Finishes b h e =
      let (t, l) = laws.struct_list_lem b in (R.struct_list_finish b, refl, (t ∙ e, l ∙ h))

  sequence-fit :
      (fs : Fields) (rs : List (Result ArrowError B.Column))
      → AllFinish B R n fs rs
      → (cs : List B.Column) × (sequence rs ≡ ok cs) × ColumnsFit B n fs cs
  sequence-fit no_fields [] h = ([], refl, tt)
  sequence-fit no_fields (r ∷ rs) h = absurd h
  sequence-fit (cons_field (field name dt nullable) fs) [] h = absurd h
  sequence-fit (cons_field (field name dt nullable) fs) (r ∷ rs) ((c, e, (t, l)), a, h) =
      let (cs, e', fit) = sequence-fit fs rs h in (c ∷ cs, rw (e, e') refl, (t, l, a, fit))

  -- The batch that is made of the columns; a schema without fields is refused.
  IsBatch-of_columns :
      (fs : Fields) (rs : List (Result ArrowError B.Column)) (cs : List B.Column)
      → IsSome fs
      → sequence rs ≡ ok cs
      → ColumnsFit B n fs cs
      → IsBatch B R n fs (finish_batch B R fs rs)
  IsBatch-of_columns no_fields rs cs some_field e fit = absurd some_field
  IsBatch-of_columns (cons_field (field name dt nullable) fs) rs [] some_field e fit = absurd fit
  IsBatch-of_columns (cons_field (field name dt nullable) fs) rs (c ∷ cs) some_field e fit =
      let (batch, made, rows, columns) =
        laws.try_new_lem n (cons_field (field name dt nullable) fs) c cs fit in
      (batch, rw (e, made) refl, rows, rw columns fit)

  pub finish_batch-IsBatch :
      (fs : Fields) (rs : List (Result ArrowError B.Column))
      → IsSome fs
      → AllFinish B R n fs rs
      → IsBatch B R n fs (finish_batch B R fs rs)
  finish_batch-IsBatch fs rs some_field h =
      let (cs, e, fit) = sequence-fit fs rs h in IsBatch-of_columns fs rs cs some_field e fit
