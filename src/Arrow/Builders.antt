-- ===== src/Arrow/Builders.antt =====
-- The arrays that the source builds with the arrow crate: the builders and constructors as a record of
-- operations, with the laws that their documentation states. An integer array is given by its rows, as
-- the numbers that they stand for.
use cherry_core.Base.{
  ℕ, ◌+◌, ◌^◌, ◌<◌, ◌≡◌, Bool, List, [], ◌∷◌, Option, none, some, Result, ok, length, ℤ, String,
  true,
}
use cherry_core.Arrow.Types.{
  DataType, Field, Fields, boolean, binary, list, struct, no_fields, field, cons_field,
}
use cherry_core.Arrow.Kernels.{ArrowError}

pub record Builders : Type 1 where
  -- Arc<dyn Array>
  pub Column : Type 0
  pub data_type : Column → DataType
  pub len : Column → ℕ
  -- PrimitiveBuilder<T>, BooleanBuilder, BinaryBuilder
  pub primitive : DataType → List (Option ℤ) → Column
  pub booleans : List (Option Bool) → Column
  pub binaries : List (Option (List ℕ)) → Column
  -- ListArray::try_new(field, OffsetBuffer::from_lengths(lengths), values, nulls)
  pub list_try_new : Field → List ℕ → Column → Option (List Bool) → Result ArrowError Column
  -- StructArray::from(RecordBatch::try_new(schema, arrays)?)
  pub struct_try_new : Fields → List Column → Result ArrowError Column

-- The bytes of the values of a binary column.
abbrev pub total_bytes : List (Option (List ℕ)) → ℕ
total_bytes [] = 0
total_bytes (none ∷ vs) = total_bytes vs
total_bytes (some b ∷ vs) = length b + total_bytes vs

abbrev pub sum : List ℕ → ℕ
sum [] = 0
sum (n ∷ ns) = n + sum ns

-- The validity bits, if there are any, are as many as the rows.
abbrev pub BitsFit : ℕ → Option (List Bool) → Type 0
BitsFit n none = Unit
BitsFit n (some bits) = length bits ≡ n

module _ (B : Builders) where
  -- Columns of `n` rows that have the types of some fields, which allow nulls.
  abbrev pub ColumnsFit : ℕ → Fields → List B.Column → Type 0
  ColumnsFit n no_fields [] = Unit
  ColumnsFit n (cons_field (field name dt nullable) fs) (c ∷ cs) =
      (B.data_type c ≡ dt) × (B.len c ≡ n) × (nullable ≡ true) × ColumnsFit n fs cs
  ColumnsFit n _ _ = ⊥

-- The offsets of lists and of binary values are i32; arrow panics where one overflows.
pub record BuilderLaws (B : Builders) : Type 0 where
  pub primitive_lem :
      (dt : DataType) (vs : List (Option ℤ))
      → (B.data_type (B.primitive dt vs) ≡ dt) × (B.len (B.primitive dt vs) ≡ length vs)
  pub booleans_lem :
      (vs : List (Option Bool))
      → (B.data_type (B.booleans vs) ≡ boolean) × (B.len (B.booleans vs) ≡ length vs)
  pub binaries_lem :
      (vs : List (Option (List ℕ)))
      → total_bytes vs < 2 ^ 31
      → (B.data_type (B.binaries vs) ≡ binary) × (B.len (B.binaries vs) ≡ length vs)
  pub list_lem :
      (name : String) (dt : DataType) (lengths : List ℕ) (values : B.Column)
      (bits : Option (List Bool))
      → B.data_type values ≡ dt
      → B.len values ≡ sum lengths
      → BitsFit (length lengths) bits
      → sum lengths < 2 ^ 31
      → (c : B.Column) × (B.list_try_new (field name dt true) lengths values bits ≡ ok c)
        × (B.data_type c ≡ list (field name dt true))
        × (B.len c ≡ length lengths)
  -- A record batch without columns is refused, as it has no row count.
  pub struct_lem :
      (n : ℕ) (fs : Fields) (c : B.Column) (cs : List B.Column)
      → ColumnsFit B n fs (c ∷ cs)
      → (a : B.Column) × (B.struct_try_new fs (c ∷ cs) ≡ ok a)
        × (B.data_type a ≡ struct fs)
        × (B.len a ≡ n)
