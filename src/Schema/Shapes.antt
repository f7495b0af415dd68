-- ===== src/Schema/Shapes.antt =====
-- Concrete builders of rows: of what was appended they keep the number of rows.
use cherry_core.Base.{ℕ, List, [], ◌∷◌, ok, err, refl, Result, ◌≡◌}
use cherry_core.Arrow.Types.{DataType, Fields, field, cons_field, no_fields, decimal256}
use cherry_core.Arrow.Kernels.{ArrowError, arrow_error}
use cherry_core.Arrow.Builders.{ColumnsFit}
use cherry_core.Arrow.Shapes.{shapes}
use cherry_core.Schema.Rows.{RowBuilders, RowBuilderLaws}

-- The number of rows, and the columns.
abbrev Batch : Type 0
Batch = ℕ × List (DataType × ℕ)

abbrev batch_of : List (DataType × ℕ) → Result ArrowError Batch
batch_of [] = err (arrow_error "a row count or a column expected")
batch_of (c ∷ cs) = ok (c.1, c ∷ cs)

unfoldable pub row_shapes : RowBuilders shapes
unfolding shapes
row_shapes = record {
  Builder = λ t. ℕ;
  rows = λ n. n;
  finish = λ {t} n. (t, n);
  Decimal256Builder = DataType × ℕ;
  decimal_rows = λ b. b.1;
  with_precision_and_scale = λ precision scale b. ok (decimal256 precision scale, b.1);
  decimal_finish = λ b. b;
  StructListBuilder = DataType × ℕ;
  struct_list_rows = λ b. b.1;
  struct_list_type = λ b. b.0;
  struct_list_finish = λ b. b;
  RecordBatch = Batch;
  num_rows = λ b. b.0;
  columns = λ b. b.1;
  try_new = λ fields cs. batch_of cs;
}

first_rows :
    (n : ℕ) (fs : Fields) (c : shapes.Column) (cs : List shapes.Column)
    → ColumnsFit shapes n fs (c ∷ cs)
    → shapes.len c ≡ n
unfolding shapes
first_rows n no_fields c cs h = absurd h
first_rows n (cons_field (field name dt nullable) fs) c cs h = h.1

pub row_shapes_laws : RowBuilderLaws shapes row_shapes
unfolding shapes row_shapes
row_shapes_laws = record {
  finish_lem = λ b. (refl, refl);
  decimal_lem = λ b. (_, refl, (refl, refl));
  struct_list_lem = λ b. (refl, refl);
  try_new_lem = λ n fs c cs h. (_, refl, first_rows n fs c cs h, refl);
}
