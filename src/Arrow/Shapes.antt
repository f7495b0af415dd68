-- ===== src/Arrow/Shapes.antt =====
-- Concrete builders: of an array they keep its type and its number of rows.
use cherry_core.Base.{ℕ, ◌≡◌, refl, List, [], ◌∷◌, Result, ok, err, length}
use cherry_core.Arrow.Types.{
  DataType, Fields, boolean, binary, list, struct, no_fields, cons_field, field,
}
use cherry_core.Arrow.Kernels.{ArrowError, arrow_error}
use cherry_core.Arrow.Batches.{Batches, BatchLaws}
use cherry_core.Arrow.Builders.{Builders, BuilderLaws, ColumnsFit}

abbrev shape_of_struct : Fields → List (DataType × ℕ) → Result ArrowError (DataType × ℕ)
shape_of_struct fs [] = err (arrow_error "a row count or a column expected")
shape_of_struct fs (c ∷ _) = ok (struct fs, c.1)

unfoldable pub shapes : Builders
shapes = record {
  Column = DataType × ℕ;
  data_type = λ c. c.0;
  len = λ c. c.1;
  primitive = λ dt vs. (dt, length vs);
  booleans = λ vs. (boolean, length vs);
  binaries = λ vs. (binary, length vs);
  list_try_new = λ f lengths values bits. ok (list f, length lengths);
  struct_try_new = shape_of_struct;
}

first_len :
    (n : ℕ) (fs : Fields) (c : shapes.Column) (cs : List shapes.Column)
    → ColumnsFit shapes n fs (c ∷ cs)
    → shapes.len c ≡ n
unfolding shapes
first_len n no_fields c cs h = absurd h
first_len n (cons_field (field name dt nullable) fs) c cs h = h.1

pub shapes_laws : BuilderLaws shapes
unfolding shapes
shapes_laws = record {
  primitive_lem = λ dt vs. (refl, refl);
  booleans_lem = λ vs. (refl, refl);
  binaries_lem = λ vs _. (refl, refl);
  list_lem = λ name dt lengths values bits _ _ _ _. (_, refl, refl, refl);
  struct_lem = λ n fs c cs h. (_, refl, refl, first_len n fs c cs h);
}

-- Batches that keep their schema and the shapes of their columns.
abbrev batch_of :
    Fields → List (DataType × ℕ) → Result ArrowError (Fields × List (DataType × ℕ) × ℕ)
batch_of fs [] = err (arrow_error "a row count or a column expected")
batch_of fs (c ∷ cs) = ok (fs, c ∷ cs, c.1)

unfoldable pub shape_batches : Batches shapes
unfolding shapes
shape_batches = record {
  RecordBatch = Fields × List (DataType × ℕ) × ℕ;
  schema = λ b. b.0;
  columns = λ b. b.1;
  num_rows = λ b. b.2;
  try_new = batch_of;
}

pub shape_batches_laws : BatchLaws shapes shape_batches
unfolding shapes shape_batches
shape_batches_laws = record {
  try_new_lem = λ n fs c cs h. (_, refl, (refl, refl, first_len n fs c cs h));
}
