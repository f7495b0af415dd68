-- ===== src/Arrow/Batches.antt =====
-- `RecordBatch` of the arrow crate for columns that are built: what is used of it, with the law that its
-- documentation states.
use cherry_core.Base.{ℕ, ◌≡◌, List, ◌∷◌, Result, ok}
use cherry_core.Arrow.Types.{Fields}
use cherry_core.Arrow.Kernels.{ArrowError}
use cherry_core.Arrow.Builders.{Builders, ColumnsFit}

pub record Batches (B : Builders) : Type 1 where
  pub RecordBatch : Type 0
  pub schema : RecordBatch → Fields
  pub columns : RecordBatch → List B.Column
  pub num_rows : RecordBatch → ℕ
  -- RecordBatch::try_new(schema, columns)
  pub try_new : Fields → List B.Column → Result ArrowError RecordBatch

module _ (B : Builders) (T : Batches B) where
  -- The batch of a schema and of columns that fit it.
  abbrev pub IsBatchOf : ℕ → Fields → List B.Column → T.RecordBatch → Type 0
  IsBatchOf n fs cs batch = (T.schema batch ≡ fs) × (T.columns batch ≡ cs) × (T.num_rows batch ≡ n)

  pub record BatchLaws : Type 0 where
    -- A record batch without columns is refused, as it has no row count.
    pub try_new_lem :
        (n : ℕ) (fs : Fields) (c : B.Column) (cs : List B.Column)
        → ColumnsFit B n fs (c ∷ cs)
        → (batch : T.RecordBatch) × (T.try_new fs (c ∷ cs) ≡ ok batch)
          × IsBatchOf n fs (c ∷ cs) batch
