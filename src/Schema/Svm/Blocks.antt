-- ===== src/Schema/Svm/Blocks.antt =====
-- svm-schema/src/lib.rs: `BlocksBuilder`.
use cherry_core.Base.{ℕ, ◌≡◌, [], ◌∷◌, Result, ok, List}
use cherry_core.Arrow.Types.{int64, uint64, binary}
use cherry_core.Arrow.Kernels.{ArrowError}
use cherry_core.Arrow.Builders.{Builders}
use cherry_core.Schema.Rows.{
  RowBuilders, RowBuilderLaws, finish_batch, finish-Finishes, IsBatch, finish_batch-IsBatch,
}
use cherry_core.Schema.Svm.{blocks_schema}

pub record BlocksBuilder (B : Builders) (R : RowBuilders B) : Type 0 where
  pub slot : R.Builder uint64
  pub hash : R.Builder binary
  pub parent_slot : R.Builder uint64
  pub parent_hash : R.Builder binary
  pub height : R.Builder uint64
  pub timestamp : R.Builder int64

module _ (B : Builders) (R : RowBuilders B) where
  -- The columns, with the `unwrap`s of the precisions as errors.
  abbrev pub columns : BlocksBuilder B R → List (Result ArrowError B.Column)
  columns b =
      ok (R.finish b.slot)
      ∷ ok (R.finish b.hash)
      ∷ ok (R.finish b.parent_slot)
      ∷ ok (R.finish b.parent_hash)
      ∷ ok (R.finish b.height)
      ∷ ok (R.finish b.timestamp)
      ∷ []

  unfoldable pub finish : BlocksBuilder B R → Result ArrowError R.RecordBatch
  finish b = finish_batch B R blocks_schema (columns b)

  -- All builders have the same number of rows, and a nested one the type that its schema has.
  abbrev pub HasRows : ℕ → BlocksBuilder B R → Type 0
  HasRows n b =
      (R.rows b.slot ≡ n)
      × (R.rows b.hash ≡ n)
      × (R.rows b.parent_slot ≡ n)
      × (R.rows b.parent_hash ≡ n)
      × (R.rows b.height ≡ n)
      × (R.rows b.timestamp ≡ n)

module _ (B : Builders) (R : RowBuilders B) (laws : RowBuilderLaws B R) where
  pub finish-IsBatch :
      (n : ℕ) (b : BlocksBuilder B R) → HasRows B R n b → IsBatch B R n blocks_schema (finish B R b)
  unfolding finish
  finish-IsBatch n b h =
      finish_batch-IsBatch B R laws n blocks_schema (columns B R b) tt
        (search (h, finish-Finishes B R laws n))
