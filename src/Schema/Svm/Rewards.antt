-- ===== src/Schema/Svm/Rewards.antt =====
-- svm-schema/src/lib.rs: `RewardsBuilder`.
use cherry_core.Base.{ℕ, ◌≡◌, [], ◌∷◌, Result, ok, List}
use cherry_core.Arrow.Types.{int64, uint8, uint64, binary, utf8}
use cherry_core.Arrow.Kernels.{ArrowError}
use cherry_core.Arrow.Builders.{Builders}
use cherry_core.Schema.Rows.{
  RowBuilders, RowBuilderLaws, finish_batch, finish-Finishes, IsBatch, finish_batch-IsBatch,
}
use cherry_core.Schema.Svm.{rewards_schema}

pub record RewardsBuilder (B : Builders) (R : RowBuilders B) : Type 0 where
  pub block_slot : R.Builder uint64
  pub block_hash : R.Builder binary
  pub pubkey : R.Builder binary
  pub lamports : R.Builder int64
  pub post_balance : R.Builder uint64
  pub reward_type : R.Builder utf8
  pub commission : R.Builder uint8

module _ (B : Builders) (R : RowBuilders B) where
  -- The columns, with the `unwrap`s of the precisions as errors.
  abbrev pub columns : RewardsBuilder B R → List (Result ArrowError B.Column)
  columns b =
      ok (R.finish b.block_slot)
      ∷ ok (R.finish b.block_hash)
      ∷ ok (R.finish b.pubkey)
      ∷ ok (R.finish b.lamports)
      ∷ ok (R.finish b.post_balance)
      ∷ ok (R.finish b.reward_type)
      ∷ ok (R.finish b.commission)
      ∷ []

  unfoldable pub finish : RewardsBuilder B R → Result ArrowError R.RecordBatch
  finish b = finish_batch B R rewards_schema (columns b)

  -- All builders have the same number of rows, and a nested one the type that its schema has.
  abbrev pub HasRows : ℕ → RewardsBuilder B R → Type 0
  HasRows n b =
      (R.rows b.block_slot ≡ n)
      × (R.rows b.block_hash ≡ n)
      × (R.rows b.pubkey ≡ n)
      × (R.rows b.lamports ≡ n)
      × (R.rows b.post_balance ≡ n)
      × (R.rows b.reward_type ≡ n)
      × (R.rows b.commission ≡ n)

module _ (B : Builders) (R : RowBuilders B) (laws : RowBuilderLaws B R) where
  pub finish-IsBatch :
      (n : ℕ) (b : RewardsBuilder B R)
      → HasRows B R n b
      → IsBatch B R n rewards_schema (finish B R b)
  unfolding finish
  finish-IsBatch n b h =
      finish_batch-IsBatch B R laws n rewards_schema (columns B R b) tt
        (search (h, finish-Finishes B R laws n))
