-- ===== src/Schema/Svm/TokenBalances.antt =====
-- svm-schema/src/lib.rs: `TokenBalancesBuilder`.
use cherry_core.Base.{ℕ, ◌≡◌, [], ◌∷◌, Result, ok, List}
use cherry_core.Arrow.Types.{uint16, uint32, uint64, binary}
use cherry_core.Arrow.Kernels.{ArrowError}
use cherry_core.Arrow.Builders.{Builders}
use cherry_core.Schema.Rows.{
  RowBuilders, RowBuilderLaws, finish_batch, finish-Finishes, IsBatch, finish_batch-IsBatch,
}
use cherry_core.Schema.Svm.{token_balances_schema}

pub record TokenBalancesBuilder (B : Builders) (R : RowBuilders B) : Type 0 where
  pub block_slot : R.Builder uint64
  pub block_hash : R.Builder binary
  pub transaction_index : R.Builder uint32
  pub account : R.Builder binary
  pub pre_mint : R.Builder binary
  pub post_mint : R.Builder binary
  pub pre_decimals : R.Builder uint16
  pub post_decimals : R.Builder uint16
  pub pre_program_id : R.Builder binary
  pub post_program_id : R.Builder binary
  pub pre_owner : R.Builder binary
  pub post_owner : R.Builder binary
  pub pre_amount : R.Builder uint64
  pub post_amount : R.Builder uint64

module _ (B : Builders) (R : RowBuilders B) where
  -- The columns, with the `unwrap`s of the precisions as errors.
  abbrev pub columns : TokenBalancesBuilder B R → List (Result ArrowError B.Column)
  columns b =
      ok (R.finish b.block_slot)
      ∷ ok (R.finish b.block_hash)
      ∷ ok (R.finish b.transaction_index)
      ∷ ok (R.finish b.account)
      ∷ ok (R.finish b.pre_mint)
      ∷ ok (R.finish b.post_mint)
      ∷ ok (R.finish b.pre_decimals)
      ∷ ok (R.finish b.post_decimals)
      ∷ ok (R.finish b.pre_program_id)
      ∷ ok (R.finish b.post_program_id)
      ∷ ok (R.finish b.pre_owner)
      ∷ ok (R.finish b.post_owner)
      ∷ ok (R.finish b.pre_amount)
      ∷ ok (R.finish b.post_amount)
      ∷ []

  unfoldable pub finish : TokenBalancesBuilder B R → Result ArrowError R.RecordBatch
  finish b = finish_batch B R token_balances_schema (columns b)

  -- All builders have the same number of rows, and a nested one the type that its schema has.
  abbrev pub HasRows : ℕ → TokenBalancesBuilder B R → Type 0
  HasRows n b =
      (R.rows b.block_slot ≡ n)
      × (R.rows b.block_hash ≡ n)
      × (R.rows b.transaction_index ≡ n)
      × (R.rows b.account ≡ n)
      × (R.rows b.pre_mint ≡ n)
      × (R.rows b.post_mint ≡ n)
      × (R.rows b.pre_decimals ≡ n)
      × (R.rows b.post_decimals ≡ n)
      × (R.rows b.pre_program_id ≡ n)
      × (R.rows b.post_program_id ≡ n)
      × (R.rows b.pre_owner ≡ n)
      × (R.rows b.post_owner ≡ n)
      × (R.rows b.pre_amount ≡ n)
      × (R.rows b.post_amount ≡ n)

module _ (B : Builders) (R : RowBuilders B) (laws : RowBuilderLaws B R) where
  pub finish-IsBatch :
      (n : ℕ) (b : TokenBalancesBuilder B R)
      → HasRows B R n b
      → IsBatch B R n token_balances_schema (finish B R b)
  unfolding finish
  finish-IsBatch n b h =
      finish_batch-IsBatch B R laws n token_balances_schema (columns B R b) tt
        (search (h, finish-Finishes B R laws n))
