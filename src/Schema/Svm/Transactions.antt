-- ===== src/Schema/Svm/Transactions.antt =====
-- svm-schema/src/lib.rs: `TransactionsBuilder`.
use cherry_core.Base.{ℕ, ◌≡◌, [], ◌∷◌, Result, ok, true, List}
use cherry_core.Arrow.Types.{field, list, boolean, int8, uint32, uint64, binary, utf8}
use cherry_core.Arrow.Kernels.{ArrowError}
use cherry_core.Arrow.Builders.{Builders}
use cherry_core.Schema.Rows.{
  RowBuilders, RowBuilderLaws, finish_batch, finish-Finishes, struct_list-Finishes, IsBatch,
  finish_batch-IsBatch,
}
use cherry_core.Schema.Svm.{transactions_schema, address_table_lookup_dt}

pub record TransactionsBuilder (B : Builders) (R : RowBuilders B) : Type 0 where
  pub block_slot : R.Builder uint64
  pub block_hash : R.Builder binary
  pub transaction_index : R.Builder uint32
  pub signature : R.Builder binary
  pub version : R.Builder int8
  pub account_keys : R.Builder (list (field "item" binary true))
  pub address_table_lookups : R.StructListBuilder
  pub num_readonly_signed_accounts : R.Builder uint32
  pub num_readonly_unsigned_accounts : R.Builder uint32
  pub num_required_signatures : R.Builder uint32
  pub recent_blockhash : R.Builder binary
  pub signatures : R.Builder (list (field "item" binary true))
  pub err : R.Builder utf8
  pub fee : R.Builder uint64
  pub compute_units_consumed : R.Builder uint64
  pub loaded_readonly_addresses : R.Builder (list (field "item" binary true))
  pub loaded_writable_addresses : R.Builder (list (field "item" binary true))
  pub fee_payer : R.Builder binary
  pub has_dropped_log_messages : R.Builder boolean

module _ (B : Builders) (R : RowBuilders B) where
  -- The columns, with the `unwrap`s of the precisions as errors.
  abbrev pub columns : TransactionsBuilder B R → List (Result ArrowError B.Column)
  columns b =
      ok (R.finish b.block_slot)
      ∷ ok (R.finish b.block_hash)
      ∷ ok (R.finish b.transaction_index)
      ∷ ok (R.finish b.signature)
      ∷ ok (R.finish b.version)
      ∷ ok (R.finish b.account_keys)
      ∷ ok (R.struct_list_finish b.address_table_lookups)
      ∷ ok (R.finish b.num_readonly_signed_accounts)
      ∷ ok (R.finish b.num_readonly_unsigned_accounts)
      ∷ ok (R.finish b.num_required_signatures)
      ∷ ok (R.finish b.recent_blockhash)
      ∷ ok (R.finish b.signatures)
      ∷ ok (R.finish b.err)
      ∷ ok (R.finish b.fee)
      ∷ ok (R.finish b.compute_units_consumed)
      ∷ ok (R.finish b.loaded_readonly_addresses)
      ∷ ok (R.finish b.loaded_writable_addresses)
      ∷ ok (R.finish b.fee_payer)
      ∷ ok (R.finish b.has_dropped_log_messages)
      ∷ []

  unfoldable pub finish : TransactionsBuilder B R → Result ArrowError R.RecordBatch
  finish b = finish_batch B R transactions_schema (columns b)

  -- All builders have the same number of rows, and a nested one the type that its schema has.
  abbrev pub HasRows : ℕ → TransactionsBuilder B R → Type 0
  HasRows n b =
      (R.rows b.block_slot ≡ n)
      × (R.rows b.block_hash ≡ n)
      × (R.rows b.transaction_index ≡ n)
      × (R.rows b.signature ≡ n)
      × (R.rows b.version ≡ n)
      × (R.rows b.account_keys ≡ n)
      × (R.struct_list_rows b.address_table_lookups ≡ n)
      × (R.rows b.num_readonly_signed_accounts ≡ n)
      × (R.rows b.num_readonly_unsigned_accounts ≡ n)
      × (R.rows b.num_required_signatures ≡ n)
      × (R.rows b.recent_blockhash ≡ n)
      × (R.rows b.signatures ≡ n)
      × (R.rows b.err ≡ n)
      × (R.rows b.fee ≡ n)
      × (R.rows b.compute_units_consumed ≡ n)
      × (R.rows b.loaded_readonly_addresses ≡ n)
      × (R.rows b.loaded_writable_addresses ≡ n)
      × (R.rows b.fee_payer ≡ n)
      × (R.rows b.has_dropped_log_messages ≡ n)
      × (R.struct_list_type b.address_table_lookups
          ≡ (list (field "item" address_table_lookup_dt true)))

module _ (B : Builders) (R : RowBuilders B) (laws : RowBuilderLaws B R) where
  pub finish-IsBatch :
      (n : ℕ) (b : TransactionsBuilder B R)
      → HasRows B R n b
      → IsBatch B R n transactions_schema (finish B R b)
  unfolding finish
  finish-IsBatch n b h =
      finish_batch-IsBatch B R laws n transactions_schema (columns B R b) tt
        (search (h, finish-Finishes B R laws n, struct_list-Finishes B R laws n))
