-- ===== src/Ingest/Svm/Selections/Transaction.antt =====
-- ingest/src/svm.rs: the field selection `TransactionFields`.
use cherry_core.Base.{Bool, true, refl, [], ◌∷◌}
use cherry_core.Ingest.Serde.{Object, asks, FieldSelection}

pub record TransactionFields : Type 0 where
  pub block_slot : Bool
  pub block_hash : Bool
  pub transaction_index : Bool
  pub signature : Bool
  pub version : Bool
  pub account_keys : Bool
  pub address_table_lookups : Bool
  pub num_readonly_signed_accounts : Bool
  pub num_readonly_unsigned_accounts : Bool
  pub num_required_signatures : Bool
  pub recent_blockhash : Bool
  pub signatures : Bool
  pub err : Bool
  pub fee : Bool
  pub compute_units_consumed : Bool
  pub loaded_readonly_addresses : Bool
  pub loaded_writable_addresses : Bool
  pub fee_payer : Bool
  pub has_dropped_log_messages : Bool

-- What `derive(Serialize)` writes.
abbrev pub to_object : TransactionFields → Object
to_object s =
    ("block_slot", s.block_slot)
    ∷ ("block_hash", s.block_hash)
    ∷ ("transaction_index", s.transaction_index)
    ∷ ("signature", s.signature)
    ∷ ("version", s.version)
    ∷ ("account_keys", s.account_keys)
    ∷ ("address_table_lookups", s.address_table_lookups)
    ∷ ("num_readonly_signed_accounts", s.num_readonly_signed_accounts)
    ∷ ("num_readonly_unsigned_accounts", s.num_readonly_unsigned_accounts)
    ∷ ("num_required_signatures", s.num_required_signatures)
    ∷ ("recent_blockhash", s.recent_blockhash)
    ∷ ("signatures", s.signatures)
    ∷ ("err", s.err)
    ∷ ("fee", s.fee)
    ∷ ("compute_units_consumed", s.compute_units_consumed)
    ∷ ("loaded_readonly_addresses", s.loaded_readonly_addresses)
    ∷ ("loaded_writable_addresses", s.loaded_writable_addresses)
    ∷ ("fee_payer", s.fee_payer)
    ∷ ("has_dropped_log_messages", s.has_dropped_log_messages)
    ∷ []

-- What `derive(Deserialize)` with `default` reads.
abbrev pub from_object : Object → TransactionFields
from_object o = record {
  block_slot = asks "block_slot" o;
  block_hash = asks "block_hash" o;
  transaction_index = asks "transaction_index" o;
  signature = asks "signature" o;
  version = asks "version" o;
  account_keys = asks "account_keys" o;
  address_table_lookups = asks "address_table_lookups" o;
  num_readonly_signed_accounts = asks "num_readonly_signed_accounts" o;
  num_readonly_unsigned_accounts = asks "num_readonly_unsigned_accounts" o;
  num_required_signatures = asks "num_required_signatures" o;
  recent_blockhash = asks "recent_blockhash" o;
  signatures = asks "signatures" o;
  err = asks "err" o;
  fee = asks "fee" o;
  compute_units_consumed = asks "compute_units_consumed" o;
  loaded_readonly_addresses = asks "loaded_readonly_addresses" o;
  loaded_writable_addresses = asks "loaded_writable_addresses" o;
  fee_payer = asks "fee_payer" o;
  has_dropped_log_messages = asks "has_dropped_log_messages" o;
}

abbrev pub all : TransactionFields
all = record {
  block_slot = true;
  block_hash = true;
  transaction_index = true;
  signature = true;
  version = true;
  account_keys = true;
  address_table_lookups = true;
  num_readonly_signed_accounts = true;
  num_readonly_unsigned_accounts = true;
  num_required_signatures = true;
  recent_blockhash = true;
  signatures = true;
  err = true;
  fee = true;
  compute_units_consumed = true;
  loaded_readonly_addresses = true;
  loaded_writable_addresses = true;
  fee_payer = true;
  has_dropped_log_messages = true;
}

instance abbrev pub transaction_selection : FieldSelection TransactionFields
transaction_selection = record {
  keys =
      "block_slot" ∷ "block_hash" ∷ "transaction_index" ∷ "signature" ∷ "version" ∷ "account_keys"
      ∷ "address_table_lookups" ∷ "num_readonly_signed_accounts" ∷ "num_readonly_unsigned_accounts"
      ∷ "num_required_signatures" ∷ "recent_blockhash" ∷ "signatures" ∷ "err" ∷ "fee"
      ∷ "compute_units_consumed" ∷ "loaded_readonly_addresses" ∷ "loaded_writable_addresses"
      ∷ "fee_payer" ∷ "has_dropped_log_messages" ∷ [];
  serialize = to_object;
  deserialize = from_object;
  serialize-keys = λ s. refl;
  serialize-deserialize = λ o. refl;
}
