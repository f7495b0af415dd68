-- ===== src/Ingest/Evm/Selections/Transaction.antt =====
-- ingest/src/evm.rs: the field selection `TransactionFields`.
use cherry_core.Base.{Bool, true, refl, [], ◌∷◌}
use cherry_core.Ingest.Serde.{Object, asks, FieldSelection}

pub record TransactionFields : Type 0 where
  pub block_hash : Bool
  pub block_number : Bool
  pub from_ : Bool
  pub gas : Bool
  pub gas_price : Bool
  pub hash : Bool
  pub input : Bool
  pub nonce : Bool
  pub to : Bool
  pub transaction_index : Bool
  pub value : Bool
  pub v : Bool
  pub r : Bool
  pub s : Bool
  pub max_priority_fee_per_gas : Bool
  pub max_fee_per_gas : Bool
  pub chain_id : Bool
  pub cumulative_gas_used : Bool
  pub effective_gas_price : Bool
  pub gas_used : Bool
  pub contract_address : Bool
  pub logs_bloom : Bool
  pub type_ : Bool
  pub root : Bool
  pub status : Bool
  pub sighash : Bool
  pub y_parity : Bool
  pub access_list : Bool
  pub l1_fee : Bool
  pub l1_gas_price : Bool
  pub l1_fee_scalar : Bool
  pub gas_used_for_l1 : Bool
  pub max_fee_per_blob_gas : Bool
  pub blob_versioned_hashes : Bool
  pub deposit_nonce : Bool
  pub blob_gas_price : Bool
  pub deposit_receipt_version : Bool
  pub blob_gas_used : Bool
  pub l1_base_fee_scalar : Bool
  pub l1_blob_base_fee : Bool
  pub l1_blob_base_fee_scalar : Bool
  pub l1_block_number : Bool
  pub mint : Bool
  pub source_hash : Bool

-- What `derive(Serialize)` writes.
abbrev pub to_object : TransactionFields → Object
to_object s =
    ("block_hash", s.block_hash)
    ∷ ("block_number", s.block_number)
    ∷ ("from", s.from_)
    ∷ ("gas", s.gas)
    ∷ ("gas_price", s.gas_price)
    ∷ ("hash", s.hash)
    ∷ ("input", s.input)
    ∷ ("nonce", s.nonce)
    ∷ ("to", s.to)
    ∷ ("transaction_index", s.transaction_index)
    ∷ ("value", s.value)
    ∷ ("v", s.v)
    ∷ ("r", s.r)
    ∷ ("s", s.s)
    ∷ ("max_priority_fee_per_gas", s.max_priority_fee_per_gas)
    ∷ ("max_fee_per_gas", s.max_fee_per_gas)
    ∷ ("chain_id", s.chain_id)
    ∷ ("cumulative_gas_used", s.cumulative_gas_used)
    ∷ ("effective_gas_price", s.effective_gas_price)
    ∷ ("gas_used", s.gas_used)
    ∷ ("contract_address", s.contract_address)
    ∷ ("logs_bloom", s.logs_bloom)
    ∷ ("type", s.type_)
    ∷ ("root", s.root)
    ∷ ("status", s.status)
    ∷ ("sighash", s.sighash)
    ∷ ("y_parity", s.y_parity)
    ∷ ("access_list", s.access_list)
    ∷ ("l1_fee", s.l1_fee)
    ∷ ("l1_gas_price", s.l1_gas_price)
    ∷ ("l1_fee_scalar", s.l1_fee_scalar)
    ∷ ("gas_used_for_l1", s.gas_used_for_l1)
    ∷ ("max_fee_per_blob_gas", s.max_fee_per_blob_gas)
    ∷ ("blob_versioned_hashes", s.blob_versioned_hashes)
    ∷ ("deposit_nonce", s.deposit_nonce)
    ∷ ("blob_gas_price", s.blob_gas_price)
    ∷ ("deposit_receipt_version", s.deposit_receipt_version)
    ∷ ("blob_gas_used", s.blob_gas_used)
    ∷ ("l1_base_fee_scalar", s.l1_base_fee_scalar)
    ∷ ("l1_blob_base_fee", s.l1_blob_base_fee)
    ∷ ("l1_blob_base_fee_scalar", s.l1_blob_base_fee_scalar)
    ∷ ("l1_block_number", s.l1_block_number)
    ∷ ("mint", s.mint)
    ∷ ("source_hash", s.source_hash)
    ∷ []

-- What `derive(Deserialize)` with `default` reads.
abbrev pub from_object : Object → TransactionFields
from_object o = record {
  block_hash = asks "block_hash" o;
  block_number = asks "block_number" o;
  from_ = asks "from" o;
  gas = asks "gas" o;
  gas_price = asks "gas_price" o;
  hash = asks "hash" o;
  input = asks "input" o;
  nonce = asks "nonce" o;
  to = asks "to" o;
  transaction_index = asks "transaction_index" o;
  value = asks "value" o;
  v = asks "v" o;
  r = asks "r" o;
  s = asks "s" o;
  max_priority_fee_per_gas = asks "max_priority_fee_per_gas" o;
  max_fee_per_gas = asks "max_fee_per_gas" o;
  chain_id = asks "chain_id" o;
  cumulative_gas_used = asks "cumulative_gas_used" o;
  effective_gas_price = asks "effective_gas_price" o;
  gas_used = asks "gas_used" o;
  contract_address = asks "contract_address" o;
  logs_bloom = asks "logs_bloom" o;
  type_ = asks "type" o;
  root = asks "root" o;
  status = asks "status" o;
  sighash = asks "sighash" o;
  y_parity = asks "y_parity" o;
  access_list = asks "access_list" o;
  l1_fee = asks "l1_fee" o;
  l1_gas_price = asks "l1_gas_price" o;
  l1_fee_scalar = asks "l1_fee_scalar" o;
  gas_used_for_l1 = asks "gas_used_for_l1" o;
  max_fee_per_blob_gas = asks "max_fee_per_blob_gas" o;
  blob_versioned_hashes = asks "blob_versioned_hashes" o;
  deposit_nonce = asks "deposit_nonce" o;
  blob_gas_price = asks "blob_gas_price" o;
  deposit_receipt_version = asks "deposit_receipt_version" o;
  blob_gas_used = asks "blob_gas_used" o;
  l1_base_fee_scalar = asks "l1_base_fee_scalar" o;
  l1_blob_base_fee = asks "l1_blob_base_fee" o;
  l1_blob_base_fee_scalar = asks "l1_blob_base_fee_scalar" o;
  l1_block_number = asks "l1_block_number" o;
  mint = asks "mint" o;
  source_hash = asks "source_hash" o;
}

abbrev pub all : TransactionFields
all = record {
  block_hash = true;
  block_number = true;
  from_ = true;
  gas = true;
  gas_price = true;
  hash = true;
  input = true;
  nonce = true;
  to = true;
  transaction_index = true;
  value = true;
  v = true;
  r = true;
  s = true;
  max_priority_fee_per_gas = true;
  max_fee_per_gas = true;
  chain_id = true;
  cumulative_gas_used = true;
  effective_gas_price = true;
  gas_used = true;
  contract_address = true;
  logs_bloom = true;
  type_ = true;
  root = true;
  status = true;
  sighash = true;
  y_parity = true;
  access_list = true;
  l1_fee = true;
  l1_gas_price = true;
  l1_fee_scalar = true;
  gas_used_for_l1 = true;
  max_fee_per_blob_gas = true;
  blob_versioned_hashes = true;
  deposit_nonce = true;
  blob_gas_price = true;
  deposit_receipt_version = true;
  blob_gas_used = true;
  l1_base_fee_scalar = true;
  l1_blob_base_fee = true;
  l1_blob_base_fee_scalar = true;
  l1_block_number = true;
  mint = true;
  source_hash = true;
}

instance abbrev pub transaction_selection : FieldSelection TransactionFields
transaction_selection = record {
  keys =
      "block_hash" ∷ "block_number" ∷ "from" ∷ "gas" ∷ "gas_price" ∷ "hash" ∷ "input" ∷ "nonce"
      ∷ "to" ∷ "transaction_index" ∷ "value" ∷ "v" ∷ "r" ∷ "s" ∷ "max_priority_fee_per_gas"
      ∷ "max_fee_per_gas" ∷ "chain_id" ∷ "cumulative_gas_used" ∷ "effective_gas_price" ∷ "gas_used"
      ∷ "contract_address" ∷ "logs_bloom" ∷ "type" ∷ "root" ∷ "status" ∷ "sighash" ∷ "y_parity"
      ∷ "access_list" ∷ "l1_fee" ∷ "l1_gas_price" ∷ "l1_fee_scalar" ∷ "gas_used_for_l1"
      ∷ "max_fee_per_blob_gas" ∷ "blob_versioned_hashes" ∷ "deposit_nonce" ∷ "blob_gas_price"
      ∷ "deposit_receipt_version" ∷ "blob_gas_used" ∷ "l1_base_fee_scalar" ∷ "l1_blob_base_fee"
      ∷ "l1_blob_base_fee_scalar" ∷ "l1_block_number" ∷ "mint" ∷ "source_hash" ∷ [];
  serialize = to_object;
  deserialize = from_object;
  serialize-keys = λ s. refl;
  serialize-deserialize = λ o. refl;
}
