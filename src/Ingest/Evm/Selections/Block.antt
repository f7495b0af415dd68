-- ===== src/Ingest/Evm/Selections/Block.antt =====
-- ingest/src/evm.rs: the field selection `BlockFields`.
use cherry_core.Base.{Bool, true, refl, [], ◌∷◌}
use cherry_core.Ingest.Serde.{Object, asks, FieldSelection}

pub record BlockFields : Type 0 where
  pub number : Bool
  pub hash : Bool
  pub parent_hash : Bool
  pub nonce : Bool
  pub sha3_uncles : Bool
  pub logs_bloom : Bool
  pub transactions_root : Bool
  pub state_root : Bool
  pub receipts_root : Bool
  pub miner : Bool
  pub difficulty : Bool
  pub total_difficulty : Bool
  pub extra_data : Bool
  pub size : Bool
  pub gas_limit : Bool
  pub gas_used : Bool
  pub timestamp : Bool
  pub uncles : Bool
  pub base_fee_per_gas : Bool
  pub blob_gas_used : Bool
  pub excess_blob_gas : Bool
  pub parent_beacon_block_root : Bool
  pub withdrawals_root : Bool
  pub withdrawals : Bool
  pub l1_block_number : Bool
  pub send_count : Bool
  pub send_root : Bool
  pub mix_hash : Bool

-- What `derive(Serialize)` writes.
abbrev pub to_object : BlockFields → Object
to_object s =
    ("number", s.number)
    ∷ ("hash", s.hash)
    ∷ ("parent_hash", s.parent_hash)
    ∷ ("nonce", s.nonce)
    ∷ ("sha3_uncles", s.sha3_uncles)
    ∷ ("logs_bloom", s.logs_bloom)
    ∷ ("transactions_root", s.transactions_root)
    ∷ ("state_root", s.state_root)
    ∷ ("receipts_root", s.receipts_root)
    ∷ ("miner", s.miner)
    ∷ ("difficulty", s.difficulty)
    ∷ ("total_difficulty", s.total_difficulty)
    ∷ ("extra_data", s.extra_data)
    ∷ ("size", s.size)
    ∷ ("gas_limit", s.gas_limit)
    ∷ ("gas_used", s.gas_used)
    ∷ ("timestamp", s.timestamp)
    ∷ ("uncles", s.uncles)
    ∷ ("base_fee_per_gas", s.base_fee_per_gas)
    ∷ ("blob_gas_used", s.blob_gas_used)
    ∷ ("excess_blob_gas", s.excess_blob_gas)
    ∷ ("parent_beacon_block_root", s.parent_beacon_block_root)
    ∷ ("withdrawals_root", s.withdrawals_root)
    ∷ ("withdrawals", s.withdrawals)
    ∷ ("l1_block_number", s.l1_block_number)
    ∷ ("send_count", s.send_count)
    ∷ ("send_root", s.send_root)
    ∷ ("mix_hash", s.mix_hash)
    ∷ []

-- What `derive(Deserialize)` with `default` reads.
abbrev pub from_object : Object → BlockFields
from_object o = record {
  number = asks "number" o;
  hash = asks "hash" o;
  parent_hash = asks "parent_hash" o;
  nonce = asks "nonce" o;
  sha3_uncles = asks "sha3_uncles" o;
  logs_bloom = asks "logs_bloom" o;
  transactions_root = asks "transactions_root" o;
  state_root = asks "state_root" o;
  receipts_root = asks "receipts_root" o;
  miner = asks "miner" o;
  difficulty = asks "difficulty" o;
  total_difficulty = asks "total_difficulty" o;
  extra_data = asks "extra_data" o;
  size = asks "size" o;
  gas_limit = asks "gas_limit" o;
  gas_used = asks "gas_used" o;
  timestamp = asks "timestamp" o;
  uncles = asks "uncles" o;
  base_fee_per_gas = asks "base_fee_per_gas" o;
  blob_gas_used = asks "blob_gas_used" o;
  excess_blob_gas = asks "excess_blob_gas" o;
  parent_beacon_block_root = asks "parent_beacon_block_root" o;
  withdrawals_root = asks "withdrawals_root" o;
  withdrawals = asks "withdrawals" o;
  l1_block_number = asks "l1_block_number" o;
  send_count = asks "send_count" o;
  send_root = asks "send_root" o;
  mix_hash = asks "mix_hash" o;
}

abbrev pub all : BlockFields
all = record {
  number = true;
  hash = true;
  parent_hash = true;
  nonce = true;
  sha3_uncles = true;
  logs_bloom = true;
  transactions_root = true;
  state_root = true;
  receipts_root = true;
  miner = true;
  difficulty = true;
  total_difficulty = true;
  extra_data = true;
  size = true;
  gas_limit = true;
  gas_used = true;
  timestamp = true;
  uncles = true;
  base_fee_per_gas = true;
  blob_gas_used = true;
  excess_blob_gas = true;
  parent_beacon_block_root = true;
  withdrawals_root = true;
  withdrawals = true;
  l1_block_number = true;
  send_count = true;
  send_root = true;
  mix_hash = true;
}

instance abbrev pub block_selection : FieldSelection BlockFields
block_selection = record {
  keys =
      "number" ∷ "hash" ∷ "parent_hash" ∷ "nonce" ∷ "sha3_uncles" ∷ "logs_bloom"
      ∷ "transactions_root" ∷ "state_root" ∷ "receipts_root" ∷ "miner" ∷ "difficulty"
      ∷ "total_difficulty" ∷ "extra_data" ∷ "size" ∷ "gas_limit" ∷ "gas_used" ∷ "timestamp"
      ∷ "uncles" ∷ "base_fee_per_gas" ∷ "blob_gas_used" ∷ "excess_blob_gas"
      ∷ "parent_beacon_block_root" ∷ "withdrawals_root" ∷ "withdrawals" ∷ "l1_block_number"
      ∷ "send_count" ∷ "send_root" ∷ "mix_hash" ∷ [];
  serialize = to_object;
  deserialize = from_object;
  serialize-keys = λ s. refl;
  serialize-deserialize = λ o. refl;
}
