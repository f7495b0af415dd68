-- ===== src/Ingest/Evm/Selections/Log.antt =====
-- ingest/src/evm.rs: the field selection `LogFields`.
use cherry_core.Base.{Bool, true, refl, [], ◌∷◌}
use cherry_core.Ingest.Serde.{Object, asks, FieldSelection}

pub record LogFields : Type 0 where
  pub removed : Bool
  pub log_index : Bool
  pub transaction_index : Bool
  pub transaction_hash : Bool
  pub block_hash : Bool
  pub block_number : Bool
  pub address : Bool
  pub data_ : Bool
  pub topic0 : Bool
  pub topic1 : Bool
  pub topic2 : Bool
  pub topic3 : Bool

-- What `derive(Serialize)` writes.
abbrev pub to_object : LogFields → Object
to_object s =
    ("removed", s.removed)
    ∷ ("log_index", s.log_index)
    ∷ ("transaction_index", s.transaction_index)
    ∷ ("transaction_hash", s.transaction_hash)
    ∷ ("block_hash", s.block_hash)
    ∷ ("block_number", s.block_number)
    ∷ ("address", s.address)
    ∷ ("data", s.data_)
    ∷ ("topic0", s.topic0)
    ∷ ("topic1", s.topic1)
    ∷ ("topic2", s.topic2)
    ∷ ("topic3", s.topic3)
    ∷ []

-- What `derive(Deserialize)` with `default` reads.
abbrev pub from_object : Object → LogFields
from_object o = record {
  removed = asks "removed" o;
  log_index = asks "log_index" o;
  transaction_index = asks "transaction_index" o;
  transaction_hash = asks "transaction_hash" o;
  block_hash = asks "block_hash" o;
  block_number = asks "block_number" o;
  address = asks "address" o;
  data_ = asks "data" o;
  topic0 = asks "topic0" o;
  topic1 = asks "topic1" o;
  topic2 = asks "topic2" o;
  topic3 = asks "topic3" o;
}

abbrev pub all : LogFields
all = record {
  removed = true;
  log_index = true;
  transaction_index = true;
  transaction_hash = true;
  block_hash = true;
  block_number = true;
  address = true;
  data_ = true;
  topic0 = true;
  topic1 = true;
  topic2 = true;
  topic3 = true;
}

instance abbrev pub log_selection : FieldSelection LogFields
log_selection = record {
  keys =
      "removed" ∷ "log_index" ∷ "transaction_index" ∷ "transaction_hash" ∷ "block_hash"
      ∷ "block_number" ∷ "address" ∷ "data" ∷ "topic0" ∷ "topic1" ∷ "topic2" ∷ "topic3" ∷ [];
  serialize = to_object;
  deserialize = from_object;
  serialize-keys = λ s. refl;
  serialize-deserialize = λ o. refl;
}
