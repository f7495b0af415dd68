-- ===== src/Ingest/Svm/Selections/Log.antt =====
-- ingest/src/svm.rs: the field selection `LogFields`.
use cherry_core.Base.{Bool, true, refl, [], ◌∷◌}
use cherry_core.Ingest.Serde.{Object, asks, FieldSelection}

pub record LogFields : Type 0 where
  pub block_slot : Bool
  pub block_hash : Bool
  pub transaction_index : Bool
  pub log_index : Bool
  pub instruction_address : Bool
  pub program_id : Bool
  pub kind : Bool
  pub message : Bool

-- What `derive(Serialize)` writes.
abbrev pub to_object : LogFields → Object
to_object s =
    ("block_slot", s.block_slot)
    ∷ ("block_hash", s.block_hash)
    ∷ ("transaction_index", s.transaction_index)
    ∷ ("log_index", s.log_index)
    ∷ ("instruction_address", s.instruction_address)
    ∷ ("program_id", s.program_id)
    ∷ ("kind", s.kind)
    ∷ ("message", s.message)
    ∷ []

-- What `derive(Deserialize)` with `default` reads.
abbrev pub from_object : Object → LogFields
from_object o = record {
  block_slot = asks "block_slot" o;
  block_hash = asks "block_hash" o;
  transaction_index = asks "transaction_index" o;
  log_index = asks "log_index" o;
  instruction_address = asks "instruction_address" o;
  program_id = asks "program_id" o;
  kind = asks "kind" o;
  message = asks "message" o;
}

abbrev pub all : LogFields
all = record {
  block_slot = true;
  block_hash = true;
  transaction_index = true;
  log_index = true;
  instruction_address = true;
  program_id = true;
  kind = true;
  message = true;
}

instance abbrev pub log_selection : FieldSelection LogFields
log_selection = record {
  keys =
      "block_slot" ∷ "block_hash" ∷ "transaction_index" ∷ "log_index" ∷ "instruction_address"
      ∷ "program_id" ∷ "kind" ∷ "message" ∷ [];
  serialize = to_object;
  deserialize = from_object;
  serialize-keys = λ s. refl;
  serialize-deserialize = λ o. refl;
}
