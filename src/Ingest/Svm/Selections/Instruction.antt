-- ===== src/Ingest/Svm/Selections/Instruction.antt =====
-- ingest/src/svm.rs: the field selection `InstructionFields`.
use cherry_core.Base.{Bool, true, refl, [], ◌∷◌}
use cherry_core.Ingest.Serde.{Object, asks, FieldSelection}

pub record InstructionFields : Type 0 where
  pub block_slot : Bool
  pub block_hash : Bool
  pub transaction_index : Bool
  pub instruction_address : Bool
  pub program_id : Bool
  pub a0 : Bool
  pub a1 : Bool
  pub a2 : Bool
  pub a3 : Bool
  pub a4 : Bool
  pub a5 : Bool
  pub a6 : Bool
  pub a7 : Bool
  pub a8 : Bool
  pub a9 : Bool
  pub rest_of_accounts : Bool
  pub data_ : Bool
  pub d1 : Bool
  pub d2 : Bool
  pub d4 : Bool
  pub d8 : Bool
  pub error : Bool
  pub compute_units_consumed : Bool
  pub is_committed : Bool
  pub has_dropped_log_messages : Bool

-- What `derive(Serialize)` writes.
abbrev pub to_object : InstructionFields → Object
to_object s =
    ("block_slot", s.block_slot)
    ∷ ("block_hash", s.block_hash)
    ∷ ("transaction_index", s.transaction_index)
    ∷ ("instruction_address", s.instruction_address)
    ∷ ("program_id", s.program_id)
    ∷ ("a0", s.a0)
    ∷ ("a1", s.a1)
    ∷ ("a2", s.a2)
    ∷ ("a3", s.a3)
    ∷ ("a4", s.a4)
    ∷ ("a5", s.a5)
    ∷ ("a6", s.a6)
    ∷ ("a7", s.a7)
    ∷ ("a8", s.a8)
    ∷ ("a9", s.a9)
    ∷ ("rest_of_accounts", s.rest_of_accounts)
    ∷ ("data", s.data_)
    ∷ ("d1", s.d1)
    ∷ ("d2", s.d2)
    ∷ ("d4", s.d4)
    ∷ ("d8", s.d8)
    ∷ ("error", s.error)
    ∷ ("compute_units_consumed", s.compute_units_consumed)
    ∷ ("is_committed", s.is_committed)
    ∷ ("has_dropped_log_messages", s.has_dropped_log_messages)
    ∷ []

-- What `derive(Deserialize)` with `default` reads.
abbrev pub from_object : Object → InstructionFields
from_object o = record {
  block_slot = asks "block_slot" o;
  block_hash = asks "block_hash" o;
  transaction_index = asks "transaction_index" o;
  instruction_address = asks "instruction_address" o;
  program_id = asks "program_id" o;
  a0 = asks "a0" o;
  a1 = asks "a1" o;
  a2 = asks "a2" o;
  a3 = asks "a3" o;
  a4 = asks "a4" o;
  a5 = asks "a5" o;
  a6 = asks "a6" o;
  a7 = asks "a7" o;
  a8 = asks "a8" o;
  a9 = asks "a9" o;
  rest_of_accounts = asks "rest_of_accounts" o;
  data_ = asks "data" o;
  d1 = asks "d1" o;
  d2 = asks "d2" o;
  d4 = asks "d4" o;
  d8 = asks "d8" o;
  error = asks "error" o;
  compute_units_consumed = asks "compute_units_consumed" o;
  is_committed = asks "is_committed" o;
  has_dropped_log_messages = asks "has_dropped_log_messages" o;
}

abbrev pub all : InstructionFields
all = record {
  block_slot = true;
  block_hash = true;
  transaction_index = true;
  instruction_address = true;
  program_id = true;
  a0 = true;
  a1 = true;
  a2 = true;
  a3 = true;
  a4 = true;
  a5 = true;
  a6 = true;
  a7 = true;
  a8 = true;
  a9 = true;
  rest_of_accounts = true;
  data_ = true;
  d1 = true;
  d2 = true;
  d4 = true;
  d8 = true;
  error = true;
  compute_units_consumed = true;
  is_committed = true;
  has_dropped_log_messages = true;
}

instance abbrev pub instruction_selection : FieldSelection InstructionFields
instruction_selection = record {
  keys =
      "block_slot" ∷ "block_hash" ∷ "transaction_index" ∷ "instruction_address" ∷ "program_id"
      ∷ "a0" ∷ "a1" ∷ "a2" ∷ "a3" ∷ "a4" ∷ "a5" ∷ "a6" ∷ "a7" ∷ "a8" ∷ "a9" ∷ "rest_of_accounts"
      ∷ "data" ∷ "d1" ∷ "d2" ∷ "d4" ∷ "d8" ∷ "error" ∷ "compute_units_consumed" ∷ "is_committed"
      ∷ "has_dropped_log_messages" ∷ [];
  serialize = to_object;
  deserialize = from_object;
  serialize-keys = λ s. refl;
  serialize-deserialize = λ o. refl;
}
