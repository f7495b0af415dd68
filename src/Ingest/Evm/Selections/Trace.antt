-- ===== src/Ingest/Evm/Selections/Trace.antt =====
-- ingest/src/evm.rs: the field selection `TraceFields`.
use cherry_core.Base.{Bool, true, refl, [], ◌∷◌}
use cherry_core.Ingest.Serde.{Object, asks, FieldSelection}

pub record TraceFields : Type 0 where
  pub from_ : Bool
  pub to : Bool
  pub call_type : Bool
  pub gas : Bool
  pub input : Bool
  pub init : Bool
  pub value : Bool
  pub author : Bool
  pub reward_type : Bool
  pub block_hash : Bool
  pub block_number : Bool
  pub address : Bool
  pub code : Bool
  pub gas_used : Bool
  pub output : Bool
  pub subtraces : Bool
  pub trace_address : Bool
  pub transaction_hash : Bool
  pub transaction_position : Bool
  pub type_ : Bool
  pub error : Bool
  pub sighash : Bool
  pub action_address : Bool
  pub balance : Bool
  pub refund_address : Bool

-- What `derive(Serialize)` writes.
abbrev pub to_object : TraceFields → Object
to_object s =
    ("from", s.from_)
    ∷ ("to", s.to)
    ∷ ("call_type", s.call_type)
    ∷ ("gas", s.gas)
    ∷ ("input", s.input)
    ∷ ("init", s.init)
    ∷ ("value", s.value)
    ∷ ("author", s.author)
    ∷ ("reward_type", s.reward_type)
    ∷ ("block_hash", s.block_hash)
    ∷ ("block_number", s.block_number)
    ∷ ("address", s.address)
    ∷ ("code", s.code)
    ∷ ("gas_used", s.gas_used)
    ∷ ("output", s.output)
    ∷ ("subtraces", s.subtraces)
    ∷ ("trace_address", s.trace_address)
    ∷ ("transaction_hash", s.transaction_hash)
    ∷ ("transaction_position", s.transaction_position)
    ∷ ("type", s.type_)
    ∷ ("error", s.error)
    ∷ ("sighash", s.sighash)
    ∷ ("action_address", s.action_address)
    ∷ ("balance", s.balance)
    ∷ ("refund_address", s.refund_address)
    ∷ []

-- What `derive(Deserialize)` with `default` reads.
abbrev pub from_object : Object → TraceFields
from_object o = record {
  from_ = asks "from" o;
  to = asks "to" o;
  call_type = asks "call_type" o;
  gas = asks "gas" o;
  input = asks "input" o;
  init = asks "init" o;
  value = asks "value" o;
  author = asks "author" o;
  reward_type = asks "reward_type" o;
  block_hash = asks "block_hash" o;
  block_number = asks "block_number" o;
  address = asks "address" o;
  code = asks "code" o;
  gas_used = asks "gas_used" o;
  output = asks "output" o;
  subtraces = asks "subtraces" o;
  trace_address = asks "trace_address" o;
  transaction_hash = asks "transaction_hash" o;
  transaction_position = asks "transaction_position" o;
  type_ = asks "type" o;
  error = asks "error" o;
  sighash = asks "sighash" o;
  action_address = asks "action_address" o;
  balance = asks "balance" o;
  refund_address = asks "refund_address" o;
}

abbrev pub all : TraceFields
all = record {
  from_ = true;
  to = true;
  call_type = true;
  gas = true;
  input = true;
  init = true;
  value = true;
  author = true;
  reward_type = true;
  block_hash = true;
  block_number = true;
  address = true;
  code = true;
  gas_used = true;
  output = true;
  subtraces = true;
  trace_address = true;
  transaction_hash = true;
  transaction_position = true;
  type_ = true;
  error = true;
  sighash = true;
  action_address = true;
  balance = true;
  refund_address = true;
}

instance abbrev pub trace_selection : FieldSelection TraceFields
trace_selection = record {
  keys =
      "from" ∷ "to" ∷ "call_type" ∷ "gas" ∷ "input" ∷ "init" ∷ "value" ∷ "author" ∷ "reward_type"
      ∷ "block_hash" ∷ "block_number" ∷ "address" ∷ "code" ∷ "gas_used" ∷ "output" ∷ "subtraces"
      ∷ "trace_address" ∷ "transaction_hash" ∷ "transaction_position" ∷ "type" ∷ "error" ∷ "sighash"
      ∷ "action_address" ∷ "balance" ∷ "refund_address" ∷ [];
  serialize = to_object;
  deserialize = from_object;
  serialize-keys = λ s. refl;
  serialize-deserialize = λ o. refl;
}
