-- ===== src/Ingest/Svm/Selections/TokenBalance.antt =====
-- ingest/src/svm.rs: the field selection `TokenBalanceFields`.
use cherry_core.Base.{Bool, true, refl, [], ◌∷◌}
use cherry_core.Ingest.Serde.{Object, asks, FieldSelection}

pub record TokenBalanceFields : Type 0 where
  pub block_slot : Bool
  pub block_hash : Bool
  pub transaction_index : Bool
  pub account : Bool
  pub pre_mint : Bool
  pub post_mint : Bool
  pub pre_decimals : Bool
  pub post_decimals : Bool
  pub pre_program_id : Bool
  pub post_program_id : Bool
  pub pre_owner : Bool
  pub post_owner : Bool
  pub pre_amount : Bool
  pub post_amount : Bool

-- What `derive(Serialize)` writes.
abbrev pub to_object : TokenBalanceFields → Object
to_object s =
    ("block_slot", s.block_slot)
    ∷ ("block_hash", s.block_hash)
    ∷ ("transaction_index", s.transaction_index)
    ∷ ("account", s.account)
    ∷ ("pre_mint", s.pre_mint)
    ∷ ("post_mint", s.post_mint)
    ∷ ("pre_decimals", s.pre_decimals)
    ∷ ("post_decimals", s.post_decimals)
    ∷ ("pre_program_id", s.pre_program_id)
    ∷ ("post_program_id", s.post_program_id)
    ∷ ("pre_owner", s.pre_owner)
    ∷ ("post_owner", s.post_owner)
    ∷ ("pre_amount", s.pre_amount)
    ∷ ("post_amount", s.post_amount)
    ∷ []

-- What `derive(Deserialize)` with `default` reads.
abbrev pub from_object : Object → TokenBalanceFields
from_object o = record {
  block_slot = asks "block_slot" o;
  block_hash = asks "block_hash" o;
  transaction_index = asks "transaction_index" o;
  account = asks "account" o;
  pre_mint = asks "pre_mint" o;
  post_mint = asks "post_mint" o;
  pre_decimals = asks "pre_decimals" o;
  post_decimals = asks "post_decimals" o;
  pre_program_id = asks "pre_program_id" o;
  post_program_id = asks "post_program_id" o;
  pre_owner = asks "pre_owner" o;
  post_owner = asks "post_owner" o;
  pre_amount = asks "pre_amount" o;
  post_amount = asks "post_amount" o;
}

abbrev pub all : TokenBalanceFields
all = record {
  block_slot = true;
  block_hash = true;
  transaction_index = true;
  account = true;
  pre_mint = true;
  post_mint = true;
  pre_decimals = true;
  post_decimals = true;
  pre_program_id = true;
  post_program_id = true;
  pre_owner = true;
  post_owner = true;
  pre_amount = true;
  post_amount = true;
}

instance abbrev pub token_balance_selection : FieldSelection TokenBalanceFields
token_balance_selection = record {
  keys =
      "block_slot" ∷ "block_hash" ∷ "transaction_index" ∷ "account" ∷ "pre_mint" ∷ "post_mint"
      ∷ "pre_decimals" ∷ "post_decimals" ∷ "pre_program_id" ∷ "post_program_id" ∷ "pre_owner"
      ∷ "post_owner" ∷ "pre_amount" ∷ "post_amount" ∷ [];
  serialize = to_object;
  deserialize = from_object;
  serialize-keys = λ s. refl;
  serialize-deserialize = λ o. refl;
}
