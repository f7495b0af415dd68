-- ===== src/Ingest/Svm/Selections/Balance.antt =====
-- ingest/src/svm.rs: the field selection `BalanceFields`.
use cherry_core.Base.{Bool, true, refl, [], ◌∷◌}
use cherry_core.Ingest.Serde.{Object, asks, FieldSelection}

pub record BalanceFields : Type 0 where
  pub block_slot : Bool
  pub block_hash : Bool
  pub transaction_index : Bool
  pub account : Bool
  pub pre : Bool
  pub post : Bool

-- What `derive(Serialize)` writes.
abbrev pub to_object : BalanceFields → Object
to_object s =
    ("block_slot", s.block_slot)
    ∷ ("block_hash", s.block_hash)
    ∷ ("transaction_index", s.transaction_index)
    ∷ ("account", s.account)
    ∷ ("pre", s.pre)
    ∷ ("post", s.post)
    ∷ []

-- What `derive(Deserialize)` with `default` reads.
abbrev pub from_object : Object → BalanceFields
from_object o = record {
  block_slot = asks "block_slot" o;
  block_hash = asks "block_hash" o;
  transaction_index = asks "transaction_index" o;
  account = asks "account" o;
  pre = asks "pre" o;
  post = asks "post" o;
}

abbrev pub all : BalanceFields
all = record {
  block_slot = true;
  block_hash = true;
  transaction_index = true;
  account = true;
  pre = true;
  post = true;
}

instance abbrev pub balance_selection : FieldSelection BalanceFields
balance_selection = record {
  keys = "block_slot" ∷ "block_hash" ∷ "transaction_index" ∷ "account" ∷ "pre" ∷ "post" ∷ [];
  serialize = to_object;
  deserialize = from_object;
  serialize-keys = λ s. refl;
  serialize-deserialize = λ o. refl;
}
