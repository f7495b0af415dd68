-- ===== src/Ingest/Svm/Selections/Reward.antt =====
-- ingest/src/svm.rs: the field selection `RewardFields`.
use cherry_core.Base.{Bool, true, refl, [], ◌∷◌}
use cherry_core.Ingest.Serde.{Object, asks, FieldSelection}

pub record RewardFields : Type 0 where
  pub block_slot : Bool
  pub block_hash : Bool
  pub pubkey : Bool
  pub lamports : Bool
  pub post_balance : Bool
  pub reward_type : Bool
  pub commission : Bool

-- What `derive(Serialize)` writes.
abbrev pub to_object : RewardFields → Object
to_object s =
    ("block_slot", s.block_slot)
    ∷ ("block_hash", s.block_hash)
    ∷ ("pubkey", s.pubkey)
    ∷ ("lamports", s.lamports)
    ∷ ("post_balance", s.post_balance)
    ∷ ("reward_type", s.reward_type)
    ∷ ("commission", s.commission)
    ∷ []

-- What `derive(Deserialize)` with `default` reads.
abbrev pub from_object : Object → RewardFields
from_object o = record {
  block_slot = asks "block_slot" o;
  block_hash = asks "block_hash" o;
  pubkey = asks "pubkey" o;
  lamports = asks "lamports" o;
  post_balance = asks "post_balance" o;
  reward_type = asks "reward_type" o;
  commission = asks "commission" o;
}

abbrev pub all : RewardFields
all = record {
  block_slot = true;
  block_hash = true;
  pubkey = true;
  lamports = true;
  post_balance = true;
  reward_type = true;
  commission = true;
}

instance abbrev pub reward_selection : FieldSelection RewardFields
reward_selection = record {
  keys =
      "block_slot" ∷ "block_hash" ∷ "pubkey" ∷ "lamports" ∷ "post_balance" ∷ "reward_type"
      ∷ "commission" ∷ [];
  serialize = to_object;
  deserialize = from_object;
  serialize-keys = λ s. refl;
  serialize-deserialize = λ o. refl;
}
