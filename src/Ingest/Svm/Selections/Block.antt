-- ===== src/Ingest/Svm/Selections/Block.antt =====
-- ingest/src/svm.rs: the field selection `BlockFields`.
use cherry_core.Base.{Bool, true, refl, [], ◌∷◌}
use cherry_core.Ingest.Serde.{Object, asks, FieldSelection}

pub record BlockFields : Type 0 where
  pub slot : Bool
  pub hash : Bool
  pub parent_slot : Bool
  pub parent_hash : Bool
  pub height : Bool
  pub timestamp : Bool

-- What `derive(Serialize)` writes.
abbrev pub to_object : BlockFields → Object
to_object s =
    ("slot", s.slot)
    ∷ ("hash", s.hash)
    ∷ ("parent_slot", s.parent_slot)
    ∷ ("parent_hash", s.parent_hash)
    ∷ ("height", s.height)
    ∷ ("timestamp", s.timestamp)
    ∷ []

-- What `derive(Deserialize)` with `default` reads.
abbrev pub from_object : Object → BlockFields
from_object o = record {
  slot = asks "slot" o;
  hash = asks "hash" o;
  parent_slot = asks "parent_slot" o;
  parent_hash = asks "parent_hash" o;
  height = asks "height" o;
  timestamp = asks "timestamp" o;
}

abbrev pub all : BlockFields
all = record {
  slot = true;
  hash = true;
  parent_slot = true;
  parent_hash = true;
  height = true;
  timestamp = true;
}

instance abbrev pub block_selection : FieldSelection BlockFields
block_selection = record {
  keys = "slot" ∷ "hash" ∷ "parent_slot" ∷ "parent_hash" ∷ "height" ∷ "timestamp" ∷ [];
  serialize = to_object;
  deserialize = from_object;
  serialize-keys = λ s. refl;
  serialize-deserialize = λ o. refl;
}
