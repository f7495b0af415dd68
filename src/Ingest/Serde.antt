-- ===== src/Ingest/Serde.antt =====
-- ingest/src/provider/common.rs: `field_selection_to_set`, and what serde does with a plain struct of flags.
pub mod Names
use cherry_core.Base.{String, Bool, false, ◌≡◌, List, [], ◌∷◌, map, ◌||◌, ◌&&◌, if◌then◌else◌}
use cherry_core.Base.Dict.{str_eq, before}

-- A JSON object whose values are flags.
abbrev pub Object : Type 0
Object = List (String × Bool)

-- Whether a key is set to `true`; a missing one is not.
abbrev pub asks : String → Object → Bool
asks name [] = false
asks name ((key, value) ∷ object) = (str_eq key name && value) || asks name object

-- `Serialize` and `Deserialize`, as they are derived for a struct of flags with `serde(default)`:
-- the names of the fields, after `serde(rename)`, are the keys, and an unknown key is passed over.
pub record FieldSelection (S : Type 0) : Type 0 where
  pub keys : List String
  pub serialize : S → Object
  pub deserialize : Object → S
  pub serialize-keys : (s : S) → map (λ e. e.0) (serialize s) ≡ keys
  pub serialize-deserialize :
      (object : Object)
      → serialize (deserialize object) ≡ map (λ name. (name, asks name object)) keys

-- `BTreeSet<String>`: the names in their order.
unfoldable pub insert_name : String → List String → List String
insert_name name [] = name ∷ []
insert_name name (n ∷ ns) =
    if str_eq n name
    then n ∷ ns
    else if before name n
    then name ∷ n ∷ ns
    else n ∷ insert_name name ns

-- The loop over the entries.
unfoldable pub set_of : Object → List String → List String
unfolding insert_name
set_of [] output = output
set_of ((key, value) ∷ json) output = set_of json (if value then insert_name key output else output)

unfoldable pub field_selection_to_set : {S : Type 0} ⦃f : FieldSelection S⦄ → S → List String
unfolding set_of
field_selection_to_set ⦃f⦄ field_selection = set_of (f.serialize field_selection) []
