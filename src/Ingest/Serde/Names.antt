-- ===== src/Ingest/Serde/Names.antt =====
-- ingest/src/provider/common.rs: the names that `field_selection_to_set` gives.
use cherry_core.Base.{
  String, true, false, ◌≡◌, refl, List, [], ◌∷◌, map, ◌||◌, ◌&&◌, Bool-cases, inl, inr, ◌∙◌, arith,
  ap,
}
use cherry_core.Base.Dict.{str_eq}
use text.Mathlib.TextEquality.{eq_iff}
use cherry_core.Ingest.Serde.{
  Object, asks, FieldSelection, insert_name, set_of, field_selection_to_set,
}
use cherry_core.Ingest.Known.{has_names, has_name}

has_name-insert_name :
    (name n : String) (ns : List String)
    → has_name name (insert_name n ns) ≡ (str_eq n name || has_name name ns)
unfolding insert_name
has_name-insert_name name n [] = refl
has_name-insert_name name n (m ∷ ns) =
    ground (arith, eq_iff m n, eq_iff n name, eq_iff m name, has_name-insert_name name n ns)

has_name-set_of :
    (name : String) (json : Object) (output : List String)
    → has_name name (set_of json output) ≡ (asks name json || has_name name output)
unfolding set_of
has_name-set_of name [] output = refl
has_name-set_of name ((key, true) ∷ json) output = ground (
  arith,
  has_name-set_of name json (insert_name key output),
  has_name-insert_name name key output,
)
has_name-set_of name ((key, false) ∷ json) output = ground (arith, has_name-set_of name json output)

has_names-insert_name :
    (n : String) (ns columns : List String)
    → has_names (insert_name n ns) columns ≡ (has_name n columns && has_names ns columns)
unfolding insert_name
has_names-insert_name n [] columns = refl
has_names-insert_name n (m ∷ ns) columns =
    ground (arith, eq_iff m n, has_names-insert_name n ns columns)

has_names-set_of :
    (json : Object) (output columns : List String)
    → has_names (map (λ e. e.0) json) columns ≡ true
    → has_names output columns ≡ true
    → has_names (set_of json output) columns ≡ true
unfolding set_of
has_names-set_of [] output columns h k = k
has_names-set_of ((key, true) ∷ json) output columns h k = ground (
  arith,
  has_names-set_of json (insert_name key output) columns,
  has_names-insert_name key output columns,
)
has_names-set_of ((key, false) ∷ json) output columns h k =
    has_names-set_of json output columns (ground arith) k

-- What a struct was read from, as far as it has fields for it.
asks-map :
    (name : String) (keys : List String) (object : Object)
    → asks name (map (λ key. (key, asks key object)) keys)
      ≡ (has_name name keys && asks name object)
asks-map name [] object = refl
asks-map name (key ∷ keys) object = elim (Bool-cases (str_eq key name)) [
  | inl same ↦
      let e : key ≡ name = (eq_iff key name).0 same in
      rw (same, e) (ground (arith, asks-map name keys object))
  | inr other ↦ rw other (asks-map name keys object)
]

module _ {S : Type 0} (f : FieldSelection S) where
  -- A field selection that was read from an object of flags has the names of those of its fields
  -- that the object sets, and no others.
  pub deserialize-field_selection_to_set :
      (object : Object) (name : String)
      → has_name name (field_selection_to_set ⦃f = f⦄ (f.deserialize object))
        ≡ (has_name name f.keys && asks name object)
  unfolding field_selection_to_set
  deserialize-field_selection_to_set object name =
      has_name-set_of name (f.serialize (f.deserialize object)) []
      ∙ ground (arith, ap (asks name) (f.serialize-deserialize object), asks-map name f.keys object)

  -- All names are among some, if the keys are.
  pub has_names-field_selection_to_set :
      (s : S) (columns : List String)
      → has_names f.keys columns ≡ true
      → has_names (field_selection_to_set ⦃f = f⦄ s) columns ≡ true
  unfolding field_selection_to_set
  has_names-field_selection_to_set s columns h =
      has_names-set_of (f.serialize s) [] columns (rw (f.serialize-keys s) h) refl
