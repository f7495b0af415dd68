-- ===== src/Cast.antt =====
-- cast/src/lib.rs: the functions on schemas, and the casts of columns by name and by type.
pub mod Types
mod Tests
use cherry_core.Base.{
  ◌≡◌, Bool, true, false, ◌&&◌, List, [], ◌∷◌, map, Option, none, some, Result, ok, err, ◌>>=◌,
  String, if◌then◌else◌, pos,
}
use cherry_core.Base.Dict.{str_eq}
use cherry_core.Arrow.Types.{
  DataType, Field, field, same_type, utf8, large_utf8, binary, large_binary, decimal128, decimal256,
}
use cherry_core.Arrow.Data.{Array}
use cherry_core.Arrow.Kernels.{ArrowError}

-- A record batch with its schema.
pub record Batch : Type 0 where
  pub schema : List Field
  pub columns : List Array

-- The functions of arrow that a cast calls. The Boolean is the `safe` of `CastOptions`.
pub record Casting : Type 0 where
  pub cast_with_options : Bool → Array → DataType → Result ArrowError Array
  pub is_floating : DataType → Bool
  pub try_new : List Field → List Array → Result ArrowError Batch

pub record CastingLaws (C : Casting) : Type 0 where
  -- A cast gives an array of the target type.
  pub cast_lem :
      (safe : Bool) (a b : Array) (dt : DataType)
      → C.cast_with_options safe a dt ≡ ok b
      → b.data_type ≡ dt
  -- A batch that is made has the schema and the columns that it was made of.
  pub try_new_lem :
      (fs : List Field) (cs : List Array) (b : Batch)
      → C.try_new fs cs ≡ ok b
      → b ≡ record { schema = fs; columns = cs }

-- `map.iter().find(|x| x.0.as_ref() == field.name())`
unfoldable pub find_target : String → List (String × DataType) → Option DataType
find_target name [] = none
find_target name ((n, dt) ∷ targets) = if str_eq n name then some dt else find_target name targets

-- A field with its type exchanged.
abbrev pub retyped : Field → Option DataType → Field
retyped f none = f
retyped (field name dt nullable) (some target) = field name target nullable

abbrev pub name_of : Field → String
name_of (field name dt nullable) = name

abbrev pub type_of : Field → DataType
type_of (field name dt nullable) = dt

unfoldable pub cast_schema : List (String × DataType) → List Field → List Field
unfolding find_target
cast_schema targets [] = []
cast_schema targets (f ∷ fs) = retyped f (find_target (name_of f) targets) ∷ cast_schema targets fs

-- The target of a column in a cast by type.
unfoldable pub target_of : DataType → DataType → DataType → Option DataType
target_of from_type to_type dt = if same_type dt from_type then some to_type else none

unfoldable pub cast_schema_by_type : List Field → DataType → DataType → List Field
unfolding target_of
cast_schema_by_type [] from_type to_type = []
cast_schema_by_type (f ∷ fs) from_type to_type =
    retyped f (target_of from_type to_type (type_of f)) ∷ cast_schema_by_type fs from_type to_type

unfoldable pub string_type : DataType → Option DataType
string_type binary = some utf8
string_type large_binary = some large_utf8
string_type _ = none

unfoldable pub schema_binary_to_string : List Field → List Field
unfolding string_type
schema_binary_to_string [] = []
schema_binary_to_string (f ∷ fs) = retyped f (string_type (type_of f)) ∷ schema_binary_to_string fs

unfoldable pub schema_decimal256_to_binary : List Field → List Field
unfolding target_of
schema_decimal256_to_binary [] = []
schema_decimal256_to_binary (f ∷ fs) =
    retyped f (target_of (decimal256 76 (pos 0)) binary (type_of f))
    ∷ schema_decimal256_to_binary fs

abbrev pub is_decimal : DataType → Bool
is_decimal (decimal128 _ _) = true
is_decimal (decimal256 _ _) = true
is_decimal _ = false

module _ (C : Casting) where
  -- A decimal goes to a floating point type by way of a string.
  unfoldable pub cast_to : Bool → Array → Option DataType → Result ArrowError Array
  cast_to safe col none = ok col
  cast_to safe col (some target) =
      if is_decimal col.data_type && C.is_floating target
      then (do
        string_col ← C.cast_with_options safe col utf8
        C.cast_with_options safe string_col target)
      else C.cast_with_options safe col target

  -- The loop over the columns and the fields, with the target of each.
  unfoldable pub cast_columns :
      Bool
      → (Field → Array → Option DataType)
      → List Field
      → List Array
      → Result ArrowError (List Array)
  unfolding cast_to
  cast_columns safe target (f ∷ fs) (col ∷ cols) = do
    c ← cast_to safe col (target f col)
    cs ← cast_columns safe target fs cols
    ok (c ∷ cs)
  cast_columns safe target _ _ = ok []

  unfoldable pub cast : List (String × DataType) → Batch → Bool → Result ArrowError Batch
  unfolding cast_columns cast_schema find_target
  cast targets batch allow_cast_fail = do
    arrays ←
        cast_columns allow_cast_fail (λ f _. find_target (name_of f) targets) batch.schema
          batch.columns
    C.try_new (cast_schema targets batch.schema) arrays

  unfoldable pub cast_by_type : Batch → DataType → DataType → Bool → Result ArrowError Batch
  unfolding cast_columns cast_schema_by_type target_of
  cast_by_type batch from_type to_type allow_cast_fail = do
    arrays ←
        cast_columns allow_cast_fail (λ _ col. target_of from_type to_type col.data_type)
          batch.schema batch.columns
    C.try_new (cast_schema_by_type batch.schema from_type to_type) arrays
