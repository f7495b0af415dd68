-- ===== src/Svm/ArrowConverter/Nested.antt =====
-- svm-decode/src/arrow_converter.rs: `to_arrow`, with lists, structs, enums and options.
use cherry_core.Base.{
  ℕ, suc, ◌%◌, ◌^◌, Bool, true, false, List, [], ◌∷◌, ◌++◌, Option, none, some, Result, ok, err,
  ◌>>=◌, ◌==◌, if◌then◌else◌, length, pos, String, replicate,
}
use cherry_core.Base.Dict.{str_eq}
use cherry_core.Arrow.Builders.{Builders}
use cherry_core.Arrow.Types
use cherry_core.Arrow.Types.{DataType, Field, cons_field}
use cherry_core.Svm.Types.{
  DynType, Fields, Variants, DynValue, Values, NamedValues, OptValue, i8, i16, i32, i64, i128, u8,
  u16, u32, u64, u128, bool, fixed_array, array, struct, enum, option, no_fields, field,
  no_variants, unit_variant, variant, no_values, value, no_named, named, no_value, some_value,
}
use cherry_core.Svm.ArrowConverter.{
  Error, not_a_list, not_a_struct, not_an_option, not_an_enum, unsupported_array, struct_length,
  variant_not_found, lift, is_u8, to_arrow_dtype, append_rows, read_number, read_decimal, read_bool,
  read_binary,
}

-- The values of a list as rows: `inner_vals.into_iter().map(Some)`.
abbrev pub rows_of : Values → List (Option DynValue)
rows_of no_values = []
rows_of (value v vs) = some v ∷ rows_of vs

abbrev pub count_values : Values → ℕ
count_values no_values = 0
count_values (value _ vs) = suc (count_values vs)

abbrev pub count_named : NamedValues → ℕ
count_named no_named = 0
count_named (named _ _ vs) = suc (count_named vs)

-- The four vectors that the loop of `to_list` fills.
pub record ListParts : Type 0 where
  pub lengths : List ℕ
  pub inner_values : List (Option DynValue)
  pub validity : List Bool
  pub all_valid : Bool

-- What one more row pushes.
abbrev pub push_null_list : ListParts → ListParts
push_null_list p = record {
  lengths = 0 ∷ p.lengths;
  inner_values = p.inner_values;
  validity = false ∷ p.validity;
  all_valid = false;
}

abbrev pub push_list : Values → ListParts → ListParts
push_list inner p = record {
  lengths = count_values inner ∷ p.lengths;
  inner_values = rows_of inner ++ p.inner_values;
  validity = true ∷ p.validity;
  all_valid = p.all_valid;
}

unfoldable pub list_parts : List (Option DynValue) → Result Error ListParts
list_parts [] = ok (record { lengths = []; inner_values = []; validity = []; all_valid = true })
list_parts (none ∷ vs) = do p ← list_parts vs; ok (push_null_list p)
list_parts (some (array inner) ∷ vs) = do p ← list_parts vs; ok (push_list inner p)
list_parts (some v ∷ vs) = err (not_a_list v)

-- Each column of a struct gets its value of a row.
unfoldable pub push_values :
    NamedValues → List (List (Option DynValue)) → List (List (Option DynValue))
push_values (named _ v vs) (col ∷ cols) = (some v ∷ col) ∷ push_values vs cols
push_values _ _ = []

abbrev pub push_nulls : List (List (Option DynValue)) → List (List (Option DynValue))
push_nulls [] = []
push_nulls (col ∷ cols) = (none ∷ col) ∷ push_nulls cols

-- The first loop of `to_struct`, for `n` fields: the rows as columns.
unfoldable pub struct_columns :
    ℕ → List (Option DynValue) → Result Error (List (List (Option DynValue)))
unfolding push_values
struct_columns n [] = ok (replicate n [])
struct_columns n (none ∷ vs) = do cols ← struct_columns n vs; ok (push_nulls cols)
struct_columns n (some (struct inner) ∷ vs) =
    if n == count_named inner
    then (do cols ← struct_columns n vs; ok (push_values inner cols))
    else err (struct_length n (count_named inner))
struct_columns n (some v ∷ vs) = err (not_a_struct v)

-- What `to_option` passes on.
unfoldable pub option_rows : List (Option DynValue) → Result Error (List (Option DynValue))
option_rows [] = ok []
option_rows (none ∷ vs) = do rows ← option_rows vs; ok (none ∷ rows)
option_rows (some (option no_value) ∷ vs) = do rows ← option_rows vs; ok (none ∷ rows)
option_rows (some (option (some_value v)) ∷ vs) = do rows ← option_rows vs; ok (some v ∷ rows)
option_rows (some v ∷ vs) = err (not_an_option v)

-- `variants.iter().position(…)`
unfoldable pub position : String → Variants → Option ℕ
position name no_variants = none
position name (unit_variant n vs) =
    let rest = position name vs in
    if str_eq n name then some 0 else elim rest [ none ↦ none | some i ↦ some (suc i) ]
position name (variant n _ vs) =
    let rest = position name vs in
    if str_eq n name then some 0 else elim rest [ none ↦ none | some i ↦ some (suc i) ]

-- The payload at its variant, and no value at the others.
unfoldable pub struct_inner : String → OptValue → Variants → NamedValues
struct_inner name inner_val no_variants = no_named
struct_inner name inner_val (unit_variant n vs) =
    named n (option no_value) (struct_inner name inner_val vs)
struct_inner name inner_val (variant n _ vs) =
    named n (option (if str_eq n name then inner_val else no_value))
      (struct_inner name inner_val vs)

-- An index, cut to a `u8`, and the variants as a struct.
unfoldable pub make_struct : Variants → String → OptValue → Result Error DynValue
unfolding position struct_inner
make_struct variants name inner_val = elim (position name variants) [
  | none ↦ err (variant_not_found name)
  | some i ↦ ok (
      struct (
        named "variant_index" (u8 (i % 2 ^ 8))
          (named "variant_data" (struct (struct_inner name inner_val variants)) no_named)))
]

unfoldable pub enum_rows : Variants → List (Option DynValue) → Result Error (List (Option DynValue))
unfolding make_struct
enum_rows vars [] = ok []
enum_rows vars (none ∷ vs) = do rows ← enum_rows vars vs; ok (none ∷ rows)
enum_rows vars (some (enum name inner_val) ∷ vs) = do
  row ← make_struct vars name inner_val
  rows ← enum_rows vars vs
  ok (some row ∷ rows)
enum_rows vars (some v ∷ vs) = err not_an_enum

module _ (B : Builders) where
  -- What `to_arrow` is for one type.
  abbrev pub Converter : Type 0
  Converter = List (Option DynValue) → Result Error B.Column

  unfoldable pub to_number : DataType → Bool → ℕ → Converter
  unfolding append_rows read_number
  to_number dt signed bits values = do
    rows ← append_rows (read_number signed bits) values
    ok (B.primitive dt rows)

  unfoldable pub to_decimal128 : Converter
  unfolding append_rows read_decimal
  to_decimal128 values = do
    rows ← append_rows read_decimal values
    ok (B.primitive (DataType.decimal128 38 (pos 0)) rows)

  unfoldable pub to_bool : Converter
  unfolding append_rows read_bool
  to_bool values = do rows ← append_rows read_bool values; ok (B.booleans rows)

  unfoldable pub to_binary : Converter
  unfolding append_rows read_binary
  to_binary values = do rows ← append_rows read_binary values; ok (B.binaries rows)

  unfoldable pub to_fixed_array : DynType → Converter
  unfolding to_binary
  to_fixed_array inner_type values =
      if is_u8 inner_type then to_binary values else err (unsupported_array inner_type)

  unfoldable pub to_option : Converter → Converter
  unfolding option_rows
  to_option inner values = option_rows values >>= inner

  unfoldable pub to_list : Result Error DataType → Converter → Converter
  unfolding list_parts
  to_list inner_dtype inner values = do
    p ← list_parts values
    arrow_data_type ← inner_dtype
    list_array_values ← inner p.inner_values
    lift (
        B.list_try_new (Field.field "" arrow_data_type true) p.lengths list_array_values
          (if p.all_valid then none else some p.validity))

  -- The second loop of `to_struct`.
  unfoldable pub struct_arrays :
      List (String × Converter) → List (List (Option DynValue)) → Result Error (List B.Column)
  struct_arrays ((_, convert) ∷ fields) (col ∷ cols) = do
    a ← convert col
    arrays ← struct_arrays fields cols
    ok (a ∷ arrays)
  struct_arrays _ _ = ok []

  unfoldable pub schema_of : List (String × Converter) → List B.Column → Types.Fields
  schema_of ((name, _) ∷ fields) (a ∷ arrays) =
      cons_field (Field.field name (B.data_type a) true) (schema_of fields arrays)
  schema_of _ _ = Types.Fields.no_fields

  unfoldable pub to_struct : List (String × Converter) → Converter
  unfolding struct_columns struct_arrays schema_of
  to_struct fields values = do
    inner_values ← struct_columns (length fields) values
    arrays ← struct_arrays fields inner_values
    lift (B.struct_try_new (schema_of fields arrays) arrays)

  -- The enum as a struct of the index and of a struct with an optional field for each variant.
  unfoldable pub to_enum : Variants → List (String × Converter) → Converter
  unfolding enum_rows to_struct to_number
  to_enum variants fields values = do
    rows ← enum_rows variants values
    to_struct
        (("variant_index", to_number DataType.uint8 false 8)
          ∷ ("variant_data", to_struct fields)
          ∷ [])
        rows

  unfoldable mutual
    unfolding to_number to_decimal128 to_bool to_fixed_array to_list to_struct to_enum to_option
        to_arrow_dtype

    pub to_arrow : DynType → Converter
    to_arrow i8 = to_number DataType.int8 true 8
    to_arrow i16 = to_number DataType.int16 true 16
    to_arrow i32 = to_number DataType.int32 true 32
    to_arrow i64 = to_number DataType.int64 true 64
    to_arrow i128 = to_decimal128
    to_arrow u128 = to_decimal128
    to_arrow u8 = to_number DataType.uint8 false 8
    to_arrow u16 = to_number DataType.uint16 false 16
    to_arrow u32 = to_number DataType.uint32 false 32
    to_arrow u64 = to_number DataType.uint64 false 64
    to_arrow bool = to_bool
    to_arrow (fixed_array inner_type size) = to_fixed_array inner_type
    to_arrow (array inner_type) = to_list (to_arrow_dtype inner_type) (to_arrow inner_type)
    to_arrow (struct fields) = to_struct (field_converters fields)
    to_arrow (enum variants) = to_enum variants (variant_converters variants)
    to_arrow (option inner_type) = to_option (to_arrow inner_type)

    pub field_converters : Fields → List (String × Converter)
    field_converters no_fields = []
    field_converters (field name param_type fields) =
        (name, to_arrow param_type) ∷ field_converters fields

    -- `variants_struct`: each payload becomes optional, and a variant without one an optional flag.
    pub variant_converters : Variants → List (String × Converter)
    variant_converters no_variants = []
    variant_converters (unit_variant name variants) =
        (name, to_option to_bool) ∷ variant_converters variants
    variant_converters (variant name param_type variants) =
        (name, to_option (to_arrow param_type)) ∷ variant_converters variants
