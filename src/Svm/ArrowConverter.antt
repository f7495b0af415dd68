-- ===== src/Svm/ArrowConverter.antt =====
-- svm-decode/src/arrow_converter.rs: the arrow types and arrays that decoded values become. Where the
-- source hands a type on to `to_arrow`, the functions here take the converter of that type.
pub mod Nested
pub mod Typed
pub mod Offsets
pub mod Rows
pub mod Converters
pub mod Enums
pub mod Agreement
pub mod Decoded
pub mod Pipeline
mod Tests
use cherry_core.Base.{
  ℕ, zero, suc, ◌+◌, ◌-◌, ◌%◌, ◌^◌, ◌≡◌, Bool, true, false, not, ◌&&◌, List, [], ◌∷◌, ◌++◌, Option,
  none, some, Result, ok, err, ◌>>=◌, ltb, ◌==◌, if◌then◌else◌, length, ℤ, pos, negsuc, String, map,
  replicate,
}
use cherry_core.Base.Dict.{str_eq}
use cherry_core.Arrow.Kernels.{ArrowError}
use cherry_core.Arrow.Builders.{Builders}
use cherry_core.Arrow.Types
use cherry_core.Arrow.Types.{DataType, Field, cons_field}
use cherry_core.Svm.Types.{
  DynType, Fields, Variants, DynValue, Values, NamedValues, OptValue, i8, i16, i32, i64, i128, u8,
  u16, u32, u64, u128, bool, fixed_array, array, struct, enum, option, no_fields, field,
  no_variants, unit_variant, variant, no_values, value, no_named, named, no_value, some_value,
}

pub data Error : Type 0 where
  not_a_number not_a_decimal not_a_bool not_binary not_a_list not_a_struct not_an_option :
      DynValue → Error
  not_an_enum : Error
  conversion_failed : ℤ → Error
  exceeds_i128 : ℕ → Error
  unsupported_array : DynType → Error
  size_exceeds_i32 : ℕ → Error
  -- expected and found
  struct_length : ℕ → ℕ → Error
  variant_not_found : String → Error
  arrow : ArrowError → Error

abbrev pub lift {ℓ} : {A : Type ℓ} → Result ArrowError A → Result Error A
lift (ok a) = ok a
lift (err e) = err (arrow e)

-- `**inner_type == DynType::U8`
abbrev pub is_u8 : DynType → Bool
is_u8 u8 = true
is_u8 _ = false

unfoldable pub to_fixed_size : ℕ → DataType → Result Error DataType
to_fixed_size size inner_type =
    if ltb size (2 ^ 31)
    then ok (DataType.fixed_size_list (Field.field "" inner_type true) (pos size))
    else err (size_exceeds_i32 size)

unfoldable mutual
  unfolding to_fixed_size

  pub to_arrow_dtype : DynType → Result Error DataType
  to_arrow_dtype (option inner_type) = to_arrow_dtype inner_type
  to_arrow_dtype i8 = ok DataType.int8
  to_arrow_dtype i16 = ok DataType.int16
  to_arrow_dtype i32 = ok DataType.int32
  to_arrow_dtype i64 = ok DataType.int64
  to_arrow_dtype i128 = ok (DataType.decimal128 38 (pos 0))
  to_arrow_dtype u128 = ok (DataType.decimal128 38 (pos 0))
  to_arrow_dtype u8 = ok DataType.uint8
  to_arrow_dtype u16 = ok DataType.uint16
  to_arrow_dtype u32 = ok DataType.uint32
  to_arrow_dtype u64 = ok DataType.uint64
  to_arrow_dtype bool = ok DataType.boolean
  to_arrow_dtype (fixed_array inner_type size) =
      if is_u8 inner_type
      then ok DataType.binary
      else to_arrow_dtype inner_type >>= to_fixed_size size
  to_arrow_dtype (array inner_type) = do
    dt ← to_arrow_dtype inner_type
    ok (DataType.list (Field.field "" dt true))
  to_arrow_dtype (enum variants) = do
    variant_fields ← variant_dtypes variants
    ok (
        DataType.struct (
          cons_field (Field.field "variant_index" DataType.uint8 true) (
            cons_field (Field.field "variant_data" (DataType.struct variant_fields) true)
              Types.Fields.no_fields)))
  to_arrow_dtype (struct fields) = do
    arrow_fields ← field_dtypes fields
    ok (DataType.struct arrow_fields)

  pub field_dtypes : Fields → Result Error Types.Fields
  field_dtypes no_fields = ok Types.Fields.no_fields
  field_dtypes (field name field_type fields) = do
    dt ← to_arrow_dtype field_type
    fs ← field_dtypes fields
    ok (cons_field (Field.field name dt true) fs)

  pub variant_dtypes : Variants → Result Error Types.Fields
  variant_dtypes no_variants = ok Types.Fields.no_fields
  variant_dtypes (unit_variant name variants) = do
    fs ← variant_dtypes variants
    ok (cons_field (Field.field name DataType.boolean true) fs)
  variant_dtypes (variant name variant_type variants) = do
    dt ← to_arrow_dtype variant_type
    fs ← variant_dtypes variants
    ok (cons_field (Field.field name dt true) fs)

-- Whether a number is one of a signed or an unsigned type of so many bits.
unfoldable pub in_range : Bool → ℕ → ℤ → Bool
in_range true bits (pos n) = ltb n (2 ^ (bits - 1))
in_range true bits (negsuc n) = ltb n (2 ^ (bits - 1))
in_range false bits (pos n) = ltb n (2 ^ bits)
in_range false bits (negsuc n) = false

-- The integer in a value.
unfoldable pub integer_of : DynValue → Option ℤ
integer_of (i8 z) = some z
integer_of (i16 z) = some z
integer_of (i32 z) = some z
integer_of (i64 z) = some z
integer_of (i128 z) = some z
integer_of (u8 n) = some (pos n)
integer_of (u16 n) = some (pos n)
integer_of (u32 n) = some (pos n)
integer_of (u64 n) = some (pos n)
integer_of (u128 n) = some (pos n)
integer_of _ = none

-- The rows of a builder: a null for `None`, and what `read` makes of a value.
unfoldable pub append_rows {ℓ} :
    {A : Type ℓ}
    → (DynValue → Result Error A)
    → List (Option DynValue)
    → Result Error (List (Option A))
append_rows read [] = ok []
append_rows read (none ∷ vs) = do rows ← append_rows read vs; ok (none ∷ rows)
append_rows read (some v ∷ vs) = do a ← read v; rows ← append_rows read vs; ok (some a ∷ rows)

-- `T::Native::try_from`
unfoldable pub read_number : Bool → ℕ → DynValue → Result Error ℤ
unfolding integer_of in_range
read_number signed bits v = elim (integer_of v) [
  | none ↦ err (not_a_number v)
  | some z ↦ if in_range signed bits z then ok z else err (conversion_failed z)
]

unfoldable pub read_decimal : DynValue → Result Error ℤ
read_decimal (i128 z) = ok z
read_decimal (u128 n) = if ltb n (2 ^ 127) then ok (pos n) else err (exceeds_i128 n)
read_decimal v = err (not_a_decimal v)

unfoldable pub read_bool : DynValue → Result Error Bool
read_bool (bool b) = ok b
read_bool v = err (not_a_bool v)

unfoldable pub read_bytes : Values → Result Error (List ℕ)
read_bytes no_values = ok []
read_bytes (value (u8 n) vs) = do ns ← read_bytes vs; ok (n ∷ ns)
read_bytes (value v vs) = err (not_binary v)

unfoldable pub read_binary : DynValue → Result Error (List ℕ)
unfolding read_bytes
read_binary (array vs) = read_bytes vs
read_binary v = err (not_binary v)
