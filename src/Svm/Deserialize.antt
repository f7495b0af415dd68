-- ===== src/Svm/Deserialize.antt =====
-- svm-decode/src/deserialize.rs: `check_type_size`, `deserialize_value` and `deserialize_data`.
-- A slice is the list of its bytes, and the slice that a call leaves over is returned with the value.
pub mod Format
pub mod Sound
pub mod Complete
pub mod Program
mod Tests
use cherry_core.Base.{
  ℕ, zero, suc, ◌+◌, ◌-◌, ◌*◌, ◌%◌, ◌^◌, Bool, true, false, not, ◌&&◌, List, [], ◌∷◌, Result, ok,
  err, ◌>>=◌, ltb, ◌==◌, if◌then◌else◌, length, take, drop, from_le_bytes, to_signed,
}
use cherry_core.Svm.Types.{
  DynType, Fields, Variants, DynValue, Values, NamedValues, OptValue, ParamInput, i8, i16, i32, i64,
  i128, u8, u16, u32, u64, u128, bool, fixed_array, array, struct, enum, option, no_fields, field,
  no_variants, unit_variant, variant, no_values, value, no_named, named, no_value, some_value,
  count_variants,
}

-- The errors, one for each message.
pub data Error : Type 0 where
  -- expected so many bytes, got so many
  not_enough_data : ℕ → ℕ → Error
  not_enough_data_for_option : Error
  invalid_option_value : ℕ → Error
  invalid_variant_index : ℕ → Error
  unsupported_fixed_array : Error
  remaining_data : List ℕ → Error

abbrev pub Parser : Type 0 → Type 0
Parser A = List ℕ → Result Error (A × List ℕ)

unfoldable pub check_type_size : DynType → Result Error ℕ
check_type_size u8 = ok 1
check_type_size i8 = ok 1
check_type_size bool = ok 1
check_type_size u16 = ok 2
check_type_size i16 = ok 2
check_type_size u32 = ok 4
check_type_size i32 = ok 4
check_type_size u64 = ok 8
check_type_size i64 = ok 8
check_type_size u128 = ok 16
check_type_size i128 = ok 16
check_type_size _ = err unsupported_fixed_array

-- What the integer branches share: the test of the length, `from_le_bytes` and the slice behind it.
unfoldable pub read_le : ℕ → (ℕ → DynValue) → Parser DynValue
read_le size make bytes =
    if ltb (length bytes) size
    then err (not_enough_data size (length bytes))
    else ok (make (from_le_bytes (take size bytes)), drop size bytes)

-- `for _ in 0..length`: each round reads one value off what the round before left.
unfoldable pub read_values : Parser DynValue → ℕ → Parser Values
read_values read zero bytes = ok (no_values, bytes)
read_values read (suc n) bytes = do
  (v, rest) ← read bytes
  (vs, rest') ← read_values read n rest
  ok (value v vs, rest')

-- `.chunks(size)`, with the number of bytes as fuel.
unfoldable pub chunks : ℕ → ℕ → List ℕ → List (List ℕ)
chunks fuel size [] = []
chunks zero size (b ∷ bs) = []
chunks (suc fuel) size (b ∷ bs) = take size (b ∷ bs) ∷ chunks fuel size (drop size (b ∷ bs))

-- `.map(|chunk| …).collect()`: what a chunk leaves over is dropped.
unfoldable pub read_chunks : Parser DynValue → List (List ℕ) → Result Error Values
read_chunks read [] = ok no_values
read_chunks read (chunk ∷ rest) = do
  (v, _) ← read chunk
  vs ← read_chunks read rest
  ok (value v vs)

-- The fixed array: the size of the whole is a `usize`, which wraps around in a release build.
unfoldable pub read_fixed_array : Parser DynValue → Result Error ℕ → ℕ → Parser DynValue
unfolding chunks read_chunks
read_fixed_array read type_size size bytes = do
  inner_type_size ← type_size
  let total_size = inner_type_size * size % 2 ^ 64
  if ltb (length bytes) total_size then err (not_enough_data total_size (length bytes)) else do
    let front = take total_size bytes
    vs ← read_chunks read (chunks (length front) inner_type_size front)
    ok (array vs, drop total_size bytes)

-- The length prefix of an array.
unfoldable pub read_array : Parser DynValue → Parser DynValue
unfolding read_values
read_array read bytes = if ltb (length bytes) 4 then err (not_enough_data 4 (length bytes)) else do
  (vs, rest) ← read_values read (from_le_bytes (take 4 bytes)) (drop 4 bytes)
  ok (array vs, rest)

-- The flag of an option.
unfoldable pub read_option : Parser DynValue → Parser DynValue
read_option read [] = err not_enough_data_for_option
read_option read (flag ∷ rest) =
    if flag == 0
    then ok (option no_value, rest)
    else if flag == 1
    then (do (v, rest') ← read rest; ok (option (some_value v), rest'))
    else err (invalid_option_value flag)

-- The index of an enum's variant, and the test that it is one of `count`.
unfoldable pub read_enum : ℕ → (ℕ → Parser DynValue) → Parser DynValue
read_enum count read [] = err (not_enough_data 1 0)
read_enum count read (index ∷ rest) =
    if ltb index count then read index rest else err (invalid_variant_index index)

unfoldable mutual
  unfolding read_enum read_le read_fixed_array read_array read_option check_type_size

  pub deserialize_value : DynType → Parser DynValue
  deserialize_value (option inner_type) = read_option (deserialize_value inner_type)
  deserialize_value i8 = read_le 1 (λ n. i8 (to_signed 8 n))
  deserialize_value i16 = read_le 2 (λ n. i16 (to_signed 16 n))
  deserialize_value i32 = read_le 4 (λ n. i32 (to_signed 32 n))
  deserialize_value i64 = read_le 8 (λ n. i64 (to_signed 64 n))
  deserialize_value i128 = read_le 16 (λ n. i128 (to_signed 128 n))
  deserialize_value u8 = read_le 1 u8
  deserialize_value u16 = read_le 2 u16
  deserialize_value u32 = read_le 4 u32
  deserialize_value u64 = read_le 8 u64
  deserialize_value u128 = read_le 16 u128
  deserialize_value bool = read_le 1 (λ n. bool (not (n == 0)))
  deserialize_value (fixed_array inner_type size) =
      read_fixed_array (deserialize_value inner_type) (check_type_size inner_type) size
  deserialize_value (array inner_type) = read_array (deserialize_value inner_type)
  deserialize_value (struct fields) =
      λ bytes. do (vs, rest) ← deserialize_fields fields bytes; ok (struct vs, rest)
  deserialize_value (enum variants) =
      read_enum (count_variants variants) (deserialize_variant variants)

  -- The loop over the fields of a struct.
  pub deserialize_fields : Fields → Parser NamedValues
  deserialize_fields no_fields bytes = ok (no_named, bytes)
  deserialize_fields (field name param_type fields) bytes = do
    (v, rest) ← deserialize_value param_type bytes
    (vs, rest') ← deserialize_fields fields rest
    ok (named name v vs, rest')

  -- `&variants[variant_index]` and the payload. The index is tested by `read_enum`.
  pub deserialize_variant : Variants → ℕ → Parser DynValue
  deserialize_variant no_variants i rest = err (invalid_variant_index i)
  deserialize_variant (unit_variant name _) zero rest = ok (enum name no_value, rest)
  deserialize_variant (variant name variant_type _) zero rest = do
    (v, rest') ← deserialize_value variant_type rest
    ok (enum name (some_value v), rest')
  deserialize_variant (unit_variant _ variants) (suc i) rest = deserialize_variant variants i rest
  deserialize_variant (variant _ _ variants) (suc i) rest = deserialize_variant variants i rest

-- `deserialize_data`: the loop over the parameters.
unfoldable pub deserialize_params : List ParamInput → Parser Values
unfolding deserialize_value
deserialize_params [] bytes = ok (no_values, bytes)
deserialize_params (param ∷ params) bytes = do
  (v, rest) ← deserialize_value param.param_type bytes
  (vs, rest') ← deserialize_params params rest
  ok (value v vs, rest')

unfoldable pub is_empty {ℓ} : {A : Type ℓ} → List A → Bool
is_empty [] = true
is_empty (_ ∷ _) = false

unfoldable pub deserialize_data : List ℕ → List ParamInput → Bool → Result Error Values
unfolding deserialize_params is_empty
deserialize_data bytes params error_on_remaining = do
  (ix_values, rest) ← deserialize_params params bytes
  if error_on_remaining && not (is_empty rest) then err (remaining_data rest) else ok ix_values
