-- ===== src/Query/Filter.antt =====
-- query/src/lib.rs: the row filters `Contains`, `StartsWith` and `Filter`.
pub mod Membership
pub mod Rows
pub mod Lengths
use cherry_core.Base.{
  is_some, String, ℕ, zero, suc, ◌+◌, ◌<◌, ◌≡◌, Bool, true, false, ◌&&◌, ◌||◌, not, List, [], ◌∷◌,
  map, Option, none, some, Result, ok, err, ◌>>=◌, length, get_elem?, ltb, leb, ◌==◌, if◌then◌else◌,
  to_le_bytes,
}
use cherry_core.Arrow.Types.{
  DataType, same_type, boolean, int8, int16, int32, int64, uint8, uint16, uint32, uint64, binary,
  utf8,
}
use cherry_core.Arrow.Data.{
  Scalar, num, bytes, flag, Array, Mask, is_nullable, null_count, of_bits, as_boolean, is_valid,
}
use cherry_core.Arrow.Kernels.{Kernels, ArrowError}
use cherry_core.Query.Hashing.{Hashing}

-- The errors, one for each message; the text around an error of arrow is left out.
pub data Error : Type 0 where
  nullable_contains nullable_starts_with nullable_filter : Error
  -- the filter's type and the column's
  type_mismatch : DataType → DataType → Error
  unsupported_data_type : DataType → Error
  not_boolean : Error
  missing_table missing_field : String → Error
  -- the number of the include, and the numbers of field names on both sides
  field_names_differ : ℕ → ℕ → ℕ → Error
  arrow : ArrowError → Error

abbrev pub lift {ℓ} : {A : Type ℓ} → Result ArrowError A → Result Error A
lift (ok a) = ok a
lift (err e) = err (arrow e)

-- How an array is read: as integers of so many bytes, or as byte strings.
pub data Layout : Type 0 where
  primitive : ℕ → Layout
  byte_array : Layout

-- The match on the data type, with an error at the types without a branch.
unfoldable pub layout_of : DataType → Result Error Layout
layout_of uint8 = ok (primitive 1)
layout_of uint16 = ok (primitive 2)
layout_of uint32 = ok (primitive 4)
layout_of uint64 = ok (primitive 8)
layout_of int8 = ok (primitive 1)
layout_of int16 = ok (primitive 2)
layout_of int32 = ok (primitive 4)
layout_of int64 = ok (primitive 8)
layout_of binary = ok byte_array
layout_of utf8 = ok byte_array
layout_of t = err (unsupported_data_type t)

abbrev pub bytes_eq : List ℕ → List ℕ → Bool
bytes_eq [] [] = true
bytes_eq (x ∷ xs) (y ∷ ys) = (x == y) && bytes_eq xs ys
bytes_eq _ _ = false

-- `==` on two values of one column.
abbrev pub scalar_eq : Scalar → Scalar → Bool
scalar_eq (num a) (num b) = a == b
scalar_eq (bytes a) (bytes b) = bytes_eq a b
scalar_eq (flag true) (flag b) = b
scalar_eq (flag false) (flag b) = not b
scalar_eq _ _ = false

-- `.iter().any(|x| …)`
abbrev pub any {ℓ} : {A : Type ℓ} → (A → Bool) → List A → Bool
any p [] = false
any p (x ∷ xs) = p x || any p xs

-- `v.starts_with(prefix)` on byte slices.
abbrev pub has_prefix : List ℕ → List ℕ → Bool
has_prefix [] v = true
has_prefix (p ∷ prefix) [] = false
has_prefix (p ∷ prefix) (b ∷ v) = (p == b) && has_prefix prefix v

abbrev pub scalar_has_prefix : Scalar → Scalar → Bool
scalar_has_prefix (bytes prefix) (bytes v) = has_prefix prefix v
scalar_has_prefix _ _ = false

-- The bytes that are hashed.
unfoldable pub to_byte_slice : Layout → Scalar → List ℕ
to_byte_slice (primitive width) (num n) = to_le_bytes width n
to_byte_slice byte_array (bytes b) = b
to_byte_slice _ _ = []

-- `if let Some(nulls) = arr.nulls() { if nulls.null_count() > 0 { filter = and(filter, nulls) } }`
unfoldable pub apply_null_mask : Kernels → Option (List Bool) → Mask → Result Error Mask
apply_null_mask K none filter = ok filter
apply_null_mask K (some bits) filter =
    if ltb 0 (null_count bits) then lift (K.and filter (of_bits bits)) else ok filter

module _ (H : Hashing) where
  -- `arr.value_unchecked(i)`; an index past the end is never asked for.
  unfoldable pub value_at : List Scalar → ℕ → Scalar
  value_at values i = elim (get_elem? values i) [ none ↦ num 0 | some v ↦ v ]

  unfoldable pub hash_one : Layout → Scalar → ℕ
  unfolding to_byte_slice
  hash_one layout v = H.xxh3_64 (to_byte_slice layout v)

  -- The loop of `ht_from_primitive` and `ht_from_bytes` from index `i` on.
  unfoldable pub fill : Layout → List Scalar → ℕ → List Scalar → H.Table → H.Table
  unfolding hash_one value_at
  fill layout all i [] ht = ht
  fill layout all i (v ∷ vs) ht =
      fill layout all (i + 1) vs
        (H.insert_unique (hash_one layout v) i (λ j. hash_one layout (value_at all j)) ht)

  unfoldable pub ht_from_array : Array → Result Error H.Table
  unfolding fill layout_of
  ht_from_array array = do
    layout ← layout_of array.data_type
    ok (fill layout array.values 0 array.values (H.with_capacity (length array.values)))

  pub record Contains : Type 0 where
    pub array : Array
    pub hash_table : Option H.Table

module _ (H : Hashing) where
  -- `Contains::new`: a table for 128 values and more.
  unfoldable pub new_contains : Array → Result Error (Contains H)
  unfolding ht_from_array
  new_contains array =
      if is_nullable array
      then err nullable_contains
      else if leb 128 (length array.values)
      then (do ht ← ht_from_array H array; ok (record { array = array; hash_table = some ht }))
      else ok (record { array = array; hash_table = none })

  -- One row of `contains_primitive` and `contains_bytes`.
  unfoldable pub contains_value : Layout → Contains H → Scalar → Bool
  unfolding hash_one value_at
  contains_value layout ct v = elim ct.hash_table [
    | some ht ↦
        is_some (H.find (hash_one H layout v) (λ j. scalar_eq (value_at H ct.array.values j) v) ht)
    | none ↦ any (λ x. scalar_eq x v) ct.array.values
  ]

  unfoldable pub contains_values : Layout → Contains H → List Scalar → Mask
  unfolding contains_value
  contains_values layout ct [] = []
  contains_values layout ct (v ∷ vs) =
      some (contains_value layout ct v) ∷ contains_values layout ct vs

  -- `Contains::contains`
  unfoldable pub contains : Kernels → Contains H → Array → Result Error Mask
  unfolding contains_values layout_of apply_null_mask
  contains K ct arr =
      if not (same_type arr.data_type ct.array.data_type)
      then err (type_mismatch ct.array.data_type arr.data_type)
      else if is_nullable ct.array
      then err nullable_filter
      else do
        layout ← layout_of arr.data_type
        apply_null_mask K arr.nulls (contains_values layout ct arr.values)

pub record StartsWith : Type 0 where
  pub array : Array

-- `StartsWith::new`
unfoldable pub new_starts_with : Array → Result Error StartsWith
new_starts_with array =
    if is_nullable array then err nullable_starts_with else ok (record { array = array })

-- The loop of `starts_with_bytes`, which stops at the first prefix that fits.
unfoldable pub starts_with_bytes : List Scalar → List Scalar → Mask
starts_with_bytes prefixes [] = []
starts_with_bytes prefixes (v ∷ vs) =
    some (any (λ prefix. scalar_has_prefix prefix v) prefixes) ∷ starts_with_bytes prefixes vs

-- Prefixes are for binary and text columns only.
unfoldable pub check_byte_array : DataType → Result Error (Unit {0})
check_byte_array binary = ok tt
check_byte_array utf8 = ok tt
check_byte_array t = err (unsupported_data_type t)

-- `StartsWith::starts_with`
unfoldable pub starts_with : Kernels → StartsWith → Array → Result Error Mask
unfolding starts_with_bytes check_byte_array apply_null_mask
starts_with K sw arr =
    if not (same_type arr.data_type sw.array.data_type)
    then err (type_mismatch sw.array.data_type arr.data_type)
    else if is_nullable sw.array
    then err nullable_filter
    else do
      _ ← check_byte_array arr.data_type
      apply_null_mask K arr.nulls (starts_with_bytes sw.array.values arr.values)

pub data Filter (H : Hashing) : Type 0 where
  contains_filter : Contains H → Filter H
  starts_with_filter : StartsWith → Filter H
  bool_filter : Bool → Filter H

-- The validity bits of a mask, if it has a null.
abbrev pub validity : Mask → List Bool
validity = map is_valid

-- `Filter::Bool`: the column or its negation, and the null mask on it; `none` is a column of
-- another type.
unfoldable pub check_mask : Kernels → Bool → Option Mask → Result Error Mask
unfolding apply_null_mask
check_mask K b none = err not_boolean
check_mask K b (some m) = do
  filter ← if b then ok m else lift (K.negate m)
  apply_null_mask K (some (validity filter)) filter

unfoldable pub check_bool : Kernels → Bool → Array → Result Error Mask
unfolding check_mask
check_bool K b arr = check_mask K b (as_boolean arr)

-- `Filter::check`
unfoldable pub check : (H : Hashing) → Kernels → Filter H → Array → Result Error Mask
unfolding contains starts_with check_bool
check H K (contains_filter ct) arr = contains H K ct arr
check H K (starts_with_filter sw) arr = starts_with K sw arr
check H K (bool_filter b) arr = check_bool K b arr
