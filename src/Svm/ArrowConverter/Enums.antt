-- ===== src/Svm/ArrowConverter/Enums.antt =====
-- `to_decimal128`, `to_bool`, `to_binary` and `to_enum` (svm-decode/src/arrow_converter.rs).
use cherry_core.Base.{
  none, some, ℕ, ◌≤◌, ◌^◌, ◌%◌, ◌≡◌, refl, Bool, false, List, [], ◌∷◌, ok, String, arith, pos,
  if◌then◌else◌, Bool-cases, Option-cases, inl, inr, lt→ltb, ℤ, ap, ◌∙◌, All, length, Option, suc,
  true,
}
use mathlib.Core.Bool.{false≢true}
use cherry_core.Base.Dict.{str_eq}
use cherry_core.Arrow.Types
use cherry_core.Arrow.Types.{DataType, Field, cons_field}
use cherry_core.Svm.Types.{
  Variants, DynValue, Values, OptValue, i128, u8, u128, bool, array, struct, enum, no_variants,
  unit_variant, variant, no_values, value, no_named, named, no_value,
}
use cherry_core.Svm.ArrowConverter.{
  read_decimal, read_bool, read_bytes, read_binary, integer_of, in_range, append_rows,
}
use cherry_core.Svm.ArrowConverter.Nested.{
  count_values, position, struct_inner, make_struct, Converter, to_number, to_decimal128, to_bool,
  to_binary, to_struct, to_enum, enum_rows,
}
use cherry_core.Svm.ArrowConverter.Typed.{
  IsNumber, IsDecimal, IsBool, AllU8, IsByteArray, OptOf, OptionOf, RowHas, StructOf, EnumOf,
  HasType, HasPayload,
}
use cherry_core.Arrow.Builders.{Builders, BuilderLaws, total_bytes}
use cherry_core.Svm.ArrowConverter.Offsets.{
  count_elements, elements_of_named, elements_of_option, elements_of_rows, greater-≤,
}
use cherry_core.Svm.ArrowConverter.Rows.{RowOf, append_rows-ok}
use cherry_core.Svm.ArrowConverter.Converters.{
  Converts, FieldsConvert, to_number-Converts, to_struct-Converts,
}

read_decimal-ok : (v : DynValue) → IsDecimal v → (z : ℤ) × (read_decimal v ≡ ok z)
unfolding read_decimal
read_decimal-ok (i128 z) h = (z, refl)
read_decimal-ok (u128 n) h = (pos n, rw (lt→ltb n (2 ^ 127) h) refl)
read_decimal-ok _ h = absurd h

read_bool-ok : (v : DynValue) → IsBool v → (b : Bool) × (read_bool v ≡ ok b)
unfolding read_bool
read_bool-ok (bool b) h = (b, refl)
read_bool-ok _ h = absurd h

read_bytes-ok :
    (vs : Values)
    → AllU8 vs
    → (ns : List ℕ) × (read_bytes vs ≡ ok ns) × (length ns ≡ count_values vs)
unfolding read_bytes
read_bytes-ok no_values h = ([], refl, refl)
read_bytes-ok (value (u8 n) vs) h =
    let (ns, done, len) = read_bytes-ok vs h in (n ∷ ns, rw done refl, ap suc len)
read_bytes-ok (value _ vs) h = absurd h

read_binary-ok :
    (v : DynValue)
    → IsByteArray v
    → (ns : List ℕ) × (read_binary v ≡ ok ns) × (length ns ≤ count_elements v)
unfolding read_binary count_elements
read_binary-ok (array vs) h =
    let (ns, done, len) = read_bytes-ok vs h in (ns, done, omega (arith, len))
read_binary-ok _ h = absurd h

-- The bytes of a binary column are among the elements of the rows.
append_binary-ok :
    (vs : List (Option DynValue))
    → All (RowOf IsByteArray) vs
    → (rows : List (Option (List ℕ))) × (append_rows read_binary vs ≡ ok rows)
      × (length rows ≡ length vs)
      × (total_bytes rows ≤ elements_of_rows vs)
unfolding append_rows elements_of_rows
append_binary-ok [] h = ([], refl, refl, omega arith)
append_binary-ok (none ∷ vs) h =
    let (rows, done, len, size) = append_binary-ok vs h.1 in
    (none ∷ rows, rw done refl, ap suc len, size)
append_binary-ok (some v ∷ vs) h =
    let (a, e, small) = read_binary-ok v h.0 in
    let (rows, done, len, size) = append_binary-ok vs h.1 in
    (some a ∷ rows, rw (e, done) refl, ap suc len, omega (arith, small, size))

-- The predicates of the struct that an enum's variants become.
unfoldable pub variant_preds : Variants → List (DynValue → Type 0)
variant_preds no_variants = []
variant_preds (unit_variant _ variants) = OptionOf IsBool ∷ variant_preds variants
variant_preds (variant _ t variants) = OptionOf (HasType t) ∷ variant_preds variants

struct_inner-RowHas :
    (name : String) (v : OptValue) (variants : Variants)
    → HasPayload variants name v
    → RowHas (variant_preds variants) (struct_inner name v variants)
unfolding struct_inner HasType variant_preds
struct_inner-RowHas name v no_variants h = tt
struct_inner-RowHas name v (unit_variant n variants) h = (tt, struct_inner-RowHas name v variants h)
struct_inner-RowHas name v (variant n t variants) h =
    (chosen, struct_inner-RowHas name v variants h.1)
  where
    chosen : OptOf (HasType t) (if str_eq n name then v else no_value)
    chosen = elim (Bool-cases (str_eq n name)) [
      | inl same ↦ rw same (h.0 same)
      | inr other ↦ rw other tt
    ]

-- A payload that goes to several variants goes to several columns.
struct_inner-elements :
    (name : String) (v : OptValue) (variants : Variants)
    → elements_of_named (struct_inner name v variants) ≤ elements_of_option v
unfolding struct_inner count_elements
struct_inner-elements name v no_variants = omega arith
struct_inner-elements name v (unit_variant n variants) =
    greater-≤ _ _ _ (omega arith) (struct_inner-elements name v variants)
struct_inner-elements name v (variant n t variants) =
    greater-≤ _ _ _ payload (struct_inner-elements name v variants)
  where
    payload : elements_of_option (if str_eq n name then v else no_value) ≤ elements_of_option v
    payload = elim (Bool-cases (str_eq n name)) [
      | inl same ↦ rw same (omega arith)
      | inr other ↦ rw other (omega arith)
    ]

-- The rows of the struct that an enum becomes.
abbrev enum_preds : Variants → List (DynValue → Type 0)
enum_preds variants = IsNumber false 8 ∷ StructOf (variant_preds variants) ∷ []

make_struct-ok :
    (variants : Variants) (name : String) (v : OptValue)
    → EnumOf variants (HasPayload variants) (enum name v)
    → (row : DynValue) × (make_struct variants name v ≡ ok row)
      × StructOf (enum_preds variants) row
      × (count_elements row ≤ elements_of_option v)
unfolding make_struct integer_of in_range count_elements
make_struct-ok variants name v (found, typed) = elim (Option-cases (position name variants)) [
  | inl missing ↦ absurd (false≢true (rw missing at found))
  | inr (i, at_i) ↦ (
    struct (
        named "variant_index" (u8 (i % 2 ^ 8))
          (named "variant_data" (struct (struct_inner name v variants)) no_named)),
    rw (at_i, make_struct) refl,
    (
      (pos (i % 2 ^ 8), refl, lt→ltb (i % 2 ^ 8) (2 ^ 8) (omega arith)),
      (struct_inner-RowHas name v variants typed, tt),
    ),
    greater-≤ _ _ _ (omega arith)
        (greater-≤ _ _ _ (struct_inner-elements name v variants) (omega arith)),
  )
]

enum_rows-ok :
    (variants : Variants) (vs : List (Option DynValue))
    → All (RowOf (EnumOf variants (HasPayload variants))) vs
    → (rows : List (Option DynValue)) × (enum_rows variants vs ≡ ok rows)
      × All (RowOf (StructOf (enum_preds variants))) rows
      × (length rows ≡ length vs)
      × (elements_of_rows rows ≤ elements_of_rows vs)
unfolding enum_rows elements_of_rows count_elements
enum_rows-ok vars [] h = ([], refl, tt, refl, omega arith)
enum_rows-ok vars (none ∷ vs) h =
    let (rows, done, all, len, size) = enum_rows-ok vars vs h.1 in
    (none ∷ rows, rw done refl, (tt, all), ap suc len, size)
enum_rows-ok vars (some (enum name v) ∷ vs) h =
    let (row, made, typed, small) = make_struct-ok vars name v h.0 in
    let (rows, done, all, len, size) = enum_rows-ok vars vs h.1 in
    (some row ∷ rows, rw (made, done) refl, (typed, all), ap suc len, omega (arith, small, size))
enum_rows-ok vars (some _ ∷ vs) h = absurd h.0

module _ (B : Builders) (laws : BuilderLaws B) where
  pub to_decimal128-Converts :
      Converts B IsDecimal (DataType.decimal128 38 (pos 0)) (to_decimal128 B)
  unfolding to_decimal128
  to_decimal128-Converts vs h o =
      let (rows, done, len) = append_rows-ok IsDecimal read_decimal read_decimal-ok vs h in
      let (typed, count) = laws.primitive_lem (DataType.decimal128 38 (pos 0)) rows in
      (B.primitive (DataType.decimal128 38 (pos 0)) rows, rw done refl, typed, count ∙ len)

  pub to_bool-Converts : Converts B IsBool DataType.boolean (to_bool B)
  unfolding to_bool
  to_bool-Converts vs h o =
      let (rows, done, len) = append_rows-ok IsBool read_bool read_bool-ok vs h in
      let (typed, count) = laws.booleans_lem rows in
      (B.booleans rows, rw done refl, typed, count ∙ len)

  pub to_binary-Converts : Converts B IsByteArray DataType.binary (to_binary B)
  unfolding to_binary
  to_binary-Converts vs h o =
      let (rows, done, len, size) = append_binary-ok vs h in
      let (typed, count) = laws.binaries_lem rows (omega (arith, size, o)) in
      (B.binaries rows, rw done refl, typed, count ∙ len)

  pub to_enum-Converts :
      (variants : Variants) (cs : List (String × Converter B)) (f : Field) (fs : Types.Fields)
      → FieldsConvert B (variant_preds variants) cs (cons_field f fs)
      → Converts B
          (EnumOf variants (HasPayload variants))
          (DataType.struct (
            cons_field (Field.field "variant_index" DataType.uint8 true) (
              cons_field
                (Field.field "variant_data" (DataType.struct (cons_field f fs)) true)
                Types.Fields.no_fields)))
          (to_enum B variants cs)
  unfolding to_enum
  to_enum-Converts variants cs f fs k vs h o =
      let (rows, done, all, len, size) = enum_rows-ok variants vs h in
      let payload = to_struct-Converts B laws (variant_preds variants) cs f fs k in
      let (c, made, typed, count) =
        to_struct-Converts B laws (enum_preds variants)
          (("variant_index", to_number B DataType.uint8 false 8)
            ∷ ("variant_data", to_struct B cs)
            ∷ [])
          (Field.field "variant_index" DataType.uint8 true)
          (cons_field (Field.field "variant_data" (DataType.struct (cons_field f fs)) true)
            Types.Fields.no_fields)
          (refl, refl, to_number-Converts B laws DataType.uint8 false 8, (refl, refl, payload, tt))
          rows all (omega (arith, size, o)) in
      (c, rw done made, typed, count ∙ len)
