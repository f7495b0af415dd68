-- ===== src/Svm/ArrowConverter/Typed.antt =====
-- Which values have which type, and the types on which `to_arrow` (svm-decode/src/arrow_converter.rs)
-- is considered.
use cherry_core.Base.{ℕ, ◌≡◌, ◌<◌, ◌^◌, Bool, true, false, List, [], ◌∷◌, some, String, ℤ, is_some}
use cherry_core.Base.Dict.{str_eq}
use cherry_core.Svm.Types.{
  DynType, Fields, Variants, DynValue, Values, NamedValues, OptValue, i8, i16, i32, i64, i128, u8,
  u16, u32, u64, u128, bool, fixed_array, array, struct, enum, option, no_fields, field,
  no_variants, unit_variant, variant, no_values, value, no_named, named, no_value, some_value,
}
use cherry_core.Svm.ArrowConverter.{is_u8, integer_of, in_range}
use cherry_core.Svm.ArrowConverter.Nested.{position}

abbrev pub IsNumber : Bool → ℕ → DynValue → Type 0
IsNumber signed bits v = (z : ℤ) × (integer_of v ≡ some z) × (in_range signed bits z ≡ true)

-- A decimal column holds the numbers of an i128.
abbrev pub IsDecimal : DynValue → Type 0
IsDecimal (i128 z) = Unit
IsDecimal (u128 n) = n < 2 ^ 127
IsDecimal _ = ⊥

abbrev pub IsBool : DynValue → Type 0
IsBool (bool b) = Unit
IsBool _ = ⊥

abbrev pub AllU8 : Values → Type 0
AllU8 no_values = Unit
AllU8 (value (u8 n) vs) = AllU8 vs
AllU8 _ = ⊥

abbrev pub IsByteArray : DynValue → Type 0
IsByteArray (array vs) = AllU8 vs
IsByteArray _ = ⊥

abbrev pub AllValues : (DynValue → Type 0) → Values → Type 0
AllValues P no_values = Unit
AllValues P (value v vs) = P v × AllValues P vs

abbrev pub ListOf : (DynValue → Type 0) → DynValue → Type 0
ListOf P (array vs) = AllValues P vs
ListOf P _ = ⊥

abbrev pub OptOf : (DynValue → Type 0) → OptValue → Type 0
OptOf P no_value = Unit
OptOf P (some_value v) = P v

abbrev pub OptionOf : (DynValue → Type 0) → DynValue → Type 0
OptionOf P (option o) = OptOf P o
OptionOf P _ = ⊥

-- One value for each of the predicates, in order.
abbrev pub RowHas : List (DynValue → Type 0) → NamedValues → Type 0
RowHas [] no_named = Unit
RowHas (P ∷ Ps) (named _ v vs) = P v × RowHas Ps vs
RowHas _ _ = ⊥

abbrev pub StructOf : List (DynValue → Type 0) → DynValue → Type 0
StructOf Ps (struct vs) = RowHas Ps vs
StructOf Ps _ = ⊥

abbrev pub EnumOf : Variants → (String → OptValue → Type 0) → DynValue → Type 0
EnumOf vars Q (enum name v) = (is_some (position name vars) ≡ true) × Q name v
EnumOf vars Q _ = ⊥

unfoldable mutual
  pub HasType : DynType → DynValue → Type 0
  HasType i8 = IsNumber true 8
  HasType i16 = IsNumber true 16
  HasType i32 = IsNumber true 32
  HasType i64 = IsNumber true 64
  HasType i128 = IsDecimal
  HasType u128 = IsDecimal
  HasType u8 = IsNumber false 8
  HasType u16 = IsNumber false 16
  HasType u32 = IsNumber false 32
  HasType u64 = IsNumber false 64
  HasType bool = IsBool
  HasType (fixed_array t size) = IsByteArray
  HasType (array t) = ListOf (HasType t)
  HasType (struct fields) = StructOf (field_preds fields)
  HasType (enum variants) = EnumOf variants (HasPayload variants)
  HasType (option t) = OptionOf (HasType t)

  pub field_preds : Fields → List (DynValue → Type 0)
  field_preds no_fields = []
  field_preds (field _ t fields) = HasType t ∷ field_preds fields

  -- A payload, if there is one, has the type of each variant of its name.
  pub HasPayload : Variants → String → OptValue → Type 0
  HasPayload no_variants name v = Unit
  HasPayload (unit_variant _ variants) name v = HasPayload variants name v
  HasPayload (variant n t variants) name v =
      (str_eq n name ≡ true → OptOf (HasType t) v) × HasPayload variants name v

-- Fixed arrays are of bytes only, and a struct or an enum has a field or a variant.
unfoldable mutual
  pub Supported : DynType → Type 0
  Supported (fixed_array t size) = is_u8 t ≡ true
  Supported (array t) = Supported t
  Supported (option t) = Supported t
  Supported (struct no_fields) = ⊥
  Supported (struct (field name t fields)) = Supported t × FieldsSupported fields
  Supported (enum no_variants) = ⊥
  Supported (enum (unit_variant name variants)) = VariantsSupported variants
  Supported (enum (variant name t variants)) = Supported t × VariantsSupported variants
  Supported _ = Unit

  pub FieldsSupported : Fields → Type 0
  FieldsSupported no_fields = Unit
  FieldsSupported (field _ t fields) = Supported t × FieldsSupported fields

  pub VariantsSupported : Variants → Type 0
  VariantsSupported no_variants = Unit
  VariantsSupported (unit_variant _ variants) = VariantsSupported variants
  VariantsSupported (variant _ t variants) = Supported t × VariantsSupported variants
