-- ===== src/Svm/ArrowConverter/Agreement.antt =====
-- `to_arrow` against `to_arrow_dtype` (svm-decode/src/arrow_converter.rs).
use cherry_core.Base.{false, ◌≡◌, refl, true, ok, List, Option, All, length}
use cherry_core.Arrow.Builders.{Builders, BuilderLaws}
use cherry_core.Arrow.Types
use cherry_core.Arrow.Types.{DataType, Field, cons_field}
use cherry_core.Svm.Types.{
  DynType, Fields, Variants, i8, i16, i32, i64, i128, u8, u16, u32, u64, u128, bool, fixed_array,
  array, struct, enum, option, no_fields, field, no_variants, unit_variant, variant,
}
use cherry_core.Svm.ArrowConverter.{to_arrow_dtype, field_dtypes, variant_dtypes, DynValue}
use cherry_core.Svm.ArrowConverter.Nested.{
  to_arrow, field_converters, variant_converters, to_fixed_array,
}
use cherry_core.Svm.ArrowConverter.Typed.{
  IsBool, HasType, field_preds, Supported, FieldsSupported, VariantsSupported,
}
use cherry_core.Svm.ArrowConverter.Offsets.{OffsetsFit}
use cherry_core.Svm.ArrowConverter.Rows.{RowOf}
use cherry_core.Svm.ArrowConverter.Converters.{
  Converts, FieldsConvert, to_number-Converts, to_option-Converts, to_list-Converts,
  to_struct-Converts,
}
use cherry_core.Svm.ArrowConverter.Enums.{
  variant_preds, to_decimal128-Converts, to_bool-Converts, to_binary-Converts, to_enum-Converts,
}

module _ (B : Builders) (laws : BuilderLaws B) where
  mutual
    unfolding to_arrow_dtype to_arrow HasType Supported variant_preds to_fixed_array

    pub to_arrow-Converts :
        (t : DynType)
        → Supported t
        → (dt : DataType) × (to_arrow_dtype t ≡ ok dt) × Converts B (HasType t) dt (to_arrow B t)
    to_arrow-Converts i8 s = (_, refl, to_number-Converts B laws DataType.int8 true 8)
    to_arrow-Converts i16 s = (_, refl, to_number-Converts B laws DataType.int16 true 16)
    to_arrow-Converts i32 s = (_, refl, to_number-Converts B laws DataType.int32 true 32)
    to_arrow-Converts i64 s = (_, refl, to_number-Converts B laws DataType.int64 true 64)
    to_arrow-Converts i128 s = (_, refl, to_decimal128-Converts B laws)
    to_arrow-Converts u128 s = (_, refl, to_decimal128-Converts B laws)
    to_arrow-Converts u8 s = (_, refl, to_number-Converts B laws DataType.uint8 false 8)
    to_arrow-Converts u16 s = (_, refl, to_number-Converts B laws DataType.uint16 false 16)
    to_arrow-Converts u32 s = (_, refl, to_number-Converts B laws DataType.uint32 false 32)
    to_arrow-Converts u64 s = (_, refl, to_number-Converts B laws DataType.uint64 false 64)
    to_arrow-Converts bool s = (_, refl, to_bool-Converts B laws)
    to_arrow-Converts (fixed_array t size) s =
        (DataType.binary, rw s refl, λ vs h o. rw s (to_binary-Converts B laws vs h o))
    to_arrow-Converts (array t) s =
        let (dt, announced, convert) = to_arrow-Converts t s in
        (
          DataType.list (Field.field "" dt true),
          rw announced refl,
          λ vs h o.
              rw announced (to_list-Converts B laws (HasType t) dt (to_arrow B t) convert vs h o),
        )
    to_arrow-Converts (option t) s =
        let (dt, announced, convert) = to_arrow-Converts t s in
        (dt, announced, to_option-Converts B laws (HasType t) dt (to_arrow B t) convert)
    to_arrow-Converts (struct no_fields) s = absurd s
    to_arrow-Converts (struct (field name t fields)) (s, ss) =
        let (dt, announced, convert) = to_arrow-Converts t s in
        let (fs, dtypes, converts) = fields-Convert fields ss in
        (
          DataType.struct (cons_field (Field.field name dt true) fs),
          rw (announced, dtypes) refl,
          to_struct-Converts B laws (field_preds (field name t fields))
              (field_converters B (field name t fields)) (Field.field name dt true) fs
              (refl, refl, convert, converts),
        )
    to_arrow-Converts (enum no_variants) s = absurd s
    to_arrow-Converts (enum (unit_variant name variants)) s =
        let (fs, dtypes, converts) = variants-Convert variants s in
        (
          _,
          rw dtypes refl,
          to_enum-Converts B laws (unit_variant name variants)
              (variant_converters B (unit_variant name variants))
              (Field.field name DataType.boolean true) fs
              (
                refl,
                refl,
                to_option-Converts B laws IsBool DataType.boolean _ (to_bool-Converts B laws),
                converts,
              ),
        )
    to_arrow-Converts (enum (variant name t variants)) (s, ss) =
        let (dt, announced, convert) = to_arrow-Converts t s in
        let (fs, dtypes, converts) = variants-Convert variants ss in
        (
          _,
          rw (announced, dtypes) refl,
          to_enum-Converts B laws (variant name t variants)
              (variant_converters B (variant name t variants)) (Field.field name dt true) fs
              (
                refl,
                refl,
                to_option-Converts B laws (HasType t) dt (to_arrow B t) convert,
                converts,
              ),
        )

    fields-Convert :
        (fields : Fields)
        → FieldsSupported fields
        → (fs : Types.Fields) × (field_dtypes fields ≡ ok fs)
          × FieldsConvert B (field_preds fields) (field_converters B fields) fs
    fields-Convert no_fields s = (Types.Fields.no_fields, refl, tt)
    fields-Convert (field name t fields) (s, ss) =
        let (dt, announced, convert) = to_arrow-Converts t s in
        let (fs, dtypes, converts) = fields-Convert fields ss in
        (
          cons_field (Field.field name dt true) fs,
          rw (announced, dtypes) refl,
          (refl, refl, convert, converts),
        )

    variants-Convert :
        (variants : Variants)
        → VariantsSupported variants
        → (fs : Types.Fields) × (variant_dtypes variants ≡ ok fs)
          × FieldsConvert B (variant_preds variants) (variant_converters B variants) fs
    variants-Convert no_variants s = (Types.Fields.no_fields, refl, tt)
    variants-Convert (unit_variant name variants) s =
        let (fs, dtypes, converts) = variants-Convert variants s in
        (
          cons_field (Field.field name DataType.boolean true) fs,
          rw dtypes refl,
          (
            refl,
            refl,
            to_option-Converts B laws IsBool DataType.boolean _ (to_bool-Converts B laws),
            converts,
          ),
        )
    variants-Convert (variant name t variants) (s, ss) =
        let (dt, announced, convert) = to_arrow-Converts t s in
        let (fs, dtypes, converts) = variants-Convert variants ss in
        (
          cons_field (Field.field name dt true) fs,
          rw (announced, dtypes) refl,
          (refl, refl, to_option-Converts B laws (HasType t) dt (to_arrow B t) convert, converts),
        )

  -- A supported type has an arrow type, and values of the type, with nulls among them, become an
  -- array of that arrow type with a row for each, if the elements of the lists and binary values in
  -- them, of a struct those of its largest field, are fewer than 2^31, so that no i32 offset
  -- overflows.
  pub to_arrow-to_arrow_dtype :
      (t : DynType) (vs : List (Option DynValue))
      → Supported t
      → All (RowOf (HasType t)) vs
      → OffsetsFit vs
      → (dt : DataType) × (c : B.Column) × (to_arrow_dtype t ≡ ok dt)
        × (to_arrow B t vs ≡ ok c)
        × (B.data_type c ≡ dt)
        × (B.len c ≡ length vs)
  to_arrow-to_arrow_dtype t vs s h o =
      let (dt, announced, convert) = to_arrow-Converts t s in
      let (c, made, typed, count) = convert vs h o in (dt, c, announced, made, typed, count)
