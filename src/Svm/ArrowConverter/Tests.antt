-- ===== src/Svm/ArrowConverter/Tests.antt =====
-- Runs of svm-decode/src/arrow_converter.rs on a few values.
use cherry_core.Base.{
  from_le_bytes, to_signed, ◌≡◌, refl, List, [], ◌∷◌, Option, none, some, ok, pos, negsuc, All,
  arith,
}
use cherry_core.Svm.ArrowConverter.{to_arrow_dtype, integer_of, in_range}
use cherry_core.Svm.ArrowConverter.Decoded.{Plain}
use cherry_core.Svm.ArrowConverter.Pipeline.{to_arrow-deserialize_value}
use cherry_core.Svm.ArrowConverter.Agreement.{to_arrow-to_arrow_dtype}
use cherry_core.Svm.Deserialize.{deserialize_value}
use cherry_core.Svm.Deserialize.Sound.{FitsUsize}
use cherry_core.Arrow.Types.{DataType}
use cherry_core.Arrow.Shapes.{shapes, shapes_laws}
use cherry_core.Svm.Types.{
  DynType, DynValue, field, no_fields, named, no_named, variant, unit_variant, no_variants,
  some_value,
}
use cherry_core.Svm.ArrowConverter.Nested.{to_arrow, position}
use cherry_core.Svm.ArrowConverter.Typed.{Supported, HasType}
use cherry_core.Svm.ArrowConverter.Offsets.{elements_of_rows}
use cherry_core.Svm.ArrowConverter.Rows.{RowOf}

abbrev order : DynType
order = DynType.struct (
    field "side" (DynType.enum (unit_variant "bid" (variant "ask" DynType.u8 no_variants)))
      (field "change" (DynType.option DynType.i16) no_fields))

abbrev orders : List (Option DynValue)
orders =
    some (
      DynValue.struct (
        named "side" (DynValue.enum "ask" (some_value (DynValue.u8 7)))
          (named "change" (DynValue.option (some_value (DynValue.i16 (negsuc 4)))) no_named)))
    ∷ none
    ∷ []

orders-HasType : All (RowOf (HasType order)) orders
unfolding HasType integer_of in_range position
orders-HasType =
    (((refl, ((λ _. (pos 7, refl, refl)), tt)), ((negsuc 4, refl, refl), tt)), (tt, tt))

to_arrow-to_arrow_dtype_example :
    (dt : DataType) × (c : shapes.Column) × (to_arrow_dtype order ≡ ok dt)
    × (to_arrow shapes order orders ≡ ok c)
    × (shapes.data_type c ≡ dt)
    × (shapes.len c ≡ 2)
unfolding Supported elements_of_rows
to_arrow-to_arrow_dtype_example =
    to_arrow-to_arrow_dtype shapes shapes_laws order orders ((tt, tt), (tt, tt)) orders-HasType
      (omega arith)

to_arrow-deserialize_value_example :
    (dt : DataType) × (c : shapes.Column) × (to_arrow_dtype order ≡ ok dt)
    × (to_arrow shapes order orders ≡ ok c)
    × (shapes.data_type c ≡ dt)
    × (shapes.len c ≡ 2)
unfolding Supported Plain FitsUsize elements_of_rows deserialize_value position from_le_bytes
    to_signed
to_arrow-deserialize_value_example =
    to_arrow-deserialize_value shapes shapes_laws order orders ((refl, (refl, tt, tt)), (tt, tt))
      ((tt, tt), (tt, tt)) ((tt, tt), (tt, tt))
      (
        (
          1 ∷ 7 ∷ 1 ∷ 251 ∷ 255 ∷ [],
          [],
          (omega arith, (omega arith, (omega arith, (omega arith, (omega arith, tt))))),
          refl,
        ),
        (tt, tt),
      )
      (omega arith)
