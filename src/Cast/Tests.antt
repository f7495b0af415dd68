-- ===== src/Cast/Tests.antt =====
-- Runs of cast/src/lib.rs on a small batch.
use cherry_core.Base.{sym, ap, Result, ◌≡◌, ◌≢◌, refl, true, false, [], ◌∷◌, none, ok, All}
use cherry_core.Arrow.Kernels.{ArrowError}
use cherry_core.Cast.Types.{TypesMatch, cast-cast_schema, cast_by_type-cast_schema_by_type}
use cherry_core.Arrow.Types.{field, int32, int64, float64, same_type}
use cherry_core.Arrow.Data.{Array, num}
use cherry_core.Cast.{
  Batch, Casting, CastingLaws, cast, cast_by_type, cast_schema, cast_schema_by_type,
}

-- Casts that change the type and keep the values.
abbrev relabel : Casting
relabel = record {
  cast_with_options = λ safe a dt. ok (record a { data_type = dt });
  is_floating = λ dt. same_type dt float64;
  try_new = λ fs cs. ok (record { schema = fs; columns = cs });
}

ok_inj : {A : Type 0} {a b : A} → ◌≡◌ {A = Result ArrowError A} (ok a) (ok b) → a ≡ b
ok_inj h = cc

relabel_laws : CastingLaws relabel
relabel_laws = record {
  cast_lem = λ safe a b dt e. sym (ap (λ (x : Array). x.data_type) (ok_inj e));
  try_new_lem = λ fs cs b e. sym (ok_inj e);
}

abbrev counts : Array
counts = record { data_type = int32; values = num 1 ∷ []; nulls = none }

abbrev batch : Batch
batch = record {
  schema = field "a" int32 true ∷ field "b" int32 false ∷ [];
  columns = counts ∷ counts ∷ [];
}

abbrev first_cast : Batch
first_cast = record {
  schema = field "a" int64 true ∷ field "b" int32 false ∷ [];
  columns = record counts { data_type = int64 } ∷ counts ∷ [];
}

abbrev all_cast : Batch
all_cast = record {
  schema = field "a" int64 true ∷ field "b" int64 false ∷ [];
  columns = record counts { data_type = int64 } ∷ record counts { data_type = int64 } ∷ [];
}

cast-cast_schema_example :
    (first_cast.schema ≡ cast_schema (("a", int64) ∷ []) batch.schema)
    × TypesMatch first_cast.schema first_cast.columns
unfolding cast
cast-cast_schema_example =
    cast-cast_schema relabel relabel_laws (("a", int64) ∷ []) batch first_cast false
      (refl, (refl, tt)) refl

cast_by_type-cast_schema_by_type_example :
    (all_cast.schema ≡ cast_schema_by_type batch.schema int32 int64)
    × TypesMatch all_cast.schema all_cast.columns
    × All (λ c. c.data_type ≢ int32) all_cast.columns
unfolding cast_by_type same_type
cast_by_type-cast_schema_by_type_example =
    cast_by_type-cast_schema_by_type relabel relabel_laws batch all_cast int32 int64 true
      (refl, (refl, tt)) refl (λ e. cc)
