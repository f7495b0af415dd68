-- ===== src/Svm/ArrowConverter/Pipeline.antt =====
-- From bytes to arrays: `deserialize_value`, `to_arrow_dtype` and `to_arrow` one after the other.
use cherry_core.Base.{ℕ, ◌≡◌, List, [], ◌∷◌, Option, none, some, ok, IsBytes, All, length}
use cherry_core.Arrow.Types.{DataType}
use cherry_core.Arrow.Builders.{Builders, BuilderLaws}
use cherry_core.Svm.Types.{DynType, DynValue}
use cherry_core.Svm.Deserialize.{deserialize_value}
use cherry_core.Svm.Deserialize.Sound.{FitsUsize}
use cherry_core.Svm.Deserialize.Program.{deserialize_value-eq_ok_iff}
use cherry_core.Svm.ArrowConverter.{to_arrow_dtype}
use cherry_core.Svm.ArrowConverter.Nested.{to_arrow}
use cherry_core.Svm.ArrowConverter.Typed.{HasType, Supported}
use cherry_core.Svm.ArrowConverter.Offsets.{OffsetsFit}
use cherry_core.Svm.ArrowConverter.Rows.{RowOf}
use cherry_core.Svm.ArrowConverter.Decoded.{Plain, Encodes-HasType}
use cherry_core.Svm.ArrowConverter.Agreement.{to_arrow-to_arrow_dtype}

-- A value that the deserializer returned for some bytes.
abbrev pub WasRead : DynType → DynValue → Type 0
WasRead t v =
    (bytes : List ℕ) × (rest : List ℕ) × IsBytes bytes × (deserialize_value t bytes ≡ ok (v, rest))

read-HasType : (t : DynType) (v : DynValue) → Plain t → FitsUsize t → WasRead t v → HasType t v
read-HasType t v plain fits (bytes, rest, byte, e) =
    let (bs, same, k) = (deserialize_value-eq_ok_iff t bytes rest v fits byte).0 e in
    Encodes-HasType k plain

rows_read :
    (t : DynType) (vs : List (Option DynValue))
    → Plain t
    → FitsUsize t
    → All (RowOf (WasRead t)) vs
    → All (RowOf (HasType t)) vs
rows_read t [] plain fits h = tt
rows_read t (none ∷ vs) plain fits h = (tt, rows_read t vs plain fits h.1)
rows_read t (some v ∷ vs) plain fits h =
    (read-HasType t v plain fits h.0, rows_read t vs plain fits h.1)

module _ (B : Builders) (laws : BuilderLaws B) where
  -- Values that the deserializer returned for a type, with nulls among them, become an array of the
  -- arrow type that is announced, with a row for each, if the type is supported, its fixed arrays
  -- fit a usize, it has no u128 and no two variants of one name, and the elements of the lists and
  -- binary values in the rows, of a struct those of its largest field, are fewer than 2^31, so that
  -- no i32 offset overflows.
  pub to_arrow-deserialize_value :
      (t : DynType) (vs : List (Option DynValue))
      → Plain t
      → Supported t
      → FitsUsize t
      → All (RowOf (WasRead t)) vs
      → OffsetsFit vs
      → (dt : DataType) × (c : B.Column) × (to_arrow_dtype t ≡ ok dt)
        × (to_arrow B t vs ≡ ok c)
        × (B.data_type c ≡ dt)
        × (B.len c ≡ length vs)
  to_arrow-deserialize_value t vs plain supported fits h o =
      to_arrow-to_arrow_dtype B laws t vs supported (rows_read t vs plain fits h) o
