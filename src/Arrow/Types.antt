-- ===== src/Arrow/Types.antt =====
-- Arrow's data types: the constructors that the source names, and `other` for the rest.
use cherry_core.Base.{ℕ, String, Bool, true, ℤ, ◌≡◌, refl, ◌↔◌}
use mathlib.Core.Bool.{decide, false≢true}
use cherry_core.Base.Dict.{String-discrete}
use native.Mathlib.Decide.{ℕ_discrete}

mutual
  pub data DataType : Type 0 where
    boolean int8 int16 int32 int64 uint8 uint16 uint32 uint64 : DataType
    float32 float64 binary large_binary utf8 large_utf8 : DataType
    decimal128 decimal256 : ℕ → ℤ → DataType
    list : Field → DataType
    fixed_size_list : Field → ℤ → DataType
    struct : Fields → DataType
    other : String → DataType

  -- Name, data type and nullability.
  pub data Field : Type 0 where
    field : String → DataType → Bool → Field

  pub data Fields : Type 0 where
    no_fields : Fields
    cons_field : Field → Fields → Fields

unfoldable pub ℤ-discrete : Discrete ℤ
ℤ-discrete = hlevel ℕ_discrete

unfoldable pub DataType-discrete : Discrete DataType
DataType-discrete = hlevel (ℕ_discrete, ℤ-discrete, String-discrete)

-- `==` on data types.
unfoldable pub same_type : DataType → DataType → Bool
unfolding DataType-discrete decide
same_type a b = decide (DataType-discrete a b)

pub same_type_iff : (a b : DataType) → (same_type a b ≡ true) ↔ (a ≡ b)
unfolding same_type
same_type_iff a b = go (DataType-discrete a b)
  where
    go : (d : Dec (a ≡ b)) → (decide d ≡ true) ↔ (a ≡ b)
    go (yes e) = (λ _. e, λ _. refl)
    go (no n) = (λ h. absurd (false≢true h), λ e. absurd (n e))
