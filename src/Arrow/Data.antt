-- ===== src/Arrow/Data.antt =====
-- Arrow arrays, Boolean masks and record batches, as far as the source looks into them: the buffer of
-- values, which has an entry also where a row is null, and the validity bits beside it.
use cherry_core.Base.{
  ℕ, zero, suc, Bool, true, false, List, [], ◌∷◌, map, Option, none, some, String, ltb,
  if◌then◌else◌, ◌≡◌,
}
use cherry_core.Base.Dict.{str_eq}
use cherry_core.Arrow.Types.{DataType}

-- One entry of a value buffer: a number by its bit pattern, the bytes of a binary value or of a text,
-- or a bit of a Boolean array.
pub data Scalar : Type 0 where
  num : ℕ → Scalar
  bytes : List ℕ → Scalar
  flag : Bool → Scalar

pub record Array : Type 0 where
  pub data_type : DataType
  pub values : List Scalar
  -- `nulls()`; `true` is valid
  pub nulls : Option (List Bool)

abbrev pub null_count : List Bool → ℕ
null_count [] = 0
null_count (true ∷ bits) = null_count bits
null_count (false ∷ bits) = suc (null_count bits)

abbrev pub has_null : Option (List Bool) → Bool
has_null none = false
has_null (some bits) = ltb 0 (null_count bits)

abbrev pub is_nullable : Array → Bool
is_nullable a = has_null a.nulls

-- A Boolean array by its rows: `none` is null.
abbrev pub Mask : Type 0
Mask = List (Option Bool)

-- `BooleanArray::from(bits)`
abbrev pub of_bits : List Bool → Mask
of_bits = map some

abbrev pub slot_of : Scalar → Bool → Option Bool
slot_of (flag b) true = some b
slot_of _ _ = none

abbrev pub all_flags : List Scalar → Mask
all_flags [] = []
all_flags (v ∷ vs) = slot_of v true ∷ all_flags vs

abbrev pub flags_at : List Scalar → List Bool → Mask
flags_at (v ∷ vs) (valid ∷ bits) = slot_of v valid ∷ flags_at vs bits
flags_at _ _ = []

-- The rows of a Boolean array.
abbrev pub boolean_rows : List Scalar → Option (List Bool) → Mask
boolean_rows values none = all_flags values
boolean_rows values (some bits) = flags_at values bits

-- `downcast_ref::<BooleanArray>()`, which succeeds on Boolean arrays.
abbrev pub if_boolean : DataType → Mask → Option Mask
if_boolean DataType.boolean m = some m
if_boolean _ m = none

abbrev pub as_boolean : Array → Option Mask
as_boolean a = if_boolean a.data_type (boolean_rows a.values a.nulls)

pub if_boolean-eq_some : (t : DataType) (m n : Mask) → if_boolean t m ≡ some n → m ≡ n
if_boolean-eq_some DataType.boolean m n h = cc
if_boolean-eq_some _ m n h = cc

abbrev pub is_valid : Option Bool → Bool
is_valid none = false
is_valid (some _) = true

-- Whether the row is kept by a filter: a null is not.
abbrev pub is_true : Option Bool → Bool
is_true (some true) = true
is_true _ = false

abbrev pub row : Mask → ℕ → Bool
row [] i = false
row (s ∷ m) zero = is_true s
row (s ∷ m) (suc i) = row m i

-- A column is a field's name and its array.
pub record RecordBatch : Type 0 where
  pub columns : List (String × Array)
  pub num_rows : ℕ

-- `column_by_name`: the first column of that name.
unfoldable pub column_by_name : String → List (String × Array) → Option Array
column_by_name name [] = none
column_by_name name ((n, a) ∷ cs) = if str_eq n name then some a else column_by_name name cs
