-- ===== src/Ingest/Common.antt =====
-- ingest/src/provider/common.rs: what the conversions of requests have in common.
pub mod Evm
pub mod Svm
pub mod Asked
use cherry_core.Base.{
  ℕ, String, Bool, true, false, List, [], ◌∷◌, map, Option, none, some, Result, ok, err, ◌>>=◌,
  if◌then◌else◌,
}
use cherry_core.Base.Dict.{Dict, insert}
use cherry_core.Base.Strings.{as_bytes}
use cherry_core.Arrow.Types.{uint8, binary, utf8}
use cherry_core.Arrow.Data.{Array, num, bytes}
use cherry_core.Query.Hashing.{Hashing}
use cherry_core.Query.Filter.{
  Filter, contains_filter, starts_with_filter, new_contains, new_starts_with,
}
use cherry_core.Query.Filter
use cherry_core.Query.Engine.{Include, TableSelection}

pub data Error : Type 0 where
  -- fields of a table are asked for that no request fetches
  never_fetched : String → Error
  -- `unwrap()` on an error
  panic : Filter.Error → Error

abbrev pub unwrap {ℓ} : {A : Type ℓ} → Result Filter.Error A → Result Error A
unwrap (ok a) = ok a
unwrap (err e) = err (panic e)

-- `from_iter_values` of the three array types.
abbrev pub binary_array : List (List ℕ) → Array
binary_array vs = record { data_type = binary; values = map bytes vs; nulls = none }

abbrev pub string_array : List String → Array
string_array vs = record {
  data_type = utf8;
  values = map (λ s. bytes (as_bytes s)) vs;
  nulls = none;
}

abbrev pub uint8_array : List ℕ → Array
uint8_array vs = record { data_type = uint8; values = map num vs; nulls = none }

abbrev pub is_empty {ℓ} : {A : Type ℓ} → List A → Bool
is_empty [] = true
is_empty (_ ∷ _) = false

-- A join that is pushed if its flag is set.
abbrev pub include_if : Bool → String → List String → List String → List Include → List Include
include_if flag other_table_name field_names other_table_field_names rest =
    if flag
    then record {
      other_table_name = other_table_name;
      field_names = field_names;
      other_table_field_names = other_table_field_names;
    }
      ∷ rest
    else rest

module _ (H : Hashing) where
  -- `Filter::contains` and `Filter::starts_with`
  unfoldable pub filter_contains : Array → Result Filter.Error (Filter H)
  filter_contains arr = do ct ← new_contains H arr; ok (contains_filter ct)

  unfoldable pub filter_starts_with : Array → Result Filter.Error (Filter H)
  filter_starts_with arr = do sw ← new_starts_with arr; ok (starts_with_filter sw)

  -- `filters.into_iter().filter_map(…).collect()`: a filter for each array with a value.
  unfoldable pub collect_filters :
      (String → Array → Result Filter.Error (Filter H))
      → List (String × Array)
      → Dict (Filter H)
      → Result Error (Dict (Filter H))
  collect_filters make [] out = ok out
  collect_filters make ((name, arr) ∷ arrays) out =
      if is_empty arr.values
      then collect_filters make arrays out
      else do f ← unwrap (make name arr); collect_filters make arrays (insert name f out)

  -- `requests.iter().map(convert).collect()`
  unfoldable pub collect_selections :
      {R : Type 0}
      → (R → Result Error (TableSelection H))
      → List R
      → Result Error (List (TableSelection H))
  collect_selections convert [] = ok []
  collect_selections convert (r ∷ rs) = do
    s ← convert r
    ss ← collect_selections convert rs
    ok (s ∷ ss)

  -- The selection of every row, without joins.
  abbrev pub every_row : TableSelection H
  every_row = record { filters = []; include = [] }

  -- `if query.include_all_blocks`
  abbrev pub with_all_blocks :
      Bool → Dict (List (TableSelection H)) → Dict (List (TableSelection H))
  with_all_blocks include_all_blocks selection =
      if include_all_blocks then insert "blocks" (every_row ∷ []) selection else selection
