-- ===== src/Query/Engine.antt =====
-- query/src/lib.rs: queries and `run_table_selection`.
pub mod Cache
pub mod Selection
use cherry_core.Base.{
  ℕ, zero, suc, ◌+◌, ◌<◌, ◌≡◌, Bool, true, false, ◌&&◌, ◌||◌, not, List, [], ◌∷◌, ◌++◌, map, Option,
  none, some, Result, ok, err, ◌>>=◌, length, ◌==◌, if◌then◌else◌, replicate, String,
}
use cherry_core.Base.Dict.{Dict, get, insert, str_eq}
use cherry_core.Arrow.Types.{DataType}
use cherry_core.Arrow.Data.{Array, Mask, RecordBatch, column_by_name}
use cherry_core.Arrow.Kernels.{Kernels}
use cherry_core.Query.Hashing.{Hashing}
use cherry_core.Query.Filter.{
  Error, missing_table, missing_field, field_names_differ, lift, any, Contains, new_contains,
  contains, Filter, check,
}

pub record Include : Type 0 where
  pub other_table_name : String
  pub field_names : List String
  pub other_table_field_names : List String

pub record TableSelection (H : Hashing) : Type 0 where
  pub filters : Dict (Filter H)
  pub include : List Include

pub record Query (H : Hashing) : Type 0 where
  pub selection : Dict (List (TableSelection H))
  pub fields : Dict (List String)

-- `.with_context(…)?` on an option
abbrev pub or_error {ℓ} : {A : Type ℓ} → Error → Option A → Result Error A
or_error e none = err e
or_error e (some a) = ok a

-- The data types and the arrays of some columns, for `columns_to_binary_array`.
unfoldable pub field_types : List (String × Array) → List String → Result Error (List DataType)
field_types columns [] = ok []
field_types columns (name ∷ names) = do
  a ← or_error (missing_field name) (column_by_name name columns)
  ts ← field_types columns names
  ok (a.data_type ∷ ts)

unfoldable pub columns_named : List (String × Array) → List String → Result Error (List Array)
columns_named columns [] = ok []
columns_named columns (name ∷ names) = do
  a ← or_error (missing_field name) (column_by_name name columns)
  cs ← columns_named columns names
  ok (a ∷ cs)

unfoldable pub columns_to_binary_array : Kernels → RecordBatch → List String → Result Error Array
unfolding field_types columns_named
columns_to_binary_array K table_data column_names = do
  ts ← field_types table_data.columns column_names
  cs ← columns_named table_data.columns column_names
  lift (K.rows_to_binary ts cs)

abbrev pub names_eq : List String → List String → Bool
names_eq [] [] = true
names_eq (a ∷ xs) (b ∷ ys) = str_eq a b && names_eq xs ys
names_eq _ _ = false

module _ (H : Hashing) (K : Kernels) where
  -- The filters that were made for a list of field names.
  abbrev pub Cache : Type 0
  Cache = List (List String × Contains H)

  unfoldable pub cached : List String → Cache → Option (Contains H)
  cached names [] = none
  cached names ((ns, ct) ∷ cache) = if names_eq ns names then some ct else cached names cache

  -- `match combined_filter { Some(cf) => and(cf, f), None => f }`
  unfoldable pub and_with : Option Mask → Mask → Result Error Mask
  and_with none f = ok f
  and_with (some cf) f = lift (K.and cf f)

  -- The loop over the filters of a selection.
  unfoldable pub combine_filters :
      RecordBatch → Dict (Filter H) → Option Mask → Result Error (Option Mask)
  unfolding and_with
  combine_filters table_data [] combined = ok combined
  combine_filters table_data ((field_name, filter) ∷ filters) combined = do
    col ← or_error (missing_field field_name) (column_by_name field_name table_data.columns)
    f ← check H K filter col
    cf ← and_with combined f
    combine_filters table_data filters (some cf)

  -- Without a filter every row is selected.
  abbrev pub or_all_rows : RecordBatch → Option Mask → Mask
  or_all_rows table_data none = replicate table_data.num_rows (some true)
  or_all_rows table_data (some cf) = cf

  -- The join keys of the selected rows, as a `Contains` filter.
  unfoldable pub selected_keys : Array → Mask → Result Error (Contains H)
  selected_keys self_arr combined = do
    filtered ← lift (K.filter self_arr combined)
    new_contains H filtered

  -- `match filtered_cache.entry(…)`
  unfoldable pub keys_via_cache :
      Mask → List String → Array → Option (Contains H) → Cache → Result Error (Contains H × Cache)
  unfolding selected_keys
  keys_via_cache combined names self_arr (some ct) cache = ok (ct, cache)
  keys_via_cache combined names self_arr none cache = do
    ct ← selected_keys self_arr combined
    ok (ct, (names, ct) ∷ cache)

  -- `match out.entry(…)`
  unfoldable pub or_into : String → Mask → Option Mask → Dict Mask → Result Error (Dict Mask)
  or_into table f none out = ok (insert table f out)
  or_into table f (some e) out = do new ← lift (K.or e f); ok (insert table new out)

  -- The rows of the other table whose keys are among the selected ones, and their place in `out`.
  unfoldable pub join_into :
      Contains H → RecordBatch → Include → Dict Mask → Result Error (Dict Mask)
  unfolding columns_to_binary_array or_into
  join_into ct other_table_data inc out = do
    other_arr ← columns_to_binary_array K other_table_data inc.other_table_field_names
    f ← contains H K ct other_arr
    or_into inc.other_table_name f (get inc.other_table_name out) out

  module _ (tables : Dict RecordBatch) (table_data : RecordBatch) (combined : Mask) where
    -- The loop over the joins of a selection, from number `i` on.
    unfoldable pub run_includes : ℕ → List Include → Cache → Dict Mask → Result Error (Dict Mask)
    unfolding columns_to_binary_array cached keys_via_cache join_into
    run_includes i [] cache out = ok out
    run_includes i (inc ∷ incs) cache out =
        if not (length inc.other_table_field_names == length inc.field_names)
        then err
            (field_names_differ i (length inc.field_names) (length inc.other_table_field_names))
        else do
          other_table_data ←
              or_error (missing_table inc.other_table_name) (get inc.other_table_name tables)
          self_arr ← columns_to_binary_array K table_data inc.field_names
          (ct, cache') ←
              keys_via_cache combined inc.field_names self_arr (cached inc.field_names cache) cache
          out' ← join_into ct other_table_data inc out
          run_includes (i + 1) incs cache' out'

  unfoldable pub run_table_selection :
      Dict RecordBatch → String → TableSelection H → Result Error (Dict Mask)
  unfolding combine_filters run_includes
  run_table_selection tables table_name selection = do
    table_data ← or_error (missing_table table_name) (get table_name tables)
    cf ← combine_filters table_data selection.filters none
    let combined = or_all_rows table_data cf
    run_includes tables table_data combined 0 selection.include [] (insert table_name combined [])
