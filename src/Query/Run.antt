-- ===== src/Query/Run.antt =====
-- query/src/lib.rs: `select_fields` and `run_query`. The loops that the code runs in parallel are run
-- in order here; they share nothing but their inputs.
pub mod Combine
pub mod Projection
pub mod Unreferenced
use cherry_core.Base.{
  ℕ, zero, suc, ◌+◌, ◌<◌, ◌≡◌, Bool, true, false, ◌&&◌, ◌||◌, not, List, [], ◌∷◌, ◌++◌, map, Option,
  none, some, Result, ok, err, ◌>>=◌, length, ◌==◌, if◌then◌else◌, replicate, String,
}
use cherry_core.Base.Dict.{Dict, get, insert, str_eq}
use cherry_core.Arrow.Types.{DataType}
use cherry_core.Arrow.Data.{Array, Mask, RecordBatch, column_by_name}
use cherry_core.Arrow.Kernels.{Kernels}
use cherry_core.Query.Hashing.{Hashing}
use cherry_core.Query.Filter.{
  Error, missing_table, missing_field, field_names_differ, lift, any, Contains, new_contains,
  contains, Filter, check,
}
use cherry_core.Query.Engine.{Include, TableSelection, Query, or_error, run_table_selection}

-- The indices of the columns whose name is in the list, from index `i` on.
unfoldable pub indices_of : List String → ℕ → List (String × Array) → List ℕ
indices_of names i [] = []
indices_of names i ((name, _) ∷ cs) =
    if any (λ n. str_eq n name) names
    then i ∷ indices_of names (i + 1) cs
    else indices_of names (i + 1) cs

-- The loop over the tables of the projection.
unfoldable pub select_into :
    Kernels
    → Dict RecordBatch
    → Dict (List String)
    → Dict RecordBatch
    → Result Error (Dict RecordBatch)
unfolding indices_of
select_into K tables [] out = ok out
select_into K tables ((table_name, field_names) ∷ fields) out = do
  table_data ← or_error (missing_table table_name) (get table_name tables)
  projected ← lift (K.project table_data (indices_of field_names 0 table_data.columns))
  select_into K tables fields (insert table_name projected out)

unfoldable pub select_fields :
    Kernels → Dict RecordBatch → Dict (List String) → Result Error (Dict RecordBatch)
unfolding select_into
select_fields K tables fields = select_into K tables fields []

-- `match combined_filter { Some(e) => or(e, filter), None => filter.clone() }`
unfoldable pub or_with : Kernels → Option Mask → Mask → Result Error Mask
or_with K none f = ok f
or_with K (some e) f = lift (K.or e f)

-- The masks that the selections have for one table, or-ed into one; `none` if there is none. The
-- code's two nested loops run over the selections of a table and over the tables.
unfoldable pub combine_masks :
    Kernels → String → List (Dict Mask) → Option Mask → Result Error (Option Mask)
unfolding or_with
combine_masks K table_name [] combined = ok combined
combine_masks K table_name (f ∷ fs) combined = elim (get table_name f) [
  | none ↦ combine_masks K table_name fs combined
  | some filter ↦ do e ← or_with K combined filter; combine_masks K table_name fs (some e)
]

-- The tables of the projection that a selection has a mask for, filtered.
unfoldable pub filter_tables :
    Kernels
    → List (Dict Mask)
    → Dict RecordBatch
    → Dict RecordBatch
    → Result Error (Dict RecordBatch)
unfolding combine_masks
filter_tables K filters [] out = ok out
filter_tables K filters ((table_name, table_data) ∷ tables) out = do
  combined ← combine_masks K table_name filters none
  elim combined [
    | none ↦ filter_tables K filters tables out
    | some mask ↦ do
      filtered ← lift (K.filter_record_batch table_data mask)
      filter_tables K filters tables (insert table_name filtered out)
  ]

module _ (H : Hashing) (K : Kernels) where
  unfoldable pub run_selections :
      Dict RecordBatch → String → List (TableSelection H) → Result Error (List (Dict Mask))
  unfolding run_table_selection
  run_selections tables table_name [] = ok []
  run_selections tables table_name (selection ∷ selections) = do
    f ← run_table_selection H K tables table_name selection
    fs ← run_selections tables table_name selections
    ok (f ∷ fs)

  unfoldable pub run_all_selections :
      Dict RecordBatch → Dict (List (TableSelection H)) → Result Error (List (Dict Mask))
  unfolding run_selections
  run_all_selections tables [] = ok []
  run_all_selections tables ((table_name, selections) ∷ rest) = do
    fs ← run_selections tables table_name selections
    gs ← run_all_selections tables rest
    ok (fs ++ gs)

  unfoldable pub run_query : Dict RecordBatch → Query H → Result Error (Dict RecordBatch)
  unfolding run_all_selections select_fields filter_tables
  run_query tables query = do
    filters ← run_all_selections tables query.selection
    projected ← select_fields K tables query.fields
    filter_tables K filters projected []
