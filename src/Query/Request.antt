-- ===== src/Query/Request.antt =====
-- query/src/lib.rs: `Query::add_request_and_include_fields`.
pub mod Names
pub mod Fields
use cherry_core.Base.{
  ℕ, zero, suc, ◌+◌, ◌<◌, ◌≡◌, Bool, true, false, ◌&&◌, ◌||◌, not, List, [], ◌∷◌, ◌++◌, map, Option,
  none, some, Result, ok, err, ◌>>=◌, length, ◌==◌, if◌then◌else◌, replicate, String,
}
use cherry_core.Base.Dict.{Dict, get, insert, str_eq}
use cherry_core.Arrow.Types.{DataType}
use cherry_core.Arrow.Data.{Array, Mask, RecordBatch, column_by_name}
use cherry_core.Arrow.Kernels.{Kernels}
use cherry_core.Query.Hashing.{Hashing}
use cherry_core.Query.Filter.{
  Error, missing_table, missing_field, field_names_differ, lift, any, Contains, new_contains,
  contains, Filter, check,
}
use cherry_core.Query.Engine.{Include, TableSelection, Query, or_error, run_table_selection}

-- `&mut self` and `?`: the fields as they are left, and the error if there was one.
abbrev pub Update : Type 0
Update = Dict (List String) × Option Error

-- `get_mut(table)`, and the names pushed behind those that are there.
unfoldable pub extend_fields : String → List String → Dict (List String) → Update
extend_fields table names fields = elim (get table fields) [
  | none ↦ (fields, some (missing_table table))
  | some old ↦ (insert table (old ++ names) fields, none)
]

infixl 6 ◌then_do◌
abbrev pub ◌then_do◌ : Update → (Dict (List String) → Update) → Update
u then_do f = elim (u.1) [ none ↦ f u.0 | some e ↦ u ]

module _ (H : Hashing) where
  unfoldable pub add_filter_fields : String → Dict (Filter H) → Dict (List String) → Update
  unfolding extend_fields
  add_filter_fields table [] fields = (fields, none)
  add_filter_fields table ((col_name, _) ∷ filters) fields =
      extend_fields table (col_name ∷ []) fields then_do add_filter_fields table filters

  unfoldable pub add_include_fields : String → List Include → Dict (List String) → Update
  unfolding extend_fields
  add_include_fields table [] fields = (fields, none)
  add_include_fields table (inc ∷ incs) fields =
      extend_fields inc.other_table_name inc.other_table_field_names fields
      then_do extend_fields table inc.field_names
      then_do add_include_fields table incs

  unfoldable pub add_selection_fields :
      String → List (TableSelection H) → Dict (List String) → Update
  unfolding add_filter_fields add_include_fields
  add_selection_fields table [] fields = (fields, none)
  add_selection_fields table (selection ∷ selections) fields =
      add_filter_fields table selection.filters fields
      then_do add_include_fields table selection.include
      then_do add_selection_fields table selections

  unfoldable pub add_tables_fields : Dict (List (TableSelection H)) → Dict (List String) → Update
  unfolding add_selection_fields
  add_tables_fields [] fields = (fields, none)
  add_tables_fields ((table, selections) ∷ rest) fields =
      add_selection_fields table selections fields then_do add_tables_fields rest

  unfoldable pub add_request_and_include_fields : Query H → Query H × Option Error
  unfolding add_tables_fields
  add_request_and_include_fields query =
      let (fields, e) = add_tables_fields query.selection query.fields in
      (record query { fields = fields }, e)
