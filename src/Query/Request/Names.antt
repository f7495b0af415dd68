-- ===== src/Query/Request/Names.antt =====
-- The names that the filters and the joins of a query ask for, table by table.
use cherry_core.Base.{
  List, [], ◌∷◌, ◌++◌, Option, none, some, String, if◌then◌else◌, Bool, true, ◌&&◌, is_some,
}
use cherry_core.Base.Dict.{Dict, get, str_eq}
use cherry_core.Query.Hashing.{Hashing}
use cherry_core.Query.Filter.{Filter}
use cherry_core.Query.Engine.{Include, TableSelection}

-- A table, and the names that are asked of it at once.
abbrev pub Requests : Type 0
Requests = List (String × List String)

module _ (H : Hashing) where
  abbrev pub filter_requests : String → Dict (Filter H) → Requests
  filter_requests table [] = []
  filter_requests table ((name, _) ∷ filters) = (table, name ∷ []) ∷ filter_requests table filters

  -- A join asks for the key columns of both tables.
  abbrev pub include_requests : String → List Include → Requests
  include_requests table [] = []
  include_requests table (inc ∷ incs) =
      (inc.other_table_name, inc.other_table_field_names)
      ∷ (table, inc.field_names)
      ∷ include_requests table incs

  abbrev pub selection_requests : String → List (TableSelection H) → Requests
  selection_requests table [] = []
  selection_requests table (s ∷ ss) =
      filter_requests table s.filters
      ++ (include_requests table s.include ++ selection_requests table ss)

  -- What the filters and the joins of a query ask for.
  abbrev pub all_requests : Dict (List (TableSelection H)) → Requests
  all_requests [] = []
  all_requests ((table, selections) ∷ rest) =
      selection_requests table selections ++ all_requests rest

-- The names that are asked of one table, in order.
abbrev pub names_for : String → Requests → List String
names_for t [] = []
names_for t ((table, names) ∷ rs) =
    if str_eq table t then names ++ names_for t rs else names_for t rs

-- A table of `fields` keeps its names and has others behind them.
abbrev pub appended : Option (List String) → List String → Option (List String)
appended none names = none
appended (some old) names = some (old ++ names)

-- Whether `fields` has the table of every request.
abbrev pub all_named : Dict (List String) → Requests → Bool
all_named fields [] = true
all_named fields ((table, _) ∷ rs) = is_some (get table fields) && all_named fields rs
