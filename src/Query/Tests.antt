-- ===== src/Query/Tests.antt =====
-- Runs of the query engine on small tables, with a hash table that is a list of entries and the
-- concrete arrow kernels.
use cherry_core.Base.{
  ℕ, ◌≡◌, ◌⊎◌, refl, inl, true, false, ◌&&◌, List, [], ◌∷◌, Option, none, some, ok, length, String,
  replicate, map, ◌<◌, is_some,
}
use cherry_core.Arrow.Data.{column_by_name, num, bytes, flag, Array, Mask, RecordBatch, row}
use cherry_core.Query.Engine.{Query, Include, run_includes, combine_filters, or_all_rows}
use cherry_core.Base.Dict.{insert, Dict, get}
use cherry_core.Arrow.Types.{uint8, binary, DataType, same_type}
use cherry_core.Arrow.Reference.{reference, reference_laws}
use cherry_core.Query.Reference.{by_length, by_length_laws}
use cherry_core.Query.Filter.{
  primitive, layout_of, scalar_eq, any, fill, Contains, new_contains, contains_value, contains,
  new_starts_with, starts_with, check_bool, Filter, bool_filter, scalar_has_prefix, check,
  contains_filter,
}
use cherry_core.Query.Filter.Membership.{contains_value-new_contains}
use cherry_core.Query.Filter.Rows.{
  IsColumn, passing_rows, contains-rows, starts_with-rows, bool_row, check_bool-rows,
}
use cherry_core.Query.Engine.Cache.{run_includes_uncached, run_includes-eq-uncached}
use cherry_core.Query.Engine.Selection.{IsTable, row_in_all, combine_filters-rows}
use cherry_core.Query.Request.{add_request_and_include_fields}
use cherry_core.Query.Request.Names.{all_named, all_requests, appended, names_for}
use cherry_core.Query.Request.Fields.{add_request_and_include_fields-get}
use cherry_core.Query.Run.{combine_masks, select_fields, run_query}
use cherry_core.Query.Run.Unreferenced.{run_query-Unmentioned}
use cherry_core.Query.Run.Combine.{masks_for, valid_in_all, row_in_any, combine_masks-rows}
use cherry_core.Query.Run.Projection.{projected, select_fields-get}

-- 129 keys, for which a filter has a hash table.
abbrev many_keys : Array
many_keys = record { data_type = uint8; values = num 3 ∷ replicate 128 (num 5); nulls = none }

abbrev many_keys_filter : Contains by_length
many_keys_filter = record {
  array = many_keys;
  hash_table = some (
      fill by_length (primitive 1) many_keys.values 0 many_keys.values
        (by_length.with_capacity 129));
}

contains_value-new_contains_example :
    contains_value by_length (primitive 1) many_keys_filter (num 5)
    ≡ any (λ x. scalar_eq x (num 5)) many_keys.values
unfolding layout_of new_contains by_length
contains_value-new_contains_example =
    contains_value-new_contains by_length by_length_laws many_keys (primitive 1) many_keys_filter
      (num 5) refl refl

-- Three rows, of which the second is null.
abbrev amounts : Array
amounts = record {
  data_type = uint8;
  values = num 5 ∷ num 5 ∷ num 6 ∷ [];
  nulls = some (true ∷ false ∷ true ∷ []);
}

amounts-IsColumn : IsColumn 3 amounts
amounts-IsColumn = record { all_rows = refl; all_bits = λ bits e. cc }

few_keys : Array
few_keys = record { data_type = uint8; values = num 3 ∷ num 5 ∷ []; nulls = none }

abbrev few_keys_filter : Contains by_length
few_keys_filter = record { array = few_keys; hash_table = none }

contains-rows_example :
    contains by_length reference few_keys_filter amounts
    ≡ ok (passing_rows (λ v. any (λ x. scalar_eq x v) few_keys.values) amounts)
unfolding layout_of new_contains few_keys
contains-rows_example =
    contains-rows reference reference_laws by_length by_length_laws 3 few_keys amounts (primitive 1)
      few_keys_filter refl refl refl amounts-IsColumn

contains_runs :
    contains by_length reference few_keys_filter amounts
    ≡ ok (some true ∷ some false ∷ some false ∷ [])
unfolding contains reference few_keys same_type
contains_runs = refl

abbrev prefixes : Array
prefixes = record {
  data_type = binary;
  values = bytes (1 ∷ 2 ∷ []) ∷ bytes (9 ∷ []) ∷ [];
  nulls = none;
}

abbrev payloads : Array
payloads = record {
  data_type = binary;
  values = bytes (1 ∷ 2 ∷ 3 ∷ []) ∷ bytes (1 ∷ []) ∷ bytes (9 ∷ []) ∷ [];
  nulls = some (true ∷ true ∷ false ∷ []);
}

payloads-IsColumn : IsColumn 3 payloads
payloads-IsColumn = record { all_rows = refl; all_bits = λ bits e. cc }

starts_with-rows_example :
    starts_with reference (record { array = prefixes }) payloads
    ≡ ok (passing_rows (λ v. any (λ prefix. scalar_has_prefix prefix v) prefixes.values) payloads)
unfolding new_starts_with
starts_with-rows_example =
    starts_with-rows reference reference_laws 3 prefixes payloads (record { array = prefixes })
      (inl refl) refl refl payloads-IsColumn

-- Flags, of which the second is null.
abbrev flags : Array
flags = record {
  data_type = DataType.boolean;
  values = flag true ∷ flag true ∷ flag false ∷ [];
  nulls = some (true ∷ false ∷ true ∷ []);
}

check_bool-rows_example :
    check_bool reference false flags
    ≡ ok (map (bool_row false) (some true ∷ none ∷ some false ∷ []))
check_bool-rows_example =
    check_bool-rows reference reference_laws false flags (some true ∷ none ∷ some false ∷ []) refl

abbrev transfers : RecordBatch
transfers = record { columns = ("amount", amounts) ∷ ("flag", flags) ∷ []; num_rows = 3 }

transfers-IsTable : IsTable 3 transfers
transfers-IsTable = record {
  counted = refl;
  all_columns = (amounts-IsColumn, (record { all_rows = refl; all_bits = λ bits e. cc }, tt));
}

abbrev tables : Dict RecordBatch
tables =
    ("blocks", record { columns = ("number", few_keys) ∷ []; num_rows = 2 })
    ∷ ("transfers", transfers)
    ∷ []

abbrev to_blocks : Include
to_blocks = record {
  other_table_name = "blocks";
  field_names = "amount" ∷ [];
  other_table_field_names = "number" ∷ [];
}

run_includes-eq-uncached_example :
    run_includes by_length reference tables transfers
      (some true ∷ some true ∷ some false ∷ [])
      0
      (to_blocks ∷ to_blocks ∷ [])
      []
      []
    ≡ run_includes_uncached by_length reference tables transfers
        (some true ∷ some true ∷ some false ∷ [])
        0
        (to_blocks ∷ to_blocks ∷ [])
        []
run_includes-eq-uncached_example =
    run_includes-eq-uncached by_length reference tables transfers
      (some true ∷ some true ∷ some false ∷ []) 0 (to_blocks ∷ to_blocks ∷ []) []

abbrev two_filters : Dict (Filter by_length)
two_filters = ("amount", contains_filter few_keys_filter) ∷ ("flag", bool_filter true) ∷ []

abbrev two_masks : List Mask
two_masks = (some true ∷ some false ∷ some false ∷ []) ∷ (some true ∷ none ∷ some false ∷ []) ∷ []

combine_filters-rows_example :
    (r : Option Mask) × (combine_filters by_length reference transfers two_filters none ≡ ok r)
    × ((i : ℕ)
        → i < 3
        → row (or_all_rows by_length reference transfers r) i ≡ row_in_all two_masks i)
unfolding column_by_name check contains check_bool few_keys reference same_type
combine_filters-rows_example =
    combine_filters-rows by_length reference reference_laws 3 transfers transfers-IsTable
      two_filters two_masks ((amounts, refl, refl), ((flags, refl, refl), tt))

abbrev masks : List (Dict Mask)
masks =
    (("blocks", some true ∷ []) ∷ ("transfers", some true ∷ none ∷ []) ∷ [])
    ∷ (("transfers", some false ∷ some true ∷ []) ∷ [])
    ∷ []

combine_masks-rows_example :
    ((masks_for "transfers" masks ≡ [])
      × (combine_masks reference "transfers" masks none ≡ ok none))
    ⊎ ((m : Mask) × (combine_masks reference "transfers" masks none ≡ ok (some m))
        × (length m ≡ 2)
        × ((i : ℕ)
            → row m i
              ≡ valid_in_all (masks_for "transfers" masks) i
                && row_in_any (masks_for "transfers" masks) i))
unfolding get
combine_masks-rows_example =
    combine_masks-rows reference reference_laws 2 "transfers" masks (refl, (refl, tt))

-- The second row is in the second selection, and is taken out by the null in the first.
combine_masks_drops :
    combine_masks reference "transfers" masks none ≡ ok (some (some true ∷ none ∷ []))
unfolding combine_masks reference get
combine_masks_drops = refl

abbrev wanted : Dict (List String)
wanted = ("transfers", "flag" ∷ []) ∷ []

select_fields-get_example :
    (out : Dict RecordBatch) × (select_fields reference tables wanted ≡ ok out)
    × ((t : String) → get t out ≡ projected (get t wanted) (get t tables) none)
unfolding get
select_fields-get_example =
    select_fields-get reference reference_laws tables wanted (refl, tt) ((transfers, refl), tt)

abbrev joined : Query by_length
joined = record {
  selection = ("transfers", record { filters = two_filters; include = to_blocks ∷ [] } ∷ []) ∷ [];
  fields = ("blocks", []) ∷ ("transfers", "hash" ∷ []) ∷ [];
}

add_request_and_include_fields_runs : add_request_and_include_fields by_length joined ≡ (
  record joined {
    fields =
        ("blocks", "number" ∷ []) ∷ ("transfers", "hash" ∷ "amount" ∷ "flag" ∷ "amount" ∷ []) ∷ [];
  },
  none,
)
unfolding add_request_and_include_fields get insert
add_request_and_include_fields_runs = refl

add_request_and_include_fields-get_example :
    ((all_named joined.fields (all_requests by_length joined.selection) ≡ true)
      × (out : Query by_length) × (add_request_and_include_fields by_length joined ≡ (out, none))
      × (out.selection ≡ joined.selection)
      × ((t : String)
          → get t out.fields
            ≡ appended
                (get t joined.fields)
                (names_for t (all_requests by_length joined.selection))))
    ⊎ ((all_named joined.fields (all_requests by_length joined.selection) ≡ false)
        × (is_some (add_request_and_include_fields by_length joined).1 ≡ true))
add_request_and_include_fields-get_example = add_request_and_include_fields-get by_length joined

abbrev all_tables : Dict RecordBatch
all_tables =
    ("blocks", record { columns = ("number", few_keys) ∷ []; num_rows = 2 })
    ∷ ("logs", record { columns = ("data", payloads) ∷ []; num_rows = 3 })
    ∷ ("transfers", transfers)
    ∷ []

abbrev amounts_and_blocks : Query by_length
amounts_and_blocks = record {
  selection = ("transfers", record { filters = two_filters; include = to_blocks ∷ [] } ∷ []) ∷ [];
  fields = ("blocks", "number" ∷ []) ∷ ("logs", "data" ∷ []) ∷ ("transfers", "amount" ∷ []) ∷ [];
}

abbrev amounts_and_blocks_result : Dict RecordBatch
amounts_and_blocks_result =
    (
      "blocks",
      record {
        columns = ("number", record { data_type = uint8; values = num 5 ∷ []; nulls = none }) ∷ [];
        num_rows = 1;
      },
    )
    ∷ (
      "transfers",
      record {
        columns =
            ("amount", record { data_type = uint8; values = num 5 ∷ []; nulls = some (true ∷ []) })
            ∷ [];
        num_rows = 1;
      },
    )
    ∷ []

run_query_runs :
    run_query by_length reference all_tables amounts_and_blocks ≡ ok amounts_and_blocks_result
unfolding run_query reference few_keys same_type get insert column_by_name check layout_of
    new_contains
run_query_runs = refl

run_query-Unmentioned_example : get "logs" amounts_and_blocks_result ≡ none
run_query-Unmentioned_example =
    run_query-Unmentioned by_length reference "logs" all_tables amounts_and_blocks_result
      amounts_and_blocks (refl, ((refl, tt), tt), tt) run_query_runs
