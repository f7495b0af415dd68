-- ===== src/Query/Request/Fields.antt =====
-- `add_request_and_include_fields` (query/src/lib.rs) against the names that a query asks for.
use cherry_core.Base.{
  ◌≡◌, refl, List, [], ◌∷◌, ◌++◌, Option, none, some, String, if◌then◌else◌, Option-cases, inl, inr,
  false, true, ap, ◌∙◌, sym, ◌&&◌, append-nil, ◌⊎◌, Bool-cases, ap₂, append_assoc, is_some,
}
use cherry_core.Base.Dict.{Dict, get, insert, str_eq, get-insert}
use mathlib.Core.Bool.{false≢true}
use text.Mathlib.TextEquality.{eq_iff}
use cherry_core.Query.Hashing.{Hashing}
use cherry_core.Query.Filter.{missing_table, Filter}
use cherry_core.Query.Engine.{Include, TableSelection, Query}
use cherry_core.Query.Request.Names.{
  Requests, filter_requests, include_requests, selection_requests, all_requests, names_for,
  appended, all_named,
}
use cherry_core.Query.Request.{
  Update, extend_fields, ◌then_do◌, add_tables_fields, add_request_and_include_fields,
  add_selection_fields, add_filter_fields, add_include_fields,
}

extend_all : Requests → Dict (List String) → Update
extend_all [] fields = (fields, none)
extend_all ((table, names) ∷ rs) fields = extend_fields table names fields then_do extend_all rs

then_do_assoc :
    (u : Update) (f g : Dict (List String) → Update)
    → u then_do f then_do g ≡ u then_do (λ d. f d then_do g)
then_do_assoc (d, none) f g = refl
then_do_assoc (d, some e) f g = refl

then_do_eq :
    (u : Update) {f g : Dict (List String) → Update}
    → ((d : Dict (List String)) → f d ≡ g d)
    → u then_do f ≡ u then_do g
then_do_eq (d, none) h = h d
then_do_eq (d, some e) h = refl

extend_all-append :
    (rs ss : Requests) (fields : Dict (List String))
    → extend_all (rs ++ ss) fields ≡ extend_all rs fields then_do extend_all ss
unfolding extend_all
extend_all-append [] ss fields = refl
extend_all-append ((table, names) ∷ rs) ss fields =
    then_do_eq (extend_fields table names fields) (extend_all-append rs ss)
    ∙ sym (then_do_assoc (extend_fields table names fields) (extend_all rs) (extend_all ss))

module _ (H : Hashing) where
  add_filter_fields-eq :
      (table : String) (filters : Dict (Filter H)) (fields : Dict (List String))
      → add_filter_fields H table filters fields
        ≡ extend_all (filter_requests H table filters) fields
  unfolding extend_all add_filter_fields
  add_filter_fields-eq table [] fields = refl
  add_filter_fields-eq table ((name, f) ∷ filters) fields =
      then_do_eq (extend_fields table (name ∷ []) fields) (add_filter_fields-eq table filters)

  add_include_fields-eq :
      (table : String) (incs : List Include) (fields : Dict (List String))
      → add_include_fields H table incs fields ≡ extend_all (include_requests H table incs) fields
  unfolding extend_all add_include_fields
  add_include_fields-eq table [] fields = refl
  add_include_fields-eq table (inc ∷ incs) fields =
      then_do_assoc (extend_fields inc.other_table_name inc.other_table_field_names fields)
        (extend_fields table inc.field_names) (add_include_fields H table incs)
      ∙ then_do_eq (extend_fields inc.other_table_name inc.other_table_field_names fields) (λ d.
        then_do_eq (extend_fields table inc.field_names d) (add_include_fields-eq table incs))

  add_selection_fields-eq :
      (table : String) (ss : List (TableSelection H)) (fields : Dict (List String))
      → add_selection_fields H table ss fields ≡ extend_all (selection_requests H table ss) fields
  unfolding extend_all add_selection_fields
  add_selection_fields-eq table [] fields = refl
  add_selection_fields-eq table (s ∷ ss) fields =
      let filters = filter_requests H table s.filters in
      let joins = include_requests H table s.include in
      ap
        (λ u.
          u then_do add_include_fields H table s.include then_do add_selection_fields H table ss)
        (add_filter_fields-eq table s.filters fields)
      ∙ then_do_assoc (extend_all filters fields) (add_include_fields H table s.include)
          (add_selection_fields H table ss)
      ∙ then_do_eq (extend_all filters fields) (λ d.
        ap (λ u. u then_do add_selection_fields H table ss)
          (add_include_fields-eq table s.include d)
        ∙ then_do_eq (extend_all joins d) (add_selection_fields-eq table ss)
        ∙ sym (extend_all-append joins (selection_requests H table ss) d))
      ∙ sym (extend_all-append filters (joins ++ selection_requests H table ss) fields)

  add_tables_fields-eq :
      (selection : Dict (List (TableSelection H))) (fields : Dict (List String))
      → add_tables_fields H selection fields ≡ extend_all (all_requests H selection) fields
  unfolding extend_all add_tables_fields
  add_tables_fields-eq [] fields = refl
  add_tables_fields-eq ((table, ss) ∷ rest) fields =
      ap (λ u. u then_do add_tables_fields H rest) (add_selection_fields-eq table ss fields)
      ∙ then_do_eq (extend_all (selection_requests H table ss) fields) (add_tables_fields-eq rest)
      ∙ sym (extend_all-append (selection_requests H table ss) (all_requests H rest) fields)

appended-nil : (o : Option (List String)) → appended o [] ≡ o
appended-nil none = refl
appended-nil (some old) = ap some (append-nil old)

all_named-insert :
    (table : String) (names : List String) (fields : Dict (List String)) (rs : Requests)
    → is_some (get table fields) ≡ true
    → all_named (insert table names fields) rs ≡ all_named fields rs
all_named-insert table names fields [] h = refl
all_named-insert table names fields ((t, ns) ∷ rs) h =
    ap₂ (λ a b. a && b) at_t (all_named-insert table names fields rs h)
  where
    at_t : is_some (get t (insert table names fields)) ≡ is_some (get t fields)
    at_t = ap is_some (get-insert table t names fields) ∙ elim (Bool-cases (str_eq table t)) [
      | inl same ↦ let e : table ≡ t = (eq_iff table t).0 same in rw same (sym (rw e at h))
      | inr other ↦ rw other refl
    ]

extend_fields-none :
    (table : String) (names : List String) (fields : Dict (List String))
    → get table fields ≡ none
    → extend_fields table names fields ≡ (fields, some (missing_table table))
unfolding extend_fields
extend_fields-none table names fields e = rw (e, extend_fields) refl

extend_fields-some :
    (table : String) (names old : List String) (fields : Dict (List String))
    → get table fields ≡ some old
    → extend_fields table names fields ≡ (insert table (old ++ names) fields, none)
unfolding extend_fields
extend_fields-some table names old fields e = rw (e, extend_fields) refl

extend_all-get :
    (rs : Requests) (fields : Dict (List String))
    → all_named fields rs ≡ true
    → (out : Dict (List String)) × (extend_all rs fields ≡ (out, none))
      × ((t : String) → get t out ≡ appended (get t fields) (names_for t rs))
unfolding extend_all
extend_all-get [] fields h = (fields, refl, λ t. sym (appended-nil (get t fields)))
extend_all-get ((table, names) ∷ rs) fields h = elim (Option-cases (get table fields)) [
  | inl missing ↦ absurd (false≢true (rw missing at h))
  | inr (old, found) ↦
      let there : is_some (get table fields) ≡ true = rw found refl in
      let more = insert table (old ++ names) fields in
      let (out, done, gets) =
        extend_all-get rs more
          (all_named-insert table (old ++ names) fields rs there ∙ rw there at h) in
      (
        out,
        ap (λ u. u then_do extend_all rs) (extend_fields-some table names old fields found) ∙ done,
        λ t.
            gets t
            ∙ ap (λ o. appended o (names_for t rs)) (get-insert table t (old ++ names) fields)
            ∙ at_table t old found,
      )
]
  where
    at_table :
        (t : String) (old : List String)
        → get table fields ≡ some old
        → appended (if str_eq table t then some (old ++ names) else get t fields) (names_for t rs)
          ≡ appended (get t fields) (names_for t ((table, names) ∷ rs))
    at_table t old found = elim (Bool-cases (str_eq table t)) [
      | inl same ↦
          let e : table ≡ t = (eq_iff table t).0 same in
          rw (same, rw e at found) (ap some (append_assoc old names (names_for t rs)))
      | inr other ↦ rw other refl
    ]

-- A request for a table that `fields` does not have is an error.
extend_all-error :
    (rs : Requests) (fields : Dict (List String))
    → all_named fields rs ≡ false
    → is_some (extend_all rs fields).1 ≡ true
unfolding extend_all
extend_all-error [] fields h = cc
extend_all-error ((table, names) ∷ rs) fields h = elim (Option-cases (get table fields)) [
  | inl missing ↦
      ap (λ u. is_some (u then_do extend_all rs).1) (extend_fields-none table names fields missing)
  | inr (old, found) ↦
      let there : is_some (get table fields) ≡ true = rw found refl in
      ap (λ u. is_some (u then_do extend_all rs).1)
        (extend_fields-some table names old fields found)
      ∙ extend_all-error rs (insert table (old ++ names) fields)
          (all_named-insert table (old ++ names) fields rs there ∙ rw there at h)
]

module _ (H : Hashing) where
  -- If the requested fields have every table that the selections or their joins name, the names
  -- that these ask of a table are appended to its own, in order, and the selections stay; if a
  -- table is missing, the call is an error.
  pub add_request_and_include_fields-get :
      (query : Query H)
      → ((all_named query.fields (all_requests H query.selection) ≡ true)
          × (out : Query H) × (add_request_and_include_fields H query ≡ (out, none))
          × (out.selection ≡ query.selection)
          × ((t : String)
              → get t out.fields
                ≡ appended (get t query.fields) (names_for t (all_requests H query.selection))))
        ⊎ ((all_named query.fields (all_requests H query.selection) ≡ false)
            × (is_some (add_request_and_include_fields H query).1 ≡ true))
  unfolding add_request_and_include_fields
  add_request_and_include_fields-get query =
      elim (Bool-cases (all_named query.fields (all_requests H query.selection))) [
        | inl named ↦
            let (out, done, gets) =
              extend_all-get (all_requests H query.selection) query.fields named in
            inl (
              named,
              record query { fields = out },
              rw (add_tables_fields-eq H query.selection query.fields, done),
              refl,
              gets,
            )
        | inr missing ↦ inr (
          missing,
          rw (add_tables_fields-eq H query.selection query.fields)
              (extend_all-error (all_requests H query.selection) query.fields missing),
        )
      ]
