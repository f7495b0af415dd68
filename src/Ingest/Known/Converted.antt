-- ===== src/Ingest/Known/Converted.antt =====
-- ingest/src/provider/common.rs, query/src/lib.rs and the schemas: what the converted queries ask for.
use mathlib.Core.Bool.{true≢false}
use cherry_core.Base.{
  Result-cases, ok-injective, All-of_each, >>=-eq_ok, All, Bool-cases, inl, inr, ok, err, String,
  true, List, [], ◌∷◌, ◌≡◌, refl, All-weaken, is_some, Option, none, some, ◌∙◌, sym, map,
}
use cherry_core.Base.Dict.{Dict, get, insert, str_eq}
use cherry_core.Query.Hashing.{Hashing}
use cherry_core.Query.Engine.{TableSelection, Query}
use cherry_core.Query.Request.{add_request_and_include_fields}
use cherry_core.Query.Request.Fields.{add_request_and_include_fields-get}
use cherry_core.Query.Request.Names.{all_requests, names_for, appended, all_named, Requests}
use cherry_core.Ingest.Evm
use cherry_core.Ingest.Svm
use cherry_core.Ingest.Common.{is_empty, Error}
use cherry_core.Ingest.Common.Asked.{no_value}
use cherry_core.Ingest.Common.Evm.{evm_query_to_generic, evm_selection, check_fields, evm_fields}
use cherry_core.Ingest.Common.Svm.{svm_query_to_generic, svm_fields}
use cherry_core.Ingest.Known.{Knows, has_columns}
use cherry_core.Ingest.Known.Evm.{evm_tables, evm_selection-Asks}
use cherry_core.Ingest.Known.Svm.{svm_tables, svm_selection-Asks}

abbrev keys : {V : Type 0} → Dict V → List String
keys = map (λ e. e.0)

-- Maps of the same keys have the same tables.
get-keys :
    (t : String) (m n : Dict (List String))
    → keys m ≡ keys n
    → is_some (get t m) ≡ is_some (get t n)
unfolding get
get-keys t [] [] e = refl
get-keys t [] ((k, v) ∷ n) e = cc
get-keys t ((j, v) ∷ m) [] e = cc
get-keys t ((j, v) ∷ m) ((k, w) ∷ n) e =
    let first : j ≡ k = cc in
    let rest : keys m ≡ keys n = cc in
    rw first (elim (Bool-cases (str_eq k t)) [
      | inl same ↦ rw same refl
      | inr other ↦ rw other (get-keys t m n rest)
    ])

has_columns-is_some :
    (names : List String) (columns : Option (List String))
    → has_columns names columns ≡ true
    → is_some columns ≡ true
has_columns-is_some names none h = cc
has_columns-is_some names (some columns) h = refl

-- The requests are for tables of the fields.
all_named-All :
    (fields : Dict (List String)) (rs : Requests)
    → All (λ e. is_some (get e.0 fields) ≡ true) rs
    → all_named fields rs ≡ true
all_named-All fields [] h = refl
all_named-All fields ((t, names) ∷ rs) (h, hs) = rw (h, all_named-All fields rs hs) refl

module _ (H : Hashing) where
  -- The fields of every table that is asked for are there, and the names are put behind them.
  abbrev pub Extends : Query H → Type 0
  Extends out =
      (more : Query H) × (add_request_and_include_fields H out ≡ (more, none))
      × (more.selection ≡ out.selection)
      × ((t : String)
          → get t more.fields
            ≡ appended (get t out.fields) (names_for t (all_requests H out.selection)))

  Extends-of_named :
      (out : Query H) → all_named out.fields (all_requests H out.selection) ≡ true → Extends out
  Extends-of_named out h = elim (add_request_and_include_fields-get H out) [
    | inl (named, more, done, kept, gets) ↦ (more, done, kept, gets)
    | inr (missing, failed) ↦ absurd (true≢false (sym h ∙ missing))
  ]

  Extends-of_tables :
      (tables : Dict (List String)) (out : Query H)
      → keys out.fields ≡ keys tables
      → All (λ e. is_some (get e.0 tables) ≡ true) (all_requests H out.selection)
      → Extends out
  Extends-of_tables tables out same h = Extends-of_named out (
      all_named-All out.fields (all_requests H out.selection) (
        All-weaken (λ e k. get-keys e.0 out.fields tables same ∙ k) (all_requests H out.selection)
          h))

  -- The filters and joins of a converted SVM query name only columns that the schemas of their
  -- tables have, if no request has a prefix of three bytes.
  pub svm_query_to_generic-Knows :
      (query : Svm.Query) (out : Query H)
      → All (λ r. is_empty r.d3 ≡ true) query.instructions
      → svm_query_to_generic H query ≡ ok out
      → All (Knows svm_tables) (all_requests H out.selection)
  unfolding svm_query_to_generic
  svm_query_to_generic-Knows query out h made =
      let (selection, e, asked) =
        svm_selection-Asks H (Knows svm_tables) (λ e k. k) query
          (All-weaken (λ r. no_value r.d3) query.instructions h) in
      let converted : Query H = record { selection = selection; fields = svm_fields query } in
      let same : svm_query_to_generic H query ≡ ok converted = >>=-eq_ok _ e refl in
      let it : out ≡ converted = ok-injective made same in rw it asked

  converted_evm :
      (query : Evm.Query) (selection : Dict (List (TableSelection H))) (out : Query H)
      → evm_selection H query ≡ ok selection
      → evm_query_to_generic H query ≡ ok out
      → out ≡ record { selection = selection; fields = evm_fields query }
  unfolding evm_query_to_generic
  converted_evm query selection out e made = elim (Result-cases (check_fields query)) [
    | inl (_, passed) ↦
        let converted : Query H = record { selection = selection; fields = evm_fields query } in
        let same : evm_query_to_generic H query ≡ ok converted =
          >>=-eq_ok _ passed (>>=-eq_ok _ e refl) in
        ok-injective made same
    | inr (x, failed) ↦ absurd (not_ok x (rw failed at made))
  ]
    where
      not_ok : (x : Error) → err x ≡ ok out → ⊥
      not_ok x h = cc

  -- What the filters and joins of a converted EVM query ask for can be added to its fields without
  -- an error; each table keeps its names and has the names that are asked of it behind them.
  pub evm_query_to_generic-Extends :
      (query : Evm.Query) (out : Query H) → evm_query_to_generic H query ≡ ok out → Extends out
  unfolding insert get
  evm_query_to_generic-Extends query out made =
      let (selection, e, asked) =
        evm_selection-Asks H (λ e. is_some (get e.0 evm_tables) ≡ true)
          (λ e k. has_columns-is_some e.1 (get e.0 evm_tables) k) query
          (All-of_each (λ r _. refl) query.transactions) in
      let converted : Query H = record { selection = selection; fields = evm_fields query } in
      let it : out ≡ converted = converted_evm query selection out e made in
      rw it (Extends-of_tables evm_tables converted refl asked)

  -- The filters and joins of a converted EVM query name only columns that the schemas of their
  -- tables have, if no request has the address of a deployed contract.
  pub evm_query_to_generic-Knows :
      (query : Evm.Query) (out : Query H)
      → All (λ r. is_empty r.contract_deployment_address ≡ true) query.transactions
      → evm_query_to_generic H query ≡ ok out
      → All (Knows evm_tables) (all_requests H out.selection)
  evm_query_to_generic-Knows query out h made =
      let (selection, e, asked) =
        evm_selection-Asks H (Knows evm_tables) (λ e k. k) query
          (All-weaken (λ r. no_value r.contract_deployment_address) query.transactions h) in
      rw (converted_evm query selection out e made) asked
