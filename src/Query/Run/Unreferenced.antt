-- ===== src/Query/Run/Unreferenced.antt =====
-- `run_query` (query/src/lib.rs) on tables that no selection mentions.
use cherry_core.Base.{
  any_result, Ensures-eq_ok, Bool-cases, Option-cases, ◌++◌, sym, inl, inr, ok, none, some, ℕ, ◌+◌,
  ◌≡◌, refl, ◌∙◌, false, List, [], ◌∷◌, Option, ◌>>=◌, String, All, not, ◌==◌, length, Ensures,
  returns, Ensures->>=, Ensures-guard,
}
use text.Mathlib.TextEquality.{eq_iff}
use cherry_core.Query.Run.{
  combine_masks, filter_tables, run_selections, run_all_selections, run_query, select_fields,
}
use cherry_core.Query.Run.Combine.{masks_for}
use cherry_core.Query.Engine.{
  or_error, columns_to_binary_array, combine_filters, keys_via_cache, cached, Query, Include,
  TableSelection, Cache, or_into, join_into, run_includes, run_table_selection,
}
use cherry_core.Base.Dict.{Dict, get, insert, get-insert, str_eq}
use cherry_core.Arrow.Data.{Mask, RecordBatch}
use cherry_core.Arrow.Kernels.{Kernels}
use cherry_core.Query.Hashing.{Hashing}
use cherry_core.Query.Filter.{contains, missing_table, Contains, lift}

Absent : {V : Type 0} → String → Dict V → Type 0
Absent t m = get t m ≡ none

insert-Absent :
    {V : Type 0} (t k : String) (v : V) (m : Dict V)
    → str_eq k t ≡ false
    → Absent t m
    → Absent t (insert k v m)
unfolding Absent
insert-Absent t k v m other h = get-insert k t v m ∙ rw other h

Absent-empty : (V : Type 0) (t : String) → Absent {V = V} t []
unfolding Absent get
Absent-empty V t = refl

-- The table is not the other table of a join.
abbrev pub NotJoined : String → List Include → Type 0
NotJoined t incs = All (λ inc. str_eq inc.other_table_name t ≡ false) incs

module _ (H : Hashing) where
  abbrev pub Unmentioned : String → Dict (List (TableSelection H)) → Type 0
  Unmentioned t [] = Unit
  Unmentioned t ((table, selections) ∷ rest) =
      (str_eq table t ≡ false) × All (λ s. NotJoined t s.include) selections × Unmentioned t rest

module _ (H : Hashing) (K : Kernels) (t : String) where
  or_into-Absent :
      (table : String) (f : Mask) (e : Option Mask) (out : Dict Mask)
      → str_eq table t ≡ false
      → Absent t out
      → Ensures (Absent t) (or_into H K table f e out)
  unfolding or_into
  or_into-Absent table f none out other h = returns (insert-Absent t table f out other h)
  or_into-Absent table f (some e) out other h =
      Ensures->>= (any_result (lift (K.or e f)))
        λ new _. returns (insert-Absent t table new out other h)

  join_into-Absent :
      (ct : Contains H) (other_table_data : RecordBatch) (inc : Include) (out : Dict Mask)
      → str_eq inc.other_table_name t ≡ false
      → Absent t out
      → Ensures (Absent t) (join_into H K ct other_table_data inc out)
  unfolding join_into
  join_into-Absent ct other_table_data inc out other h =
      Ensures->>=
        (any_result (columns_to_binary_array K other_table_data inc.other_table_field_names))
        λ arr _.
          Ensures->>= (any_result (contains H K ct arr))
            λ f _. or_into-Absent inc.other_table_name f (get inc.other_table_name out) out other h

  run_includes-Absent :
      (tables : Dict RecordBatch) (table_data : RecordBatch) (combined : Mask) (i : ℕ)
      (incs : List Include) (cache : Cache H K) (out : Dict Mask)
      → NotJoined t incs
      → Absent t out
      → Ensures (Absent t) (run_includes H K tables table_data combined i incs cache out)
  unfolding run_includes
  run_includes-Absent tables table_data combined i [] cache out incs_h h = returns h
  run_includes-Absent tables table_data combined i (inc ∷ incs) cache out (other, incs_h) h =
      Ensures-guard (not (length inc.other_table_field_names == length inc.field_names)) _ _ λ _.
        Ensures->>=
          (any_result
            (or_error (missing_table inc.other_table_name) (get inc.other_table_name tables)))
          λ other_table_data _.
            Ensures->>= (any_result (columns_to_binary_array K table_data inc.field_names))
              λ self_arr _.
                Ensures->>=
                  (any_result (
                    keys_via_cache H K combined inc.field_names self_arr
                      (cached H K inc.field_names cache) cache))
                  λ (ct, cache') _.
                    Ensures->>= (join_into-Absent ct other_table_data inc out other h) λ out' h'.
                      run_includes-Absent tables table_data combined (i + 1) incs cache' out' incs_h
                        h'

  run_table_selection-Absent :
      (tables : Dict RecordBatch) (table : String) (s : TableSelection H)
      → str_eq table t ≡ false
      → NotJoined t s.include
      → Ensures (Absent t) (run_table_selection H K tables table s)
  unfolding run_table_selection
  run_table_selection-Absent tables table s other incs =
      Ensures->>= (any_result (or_error (missing_table table) (get table tables))) λ table_data _.
        Ensures->>= (any_result (combine_filters H K table_data s.filters none)) λ cf _.
          run_includes-Absent tables table_data _ 0 s.include [] _ incs
            (insert-Absent t table _ [] other (Absent-empty _ t))

  none_for-append :
      (fs gs : List (Dict Mask))
      → masks_for t fs ≡ []
      → masks_for t gs ≡ []
      → masks_for t (fs ++ gs) ≡ []
  none_for-append [] gs h k = k
  none_for-append (f ∷ fs) gs h k = elim (Option-cases (get t f)) [
    | inl missing ↦ rw (missing, masks_for) (none_for-append fs gs (rw (missing, masks_for) at h) k)
    | inr (m, found) ↦ absurd (cons_ne_nil (rw (found, masks_for) at h))
  ]
    where
      cons_ne_nil : {m : Mask} {ms : List Mask} → m ∷ ms ≡ [] → ⊥
      cons_ne_nil h = cc

  run_selections-none_for :
      (tables : Dict RecordBatch) (table : String) (ss : List (TableSelection H))
      → str_eq table t ≡ false
      → All (λ s. NotJoined t s.include) ss
      → Ensures (λ fs. masks_for t fs ≡ []) (run_selections H K tables table ss)
  unfolding run_selections Absent
  run_selections-none_for tables table [] other h = returns refl
  run_selections-none_for tables table (s ∷ ss) other (s_h, h) =
      Ensures->>= (run_table_selection-Absent tables table s other s_h) λ f f_h.
        Ensures->>= (run_selections-none_for tables table ss other h)
          λ fs fs_h. returns (rw (f_h, masks_for) fs_h)

  run_all_selections-none_for :
      (tables : Dict RecordBatch) (selection : Dict (List (TableSelection H)))
      → Unmentioned H t selection
      → Ensures (λ fs. masks_for t fs ≡ []) (run_all_selections H K tables selection)
  unfolding run_all_selections
  run_all_selections-none_for tables [] h = returns refl
  run_all_selections-none_for tables ((table, ss) ∷ rest) (other, ss_h, h) =
      Ensures->>= (run_selections-none_for tables table ss other ss_h) λ fs fs_h.
        Ensures->>= (run_all_selections-none_for tables rest h)
          λ gs gs_h. returns (none_for-append fs gs fs_h gs_h)

  combine_masks-none :
      (fs : List (Dict Mask)) → masks_for t fs ≡ [] → combine_masks K t fs none ≡ ok none
  unfolding combine_masks
  combine_masks-none [] h = refl
  combine_masks-none (f ∷ fs) h = elim (Option-cases (get t f)) [
    | inl missing ↦
        rw (missing, combine_masks) (combine_masks-none fs (rw (missing, masks_for) at h))
    | inr (m, found) ↦ absurd (cons_ne_nil (rw (found, masks_for) at h))
  ]
    where
      cons_ne_nil : {m : Mask} {ms : List Mask} → m ∷ ms ≡ [] → ⊥
      cons_ne_nil h = cc

  filter_tables-Absent :
      (fs : List (Dict Mask)) (tables out : Dict RecordBatch)
      → masks_for t fs ≡ []
      → Absent t out
      → Ensures (Absent t) (filter_tables K fs tables out)
  unfolding filter_tables
  filter_tables-Absent fs [] out h k = returns k
  filter_tables-Absent fs ((table, b) ∷ tables) out h k = elim (Bool-cases (str_eq table t)) [
    | inl same ↦
        let e : t ≡ table = sym ((eq_iff table t).0 same) in
        rw (rw e at (combine_masks-none fs h)) (filter_tables-Absent fs tables out h k)
    | inr other ↦
        Ensures->>= (any_result (combine_masks K table fs none))
          λ combined _. go other combined (λ o. filter_tables-Absent fs tables o h)
  ]
    where
      go :
          str_eq table t ≡ false
          → (combined : Option Mask)
          → ((o : Dict RecordBatch) → Absent t o → Ensures (Absent t) (filter_tables K fs tables o))
          → Ensures (Absent t) (elim combined [
            | none ↦ filter_tables K fs tables out
            | some mask ↦ do
              filtered ← lift (K.filter_record_batch b mask)
              filter_tables K fs tables (insert table filtered out)
          ])
      go other none rest = rest out k
      go other (some mask) rest =
          Ensures->>= (any_result (lift (K.filter_record_batch b mask))) λ filtered _.
            rest (insert table filtered out) (insert-Absent t table filtered out other k)

  -- A table that no selection is for and that no join of a selection names is not in the result of
  -- `run_query`, if there is one.
  pub run_query-Unmentioned :
      (tables out : Dict RecordBatch) (query : Query H)
      → Unmentioned H t query.selection
      → run_query H K tables query ≡ ok out
      → get t out ≡ none
  unfolding run_query Absent
  run_query-Unmentioned tables out query h = Ensures-eq_ok (
      Ensures->>= (run_all_selections-none_for tables query.selection h) λ fs fs_h.
        Ensures->>= (any_result (select_fields K tables query.fields))
          λ projected _. filter_tables-Absent fs projected [] fs_h (Absent-empty _ t))
