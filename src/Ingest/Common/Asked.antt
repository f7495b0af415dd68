-- ===== src/Ingest/Common/Asked.antt =====
-- ingest/src/provider/common.rs: what the converted selections ask for, name by name.
use cherry_core.Base.{
  Bool, true, ◌>>=◌, String, false, List, [], ◌∷◌, ◌++◌, none, Result, ok, ◌≡◌, refl, All,
  Bool-cases, inl, inr, leb, length, ℕ,
}
use cherry_core.Base.Dict.{Dict, insert, str_eq, before}
use cherry_core.Arrow.Data.{Array}
use cherry_core.Query.Hashing.{Hashing}
use cherry_core.Query.Filter.{
  Filter, contains_filter, starts_with_filter, new_contains, new_starts_with, Layout, layout_of,
  ht_from_array, byte_array, primitive,
}
use cherry_core.Query.Filter
use cherry_core.Query.Engine.{Include, TableSelection}
use cherry_core.Query.Request.Names.{
  filter_requests, include_requests, selection_requests, all_requests,
}
use cherry_core.Ingest.Common.{
  with_all_blocks, every_row, Error, is_empty, include_if, filter_contains, filter_starts_with,
  collect_filters, collect_selections, string_array, uint8_array, binary_array,
}

-- An array that a conversion makes: without nulls, and of a type that filters know.
abbrev pub IsPlain : Array → Type 0
IsPlain a = (a.nulls ≡ none) × (layout : Layout) × (layout_of a.data_type ≡ ok layout)

-- There is a result; what `unwrap` and `?` rely on.
abbrev pub Succeeds {ℓ} : {E : Type 0} {A : Type ℓ} → Result E A → Type ℓ
Succeeds {A = A} r = (a : A) × (r ≡ ok a)

module _ (H : Hashing) where
  pub filter_contains-Succeeds : (a : Array) → IsPlain a → Succeeds (filter_contains H a)
  unfolding filter_contains new_contains ht_from_array
  filter_contains-Succeeds a (no_nulls, layout, e) = elim (Bool-cases (leb 128 (length a.values))) [
    | inl many ↦ rw (no_nulls, many, e) (_, refl)
    | inr few ↦ rw (no_nulls, few) (_, refl)
  ]

  pub filter_starts_with-Succeeds : (a : Array) → IsPlain a → Succeeds (filter_starts_with H a)
  unfolding filter_starts_with new_starts_with
  filter_starts_with-Succeeds a (no_nulls, layout, e) = rw no_nulls (_, refl)

All-append {ℓ κ} :
    {A : Type ℓ} (P : A → Type κ) (xs ys : List A) → All P xs → All P ys → All P (xs ++ ys)
All-append P [] ys h k = k
All-append P (x ∷ xs) ys h k = (h.0, All-append P xs ys h.1 k)

pub All-insert :
    {V : Type 0} (P : String × V → Type 0) (k : String) (v : V) (m : Dict V)
    → P (k, v)
    → All P m
    → All P (insert k v m)
unfolding insert
All-insert P k v [] p h = (p, tt)
All-insert P k v ((j, w) ∷ m) p h = elim (Bool-cases (str_eq j k)) [
  | inl same ↦ rw same (p, h.1)
  | inr other ↦ elim (Bool-cases (before k j)) [
    | inl first ↦ rw (other, first) (p, h)
    | inr after ↦ rw (other, after) (h.0, All-insert P k v m p h.1)
  ]
]

module _ (H : Hashing) where
  -- Every array becomes a filter, if it has a value, and its name has the property.
  abbrev pub Makes :
      (String → Array → Result Filter.Error (Filter H))
      → (String → Type 0)
      → List (String × Array)
      → Type 0
  Makes make P = All (λ e. Succeeds (make e.0 e.1) × (is_empty e.1.values ≡ false → P e.0))

  pub Makes-of :
      (make : String → Array → Result Filter.Error (Filter H)) (P : String → Type 0)
      (arrays : List (String × Array))
      → All (λ e. Succeeds (make e.0 e.1)) arrays
      → All (λ e. P e.0) arrays
      → Makes make P arrays
  Makes-of make P [] h k = tt
  Makes-of make P (e ∷ arrays) (h, hs) (k, ks) = ((h, λ _. k), Makes-of make P arrays hs ks)

  pub collect_filters-Succeeds :
      (make : String → Array → Result Filter.Error (Filter H)) (P : String → Type 0)
      (arrays : List (String × Array)) (out : Dict (Filter H))
      → Makes make P arrays
      → All (λ e. P e.0) out
      → (filters : Dict (Filter H)) × (collect_filters H make arrays out ≡ ok filters)
        × All (λ e. P e.0) filters
  unfolding collect_filters
  collect_filters-Succeeds make P [] out h k = (out, refl, k)
  collect_filters-Succeeds make P ((name, arr) ∷ arrays) out (((f, made), p), h) k =
      elim (Bool-cases (is_empty arr.values)) [
        | inl empty ↦ rw empty (collect_filters-Succeeds make P arrays out h k)
        | inr some_value ↦
            rw (some_value, made)
              (collect_filters-Succeeds make P arrays (insert name f out) h
                (All-insert (λ e. P e.0) name f out (p some_value) k))
      ]

  pub collect_selections-Succeeds :
      {R : Type 0} (convert : R → Result Error (TableSelection H)) (P : TableSelection H → Type 0)
      (rs : List R)
      → All (λ r. (s : TableSelection H) × (convert r ≡ ok s) × P s) rs
      → (ss : List (TableSelection H)) × (collect_selections H convert rs ≡ ok ss) × All P ss
  unfolding collect_selections
  collect_selections-Succeeds convert P [] h = ([], refl, tt)
  collect_selections-Succeeds convert P (r ∷ rs) ((s, e, p), h) =
      let (ss, e', ps) = collect_selections-Succeeds convert P rs h in
      (s ∷ ss, rw (e, e') refl, (p, ps))

  module _ (Q : String × List String → Type 0) where
    -- What a selection of a table asks for has the property.
    abbrev pub Asks : String → TableSelection H → Type 0
    Asks table s =
        All (λ e. Q (table, e.0 ∷ [])) s.filters
        × All
            (λ inc.
              Q (inc.other_table_name, inc.other_table_field_names) × Q (table, inc.field_names))
            s.include

    filter_requests-All :
        (table : String) (filters : Dict (Filter H))
        → All (λ e. Q (table, e.0 ∷ [])) filters
        → All Q (filter_requests H table filters)
    filter_requests-All table [] h = tt
    filter_requests-All table ((name, f) ∷ filters) h = (h.0, filter_requests-All table filters h.1)

    include_requests-All :
        (table : String) (incs : List Include)
        → All
            (λ inc.
              Q (inc.other_table_name, inc.other_table_field_names) × Q (table, inc.field_names))
            incs
        → All Q (include_requests H table incs)
    include_requests-All table [] h = tt
    include_requests-All table (inc ∷ incs) ((h, k), hs) =
        (h, (k, include_requests-All table incs hs))

    selection_requests-All :
        (table : String) (ss : List (TableSelection H))
        → All (Asks table) ss
        → All Q (selection_requests H table ss)
    selection_requests-All table [] h = tt
    selection_requests-All table (s ∷ ss) ((f, i), h) =
        All-append Q _ _ (filter_requests-All table s.filters f) (
          All-append Q _ _ (include_requests-All table s.include i)
            (selection_requests-All table ss h))

    -- Every selection of a table asks for names with the property only.
    abbrev pub AllAsk : Dict (List (TableSelection H)) → Type 0
    AllAsk = All (λ e. All (Asks e.0) e.1)

    pub with_all_blocks-AllAsk :
        (include_all_blocks : Bool) (selection : Dict (List (TableSelection H)))
        → AllAsk selection
        → AllAsk (with_all_blocks H include_all_blocks selection)
    with_all_blocks-AllAsk true selection h =
        All-insert (λ e. All (Asks e.0) e.1) "blocks" (every_row H ∷ []) selection ((tt, tt), tt) h
    with_all_blocks-AllAsk false selection h = h

    pub all_requests-All :
        (selection : Dict (List (TableSelection H)))
        → AllAsk selection
        → All Q (all_requests H selection)
    all_requests-All [] h = tt
    all_requests-All ((table, ss) ∷ rest) (h, hs) =
        All-append Q _ _ (selection_requests-All table ss h) (all_requests-All rest hs)

-- No filter is made for a list without values.
pub no_value :
    {A : Type 0} (vs : List (List ℕ))
    → is_empty vs ≡ true
    → is_empty (binary_array vs).values ≡ false
    → A
no_value [] h k = cc
no_value (v ∷ vs) h k = cc

module _ (J : Include → Type 0) where
  pub include_if-All :
      (flag : Bool) (other : String) (names others : List String) (rest : List Include)
      → J (record {
        other_table_name = other;
        field_names = names;
        other_table_field_names = others;
      })
      → All J rest
      → All J (include_if flag other names others rest)
  include_if-All true other names others rest j h = (j, h)
  include_if-All false other names others rest j h = h

module _ (H : Hashing) where
  pub binary_filter : (vs : List (List ℕ)) → Succeeds (filter_contains H (binary_array vs))
  unfolding layout_of
  binary_filter vs = filter_contains-Succeeds H (binary_array vs) (refl, byte_array, refl)

  pub string_filter : (vs : List String) → Succeeds (filter_contains H (string_array vs))
  unfolding layout_of
  string_filter vs = filter_contains-Succeeds H (string_array vs) (refl, byte_array, refl)

  pub uint8_filter : (vs : List ℕ) → Succeeds (filter_contains H (uint8_array vs))
  unfolding layout_of
  uint8_filter vs = filter_contains-Succeeds H (uint8_array vs) (refl, primitive 1, refl)

  module _ (Q : String × List String → Type 0) (table : String) where
    -- The conversion of a request succeeds, and what the selection asks for has the property.
    abbrev pub Converts : Result Error (TableSelection H) → Type 0
    Converts r = (s : TableSelection H) × (r ≡ ok s) × Asks H Q table s

    pub Converts-of_filters :
        (make : String → Array → Result Filter.Error (Filter H)) (arrays : List (String × Array))
        (incs : List Include)
        → Makes H make (λ n. Q (table, n ∷ [])) arrays
        → All
            (λ inc.
              Q (inc.other_table_name, inc.other_table_field_names) × Q (table, inc.field_names))
            incs
        → Converts (do
          filters ← collect_filters H make arrays []
          ok (record { filters = filters; include = incs }))
    Converts-of_filters make arrays incs h k =
        let (filters, e, asked) =
          collect_filters-Succeeds H make (λ n. Q (table, n ∷ [])) arrays [] h tt in
        (_, rw e refl, (asked, k))
