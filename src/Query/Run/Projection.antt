-- ===== src/Query/Run/Projection.antt =====
-- `select_fields` (query/src/lib.rs).
use cherry_core.Base.{
  ℕ, ◌+◌, ◌≤◌, ◌<◌, ◌≡◌, refl, sym, ap, ◌∙◌, Bool, List, [], ◌∷◌, ◌++◌, append_assoc, Option, none,
  some, ok, length, length-append, get_elem?, arith, String, All, if◌then◌else◌, Bool-cases, inl,
  inr,
}
use cherry_core.Base.Dict.{Dict, get, insert, get-insert, str_eq}
use cherry_core.Arrow.Data.{Array, RecordBatch}
use cherry_core.Arrow.Kernels.{Kernels, KernelLaws, pick}
use cherry_core.Query.Filter.{any}
use cherry_core.Query.Run.{indices_of, select_into, select_fields}
use text.Mathlib.TextEquality.{eq_iff}

-- The columns whose name is in the list, in the order of the table.
abbrev pub columns_in : List String → List (String × Array) → List (String × Array)
columns_in names [] = []
columns_in names ((name, a) ∷ cs) =
    if any (λ n. str_eq n name) names then (name, a) ∷ columns_in names cs else columns_in names cs

get_elem?-append :
    {A : Type 0} (front : List A) (x : A) (back : List A)
    → get_elem? (front ++ x ∷ back) (length front) ≡ some x
get_elem?-append [] x back = refl
get_elem?-append (y ∷ front) x back = get_elem?-append front x back

pick-some :
    (xs : List (String × Array)) (i : ℕ) (is : List ℕ) (x : String × Array)
    → get_elem? xs i ≡ some x
    → pick xs (i ∷ is) ≡ x ∷ pick xs is
pick-some xs i is x found = rw (found, pick) refl

pick-indices_of :
    (names : List String) (i : ℕ) (front cs : List (String × Array))
    → length front ≡ i
    → pick (front ++ cs) (indices_of names i cs) ≡ columns_in names cs
unfolding indices_of
pick-indices_of names i front [] h = refl
pick-indices_of names i front ((name, a) ∷ cs) h =
    let step =
      pick-indices_of names (i + 1) (front ++ (name, a) ∷ []) cs
        (omega (arith, length-append front ((name, a) ∷ []))) in
    let rest = rw (append_assoc front ((name, a) ∷ []) cs) at step in
    elim (Bool-cases (any (λ n. str_eq n name) names)) [
      | inl wanted ↦ rw wanted (
          pick-some (front ++ (name, a) ∷ cs) i (indices_of names (i + 1) cs) (name, a)
            (ap (get_elem? (front ++ (name, a) ∷ cs)) (sym h) ∙ get_elem?-append front (name, a) cs)
          ∙ ap (λ l. (name, a) ∷ l) rest)
      | inr other ↦ rw other rest
    ]

indices_of-lt :
    (names : List String) (i n : ℕ) (cs : List (String × Array))
    → i + length cs ≤ n
    → All (λ j. j < n) (indices_of names i cs)
unfolding indices_of
indices_of-lt names i n [] h = tt
indices_of-lt names i n ((name, a) ∷ cs) h = elim (Bool-cases (any (λ m. str_eq m name) names)) [
  | inl wanted ↦ rw wanted (omega arith, indices_of-lt names (i + 1) n cs (omega arith))
  | inr other ↦ rw other (indices_of-lt names (i + 1) n cs (omega arith))
]

-- No key stands twice, as in every `BTreeMap`.
abbrev pub DistinctKeys {ℓ} : {V : Type ℓ} → Dict V → Type ℓ
DistinctKeys [] = Unit
DistinctKeys ((k, v) ∷ m) = (get k m ≡ none) × DistinctKeys m

-- Every requested table is there.
abbrev pub AllPresent : Dict RecordBatch → Dict (List String) → Type 0
AllPresent tables [] = Unit
AllPresent tables ((t, _) ∷ fields) =
    ((b : RecordBatch) × (get t tables ≡ some b)) × AllPresent tables fields

abbrev pub projected :
    Option (List String) → Option RecordBatch → Option RecordBatch → Option RecordBatch
projected none table before = before
projected (some names) none before = none
projected (some names) (some b) before = some (record b { columns = columns_in names b.columns })

module _ (K : Kernels) (laws : KernelLaws K) (tables : Dict RecordBatch) where
  select_into-get :
      (fields : Dict (List String)) (out : Dict RecordBatch)
      → DistinctKeys fields
      → AllPresent tables fields
      → (out' : Dict RecordBatch) × (select_into K tables fields out ≡ ok out')
        × ((t : String) → get t out' ≡ projected (get t fields) (get t tables) (get t out))
  unfolding select_into get
  select_into-get [] out keys present = (out, refl, λ t. refl)
  select_into-get ((t, names) ∷ fields) out keys ((b, found), present) =
      let ps : K.project b (indices_of names 0 b.columns)
          ≡ ok (record b { columns = columns_in names b.columns }) =
        laws.project_lem b (indices_of names 0 b.columns)
          (indices_of-lt names 0 (length b.columns) b.columns (omega arith))
        ∙ ap (λ cs. ok (record b { columns = cs })) (pick-indices_of names 0 [] b.columns refl) in
      let p = record b { columns = columns_in names b.columns } in
      let (out', done, gets) = select_into-get fields (insert t p out) keys.1 present in
      (
        out',
        rw (found, ps) done,
        λ s. elim (Bool-cases (str_eq t s)) [
          | inl same ↦
              let e : t ≡ s = (eq_iff t s).0 same in
              rw (same, rw e at found)
                (gets s
                  ∙ ap (λ o. projected o (get s tables) (get s (insert t p out))) (rw e at keys.0)
                  ∙ get-insert t s p out
                  ∙ ap (λ (c : Bool). if c then some p else get s out) same)
          | inr other ↦ rw other (
              gets s
              ∙ ap (projected (get s fields) (get s tables))
                  (get-insert t s p out ∙ ap (λ (c : Bool). if c then some p else get s out) other))
        ],
      )

  -- If every requested table is there and none is requested twice, the projection succeeds; a
  -- requested table has exactly the columns that were requested, in its own order, and no other
  -- table is in the result.
  pub select_fields-get :
      (fields : Dict (List String))
      → DistinctKeys fields
      → AllPresent tables fields
      → (out : Dict RecordBatch) × (select_fields K tables fields ≡ ok out)
        × ((t : String) → get t out ≡ projected (get t fields) (get t tables) none)
  unfolding select_fields get
  select_fields-get fields keys present = select_into-get fields [] keys present
