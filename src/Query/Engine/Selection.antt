-- ===== src/Query/Engine/Selection.antt =====
-- The loop over the filters in `run_table_selection` (query/src/lib.rs).
use cherry_core.Base.{
  ℕ, zero, suc, ◌<◌, ◌≡◌, refl, sym, ap, ◌∙◌, Bool, true, false, ◌&&◌, List, [], ◌∷◌, Option, none,
  some, ok, length, arith, String, All, replicate, length-replicate, Ensures-eq_ok, Bool-cases, inl,
  subst, inr,
}
use cherry_core.Base.Dict.{Dict, str_eq}
use cherry_core.Arrow.Data.{Array, Mask, RecordBatch, row, column_by_name}
use cherry_core.Arrow.Kernels.{Kernels, KernelLaws, and_slot, zip_slots}
use cherry_core.Query.Hashing.{Hashing}
use cherry_core.Query.Filter.{Filter, check}
use cherry_core.Query.Filter.Rows.{IsColumn}
use cherry_core.Query.Filter.Lengths.{row-and, length-zip_slots, length-check}
use cherry_core.Query.Engine.{combine_filters, and_with, or_all_rows}

-- A table of `n` rows.
pub record IsTable (n : ℕ) (table : RecordBatch) : Type 0 where
  pub counted : table.num_rows ≡ n
  pub all_columns : All (λ c. IsColumn n c.1) table.columns

column_by_name-IsColumn :
    (n : ℕ) (name : String) (columns : List (String × Array)) (a : Array)
    → All (λ c. IsColumn n c.1) columns
    → column_by_name name columns ≡ some a
    → IsColumn n a
unfolding column_by_name
column_by_name-IsColumn n name [] a all e = absurd (cc)
column_by_name-IsColumn n name ((m, b) ∷ columns) a all e = elim (Bool-cases (str_eq m name)) [
  | inl h ↦ subst (IsColumn n) (some_inj (rw h at e)) all.0
  | inr h ↦ column_by_name-IsColumn n name columns a all.1 (rw h at e)
]
  where
    some_inj : some b ≡ some a → b ≡ a
    some_inj h = cc

row-replicate : (n i : ℕ) → i < n → row (replicate n (some true)) i ≡ true
row-replicate zero i h = absurd (omega arith)
row-replicate (suc n) zero h = refl
row-replicate (suc n) (suc i) h = row-replicate n i (omega arith)

module _ (H : Hashing) (K : Kernels) (table : RecordBatch) where
  -- A filter's column is there, and the filter fits its type.
  abbrev pub Applies : String → Filter H → Mask → Type 0
  Applies name f m =
      (col : Array) × (column_by_name name table.columns ≡ some col) × (check H K f col ≡ ok m)

  abbrev pub AllApply : Dict (Filter H) → List Mask → Type 0
  AllApply [] [] = Unit
  AllApply ((name, f) ∷ fs) (m ∷ ms) = Applies name f m × AllApply fs ms
  AllApply _ _ = ⊥

and-true : (b : Bool) → b && true ≡ b
and-true true = refl
and-true false = refl

and_assoc : (a b c : Bool) → (a && b) && c ≡ a && (b && c)
and_assoc true b c = refl
and_assoc false b c = refl

-- Whether a row is true in all of some masks.
abbrev pub row_in_all : List Mask → ℕ → Bool
row_in_all [] i = true
row_in_all (m ∷ ms) i = row m i && row_in_all ms i

module _ (H : Hashing) (K : Kernels) (laws : KernelLaws K) (n : ℕ) (table : RecordBatch)
    (is_table : IsTable n table) where
  one_more :
      (cf : Option Mask) (m : Mask)
      → length (or_all_rows H K table cf) ≡ n
      → length m ≡ n
      → (c : Mask) × (and_with H K cf m ≡ ok c)
        × (length c ≡ n)
        × ((i : ℕ) → i < n → row c i ≡ row (or_all_rows H K table cf) i && row m i)
  unfolding and_with
  one_more none m len m_len = (
    m,
    refl,
    m_len,
    λ i lt.
        sym (
          ap (λ b. b && row m i)
            (row-replicate table.num_rows i (omega (arith, is_table.counted)))),
  )
  one_more (some x) m len m_len =
      let same : length x ≡ length m = len ∙ sym m_len in
      (
        zip_slots and_slot x m,
        rw (laws.and_lem x m same),
        length-zip_slots and_slot x m same ∙ len,
        λ i lt. row-and x m i,
      )

  combine_rest :
      (fs : Dict (Filter H)) (ms : List Mask) (cf : Option Mask)
      → AllApply H K table fs ms
      → length (or_all_rows H K table cf) ≡ n
      → (r : Option Mask) × (combine_filters H K table fs cf ≡ ok r)
        × (length (or_all_rows H K table r) ≡ n)
        × ((i : ℕ)
            → i < n
            → row (or_all_rows H K table r) i ≡ row (or_all_rows H K table cf) i && row_in_all ms i)
  unfolding combine_filters
  combine_rest [] [] cf app len = (cf, refl, len, λ i lt. sym (and-true _))
  combine_rest [] (m ∷ ms) cf app len = absurd app
  combine_rest ((name, f) ∷ fs) [] cf app len = absurd app
  combine_rest ((name, f) ∷ fs) (m ∷ ms) cf ((col, found, checked), app) len =
      let col_len = column_by_name-IsColumn n name table.columns col is_table.all_columns found in
      let m_len = Ensures-eq_ok (length-check K laws H f n col col_len) checked in
      let (c, combined, c_len, c_rows) = one_more cf m len m_len in
      let (r, rest, r_len, r_rows) = combine_rest fs ms (some c) app c_len in
      (
        r,
        rw (found, checked, combined) rest,
        r_len,
        λ i lt.
            r_rows i lt
            ∙ ap (λ b. b && row_in_all ms i) (c_rows i lt)
            ∙ and_assoc (row (or_all_rows H K table cf) i) (row m i) (row_in_all ms i),
      )

  -- If the column of every filter of a selection is in the table and fits the filter, the loop over
  -- the filters succeeds and selects exactly the rows that are true in the answers of all filters;
  -- all rows, if there is no filter.
  pub combine_filters-rows :
      (fs : Dict (Filter H)) (ms : List Mask)
      → AllApply H K table fs ms
      → (r : Option Mask) × (combine_filters H K table fs none ≡ ok r)
        × ((i : ℕ) → i < n → row (or_all_rows H K table r) i ≡ row_in_all ms i)
  combine_filters-rows fs ms app =
      let (r, done, _, rows) =
        combine_rest fs ms none app
          (length-replicate table.num_rows (some true) ∙ is_table.counted) in
      (
        r,
        done,
        λ i lt.
            rows i lt
            ∙ ap (λ b. b && row_in_all ms i)
                (row-replicate table.num_rows i (omega (arith, is_table.counted))),
      )
