-- ===== src/Query/Filter/Lengths.antt =====
-- The lengths of the masks that the filters of query/src/lib.rs return.
use cherry_core.Base.{
  any_result, ℕ, zero, suc, ◌≡◌, refl, sym, ap, ◌∙◌, inl, inr, Bool, true, false, ◌&&◌, not, List,
  [], ◌∷◌, Option, none, some, length, ltb, arith, Bool-cases, length-map, Ensures, returns, fails,
  Ensures-guard, Ensures->>=, Option-cases,
}
use cherry_core.Arrow.Types.{same_type}
use cherry_core.Arrow.Data.{
  Scalar, Array, Mask, is_nullable, null_count, of_bits, as_boolean, boolean_rows, all_flags,
  flags_at, if_boolean-eq_some, row,
}
use cherry_core.Arrow.Kernels.{Kernels, KernelLaws, and_slot, zip_slots}
use cherry_core.Query.Hashing.{Hashing}
use cherry_core.Query.Filter.{
  layout_of, apply_null_mask, Contains, contains_values, starts_with_bytes, check_byte_array,
  Filter, contains_filter, starts_with_filter, bool_filter, check, Layout,
}
use cherry_core.Query.Filter.Rows.{bool_row, check_bool-rows, IsColumn}

and-false : (b : Bool) → false ≡ b && false
and-false true = refl
and-false false = refl

-- `and` is true where both sides are.
pub row-and : (a b : Mask) (i : ℕ) → row (zip_slots and_slot a b) i ≡ row a i && row b i
row-and [] b i = refl
row-and (s ∷ a) [] i = and-false (row (s ∷ a) i)
row-and (none ∷ a) (t ∷ b) zero = refl
row-and (some true ∷ a) (none ∷ b) zero = refl
row-and (some false ∷ a) (none ∷ b) zero = refl
row-and (some true ∷ a) (some true ∷ b) zero = refl
row-and (some true ∷ a) (some false ∷ b) zero = refl
row-and (some false ∷ a) (some y ∷ b) zero = refl
row-and (s ∷ a) (t ∷ b) (suc i) = row-and a b i

pub length-zip_slots :
    (f : Option Bool → Option Bool → Option Bool) (a b : Mask)
    → length a ≡ length b
    → length (zip_slots f a b) ≡ length a
length-zip_slots f [] [] h = refl
length-zip_slots f [] (t ∷ b) h = refl
length-zip_slots f (s ∷ a) [] h = omega arith
length-zip_slots f (s ∷ a) (t ∷ b) h = omega (arith, length-zip_slots f a b)

length-all_flags : (vs : List Scalar) → length (all_flags vs) ≡ length vs
length-all_flags [] = refl
length-all_flags (v ∷ vs) = ap suc (length-all_flags vs)

length-boolean_rows :
    (n : ℕ) (values : List Scalar) (nulls : Option (List Bool))
    → length values ≡ n
    → ((bits : List Bool) → nulls ≡ some bits → length bits ≡ n)
    → length (boolean_rows values nulls) ≡ n
length-boolean_rows n vs none h k = length-all_flags vs ∙ h
length-boolean_rows n vs (some bits) h k = length-flags_at vs bits (h ∙ sym (k bits refl)) ∙ h
  where
    length-flags_at :
        (vs : List Scalar) (bits : List Bool)
        → length vs ≡ length bits
        → length (flags_at vs bits) ≡ length vs
    length-flags_at [] bits e = refl
    length-flags_at (v ∷ vs) [] e = absurd (omega arith)
    length-flags_at (v ∷ vs) (b ∷ bits) e = ap suc (length-flags_at vs bits (omega arith))

module _ (K : Kernels) (laws : KernelLaws K) where
  length-apply_null_mask :
      (n : ℕ) (nulls : Option (List Bool)) (f : Mask)
      → length f ≡ n
      → ((bits : List Bool) → nulls ≡ some bits → length bits ≡ n)
      → Ensures (λ m. length m ≡ n) (apply_null_mask K nulls f)
  unfolding apply_null_mask
  length-apply_null_mask n none f h k = returns h
  length-apply_null_mask n (some bits) f h k = elim (Bool-cases (ltb 0 (null_count bits))) [
    | inl masked ↦
        let same : length f ≡ length (of_bits bits) =
          h ∙ sym (length-map some bits ∙ k bits refl) in
        rw (masked, laws.and_lem f (of_bits bits) same)
          (returns (length-zip_slots and_slot f (of_bits bits) same ∙ h))
    | inr clean ↦ rw clean (returns h)
  ]

  length-contains_values :
      (H : Hashing) (layout : Layout) (ct : Contains H) (vs : List Scalar)
      → length (contains_values H layout ct vs) ≡ length vs
  unfolding contains_values
  length-contains_values H layout ct [] = refl
  length-contains_values H layout ct (v ∷ vs) = ap suc (length-contains_values H layout ct vs)

  length-starts_with_bytes :
      (prefixes vs : List Scalar) → length (starts_with_bytes prefixes vs) ≡ length vs
  unfolding starts_with_bytes
  length-starts_with_bytes prefixes [] = refl
  length-starts_with_bytes prefixes (v ∷ vs) = ap suc (length-starts_with_bytes prefixes vs)

  -- A filter has an answer for every row of the column.
  pub length-check :
      (H : Hashing) (f : Filter H) (n : ℕ) (arr : Array)
      → IsColumn n arr
      → Ensures (λ m. length m ≡ n) (check H K f arr)
  unfolding check
  length-check H (contains_filter ct) n arr c =
      Ensures-guard (not (same_type arr.data_type ct.array.data_type)) _ _ λ _.
        Ensures-guard (is_nullable ct.array) _ _ λ _.
          Ensures->>= {P = λ _. Unit {0}} (any_result (layout_of arr.data_type)) λ layout _.
            length-apply_null_mask n arr.nulls _
              (length-contains_values H layout ct arr.values ∙ c.all_rows) c.all_bits
  length-check H (starts_with_filter sw) n arr c =
      Ensures-guard (not (same_type arr.data_type sw.array.data_type)) _ _ λ _.
        Ensures-guard (is_nullable sw.array) _ _ λ _.
          Ensures->>= {P = λ _. Unit {0}} (any_result (check_byte_array arr.data_type)) λ _ _.
            length-apply_null_mask n arr.nulls _
              (length-starts_with_bytes sw.array.values arr.values ∙ c.all_rows) c.all_bits
  length-check H (bool_filter b) n arr c = elim (Option-cases (as_boolean arr)) [
    | inl other ↦ rw other fails
    | inr (m, e) ↦
        let rows = if_boolean-eq_some arr.data_type _ m e in
        rw (check_bool-rows K laws b arr m e) (
          returns (
            length-map (bool_row b) m
            ∙ ap length (sym rows)
            ∙ length-boolean_rows n arr.values arr.nulls c.all_rows c.all_bits))
  ]
