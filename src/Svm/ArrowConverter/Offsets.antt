-- ===== src/Svm/ArrowConverter/Offsets.antt =====
-- svm-decode/src/arrow_converter.rs: how far the offsets of the lists and of the binary values can get that
-- values become. An offset of arrow's `List` and `Binary` is an i32.
use cherry_core.Base.{
  ℕ, ◌+◌, ◌^◌, ◌<◌, ◌≤◌, ◌≡◌, List, [], ◌∷◌, ◌++◌, Option, none, some, arith, ltb, Bool-cases, inl,
  inr, if◌then◌else◌,
}
use cherry_core.Svm.Types.{
  DynValue, Values, NamedValues, OptValue, array, struct, enum, option, no_named, named, no_values,
  value, no_value, some_value,
}
use cherry_core.Svm.ArrowConverter.Nested.{rows_of, count_values}

abbrev pub greater : ℕ → ℕ → ℕ
greater a b = if ltb a b then b else a

pub ≤-greater : (a b : ℕ) → (a ≤ greater a b) × (b ≤ greater a b)
≤-greater a b = ground arith

pub greater-≤ : (a b k : ℕ) → a ≤ k → b ≤ k → greater a b ≤ k
greater-≤ a b k h h' = elim (Bool-cases (ltb a b)) [ inl less ↦ rw less h' | inr more ↦ rw more h ]

-- The elements of all lists inside a value. The fields of a struct go to columns of their own, so
-- the greatest counts.
unfoldable mutual
  pub count_elements : DynValue → ℕ
  count_elements (array vs) = count_values vs + elements_of_values vs
  count_elements (struct vs) = elements_of_named vs
  count_elements (enum _ o) = elements_of_option o
  count_elements (option o) = elements_of_option o
  count_elements _ = 0

  pub elements_of_values : Values → ℕ
  elements_of_values no_values = 0
  elements_of_values (value v vs) = count_elements v + elements_of_values vs

  pub elements_of_named : NamedValues → ℕ
  elements_of_named no_named = 0
  elements_of_named (named _ v vs) = greater (count_elements v) (elements_of_named vs)

  pub elements_of_option : OptValue → ℕ
  elements_of_option no_value = 0
  elements_of_option (some_value v) = count_elements v

unfoldable pub elements_of_rows : List (Option DynValue) → ℕ
unfolding count_elements
elements_of_rows [] = 0
elements_of_rows (none ∷ vs) = elements_of_rows vs
elements_of_rows (some v ∷ vs) = count_elements v + elements_of_rows vs

-- The rows have fewer elements than an i32 counts, so no offset overflows.
abbrev pub OffsetsFit : List (Option DynValue) → Type 0
OffsetsFit vs = elements_of_rows vs < 2 ^ 31

pub elements-rows_of :
    (vs : Values) (rows : List (Option DynValue))
    → elements_of_rows (rows_of vs ++ rows) ≡ elements_of_values vs + elements_of_rows rows
unfolding elements_of_rows count_elements
elements-rows_of no_values rows = omega arith
elements-rows_of (value v vs) rows = omega (arith, elements-rows_of vs rows)
