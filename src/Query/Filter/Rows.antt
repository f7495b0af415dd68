-- ===== src/Query/Filter/Rows.antt =====
-- The answers of the filters of query/src/lib.rs, row by row.
use cherry_core.Base.{
  ap₂, ℕ, suc, ◌≡◌, refl, sym, ap, ◌∙◌, ◌⊎◌, inl, inr, Bool, true, false, ◌&&◌, not, List, [], ◌∷◌,
  map, Option, none, some, Result, ok, err, length, ltb, if◌then◌else◌, arith, Bool-cases,
}
use cherry_core.Arrow.Types.{DataType, same_type, same_type_iff, binary, utf8}
use cherry_core.Arrow.Data.{Scalar, Array, Mask, is_nullable, null_count, of_bits, as_boolean}
use cherry_core.Arrow.Kernels.{Kernels, KernelLaws, and_slot, not_slot, zip_slots}
use cherry_core.Query.Hashing.{Hashing, HashingLaws}
use cherry_core.Query.Filter.{
  check_mask, Layout, layout_of, scalar_eq, any, scalar_has_prefix, apply_null_mask, Contains,
  new_contains, contains_values, contains, StartsWith, new_starts_with, starts_with_bytes,
  check_byte_array, starts_with, validity, check_bool, Error,
}
use cherry_core.Query.Filter.Membership.{new_contains-array, contains_value-new_contains}

-- A column of `n` rows.
pub record IsColumn (n : ℕ) (a : Array) : Type 0 where
  pub all_rows : length a.values ≡ n
  pub all_bits : (bits : List Bool) → a.nulls ≡ some bits → length bits ≡ n

-- The rows that pass a test of their value; a null row does not.
abbrev pub rows_at : (Scalar → Bool) → List Scalar → List Bool → Mask
rows_at p (v ∷ vs) (valid ∷ bits) = some (p v && valid) ∷ rows_at p vs bits
rows_at p _ _ = []

abbrev pub all_pass : (Scalar → Bool) → List Scalar → Mask
all_pass p [] = []
all_pass p (v ∷ vs) = some (p v) ∷ all_pass p vs

abbrev pub passing_rows : (Scalar → Bool) → Array → Mask
passing_rows p a = elim a.nulls [ none ↦ all_pass p a.values | some bits ↦ rows_at p a.values bits ]

and-of_bits :
    (p : Scalar → Bool) (vs : List Scalar) (bits : List Bool)
    → zip_slots and_slot (all_pass p vs) (of_bits bits) ≡ rows_at p vs bits
and-of_bits p [] bits = refl
and-of_bits p (v ∷ vs) [] = refl
and-of_bits p (v ∷ vs) (b ∷ bits) = ap (λ m. some (p v && b) ∷ m) (and-of_bits p vs bits)

no_nulls :
    (p : Scalar → Bool) (vs : List Scalar) (bits : List Bool)
    → length bits ≡ length vs
    → ltb 0 (null_count bits) ≡ false
    → all_pass p vs ≡ rows_at p vs bits
no_nulls p [] [] h z = refl
no_nulls p [] (b ∷ bits) h z = absurd (omega arith)
no_nulls p (v ∷ vs) [] h z = absurd (omega arith)
no_nulls p (v ∷ vs) (true ∷ bits) h z = ground (arith, no_nulls p vs bits)
no_nulls p (v ∷ vs) (false ∷ bits) h z = absurd (ground arith)

length-all_pass : (p : Scalar → Bool) (vs : List Scalar) → length (all_pass p vs) ≡ length vs
length-all_pass p [] = refl
length-all_pass p (v ∷ vs) = ap suc (length-all_pass p vs)

length-of_bits : (bits : List Bool) → length (of_bits bits) ≡ length bits
length-of_bits [] = refl
length-of_bits (b ∷ bits) = ap suc (length-of_bits bits)

check_byte_array-ok : (t : DataType) → (t ≡ binary) ⊎ (t ≡ utf8) → check_byte_array t ≡ ok tt
unfolding check_byte_array
check_byte_array-ok t (inl e) = rw e
check_byte_array-ok t (inr e) = rw e

new_starts_with-array :
    (array : Array) (sw : StartsWith)
    → new_starts_with array ≡ ok sw
    → (sw.array ≡ array) × (is_nullable array ≡ false)
unfolding new_starts_with
new_starts_with-array array sw e = elim (Bool-cases (is_nullable array)) [
  | inl n ↦ absurd (not_ok (sym (rw n at e)))
  | inr n ↦ (ap (λ (s : StartsWith). s.array) (ok_inj (sym (rw n at e))), n)
]
  where
    not_ok : {c : StartsWith} {x : Error} → ◌≡◌ {A = Result Error StartsWith} (ok c) (err x) → ⊥
    not_ok h = cc

    ok_inj : {c d : StartsWith} → ◌≡◌ {A = Result Error StartsWith} (ok c) (ok d) → c ≡ d
    ok_inj h = cc

module _ (K : Kernels) (laws : KernelLaws K) where
  -- The null mask makes the rows of an unmasked test those of the column.
  apply_null_mask-all_pass :
      (p : Scalar → Bool) (n : ℕ) (a : Array)
      → IsColumn n a
      → apply_null_mask K a.nulls (all_pass p a.values) ≡ ok (passing_rows p a)
  unfolding apply_null_mask
  apply_null_mask-all_pass p n a c = go a.nulls c.all_bits
    where
      go :
          (nulls : Option (List Bool))
          → ((bits : List Bool) → nulls ≡ some bits → length bits ≡ n)
          → apply_null_mask K nulls (all_pass p a.values)
            ≡ ok (elim nulls [ none ↦ all_pass p a.values | some bits ↦ rows_at p a.values bits ])
      go none h = refl
      go (some bits) h =
          let len : length bits ≡ length a.values = h bits refl ∙ sym c.all_rows in
          elim (Bool-cases (ltb 0 (null_count bits))) [
            | inl masked ↦ rw (
              masked,
              laws.and_lem (all_pass p a.values) (of_bits bits)
                  (length-all_pass p a.values ∙ sym len ∙ sym (length-of_bits bits)),
              and-of_bits p a.values bits,
            )
            | inr clean ↦ rw clean (ap ok (no_nulls p a.values bits len clean))
          ]

  contains_values-all_pass :
      (H : Hashing) (hashing : HashingLaws H) (array : Array) (layout : Layout) (ct : Contains H)
      → layout_of array.data_type ≡ ok layout
      → new_contains H array ≡ ok ct
      → (vs : List Scalar)
      → contains_values H layout ct vs ≡ all_pass (λ v. any (λ x. scalar_eq x v) array.values) vs
  unfolding contains_values
  contains_values-all_pass H hashing array layout ct l e [] = refl
  contains_values-all_pass H hashing array layout ct l e (v ∷ vs) =
      ap₂ (λ b m. some b ∷ m) (contains_value-new_contains H hashing array layout ct v l e)
        (contains_values-all_pass H hashing array layout ct l e vs)

  starts_with_bytes-all_pass :
      (prefixes vs : List Scalar)
      → starts_with_bytes prefixes vs
        ≡ all_pass (λ v. any (λ prefix. scalar_has_prefix prefix v) prefixes) vs
  unfolding starts_with_bytes
  starts_with_bytes-all_pass prefixes [] = refl
  starts_with_bytes-all_pass prefixes (v ∷ vs) =
      ap (λ m. some (any (λ prefix. scalar_has_prefix prefix v) prefixes) ∷ m)
        (starts_with_bytes-all_pass prefixes vs)

  -- A `Contains` filter that `Contains::new` makes of an array of integers of 8 to 64 bits,
  -- `Binary` or `Utf8` answers, at each row of a column of its type, whether the row is not null
  -- and its value is one of the values of the filter, whatever the number of values.
  pub contains-rows :
      (H : Hashing) (hashing : HashingLaws H) (n : ℕ) (array arr : Array) (layout : Layout)
      (ct : Contains H)
      → layout_of array.data_type ≡ ok layout
      → new_contains H array ≡ ok ct
      → arr.data_type ≡ array.data_type
      → IsColumn n arr
      → contains H K ct arr ≡ ok (passing_rows (λ v. any (λ x. scalar_eq x v) array.values) arr)
  contains-rows H hashing n array arr layout ct l e same col =
      let (made_of, no_null) = new_contains-array H hashing array layout ct l e in
      let test = λ (v : Scalar). any (λ x. scalar_eq x v) array.values in
      let values = contains_values-all_pass H hashing array layout ct l e arr.values in
      let typed : same_type arr.data_type ct.array.data_type ≡ true =
        (same_type_iff _ _).1 (same ∙ ap (λ (a : Array). a.data_type) (sym made_of)) in
      let clean : is_nullable ct.array ≡ false =
        ap (λ (a : Array). is_nullable a) made_of ∙ no_null in
      let layout_eq : layout_of arr.data_type ≡ ok layout = ap layout_of same ∙ l in
      unfold contains in
      simp (typed, clean, layout_eq, values) (apply_null_mask-all_pass test n arr col)

  -- A `StartsWith` filter made of binary values or texts answers, at each row of a column of its
  -- type, whether the row is not null and its bytes begin with one of the prefixes.
  pub starts_with-rows :
      (n : ℕ) (array arr : Array) (sw : StartsWith)
      → (array.data_type ≡ binary) ⊎ (array.data_type ≡ utf8)
      → new_starts_with array ≡ ok sw
      → arr.data_type ≡ array.data_type
      → IsColumn n arr
      → starts_with K sw arr
        ≡ ok (passing_rows (λ v. any (λ prefix. scalar_has_prefix prefix v) array.values) arr)
  starts_with-rows n array arr sw l e same col =
      let (made_of, no_null) = new_starts_with-array array sw e in
      let test = λ (v : Scalar). any (λ prefix. scalar_has_prefix prefix v) array.values in
      let prefixes : starts_with_bytes sw.array.values arr.values ≡ all_pass test arr.values =
        rw made_of (starts_with_bytes-all_pass array.values arr.values) in
      let typed : same_type arr.data_type sw.array.data_type ≡ true =
        (same_type_iff _ _).1 (same ∙ ap (λ (a : Array). a.data_type) (sym made_of)) in
      let clean : is_nullable sw.array ≡ false =
        ap (λ (a : Array). is_nullable a) made_of ∙ no_null in
      let allowed : check_byte_array arr.data_type ≡ ok tt =
        ap check_byte_array same ∙ check_byte_array-ok array.data_type l in
      unfold starts_with in
      simp (typed, clean, allowed, prefixes) (apply_null_mask-all_pass test n arr col)

and-validity : (f : Mask) → zip_slots and_slot f (of_bits (validity f)) ≡ f
and-validity [] = refl
and-validity (none ∷ f) = ap (λ m. none ∷ m) (and-validity f)
and-validity (some true ∷ f) = ap (λ m. some true ∷ m) (and-validity f)
and-validity (some false ∷ f) = ap (λ m. some false ∷ m) (and-validity f)

length-validity : (f : Mask) → length f ≡ length (of_bits (validity f))
length-validity [] = refl
length-validity (s ∷ f) = ap suc (length-validity f)

-- The answer of a Boolean filter at one row: a null stays a null.
abbrev pub bool_row : Bool → Option Bool → Option Bool
bool_row b none = none
bool_row b (some x) = some (if b then x else not x)

bool_row-true : (m : Mask) → map (bool_row true) m ≡ m
bool_row-true [] = refl
bool_row-true (none ∷ m) = ap (λ l. none ∷ l) (bool_row-true m)
bool_row-true (some x ∷ m) = ap (λ l. some x ∷ l) (bool_row-true m)

bool_row-false : (m : Mask) → map (bool_row false) m ≡ map not_slot m
bool_row-false [] = refl
bool_row-false (none ∷ m) = ap (λ l. none ∷ l) (bool_row-false m)
bool_row-false (some x ∷ m) = ap (λ l. some (not x) ∷ l) (bool_row-false m)

module _ (K : Kernels) (laws : KernelLaws K) where
  -- A mask's own validity masks nothing.
  own_validity : (f : Mask) → apply_null_mask K (some (validity f)) f ≡ ok f
  unfolding apply_null_mask
  own_validity f = elim (Bool-cases (ltb 0 (null_count (validity f)))) [
    | inl masked ↦
        rw (masked, laws.and_lem f (of_bits (validity f)) (length-validity f), and-validity f)
    | inr clean ↦ rw clean
  ]

  -- A Boolean filter answers, at each row of a Boolean column, whether the value is the one of the
  -- filter; at a null row the answer is null, not false.
  pub check_bool-rows :
      (b : Bool) (arr : Array) (m : Mask)
      → as_boolean arr ≡ some m
      → check_bool K b arr ≡ ok (map (bool_row b) m)
  unfolding check_mask check_bool
  check_bool-rows b arr m e = ap (check_mask K b) e ∙ go b
    where
      go : (b : Bool) → check_mask K b (some m) ≡ ok (map (bool_row b) m)
      go true = rw bool_row-true (own_validity m)
      go false = rw (laws.negate_lem m, bool_row-false) (own_validity (map not_slot m))
