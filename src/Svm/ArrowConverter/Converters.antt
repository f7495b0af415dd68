-- ===== src/Svm/ArrowConverter/Converters.antt =====
-- `to_number`, `to_option`, `to_list` and `to_struct` (svm-decode/src/arrow_converter.rs).
use cherry_core.Base.{
  ℕ, suc, ◌<◌, ◌^◌, arith, ◌≡◌, refl, sym, ap, ◌∙◌, Bool, true, false, List, [], ◌∷◌, Option, none,
  some, Result, ok, String, All, length, if◌then◌else◌, ℤ,
}
use cherry_core.Arrow.Builders.{Builders, BuilderLaws, ColumnsFit, BitsFit}
use cherry_core.Arrow.Types.{DataType, Field, Fields, cons_field, no_fields, field}
use cherry_core.Svm.Types.{DynValue}
use cherry_core.Svm.ArrowConverter.{Error, lift, read_number}
use cherry_core.Svm.ArrowConverter.Nested.{
  struct_columns, Converter, to_number, to_option, to_list, struct_arrays, schema_of, to_struct,
}
use cherry_core.Svm.ArrowConverter.Typed.{IsNumber, ListOf, OptionOf, StructOf}
use cherry_core.Svm.ArrowConverter.Offsets.{OffsetsFit, elements_of_rows}
use cherry_core.Svm.ArrowConverter.Rows.{
  RowOf, ColsHave, append_rows-ok, option_rows-ok, list_parts-ok, struct_columns-ok,
}

read_number-ok :
    (signed : Bool) (bits : ℕ) (v : DynValue)
    → IsNumber signed bits v
    → (z : ℤ) × (read_number signed bits v ≡ ok z)
unfolding read_number
read_number-ok signed bits v (z, e, r) = (z, rw (e, r, read_number) refl)

module _ (B : Builders) where
  -- An array of type `dt` with `n` rows.
  abbrev pub Builds : DataType → ℕ → Result Error B.Column → Type 0
  Builds dt n r = (c : B.Column) × (r ≡ ok c) × (B.data_type c ≡ dt) × (B.len c ≡ n)

  -- Values of which `P` holds, and nulls, become an array of type `dt` with a row for each.
  abbrev pub Converts : (DynValue → Type 0) → DataType → Converter B → Type 0
  Converts P dt convert =
      (vs : List (Option DynValue))
      → All (RowOf P) vs
      → OffsetsFit vs
      → Builds dt (length vs) (convert vs)

  abbrev pub FieldsConvert :
      List (DynValue → Type 0) → List (String × Converter B) → Fields → Type 0
  FieldsConvert [] [] no_fields = Unit
  FieldsConvert (P ∷ Ps) ((name, convert) ∷ cs) (cons_field (field n dt nullable) fs) =
      (n ≡ name) × (nullable ≡ true) × Converts P dt convert × FieldsConvert Ps cs fs
  FieldsConvert _ _ _ = ⊥

module _ (B : Builders) (laws : BuilderLaws B) where
  pub to_number-Converts :
      (dt : DataType) (signed : Bool) (bits : ℕ)
      → Converts B (IsNumber signed bits) dt (to_number B dt signed bits)
  unfolding to_number
  to_number-Converts dt signed bits vs h o =
      let (rows, done, len) =
        append_rows-ok (IsNumber signed bits) (read_number signed bits) (read_number-ok signed bits)
          vs h in
      let (typed, count) = laws.primitive_lem dt rows in
      (B.primitive dt rows, rw done refl, typed, count ∙ len)

  pub to_option-Converts :
      (P : DynValue → Type 0) (dt : DataType) (convert : Converter B)
      → Converts B P dt convert
      → Converts B (OptionOf P) dt (to_option B convert)
  unfolding to_option
  to_option-Converts P dt convert k vs h o =
      let (rows, done, all, len, size) = option_rows-ok P vs h in
      let (c, made, typed, count) = k rows all (rw size o) in (c, rw done made, typed, count ∙ len)

  bits_of_parts :
      (b : Bool) (n : ℕ) (bits : List Bool)
      → length bits ≡ n
      → BitsFit n (if b then none else some bits)
  bits_of_parts true n bits h = tt
  bits_of_parts false n bits h = h

  pub to_list-Converts :
      (P : DynValue → Type 0) (dt : DataType) (convert : Converter B)
      → Converts B P dt convert
      → Converts B (ListOf P) (DataType.list (field "" dt true)) (to_list B (ok dt) convert)
  unfolding to_list
  to_list-Converts P dt convert k vs h o =
      let (p, done, fit) = list_parts-ok P vs h in
      let (values, inner, typed, count) =
        k p.inner_values fit.all_inner (omega (arith, o, fit.all_elements)) in
      let bits =
        bits_of_parts p.all_valid (length p.lengths) p.validity
          (fit.all_bits ∙ sym fit.all_lengths) in
      let (c, made, c_typed, c_count) =
        laws.list_lem "" dt p.lengths values (if p.all_valid then none else some p.validity) typed
          (count ∙ fit.counted) bits (omega (arith, o, fit.all_elements)) in
      (c, rw (done, inner, made) refl, c_typed, c_count ∙ fit.all_lengths)

  struct_arrays-ok :
      (n m : ℕ) (Ps : List (DynValue → Type 0)) (cs : List (String × Converter B)) (fs : Fields)
      (cols : List (List (Option DynValue)))
      → m < 2 ^ 31
      → FieldsConvert B Ps cs fs
      → ColsHave n m Ps cols
      → (arrays : List B.Column) × (struct_arrays B cs cols ≡ ok arrays)
        × (schema_of B cs arrays ≡ fs)
        × ColumnsFit B n fs arrays
  unfolding struct_arrays schema_of
  struct_arrays-ok n m [] [] no_fields [] o k h = ([], refl, refl, tt)
  struct_arrays-ok n m [] [] no_fields (c ∷ cols) o k h = absurd h
  struct_arrays-ok n m [] [] (cons_field f fs) cols o k h = absurd k
  struct_arrays-ok n m [] (c ∷ cs) fs cols o k h = absurd k
  struct_arrays-ok n m (P ∷ Ps) [] fs cols o k h = absurd k
  struct_arrays-ok n m (P ∷ Ps) ((name, convert) ∷ cs) no_fields cols o k h = absurd k
  struct_arrays-ok n m (P ∷ Ps) ((name, convert) ∷ cs) (cons_field f fs) [] o k h = absurd h
  struct_arrays-ok n m (P ∷ Ps) ((name, convert) ∷ cs) (cons_field (field x dt nullable) fs)
        (col ∷ cols) o (same, null, conv, k) (all, len, size, h) =
      let (a, made, typed, count) = conv col all (omega (arith, o, size)) in
      let (arrays, done, schema, fit) = struct_arrays-ok n m Ps cs fs cols o k h in
      (
        a ∷ arrays,
        rw (made, done) refl,
        rw (typed, schema, same, null) refl,
        (typed, count ∙ len, null, fit),
      )

  length-FieldsConvert :
      (Ps : List (DynValue → Type 0)) (cs : List (String × Converter B)) (fs : Fields)
      → FieldsConvert B Ps cs fs
      → length Ps ≡ length cs
  length-FieldsConvert [] [] no_fields k = refl
  length-FieldsConvert [] [] (cons_field f fs) k = absurd k
  length-FieldsConvert [] (c ∷ cs) fs k = absurd k
  length-FieldsConvert (P ∷ Ps) [] fs k = absurd k
  length-FieldsConvert (P ∷ Ps) ((name, convert) ∷ cs) no_fields k = absurd k
  length-FieldsConvert (P ∷ Ps) ((name, convert) ∷ cs) (cons_field (field m dt nullable) fs)
        (_, _, _, k) =
      ap suc (length-FieldsConvert Ps cs fs k)

  struct_try_new-Builds :
      (n : ℕ) (f : Field) (fs : Fields) (arrays : List B.Column)
      → ColumnsFit B n (cons_field f fs) arrays
      → Builds B
          (DataType.struct (cons_field f fs))
          n
          (lift (B.struct_try_new (cons_field f fs) arrays))
  struct_try_new-Builds n (field m dt nullable) fs [] h = absurd h
  struct_try_new-Builds n (field m dt nullable) fs (a ∷ arrays) h =
      let (c, made, typed, count) =
        laws.struct_lem n (cons_field (field m dt nullable) fs) a arrays h in
      (c, rw made refl, typed, count)

  pub to_struct-Converts :
      (Ps : List (DynValue → Type 0)) (cs : List (String × Converter B)) (f : Field) (fs : Fields)
      → FieldsConvert B Ps cs (cons_field f fs)
      → Converts B (StructOf Ps) (DataType.struct (cons_field f fs)) (to_struct B cs)
  unfolding to_struct
  to_struct-Converts Ps cs f fs k vs h o =
      let (cols, done, have) = struct_columns-ok Ps vs h in
      let (arrays, made, schema, fit) =
        struct_arrays-ok (length vs) (elements_of_rows vs) Ps cs (cons_field f fs) cols o k have in
      let columns : struct_columns (length cs) vs ≡ ok cols =
        ap (λ n. struct_columns n vs) (sym (length-FieldsConvert Ps cs (cons_field f fs) k))
        ∙ done in
      rw (columns, made, schema) (struct_try_new-Builds (length vs) f fs arrays fit)
