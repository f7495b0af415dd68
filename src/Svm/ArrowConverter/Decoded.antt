-- ===== src/Svm/ArrowConverter/Decoded.antt =====
-- The types of the values that `deserialize_value` returns (svm-decode/src/deserialize.rs).
use cherry_core.Base.{
  suc, ap, ◌∙◌, ℕ, ◌-◌, ◌*◌, ◌^◌, ◌<◌, ◌≡◌, refl, sym, Bool, true, false, List, Option, none, some,
  String, arith, is_some, if◌then◌else◌, ltb, lt→ltb, pos, Bool-cases, inl, inr, to_signed,
}
use mathlib.Core.Bool.{false≢true}
use text.Mathlib.TextEquality.{eq_iff}
use cherry_core.Base.Dict.{str_eq}
use cherry_core.Svm.Types.{
  DynType, Fields, Variants, DynValue, Values, NamedValues, OptValue, u128, fixed_array, array,
  struct, enum, option, no_fields, field, no_variants, unit_variant, variant, value, no_value,
  some_value,
}
use cherry_core.Svm.Deserialize.Format.{
  Primitive, prim_i8, prim_i16, prim_i32, prim_i64, prim_i128, prim_u8, prim_u16, prim_u32,
  prim_u64, prim_u128, Encodes, EncodesAll, EncodesFields, EncodesVariant, enc_integer, enc_false,
  enc_true, enc_fixed_array, enc_array, enc_struct, enc_enum, enc_none, enc_some, all_nil, all_cons,
  fields_nil, fields_cons, unit_here, payload_here, after_unit, after_payload,
}
use cherry_core.Svm.ArrowConverter.{is_u8, integer_of, in_range}
use cherry_core.Svm.ArrowConverter.Nested.{position}
use cherry_core.Svm.ArrowConverter.Typed.{
  AllU8, AllValues, RowHas, HasType, field_preds, HasPayload,
}

-- No u128, which a decimal column may not hold, no fixed arrays but of bytes, and no two variants of
-- one name.
unfoldable mutual
  pub Plain : DynType → Type 0
  Plain u128 = ⊥
  Plain (fixed_array t size) = is_u8 t ≡ true
  Plain (array t) = Plain t
  Plain (option t) = Plain t
  Plain (struct fields) = FieldsPlain fields
  Plain (enum variants) = VariantsPlain variants
  Plain _ = Unit

  pub FieldsPlain : Fields → Type 0
  FieldsPlain no_fields = Unit
  FieldsPlain (field _ t fields) = Plain t × FieldsPlain fields

  pub VariantsPlain : Variants → Type 0
  VariantsPlain no_variants = Unit
  VariantsPlain (unit_variant name variants) =
      (position name variants ≡ none) × VariantsPlain variants
  VariantsPlain (variant name t variants) =
      (position name variants ≡ none) × Plain t × VariantsPlain variants

in_range-to_signed :
    (bits n : ℕ)
    → n < 2 ^ bits
    → 2 ^ bits ≡ 2 * 2 ^ (bits - 1)
    → in_range true bits (to_signed bits n) ≡ true
unfolding in_range to_signed
in_range-to_signed bits n h twice = elim (Bool-cases (ltb n (2 ^ (bits - 1)))) [
  | inl low ↦ rw (low, low) refl
  | inr high ↦ rw (high) (ground arith)
]

Primitive-HasType :
    {t : DynType} {w : ℕ} {make : ℕ → DynValue} (n : ℕ)
    → Primitive t w make
    → Plain t
    → n < 256 ^ w
    → HasType t (make n)
unfolding HasType integer_of Plain in_range
Primitive-HasType n prim_i8 p h = (_, refl, in_range-to_signed 8 n h refl)
Primitive-HasType n prim_i16 p h = (_, refl, in_range-to_signed 16 n h refl)
Primitive-HasType n prim_i32 p h = (_, refl, in_range-to_signed 32 n h refl)
Primitive-HasType n prim_i64 p h = (_, refl, in_range-to_signed 64 n h refl)
Primitive-HasType n prim_i128 p h = tt
Primitive-HasType n prim_u8 p h = (pos n, refl, lt→ltb n (2 ^ 8) h)
Primitive-HasType n prim_u16 p h = (pos n, refl, lt→ltb n (2 ^ 16) h)
Primitive-HasType n prim_u32 p h = (pos n, refl, lt→ltb n (2 ^ 32) h)
Primitive-HasType n prim_u64 p h = (pos n, refl, lt→ltb n (2 ^ 64) h)
Primitive-HasType n prim_u128 p h = absurd p

one_more_u8 :
    {t : DynType} {v : DynValue} {bs : List ℕ} (vs : Values)
    → Encodes t v bs
    → is_u8 t ≡ true
    → AllU8 vs
    → AllU8 (value v vs)
one_more_u8 vs (enc_integer w n prim_u8 lt) h all = all
one_more_u8 vs (enc_integer w n prim_i8 lt) h all = absurd (false≢true h)
one_more_u8 vs (enc_integer w n prim_i16 lt) h all = absurd (false≢true h)
one_more_u8 vs (enc_integer w n prim_i32 lt) h all = absurd (false≢true h)
one_more_u8 vs (enc_integer w n prim_i64 lt) h all = absurd (false≢true h)
one_more_u8 vs (enc_integer w n prim_i128 lt) h all = absurd (false≢true h)
one_more_u8 vs (enc_integer w n prim_u16 lt) h all = absurd (false≢true h)
one_more_u8 vs (enc_integer w n prim_u32 lt) h all = absurd (false≢true h)
one_more_u8 vs (enc_integer w n prim_u64 lt) h all = absurd (false≢true h)
one_more_u8 vs (enc_integer w n prim_u128 lt) h all = absurd (false≢true h)
one_more_u8 vs enc_false h all = absurd (false≢true h)
one_more_u8 vs (enc_true b byte ne) h all = absurd (false≢true h)
one_more_u8 vs (enc_fixed_array w size c lt ks) h all = absurd (false≢true h)
one_more_u8 vs (enc_array n lt ks) h all = absurd (false≢true h)
one_more_u8 vs (enc_struct ks) h all = absurd (false≢true h)
one_more_u8 vs (enc_enum i byte k) h all = absurd (false≢true h)
one_more_u8 vs (enc_none t) h all = absurd (false≢true h)
one_more_u8 vs (enc_some k) h all = absurd (false≢true h)

EncodesAll-AllU8 :
    {t : DynType} {n : ℕ} {vs : Values} {bs : List ℕ}
    → EncodesAll t n vs bs
    → is_u8 t ≡ true
    → AllU8 vs
EncodesAll-AllU8 (all_nil t) h = tt
EncodesAll-AllU8 (all_cons {vs = vs} k ks) h = one_more_u8 vs k h (EncodesAll-AllU8 ks h)

-- One step of `position`.
abbrev step : Bool → Option ℕ → Option ℕ
step here rest = if here then some 0 else elim rest [ none ↦ none | some i ↦ some (suc i) ]

step-here : (b : Bool) (rest : Option ℕ) → b ≡ true → is_some (step b rest) ≡ true
step-here true rest h = refl
step-here false rest h = absurd (false≢true h)

step-there : (b : Bool) (rest : Option ℕ) → is_some rest ≡ true → is_some (step b rest) ≡ true
step-there true rest h = refl
step-there false (some i) h = refl
step-there false none h = absurd (false≢true h)

step-none : (b : Bool) (rest : Option ℕ) → step b rest ≡ none → (b ≡ false) × (rest ≡ none)
step-none true rest h = cc
step-none false none h = (refl, refl)
step-none false (some i) h = cc

str_eq_self : (s : String) → str_eq s s ≡ true
str_eq_self s = (eq_iff s s).1 refl

-- A variant that is encoded is among the variants.
EncodesVariant-position :
    {vars : Variants} {i : ℕ} {name : String} {v : OptValue} {bs : List ℕ}
    → EncodesVariant vars i name v bs
    → is_some (position name vars) ≡ true
unfolding position
EncodesVariant-position (unit_here name vars) =
    step-here (str_eq name name) (position name vars) (str_eq_self name)
EncodesVariant-position (payload_here {name = name} {vars = vars} k) =
    step-here (str_eq name name) (position name vars) (str_eq_self name)
EncodesVariant-position {name = name} (after_unit {other = other} {vars = vars} k) =
    step-there (str_eq other name) (position name vars) (EncodesVariant-position k)
EncodesVariant-position {name = name} (after_payload {other = other} {vars = vars} k) =
    step-there (str_eq other name) (position name vars) (EncodesVariant-position k)

-- Of a name that is not there, nothing is asked.
HasPayload-none :
    (vars : Variants) (name : String) (v : OptValue)
    → position name vars ≡ none
    → HasPayload vars name v
unfolding HasType position
HasPayload-none no_variants name v h = tt
HasPayload-none (unit_variant n vars) name v h =
    HasPayload-none vars name v (step-none (str_eq n name) (position name vars) h).1
HasPayload-none (variant n t vars) name v h =
    let (other, rest) = step-none (str_eq n name) (position name vars) h in
    (λ same. absurd (false≢true (sym other ∙ same)), HasPayload-none vars name v rest)

-- A name that is there is not the one of a variant before it.
other_name :
    (other name : String) (vars : Variants)
    → position other vars ≡ none
    → is_some (position name vars) ≡ true
    → str_eq other name ≡ true
    → ⊥
other_name other name vars absent found same =
    let e : other ≡ name = (eq_iff other name).0 same in
    false≢true (sym (ap is_some (sym (ap (λ n. position n vars) e) ∙ absent)) ∙ found)

mutual
  unfolding HasType Plain

  pub Encodes-HasType :
      {t : DynType} {v : DynValue} {bs : List ℕ} → Encodes t v bs → Plain t → HasType t v
  Encodes-HasType (enc_integer w n prim lt) p = Primitive-HasType n prim p lt
  Encodes-HasType enc_false p = tt
  Encodes-HasType (enc_true b byte ne) p = tt
  Encodes-HasType (enc_fixed_array w size c lt ks) p = EncodesAll-AllU8 ks p
  Encodes-HasType (enc_array n lt ks) p = EncodesAll-HasType ks p
  Encodes-HasType (enc_struct ks) p = EncodesFields-HasType ks p
  Encodes-HasType (enc_enum i byte k) p = (EncodesVariant-position k, EncodesVariant-HasPayload k p)
  Encodes-HasType (enc_none t) p = tt
  Encodes-HasType (enc_some k) p = Encodes-HasType k p

  EncodesAll-HasType :
      {t : DynType} {n : ℕ} {vs : Values} {bs : List ℕ}
      → EncodesAll t n vs bs
      → Plain t
      → AllValues (HasType t) vs
  EncodesAll-HasType (all_nil t) p = tt
  EncodesAll-HasType (all_cons k ks) p = (Encodes-HasType k p, EncodesAll-HasType ks p)

  EncodesFields-HasType :
      {fs : Fields} {vs : NamedValues} {bs : List ℕ}
      → EncodesFields fs vs bs
      → FieldsPlain fs
      → RowHas (field_preds fs) vs
  EncodesFields-HasType fields_nil p = tt
  EncodesFields-HasType (fields_cons k ks) p = (Encodes-HasType k p.0, EncodesFields-HasType ks p.1)

  EncodesVariant-HasPayload :
      {vars : Variants} {i : ℕ} {name : String} {v : OptValue} {bs : List ℕ}
      → EncodesVariant vars i name v bs
      → VariantsPlain vars
      → HasPayload vars name v
  EncodesVariant-HasPayload (unit_here name vars) p = HasPayload-none vars name no_value p.0
  EncodesVariant-HasPayload (payload_here {name = name} {vars = vars} {v = v} k) p =
      (λ _. Encodes-HasType k p.1, HasPayload-none vars name (some_value v) p.0)
  EncodesVariant-HasPayload (after_unit k) p = EncodesVariant-HasPayload k p.1
  EncodesVariant-HasPayload {name = name} (after_payload {other = other} {vars = vars} k) p = (
    λ same. absurd (other_name other name vars p.0 (EncodesVariant-position k) same),
    EncodesVariant-HasPayload k p.2,
  )
