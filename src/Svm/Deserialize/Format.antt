-- ===== src/Svm/Deserialize/Format.antt =====
-- The binary format, described apart from the deserializer: which bytes stand for which value of a
-- type. It is Borsh's, except that a flag byte other than 0 and 1 also stands for `true`.
use cherry_core.Base.{
  ℕ, zero, suc, ◌*◌, ◌^◌, ◌<◌, ◌≡◌, ◌≢◌, true, false, List, [], ◌∷◌, ◌++◌, ok, to_le_bytes,
  to_signed, IsByte, String,
}
use cherry_core.Svm.Types.{
  DynType, Fields, Variants, DynValue, Values, NamedValues, OptValue, ParamInput, i8, i16, i32, i64,
  i128, u8, u16, u32, u64, u128, bool, fixed_array, array, struct, enum, option, no_fields, field,
  unit_variant, variant, no_values, value, no_named, named, no_value, some_value,
}
use cherry_core.Svm.Deserialize.{check_type_size}

-- The integers: the type, its size in bytes, and the value that a bit pattern stands for.
pub data Primitive : DynType → ℕ → (ℕ → DynValue) → Type 0 where
  prim_i8 : Primitive i8 1 (λ n. i8 (to_signed 8 n))
  prim_i16 : Primitive i16 2 (λ n. i16 (to_signed 16 n))
  prim_i32 : Primitive i32 4 (λ n. i32 (to_signed 32 n))
  prim_i64 : Primitive i64 8 (λ n. i64 (to_signed 64 n))
  prim_i128 : Primitive i128 16 (λ n. i128 (to_signed 128 n))
  prim_u8 : Primitive u8 1 u8
  prim_u16 : Primitive u16 2 u16
  prim_u32 : Primitive u32 4 u32
  prim_u64 : Primitive u64 8 u64
  prim_u128 : Primitive u128 16 u128

mutual
  pub data Encodes : DynType → DynValue → List ℕ → Type 0 where
    enc_integer :
        {t : DynType} {make : ℕ → DynValue} (w n : ℕ)
        → Primitive t w make
        → n < 256 ^ w
        → Encodes t (make n) (to_le_bytes w n)
    enc_false : Encodes bool (bool false) (0 ∷ [])
    enc_true : (b : ℕ) → IsByte b → b ≢ 0 → Encodes bool (bool true) (b ∷ [])
    -- the elements of a fixed array stand side by side; they are integers or flags
    enc_fixed_array :
        {t : DynType} {vs : Values} {bs : List ℕ} (w size : ℕ)
        → check_type_size t ≡ ok w
        → w * size < 2 ^ 64
        → EncodesAll t size vs bs
        → Encodes (fixed_array t size) (array vs) bs
    -- an array has its length in front, as a u32
    enc_array :
        {t : DynType} {vs : Values} {bs : List ℕ} (n : ℕ)
        → n < 2 ^ 32
        → EncodesAll t n vs bs
        → Encodes (array t) (array vs) (to_le_bytes 4 n ++ bs)
    enc_struct :
        {fs : Fields} {vs : NamedValues} {bs : List ℕ}
        → EncodesFields fs vs bs
        → Encodes (struct fs) (struct vs) bs
    -- an enum has the index of its variant in front, as a byte
    enc_enum :
        {vars : Variants} {name : String} {v : OptValue} {bs : List ℕ} (i : ℕ)
        → IsByte i
        → EncodesVariant vars i name v bs
        → Encodes (enum vars) (enum name v) (i ∷ bs)
    enc_none : (t : DynType) → Encodes (option t) (option no_value) (0 ∷ [])
    enc_some :
        {t : DynType} {v : DynValue} {bs : List ℕ}
        → Encodes t v bs
        → Encodes (option t) (option (some_value v)) (1 ∷ bs)

  pub data EncodesAll : DynType → ℕ → Values → List ℕ → Type 0 where
    all_nil : (t : DynType) → EncodesAll t zero no_values []
    all_cons :
        {t : DynType} {n : ℕ} {v : DynValue} {vs : Values} {bs cs : List ℕ}
        → Encodes t v bs
        → EncodesAll t n vs cs
        → EncodesAll t (suc n) (value v vs) (bs ++ cs)

  pub data EncodesFields : Fields → NamedValues → List ℕ → Type 0 where
    fields_nil : EncodesFields no_fields no_named []
    fields_cons :
        {name : String} {t : DynType} {fs : Fields} {v : DynValue} {vs : NamedValues}
        {bs cs : List ℕ}
        → Encodes t v bs
        → EncodesFields fs vs cs
        → EncodesFields (field name t fs) (named name v vs) (bs ++ cs)

  -- The payload of the variant with a given index.
  pub data EncodesVariant : Variants → ℕ → String → OptValue → List ℕ → Type 0 where
    unit_here :
        (name : String) (vars : Variants)
        → EncodesVariant (unit_variant name vars) zero name no_value []
    payload_here :
        {name : String} {t : DynType} {vars : Variants} {v : DynValue} {bs : List ℕ}
        → Encodes t v bs
        → EncodesVariant (variant name t vars) zero name (some_value v) bs
    after_unit :
        {other name : String} {vars : Variants} {i : ℕ} {v : OptValue} {bs : List ℕ}
        → EncodesVariant vars i name v bs
        → EncodesVariant (unit_variant other vars) (suc i) name v bs
    after_payload :
        {other name : String} {t : DynType} {vars : Variants} {i : ℕ} {v : OptValue} {bs : List ℕ}
        → EncodesVariant vars i name v bs
        → EncodesVariant (variant other t vars) (suc i) name v bs

-- A sequence of parameters is the encodings of their values, side by side.
pub data EncodesParams : List ParamInput → Values → List ℕ → Type 0 where
  params_nil : EncodesParams [] no_values []
  params_cons :
      {p : ParamInput} {ps : List ParamInput} {v : DynValue} {vs : Values} {bs cs : List ℕ}
      → Encodes p.param_type v bs
      → EncodesParams ps vs cs
      → EncodesParams (p ∷ ps) (value v vs) (bs ++ cs)
