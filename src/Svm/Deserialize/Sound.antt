-- ===== src/Svm/Deserialize/Sound.antt =====
-- `deserialize_value` (svm-decode/src/deserialize.rs) on inputs that it accepts.
use cherry_core.Base.{
  ℕ, zero, suc, ◌*◌, ◌≤◌, ◌%◌, ◌^◌, ◌<◌, ◌≡◌, refl, sym, ap, ◌∙◌, List, [], ◌∷◌, ◌++◌, append_assoc,
  Result, ok, err, length, take, drop, length-append, length-take, length-drop, take-append-drop,
  ltb, ltb→le, All-take, All-drop, to_le_bytes, from_le_bytes, from_le_bytes-lt,
  to_le_bytes-from_le_bytes, IsByte, IsBytes, arith, append-nil, Ensures, returns, fails,
  Ensures-weaken, Ensures-guard, Ensures-if, Ensures->>=, ap₂, String, ==_iff, ◌==◌, inl, inr,
  Bool-cases, subst,
}
use cherry_core.Svm.Types.{
  DynType, Fields, Variants, DynValue, OptValue, i8, i16, i32, i64, i128, u8, u16, u32, u64, u128,
  bool, fixed_array, array, struct, enum, option, no_fields, field, no_variants, unit_variant,
  variant, value, no_value, some_value, count_variants,
}
use cherry_core.Svm.Deserialize.{
  Error, Parser, check_type_size, read_le, read_values, read_fixed_array, read_array, read_option,
  read_enum, chunks, read_chunks, deserialize_value, deserialize_fields, deserialize_variant,
}
use cherry_core.Svm.Deserialize.Format.{
  Primitive, Encodes, EncodesAll, EncodesFields, EncodesVariant, prim_i8, prim_i16, prim_i32,
  prim_i64, prim_i128, prim_u8, prim_u16, prim_u32, prim_u64, prim_u128, enc_integer, enc_false,
  enc_true, enc_fixed_array, enc_array, enc_struct, enc_enum, enc_none, enc_some, all_nil, all_cons,
  fields_nil, fields_cons, unit_here, payload_here, after_unit, after_payload,
}
use cherry_core.Svm.Deserialize.Complete.{
  length-Encodes, check_type_size_pos, deserialize_value-bool,
}

-- The result of reading `bytes`: what was consumed satisfies `P`, and the rest is left.
abbrev pub Consumed {ℓ} : {A : Type ℓ} → (A → List ℕ → Type 0) → List ℕ → A × List ℕ → Type 0
Consumed P bytes (v, rest) = (bs : List ℕ) × (bytes ≡ bs ++ rest) × P v bs × IsBytes rest

-- `read` consumes only what satisfies `P`, whatever the input.
abbrev pub Reads : {A : Type 0} → (A → List ℕ → Type 0) → Parser A → Type 0
Reads P read = (bytes : List ℕ) → IsBytes bytes → Ensures (Consumed P bytes) (read bytes)

-- The size in bytes of a fixed array is a `usize`.
abbrev pub SizeFits : Result Error ℕ → ℕ → Type 0
SizeFits (ok w) size = w * size < 2 ^ 64
SizeFits (err _) size = Unit

unfoldable mutual
  pub FitsUsize : DynType → Type 0
  FitsUsize (fixed_array t size) = FitsUsize t × SizeFits (check_type_size t) size
  FitsUsize (array t) = FitsUsize t
  FitsUsize (struct fs) = FieldsFit fs
  FitsUsize (enum vars) = VariantsFit vars
  FitsUsize (option t) = FitsUsize t
  FitsUsize _ = Unit

  pub FieldsFit : Fields → Type 0
  FieldsFit no_fields = Unit
  FieldsFit (field _ t fs) = FitsUsize t × FieldsFit fs

  pub VariantsFit : Variants → Type 0
  VariantsFit no_variants = Unit
  VariantsFit (unit_variant _ vars) = VariantsFit vars
  VariantsFit (variant _ t vars) = FitsUsize t × VariantsFit vars

-- The front of a slice that is long enough is the little-endian form of a number.
front_le :
    (w : ℕ) (bytes : List ℕ)
    → IsBytes bytes
    → w ≤ length bytes
    → (from_le_bytes (take w bytes) < 256 ^ w)
      × (bytes ≡ to_le_bytes w (from_le_bytes (take w bytes)) ++ drop w bytes)
front_le w bytes byte h =
    let len = length-take w bytes h in
    let front = All-take IsByte w bytes byte in
    let same = to_le_bytes-from_le_bytes (take w bytes) front in
    (
      rw len at (from_le_bytes-lt (take w bytes) front),
      rw (rw len at same) (sym (take-append-drop w bytes)),
    )

integer_sound :
    {t : DynType} {w : ℕ} {make : ℕ → DynValue}
    → Primitive t w make
    → Reads (Encodes t) (read_le w make)
unfolding read_le
integer_sound {w} {make} p bytes byte = Ensures-guard (ltb (length bytes) w) _ _ λ h.
    let (bound, same) = front_le w bytes byte (ltb→le _ _ h) in
    returns (_, same, enc_integer w _ p bound, All-drop IsByte w bytes byte)

bool_sound : Reads (Encodes bool) (deserialize_value bool)
unfolding deserialize_value from_le_bytes
bool_sound [] byte = fails
bool_sound (b ∷ rest) byte = rw (deserialize_value-bool b rest) (elim (Bool-cases (b == 0)) [
  | inl e ↦ rw e (returns (0 ∷ [], ap (λ n. n ∷ rest) ((==_iff b 0).0 e), enc_false, byte.1))
  | inr e ↦ rw e (returns (b ∷ [], refl, enc_true b byte.0 (ground arith), byte.1))
])

nil_of_length : (r : List ℕ) → length r ≡ 0 → r ≡ []
nil_of_length [] h = refl
nil_of_length (x ∷ r) h = absurd (omega arith)

eq_of_prefix :
    {front bs : List ℕ} (r : List ℕ) → front ≡ bs ++ r → length bs ≡ length front → bs ≡ front
eq_of_prefix {front} {bs} r e h =
    let empty : r ≡ [] = nil_of_length r (omega (arith, ap length e, length-append bs r)) in
    sym (append-nil bs) ∙ ap (λ l. bs ++ l) (sym empty) ∙ sym e

module _ {t : DynType} (read : Parser DynValue) (sound : Reads (Encodes t) read) where
  values_sound : (n : ℕ) → Reads (EncodesAll t n) (read_values read n)
  unfolding read_values
  values_sound zero bytes byte = returns ([], refl, all_nil t, byte)
  values_sound (suc n) bytes byte = Ensures->>= (sound bytes byte) λ (v, rest) (bs, e, k, byte₁).
      Ensures->>= (values_sound n rest byte₁) λ (vs, rest') (cs, e', ks, byte₂).
        returns (bs ++ cs, rw (e, e', append_assoc bs cs rest'), all_cons k ks, byte₂)

  array_sound : Reads (Encodes (array t)) (read_array read)
  unfolding read_array
  array_sound bytes byte = Ensures-guard (ltb (length bytes) 4) _ _ λ h.
      let (bound, same) = front_le 4 bytes byte (ltb→le _ _ h) in
      let n = from_le_bytes (take 4 bytes) in
      Ensures->>= (values_sound n (drop 4 bytes) (All-drop IsByte 4 bytes byte))
        λ (vs, rest) (bs, e, ks, byte₁). returns (
          to_le_bytes 4 n ++ bs,
          same ∙ ap (λ l. to_le_bytes 4 n ++ l) e ∙ sym (append_assoc (to_le_bytes 4 n) bs rest),
          enc_array n bound ks,
          byte₁,
        )

  option_sound : Reads (Encodes (option t)) (read_option read)
  unfolding read_option
  option_sound [] byte = fails
  option_sound (flag ∷ bytes) byte =
      Ensures-if (flag == 0) _ _
        (λ h. returns (0 ∷ [], ap (λ n. n ∷ bytes) ((==_iff flag 0).0 h), enc_none t, byte.1))
        λ _.
          Ensures-if (flag == 1) _ _
            (λ h. Ensures->>= (sound bytes byte.1) λ (v, rest) (bs, e, k, byte₁).
              returns (1 ∷ bs, ap₂ (λ n l. n ∷ l) ((==_iff flag 1).0 h) e, enc_some k, byte₁))
            (λ _. fails)

  -- Each chunk of the right size is read whole, so what a chunk leaves over is empty.
  chunks_sound :
      (w size fuel : ℕ) (bytes : List ℕ)
      → check_type_size t ≡ ok w
      → IsBytes bytes
      → length bytes ≡ w * size
      → length bytes ≤ fuel
      → Ensures (λ vs. EncodesAll t size vs bytes) (read_chunks read (chunks fuel w bytes))
  unfolding read_chunks chunks
  chunks_sound w zero fuel [] c byte len fits = returns (all_nil t)
  chunks_sound w zero fuel (b ∷ bytes) c byte len fits = absurd (omega arith)
  chunks_sound w (suc size) fuel [] c byte len fits =
      absurd (omega (arith, check_type_size_pos t w c))
  chunks_sound w (suc size) zero (b ∷ bytes) c byte len fits = absurd (omega arith)
  chunks_sound w (suc size) (suc fuel) (b ∷ bytes) c byte len fits =
      let l = b ∷ bytes in
      let pos = check_type_size_pos t w c in
      let enough : w ≤ length l = omega arith in
      let left = length-drop w l in
      Ensures->>= (sound (take w l) (All-take IsByte w l byte)) λ (v, r) (bs, e, k, _).
        Ensures->>=
          (chunks_sound w size fuel (drop w l) c (All-drop IsByte w l byte) (omega arith)
            (omega arith))
          λ vs ks.
            let whole = eq_of_prefix r e (length-Encodes k c ∙ sym (length-take w l enough)) in
            let same : bs ++ drop w l ≡ l = rw whole (take-append-drop w l) in
            returns (subst (EncodesAll t (suc size) (value v vs)) same (all_cons k ks))

  fixed_array_sound :
      (size : ℕ)
      → SizeFits (check_type_size t) size
      → Reads (Encodes (fixed_array t size)) (read_fixed_array read (check_type_size t) size)
  unfolding read_fixed_array
  fixed_array_sound size fits bytes byte = go (check_type_size t) refl fits
    where
      go :
          (r : Result Error ℕ)
          → check_type_size t ≡ r
          → SizeFits r size
          → Ensures
              (Consumed (Encodes (fixed_array t size)) bytes)
              (read_fixed_array read r size bytes)
      go (err x) c fits = fails
      go (ok w) c fits = Ensures-guard (ltb (length bytes) (w * size % 2 ^ 64)) _ _ λ h.
          let total : w * size % 2 ^ 64 ≡ w * size = omega arith in
          let enough = ltb→le _ _ (rw total at h) in
          let front = take (w * size % 2 ^ 64) bytes in
          let len : length front ≡ w * size = length-take _ bytes (ltb→le _ _ h) ∙ total in
          Ensures->>=
            (chunks_sound w size (length front) front c (All-take IsByte _ bytes byte) len
              (omega arith))
            λ vs ks. returns (
              front,
              sym (take-append-drop _ bytes),
              enc_fixed_array w size c fits ks,
              All-drop IsByte _ bytes byte,
            )

-- The payload of the variant that the index picks.
VariantReads : Variants → (ℕ → Parser DynValue) → Type 0
VariantReads vars read =
    (i : ℕ)
    → Reads
        (λ v bs.
          (name : String) × (o : OptValue) × (v ≡ enum name o) × EncodesVariant vars i name o bs)
        (read i)

enum_sound :
    (vars : Variants) (count : ℕ) (read : ℕ → Parser DynValue)
    → VariantReads vars read
    → Reads (Encodes (enum vars)) (read_enum count read)
unfolding read_enum VariantReads
enum_sound vars count read sound [] byte = fails
enum_sound vars count read sound (i ∷ bytes) byte =
    Ensures-if (ltb i count) _ _
      (λ h.
        let s = sound i bytes byte.1 in
        Ensures-weaken s λ (v, rest) (bs, e, (name, o, same, k), byte₁).
          (i ∷ bs, ap (λ l. i ∷ l) e, rw same (enc_enum i byte.0 k), byte₁))
      (λ _. fails)

mutual
  unfolding deserialize_value FitsUsize VariantReads

  pub value_sound : (t : DynType) → FitsUsize t → Reads (Encodes t) (deserialize_value t)
  value_sound i8 fits = integer_sound prim_i8
  value_sound i16 fits = integer_sound prim_i16
  value_sound i32 fits = integer_sound prim_i32
  value_sound i64 fits = integer_sound prim_i64
  value_sound i128 fits = integer_sound prim_i128
  value_sound u8 fits = integer_sound prim_u8
  value_sound u16 fits = integer_sound prim_u16
  value_sound u32 fits = integer_sound prim_u32
  value_sound u64 fits = integer_sound prim_u64
  value_sound u128 fits = integer_sound prim_u128
  value_sound bool fits = bool_sound
  value_sound (fixed_array t size) fits =
      fixed_array_sound (deserialize_value t) (value_sound t fits.0) size fits.1
  value_sound (array t) fits = array_sound (deserialize_value t) (value_sound t fits)
  value_sound (struct fs) fits = λ bytes byte.
      Ensures->>= (fields_sound fs fits bytes byte)
        λ (vs, rest) (bs, e, ks, byte₁). returns (bs, e, enc_struct ks, byte₁)
  value_sound (enum vars) fits =
      enum_sound vars (count_variants vars) (deserialize_variant vars) (variant_sound vars fits)
  value_sound (option t) fits = option_sound (deserialize_value t) (value_sound t fits)

  fields_sound : (fs : Fields) → FieldsFit fs → Reads (EncodesFields fs) (deserialize_fields fs)
  fields_sound no_fields fits bytes byte = returns ([], refl, fields_nil, byte)
  fields_sound (field name t fs) fits bytes byte =
      Ensures->>= (value_sound t fits.0 bytes byte) λ (v, rest) (bs, e, k, byte₁).
        Ensures->>= (fields_sound fs fits.1 rest byte₁) λ (vs, rest') (cs, e', ks, byte₂).
          returns (bs ++ cs, rw (e, e', append_assoc bs cs rest'), fields_cons k ks, byte₂)

  variant_sound :
      (vars : Variants) → VariantsFit vars → VariantReads vars (deserialize_variant vars)
  variant_sound no_variants fits i bytes byte = fails
  variant_sound (unit_variant name vars) fits zero bytes byte =
      returns ([], refl, (name, no_value, refl, unit_here name vars), byte)
  variant_sound (variant name t vars) fits zero bytes byte =
      Ensures->>= (value_sound t fits.0 bytes byte) λ (v, rest) (bs, e, k, byte₁).
        returns (bs, e, (name, some_value v, refl, payload_here k), byte₁)
  variant_sound (unit_variant name vars) fits (suc i) bytes byte =
      Ensures-weaken (variant_sound vars fits i bytes byte)
        λ (v, rest) (bs, e, (n, o, same, k), byte₁). (bs, e, (n, o, same, after_unit k), byte₁)
  variant_sound (variant name t vars) fits (suc i) bytes byte =
      Ensures-weaken (variant_sound vars fits.1 i bytes byte)
        λ (v, rest) (bs, e, (n, o, same, k), byte₁). (bs, e, (n, o, same, after_payload k), byte₁)
