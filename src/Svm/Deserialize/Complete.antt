-- ===== src/Svm/Deserialize/Complete.antt =====
-- `deserialize_value` (svm-decode/src/deserialize.rs) on inputs that begin with an encoding.
use cherry_core.Base.{
  ℕ, zero, suc, ◌*◌, ◌≤◌, ◌%◌, ◌^◌, ◌<◌, ◌≡◌, refl, List, [], ◌∷◌, ◌++◌, append_assoc, ok, length,
  length-append, take_prefix, drop_prefix, le→ltb, lt→ltb, to_le_bytes, length-to_le_bytes,
  from_le_bytes-to_le_bytes, arith, append-nil, String, ◌==◌, true, from_le_bytes, ◌≢◌, ◌+◌,
}
use mathlib.Core.Bool.{not}
use cherry_core.Svm.Types.{
  bool, DynType, Fields, Variants, DynValue, Values, NamedValues, OptValue, array, enum,
  count_variants,
}
use cherry_core.Svm.Deserialize.{
  Parser, check_type_size, read_le, read_values, read_fixed_array, read_array, chunks, read_chunks,
  deserialize_value, deserialize_fields, deserialize_variant,
}
use cherry_core.Svm.Deserialize.Format.{
  Primitive, Encodes, EncodesAll, EncodesFields, EncodesVariant, prim_i8, prim_i16, prim_i32,
  prim_i64, prim_i128, prim_u8, prim_u16, prim_u32, prim_u64, prim_u128, enc_integer, enc_false,
  enc_true, enc_fixed_array, enc_array, enc_struct, enc_enum, enc_none, enc_some, all_nil, all_cons,
  fields_nil, fields_cons, unit_here, payload_here, after_unit, after_payload,
}

-- Reading a little-endian integer off the front.
read_le-to_le_bytes :
    (w n : ℕ) (make : ℕ → DynValue) (rest : List ℕ)
    → n < 256 ^ w
    → read_le w make (to_le_bytes w n ++ rest) ≡ ok (make n, rest)
unfolding read_le
read_le-to_le_bytes w n make rest h =
    let len = length-to_le_bytes w n in
    rw (
      le→ltb (length (to_le_bytes w n ++ rest)) w
          (omega (arith, len, length-append (to_le_bytes w n) rest)),
      take_prefix w (to_le_bytes w n) rest len,
      drop_prefix w (to_le_bytes w n) rest len,
      from_le_bytes-to_le_bytes w n h,
    )

-- A value of a type that a fixed array may hold takes the bytes that `check_type_size` says.
pub length-Encodes :
    {t : DynType} {v : DynValue} {bs : List ℕ} {w : ℕ}
    → Encodes t v bs
    → check_type_size t ≡ ok w
    → length bs ≡ w
unfolding check_type_size
length-Encodes (enc_integer w n prim_i8 h) e = cc (length-to_le_bytes w n)
length-Encodes (enc_integer w n prim_i16 h) e = cc (length-to_le_bytes w n)
length-Encodes (enc_integer w n prim_i32 h) e = cc (length-to_le_bytes w n)
length-Encodes (enc_integer w n prim_i64 h) e = cc (length-to_le_bytes w n)
length-Encodes (enc_integer w n prim_i128 h) e = cc (length-to_le_bytes w n)
length-Encodes (enc_integer w n prim_u8 h) e = cc (length-to_le_bytes w n)
length-Encodes (enc_integer w n prim_u16 h) e = cc (length-to_le_bytes w n)
length-Encodes (enc_integer w n prim_u32 h) e = cc (length-to_le_bytes w n)
length-Encodes (enc_integer w n prim_u64 h) e = cc (length-to_le_bytes w n)
length-Encodes (enc_integer w n prim_u128 h) e = cc (length-to_le_bytes w n)
length-Encodes enc_false e = cc
length-Encodes (enc_true b h k) e = cc
length-Encodes (enc_fixed_array w size c h k) e = cc
length-Encodes (enc_array n h k) e = cc
length-Encodes (enc_struct k) e = cc
length-Encodes (enc_enum i h k) e = cc
length-Encodes (enc_none t) e = cc
length-Encodes (enc_some k) e = cc

pub length-EncodesAll :
    {t : DynType} {n : ℕ} {vs : Values} {bs : List ℕ} {w : ℕ}
    → EncodesAll t n vs bs
    → check_type_size t ≡ ok w
    → length bs ≡ w * n
length-EncodesAll (all_nil t) e = omega arith
length-EncodesAll (all_cons {bs = bs} {cs = cs} k ks) e =
    omega (arith, length-append bs cs, length-Encodes k e, length-EncodesAll ks e)

pub check_type_size_pos : (t : DynType) (w : ℕ) → check_type_size t ≡ ok w → 0 < w
unfolding check_type_size
check_type_size_pos t w h = ground arith

chunks-append :
    (fuel w : ℕ) (bs cs : List ℕ)
    → length bs ≡ w
    → 0 < w
    → chunks (suc fuel) w (bs ++ cs) ≡ bs ∷ chunks fuel w cs
unfolding chunks
chunks-append fuel w [] cs h p = absurd (omega arith)
chunks-append fuel w (b ∷ bs) cs h p = rw (take_prefix w (b ∷ bs) cs h, drop_prefix w (b ∷ bs) cs h)

-- An integer type is read by `read_le` at its size.
pub deserialize_value-integer :
    {t : DynType} {w : ℕ} {make : ℕ → DynValue}
    → Primitive t w make
    → deserialize_value t ≡ read_le w make
unfolding deserialize_value
deserialize_value-integer prim_i8 = refl
deserialize_value-integer prim_i16 = refl
deserialize_value-integer prim_i32 = refl
deserialize_value-integer prim_i64 = refl
deserialize_value-integer prim_i128 = refl
deserialize_value-integer prim_u8 = refl
deserialize_value-integer prim_u16 = refl
deserialize_value-integer prim_u32 = refl
deserialize_value-integer prim_u64 = refl
deserialize_value-integer prim_u128 = refl

integer_complete :
    {t : DynType} {make : ℕ → DynValue} (w n : ℕ) (rest : List ℕ)
    → Primitive t w make
    → n < 256 ^ w
    → deserialize_value t (to_le_bytes w n ++ rest) ≡ ok (make n, rest)
integer_complete {make} w n rest p h =
    rw (deserialize_value-integer p) (read_le-to_le_bytes w n make rest h)

pub deserialize_value-bool :
    (b : ℕ) (rest : List ℕ) → deserialize_value bool (b ∷ rest) ≡ ok (bool (not (b == 0)), rest)
unfolding deserialize_value from_le_bytes
deserialize_value-bool b rest =
    let one_byte : b + 256 * 0 ≡ b = omega arith in
    rw (le→ltb (suc (length rest)) 1 (omega arith), one_byte)

flag_true : (b : ℕ) → b ≢ 0 → not (b == 0) ≡ true
flag_true b h = ground arith

-- The prefix and the elements of an array, and the size test and the chunks of a fixed one.
read_array_complete :
    (read : Parser DynValue) (n : ℕ) (vs : Values) (bs rest : List ℕ)
    → n < 2 ^ 32
    → read_values read n (bs ++ rest) ≡ ok (vs, rest)
    → read_array read ((to_le_bytes 4 n ++ bs) ++ rest) ≡ ok (array vs, rest)
unfolding read_array
read_array_complete read n vs bs rest h e =
    let len = length-to_le_bytes 4 n in
    let whole = bs ++ rest in
    rw (
      append_assoc (to_le_bytes 4 n) bs rest,
      le→ltb (length (to_le_bytes 4 n ++ whole)) 4
          (omega (arith, len, length-append (to_le_bytes 4 n) whole)),
      take_prefix 4 (to_le_bytes 4 n) whole len,
      drop_prefix 4 (to_le_bytes 4 n) whole len,
      from_le_bytes-to_le_bytes 4 n h,
      e,
    )

read_fixed_array_complete :
    (read : Parser DynValue) (w size : ℕ) (vs : Values) (bs rest : List ℕ)
    → w * size < 2 ^ 64
    → length bs ≡ w * size
    → read_chunks read (chunks (length bs) w bs) ≡ ok vs
    → read_fixed_array read (ok w) size (bs ++ rest) ≡ ok (array vs, rest)
unfolding read_fixed_array
read_fixed_array_complete read w size vs bs rest h len e =
    let total : w * size % 2 ^ 64 ≡ length bs = omega arith in
    rw (
      total,
      le→ltb (length (bs ++ rest)) (length bs) (omega (arith, length-append bs rest)),
      take_prefix (length bs) bs rest refl,
      drop_prefix (length bs) bs rest refl,
      e,
    )

EncodesVariant-lt-count :
    {vars : Variants} {i : ℕ} {name : String} {v : OptValue} {bs : List ℕ}
    → EncodesVariant vars i name v bs
    → i < count_variants vars
EncodesVariant-lt-count (unit_here name vars) = omega arith
EncodesVariant-lt-count (payload_here k) = omega arith
EncodesVariant-lt-count (after_unit k) = omega (arith, EncodesVariant-lt-count k)
EncodesVariant-lt-count (after_payload k) = omega (arith, EncodesVariant-lt-count k)

size-le-bytes :
    {t : DynType} {n : ℕ} {vs : Values} {bs : List ℕ} {w : ℕ}
    → EncodesAll t n vs bs
    → check_type_size t ≡ ok w
    → n ≤ length bs
size-le-bytes (all_nil t) c = omega arith
size-le-bytes (all_cons {t} {bs = bs} {cs = cs} k ks) c =
    omega (
      arith,
      length-append bs cs,
      length-Encodes k c,
      size-le-bytes ks c,
      check_type_size_pos t _ c,
    )

mutual
  unfolding deserialize_value read_values

  pub value_complete :
      {t : DynType} {v : DynValue} {bs : List ℕ}
      → Encodes t v bs
      → (rest : List ℕ) → deserialize_value t (bs ++ rest) ≡ ok (v, rest)
  value_complete (enc_integer w n p h) rest = integer_complete w n rest p h
  value_complete enc_false rest = deserialize_value-bool 0 rest
  value_complete (enc_true b h k) rest = rw (deserialize_value-bool b rest, flag_true b k)
  value_complete (enc_fixed_array {t} {vs} {bs} w size c h k) rest = rw c (
      read_fixed_array_complete (deserialize_value t) w size vs bs rest h (length-EncodesAll k c)
        (chunks_complete k w (length bs) c (size-le-bytes k c)))
  value_complete (enc_array {t} {vs} {bs} n h k) rest =
      read_array_complete (deserialize_value t) n vs bs rest h (values_complete k rest)
  value_complete (enc_struct k) rest = rw (fields_complete k rest)
  value_complete (enc_enum {vars} i h k) rest =
      rw (lt→ltb i (count_variants vars) (EncodesVariant-lt-count k), variant_complete k rest)
  value_complete (enc_none t) rest = refl
  value_complete (enc_some k) rest = rw (value_complete k rest)

  values_complete :
      {t : DynType} {n : ℕ} {vs : Values} {bs : List ℕ}
      → EncodesAll t n vs bs
      → (rest : List ℕ) → read_values (deserialize_value t) n (bs ++ rest) ≡ ok (vs, rest)
  values_complete (all_nil t) rest = refl
  values_complete (all_cons {bs = bs} {cs = cs} k ks) rest =
      rw (append_assoc bs cs rest, value_complete k (cs ++ rest), values_complete ks rest)

  chunks_complete :
      {t : DynType} {n : ℕ} {vs : Values} {bs : List ℕ}
      → EncodesAll t n vs bs
      → (w fuel : ℕ) → check_type_size t ≡ ok w
      → n ≤ fuel
      → read_chunks (deserialize_value t) (chunks fuel w bs) ≡ ok vs
  chunks_complete (all_nil t) w zero c h = refl
  chunks_complete (all_nil t) w (suc fuel) c h = refl
  chunks_complete (all_cons {bs = bs} {cs = cs} k ks) w zero c h = absurd (omega arith)
  chunks_complete (all_cons {t} {bs = bs} {cs = cs} k ks) w (suc fuel) c h = rw (
    chunks-append fuel w bs cs (length-Encodes k c) (check_type_size_pos t w c),
    rw append-nil at (value_complete k []),
    chunks_complete ks w fuel c (omega arith),
  )

  fields_complete :
      {fs : Fields} {vs : NamedValues} {bs : List ℕ}
      → EncodesFields fs vs bs
      → (rest : List ℕ) → deserialize_fields fs (bs ++ rest) ≡ ok (vs, rest)
  fields_complete fields_nil rest = refl
  fields_complete (fields_cons {bs = bs} {cs = cs} k ks) rest =
      rw (append_assoc bs cs rest, value_complete k (cs ++ rest), fields_complete ks rest)

  variant_complete :
      {vars : Variants} {i : ℕ} {name : String} {v : OptValue} {bs : List ℕ}
      → EncodesVariant vars i name v bs
      → (rest : List ℕ) → deserialize_variant vars i (bs ++ rest) ≡ ok (enum name v, rest)
  variant_complete (unit_here name vars) rest = refl
  variant_complete (payload_here k) rest = rw (value_complete k rest)
  variant_complete (after_unit k) rest = variant_complete k rest
  variant_complete (after_payload k) rest = variant_complete k rest
