-- ===== src/Svm/Deserialize/Tests.antt =====
-- Runs of the deserializer on concrete bytes, and its theorems at concrete inputs.
use cherry_core.Base.{
  ℕ, ◌≡◌, ◌↔◌, refl, true, false, List, [], ◌∷◌, ◌++◌, ok, err, arith, negsuc, to_le_bytes,
  from_le_bytes, to_signed,
}
use cherry_core.Svm.Types.{
  DynType, DynValue, ParamInput, i8, u8, u16, u128, bool, fixed_array, array, struct, enum, option,
  no_fields, field, no_variants, unit_variant, variant, no_values, value, no_named, named,
  some_value,
}
use cherry_core.Svm.Deserialize.{
  Error, remaining_data, invalid_option_value, check_type_size, deserialize_value, deserialize_data,
}
use cherry_core.Svm.Deserialize.Format.{
  Encodes, EncodesParams, params_nil, params_cons, prim_u8, prim_u16, enc_integer, enc_true,
  enc_array, enc_struct, enc_enum, enc_some, all_nil, all_cons, fields_nil, fields_cons,
  payload_here, after_unit,
}
use cherry_core.Svm.Deserialize.Sound.{FitsUsize}
use cherry_core.Svm.Deserialize.Program.{
  AllFit, deserialize_value-eq_ok_iff, deserialize_value-append, deserialize_value_truncated,
  deserialize_data-eq_ok_iff, deserialize_data-eq_ok_front_iff, deserialize_data_truncated,
  fixed_array_wraps,
}

-- struct { amount: u16, memo: Option<Vec<u8>>, kind: enum { Plain, Flagged(bool) } }
abbrev transfer : DynType
transfer = struct (
    field "amount" u16 (
      field "memo" (option (array u8)) (
        field "kind" (enum (unit_variant "Plain" (variant "Flagged" bool no_variants))) no_fields)))

abbrev transfer_value : DynValue
transfer_value = struct (
    named "amount" (u16 0x1234) (
      named "memo" (option (some_value (array (value (u8 7) (value (u8 9) no_values)))))
        (named "kind" (enum "Flagged" (some_value (bool true))) no_named)))

abbrev transfer_bytes : List ℕ
transfer_bytes = 0x34 ∷ 0x12 ∷ 1 ∷ 2 ∷ 0 ∷ 0 ∷ 0 ∷ 7 ∷ 9 ∷ 1 ∷ 5 ∷ []

transfer_read :
    deserialize_value transfer (transfer_bytes ++ 77 ∷ []) ≡ ok (transfer_value, 77 ∷ [])
unfolding deserialize_value from_le_bytes
transfer_read = refl

signed_byte : deserialize_value i8 (0xfe ∷ []) ≡ ok (i8 (negsuc 1), [])
unfolding deserialize_value from_le_bytes to_signed
signed_byte = refl

fixed_read :
    deserialize_value (fixed_array u16 2) (1 ∷ 0 ∷ 2 ∷ 1 ∷ 9 ∷ [])
    ≡ ok (array (value (u16 1) (value (u16 258) no_values)), 9 ∷ [])
unfolding deserialize_value from_le_bytes
fixed_read = refl

bad_option : deserialize_value (option u8) (2 ∷ 7 ∷ []) ≡ err (invalid_option_value 2)
unfolding deserialize_value
bad_option = refl

abbrev params : List ParamInput
params = record { name = "transfer"; param_type = transfer } ∷ []

left_over :
    deserialize_data (transfer_bytes ++ 77 ∷ []) params true ≡ err (remaining_data (77 ∷ []))
unfolding deserialize_data from_le_bytes
left_over = refl

transfer-Encodes : Encodes transfer transfer_value transfer_bytes
unfolding to_le_bytes
transfer-Encodes = enc_struct (
    fields_cons (enc_integer 2 0x1234 prim_u16 (omega arith)) (
      fields_cons
        (enc_some (
          enc_array 2 (omega arith) (
            all_cons (enc_integer 1 7 prim_u8 (omega arith))
              (all_cons (enc_integer 1 9 prim_u8 (omega arith)) (all_nil u8)))))
        (fields_cons
          (enc_enum 1 (omega arith)
            (after_unit (payload_here (enc_true 5 (omega arith) (omega arith)))))
          fields_nil)))

params-Encodes : EncodesParams params (value transfer_value no_values) transfer_bytes
params-Encodes = params_cons transfer-Encodes params_nil

transfer-Fits : FitsUsize transfer
unfolding FitsUsize
transfer-Fits = omega arith

params-Fit : AllFit params
params-Fit = (transfer-Fits, tt)

deserialize_value-eq_ok_iff_example :
    (deserialize_value transfer transfer_bytes ≡ ok (transfer_value, []))
    ↔ ((bs : List ℕ) × (transfer_bytes ≡ bs ++ []) × Encodes transfer transfer_value bs)
deserialize_value-eq_ok_iff_example =
    deserialize_value-eq_ok_iff transfer transfer_bytes [] transfer_value transfer-Fits
      (omega arith)

transfer_read_whole : deserialize_value transfer transfer_bytes ≡ ok (transfer_value, [])
unfolding deserialize_value from_le_bytes
transfer_read_whole = refl

deserialize_value-append_example :
    deserialize_value transfer (transfer_bytes ++ 77 ∷ []) ≡ ok (transfer_value, [] ++ 77 ∷ [])
deserialize_value-append_example =
    deserialize_value-append transfer transfer_bytes (77 ∷ []) [] transfer_value transfer-Fits
      (omega arith) transfer_read_whole

abbrev cut : List ℕ
cut = 0x34 ∷ 0x12 ∷ 1 ∷ 2 ∷ 0 ∷ 0 ∷ 0 ∷ 7 ∷ []

deserialize_value_truncated_example : (e : Error) × (deserialize_value transfer cut ≡ err e)
deserialize_value_truncated_example =
    deserialize_value_truncated transfer transfer_value cut 9 (1 ∷ 5 ∷ []) transfer-Fits
      (omega arith) transfer-Encodes

deserialize_data-eq_ok_iff_example :
    (deserialize_data transfer_bytes params true ≡ ok (value transfer_value no_values))
    ↔ EncodesParams params (value transfer_value no_values) transfer_bytes
deserialize_data-eq_ok_iff_example =
    deserialize_data-eq_ok_iff transfer_bytes params (value transfer_value no_values) params-Fit
      (omega arith)

deserialize_data-eq_ok_front_iff_example :
    (deserialize_data (transfer_bytes ++ 77 ∷ []) params false
      ≡ ok (value transfer_value no_values))
    ↔ ((bs : List ℕ) × (rest : List ℕ) × (transfer_bytes ++ 77 ∷ [] ≡ bs ++ rest)
        × EncodesParams params (value transfer_value no_values) bs)
deserialize_data-eq_ok_front_iff_example =
    deserialize_data-eq_ok_front_iff (transfer_bytes ++ 77 ∷ []) params
      (value transfer_value no_values) params-Fit (omega arith)

deserialize_data_truncated_example : (e : Error) × (deserialize_data cut params false ≡ err e)
deserialize_data_truncated_example =
    deserialize_data_truncated cut 9 (1 ∷ 5 ∷ []) params (value transfer_value no_values) false
      params-Fit (omega arith) params-Encodes

fixed_array_wraps_example :
    deserialize_value (fixed_array u128 1152921504606846976) (3 ∷ []) ≡ ok (array no_values, 3 ∷ [])
unfolding check_type_size
fixed_array_wraps_example = fixed_array_wraps u128 16 1152921504606846976 (3 ∷ []) refl refl
