-- ===== src/Svm/Decode/Tests.antt =====
-- svm-decode/src/lib.rs: rows on which the theorems apply.
use cherry_core.Base.{
  from_le_bytes, ℕ, ◌≡◌, refl, ◌↔◌, true, false, List, [], ◌∷◌, ◌++◌, Option, none, some, ok, err,
  arith,
}
use cherry_core.Svm.Types.{DynType, Values, ParamInput, no_values, value}
use cherry_core.Svm.Deserialize.{deserialize_data}
use cherry_core.Svm.Types
use cherry_core.Svm.Deserialize.Format.{EncodesParams}
use cherry_core.Svm.Deserialize.Sound.{FitsUsize}
use cherry_core.Svm.Decode.Columns.{columns, decoded, first_error, outcome}
use cherry_core.Svm.Decode.Instructions.{
  decode_instruction_rows-outcome, decode_instruction-eq_ok_iff,
}
use cherry_core.Svm.Decode.{
  InstructionSignature, LogSignature, decode_instruction, decode_instruction_rows, decode_log_rows,
  null_row,
}

abbrev transfer : InstructionSignature
transfer = record {
  discriminator = 7 ∷ 8 ∷ [];
  params = record { name = "flag"; param_type = Types.DynType.u8 } ∷ [];
  accounts_names = "from" ∷ "" ∷ [];
}

abbrev transfer_log : LogSignature
transfer_log = record { params = transfer.params }

-- A matching row, a null, and one of another discriminator.
abbrev three_rows : List (Option (List ℕ))
three_rows = some (7 ∷ 8 ∷ 5 ∷ 6 ∷ []) ∷ none ∷ some (7 ∷ 9 ∷ 5 ∷ []) ∷ []

decode_instruction_rows_runs :
    decode_instruction_rows transfer true three_rows
    ≡ ok ((some (Types.DynValue.u8 5) ∷ none ∷ none ∷ []) ∷ [])
unfolding decode_instruction_rows deserialize_data from_le_bytes
decode_instruction_rows_runs = refl

strict_rows_run : decode_instruction_rows transfer false three_rows ≡ err (null_row 1)
unfolding decode_instruction_rows deserialize_data from_le_bytes
strict_rows_run = refl

decode_instruction_rows-outcome_example :
    decode_instruction_rows transfer false three_rows
    ≡ outcome false
        (first_error (decode_instruction transfer) 0 three_rows)
        (columns 1 (decoded (decode_instruction transfer) 0 three_rows))
decode_instruction_rows-outcome_example = decode_instruction_rows-outcome transfer false three_rows

decode_log_rows_run :
    decode_log_rows some transfer_log true (some (5 ∷ []) ∷ some [] ∷ [])
    ≡ ok ((some (Types.DynValue.u8 5) ∷ none ∷ []) ∷ [])
unfolding decode_log_rows deserialize_data from_le_bytes
decode_log_rows_run = refl

decode_instruction-eq_ok_iff_example :
    (decode_instruction transfer 0 (some (7 ∷ 8 ∷ 5 ∷ 6 ∷ []))
      ≡ ok (value (Types.DynValue.u8 5) no_values))
    ↔ ((bs : List ℕ) × (rest : List ℕ) × (7 ∷ 8 ∷ 5 ∷ 6 ∷ []
          ≡ transfer.discriminator ++ (bs ++ rest))
        × EncodesParams transfer.params (value (Types.DynValue.u8 5) no_values) bs)
unfolding FitsUsize
decode_instruction-eq_ok_iff_example =
    decode_instruction-eq_ok_iff transfer 0 (7 ∷ 8 ∷ 5 ∷ 6 ∷ [])
      (value (Types.DynValue.u8 5) no_values) (tt, tt)
      (omega arith, (omega arith, (omega arith, (omega arith, tt))))
