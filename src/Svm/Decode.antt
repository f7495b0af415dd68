-- ===== src/Svm/Decode.antt =====
-- svm-decode/src/lib.rs: the signatures, and the rows of instructions and logs. What stands in a row is the
-- bytes of a binary value, or of a text, or nothing where the row is null.
pub mod Columns
pub mod Discriminator
pub mod Batches
mod Tests
pub mod Instructions
use cherry_core.Base.{
  ℕ, ◌+◌, Bool, true, false, not, List, [], ◌∷◌, ◌++◌, Option, none, some, Result, ok, err, ◌>>=◌,
  length, take, drop, ltb, if◌then◌else◌, String, replicate,
}
use cherry_core.Query.Filter.{bytes_eq}
use cherry_core.Svm.Types.{DynValue, Values, ParamInput, no_values, value}
use cherry_core.Svm.Deserialize.{deserialize_data}
use cherry_core.Svm.Deserialize

pub record InstructionSignature : Type 0 where
  pub discriminator : List ℕ
  pub params : List ParamInput
  pub accounts_names : List String

pub record LogSignature : Type 0 where
  pub params : List ParamInput

pub data Error : Type 0 where
  -- expected at least, and got
  too_short : ℕ → ℕ → Error
  other_discriminator : Error
  null_row : ℕ → Error
  not_matched : ℕ → Error → Error
  not_base64 : ℕ → Error
  not_deserialized : ℕ → Deserialize.Error → Error
  -- `decoded_params_vec[i]` out of bounds
  index_panic : Error

unfoldable pub match_discriminators : List ℕ → List ℕ → Result Error (List ℕ)
match_discriminators instr_data discriminator =
    if ltb (length instr_data) (length discriminator)
    then err (too_short (length discriminator) (length instr_data))
    else if not (bytes_eq (take (length discriminator) instr_data) discriminator)
    then err other_discriminator
    else ok (drop (length discriminator) instr_data)

abbrev pub in_row {ℓ} : {E : Type 0} {A : Type ℓ} → (E → Error) → Result E A → Result Error A
in_row f (ok a) = ok a
in_row f (err e) = err (f e)

-- One row of `decode_instructions`; bytes that are left over are no error.
unfoldable pub decode_instruction : InstructionSignature → ℕ → Option (List ℕ) → Result Error Values
unfolding match_discriminators
decode_instruction signature row_idx none = err (null_row row_idx)
decode_instruction signature row_idx (some instruction_data) = do
  bytes ←
      in_row (not_matched row_idx) (match_discriminators instruction_data signature.discriminator)
  in_row (not_deserialized row_idx) (deserialize_data bytes signature.params false)

-- One row of `decode_logs`; `decode` is `STANDARD.decode` of the base64 crate.
unfoldable pub decode_log :
    (List ℕ → Option (List ℕ)) → LogSignature → ℕ → Option (List ℕ) → Result Error Values
decode_log decode signature row_idx none = err (null_row row_idx)
decode_log decode signature row_idx (some log_data) = elim (decode log_data) [
  | none ↦ err (not_base64 row_idx)
  | some bytes ↦ in_row (not_deserialized row_idx) (deserialize_data bytes signature.params false)
]

-- The values by parameter: a list of the rows for each.
abbrev pub Columns : Type 0
Columns = List (List (Option DynValue))

-- `for (i, value) in decoded.into_iter().enumerate()`
unfoldable pub push_row : Values → Columns → Result Error Columns
push_row no_values cols = ok cols
push_row (value v vs) [] = err index_panic
push_row (value v vs) (col ∷ cols) = do rest ← push_row vs cols; ok ((col ++ some v ∷ []) ∷ rest)

-- `for v in &mut decoded_params_vec { v.push(None) }`
unfoldable pub push_null_row : Columns → Columns
push_null_row [] = []
push_null_row (col ∷ cols) = (col ++ none ∷ []) ∷ push_null_row cols

module _ {X : Type 0} (decode_row : ℕ → X → Result Error Values) (allow_decode_fail : Bool) where
  -- The loop over the rows from number `row_idx` on.
  unfoldable pub decode_rows : ℕ → List X → Columns → Result Error Columns
  unfolding push_row push_null_row
  decode_rows row_idx [] cols = ok cols
  decode_rows row_idx (row ∷ rows) cols = elim (decode_row row_idx row) [
    | ok values ↦ do cols' ← push_row values cols; decode_rows (row_idx + 1) rows cols'
    | err e ↦
        if allow_decode_fail then decode_rows (row_idx + 1) rows (push_null_row cols) else err e
  ]

unfoldable pub decode_instruction_rows :
    InstructionSignature → Bool → List (Option (List ℕ)) → Result Error Columns
unfolding decode_rows decode_instruction
decode_instruction_rows signature allow_decode_fail rows =
    decode_rows (decode_instruction signature) allow_decode_fail 0 rows
      (replicate (length signature.params) [])

unfoldable pub decode_log_rows :
    (List ℕ → Option (List ℕ)) → LogSignature → Bool → List (Option (List ℕ)) → Result Error Columns
unfolding decode_rows decode_log
decode_log_rows decode signature allow_decode_fail rows =
    decode_rows (decode_log decode signature) allow_decode_fail 0 rows
      (replicate (length signature.params) [])
