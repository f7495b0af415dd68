-- ===== src/Svm/Decode/Instructions.antt =====
-- svm-decode/src/lib.rs: what the rows of instructions and logs become.
use cherry_core.Base.{
  ok, err, ◌++◌, take, take_prefix, drop_prefix, length-append, Result-cases, IsBytes, ltb,
  take-append-drop, Bool-cases, ap₂, ok-injective, Option-cases, Ensures-guard, any_result, suc, ℕ,
  ◌≡◌, refl, Bool, false, List, [], ◌∷◌, Option, none, some, Result, length, ap, inl, inr, Ensures,
  returns, fails, Ensures->>=, Ensures-eq_ok, arith, sym, true, ◌↔◌, ◌∙◌,
}
use cherry_core.Svm.Types.{ParamInput}
use cherry_core.Svm.ArrowConverter.Nested.{count_values}
use cherry_core.Svm.Deserialize.{deserialize_data, deserialize_params, deserialize_value}
use cherry_core.Query.Filter.{bytes_eq}
use cherry_core.Query.Filter.Membership.{bytes_eq-eq}
use cherry_core.Svm.Deserialize.Format.{EncodesParams}
use cherry_core.Svm.Deserialize.Program.{AllFit, deserialize_data-eq_ok_front_iff}
use cherry_core.Svm.Decode.{
  not_matched, not_deserialized, Error, InstructionSignature, LogSignature, match_discriminators,
  in_row, decode_instruction, decode_log, decode_instruction_rows, decode_log_rows, Values,
}
use cherry_core.Svm.Decode.Columns.{columns, decoded, first_error, outcome, decode_rows-outcome}

params_count :
    (ps : List ParamInput) (bytes : List ℕ)
    → Ensures (λ r. count_values r.0 ≡ length ps) (deserialize_params ps bytes)
unfolding deserialize_params
params_count [] bytes = returns refl
params_count (p ∷ ps) bytes =
    Ensures->>= (any_result (deserialize_value p.param_type bytes))
      λ v _. Ensures->>= (params_count ps v.1) λ vs h. returns (ap suc h)

data_count :
    (bytes : List ℕ) (ps : List ParamInput) (flag : Bool)
    → Ensures (λ vs. count_values vs ≡ length ps) (deserialize_data bytes ps flag)
unfolding deserialize_data
data_count bytes ps flag =
    Ensures->>= (params_count ps bytes) λ r h. Ensures-guard _ _ _ λ _. returns h

in_row-Ensures :
    {E : Type 0} {A : Type 0} {P : A → Type 0} (f : E → Error) {r : Result E A}
    → Ensures P r
    → Ensures P (in_row f r)
in_row-Ensures f (returns h) = returns h
in_row-Ensures f fails = fails

pub instruction_count :
    (signature : InstructionSignature) (i : ℕ) (row : Option (List ℕ))
    → Ensures (λ vs. count_values vs ≡ length signature.params) (decode_instruction signature i row)
unfolding decode_instruction
instruction_count signature i none = fails
instruction_count signature i (some instruction) =
    Ensures->>=
      (any_result
        (in_row (not_matched i) (match_discriminators instruction signature.discriminator)))
      λ bytes _. in_row-Ensures (not_deserialized i) (data_count bytes signature.params false)

log_count :
    (decode : List ℕ → Option (List ℕ)) (signature : LogSignature) (i : ℕ) (row : Option (List ℕ))
    → Ensures (λ vs. count_values vs ≡ length signature.params) (decode_log decode signature i row)
unfolding decode_log
log_count decode signature i none = fails
log_count decode signature i (some text) = elim (Option-cases (decode text)) [
  | inl bad ↦ rw (bad, decode_log) fails
  | inr (bytes, good) ↦
      rw (good, decode_log)
        (in_row-Ensures (not_deserialized i) (data_count bytes signature.params false))
]

-- The loop over the instructions gives the table of the decoded values column by column, with nulls
-- in the rows that are not decoded; without `allow_decode_fail` the error of the first such row is
-- the outcome, if there is one.
pub decode_instruction_rows-outcome :
    (signature : InstructionSignature) (allow : Bool) (rows : List (Option (List ℕ)))
    → decode_instruction_rows signature allow rows
      ≡ outcome allow
          (first_error (decode_instruction signature) 0 rows)
          (columns (length signature.params) (decoded (decode_instruction signature) 0 rows))
unfolding decode_instruction_rows
decode_instruction_rows-outcome signature =
    decode_rows-outcome (decode_instruction signature) (length signature.params)
      λ i row vs e. Ensures-eq_ok (instruction_count signature i row) e

pub decode_log_rows-outcome :
    (decode : List ℕ → Option (List ℕ)) (signature : LogSignature) (allow : Bool)
    (rows : List (Option (List ℕ)))
    → decode_log_rows decode signature allow rows
      ≡ outcome allow
          (first_error (decode_log decode signature) 0 rows)
          (columns (length signature.params) (decoded (decode_log decode signature) 0 rows))
unfolding decode_log_rows
decode_log_rows-outcome decode signature =
    decode_rows-outcome (decode_log decode signature) (length signature.params)
      λ i row vs e. Ensures-eq_ok (log_count decode signature i row) e

bytes_eq_refl : (a : List ℕ) → bytes_eq a a ≡ true
bytes_eq_refl [] = refl
bytes_eq_refl (x ∷ a) = ground (arith, bytes_eq_refl a)

All-behind : (xs ys : List ℕ) → IsBytes (xs ++ ys) → IsBytes ys
All-behind [] ys h = h
All-behind (x ∷ xs) ys h = All-behind xs ys h.1

err_not_ok : {A : Type 0} {x : Error} {a : A} → err x ≡ ok a → ⊥
err_not_ok h = cc

matched_split :
    (instruction discriminator rest : List ℕ)
    → match_discriminators instruction discriminator ≡ ok rest
    → instruction ≡ discriminator ++ rest
unfolding match_discriminators
matched_split instruction discriminator rest e =
    elim (Bool-cases (ltb (length instruction) (length discriminator))) [
      | inl short ↦ absurd (err_not_ok (rw short at e))
      | inr long ↦
          elim (Bool-cases (bytes_eq (take (length discriminator) instruction) discriminator)) [
            | inl same ↦
                let left = ok-injective refl (rw (long, same) at e) in
                sym (take-append-drop (length discriminator) instruction)
                ∙ ap₂ (λ a b. a ++ b) (bytes_eq-eq _ discriminator same) left
            | inr other ↦ absurd (err_not_ok (rw (long, other) at e))
          ]
    ]

split_matched :
    (discriminator rest : List ℕ)
    → match_discriminators (discriminator ++ rest) discriminator ≡ ok rest
unfolding match_discriminators
split_matched discriminator rest =
    let long : ltb (length (discriminator ++ rest)) (length discriminator) ≡ false =
      ground (arith, length-append discriminator rest) in
    rw
      (
        long,
        take_prefix (length discriminator) discriminator rest refl,
        drop_prefix (length discriminator) discriminator rest refl,
        bytes_eq_refl discriminator,
      )
      refl

pub unrow :
    {E : Type 0} {A : Type 0} (f : E → Error) (r : Result E A) (a : A)
    → in_row f r ≡ ok a
    → r ≡ ok a
unrow f (ok b) a h = ap ok (ok-injective refl h)
unrow f (err e) a h = cc

-- A row of bytes is decoded to some values just when it is the discriminator, an encoding of the
-- values of the parameters, and any bytes behind it, if the fixed arrays of the parameters fit a
-- usize.
pub decode_instruction-eq_ok_iff :
    (signature : InstructionSignature) (i : ℕ) (instruction : List ℕ) (vs : Values)
    → AllFit signature.params
    → IsBytes instruction
    → (decode_instruction signature i (some instruction) ≡ ok vs) ↔ (
        (bs : List ℕ) × (rest : List ℕ) × (instruction ≡ signature.discriminator ++ (bs ++ rest))
        × EncodesParams signature.params vs bs)
unfolding decode_instruction
decode_instruction-eq_ok_iff signature i instruction vs fits byte = (
  λ e. elim (Result-cases (match_discriminators instruction signature.discriminator)) [
    | inl (bytes, m) ↦
        let split = matched_split instruction signature.discriminator bytes m in
        let read = unrow (not_deserialized i) _ vs (rw m at e) in
        let behind = All-behind signature.discriminator bytes (rw split at byte) in
        let (bs, rest, same, k) =
          (deserialize_data-eq_ok_front_iff bytes signature.params vs fits behind).0 read in
        (bs, rest, split ∙ ap (λ l. signature.discriminator ++ l) same, k)
    | inr (x, m) ↦ absurd (err_not_ok (rw m at e))
  ],
  λ (bs, rest, same, k).
      let behind = All-behind signature.discriminator (bs ++ rest) (rw same at byte) in
      let read =
        (deserialize_data-eq_ok_front_iff (bs ++ rest) signature.params vs fits behind).1
          (bs, rest, refl, k) in
      rw (same, split_matched signature.discriminator (bs ++ rest), read) refl,
)
