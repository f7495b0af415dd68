-- ===== src/Svm/Decode/Batches/Rows.antt =====
-- svm-decode/src/lib.rs: the rows of instructions have the types of the parameters.
use cherry_core.Base.{
  Option, ℕ, ◌+◌, List, [], ◌∷◌, map, none, some, All, IsBytes, Result-cases, inl, inr,
}
use cherry_core.Svm.Types.{Values, ParamInput, no_values, value}
use cherry_core.Svm.Deserialize.Format.{EncodesParams, params_nil, params_cons}
use cherry_core.Svm.Deserialize.Sound.{FitsUsize}
use cherry_core.Svm.Deserialize.Program.{AllFit}
use cherry_core.Svm.ArrowConverter.Typed.{HasType, Supported}
use cherry_core.Svm.ArrowConverter.Rows.{RowOf}
use cherry_core.Svm.ArrowConverter.Decoded.{Plain, Encodes-HasType}
use cherry_core.Svm.Decode.{InstructionSignature, decode_instruction}
use cherry_core.Svm.Decode.Columns.{decoded, value_of, first_of, rest_of}
use cherry_core.Svm.Decode.Instructions.{decode_instruction-eq_ok_iff}

-- Parameters whose values can be read and converted.
abbrev pub IsDecodable : List ParamInput → Type 0
IsDecodable = All (λ p. Plain p.param_type × Supported p.param_type × FitsUsize p.param_type)

pub IsDecodable-AllFit : (ps : List ParamInput) → IsDecodable ps → AllFit ps
IsDecodable-AllFit [] h = tt
IsDecodable-AllFit (p ∷ ps) ((plain, supported, fits), h) = (fits, IsDecodable-AllFit ps h)

-- A row has a value of each parameter's type, or none at all.
abbrev pub HasParams : List ParamInput → Values → Type 0
HasParams [] no_values = Unit
HasParams (p ∷ ps) (value v vs) = HasType p.param_type v × HasParams ps vs
HasParams _ _ = ⊥

abbrev pub TypedRow : List ParamInput → Option Values → Type 0
TypedRow ps none = Unit
TypedRow ps (some vs) = HasParams ps vs

pub EncodesParams-HasParams :
    {ps : List ParamInput} {vs : Values} {bs : List ℕ}
    → EncodesParams ps vs bs
    → IsDecodable ps
    → HasParams ps vs
EncodesParams-HasParams params_nil h = tt
EncodesParams-HasParams (params_cons k ks) ((plain, _, _), h) =
    (Encodes-HasType k plain, EncodesParams-HasParams ks h)

-- The bytes of a row are bytes.
abbrev pub IsRow : Option (List ℕ) → Type 0
IsRow none = Unit
IsRow (some bytes) = IsBytes bytes

pub decoded-TypedRow :
    (signature : InstructionSignature) (i : ℕ) (rows : List (Option (List ℕ)))
    → IsDecodable signature.params
    → All IsRow rows
    → All (TypedRow signature.params) (decoded (decode_instruction signature) i rows)
unfolding decode_instruction
decoded-TypedRow signature i [] h k = tt
decoded-TypedRow signature i (none ∷ rows) h k = (tt, decoded-TypedRow signature (i + 1) rows h k.1)
decoded-TypedRow signature i (some bytes ∷ rows) h (byte, k) =
    (typed, decoded-TypedRow signature (i + 1) rows h k)
  where
    typed : TypedRow signature.params (value_of (decode_instruction signature i (some bytes)))
    typed = elim (Result-cases (decode_instruction signature i (some bytes))) [
      | inl (vs, e) ↦
          let fits = IsDecodable-AllFit signature.params h in
          let (_, _, _, encoded) =
            (decode_instruction-eq_ok_iff signature i bytes vs fits byte).0 e in
          rw e (EncodesParams-HasParams encoded h)
      | inr (x, e) ↦ rw e tt
    ]

pub firsts_typed :
    (p : ParamInput) (ps : List ParamInput) (rows : List (Option Values))
    → All (TypedRow (p ∷ ps)) rows
    → All (RowOf (HasType p.param_type)) (map first_of rows) × All (TypedRow ps) (map rest_of rows)
firsts_typed p ps [] h = (tt, tt)
firsts_typed p ps (none ∷ rows) (_, h) = let (a, b) = firsts_typed p ps rows h in ((tt, a), (tt, b))
firsts_typed p ps (some (value v vs) ∷ rows) ((k, ks), h) =
    let (a, b) = firsts_typed p ps rows h in ((k, a), (ks, b))
firsts_typed p ps (some no_values ∷ rows) (k, h) = absurd k
