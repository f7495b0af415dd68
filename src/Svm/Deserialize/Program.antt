-- ===== src/Svm/Deserialize/Program.antt =====
-- `deserialize_value` and `deserialize_data` (svm-decode/src/deserialize.rs) against the format.
use cherry_core.Base.{
  le→ltb, ℕ, ◌≡◌, ◌↔◌, refl, sym, ap, ◌∙◌, List, [], ◌∷◌, ◌++◌, append_assoc, Result, ok, err,
  length, length-append, IsBytes, arith, append-nil, returns, Ensures->>=, Ensures-eq_ok,
  Result-cases, inl, inr, true, false, subst, if◌then◌else◌, Bool, ◌*◌, ◌%◌, ◌^◌,
}
use mathlib.Core.Bool.{not, ◌&&◌, false≢true}
use cherry_core.Svm.Types.{DynType, DynValue, Values, ParamInput}
use cherry_core.Svm.Deserialize.{
  Error, deserialize_value, deserialize_params, deserialize_data, check_type_size, is_empty,
  remaining_data, fixed_array, array, no_values,
}
use cherry_core.Svm.Deserialize.Format.{Encodes, EncodesParams, params_nil, params_cons}
use cherry_core.Svm.Deserialize.Complete.{value_complete}
use cherry_core.Svm.Deserialize.Sound.{Reads, FitsUsize, value_sound}

-- On an input of bytes, and for a type whose fixed arrays fit a usize, a deserialization succeeds
-- with a value and a rest exactly when the input is an encoding of the value followed by the rest.
pub deserialize_value-eq_ok_iff :
    (t : DynType) (bytes rest : List ℕ) (v : DynValue)
    → FitsUsize t
    → IsBytes bytes
    → (deserialize_value t bytes ≡ ok (v, rest))
      ↔ ((bs : List ℕ) × (bytes ≡ bs ++ rest) × Encodes t v bs)
deserialize_value-eq_ok_iff t bytes rest v fits byte = (
  λ e. let (bs, same, k, _) = Ensures-eq_ok (value_sound t fits bytes byte) e in (bs, same, k),
  λ (bs, same, k). rw same (value_complete k rest),
)

-- On an input of bytes, and for a type whose fixed arrays fit a usize, bytes behind the input of a
-- successful deserialization join the rest and change nothing else.
pub deserialize_value-append :
    (t : DynType) (bytes more rest : List ℕ) (v : DynValue)
    → FitsUsize t
    → IsBytes bytes
    → deserialize_value t bytes ≡ ok (v, rest)
    → deserialize_value t (bytes ++ more) ≡ ok (v, rest ++ more)
deserialize_value-append t bytes more rest v fits byte e =
    let (bs, same, k) = (deserialize_value-eq_ok_iff t bytes rest v fits byte).0 e in
    rw (same, append_assoc bs rest more) (value_complete k (rest ++ more))

rest_of_ok :
    {A : Type 0} {u v : A} {l m : List ℕ}
    → ◌≡◌ {A = Result Error (A × List ℕ)} (ok (u, l)) (ok (v, m))
    → l ≡ m
rest_of_ok h = cc

-- An encoding of bytes that was cut short, by one byte or more, is refused, for a type whose fixed
-- arrays fit a usize.
pub deserialize_value_truncated :
    (t : DynType) (v : DynValue) (front : List ℕ) (b : ℕ) (back : List ℕ)
    → FitsUsize t
    → IsBytes front
    → Encodes t v (front ++ b ∷ back)
    → (e : Error) × (deserialize_value t front ≡ err e)
deserialize_value_truncated t v front b back fits byte k =
    elim (Result-cases (deserialize_value t front)) [
      | inl ((u, rest), r) ↦
          let long = deserialize_value-append t front (b ∷ back) rest u fits byte r in
          let whole = rw append-nil at (value_complete k []) in
          let left = sym long ∙ whole in
          absurd (omega (arith, ap length (rest_of_ok left), length-append rest (b ∷ back)))
      | inr failed ↦ failed
    ]

abbrev pub AllFit : List ParamInput → Type 0
AllFit [] = Unit
AllFit (p ∷ ps) = FitsUsize p.param_type × AllFit ps

params_complete :
    {ps : List ParamInput} {vs : Values} {bs : List ℕ}
    → EncodesParams ps vs bs
    → (rest : List ℕ) → deserialize_params ps (bs ++ rest) ≡ ok (vs, rest)
unfolding deserialize_params
params_complete params_nil rest = refl
params_complete (params_cons {bs = bs} {cs = cs} k ks) rest =
    rw (append_assoc bs cs rest, value_complete k (cs ++ rest), params_complete ks rest)

params_sound : (ps : List ParamInput) → AllFit ps → Reads (EncodesParams ps) (deserialize_params ps)
unfolding deserialize_params
params_sound [] fits bytes byte = returns ([], refl, params_nil, byte)
params_sound (p ∷ ps) fits bytes byte =
    Ensures->>= (value_sound p.param_type fits.0 bytes byte) λ (v, rest) (bs, e, k, byte₁).
      Ensures->>= (params_sound ps fits.1 rest byte₁) λ (vs, rest') (cs, e', ks, byte₂).
        returns (bs ++ cs, rw (e, e', append_assoc bs cs rest'), params_cons k ks, byte₂)

-- The loop over the parameters, where it succeeds.
params_consumed :
    (bytes : List ℕ) (ps : List ParamInput) (vs : Values) (rest : List ℕ)
    → AllFit ps
    → IsBytes bytes
    → deserialize_params ps bytes ≡ ok (vs, rest)
    → (bs : List ℕ) × (bytes ≡ bs ++ rest) × EncodesParams ps vs bs
params_consumed bytes ps vs rest fits byte e =
    let (bs, same, k, _) = Ensures-eq_ok (params_sound ps fits bytes byte) e in (bs, same, k)

-- What `deserialize_data` returned was read by the loop, with nothing left if it tests for that.
data_read :
    (bytes : List ℕ) (ps : List ParamInput) (flag : Bool) (vs : Values)
    → deserialize_data bytes ps flag ≡ ok vs
    → (rest : List ℕ) × (deserialize_params ps bytes ≡ ok (vs, rest)) × (flag ≡ true → rest ≡ [])
unfolding deserialize_data
data_read bytes ps flag vs e = elim (Result-cases (deserialize_params ps bytes)) [
  | inl ((us, rest), r) ↦
      let (same, nothing) = finish flag us rest (rw r at e) in (rest, rw (← same) r, nothing)
  | inr (x, r) ↦ absurd (finish_err (rw r at e))
]
  where
    finish_err : {x : Error} → ◌≡◌ {A = Result Error Values} (err x) (ok vs) → ⊥
    finish_err h = cc

    finish :
        (flag : Bool) (us : Values) (rest : List ℕ)
        → (if flag && not (is_empty rest) then err (remaining_data rest) else ok us) ≡ ok vs
        → (us ≡ vs) × (flag ≡ true → rest ≡ [])
    finish true us [] h = (cc, λ _. refl)
    finish true us (b ∷ rest) h = absurd (finish_err h)
    finish false us rest h = (cc, λ p. absurd (false≢true p))

-- With `error_on_remaining`, `deserialize_data` returns values exactly when the whole input is the
-- encodings of these values, in the order of the parameters, for parameters whose fixed arrays fit
-- a usize and an input of bytes.
pub deserialize_data-eq_ok_iff :
    (bytes : List ℕ) (ps : List ParamInput) (vs : Values)
    → AllFit ps
    → IsBytes bytes
    → (deserialize_data bytes ps true ≡ ok vs) ↔ EncodesParams ps vs bytes
unfolding deserialize_data
deserialize_data-eq_ok_iff bytes ps vs fits byte = (
  λ e.
      let (rest, r, nothing) = data_read bytes ps true vs e in
      let (bs, same, k) = params_consumed bytes ps vs rest fits byte r in
      let whole : bs ≡ bytes =
        sym (append-nil bs) ∙ ap (λ l. bs ++ l) (sym (nothing refl)) ∙ sym same in
      subst (EncodesParams ps vs) whole k,
  λ k. rw (rw append-nil at (params_complete k [])),
)

-- Without `error_on_remaining`, `deserialize_data` returns values exactly when their encodings, in
-- the order of the parameters, stand at the front of the input, for parameters whose fixed arrays
-- fit a usize and an input of bytes.
pub deserialize_data-eq_ok_front_iff :
    (bytes : List ℕ) (ps : List ParamInput) (vs : Values)
    → AllFit ps
    → IsBytes bytes
    → (deserialize_data bytes ps false ≡ ok vs)
      ↔ ((bs : List ℕ) × (rest : List ℕ) × (bytes ≡ bs ++ rest) × EncodesParams ps vs bs)
unfolding deserialize_data
deserialize_data-eq_ok_front_iff bytes ps vs fits byte = (
  λ e.
      let (rest, r, _) = data_read bytes ps false vs e in
      let (bs, same, k) = params_consumed bytes ps vs rest fits byte r in (bs, rest, same, k),
  λ (bs, rest, same, k). rw (same, params_complete k rest),
)

-- An input of bytes that is an encoding of values cut short by one byte or more is an error of
-- `deserialize_data` with either flag, for parameters whose fixed arrays fit a usize.
pub deserialize_data_truncated :
    (front : List ℕ) (b : ℕ) (back : List ℕ) (ps : List ParamInput) (vs : Values) (flag : Bool)
    → AllFit ps
    → IsBytes front
    → EncodesParams ps vs (front ++ b ∷ back)
    → (e : Error) × (deserialize_data front ps flag ≡ err e)
deserialize_data_truncated front b back ps vs flag fits byte k =
    elim (Result-cases (deserialize_data front ps flag)) [
      | inl (us, r) ↦
          let (rest, read, _) = data_read front ps flag us r in
          let (bs, same, ks) = params_consumed front ps us rest fits byte read in
          let longer = params_complete ks (rest ++ b ∷ back) in
          let whole = rw append-nil at (params_complete k []) in
          let joined : front ++ b ∷ back ≡ bs ++ (rest ++ b ∷ back) =
            ap (λ l. l ++ b ∷ back) same ∙ append_assoc bs rest (b ∷ back) in
          let left = sym longer ∙ ap (deserialize_params ps) (sym joined) ∙ whole in
          absurd (omega (arith, ap length (rest_of_ok left), length-append rest (b ∷ back)))
      | inr failed ↦ failed
    ]

-- Where the size of the element times the number of elements of a fixed array is a multiple of
-- 2^64, an array with no elements is read and no byte is consumed.
pub fixed_array_wraps :
    (t : DynType) (w size : ℕ) (bytes : List ℕ)
    → check_type_size t ≡ ok w
    → w * size % 2 ^ 64 ≡ 0
    → deserialize_value (fixed_array t size) bytes ≡ ok (array no_values, bytes)
unfolding deserialize_value
fixed_array_wraps t w size bytes c h = rw (c, h, le→ltb (length bytes) 0 (omega arith))
