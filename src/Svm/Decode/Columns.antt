-- ===== src/Svm/Decode/Columns.antt =====
-- svm-decode/src/lib.rs: the columns that the rows become.
use cherry_core.Base.{
  Bool-cases, length-replicate, append-nil, ℕ, zero, suc, ◌+◌, ◌≡◌, refl, Bool, true, false, List,
  [], ◌∷◌, ◌++◌, map, Option, none, some, Result, ok, err, length, replicate, ap, ap₂, sym, ◌∙◌,
  arith, append_assoc, >>=-eq_ok, Result-cases, inl, inr, ◌>>=◌, if◌then◌else◌,
}
use cherry_core.Svm.Types.{DynValue, Values, no_values, value}
use cherry_core.Svm.ArrowConverter.Nested.{count_values}
use cherry_core.Svm.Decode.{Error, Columns, push_row, push_null_row, decode_rows}

-- The first value of a row, and the others; a row that was not decoded has none.
abbrev pub first_of : Option Values → Option DynValue
first_of (some (value v vs)) = some v
first_of _ = none

abbrev pub rest_of : Option Values → Option Values
rest_of (some (value v vs)) = some vs
rest_of _ = none

-- The table of some rows, column by column.
abbrev pub columns : ℕ → List (Option Values) → Columns
columns zero rows = []
columns (suc n) rows = map first_of rows ∷ columns n (map rest_of rows)

-- Columns behind columns.
extend : Columns → Columns → Columns
extend (c ∷ cs) (d ∷ ds) = (c ++ d) ∷ extend cs ds
extend _ _ = []

push_row-columns :
    (vs : Values) (cols : Columns)
    → count_values vs ≡ length cols
    → push_row vs cols ≡ ok (extend cols (columns (length cols) (some vs ∷ [])))
unfolding push_row extend
push_row-columns no_values [] h = refl
push_row-columns no_values (c ∷ cols) h = absurd (omega (arith, h))
push_row-columns (value v vs) [] h = absurd (omega (arith, h))
push_row-columns (value v vs) (c ∷ cols) h =
    >>=-eq_ok _ (push_row-columns vs cols (omega (arith, h))) refl

push_null_row-columns :
    (cols : Columns) → push_null_row cols ≡ extend cols (columns (length cols) (none ∷ []))
unfolding push_null_row extend
push_null_row-columns [] = refl
push_null_row-columns (c ∷ cols) = ap (λ rest. (c ++ none ∷ []) ∷ rest) (push_null_row-columns cols)

length-extend :
    (cols : Columns) (rows : List (Option Values))
    → length (extend cols (columns (length cols) rows)) ≡ length cols
unfolding extend
length-extend [] rows = refl
length-extend (c ∷ cols) rows = ap suc (length-extend cols (map rest_of rows))

extend-extend :
    (cols : Columns) (row : Option Values) (rows : List (Option Values))
    → extend (extend cols (columns (length cols) (row ∷ []))) (columns (length cols) rows)
      ≡ extend cols (columns (length cols) (row ∷ rows))
unfolding extend
extend-extend [] row rows = refl
extend-extend (c ∷ cols) row rows =
    ap₂ (λ d ds. d ∷ ds) (append_assoc c (first_of row ∷ []) (map first_of rows))
      (extend-extend cols (rest_of row) (map rest_of rows))

extend-nil : (cols : Columns) → extend cols (columns (length cols) []) ≡ cols
unfolding extend
extend-nil [] = refl
extend-nil (c ∷ cols) = ap₂ (λ d ds. d ∷ ds) (append-nil c) (extend-nil cols)

extend-empty :
    (n : ℕ) (rows : List (Option Values))
    → extend (replicate n []) (columns n rows) ≡ columns n rows
unfolding extend
extend-empty zero rows = refl
extend-empty (suc n) rows = ap (λ ds. map first_of rows ∷ ds) (extend-empty n (map rest_of rows))

abbrev pub value_of : Result Error Values → Option Values
value_of (ok vs) = some vs
value_of (err e) = none

abbrev pub error_or : Result Error Values → Option Error → Option Error
error_or (ok vs) o = o
error_or (err e) o = some e

module _ {X : Type 0} (decode_row : ℕ → X → Result Error Values) where
  -- The rows that are decoded, and the error of the first that is not.
  abbrev pub decoded : ℕ → List X → List (Option Values)
  decoded i [] = []
  decoded i (row ∷ rows) = value_of (decode_row i row) ∷ decoded (i + 1) rows

  abbrev pub first_error : ℕ → List X → Option Error
  first_error i [] = none
  first_error i (row ∷ rows) = error_or (decode_row i row) (first_error (i + 1) rows)

-- Without `allow_decode_fail` the first error is the outcome.
abbrev pub outcome : Bool → Option Error → Columns → Result Error Columns
outcome false (some e) cols = err e
outcome _ _ cols = ok cols

outcome-none : (allow : Bool) (cols : Columns) → outcome allow none cols ≡ ok cols
outcome-none true cols = refl
outcome-none false cols = refl

-- A row behind columns, and the others behind it.
extend-step :
    (cols : Columns) (row : Option Values) (rows : List (Option Values))
    → extend
        (extend cols (columns (length cols) (row ∷ [])))
        (columns (length (extend cols (columns (length cols) (row ∷ [])))) rows)
      ≡ extend cols (columns (length cols) (row ∷ rows))
extend-step cols row rows = rw (length-extend cols (row ∷ [])) (extend-extend cols row rows)

module _ {X : Type 0} (decode_row : ℕ → X → Result Error Values) (n : ℕ)
    (count : (i : ℕ) (row : X) (vs : Values) → decode_row i row ≡ ok vs → count_values vs ≡ n) where
  decode_rows-ok :
      (allow : Bool) (i : ℕ) (row : X) (rows : List X) (cols : Columns) (vs : Values)
      → decode_row i row ≡ ok vs
      → decode_rows decode_row allow i (row ∷ rows) cols
        ≡ (push_row vs cols >>= λ cols'. decode_rows decode_row allow (i + 1) rows cols')
  unfolding decode_rows
  decode_rows-ok allow i row rows cols vs e = rw (e, decode_rows) refl

  decode_rows-err :
      (allow : Bool) (i : ℕ) (row : X) (rows : List X) (cols : Columns) (x : Error)
      → decode_row i row ≡ err x
      → decode_rows decode_row allow i (row ∷ rows) cols
        ≡ (if allow then decode_rows decode_row allow (i + 1) rows (push_null_row cols) else err x)
  unfolding decode_rows
  decode_rows-err allow i row rows cols x e = rw (e, decode_rows) refl

  decode_rows-columns :
      (allow : Bool) (i : ℕ) (rows : List X) (cols : Columns)
      → length cols ≡ n
      → decode_rows decode_row allow i rows cols
        ≡ outcome allow
            (first_error decode_row i rows)
            (extend cols (columns (length cols) (decoded decode_row i rows)))
  unfolding decode_rows
  decode_rows-columns allow i [] cols h = ap ok (sym (extend-nil cols)) ∙ sym (outcome-none allow _)
  decode_rows-columns allow i (row ∷ rows) cols h =
      let others = decoded decode_row (i + 1) rows in
      elim (Result-cases (decode_row i row)) [
        | inl (vs, e) ↦
            let more = extend cols (columns (length cols) (some vs ∷ [])) in
            decode_rows-ok allow i row rows cols vs e
            ∙ >>=-eq_ok _ (push_row-columns vs cols (count i row vs e ∙ sym h)) (
                decode_rows-columns allow (i + 1) rows more (length-extend cols (some vs ∷ []) ∙ h)
                ∙ ap (outcome allow (first_error decode_row (i + 1) rows))
                    (extend-step cols (some vs) others))
            ∙ rw e refl
        | inr (x, e) ↦
            let more = extend cols (columns (length cols) (none ∷ [])) in
            decode_rows-err allow i row rows cols x e
            ∙ rw e (elim (Bool-cases allow) [
              | inl goes_on ↦
                  rw (goes_on, push_null_row-columns cols)
                    (decode_rows-columns true (i + 1) rows more (length-extend cols (none ∷ []) ∙ h)
                      ∙ ap ok (extend-step cols none others))
              | inr stops ↦ rw stops refl
            ])
      ]

  -- From empty columns.
  pub decode_rows-outcome :
      (allow : Bool) (rows : List X)
      → decode_rows decode_row allow 0 rows (replicate n [])
        ≡ outcome allow (first_error decode_row 0 rows) (columns n (decoded decode_row 0 rows))
  decode_rows-outcome allow rows =
      decode_rows-columns allow 0 rows (replicate n []) (length-replicate n [])
      ∙ ap (outcome allow (first_error decode_row 0 rows)) (
          rw (length-replicate {A = List (Option DynValue)} n [])
            (extend-empty n (decoded decode_row 0 rows)))
