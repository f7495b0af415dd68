-- ===== src/Cast/Types.antt =====
-- The column types of `cast` and `cast_by_type` (cast/src/lib.rs).
use cherry_core.Base.{
  ◌≡◌, refl, ap, Bool, List, [], ◌∷◌, Option, none, some, String, Ensures, returns, fails,
  Ensures->>=, Ensures-if, Result-cases, inl, inr, ◌>>=◌, ◌&&◌, Result, ok, err, ◌≢◌, ◌∙◌, sym,
  Bool-cases, Ensures-eq_ok, All,
}
use cherry_core.Arrow.Types.{DataType, Field, field, utf8, same_type, same_type_iff}
use cherry_core.Arrow.Data.{Array}
use mathlib.Core.Bool.{false≢true}
use cherry_core.Arrow.Kernels.{ArrowError}
use cherry_core.Cast.{
  is_decimal, Batch, cast, cast_by_type, Casting, CastingLaws, find_target, retyped, name_of,
  type_of, cast_schema, target_of, cast_schema_by_type, cast_to, cast_columns,
}

-- The columns have the types of the fields, one for one.
abbrev pub TypesMatch : List Field → List Array → Type 0
TypesMatch [] [] = Unit
TypesMatch (f ∷ fs) (c ∷ cs) = (c.data_type ≡ type_of f) × TypesMatch fs cs
TypesMatch _ _ = ⊥

type_of-retyped : (f : Field) (target : DataType) → type_of (retyped f (some target)) ≡ target
type_of-retyped (field name dt nullable) target = refl

-- The fields, each with its target.
abbrev retyped_all : (Field → Option DataType) → List Field → List Field
retyped_all target [] = []
retyped_all target (f ∷ fs) = retyped f (target f) ∷ retyped_all target fs

cast_schema-eq :
    (targets : List (String × DataType)) (fs : List Field)
    → cast_schema targets fs ≡ retyped_all (λ f. find_target (name_of f) targets) fs
unfolding cast_schema
cast_schema-eq targets [] = refl
cast_schema-eq targets (f ∷ fs) =
    ap (λ l. retyped f (find_target (name_of f) targets) ∷ l) (cast_schema-eq targets fs)

cast_schema_by_type-eq :
    (fs : List Field) (from_type to_type : DataType)
    → cast_schema_by_type fs from_type to_type
      ≡ retyped_all (λ f. target_of from_type to_type (type_of f)) fs
unfolding cast_schema_by_type
cast_schema_by_type-eq [] from_type to_type = refl
cast_schema_by_type-eq (f ∷ fs) from_type to_type =
    ap (λ l. retyped f (target_of from_type to_type (type_of f)) ∷ l)
      (cast_schema_by_type-eq fs from_type to_type)

module _ (C : Casting) (laws : CastingLaws C) (safe : Bool) where
  cast_step :
      (a : Array) (dt : DataType) → Ensures (λ b. b.data_type ≡ dt) (C.cast_with_options safe a dt)
  cast_step a dt = elim (Result-cases (C.cast_with_options safe a dt)) [
    | inl (b, e) ↦ rw e (returns (laws.cast_lem safe a b dt e))
    | inr (x, e) ↦ rw e fails
  ]

  cast_to-type_of :
      (a : Array) (f : Field) (target : Option DataType)
      → a.data_type ≡ type_of f
      → Ensures (λ b. b.data_type ≡ type_of (retyped f target)) (cast_to C safe a target)
  unfolding cast_to
  cast_to-type_of a f none h = returns h
  cast_to-type_of a (field name dt nullable) (some target) h =
      Ensures-if (is_decimal a.data_type && C.is_floating target)
        (do
          string_col ← C.cast_with_options safe a utf8
          C.cast_with_options safe string_col target)
        (C.cast_with_options safe a target)
        (λ _. Ensures->>= (cast_step a utf8) λ string_col _. cast_step string_col target)
        (λ _. cast_step a target)

  cast_columns-TypesMatch :
      (target : Field → Option DataType) (choose : Field → Array → Option DataType)
      (fs : List Field) (cs : List Array)
      → TypesMatch fs cs
      → ((f : Field) (c : Array) → c.data_type ≡ type_of f → choose f c ≡ target f)
      → Ensures (TypesMatch (retyped_all target fs)) (cast_columns C safe choose fs cs)
  unfolding cast_columns
  cast_columns-TypesMatch target choose [] [] h same = returns tt
  cast_columns-TypesMatch target choose [] (c ∷ cs) h same = absurd h
  cast_columns-TypesMatch target choose (f ∷ fs) [] h same = absurd h
  cast_columns-TypesMatch target choose (f ∷ fs) (c ∷ cs) (typed, h) same = rw (same f c typed) (
      Ensures->>= (cast_to-type_of c f (target f) typed) λ b b_typed.
        Ensures->>= (cast_columns-TypesMatch target choose fs cs h same)
          λ bs bs_typed. returns (b_typed, bs_typed))

-- No field keeps the type that is exchanged for another one.
not_from :
    (from_type to_type : DataType) (f : Field)
    → from_type ≢ to_type
    → type_of (retyped f (target_of from_type to_type (type_of f))) ≢ from_type
unfolding target_of
not_from from_type to_type (field name dt nullable) differ =
    elim (Bool-cases (same_type dt from_type)) [
      | inl same ↦ rw same (λ e. differ (sym e))
      | inr other ↦ rw other (λ e. false≢true (sym other ∙ (same_type_iff dt from_type).1 e))
    ]

no_column_left :
    (from_type to_type : DataType) (fs : List Field) (cs : List Array)
    → from_type ≢ to_type
    → TypesMatch (retyped_all (λ f. target_of from_type to_type (type_of f)) fs) cs
    → All (λ c. c.data_type ≢ from_type) cs
no_column_left from_type to_type [] [] differ h = tt
no_column_left from_type to_type [] (c ∷ cs) differ h = absurd h
no_column_left from_type to_type (f ∷ fs) [] differ h = absurd h
no_column_left from_type to_type (f ∷ fs) (c ∷ cs) differ (typed, h) = (
  λ e. not_from from_type to_type f differ (sym typed ∙ e),
  no_column_left from_type to_type fs cs differ h,
)

module _ (C : Casting) (laws : CastingLaws C) where
  -- What a batch is made of, where the casts and the construction succeed.
  made_of :
      (P : List Array → Type 0) (fs : List Field) (r : Result ArrowError (List Array)) (out : Batch)
      → Ensures P r
      → (r >>= λ cs. C.try_new fs cs) ≡ ok out
      → (out.schema ≡ fs) × P out.columns
  made_of P fs r out h e = elim (Result-cases r) [
    | inl (cs, done) ↦
        let same = laws.try_new_lem fs cs out (rw done at e) in rw same (refl, Ensures-eq_ok h done)
    | inr (x, failed) ↦ absurd (err_ne_ok (rw failed at e))
  ]
    where
      err_ne_ok : {x : ArrowError} → ◌≡◌ {A = Result ArrowError Batch} (err x) (ok out) → ⊥
      err_ne_ok h = cc

  -- A cast of a batch whose columns have the types of its schema gives, if it succeeds, the schema
  -- of `cast_schema`, and columns of the types that are named there.
  pub cast-cast_schema :
      (targets : List (String × DataType)) (batch out : Batch) (allow_cast_fail : Bool)
      → TypesMatch batch.schema batch.columns
      → cast C targets batch allow_cast_fail ≡ ok out
      → (out.schema ≡ cast_schema targets batch.schema) × TypesMatch out.schema out.columns
  unfolding cast
  cast-cast_schema targets batch out allow_cast_fail h e =
      let target : Field → Option DataType = λ f. find_target (name_of f) targets in
      let columns =
        cast_columns-TypesMatch C laws allow_cast_fail target (λ f _. target f) batch.schema
          batch.columns h (λ f c _. refl) in
      let (same, typed) =
        made_of (TypesMatch (retyped_all target batch.schema)) (cast_schema targets batch.schema) _
          out columns e in
      (same, rw (same, cast_schema-eq targets batch.schema) typed)

  -- A cast by type of a batch whose columns have the types of its schema gives, if it succeeds, the
  -- schema of `cast_schema_by_type` and columns of the types that are named there, and no column of
  -- the type that is cast from is left, if the target is another type.
  pub cast_by_type-cast_schema_by_type :
      (batch out : Batch) (from_type to_type : DataType) (allow_cast_fail : Bool)
      → TypesMatch batch.schema batch.columns
      → cast_by_type C batch from_type to_type allow_cast_fail ≡ ok out
      → from_type ≢ to_type
      → (out.schema ≡ cast_schema_by_type batch.schema from_type to_type)
        × TypesMatch out.schema out.columns
        × All (λ c. c.data_type ≢ from_type) out.columns
  unfolding cast_by_type
  cast_by_type-cast_schema_by_type batch out from_type to_type allow_cast_fail h e differ =
      let target : Field → Option DataType = λ f. target_of from_type to_type (type_of f) in
      let columns =
        cast_columns-TypesMatch C laws allow_cast_fail target
          (λ _ c. target_of from_type to_type c.data_type) batch.schema batch.columns h
          (λ f c typed. ap (target_of from_type to_type) typed) in
      let (same, typed) =
        made_of (TypesMatch (retyped_all target batch.schema))
          (cast_schema_by_type batch.schema from_type to_type) _ out columns e in
      (
        same,
        rw (same, cast_schema_by_type-eq batch.schema from_type to_type) typed,
        no_column_left from_type to_type batch.schema out.columns differ typed,
      )
