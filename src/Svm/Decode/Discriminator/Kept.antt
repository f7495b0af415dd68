-- ===== src/Svm/Decode/Discriminator/Kept.antt =====
-- svm-decode/src/lib.rs: the rows that the filter by discriminator keeps.
use cherry_core.Base.{
  ℕ, suc, ◌≡◌, refl, sym, ap, ap₂, ◌∙◌, ◌⊎◌, inl, inr, Bool, true, false, List, [], ◌∷◌, map,
  Option, none, some, Result, ok, err, length, length-map, take, ltb, arith, Bool-cases, All,
  All-weaken, String, subst,
}
use cherry_core.Base.Dict.{str_eq}
use cherry_core.Arrow.Types.{same_type, same_type_iff, binary, large_binary}
use cherry_core.Arrow.Data.{Scalar, Array, Mask, RecordBatch, column_by_name}
use cherry_core.Arrow.Kernels.{Kernels, KernelLaws, AreFiltered, keep}
use cherry_core.Query.Filter.{has_prefix, bytes_eq}
use cherry_core.Query.Filter.Rows.{IsColumn}
use cherry_core.Svm.Decode.{InstructionSignature, match_discriminators}
use cherry_core.Svm.Decode.Discriminator.{
  bytes_at, all_bytes, binary_rows, starts_row, build_discriminator_mask,
  filter_by_discriminator_impl,
}

-- Whether `decode_instruction` gets past the discriminator of a row.
abbrev pub succeeds {ℓ} : {E : Type 0} {A : Type ℓ} → Result E A → Bool
succeeds (ok a) = true
succeeds (err e) = false

abbrev pub matched_row : InstructionSignature → Option (List ℕ) → Option Bool
matched_row signature none = none
matched_row signature (some b) = some (succeeds (match_discriminators b signature.discriminator))

-- The number of rows that a mask keeps.
abbrev pub count_true : Mask → ℕ
count_true [] = 0
count_true (none ∷ m) = count_true m
count_true (some false ∷ m) = count_true m
count_true (some true ∷ m) = suc (count_true m)

length-keep : (m n : Mask) → length m ≡ length n → length (keep m n) ≡ count_true m
length-keep [] n h = refl
length-keep (s ∷ m) [] h = absurd (omega (arith, h))
length-keep (none ∷ m) (b ∷ n) h = length-keep m n (omega (arith, h))
length-keep (some false ∷ m) (b ∷ n) h = length-keep m n (omega (arith, h))
length-keep (some true ∷ m) (b ∷ n) h = ap suc (length-keep m n (omega (arith, h)))

has_prefix-take :
    (p b : List ℕ)
    → ltb (length b) (length p) ≡ false
    → has_prefix p b ≡ bytes_eq (take (length p) b) p
has_prefix-take [] b h = refl
has_prefix-take (x ∷ p) [] h = absurd (ground arith)
has_prefix-take (x ∷ p) (y ∷ b) h = ground (arith, has_prefix-take p b)

short_prefix : (p b : List ℕ) → ltb (length b) (length p) ≡ true → has_prefix p b ≡ false
short_prefix [] b h = absurd (ground arith)
short_prefix (x ∷ p) [] h = refl
short_prefix (x ∷ p) (y ∷ b) h = ground (arith, short_prefix p b)

has_prefix-matched : (p b : List ℕ) → has_prefix p b ≡ succeeds (match_discriminators b p)
unfolding match_discriminators
has_prefix-matched p b = elim (Bool-cases (ltb (length b) (length p))) [
  | inl short ↦ rw (short) (short_prefix p b short)
  | inr long ↦ elim (Bool-cases (bytes_eq (take (length p) b) p)) [
    | inl same ↦ rw (long, same) (has_prefix-take p b long ∙ same)
    | inr other ↦ rw (long, other) (has_prefix-take p b long ∙ other)
  ]
]

mask_rows :
    (signature : InstructionSignature) (rows : List (Option (List ℕ)))
    → map (starts_row signature.discriminator) rows ≡ map (matched_row signature) rows
unfolding starts_row
mask_rows signature [] = refl
mask_rows signature (none ∷ rows) = ap (λ m. none ∷ m) (mask_rows signature rows)
mask_rows signature (some b ∷ rows) =
    ap₂ (λ s m. some s ∷ m) (has_prefix-matched signature.discriminator b)
      (mask_rows signature rows)

-- The columns of one batch.
abbrev pub AreColumns : RecordBatch → Type 0
AreColumns batch = All (λ c. IsColumn batch.num_rows (c.1)) batch.columns

length-bytes_at :
    (vs : List Scalar) (bits : List Bool)
    → length bits ≡ length vs
    → length (bytes_at vs bits) ≡ length vs
length-bytes_at [] [] h = refl
length-bytes_at [] (b ∷ bits) h = absurd (omega arith)
length-bytes_at (v ∷ vs) [] h = absurd (omega arith)
length-bytes_at (v ∷ vs) (b ∷ bits) h = ap suc (length-bytes_at vs bits (omega arith))

length-all_bytes : (vs : List Scalar) → length (all_bytes vs) ≡ length vs
length-all_bytes [] = refl
length-all_bytes (v ∷ vs) = ap suc (length-all_bytes vs)

length-binary_rows :
    (n : ℕ) (vs : List Scalar) (nulls : Option (List Bool))
    → length vs ≡ n
    → ((bits : List Bool) → nulls ≡ some bits → length bits ≡ n)
    → length (binary_rows vs nulls) ≡ n
length-binary_rows n vs none h k = length-all_bytes vs ∙ h
length-binary_rows n vs (some bits) h k = length-bytes_at vs bits (k bits refl ∙ sym h) ∙ h

mask_of :
    (signature : InstructionSignature) (col : Array)
    → (col.data_type ≡ binary) ⊎ (col.data_type ≡ large_binary)
    → build_discriminator_mask col signature.discriminator
      ≡ ok (map (matched_row signature) (binary_rows col.values col.nulls))
unfolding build_discriminator_mask
mask_of signature col (inl t) =
    rw ((same_type_iff col.data_type binary).1 t)
      (ap ok (mask_rows signature (binary_rows col.values col.nulls)))
mask_of signature col (inr t) = elim (Bool-cases (same_type col.data_type binary)) [
  | inl b ↦ rw (b) (ap ok (mask_rows signature (binary_rows col.values col.nulls)))
  | inr b ↦
      rw (b, (same_type_iff col.data_type large_binary).1 t)
        (ap ok (mask_rows signature (binary_rows col.values col.nulls)))
]

column_by_name-All :
    (P : Array → Type 0) (name : String) (cs : List (String × Array)) (a : Array)
    → All (λ c. P (c.1)) cs
    → column_by_name name cs ≡ some a
    → P a
unfolding column_by_name
column_by_name-All P name [] a h e = cc
column_by_name-All P name ((n, b) ∷ cs) a h e = elim (Bool-cases (str_eq n name)) [
  | inl here ↦ subst P (cc) h.0
  | inr there ↦ column_by_name-All P name cs a h.1 (rw there at e)
]

-- If the batch has a binary column `data` and its columns have as many rows as the batch, the
-- filter by discriminator gives a batch with the same names and types of columns and with the
-- values and validity bits of exactly the rows whose data is not null and accepted by
-- `match_discriminators`, as many rows as there are of them.
pub filter_by_discriminator_impl-kept :
    (K : Kernels) (laws : KernelLaws K) (signature : InstructionSignature) (batch : RecordBatch)
    (col : Array)
    → column_by_name "data" batch.columns ≡ some col
    → (col.data_type ≡ binary) ⊎ (col.data_type ≡ large_binary)
    → AreColumns batch
    → (kept : RecordBatch) × (filter_by_discriminator_impl K signature batch ≡ ok kept)
      × AreFiltered
          (map (matched_row signature) (binary_rows col.values col.nulls))
          batch.columns
          kept.columns
      × (kept.num_rows
          ≡ count_true (map (matched_row signature) (binary_rows col.values col.nulls)))
unfolding filter_by_discriminator_impl
filter_by_discriminator_impl-kept K laws signature batch col found t all =
    let m = map (matched_row signature) (binary_rows col.values col.nulls) in
    let data_column =
      column_by_name-All (IsColumn batch.num_rows) "data" batch.columns col all found in
    let lengths : length m ≡ batch.num_rows =
      length-map (matched_row signature) (binary_rows col.values col.nulls)
      ∙ length-binary_rows batch.num_rows col.values col.nulls data_column.all_rows
          data_column.all_bits in
    let (kept, run, rows, count) =
      laws.filter_record_batch_lem batch m (sym lengths)
        (All-weaken (λ c h. h.all_rows ∙ sym lengths) batch.columns all) in
    (
      kept,
      rw (found, mask_of signature col t, run, filter_by_discriminator_impl) refl,
      rows,
      count ∙ length-keep m m refl,
    )
