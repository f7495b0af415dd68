-- ===== src/Ingest/LastBlock/Maximum.antt =====
-- ingest/src/lib.rs: the maximum that `extract_last_block` gives.
use cherry_core.Base.{
  ℕ, String, Bool, true, false, List, [], ◌∷◌, ◌++◌, Option, none, some, ltb, ◌≡◌, ◌≤◌, All, refl,
  arith, ◌||◌, ◌==◌, append-nil, append_assoc, Bool-cases, inl, inr, ◌∙◌,
}
use cherry_core.Base.Dict.{Dict}
use cherry_core.Arrow.Data.{Array, RecordBatch, column_by_name, Scalar, num}
use cherry_core.Ingest.LastBlock.{
  as_uint64, block_id_columns, read_maximum, read_uint64_array, read_column, read_columns,
  read_batches, extract_last_block,
}

-- The values of an array of numbers that are not null.
abbrev pub numbers : List Scalar → Option (List Bool) → List ℕ
numbers [] nulls = []
numbers (num n ∷ vs) none = n ∷ numbers vs none
numbers (num n ∷ vs) (some (true ∷ bits)) = n ∷ numbers vs (some bits)
numbers (num n ∷ vs) (some (false ∷ bits)) = numbers vs (some bits)
numbers (num n ∷ vs) (some []) = []
numbers (_ ∷ vs) nulls = []

abbrev pub among : ℕ → List ℕ → Bool
among n [] = false
among n (x ∷ xs) = (x == n) || among n xs

-- There is no number, or the greatest of the numbers.
abbrev pub IsMaximum : List ℕ → Option ℕ → Type 0
IsMaximum xs none = xs ≡ []
IsMaximum xs (some m) = (among m xs ≡ true) × All (λ x. x ≤ m) xs

-- What the documentation of `arrow::compute::max` says.
abbrev pub MaxLaw : (Array → Option ℕ) → Type 0
MaxLaw array_max = (a : Array) → IsMaximum (numbers a.values a.nulls) (array_max a)

-- The block numbers in a column, in the columns of a batch, and in all batches.
abbrev pub ids_of_array : Option Array → List ℕ
ids_of_array none = []
ids_of_array (some a) = numbers a.values a.nulls

abbrev pub ids_of_column : Option Array → List ℕ
ids_of_column none = []
ids_of_column (some a) = ids_of_array (as_uint64 a)

abbrev pub ids_of_columns : RecordBatch → List String → List ℕ
ids_of_columns batch [] = []
ids_of_columns batch (name ∷ names) =
    ids_of_column (column_by_name name batch.columns) ++ ids_of_columns batch names

abbrev pub block_ids : Dict RecordBatch → List ℕ
block_ids [] = []
block_ids ((_, batch) ∷ batches) = ids_of_columns batch block_id_columns ++ block_ids batches

among-append : (n : ℕ) (xs ys : List ℕ) → among n (xs ++ ys) ≡ (among n xs || among n ys)
among-append n [] ys = refl
among-append n (x ∷ xs) ys = ground (arith, among-append n xs ys)

All-raise : (m k : ℕ) → m ≤ k → (xs : List ℕ) → All (λ x. x ≤ m) xs → All (λ x. x ≤ k) xs
All-raise m k h [] a = tt
All-raise m k h (x ∷ xs) (a, rest) = (omega (arith, a, h), All-raise m k h xs rest)

All-both :
    (m : ℕ) (xs ys : List ℕ)
    → All (λ x. x ≤ m) xs
    → All (λ x. x ≤ m) ys
    → All (λ x. x ≤ m) (xs ++ ys)
All-both m [] ys a b = b
All-both m (x ∷ xs) ys (a, rest) b = (a, All-both m xs ys rest b)

pub IsMaximum-append :
    (xs ys : List ℕ) (out found : Option ℕ)
    → IsMaximum xs out
    → IsMaximum ys found
    → IsMaximum (xs ++ ys) (read_maximum found out)
unfolding read_maximum
IsMaximum-append xs ys out none h k = rw (k, append-nil xs) h
IsMaximum-append xs ys none (some m) h k = rw h k
IsMaximum-append xs ys (some cur) (some m) (h, a) (k, b) = elim (Bool-cases (ltb cur m)) [
  | inl less ↦ rw less (
    among-append m xs ys ∙ ground (arith, k),
    All-both m xs ys (All-raise cur m (ground (arith, less)) xs a) b,
  )
  | inr at_least ↦ rw at_least (
    among-append cur xs ys ∙ ground (arith, h),
    All-both cur xs ys a (All-raise m cur (ground (arith, at_least)) ys b),
  )
]

module _ (array_max : Array → Option ℕ) (law : MaxLaw array_max) where
  read_uint64_array-IsMaximum :
      (a : Option Array) (xs : List ℕ) (out : Option ℕ)
      → IsMaximum xs out
      → IsMaximum (xs ++ ids_of_array a) (read_uint64_array array_max a out)
  unfolding read_uint64_array read_maximum
  read_uint64_array-IsMaximum none xs out h = rw (append-nil xs) h
  read_uint64_array-IsMaximum (some a) xs out h =
      IsMaximum-append xs (numbers a.values a.nulls) out (array_max a) h (law a)

  read_column-IsMaximum :
      (a : Option Array) (xs : List ℕ) (out : Option ℕ)
      → IsMaximum xs out
      → IsMaximum (xs ++ ids_of_column a) (read_column array_max a out)
  unfolding read_column
  read_column-IsMaximum none xs out h = rw (append-nil xs) h
  read_column-IsMaximum (some a) xs out h = read_uint64_array-IsMaximum (as_uint64 a) xs out h

  read_columns-IsMaximum :
      (batch : RecordBatch) (names : List String) (xs : List ℕ) (out : Option ℕ)
      → IsMaximum xs out
      → IsMaximum (xs ++ ids_of_columns batch names) (read_columns array_max batch names out)
  unfolding read_columns
  read_columns-IsMaximum batch [] xs out h = rw (append-nil xs) h
  read_columns-IsMaximum batch (name ∷ names) xs out h =
      let column = column_by_name name batch.columns in
      rw (← append_assoc xs (ids_of_column column) (ids_of_columns batch names)) (
        read_columns-IsMaximum batch names (xs ++ ids_of_column column)
          (read_column array_max column out) (read_column-IsMaximum column xs out h))

  read_batches-IsMaximum :
      (batches : Dict RecordBatch) (xs : List ℕ) (out : Option ℕ)
      → IsMaximum xs out
      → IsMaximum (xs ++ block_ids batches) (read_batches array_max batches out)
  unfolding read_batches
  read_batches-IsMaximum [] xs out h = rw (append-nil xs) h
  read_batches-IsMaximum ((_, batch) ∷ batches) xs out h =
      let ids = ids_of_columns batch block_id_columns in
      rw (← append_assoc xs ids (block_ids batches)) (
        read_batches-IsMaximum batches (xs ++ ids) _
          (read_columns-IsMaximum batch block_id_columns xs out h))

  -- If arrow finds the greatest value of an array, `extract_last_block` gives the greatest block
  -- number in the columns of 64-bit numbers that have one of the three names, over all batches, and
  -- nothing if there is none.
  pub extract_last_block-IsMaximum :
      (tables : Dict RecordBatch)
      → IsMaximum (block_ids tables) (extract_last_block array_max tables)
  unfolding extract_last_block
  extract_last_block-IsMaximum tables = read_batches-IsMaximum tables [] none refl
