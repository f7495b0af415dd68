-- ===== src/Arrow/Kernels.antt =====
-- The functions of the arrow crate that the source calls. They are not part of the repository: the
-- model takes them as a value of `Kernels`, and what is used of their documentation as `KernelLaws`.
use cherry_core.Base.{
  ℕ, ◌<◌, ◌≡◌, Bool, true, false, ◌&&◌, ◌||◌, not, List, [], ◌∷◌, map, Option, none, some, String,
  Result, ok, length, get_elem?, All,
}
use cherry_core.Arrow.Types.{DataType}
use cherry_core.Arrow.Data.{Array, Mask, RecordBatch, is_nullable, is_true}

-- An `ArrowError`; its content is never looked at.
pub data ArrowError : Type 0 where
  arrow_error : String → ArrowError

pub record Kernels : Type 0 where
  -- compute::and, compute::or, compute::not
  pub and : Mask → Mask → Result ArrowError Mask
  pub or : Mask → Mask → Result ArrowError Mask
  pub negate : Mask → Result ArrowError Mask
  -- compute::filter, compute::filter_record_batch
  pub filter : Array → Mask → Result ArrowError Array
  pub filter_record_batch : RecordBatch → Mask → Result ArrowError RecordBatch
  -- RecordBatch::project
  pub project : RecordBatch → List ℕ → Result ArrowError RecordBatch
  -- RowConverter::new, convert_columns and try_into_binary, one after the other
  pub rows_to_binary : List DataType → List Array → Result ArrowError Array

-- Both `and` and `or` give null where one of the sides is null.
abbrev pub and_slot : Option Bool → Option Bool → Option Bool
and_slot (some a) (some b) = some (a && b)
and_slot _ _ = none

abbrev pub or_slot : Option Bool → Option Bool → Option Bool
or_slot (some a) (some b) = some (a || b)
or_slot _ _ = none

abbrev pub not_slot : Option Bool → Option Bool
not_slot none = none
not_slot (some b) = some (not b)

abbrev pub zip_slots : (Option Bool → Option Bool → Option Bool) → Mask → Mask → Mask
zip_slots f (a ∷ m) (b ∷ n) = f a b ∷ zip_slots f m n
zip_slots f _ _ = []

-- The entries at the rows where the mask is true.
abbrev pub keep {ℓ} : {A : Type ℓ} → Mask → List A → List A
keep (s ∷ m) (x ∷ xs) = elim (is_true s) [ true ↦ x ∷ keep m xs | false ↦ keep m xs ]
keep _ _ = []

-- The columns at some indices; an index out of range is passed over.
abbrev pub pick {ℓ} : {A : Type ℓ} → List A → List ℕ → List A
pick xs [] = []
pick xs (i ∷ is) = elim (get_elem? xs i) [ none ↦ pick xs is | some x ↦ x ∷ pick xs is ]

-- The rows that are not null; without a null buffer all of them.
abbrev pub validity : Array → List Bool
validity a = elim a.nulls [ none ↦ map (λ _. true) a.values | some bits ↦ bits ]

pub record IsFiltered (m : Mask) (a b : Array) : Type 0 where
  pub same_data_type : b.data_type ≡ a.data_type
  pub kept_values : b.values ≡ keep m a.values
  pub kept_validity : validity b ≡ keep m (validity a)
  pub no_new_nulls : is_nullable a ≡ false → is_nullable b ≡ false

abbrev pub AreFiltered : Mask → List (String × Array) → List (String × Array) → Type 0
AreFiltered m [] [] = Unit
AreFiltered m ((n, a) ∷ cs) ((n', b) ∷ ds) = (n ≡ n') × IsFiltered m a b × AreFiltered m cs ds
AreFiltered m _ _ = ⊥

pub record KernelLaws (K : Kernels) : Type 0 where
  pub and_lem : (a b : Mask) → length a ≡ length b → K.and a b ≡ ok (zip_slots and_slot a b)
  pub or_lem : (a b : Mask) → length a ≡ length b → K.or a b ≡ ok (zip_slots or_slot a b)
  pub negate_lem : (a : Mask) → K.negate a ≡ ok (map not_slot a)
  pub filter_lem :
      (a : Array) (m : Mask)
      → length a.values ≡ length m
      → (b : Array) × (K.filter a m ≡ ok b) × IsFiltered m a b
  pub filter_record_batch_lem :
      (b : RecordBatch) (m : Mask)
      → b.num_rows ≡ length m
      → All (λ c. length (c.1).values ≡ length m) b.columns
      → (b' : RecordBatch) × (K.filter_record_batch b m ≡ ok b')
        × AreFiltered m b.columns b'.columns
        × (b'.num_rows ≡ length (keep m m))
  pub project_lem :
      (b : RecordBatch) (is : List ℕ)
      → All (λ i. i < length b.columns) is
      → K.project b is ≡ ok (record b { columns = pick b.columns is })
