-- ===== src/Svm/Decode/Discriminator/Tests.antt =====
-- svm-decode/src/lib.rs: a batch that is filtered by discriminator.
use cherry_core.Base.{◌≡◌, refl, inl, true, false, [], ◌∷◌, map, none, some, ok}
use cherry_core.Arrow.Types.{binary, uint8, same_type}
use cherry_core.Arrow.Data.{Array, RecordBatch, bytes, num, column_by_name}
use cherry_core.Arrow.Kernels.{AreFiltered}
use cherry_core.Arrow.Reference.{reference, reference_laws}
use cherry_core.Svm.Decode.{InstructionSignature, match_discriminators}
use cherry_core.Svm.Decode.Discriminator.{
  binary_rows, build_discriminator_mask, filter_by_discriminator_impl,
}
use cherry_core.Svm.Decode.Discriminator.Kept.{matched_row, filter_by_discriminator_impl-kept}

abbrev seven : InstructionSignature
seven = record { discriminator = 7 ∷ []; params = []; accounts_names = [] }

-- A matching row, an empty one, one of another discriminator and a null.
abbrev payloads : Array
payloads = record {
  data_type = binary;
  values = bytes (7 ∷ 1 ∷ []) ∷ bytes [] ∷ bytes (8 ∷ 7 ∷ []) ∷ bytes (7 ∷ []) ∷ [];
  nulls = some (true ∷ true ∷ true ∷ false ∷ []);
}

abbrev numbers : Array
numbers = record { data_type = uint8; values = num 1 ∷ num 2 ∷ num 3 ∷ num 4 ∷ []; nulls = none }

abbrev instructions : RecordBatch
instructions = record { columns = ("number", numbers) ∷ ("data", payloads) ∷ []; num_rows = 4 }

mask_run :
    build_discriminator_mask payloads (7 ∷ [])
    ≡ ok (some true ∷ some false ∷ some false ∷ none ∷ [])
unfolding build_discriminator_mask same_type
mask_run = refl

filter_by_discriminator_impl-kept_example :
    (kept : RecordBatch) × (filter_by_discriminator_impl reference seven instructions ≡ ok kept)
    × AreFiltered
        (map (matched_row seven) (binary_rows payloads.values payloads.nulls))
        instructions.columns
        kept.columns
    × (kept.num_rows ≡ 1)
unfolding column_by_name match_discriminators
filter_by_discriminator_impl-kept_example =
    filter_by_discriminator_impl-kept reference reference_laws seven instructions payloads refl
      (inl refl)
      (
        record { all_rows = refl; all_bits = λ bits e. cc },
        (record { all_rows = refl; all_bits = λ bits e. cc }, tt),
      )
