-- ===== src/Arrow/Reference.antt =====
-- A concrete value of the arrow interface, on which tests run.
use cherry_core.Base.{
  ◌≡◌, refl, ap, inl, inr, Option-cases, Bool, true, false, List, [], ◌∷◌, map, Option, none, some,
  String, Result, ok, err, length, ◌==◌, ==_iff, if◌then◌else◌, arith,
}
use cherry_core.Arrow.Types.{binary}
use cherry_core.Arrow.Data.{Array, Mask, Scalar, num, bytes, flag, null_count, has_null}
use cherry_core.Arrow.Kernels.{
  Kernels, KernelLaws, ArrowError, arrow_error, and_slot, or_slot, not_slot, zip_slots, keep, pick,
  IsFiltered, AreFiltered, validity,
}

abbrev same_length : (Mask → Mask → Mask) → Mask → Mask → Result ArrowError Mask
same_length f a b =
    if length a == length b then ok (f a b) else err (arrow_error "arrays of different length")

abbrev keep_option : Mask → Option (List Bool) → Option (List Bool)
keep_option m none = none
keep_option m (some bits) = some (keep m bits)

abbrev keep_array : Mask → Array → Array
keep_array m a = record {
  data_type = a.data_type;
  values = keep m a.values;
  nulls = keep_option m a.nulls;
}

abbrev keep_columns : Mask → List (String × Array) → List (String × Array)
keep_columns m [] = []
keep_columns m ((n, a) ∷ cs) = (n, keep_array m a) ∷ keep_columns m cs

-- The rows of one column as bytes; more columns are not supported.
abbrev encode : Scalar → Scalar
encode (num n) = bytes (n ∷ [])
encode (bytes b) = bytes b
encode (flag true) = bytes (1 ∷ [])
encode (flag false) = bytes (0 ∷ [])

abbrev encode_rows : List Array → Result ArrowError Array
encode_rows (a ∷ []) =
    ok (record { data_type = binary; values = map encode a.values; nulls = none })
encode_rows _ = err (arrow_error "one column expected")

unfoldable pub reference : Kernels
reference = record {
  and = same_length (zip_slots and_slot);
  or = same_length (zip_slots or_slot);
  negate = λ m. ok (map not_slot m);
  filter = λ a m. ok (keep_array m a);
  filter_record_batch =
      λ b m. ok (record { columns = keep_columns m b.columns; num_rows = length (keep m m) });
  project = λ b is. ok (record b { columns = pick b.columns is });
  rows_to_binary = λ _ columns. encode_rows columns;
}

null_count-keep : (m : Mask) (bits : List Bool) → null_count bits ≡ 0 → null_count (keep m bits) ≡ 0
null_count-keep [] bits h = refl
null_count-keep (s ∷ m) [] h = refl
null_count-keep (none ∷ m) (true ∷ bits) h = null_count-keep m bits h
null_count-keep (some true ∷ m) (true ∷ bits) h = null_count-keep m bits h
null_count-keep (some false ∷ m) (true ∷ bits) h = null_count-keep m bits h
null_count-keep (s ∷ m) (false ∷ bits) h = absurd (omega arith)

has_null-keep :
    (m : Mask) (nulls : Option (List Bool))
    → has_null nulls ≡ false
    → has_null (keep_option m nulls) ≡ false
has_null-keep m none h = refl
has_null-keep m (some bits) h = ground (arith, null_count-keep m bits)

map-keep : (m : Mask) (vs : List Scalar) → map (λ _. true) (keep m vs) ≡ keep m (map (λ _. true) vs)
map-keep [] vs = refl
map-keep (s ∷ m) [] = refl
map-keep (none ∷ m) (v ∷ vs) = map-keep m vs
map-keep (some true ∷ m) (v ∷ vs) = ap (λ bits. true ∷ bits) (map-keep m vs)
map-keep (some false ∷ m) (v ∷ vs) = map-keep m vs

validity-keep : (m : Mask) (a : Array) → validity (keep_array m a) ≡ keep m (validity a)
validity-keep m a = elim (Option-cases a.nulls) [
  | inl whole ↦ rw whole (map-keep m a.values)
  | inr (bits, e) ↦ rw e refl
]

keep_array-IsFiltered : (m : Mask) (a : Array) → IsFiltered m a (keep_array m a)
keep_array-IsFiltered m a = record {
  same_data_type = refl;
  kept_values = refl;
  kept_validity = validity-keep m a;
  no_new_nulls = has_null-keep m a.nulls;
}

keep_columns-AreFiltered :
    (m : Mask) (cs : List (String × Array)) → AreFiltered m cs (keep_columns m cs)
keep_columns-AreFiltered m [] = tt
keep_columns-AreFiltered m ((n, a) ∷ cs) =
    (refl, keep_array-IsFiltered m a, keep_columns-AreFiltered m cs)

same_length-ok :
    (f : Mask → Mask → Mask) (a b : Mask) → length a ≡ length b → same_length f a b ≡ ok (f a b)
same_length-ok f a b h = rw ((==_iff (length a) (length b)).1 h)

pub reference_laws : KernelLaws reference
unfolding reference
reference_laws = record {
  and_lem = same_length-ok (zip_slots and_slot);
  or_lem = same_length-ok (zip_slots or_slot);
  negate_lem = λ m. refl;
  filter_lem = λ a m h. (keep_array m a, refl, keep_array-IsFiltered m a);
  filter_record_batch_lem = λ b m h c. (_, refl, keep_columns-AreFiltered m b.columns, refl);
  project_lem = λ b is h. refl;
}
