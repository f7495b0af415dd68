-- ===== src/Query/Run/Combine.antt =====
-- The masks of several selections in `run_query` (query/src/lib.rs).
use cherry_core.Base.{
  ap₂, Option-cases, inl, inr, ◌⊎◌, ℕ, zero, suc, ◌≡◌, refl, sym, ◌∙◌, Bool, true, false, ◌&&◌,
  ◌||◌, List, [], ◌∷◌, none, some, ok, length, String, All,
}
use cherry_core.Base.Dict.{Dict, get}
use cherry_core.Arrow.Data.{Mask, row, is_valid}
use cherry_core.Arrow.Kernels.{Kernels, KernelLaws, or_slot, zip_slots}
use cherry_core.Query.Filter.Lengths.{length-zip_slots}
use cherry_core.Query.Run.{combine_masks}

-- Whether a row is in range and not null.
abbrev pub valid_row : Mask → ℕ → Bool
valid_row [] i = false
valid_row (s ∷ m) zero = is_valid s
valid_row (s ∷ m) (suc i) = valid_row m i

-- The masks that the selections have for a table.
abbrev pub masks_for : String → List (Dict Mask) → List Mask
masks_for t [] = []
masks_for t (f ∷ fs) = elim (get t f) [ none ↦ masks_for t fs | some m ↦ m ∷ masks_for t fs ]

abbrev pub row_in_any : List Mask → ℕ → Bool
row_in_any [] i = false
row_in_any (m ∷ ms) i = row m i || row_in_any ms i

abbrev pub valid_in_all : List Mask → ℕ → Bool
valid_in_all [] i = true
valid_in_all (m ∷ ms) i = valid_row m i && valid_in_all ms i

out_of_range : (v r : Bool) → (false ≡ (v && false) && (r || false)) × (false ≡ v && false)
out_of_range true r = (refl, refl)
out_of_range false r = (refl, refl)

valid_of_row : (m : Mask) (i : ℕ) → row m i ≡ true → valid_row m i ≡ true
valid_of_row [] i h = cc
valid_of_row (none ∷ m) zero h = cc
valid_of_row (some x ∷ m) zero h = refl
valid_of_row (s ∷ m) (suc i) h = valid_of_row m i h

alone : (v r : Bool) → (r ≡ true → v ≡ true) → r ≡ (v && true) && (r || false)
alone true true h = refl
alone true false h = refl
alone false true h = sym (h refl)
alone false false h = refl

or_step :
    (ve vm v re rm r : Bool)
    → ((ve && vm) && v) && (((ve && vm) && (re || rm)) || r)
      ≡ (ve && (vm && v)) && (re || (rm || r))
or_step false vm v re rm r = refl
or_step true false v re rm r = refl
or_step true true v true rm r = refl
or_step true true v false rm r = refl

row-or :
    (a b : Mask) (i : ℕ)
    → (row (zip_slots or_slot a b) i ≡ (valid_row a i && valid_row b i) && (row a i || row b i))
      × (valid_row (zip_slots or_slot a b) i ≡ valid_row a i && valid_row b i)
row-or [] b i = (refl, refl)
row-or (s ∷ a) [] i = out_of_range (valid_row (s ∷ a) i) (row (s ∷ a) i)
row-or (none ∷ a) (t ∷ b) zero = (refl, refl)
row-or (some x ∷ a) (none ∷ b) zero = (refl, refl)
row-or (some true ∷ a) (some y ∷ b) zero = (refl, refl)
row-or (some false ∷ a) (some true ∷ b) zero = (refl, refl)
row-or (some false ∷ a) (some false ∷ b) zero = (refl, refl)
row-or (s ∷ a) (t ∷ b) (suc i) = row-or a b i

module _ (K : Kernels) (laws : KernelLaws K) (n : ℕ) (t : String) where
  combine_from :
      (fs : List (Dict Mask)) (e : Mask)
      → length e ≡ n
      → All (λ m. length m ≡ n) (masks_for t fs)
      → (m : Mask) × (combine_masks K t fs (some e) ≡ ok (some m))
        × (length m ≡ n)
        × ((i : ℕ)
            → row m i
              ≡ (valid_row e i && valid_in_all (masks_for t fs) i)
                && (row e i || row_in_any (masks_for t fs) i))
  unfolding combine_masks
  combine_from [] e len all =
      (e, refl, len, λ i. alone (valid_row e i) (row e i) (valid_of_row e i))
  combine_from (f ∷ fs) e len all = elim (Option-cases (get t f)) [
    | inl other ↦
        rw (other, combine_masks, masks_for) (combine_from fs e len (rw (other, masks_for) at all))
    | inr (m, found) ↦
        let (m_len, rest) = rw (found, masks_for) at all in
        let same : length e ≡ length m = len ∙ sym m_len in
        let c = zip_slots or_slot e m in
        let (r, done, r_len, rows) =
          combine_from fs c (length-zip_slots or_slot e m same ∙ len) rest in
        rw (found, combine_masks, masks_for)
          (
            r,
            rw (laws.or_lem e m same) done,
            r_len,
            λ i.
                rows i
                ∙ ap₂
                    (λ v x.
                      (v && valid_in_all (masks_for t fs) i)
                      && (x || row_in_any (masks_for t fs) i))
                    (row-or e m i).1 (row-or e m i).0
                ∙ or_step (valid_row e i) (valid_row m i) (valid_in_all (masks_for t fs) i)
                    (row e i) (row m i) (row_in_any (masks_for t fs) i),
          )
  ]

  -- The masks of equal length that the selections have for a table are or-ed into one, in which a
  -- row is true exactly when it is true in one of them and null in none; without a mask there is no
  -- result.
  pub combine_masks-rows :
      (fs : List (Dict Mask))
      → All (λ m. length m ≡ n) (masks_for t fs)
      → ((masks_for t fs ≡ []) × (combine_masks K t fs none ≡ ok none))
        ⊎ ((m : Mask) × (combine_masks K t fs none ≡ ok (some m))
            × (length m ≡ n)
            × ((i : ℕ)
                → row m i ≡ valid_in_all (masks_for t fs) i && row_in_any (masks_for t fs) i))
  unfolding combine_masks
  combine_masks-rows [] all = inl (refl, refl)
  combine_masks-rows (f ∷ fs) all = elim (Option-cases (get t f)) [
    | inl other ↦
        rw (other, combine_masks, masks_for) (combine_masks-rows fs (rw (other, masks_for) at all))
    | inr (m, found) ↦
        let (m_len, rest) = rw (found, masks_for) at all in
        let (r, done, r_len, rows) = combine_from fs m m_len rest in
        rw (found, combine_masks, masks_for) (inr (r, done, r_len, rows))
  ]
