-- ===== src/Query/Engine/Cache.antt =====
-- The cache of join keys in `run_table_selection` (query/src/lib.rs).
use cherry_core.Base.{
  ℕ, ◌+◌, ◌≡◌, refl, true, not, List, [], ◌∷◌, some, Result, ok, err, ◌>>=◌, length, ◌==◌,
  if◌then◌else◌, String, Bool-cases, Option-cases, Result-cases, inl, inr, arith, ◌⊎◌,
}
use text.Mathlib.TextEquality.{eq_iff}
use cherry_core.Base.Dict.{Dict, get}
use cherry_core.Arrow.Data.{Array, Mask, RecordBatch}
use cherry_core.Arrow.Kernels.{Kernels}
use cherry_core.Query.Hashing.{Hashing}
use cherry_core.Query.Filter.{Error, missing_table, field_names_differ, Contains}
use cherry_core.Query.Engine.{
  join_into, Include, or_error, columns_to_binary_array, names_eq, Cache, cached, selected_keys,
  keys_via_cache, run_includes,
}

names_eq-eq : (xs ys : List String) → names_eq xs ys ≡ true → xs ≡ ys
names_eq-eq [] [] h = refl
names_eq-eq [] (y ∷ ys) h = cc
names_eq-eq (x ∷ xs) [] h = cc
names_eq-eq (x ∷ xs) (y ∷ ys) h = ground (arith, eq_iff x y, names_eq-eq xs ys)

some_inj {ℓ} : {A : Type ℓ} {a b : A} → some a ≡ some b → a ≡ b
some_inj h = cc

module _ (H : Hashing) (K : Kernels) (tables : Dict RecordBatch) (table_data : RecordBatch)
    (combined : Mask) where
  -- The loop without a cache: the join keys are made anew for every join.
  unfoldable pub run_includes_uncached : ℕ → List Include → Dict Mask → Result Error (Dict Mask)
  run_includes_uncached i [] out = ok out
  run_includes_uncached i (inc ∷ incs) out =
      if not (length inc.other_table_field_names == length inc.field_names)
      then err (field_names_differ i (length inc.field_names) (length inc.other_table_field_names))
      else do
        other_table_data ←
            or_error (missing_table inc.other_table_name) (get inc.other_table_name tables)
        self_arr ← columns_to_binary_array K table_data inc.field_names
        ct ← selected_keys H K self_arr combined
        out' ← join_into H K ct other_table_data inc out
        run_includes_uncached (i + 1) incs out'

  -- The keys that a list of field names has.
  keys_of : List String → Result Error (Contains H)
  keys_of names = do
    self_arr ← columns_to_binary_array K table_data names
    selected_keys H K self_arr combined

  -- Each entry of the cache is what would be made anew.
  IsFresh : Cache H K → Type 0
  IsFresh [] = Unit
  IsFresh ((names, ct) ∷ cache) = (keys_of names ≡ ok ct) × IsFresh cache

  cached-IsFresh :
      (names : List String) (cache : Cache H K) (ct : Contains H)
      → IsFresh cache
      → cached H K names cache ≡ some ct
      → keys_of names ≡ ok ct
  unfolding cached IsFresh
  cached-IsFresh names [] ct fresh e = cc
  cached-IsFresh names ((ns, c) ∷ cache) ct fresh e = elim (Bool-cases (names_eq ns names)) [
    | inl h ↦
        let same : c ≡ ct = some_inj (rw h at e) in rw (← names_eq-eq ns names h, ← same) fresh.0
    | inr h ↦ cached-IsFresh names cache ct fresh.1 (rw h at e)
  ]

  -- A step through a fresh cache gives the keys that are made anew, and a fresh cache.
  keys_step :
      (names : List String) (self_arr : Array) (cache : Cache H K)
      → IsFresh cache
      → columns_to_binary_array K table_data names ≡ ok self_arr
      → ((ct : Contains H) × (cache' : Cache H K) × (keys_via_cache H K combined names self_arr
              (cached H K names cache)
              cache
            ≡ ok (ct, cache'))
          × (selected_keys H K self_arr combined ≡ ok ct)
          × IsFresh cache')
        ⊎ ((e : Error) × (keys_via_cache H K combined names self_arr (cached H K names cache) cache
              ≡ err e)
            × (selected_keys H K self_arr combined ≡ err e))
  unfolding keys_via_cache IsFresh keys_of
  keys_step names self_arr cache fresh arr = elim (Option-cases (cached H K names cache)) [
    | inl miss ↦ elim (Result-cases (selected_keys H K self_arr combined)) [
      | inl (ct, r) ↦ inl (ct, (names, ct) ∷ cache, rw (miss, r), r, (rw arr r, fresh))
      | inr (e, r) ↦ inr (e, rw (miss, r), r)
    ]
    | inr (ct, hit) ↦
        inl (ct, cache, rw hit, rw arr at (cached-IsFresh names cache ct fresh hit), fresh)
  ]

  run_includes-fresh :
      (i : ℕ) (incs : List Include) (cache : Cache H K) (out : Dict Mask)
      → IsFresh cache
      → run_includes H K tables table_data combined i incs cache out
        ≡ run_includes_uncached i incs out
  unfolding run_includes_uncached run_includes
  run_includes-fresh i [] cache out fresh = refl
  run_includes-fresh i (inc ∷ incs) cache out fresh =
      elim (Bool-cases (length inc.other_table_field_names == length inc.field_names)) [
        | inr differ ↦ rw differ
        | inl equal ↦
            rw equal
              (elim (Result-cases
                (or_error (missing_table inc.other_table_name) (get inc.other_table_name tables))) [
                  | inr (e, r) ↦ rw r
                  | inl (other, r) ↦
                      rw r
                        (elim (Result-cases
                          (columns_to_binary_array K table_data inc.field_names)) [
                            | inr (e, arr) ↦ rw arr
                            | inl (self_arr, arr) ↦
                                rw arr (elim (keys_step inc.field_names self_arr cache fresh arr) [
                                  | inr (e, k, same) ↦ rw (k, same)
                                  | inl (ct, cache', k, same, fresh') ↦
                                      rw (k, same)
                                        (elim (Result-cases (join_into H K ct other inc out)) [
                                          | inr (e, j) ↦ rw j
                                          | inl (out', j) ↦
                                              rw j
                                                (run_includes-fresh (i + 1) incs cache' out' fresh')
                                        ])
                                ])
                          ])
                ])
      ]

  -- The joins of a selection give the same masks, or the same error, as a loop that makes the keys
  -- of the selected rows anew for every join.
  pub run_includes-eq-uncached :
      (i : ℕ) (incs : List Include) (out : Dict Mask)
      → run_includes H K tables table_data combined i incs [] out ≡ run_includes_uncached i incs out
  unfolding IsFresh
  run_includes-eq-uncached i incs out = run_includes-fresh i incs [] out tt
