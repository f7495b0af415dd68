-- ===== src/Query/Filter/Membership.antt =====
-- The hash table of `Contains` (query/src/lib.rs) and the linear scan.
use cherry_core.Base.{
  ℕ, zero, suc, ◌+◌, ◌<◌, ◌≡◌, refl, sym, ap, ◌⊎◌, inl, inr, Bool, true, false, ◌||◌, ◌&&◌, List,
  [], ◌∷◌, none, some, Result, ok, err, length, get_elem?, leb, ◌==◌, arith, Bool-cases,
  Option-cases, is_some,
}
use mathlib.Core.Bool.{false≢true}
use cherry_core.Arrow.Data.{Scalar, num, bytes, flag, Array, is_nullable}
use cherry_core.Query.Hashing.{Hashing, HashingLaws, stores, has_entry}
use cherry_core.Query.Filter.{
  Error, Layout, layout_of, bytes_eq, scalar_eq, any, value_at, hash_one, fill, Contains,
  new_contains, contains_value,
}

pub bytes_eq-eq : (a b : List ℕ) → bytes_eq a b ≡ true → a ≡ b
bytes_eq-eq [] [] h = refl
bytes_eq-eq [] (y ∷ ys) h = cc
bytes_eq-eq (x ∷ xs) [] h = cc
bytes_eq-eq (x ∷ xs) (y ∷ ys) h = ground (arith, bytes_eq-eq xs ys)

pub scalar_eq-eq : (a b : Scalar) → scalar_eq a b ≡ true → a ≡ b
scalar_eq-eq (num a) (num b) h = ground arith
scalar_eq-eq (bytes a) (bytes b) h = ap bytes (bytes_eq-eq a b h)
scalar_eq-eq (flag true) (flag true) h = refl
scalar_eq-eq (flag true) (flag false) h = cc
scalar_eq-eq (flag false) (flag true) h = cc
scalar_eq-eq (flag false) (flag false) h = refl
scalar_eq-eq (num a) (bytes b) h = cc
scalar_eq-eq (num a) (flag b) h = cc
scalar_eq-eq (bytes a) (num b) h = cc
scalar_eq-eq (bytes a) (flag b) h = cc
scalar_eq-eq (flag true) (num b) h = cc
scalar_eq-eq (flag false) (num b) h = cc
scalar_eq-eq (flag true) (bytes b) h = cc
scalar_eq-eq (flag false) (bytes b) h = cc

module _ {ℓ} {A : Type ℓ} (p : A → Bool) where
  -- `any` holds exactly when the test does at some index.
  pub any_at :
      (xs : List A) (i : ℕ) {x : A} → get_elem? xs i ≡ some x → p x ≡ true → any p xs ≡ true
  any_at [] i e h = cc
  any_at (y ∷ xs) zero e h = ground arith
  any_at (y ∷ xs) (suc i) e h = ground (arith, any_at xs i e h)

  pub any_found :
      (xs : List A) → any p xs ≡ true → (i : ℕ) × (x : A) × (get_elem? xs i ≡ some x) × (p x ≡ true)
  any_found [] h = absurd (cc)
  any_found (y ∷ xs) h = elim (Bool-cases (p y)) [
    | inl e ↦ (0, y, refl, e)
    | inr e ↦ let (i, x, at, holds) = any_found xs (ground arith) in (suc i, x, at, holds)
  ]

module _ (H : Hashing) (L : HashingLaws H) (layout : Layout) (all : List Scalar) where
  open L use {entries, entries-with_capacity, entries-insert_unique, find_stored, find_none}

  -- The table after one round of the loop.
  abbrev inserted : ℕ → Scalar → H.Table → H.Table
  inserted i x t =
      H.insert_unique (hash_one H layout x) i (λ j. hash_one H layout (value_at H all j)) t

  -- The rest of the values from index `i` on, and a table that holds values under their hashes.
  record IsFilling (i : ℕ) (vs : List Scalar) (t : H.Table) : Type 0 where
    at_index : (j : ℕ) (x : Scalar) → get_elem? vs j ≡ some x → value_at H all (i + j) ≡ x
    hashed : (k w : ℕ) → has_entry k w (entries t) ≡ true → hash_one H layout (value_at H all w) ≡ k

  entries-inserted :
      {i : ℕ} {x : Scalar} {vs : List Scalar} {t : H.Table}
      → IsFilling i (x ∷ vs) t
      → entries (inserted i x t) ≡ (hash_one H layout x, i) ∷ entries t
  entries-inserted {i} {x} {vs} {t} f = entries-insert_unique (hash_one H layout x) i _ t f.hashed

  inserted-IsFilling :
      (i : ℕ) (x : Scalar) (vs : List Scalar) (t : H.Table)
      → IsFilling i (x ∷ vs) t
      → IsFilling (i + 1) vs (inserted i x t)
  inserted-IsFilling i x vs t f = record {
    at_index = λ j y e.
        let shift : i + suc j ≡ i + 1 + j = omega arith in rw shift at (f.at_index (suc j) y e);
    hashed = λ k w e. elim (Bool-cases ((k == hash_one H layout x) && (w == i))) [
      | inl new ↦
          let here : k ≡ hash_one H layout x = ground (arith, new) in
          let index : w ≡ i + 0 = ground (arith, new) in rw (index, f.at_index 0 x refl) (sym here)
      | inr old ↦ f.hashed k w (rw old at (rw (entries-inserted f) at e))
    ];
  }

  -- Filling keeps what the table holds.
  has_entry-fill :
      (h v i : ℕ) (vs : List Scalar) (t : H.Table)
      → IsFilling i vs t
      → has_entry h v (entries t) ≡ true
      → has_entry h v (entries (fill H layout all i vs t)) ≡ true
  unfolding fill
  has_entry-fill h v i [] t f e = e
  has_entry-fill h v i (x ∷ vs) t f e =
      has_entry-fill h v (i + 1) vs _ (inserted-IsFilling i x vs t f)
        (rw (entries-inserted f) (ground arith))

  -- Each value goes into the table under its hash, with its index.
  fill_indexed :
      (i j : ℕ) (vs : List Scalar) (t : H.Table) (x : Scalar)
      → IsFilling i vs t
      → get_elem? vs j ≡ some x
      → has_entry (hash_one H layout x) (i + j) (entries (fill H layout all i vs t)) ≡ true
  unfolding fill
  fill_indexed i j [] t x f e = cc
  fill_indexed i zero (y ∷ vs) t x f e =
      let same : y ≡ x = cc in
      has_entry-fill (hash_one H layout x) (i + 0) (i + 1) vs _ (inserted-IsFilling i y vs t f)
        (rw (entries-inserted f, same) (ground arith))
  fill_indexed i (suc j) (y ∷ vs) t x f e =
      let shift : i + suc j ≡ i + 1 + j = omega arith in
      rw shift (fill_indexed (i + 1) j vs _ x (inserted-IsFilling i y vs t f) e)

  fill_whole :
      (j : ℕ) (x : Scalar) (t : H.Table)
      → IsFilling 0 all t
      → get_elem? all j ≡ some x
      → has_entry (hash_one H layout x) j (entries (fill H layout all 0 all t)) ≡ true
  fill_whole j x t f e =
      let start : 0 + j ≡ j = omega arith in rw start at (fill_indexed 0 j all t x f e)

  -- Only the indices of the values go into the table.
  fill-stores :
      (i j : ℕ) (vs : List Scalar) (t : H.Table)
      → IsFilling i vs t
      → stores j (entries (fill H layout all i vs t)) ≡ true
      → (stores j (entries t) ≡ true) ⊎ (j < i + length vs)
  unfolding fill
  fill-stores i j [] t f e = inl e
  fill-stores i j (y ∷ vs) t f e =
      elim (fill-stores (i + 1) j vs _ (inserted-IsFilling i y vs t f) e) [
        | inl s ↦ first (rw (entries-inserted f) at s)
        | inr lt ↦ inr (omega arith)
      ]
    where
      first :
          (j == i) || stores j (entries t) ≡ true
          → (stores j (entries t) ≡ true) ⊎ (j < i + suc (length vs))
      first s = ground arith

-- The value at an index that is in range.
value_at_lt :
    (H : Hashing) (vs : List Scalar) (i : ℕ)
    → i < length vs
    → get_elem? vs i ≡ some (value_at H vs i)
unfolding value_at
value_at_lt H [] i h = absurd (omega arith)
value_at_lt H (v ∷ vs) zero h = refl
value_at_lt H (v ∷ vs) (suc i) h = value_at_lt H vs i (omega arith)

value_at-some :
    (H : Hashing) (vs : List Scalar) (i : ℕ) {x : Scalar}
    → get_elem? vs i ≡ some x
    → value_at H vs i ≡ x
unfolding value_at
value_at-some H vs i e = rw (e, value_at)

module _ (H : Hashing) (L : HashingLaws H) where
  open L use {entries, entries-with_capacity, find_stored, find_none}

  -- A lookup in the table of some values finds a value exactly when the scan of the values does.
  find-eq-any :
      (layout : Layout) (all : List Scalar) (v : Scalar)
      → is_some (
          H.find
            (hash_one H layout v)
            (λ j. scalar_eq (value_at H all j) v)
            (fill H layout all 0 all (H.with_capacity (length all))))
        ≡ any (λ x. scalar_eq x v) all
  find-eq-any layout all v = elim (Option-cases (H.find (hash_one H layout v) test table)) [
    | inl nothing ↦ rw nothing (sym (absent nothing))
    | inr (i, hit) ↦ rw hit (sym (present i (find_stored _ i test table hit)))
  ]
    where
      test : ℕ → Bool
      test j = scalar_eq (value_at H all j) v

      table : H.Table
      table = fill H layout all 0 all (H.with_capacity (length all))

      empty : IsFilling H L layout all 0 all (H.with_capacity (length all))
      empty = record {
        at_index =
            λ j x e. let start : 0 + j ≡ j = omega arith in rw start (value_at-some H all j e);
        hashed = λ k w e. absurd (false≢true (rw entries-with_capacity at e));
      }

      present :
          (i : ℕ)
          → (stores i (entries table) ≡ true) × (test i ≡ true)
          → any (λ x. scalar_eq x v) all ≡ true
      present i (s, t) =
          elim (fill-stores H L layout all 0 i all (H.with_capacity (length all)) empty s) [
            | inl old ↦ absurd (false≢true (rw entries-with_capacity at old))
            | inr lt ↦ any_at (λ x. scalar_eq x v) all i (value_at_lt H all i (omega arith)) t
          ]

      absent : H.find (hash_one H layout v) test table ≡ none → any (λ x. scalar_eq x v) all ≡ false
      absent nothing = elim (Bool-cases (any (λ x. scalar_eq x v) all)) [
        | inl e ↦
            let (i, x, at, holds) = any_found (λ x. scalar_eq x v) all e in
            let same : hash_one H layout x ≡ hash_one H layout v =
              ap (hash_one H layout) (scalar_eq-eq x v holds) in
            let stored =
              rw same at (fill_whole H L layout all i x (H.with_capacity (length all)) empty at) in
            let missed = find_none _ i test table nothing stored in
            absurd (false≢true (sym (rw (value_at-some H all i at, holds) at missed)))
        | inr e ↦ e
      ]

  -- The two forms of a new filter.
  new_contains_cases :
      (array : Array) (layout : Layout) (ct : Contains H)
      → layout_of array.data_type ≡ ok layout
      → new_contains H array ≡ ok ct
      → (ct ≡ record { array = array; hash_table = none })
        ⊎ (ct ≡ record {
          array = array;
          hash_table =
              some
                (fill H layout array.values 0 array.values (H.with_capacity (length array.values)));
        })
  unfolding new_contains
  new_contains_cases array layout ct l e = elim (Bool-cases (is_nullable array)) [
    | inl n ↦ absurd (ok_ne_err (sym (rw n at e)))
    | inr n ↦ elim (Bool-cases (leb 128 (length array.values))) [
      | inl big ↦ inr (ok_inj (sym (rw (n, big, l) at e)))
      | inr small ↦ inl (ok_inj (sym (rw (n, small) at e)))
    ]
  ]
    where
      ok_ne_err :
          {c : Contains H} {x : Error} → ◌≡◌ {A = Result Error (Contains H)} (ok c) (err x) → ⊥
      ok_ne_err h = cc

      ok_inj : {c d : Contains H} → ◌≡◌ {A = Result Error (Contains H)} (ok c) (ok d) → c ≡ d
      ok_inj h = cc

  -- A new filter has the array that it was made of, which has no nulls.
  pub new_contains-array :
      (array : Array) (layout : Layout) (ct : Contains H)
      → layout_of array.data_type ≡ ok layout
      → new_contains H array ≡ ok ct
      → (ct.array ≡ array) × (is_nullable array ≡ false)
  unfolding new_contains
  new_contains-array array layout ct l e = (
    elim (new_contains_cases array layout ct l e) [ inl scan ↦ rw scan | inr table ↦ rw table ],
    elim (Bool-cases (is_nullable array)) [ inl n ↦ absurd (not_ok (sym (rw n at e))) | inr n ↦ n ],
  )
    where
      not_ok : {c : Contains H} {x : Error} → ◌≡◌ {A = Result Error (Contains H)} (ok c) (err x) → ⊥
      not_ok h = cc

  -- A filter that `Contains::new` made of values of a type with a branch tests membership in them,
  -- by the hash table from 128 values on and by the scan below, whatever the hash function is.
  pub contains_value-new_contains :
      (array : Array) (layout : Layout) (ct : Contains H) (v : Scalar)
      → layout_of array.data_type ≡ ok layout
      → new_contains H array ≡ ok ct
      → contains_value H layout ct v ≡ any (λ x. scalar_eq x v) array.values
  unfolding contains_value
  contains_value-new_contains array layout ct v l e =
      elim (new_contains_cases array layout ct l e) [
        | inl scan ↦ rw scan
        | inr table ↦ rw table (find-eq-any layout array.values v)
      ]
