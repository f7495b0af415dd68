-- ===== src/Svm/ArrowConverter/Rows.antt =====
-- The loops over rows in svm-decode/src/arrow_converter.rs.
use cherry_core.Base.{
  ℕ, suc, ◌+◌, ◌≤◌, ◌≡◌, refl, ap, true, List, [], ◌∷◌, ◌++◌, Option, none, some, Result, ok, All,
  length, replicate, arith, ◌==◌, ==_iff,
}
use cherry_core.Arrow.Builders.{sum}
use cherry_core.Svm.ArrowConverter.Offsets.{
  count_elements, elements_of_named, elements_of_rows, elements-rows_of, ≤-greater,
}
use cherry_core.Svm.Types.{
  DynValue, Values, NamedValues, struct, array, option, no_named, named, no_values, value, no_value,
  some_value,
}
use cherry_core.Svm.ArrowConverter.{Error, append_rows}
use cherry_core.Svm.ArrowConverter.Nested.{
  push_null_list, push_list, rows_of, count_values, count_named, ListParts, list_parts, push_values,
  push_nulls, struct_columns, option_rows,
}
use cherry_core.Svm.ArrowConverter.Typed.{AllValues, ListOf, OptionOf, RowHas, StructOf}

-- A null, or a value of which `P` holds.
abbrev pub RowOf : (DynValue → Type 0) → Option DynValue → Type 0
RowOf P none = Unit
RowOf P (some v) = P v

-- The columns of a struct, with `n` rows each and at most `m` elements.
abbrev pub ColsHave : ℕ → ℕ → List (DynValue → Type 0) → List (List (Option DynValue)) → Type 0
ColsHave n m [] [] = Unit
ColsHave n m (P ∷ Ps) (col ∷ cols) =
    All (RowOf P) col × (length col ≡ n) × (elements_of_rows col ≤ m) × ColsHave n m Ps cols
ColsHave n m _ _ = ⊥

pub append_rows-ok {ℓ} :
    {A : Type ℓ} (P : DynValue → Type 0) (read : DynValue → Result Error A)
    → ((v : DynValue) → P v → (a : A) × (read v ≡ ok a))
    → (vs : List (Option DynValue)) → All (RowOf P) vs
    → (rows : List (Option A)) × (append_rows read vs ≡ ok rows) × (length rows ≡ length vs)
unfolding append_rows
append_rows-ok P read good [] h = ([], refl, refl)
append_rows-ok P read good (none ∷ vs) h =
    let (rows, done, len) = append_rows-ok P read good vs h.1 in
    (none ∷ rows, rw done refl, ap suc len)
append_rows-ok P read good (some v ∷ vs) h =
    let (a, e) = good v h.0 in
    let (rows, done, len) = append_rows-ok P read good vs h.1 in
    (some a ∷ rows, rw (e, done) refl, ap suc len)

pub option_rows-ok :
    (P : DynValue → Type 0) (vs : List (Option DynValue))
    → All (RowOf (OptionOf P)) vs
    → (rows : List (Option DynValue)) × (option_rows vs ≡ ok rows)
      × All (RowOf P) rows
      × (length rows ≡ length vs)
      × (elements_of_rows rows ≡ elements_of_rows vs)
unfolding option_rows elements_of_rows count_elements
option_rows-ok P [] h = ([], refl, tt, refl, refl)
option_rows-ok P (none ∷ vs) h =
    let (rows, done, all, len, size) = option_rows-ok P vs h.1 in
    (none ∷ rows, rw done refl, (tt, all), ap suc len, omega (arith, size))
option_rows-ok P (some (option no_value) ∷ vs) h =
    let (rows, done, all, len, size) = option_rows-ok P vs h.1 in
    (none ∷ rows, rw done refl, (tt, all), ap suc len, omega (arith, size))
option_rows-ok P (some (option (some_value v)) ∷ vs) h =
    let (rows, done, all, len, size) = option_rows-ok P vs h.1 in
    (some v ∷ rows, rw done refl, (h.0, all), ap suc len, ap (λ n. count_elements v + n) size)
option_rows-ok P (some _ ∷ vs) h = absurd h.0

rows_of-All :
    (P : DynValue → Type 0) (vs : Values) (rows : List (Option DynValue))
    → AllValues P vs
    → All (RowOf P) rows
    → All (RowOf P) (rows_of vs ++ rows)
      × (length (rows_of vs ++ rows) ≡ count_values vs + length rows)
rows_of-All P no_values rows h k = (k, omega arith)
rows_of-All P (value v vs) rows h k =
    let (all, len) = rows_of-All P vs rows h.1 k in ((h.0, all), omega (arith, len))

-- What the loop of `to_list` fills fits together.
pub record PartsFit (P : DynValue → Type 0) (n : ℕ) (m : ℕ) (p : ListParts) : Type 0 where
  pub all_inner : All (RowOf P) p.inner_values
  pub counted : length p.inner_values ≡ sum p.lengths
  pub all_lengths : length p.lengths ≡ n
  pub all_bits : length p.validity ≡ n
  pub all_elements : sum p.lengths + elements_of_rows p.inner_values ≡ m

pub list_parts-ok :
    (P : DynValue → Type 0) (vs : List (Option DynValue))
    → All (RowOf (ListOf P)) vs
    → (p : ListParts) × (list_parts vs ≡ ok p) × PartsFit P (length vs) (elements_of_rows vs) p
unfolding list_parts elements_of_rows count_elements
list_parts-ok P [] h = (
  _,
  refl,
  record {
    all_inner = tt;
    counted = refl;
    all_lengths = refl;
    all_bits = refl;
    all_elements = refl;
  },
)
list_parts-ok P (none ∷ vs) h =
    let (p, done, fit) = list_parts-ok P vs h.1 in
    (
      push_null_list p,
      rw done refl,
      record {
        all_inner = fit.all_inner;
        counted = omega (arith, fit.counted);
        all_lengths = ap suc fit.all_lengths;
        all_bits = ap suc fit.all_bits;
        all_elements = omega (arith, fit.all_elements);
      },
    )
list_parts-ok P (some (array inner) ∷ vs) h =
    let (p, done, fit) = list_parts-ok P vs h.1 in
    let (all, len) = rows_of-All P inner p.inner_values h.0 fit.all_inner in
    (
      push_list inner p,
      rw done refl,
      record {
        all_inner = all;
        counted = omega (arith, fit.counted, len);
        all_lengths = ap suc fit.all_lengths;
        all_bits = ap suc fit.all_bits;
        all_elements = omega (arith, fit.all_elements, elements-rows_of inner p.inner_values);
      },
    )
list_parts-ok P (some _ ∷ vs) h = absurd h.0

empty_columns : (m : ℕ) (Ps : List (DynValue → Type 0)) → ColsHave 0 m Ps (replicate (length Ps) [])
unfolding elements_of_rows
empty_columns m [] = tt
empty_columns m (P ∷ Ps) = (tt, refl, omega arith, empty_columns m Ps)

push_nulls-ColsHave :
    (n m : ℕ) (Ps : List (DynValue → Type 0)) (cols : List (List (Option DynValue)))
    → ColsHave n m Ps cols
    → ColsHave (suc n) m Ps (push_nulls cols)
unfolding elements_of_rows
push_nulls-ColsHave n m [] [] h = tt
push_nulls-ColsHave n m [] (c ∷ cols) h = absurd h
push_nulls-ColsHave n m (P ∷ Ps) [] h = absurd h
push_nulls-ColsHave n m (P ∷ Ps) (c ∷ cols) (all, len, size, h) =
    ((tt, all), ap suc len, size, push_nulls-ColsHave n m Ps cols h)

push_values-ColsHave :
    (n m k : ℕ) (Ps : List (DynValue → Type 0)) (vs : NamedValues)
    (cols : List (List (Option DynValue)))
    → RowHas Ps vs
    → elements_of_named vs ≤ k
    → ColsHave n m Ps cols
    → ColsHave (suc n) (k + m) Ps (push_values vs cols) × (length Ps ≡ count_named vs)
unfolding push_values elements_of_rows count_elements
push_values-ColsHave n m k [] no_named [] r b h = (tt, refl)
push_values-ColsHave n m k [] (named x v vs) cols r b h = absurd r
push_values-ColsHave n m k [] no_named (c ∷ cols) r b h = absurd h
push_values-ColsHave n m k (P ∷ Ps) no_named cols r b h = absurd r
push_values-ColsHave n m k (P ∷ Ps) (named x v vs) [] r b h = absurd h
push_values-ColsHave n m k (P ∷ Ps) (named x v vs) (c ∷ cols) (p, r) b (all, len, size, h) =
    let (first, others) = ≤-greater (count_elements v) (elements_of_named vs) in
    let (rest, count) = push_values-ColsHave n m k Ps vs cols r (omega (arith, b, others)) h in
    (((p, all), ap suc len, omega (arith, size, b, first), rest), ap suc count)

pub struct_columns-ok :
    (Ps : List (DynValue → Type 0)) (vs : List (Option DynValue))
    → All (RowOf (StructOf Ps)) vs
    → (cols : List (List (Option DynValue))) × (struct_columns (length Ps) vs ≡ ok cols)
      × ColsHave (length vs) (elements_of_rows vs) Ps cols
unfolding struct_columns elements_of_rows count_elements
struct_columns-ok Ps [] h = (_, refl, empty_columns 0 Ps)
struct_columns-ok Ps (none ∷ vs) h =
    let (cols, done, k) = struct_columns-ok Ps vs h.1 in
    (_, rw done refl, push_nulls-ColsHave (length vs) (elements_of_rows vs) Ps cols k)
struct_columns-ok Ps (some (struct inner) ∷ vs) h =
    let (cols, done, k) = struct_columns-ok Ps vs h.1 in
    let (pushed, count) =
      push_values-ColsHave (length vs) (elements_of_rows vs) (elements_of_named inner) Ps inner cols
        h.0 (omega arith) k in
    let same : (length Ps == count_named inner) ≡ true = (==_iff _ _).1 count in
    (_, rw (same, done) refl, pushed)
struct_columns-ok Ps (some _ ∷ vs) h = absurd h.0
