-- ===== src/Ingest/Known.antt =====
-- ingest/src/provider/common.rs against evm-schema/src/lib.rs and svm-schema/src/lib.rs: whether the names
-- that a query asks for are columns of the tables.
pub mod Evm
pub mod Svm
pub mod Converted
pub mod EvmFields
mod EvmTests
mod SvmTests
pub mod SvmFields
use mathlib.Core.Bool.{false≢true}
use cherry_core.Base.{
  refl, Bool-cases, inl, inr, map, All, String, Bool, true, false, ◌||◌, ◌&&◌, List, [], ◌∷◌, ◌≡◌,
  Option, none, some,
}
use cherry_core.Base.Dict.{Dict, get, str_eq}

abbrev pub has_name : String → List String → Bool
has_name name [] = false
has_name name (n ∷ ns) = str_eq n name || has_name name ns

abbrev pub has_names : List String → List String → Bool
has_names [] columns = true
has_names (n ∷ ns) columns = has_name n columns && has_names ns columns

abbrev pub has_columns : List String → Option (List String) → Bool
has_columns names none = false
has_columns names (some columns) = has_names names columns

-- The tables have one of that name, and it has all the columns.
abbrev pub Knows : Dict (List String) → String × List String → Type 0
Knows tables e = has_columns e.1 (get e.0 tables) ≡ true

-- Each of some names, if all are there.
pub has_names-All :
    {A : Type 0} (columns : List String) (es : List (String × A))
    → has_names (map (λ e. e.0) es) columns ≡ true
    → All (λ e. has_names (e.0 ∷ []) columns ≡ true) es
has_names-All columns [] h = tt
has_names-All columns ((n, a) ∷ es) h = elim (Bool-cases (has_name n columns)) [
  | inl there ↦ (rw there refl, has_names-All columns es (rw there at h))
  | inr missing ↦ absurd (false≢true (rw missing at h))
]
