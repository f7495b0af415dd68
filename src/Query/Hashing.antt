-- ===== src/Query/Hashing.antt =====
-- hashbrown's `HashTable` and xxhash: the interface that the filters use, and what its documentation says.
use cherry_core.Base.{
  ℕ, ◌≡◌, Bool, true, false, ◌==◌, ◌&&◌, ◌||◌, List, [], ◌∷◌, Option, none, some,
}

pub record Hashing : Type 1 where
  -- a table of indices into an array
  pub Table : Type 0
  pub with_capacity : ℕ → Table
  -- insert_unique(hash, value, hasher)
  pub insert_unique : ℕ → ℕ → (ℕ → ℕ) → Table → Table
  -- find(hash, eq)
  pub find : ℕ → (ℕ → Bool) → Table → Option ℕ
  pub xxh3_64 : List ℕ → ℕ

-- Whether a value, or a hash and a value together, stand in a list of entries.
abbrev pub stores : ℕ → List (ℕ × ℕ) → Bool
stores v [] = false
stores v ((_, w) ∷ es) = (v == w) || stores v es

abbrev pub has_entry : ℕ → ℕ → List (ℕ × ℕ) → Bool
has_entry h v [] = false
has_entry h v ((k, w) ∷ es) = ((h == k) && (v == w)) || has_entry h v es

-- `entries` are the pairs of a hash and a value that were inserted.
pub record HashingLaws (H : Hashing) : Type 1 where
  pub entries : H.Table → List (ℕ × ℕ)
  pub entries-with_capacity : (n : ℕ) → entries (H.with_capacity n) ≡ []
  -- The hasher gives each entry the hash that it was inserted with.
  pub entries-insert_unique :
      (h v : ℕ) (hasher : ℕ → ℕ) (t : H.Table)
      → ((k w : ℕ) → has_entry k w (entries t) ≡ true → hasher w ≡ k)
      → entries (H.insert_unique h v hasher t) ≡ (h, v) ∷ entries t
  -- `find` returns a value of the table for which the test holds.
  pub find_stored :
      (h v : ℕ) (eq : ℕ → Bool) (t : H.Table)
      → H.find h eq t ≡ some v
      → (stores v (entries t) ≡ true) × (eq v ≡ true)
  -- It tests every entry with the given hash before it gives up.
  pub find_none :
      (h v : ℕ) (eq : ℕ → Bool) (t : H.Table)
      → H.find h eq t ≡ none
      → has_entry h v (entries t) ≡ true
      → eq v ≡ false
