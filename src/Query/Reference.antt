-- ===== src/Query/Reference.antt =====
-- A concrete hash table and hash function: a list of entries, and the number of bytes as the hash,
-- under which many values collide.
use cherry_core.Base.{
  ℕ, ◌≡◌, refl, Bool, true, false, ◌&&◌, List, [], ◌∷◌, Option, none, some, length, ◌==◌,
  if◌then◌else◌, arith,
}
use cherry_core.Query.Hashing.{Hashing, HashingLaws, stores, has_entry}

abbrev search_entries : ℕ → (ℕ → Bool) → List (ℕ × ℕ) → Option ℕ
search_entries h eq [] = none
search_entries h eq ((k, v) ∷ es) = if (h == k) && eq v then some v else search_entries h eq es

unfoldable pub by_length : Hashing
by_length = record {
  Table = List (ℕ × ℕ);
  with_capacity = λ _. [];
  insert_unique = λ h v _ t. (h, v) ∷ t;
  find = search_entries;
  xxh3_64 = length;
}

search_stored :
    (h v : ℕ) (eq : ℕ → Bool) (t : List (ℕ × ℕ))
    → search_entries h eq t ≡ some v
    → (stores v t ≡ true) × (eq v ≡ true)
search_stored h v eq [] e = cc
search_stored h v eq ((k, w) ∷ t) e = ground (arith, search_stored h v eq t)

search_none :
    (h v : ℕ) (eq : ℕ → Bool) (t : List (ℕ × ℕ))
    → search_entries h eq t ≡ none
    → has_entry h v t ≡ true
    → eq v ≡ false
search_none h v eq [] e s = cc
search_none h v eq ((k, w) ∷ t) e s = ground (arith, search_none h v eq t)

pub by_length_laws : HashingLaws by_length
unfolding by_length
by_length_laws = record {
  entries = λ t. t;
  entries-with_capacity = λ n. refl;
  entries-insert_unique = λ h v f t same. refl;
  find_stored = search_stored;
  find_none = search_none;
}
