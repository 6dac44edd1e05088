-- ===== src/StdMap.antt =====
-- `std::map<unsigned long, V>`: its entries in ascending order of the keys. An iterator is the rest
-- of the map from the entry that it stands at, so that `[]` is `end()`.
pub mod Order
pub mod Middle
use rrpg.Common.{ℕ, ltb, ◌==◌, if◌then◌else◌, List, [], ◌∷◌, Option, none, some, map}

module _ {ℓ} {V : Type ℓ} where
  -- `find` as an iterator
  unfoldable pub find : ℕ → List (ℕ × V) → List (ℕ × V)
  find k [] = []
  find k ((j, v) ∷ m) = if j == k then (j, v) ∷ m else find k m

  -- `find` followed by `it->second`
  unfoldable pub lookup : ℕ → List (ℕ × V) → Option V
  lookup k [] = none
  lookup k ((j, v) ∷ m) = if j == k then some v else lookup k m

  -- `emplace` leaves a key that is there alone.
  unfoldable pub emplace : ℕ → V → List (ℕ × V) → List (ℕ × V)
  emplace k v [] = (k, v) ∷ []
  emplace k v ((j, w) ∷ m) =
      if ltb k j then (k, v) ∷ (j, w) ∷ m else if j == k then (j, w) ∷ m else (j, w) ∷ emplace k v m

  -- A write through a reference to the value of a key.
  unfoldable pub adjust : ℕ → (V → V) → List (ℕ × V) → List (ℕ × V)
  adjust k f [] = []
  adjust k f ((j, v) ∷ m) = if j == k then (j, f v) ∷ m else (j, v) ∷ adjust k f m

  -- `for (auto& it : m) f(it.second)`
  unfoldable pub for_each : (V → V) → List (ℕ × V) → List (ℕ × V)
  for_each f [] = []
  for_each f ((j, v) ∷ m) = (j, f v) ∷ for_each f m

  abbrev pub keys : List (ℕ × V) → List ℕ
  keys [] = []
  keys ((j, v) ∷ m) = j ∷ keys m
