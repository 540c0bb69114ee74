-- ===== src/GoMap.antt =====
-- Go's `map[string]V` as a list of entries. A `range` over a map visits its entries in an order
-- that the language leaves open; here it is the order of the list, and the theorems are stated
-- for every list.
pub mod Laws
use gridlink.Prelude.{String, Bool, List, [], ◌∷◌, Option, none, some, str_eq, if◌then◌else◌, ◌≡◌}

abbrev pub GoMap {ℓ} : Type ℓ → Type ℓ
GoMap V = List (String × V)

module _ {ℓ} {V : Type ℓ} where
  -- `v, ok := m[k]`
  unfoldable pub get : String → GoMap V → Option V
  get k [] = none
  get k ((j, v) ∷ m) = if str_eq j k then some v else get k m

  -- `m[k] = v`
  unfoldable pub put : String → V → GoMap V → GoMap V
  put k v [] = (k, v) ∷ []
  put k v ((j, w) ∷ m) = if str_eq j k then (k, v) ∷ m else (j, w) ∷ put k v m

  -- `delete(m, k)`
  unfoldable pub delete : String → GoMap V → GoMap V
  delete k [] = []
  delete k ((j, w) ∷ m) = let rest = delete k m in if str_eq j k then rest else (j, w) ∷ rest

  unfoldable pub values : GoMap V → List V
  values [] = []
  values ((j, v) ∷ m) = v ∷ values m

  -- No key stands twice.
  abbrev pub Distinct : GoMap V → Type ℓ
  Distinct [] = Unit
  Distinct ((j, v) ∷ m) = (get j m ≡ none) × Distinct m

-- A loop over the map that assigns to each value in place.
unfoldable pub map_values {ℓ κ} : {V : Type ℓ} {W : Type κ} → (V → W) → GoMap V → GoMap W
map_values f [] = []
map_values f ((j, v) ∷ m) = (j, f v) ∷ map_values f m
