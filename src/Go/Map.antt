-- ===== src/Go/Map.antt =====
-- A Go map with string keys, as a list of its bindings. A write to a bound key keeps its place; a
-- `range` over the map, whose order Go leaves open, runs in the order of the list.
use stomp.Prelude.{
  ℕ, ◌≡◌, refl, List, [], ◌∷◌, Option, none, some, same, same_iff, if◌then◌else◌, arith,
}

abbrev pub Map {ℓ} : Type ℓ → Type ℓ
Map V = List (List ℕ × V)

module _ {ℓ} {V : Type ℓ} where
  unfoldable pub lookup : Map V → List ℕ → Option V
  lookup [] k = none
  lookup ((j, v) ∷ m) k = if same j k then some v else lookup m k

  unfoldable pub insert : Map V → List ℕ → V → Map V
  insert [] k v = (k, v) ∷ []
  insert ((j, w) ∷ m) k v = if same j k then (k, v) ∷ m else (j, w) ∷ insert m k v

  unfoldable pub delete : Map V → List ℕ → Map V
  delete [] k = []
  delete ((j, v) ∷ m) k = if same j k then delete m k else (j, v) ∷ delete m k

  pub lookup-insert :
      (m : Map V) (k j : List ℕ) (v : V)
      → lookup (insert m k v) j ≡ (if same k j then some v else lookup m j)
  unfolding lookup insert
  lookup-insert [] k j v = refl
  lookup-insert ((i, w) ∷ m) k j v =
      ground (arith, lookup-insert m k j v, same_iff i k, same_iff i j, same_iff k j)

  pub lookup-delete :
      (m : Map V) (k j : List ℕ) → lookup (delete m k) j ≡ (if same k j then none else lookup m j)
  unfolding lookup delete
  lookup-delete [] k j = ground arith
  lookup-delete ((i, w) ∷ m) k j =
      ground (arith, lookup-delete m k j, same_iff i k, same_iff i j, same_iff k j)
