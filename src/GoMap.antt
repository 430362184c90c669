-- ===== src/GoMap.antt =====
-- Go's built-in map type as an association list, and the order in which `range` visits it.
pub mod Laws
use skeyevss_backend_service.Prelude.{
  ℕ, ◌≡◌, Bool, true, false, Option, none, some, List, [], ◌∷◌, map, Perm, Comparable, ◌==◌,
  if◌then◌else◌, length,
}

-- A map holds each key at most once; `insert` and `delete` keep it so (`Laws`).
abbrev pub GoMap {ℓ κ} : Type ℓ → Type κ → Type (ℓ ⊔ κ)
GoMap K V = List (K × V)

abbrev pub keys {ℓ κ} : {K : Type ℓ} {V : Type κ} → GoMap K V → List K
keys = map (λ e. e.0)

abbrev pub values {ℓ κ} : {K : Type ℓ} {V : Type κ} → GoMap K V → List V
values = map (λ e. e.1)

module _ {ℓ κ} {K : Type ℓ} {V : Type κ} ⦃e : Comparable K⦄ where
  -- `v, ok := m[k]`: `none` is `ok == false`.
  unfoldable pub lookup : K → GoMap K V → Option V
  lookup k [] = none
  lookup k ((j, v) ∷ m) = if j == k then some v else lookup k m

  -- `delete(m, k)`.
  unfoldable pub delete : K → GoMap K V → GoMap K V
  delete k [] = []
  delete k ((j, v) ∷ m) = let rest = delete k m in if j == k then rest else (j, v) ∷ rest

  -- `m[k] = v`.
  unfoldable pub insert : K → V → GoMap K V → GoMap K V
  insert k v m = (k, v) ∷ delete k m

-- The order in which `range` visits the entries of a map. Go leaves it open, so what a loop over a
-- map does is stated for every such order.
pub record RangeOrder {ℓ} (E : Type ℓ) : Type ℓ where
  pub arrange : List E → List E
  pub arrange-perm : (l : List E) → Perm (arrange l) l
