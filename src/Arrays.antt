-- ===== src/Arrays.antt =====
-- core/pkg/functions/array.go: helpers on slices. A nil slice and an empty one are both `[]`.
pub mod Unique
use skeyevss_backend_service.Prelude.{
  ℕ, ◌≡◌, Bool, true, false, Option, none, some, List, [], ◌∷◌, ◌++◌, map, Comparable, ◌==◌,
  if◌then◌else◌, length, nat_beq,
}
use skeyevss_backend_service.GoMap.{GoMap, lookup, insert, delete}

module _ {ℓ} {T : Type ℓ} ⦃e : Comparable T⦄ where
  unfoldable pub contains : T → List T → Bool
  contains x [] = false
  contains x (v ∷ arr) = if v == x then true else contains x arr

  -- The loop of `HasDuplicates`, with the set `seen`.
  pub duplicates_loop : List T → GoMap T (Unit {0}) → Bool
  duplicates_loop [] seen = false
  duplicates_loop (item ∷ rest) seen = elim (lookup item seen) [
    | some _ ↦ true
    | none ↦ duplicates_loop rest (insert item tt seen)
  ]

  unfoldable pub has_duplicates : List T → Bool
  unfolding duplicates_loop lookup insert delete
  has_duplicates arr = duplicates_loop arr []

module _ {ℓ κ} {T : Type ℓ} {K : Type κ} ⦃e : Comparable K⦄ where
  -- The loop of `ArrUniqueWithCall`, with the set `temp` and the slice `result`.
  pub unique_loop : (T → K) → List T → GoMap K (Unit {0}) → List T → List T
  unique_loop key [] temp result = result
  unique_loop key (v ∷ rest) temp result = elim (lookup (key v) temp) [
    | some _ ↦ unique_loop key rest temp result
    | none ↦ unique_loop key rest (insert (key v) tt temp) (result ++ v ∷ [])
  ]

  unfoldable pub arr_unique_with_call : List T → (T → K) → List T
  unfolding unique_loop lookup insert delete
  arr_unique_with_call data_list key =
      if nat_beq (length data_list) 0 then [] else unique_loop key data_list [] []

-- `ArrUnique` is the same loop with the element as its own key.
unfoldable pub arr_unique {ℓ} : {T : Type ℓ} ⦃e : Comparable T⦄ → List T → List T
unfolding unique_loop lookup insert delete
arr_unique data_list =
    if nat_beq (length data_list) 0 then [] else unique_loop (λ v. v) data_list [] []

module _ {ℓ} {T : Type ℓ} where
  filter_loop : (T → Bool) → List T → List T → List T
  filter_loop call [] result = result
  filter_loop call (v ∷ rest) result =
      filter_loop call rest (if call v then result ++ v ∷ [] else result)

  pub arr_filter : (T → Bool) → List T → List T
  unfolding filter_loop
  arr_filter call data_list =
      if nat_beq (length data_list) 0 then [] else filter_loop call data_list []

-- `MapArrUniqueWithCall` rewrites each value in place.
pub map_arr_unique_with_call {ℓ κ μ} :
    {K : Type ℓ} {T : Type κ} {J : Type μ} ⦃e : Comparable J⦄
    → GoMap K (List T)
    → (T → J)
    → GoMap K (List T)
unfolding arr_unique_with_call
map_arr_unique_with_call entries key = map (λ p. (p.0, arr_unique_with_call p.1 key)) entries
