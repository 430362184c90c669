-- ===== src/CSet.antt =====
-- core/pkg/set/main.go: a set behind a read-write lock, over `map[T]struct{}`. Each method is one
-- atomic step; `Range` and `Values` work on a copy of the elements. `none` is the nil receiver.
pub mod Contents
pub mod Tests
use skeyevss_backend_service.Prelude.{
  ℕ, Bool, true, false, Option, none, some, List, [], ◌∷◌, map, Comparable, nat_beq, if◌then◌else◌,
  length,
}
use skeyevss_backend_service.GoMap.{GoMap, RangeOrder, keys, lookup, insert, delete}

abbrev pub SetMap {ℓ} : Type ℓ → Type ℓ
SetMap T = GoMap T (Unit {0})

pub record CSet {ℓ} (T : Type ℓ) : Type ℓ where
  pub members : SetMap T

-- The hint is a capacity, which the contents do not show.
pub new {ℓ} : {T : Type ℓ} → ℕ → CSet T
new hint = record { members = [] }

module _ {ℓ} {T : Type ℓ} ⦃e : Comparable T⦄ where
  pub add_all : List T → SetMap T → SetMap T
  add_all [] s = s
  add_all (item ∷ rest) s = add_all rest (insert item tt s)

  pub add : List T → Option (CSet T) → Option (CSet T)
  unfolding add_all
  add elements none = none
  add [] (some m) = some m
  add (x ∷ elements) (some m) = some (record { members = add_all (x ∷ elements) m.members })

  pub remove_all : List T → SetMap T → SetMap T
  remove_all [] s = s
  remove_all (item ∷ rest) s = remove_all rest (delete item s)

  pub remove : List T → Option (CSet T) → Option (CSet T)
  unfolding remove_all
  remove elements none = none
  remove [] (some m) = some m
  remove (x ∷ elements) (some m) = some (record { members = remove_all (x ∷ elements) m.members })

  pub contains : T → Option (CSet T) → Bool
  contains ele none = false
  contains ele (some m) = elim (lookup ele m.members) [ some _ ↦ true | none ↦ false ]

  -- Deletes every key that the range visits.
  pub clear_loop : List T → SetMap T → SetMap T
  clear_loop [] s = s
  clear_loop (k ∷ rest) s = clear_loop rest (delete k s)

  pub clear : RangeOrder (T × Unit {0}) → Option (CSet T) → Option (CSet T)
  unfolding clear_loop
  clear order none = none
  clear order (some m) =
      some (record { members = clear_loop (keys (order.arrange m.members)) m.members })

module _ {ℓ} {T : Type ℓ} where
  pub is_empty : Option (CSet T) → Bool
  is_empty none = true
  is_empty (some m) = nat_beq (length m.members) 0

  pub size : Option (CSet T) → ℕ
  size none = 0
  size (some m) = length m.members

  pub snapshot_keys : RangeOrder (T × Unit {0}) → CSet T → List T
  snapshot_keys order m =
      if nat_beq (length m.members) 0 then [] else keys (order.arrange m.members)

  pub values : RangeOrder (T × Unit {0}) → Option (CSet T) → List T
  unfolding snapshot_keys
  values order none = []
  values order (some m) = snapshot_keys order m

  -- Calls `f` on the elements in turn until it answers `false`.
  pub visit {μ} : {S : Type μ} → (T → S → Bool × S) → List T → S → S
  visit f [] s = s
  visit f (k ∷ rest) s =
      let (go_on, s') = f k s in elim go_on [ true ↦ visit f rest s' | false ↦ s' ]

  pub range {μ} :
      {S : Type μ}
      → RangeOrder (T × Unit {0})
      → (S → Option (CSet T))
      → Option (T → S → Bool × S)
      → S
      → S
  unfolding snapshot_keys visit
  range order self none s = s
  range order self (some f) s = elim (self s) [
    | none ↦ s
    | some m ↦ visit f (snapshot_keys order m) s
  ]
