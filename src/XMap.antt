-- ===== src/XMap.antt =====
-- core/pkg/xmap/main.go: a map behind a read-write lock. Each method holds the lock for its whole
-- body, so a method is one atomic step; `snapshot_records` is the only one that releases it before
-- its caller goes on. A receiver is a pointer: `none` is nil.
pub mod Ops
pub mod Snapshots
pub mod Keyed
pub mod Tests
use skeyevss_backend_service.Prelude.{
  ℕ, Bool, true, false, Option, none, some, List, [], ◌∷◌, map, Comparable, nat_beq, if◌then◌else◌,
  length, ℤ, pos, negsuc,
}
use skeyevss_backend_service.GoMap.{GoMap, RangeOrder, keys, values, lookup, insert, delete}

pub record XMap {ℓ κ} (K : Type ℓ) (V : Type κ) : Type (ℓ ⊔ κ) where
  pub data_map : GoMap K V
  pub cap_hint : ℕ

-- What a call may do that Go leaves to the caller: return, or panic on a nil receiver.
pub data Outcome {ℓ} (A : Type ℓ) : Type ℓ where
  returned : A → Outcome A
  panicked : Outcome A

-- A negative capacity counts as 0.
pub new {ℓ κ} : {K : Type ℓ} {V : Type κ} → ℤ → XMap K V
new (pos n) = record { data_map = []; cap_hint = n }
new (negsuc n) = record { data_map = []; cap_hint = 0 }

module _ {ℓ κ} {K : Type ℓ} {V : Type κ} ⦃e : Comparable K⦄ where
  pub set : K → V → Option (XMap K V) → Option (XMap K V)
  set key value none = none
  set key value (some x) = some (record x { data_map = insert key value x.data_map })

  -- The value and `true`, or the zero value and `false`, which is `none`.
  pub get : K → Option (XMap K V) → Option V
  get key none = none
  get key (some x) = lookup key x.data_map

  pub remove : K → Option (XMap K V) → Option (XMap K V)
  remove key none = none
  remove key (some x) = some (record x { data_map = delete key x.data_map })

  pub contains : K → Option (XMap K V) → Bool
  contains key none = false
  contains key (some x) = elim (lookup key x.data_map) [ some v ↦ true | none ↦ false ]

  pub get_or_set : K → V → Option (XMap K V) → V × Option (XMap K V)
  get_or_set key default_value none = (default_value, none)
  get_or_set key default_value (some x) = elim (lookup key x.data_map) [
    | some val ↦ (val, some x)
    | none ↦ (default_value, some (record x { data_map = insert key default_value x.data_map }))
  ]

  pub set_if_absent : K → V → Option (XMap K V) → Bool × Option (XMap K V)
  set_if_absent key value none = (false, none)
  set_if_absent key value (some x) = elim (lookup key x.data_map) [
    | some val ↦ (false, some x)
    | none ↦ (true, some (record x { data_map = insert key value x.data_map }))
  ]

  -- The loop of `AllCopy`: `result[k] = v` for each entry in the order of the range.
  pub copy_loop : List (K × V) → GoMap K V → GoMap K V
  copy_loop [] result = result
  copy_loop ((k, v) ∷ rest) result = copy_loop rest (insert k v result)

  -- Reads `x.mutex` before any nil test.
  pub all_copy : RangeOrder (K × V) → Option (XMap K V) → Outcome (GoMap K V)
  all_copy order none = panicked
  all_copy order (some x) =
      if nat_beq (length x.data_map) 0
      then returned []
      else returned (copy_loop (order.arrange x.data_map) [])

module _ {ℓ κ} {K : Type ℓ} {V : Type κ} where
  -- Reallocates with the hint given at construction.
  pub clear : Option (XMap K V) → Option (XMap K V)
  clear none = none
  clear (some x) = some (record x { data_map = [] })

  pub len : Option (XMap K V) → ℕ
  len none = 0
  len (some x) = length x.data_map

  -- The underlying map itself. Reads `x.mutex` before any nil test.
  pub all : Option (XMap K V) → Outcome (GoMap K V)
  all none = panicked
  all (some x) = returned x.data_map

  pub keys_of : RangeOrder (K × V) → Option (XMap K V) → List K
  keys_of order none = []
  keys_of order (some x) =
      if nat_beq (length x.data_map) 0 then [] else keys (order.arrange x.data_map)

  pub values_of : RangeOrder (K × V) → Option (XMap K V) → List V
  values_of order none = []
  values_of order (some x) =
      if nat_beq (length x.data_map) 0 then [] else values (order.arrange x.data_map)

  pub records : RangeOrder (K × V) → Option (XMap K V) → List (K × V)
  records order none = []
  records order (some x) = if nat_beq (length x.data_map) 0 then [] else order.arrange x.data_map

  -- `ForEach` calls it after its own nil test.
  pub snapshot_records : RangeOrder (K × V) → XMap K V → List (K × V)
  snapshot_records order x = if nat_beq (length x.data_map) 0 then [] else order.arrange x.data_map

  -- The calls of `fn` on a snapshot, one after the other. `fn` may change anything, this map too.
  pub visit {μ} : {S : Type μ} → (K → V → S → S) → List (K × V) → S → S
  visit fn [] s = s
  visit fn ((k, v) ∷ rest) s = visit fn rest (fn k v s)

  -- `S` is all the state that `fn` can reach, and `self` finds the receiver in it.
  pub for_each {μ} :
      {S : Type μ} → RangeOrder (K × V) → (S → Option (XMap K V)) → Option (K → V → S → S) → S → S
  unfolding snapshot_records visit
  for_each order self none s = s
  for_each order self (some fn) s = elim (self s) [
    | none ↦ s
    | some x ↦ visit fn (snapshot_records order x) s
  ]
