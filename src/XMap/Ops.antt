-- ===== src/XMap/Ops.antt =====
-- The calls of core/pkg/xmap/main.go as one step function on a receiver, against an abstract map:
-- a function from keys to optional values.
use skeyevss_backend_service.Prelude.{
  ℕ, ◌+◌, ◌≡◌, refl, ap, fun_ext, Bool, true, false, Option, none, some, List, [], ◌∷◌, Nodup,
  Comparable, ◌==◌, arith, if◌then◌else◌, length, inl, inr, Option-cases, ℤ, pos, negsuc,
}
use skeyevss_backend_service.GoMap.{GoMap, keys, lookup, insert, delete}
use skeyevss_backend_service.GoMap.Laws.{
  count_of, lookup-insert, lookup-delete, insert-Nodup, delete-Nodup, length-delete,
}
use skeyevss_backend_service.XMap.{
  XMap, new, set, get, remove, contains, get_or_set, set_if_absent, clear, len,
}
use mathlib.Core.List.{Nodup-nil}

pub data Op {ℓ κ} (K : Type ℓ) (V : Type κ) : Type (ℓ ⊔ κ) where
  sets : K → V → Op K V
  gets : K → Op K V
  removes : K → Op K V
  containing : K → Op K V
  gets_or_sets : K → V → Op K V
  sets_if_absent : K → V → Op K V
  clears : Op K V

-- What a call hands back.
pub data Reply {ℓ} (V : Type ℓ) : Type ℓ where
  nothing : Reply V
  found : Option V → Reply V
  value : V → Reply V
  flag : Bool → Reply V

abbrev is_some {ℓ} : {A : Type ℓ} → Option A → Bool
is_some none = false
is_some (some a) = true

-- The keys of the built-in map are distinct.
abbrev pub IsValid {ℓ κ} : {K : Type ℓ} {V : Type κ} → XMap K V → Type ℓ
IsValid x = Nodup (keys x.data_map)

module _ {ℓ κ} {K : Type ℓ} {V : Type κ} ⦃e : Comparable K⦄ where
  pub step : Op K V → Option (XMap K V) → Reply V × Option (XMap K V)
  step (sets k v) x = (nothing, set k v x)
  step (gets k) x = (found (get k x), x)
  step (removes k) x = (nothing, remove k x)
  step (containing k) x = (flag (contains k x), x)
  step (gets_or_sets k v) x = let (r, y) = get_or_set k v x in (value r, y)
  step (sets_if_absent k v) x = let (r, y) = set_if_absent k v x in (flag r, y)
  step clears x = (nothing, clear x)

  pub run : List (Op K V) → Option (XMap K V) → List (Reply V) × Option (XMap K V)
  run [] x = ([], x)
  run (o ∷ os) x = let (r, y) = step o x in let (rs, z) = run os y in (r ∷ rs, z)

  -- The promise: a function that is updated at one key.
  pub update : K → Option V → (K → Option V) → K → Option V
  update k o f j = if k == j then o else f j

  pub spec_step : Op K V → (K → Option V) → Reply V × (K → Option V)
  unfolding update
  spec_step (sets k v) f = (nothing, update k (some v) f)
  spec_step (gets k) f = (found (f k), f)
  spec_step (removes k) f = (nothing, update k none f)
  spec_step (containing k) f = (flag (is_some (f k)), f)
  spec_step (gets_or_sets k v) f = elim (f k) [
    | some w ↦ (value w, f)
    | none ↦ (value v, update k (some v) f)
  ]
  spec_step (sets_if_absent k v) f = elim (f k) [
    | some w ↦ (flag false, f)
    | none ↦ (flag true, update k (some v) f)
  ]
  spec_step clears f = (nothing, λ j. none)

  pub spec_run : List (Op K V) → (K → Option V) → List (Reply V) × (K → Option V)
  spec_run [] f = ([], f)
  spec_run (o ∷ os) f = let (r, g) = spec_step o f in let (rs, h) = spec_run os g in (r ∷ rs, h)

  abbrev pub view : XMap K V → K → Option V
  view x k = lookup k x.data_map

  -- One call on a live receiver answers as the promise does, and leaves its view in step.
  abbrev pub Agrees : Reply V × Option (XMap K V) → Reply V × (K → Option V) → Type (ℓ ⊔ κ)
  Agrees a b = (y : XMap K V) × (a.1 ≡ some y) × (a.0 ≡ b.0) × (view y ≡ b.1)

  view-insert :
      (k : K) (v : V) (m : GoMap K V)
      → (λ j. lookup j (insert k v m)) ≡ update k (some v) (λ j. lookup j m)
  unfolding update
  view-insert k v m = fun_ext λ j. lookup-insert k j v m

  view-delete :
      (k : K) (m : GoMap K V) → (λ j. lookup j (delete k m)) ≡ update k none (λ j. lookup j m)
  unfolding update
  view-delete k m = fun_ext λ j. lookup-delete k j m

  step-Agrees : (o : Op K V) (x : XMap K V) → Agrees (step o (some x)) (spec_step o (view x))
  unfolding step spec_step set get remove contains get_or_set set_if_absent clear lookup
  step-Agrees (sets k v) x = (_, refl, refl, view-insert k v x.data_map)
  step-Agrees (gets k) x = (x, refl, refl, refl)
  step-Agrees (removes k) x = (_, refl, refl, view-delete k x.data_map)
  step-Agrees (containing k) x = (x, refl, ground arith, refl)
  step-Agrees (gets_or_sets k v) x = elim (Option-cases (lookup k x.data_map)) [
    | inl e ↦ rw (e, get_or_set, spec_step) (_, refl, refl, view-insert k v x.data_map)
    | inr (w, e) ↦ rw (e, get_or_set, spec_step) (x, refl, refl, refl)
  ]
  step-Agrees (sets_if_absent k v) x = elim (Option-cases (lookup k x.data_map)) [
    | inl e ↦ rw (e, set_if_absent, spec_step) (_, refl, refl, view-insert k v x.data_map)
    | inr (w, e) ↦ rw (e, set_if_absent, spec_step) (x, refl, refl, refl)
  ]
  step-Agrees clears x = (_, refl, refl, refl)

  -- Any sequence of calls on a live receiver answers call by call as the abstract map does, from
  -- the view of the receiver, and leaves a live receiver whose view is the abstract map reached.
  pub run-refines :
      (os : List (Op K V)) (x : XMap K V)
      → (y : XMap K V) × ((run os (some x)).1 ≡ some y)
        × ((run os (some x)).0 ≡ (spec_run os (view x)).0)
        × (view y ≡ (spec_run os (view x)).1)
  unfolding run spec_run
  run-refines [] x = (x, refl, refl, refl)
  run-refines (o ∷ os) x =
      let s = step-Agrees o x in
      let ih = run-refines os s.0 in
      (
        ih.0,
        rw s.1 ih.1,
        rw (s.1, s.2, ← s.3) (ap (◌∷◌ (spec_step o (view x)).0) ih.2),
        rw (← s.3) ih.3,
      )

  -- On a nil receiver every call is allowed: it stays nil, nothing is found, and a default given
  -- to `GetOrSet` comes back.
  pub step-nil :
      (o : Op K V)
      → ((step o none).1 ≡ none)
        × ((k : K) → (get k (step o none).1 ≡ none) × (contains k (step o none).1 ≡ false))
        × ((k : K) (v : V) → (step (gets_or_sets k v) none).0 ≡ value v)
  unfolding step set get remove contains get_or_set set_if_absent clear
  step-nil (sets k v) = (refl, λ j. (refl, refl), λ j w. refl)
  step-nil _ = (refl, λ j. (refl, refl), λ j w. refl)

  -- The number of keys that a call adds, or finds there already.
  abbrev pub added : Op K V → ℕ
  added (sets k v) = 1
  added (gets_or_sets k v) = 1
  added (sets_if_absent k v) = 1
  added _ = 0

  -- The number that it takes away, or finds there already.
  abbrev pub dropped : Op K V → XMap K V → ℕ
  dropped (sets k v) x = count_of (get k (some x))
  dropped (removes k) x = count_of (get k (some x))
  dropped (gets_or_sets k v) x = count_of (get k (some x))
  dropped (sets_if_absent k v) x = count_of (get k (some x))
  dropped clears x = len (some x)
  dropped _ x = 0

  insert_counts :
      (k : K) (v : V) (m : GoMap K V)
      → Nodup (keys m)
      → length (insert k v m) + count_of (lookup k m) ≡ length m + 1
  unfolding insert
  insert_counts k v m d = omega (arith, length-delete k m d)

  -- A call on a live receiver keeps the keys distinct and leaves a live receiver whose `Len` has
  -- grown by the keys that the call adds, less those that it takes away or finds there already.
  pub step_counts :
      (o : Op K V) (x : XMap K V)
      → IsValid x
      → (y : XMap K V) × ((step o (some x)).1 ≡ some y)
        × IsValid y
        × (len (some y) + dropped o x ≡ len (some x) + added o)
  unfolding step set get remove contains get_or_set set_if_absent clear len
  step_counts (sets k v) x d =
      (_, refl, insert-Nodup k v x.data_map d, insert_counts k v x.data_map d)
  step_counts (gets k) x d = (x, refl, d, refl)
  step_counts (removes k) x d =
      (_, refl, delete-Nodup k x.data_map d, omega (arith, length-delete k x.data_map d))
  step_counts (containing k) x d = (x, refl, d, refl)
  step_counts (gets_or_sets k v) x d = elim (Option-cases (lookup k x.data_map)) [
    | inl e ↦
        rw (e, get_or_set)
          (_, refl, insert-Nodup k v x.data_map d, rw e at (insert_counts k v x.data_map d))
    | inr (w, e) ↦ rw (e, get_or_set) (x, refl, d, refl)
  ]
  step_counts (sets_if_absent k v) x d = elim (Option-cases (lookup k x.data_map)) [
    | inl e ↦
        rw (e, set_if_absent)
          (_, refl, insert-Nodup k v x.data_map d, rw e at (insert_counts k v x.data_map d))
    | inr (w, e) ↦ rw (e, set_if_absent) (x, refl, d, refl)
  ]
  step_counts clears x d = (_, refl, Nodup-nil, omega arith)

pub new-IsValid {ℓ κ} :
    (K : Type ℓ) (V : Type κ) (capacity : ℤ) → Nodup (keys (new {K = K} {V = V} capacity).data_map)
unfolding new
new-IsValid K V (pos n) = Nodup-nil
new-IsValid K V (negsuc n) = Nodup-nil

pub get-new {ℓ κ} :
    {K : Type ℓ} {V : Type κ} ⦃e : Comparable K⦄ (k : K) (capacity : ℤ)
    → get k (some (new {K = K} {V = V} capacity)) ≡ none
unfolding get new lookup
get-new k (pos n) = refl
get-new k (negsuc n) = refl
