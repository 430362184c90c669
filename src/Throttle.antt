-- ===== src/Throttle.antt =====
-- core/pkg/dt: throttling and debouncing of calls by a key. The concurrent map of
-- github.com/orcaman/concurrent-map is an interface. This file has the leading throttle of
-- throttle.go; Grid has throttle_fixed_grid.go and Debounce has debounce.go. The body of each lock
-- is one step, and a duration and a time are numbers of nanoseconds.
pub mod Spacing
pub mod Grid
pub mod Slots
pub mod Debounce
pub mod Quiet
pub mod Tests
use skeyevss_backend_service.Prelude.{
  ℕ, ◌+◌, ◌≡◌, ◌≢◌, Bool, true, false, ◌||◌, Option, none, some, List, [], ◌∷◌, if◌then◌else◌,
  nat_beq, ltb,
}
use skeyevss_backend_service.Text.{Text}

-- A concurrent map whose values are V, and what the code relies on. `mutate` is a write through a
-- pointer that the map holds.
pub record ConcurrentMap (V : Type 0) : Type 1 where
  pub Store : Type 0
  pub new : Store
  pub get : Text → Store → Option V
  pub set : Text → V → Store → Store
  pub set_if_absent : Text → V → Store → Bool × Store
  pub remove : Text → Store → Store
  pub mutate : Text → V → Store → Store
  pub get-new : (k : Text) → get k new ≡ none
  pub get-set : (k : Text) (v : V) (s : Store) → get k (set k v s) ≡ some v
  pub get-set_other : (k i : Text) (v : V) (s : Store) → i ≢ k → get i (set k v s) ≡ get i s
  pub set_if_absent_new :
      (k : Text) (v : V) (s : Store) → get k s ≡ none → set_if_absent k v s ≡ (true, set k v s)
  pub set_if_absent_old :
      (k : Text) (v w : V) (s : Store) → get k s ≡ some w → set_if_absent k v s ≡ (false, s)
  pub mutate_lem : (k : Text) (v w : V) (s : Store) → get k s ≡ some w → mutate k v s ≡ set k v s
  pub get-remove : (k : Text) (s : Store) → get k (remove k s) ≡ none
  pub get-remove_other : (k i : Text) (s : Store) → i ≢ k → get i (remove k s) ≡ get i s

abbrev pub is_empty : Text → Bool
is_empty [] = true
is_empty (c ∷ s) = false

-- throttleEntry: `none` is the zero time.
pub record ThrottleEntry : Type 0 where
  pub last_exec : Option ℕ

-- The entry that holds no time yet.
abbrev pub new_entry : ThrottleEntry
new_entry = record { last_exec = none }

-- Whether the time of the last call and the duration let a call through.
abbrev pub is_free : Option ℕ → ℕ → ℕ → Bool
is_free none duration now = true
is_free (some last) duration now = if ltb now (last + duration) then false else true

module _ (m : ConcurrentMap ThrottleEntry) where
  -- The body under the lock of the entry: whether the call is made.
  abbrev pub throttle_entry : Text → ℕ → ℕ → ThrottleEntry → m.Store → Bool × m.Store
  throttle_entry unique_id duration now entry s =
      if is_free entry.last_exec duration now
      then (true, m.mutate unique_id (record entry { last_exec = some now }) s)
      else (false, s)

  abbrev pub throttle_old : Text → ℕ → ℕ → m.Store → Option ThrottleEntry → Bool × m.Store
  throttle_old unique_id duration now s none = (false, s)
  throttle_old unique_id duration now s (some entry) = throttle_entry unique_id duration now entry s

  abbrev pub throttle_with : Text → ℕ → ℕ → Bool × m.Store → Bool × m.Store
  throttle_with unique_id duration now (true, s) = throttle_entry unique_id duration now new_entry s
  throttle_with unique_id duration now (false, s) =
      throttle_old unique_id duration now s (m.get unique_id s)

  -- Throttle of a call that is not nil, with a duration that is not negative: whether it is made.
  unfoldable pub throttle : Text → ℕ → ℕ → m.Store → Bool × m.Store
  throttle unique_id duration now s =
      if is_empty unique_id || nat_beq duration 0
      then (false, s)
      else throttle_with unique_id duration now (m.set_if_absent unique_id new_entry s)
