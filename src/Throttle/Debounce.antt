-- ===== src/Throttle/Debounce.antt =====
-- core/pkg/dt/debounce.go: a call waits in the map until the runner finds that its time has come.
use skeyevss_backend_service.Prelude.{ℕ, ◌+◌, ◌/◌, ◌||◌, List, [], ◌∷◌, if◌then◌else◌, nat_beq, leb}
use skeyevss_backend_service.Text.{Text}
use skeyevss_backend_service.Throttle.{ConcurrentMap, is_empty}

-- debounceType, with a number for the call.
pub record DebounceEntry : Type 0 where
  pub call : ℕ
  pub exec_time : ℕ

module _ (m : ConcurrentMap DebounceEntry) where
  -- Debounce of a call that is not nil; the interval in nanoseconds, not negative, the time in
  -- milliseconds.
  unfoldable pub debounce : Text → ℕ → ℕ → ℕ → m.Store → m.Store
  debounce unique_id interval call now s =
      let entry : DebounceEntry = record { call = call; exec_time = now + interval / 1000000 } in
      if is_empty unique_id || nat_beq interval 0 then s else m.set unique_id entry s

  abbrev pub first_call : ℕ → List ℕ × m.Store → List ℕ × m.Store
  first_call call (calls, s) = (call ∷ calls, s)

  -- The items of a tick of debounceRunner, read before the map is as it is: the calls that are made,
  -- and the map.
  unfoldable pub debounce_items : ℕ → List (Text × DebounceEntry) → m.Store → List ℕ × m.Store
  debounce_items t [] s = ([], s)
  debounce_items t ((unique_id, current) ∷ items) s =
      let others = debounce_items t items s in
      let after = debounce_items t items (m.remove unique_id s) in
      if leb current.exec_time t then first_call current.call after else others
