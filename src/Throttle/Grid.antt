-- ===== src/Throttle/Grid.antt =====
-- core/pkg/dt/throttle_fixed_grid.go: the state of one key of the throttle with a fixed grid. A
-- call is a number, and a time a number of nanoseconds. A key has an entry in the map, or none. A
-- call, a timer that fires and a round of the idle runner are one step each: the retries of a call
-- whose entry is removed at the same time, and a call between the flush of a timer and the removal,
-- are not modelled.
use skeyevss_backend_service.Prelude.{
  ℕ, ◌+◌, ◌-◌, ◌*◌, ◌/◌, Bool, true, false, ◌&&◌, Option, none, some, List, [], ◌∷◌, if◌then◌else◌,
  ltb,
}

-- throttleFixedGridEntry. A call that waits has its slot, `pendingSlot`, which is -1 without one;
-- the timer has its deadline, and the zero epoch is `none`.
pub record Entry : Type 0 where
  pub epoch : Option ℕ
  pub period : ℕ
  pub pending : Option (ℕ × ℕ)
  pub timer : Option ℕ

abbrev pub fresh_entry : Entry
fresh_entry = record { epoch = none; period = 0; pending = none; timer = none }

-- stopTimerUnlocked
abbrev pub stop_timer : Entry → Entry
stop_timer e = record e { timer = none }

abbrev pub origin : Option ℕ → ℕ
origin none = 0
origin (some t) = t

-- scheduleSlotEndUnlocked, with the time of the deadline, or the present when that is over.
abbrev pub schedule_slot_end : ℕ → ℕ → Entry → Entry
schedule_slot_end slot now e =
    let deadline = origin e.epoch + (slot + 1) * e.period in
    record e { timer = some (if ltb deadline now then now else deadline) }

abbrev pub call_of : Option (ℕ × ℕ) → List ℕ
call_of none = []
call_of (some (slot, call)) = call ∷ []

abbrev pub flushed : Entry → Option (ℕ × ℕ) → Entry
flushed e none = e
flushed e (some p) = stop_timer (record e { pending = none })

-- flushPendingLocked: the call to be made, if any, and the entry.
abbrev pub flush_pending : Entry → List ℕ × Entry
flush_pending e = (call_of e.pending, flushed e e.pending)

abbrev no_call : Option (ℕ × ℕ) → Bool
no_call none = true
no_call (some p) = false

abbrev no_timer : Option ℕ → Bool
no_timer none = true
no_timer (some t) = false

abbrev pub is_idle : Entry → Bool
is_idle e = no_call e.pending && no_timer e.timer

-- removeFixedGridEntryIfIdle, of the entry that its key has in the map, or of none.
unfoldable pub remove_if_idle : Option Entry → Option Entry
remove_if_idle none = none
remove_if_idle (some e) = if is_idle e then none else some e

-- onSlotTimerFire: the call that is made, and the entry that is left.
unfoldable pub on_slot_timer_fire : Entry → List ℕ × Option Entry
unfolding remove_if_idle
on_slot_timer_fire e = let flush = flush_pending e in (flush.0, remove_if_idle (some flush.1))

abbrev pub start_epoch : ℕ → ℕ → Option ℕ → Entry → Entry
start_epoch now period none e = record e { epoch = some now; period = period }
start_epoch now period (some t) e = record e { period = period }

-- The slot of a time.
abbrev pub slot_of : Entry → ℕ → ℕ
slot_of e now = (now - origin e.epoch) / e.period

-- A call of an earlier slot that waits is made at once.
abbrev pub catch_up : ℕ → Entry → Option (ℕ × ℕ) → List ℕ × Entry
catch_up slot e none = ([], e)
catch_up slot e (some (pending_slot, call)) =
    if ltb pending_slot slot then flush_pending (stop_timer e) else ([], e)

abbrev pub place : ℕ → ℕ → ℕ → List ℕ × Entry → List ℕ × Entry
place slot call now (calls, e) =
    (calls, schedule_slot_end slot now (record e { pending = some (slot, call) }))

-- SetIfAbsent, and Get if there is an entry.
abbrev pub present : Option Entry → Entry
present none = fresh_entry
present (some e) = e

-- ThrottleFixedGridTrailing of a call that is not nil, for a key: the calls that are made, and the
-- entry of the key in the map. A key that is empty and a period that is not positive are refused
-- before.
unfoldable pub throttle_fixed_grid_trailing : ℕ → ℕ → ℕ → Option Entry → List ℕ × Entry
throttle_fixed_grid_trailing period call now stored =
    let e = present stored in
    let started = start_epoch now period e.epoch e in
    let slot = slot_of started now in place slot call now (catch_up slot started started.pending)
