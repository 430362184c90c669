-- ===== src/Throttle/Slots.antt =====
-- The calls that the fixed grid makes: the last one of each slot.
use skeyevss_backend_service.Prelude.{
  ℕ, ◌+◌, ◌-◌, ◌*◌, ◌/◌, ◌≤◌, ◌<◌, ◌≡◌, refl, ap, Bool, true, false, Option, none, some, List, [],
  ◌∷◌, ◌++◌, if◌then◌else◌, nat_beq, ltb, arith, Bool-cases, inl, inr,
}
use skeyevss_backend_service.Throttle.Grid.{
  Entry, call_of, remove_if_idle, on_slot_timer_fire, throttle_fixed_grid_trailing,
}

-- A call at a time; the timer of the entry; a round of the idle runner.
pub data Event : Type 0 where
  called : ℕ → ℕ → Event
  fired : Event
  swept : Event

-- A timer of an entry that is not in the map has nothing to make.
abbrev fire : Option Entry → List ℕ × Option Entry
unfolding on_slot_timer_fire
fire none = ([], none)
fire (some e) = on_slot_timer_fire e

-- The calls that are made, and the entry of the key, after events.
pub run : ℕ → List Event → Option Entry → List ℕ × Option Entry
unfolding fire
run period [] e = ([], e)
run period (called call now ∷ events) e =
    let a = throttle_fixed_grid_trailing period call now e in
    let b = run period events (some a.1) in (a.0 ++ b.0, b.1)
run period (fired ∷ events) e = let a = fire e in let b = run period events a.1 in (a.0 ++ b.0, b.1)
run period (swept ∷ events) e = run period events (remove_if_idle e)

-- The call that still waits.
abbrev pub left_over : Option Entry → List ℕ
left_over none = []
left_over (some e) = call_of e.pending

-- The times of the calls do not decrease, from a time on.
abbrev pub IsTimely : ℕ → List Event → Type 0
IsTimely t [] = Unit
IsTimely t (called call now ∷ events) = t ≤ now × IsTimely now events
IsTimely t (fired ∷ events) = IsTimely t events
IsTimely t (swept ∷ events) = IsTimely t events

-- A call that waits, with the time its slots count from and its own time.
pub record Waiting : Type 0 where
  pub since : ℕ
  pub at : ℕ
  pub call : ℕ

-- Whether a time is in the slot of the call that waits.
abbrev pub same_slot : ℕ → Waiting → ℕ → Bool
same_slot period w now = nat_beq ((w.at - w.since) / period) ((now - w.since) / period)

-- What is made of events: a call gives way to the next one of its slot, and is made when a call of
-- another slot comes, the timer fires, or the events end. The slots count from the first call, and
-- again from the first call after the timer has fired.
abbrev pub last_calls : ℕ → Option Waiting → List Event → List ℕ
last_calls period none [] = []
last_calls period (some w) [] = w.call ∷ []
last_calls period none (called call now ∷ events) =
    last_calls period (some (record { since = now; at = now; call = call })) events
last_calls period (some w) (called call now ∷ events) =
    let later =
      last_calls period (some (record { since = w.since; at = now; call = call })) events in
    if same_slot period w now then later else w.call ∷ later
last_calls period none (fired ∷ events) = last_calls period none events
last_calls period (some w) (fired ∷ events) = w.call ∷ last_calls period none events
last_calls period w (swept ∷ events) = last_calls period w events

div_mono : (m n p : ℕ) → 0 < p → m ≤ n → m / p ≤ n / p
div_mono m n p is_pos h = grind arith

not_same : (a b : ℕ) → ltb a b ≡ true → nat_beq a b ≡ false
not_same a b h = ground arith

same : (a b : ℕ) → a ≤ b → ltb a b ≡ false → nat_beq a b ≡ true
same a b h not_less = ground arith

module _ (period : ℕ) (is_pos : 0 < period) where
  -- The entry of a call that waits, with the deadline of its timer.
  abbrev entry : Option (Waiting × ℕ) → Option Entry
  entry none = none
  entry (some (w, deadline)) = some (record {
    epoch = some w.since;
    period = period;
    pending = some ((w.at - w.since) / period, w.call);
    timer = some deadline;
  })

  abbrev waiting : Option (Waiting × ℕ) → Option Waiting
  waiting none = none
  waiting (some (w, deadline)) = some w

  -- The times that come are not before that of the call that waits.
  abbrev Follows : Option (Waiting × ℕ) → List Event → Type 0
  Follows none events = (t : ℕ) × IsTimely t events
  Follows (some (w, deadline)) events = IsTimely w.at events

  -- The call that is placed, with its deadline.
  abbrev placed : ℕ → ℕ → ℕ → Option (Waiting × ℕ)
  placed since call now =
      let deadline = since + ((now - since) / period + 1) * period in
      some (
        record { since = since; at = now; call = call },
        if ltb deadline now then now else deadline,
      )

  run-entry :
      (w : Option (Waiting × ℕ)) (events : List Event)
      → Follows w events
      → (run period events (entry w)).0 ++ left_over (run period events (entry w)).1
        ≡ last_calls period (waiting w) events
  unfolding run throttle_fixed_grid_trailing on_slot_timer_fire remove_if_idle
  run-entry none [] timely = refl
  run-entry (some (w, d)) [] timely = refl
  run-entry none (called call now ∷ events) (t, timely) =
      run-entry (placed now call now) events timely.1
  run-entry (some (w, d)) (called call now ∷ events) timely =
      let k : ℕ = (w.at - w.since) / period in
      let l : ℕ = (now - w.since) / period in
      let below : k ≤ l =
        div_mono (w.at - w.since) (now - w.since) period is_pos (omega (arith, timely.0)) in
      let ih = run-entry (placed w.since call now) events timely.1 in
      elim (Bool-cases (ltb k l)) [
        | inl less ↦ rw (less, not_same k l less) (ap (λ c. w.call ∷ c) ih)
        | inr not_less ↦ rw (not_less, same k l below not_less) ih
      ]
  run-entry none (fired ∷ events) timely = run-entry none events timely
  run-entry (some (w, d)) (fired ∷ events) timely =
      ap (λ c. w.call ∷ c) (run-entry none events (w.at, timely))
  run-entry none (swept ∷ events) timely = run-entry none events timely
  run-entry (some (w, d)) (swept ∷ events) timely = run-entry (some (w, d)) events timely

-- For a key with no entry, with a period that is positive and stays the same, and times that do not
-- decrease, the calls that are made, and the one that still waits, are these: a call gives way to
-- the next one in its slot, and is made when a call of another slot comes or the timer fires. The
-- slots count from the first call, and after the timer has fired from the next call anew.
pub run-fresh :
    (period t : ℕ) (events : List Event)
    → 0 < period
    → IsTimely t events
    → (run period events none).0 ++ left_over (run period events none).1
      ≡ last_calls period none events
run-fresh period t events is_pos timely = run-entry period is_pos none events (t, timely)
