-- ===== src/Throttle/Tests.antt =====
-- A concurrent map as a function, and runs of the throttles on it.
use skeyevss_backend_service.Prelude.{
  ◌≡◌, ◌≢◌, refl, Bool, true, false, Option, none, some, List, [], ◌∷◌, ◌++◌, if◌then◌else◌, arith,
}
use skeyevss_backend_service.Text.{Text, bytes, text_beq, text_beq_iff}
use skeyevss_backend_service.Throttle.{ConcurrentMap}
use skeyevss_backend_service.Throttle.Slots.{
  Event, called, fired, swept, run, left_over, last_calls, run-fresh,
}
use skeyevss_backend_service.Throttle.Debounce.{DebounceEntry, debounce, debounce_items}
use skeyevss_backend_service.Throttle.Quiet.{call_lost}

module _ (V : Type 0) where
  abbrev put : Text → V → (Text → Option V) → Text → Option V
  put k v s i = if text_beq i k then some v else s i

  abbrev put_absent : Text → V → (Text → Option V) → Option V → Bool × (Text → Option V)
  put_absent k v s none = (true, put k v s)
  put_absent k v s (some w) = (false, s)

  abbrev drop_key : Text → (Text → Option V) → Text → Option V
  drop_key k s i = if text_beq i k then none else s i

  differ : (i k : Text) → i ≢ k → text_beq i k ≡ false
  differ i k other = ground (arith, text_beq_iff i k)

  abbrev plain_map : ConcurrentMap V
  plain_map = record {
    Store = Text → Option V;
    new = λ i. none;
    get = λ k s. s k;
    set = put;
    set_if_absent = λ k v s. put_absent k v s (s k);
    remove = drop_key;
    mutate = put;
    get-new = λ k. refl;
    get-set = λ k v s. rw ((text_beq_iff k k).1 refl) refl;
    get-set_other = λ k i v s other. rw (differ i k other) refl;
    set_if_absent_new = λ k v s absent. rw absent refl;
    set_if_absent_old = λ k v w s held. rw held refl;
    mutate_lem = λ k v w s held. refl;
    get-remove = λ k s. rw ((text_beq_iff k k).1 refl) refl;
    get-remove_other = λ k i s other. rw (differ i k other) refl;
  }

abbrev events : List Event
events =
    called 1 100
    ∷ called 2 107
    ∷ called 3 112
    ∷ fired
    ∷ called 4 129
    ∷ swept
    ∷ called 5 131
    ∷ called 6 140
    ∷ []

run-fresh_example :
    (run 10 events none).0 ++ left_over (run 10 events none).1 ≡ last_calls 10 none events
run-fresh_example =
    run-fresh 10 100 events (omega arith)
      (omega arith, (omega arith, (omega arith, (omega arith, (omega arith, (omega arith, tt))))))

-- The slots count anew from 129, so that the call at 131 is in the slot of the one at 129.
grid_calls : last_calls 10 none events ≡ 2 ∷ 3 ∷ 5 ∷ 6 ∷ []
grid_calls = refl

abbrev held : List (Text × DebounceEntry)
held =
    (bytes "a", record { call = 1; exec_time = 100 })
    ∷ (bytes "b", record { call = 2; exec_time = 300 })
    ∷ []

call_lost_example :
    ((debounce_items (plain_map DebounceEntry) 200 held (
        debounce
          (plain_map DebounceEntry)
          (bytes "a")
          5000000
          9
          200
          (plain_map DebounceEntry).new)).0
      ≡ 1 ∷ [])
    × ((plain_map DebounceEntry).get
          (bytes "a")
          (debounce_items (plain_map DebounceEntry) 200 held (
            debounce
              (plain_map DebounceEntry)
              (bytes "a")
              5000000
              9
              200
              (plain_map DebounceEntry).new)).1
        ≡ none)
call_lost_example =
    call_lost (plain_map DebounceEntry) (bytes "a") 5000000 9 200 200 held
      (plain_map DebounceEntry).new refl
