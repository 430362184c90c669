-- ===== src/Upload/Flush.antt =====
-- What a tick of the dispatcher does with the tasks in its buffers, and what a second start does.
use skeyevss_backend_service.Prelude.{
  ℕ, ◌+◌, ◌≤◌, ◌≡◌, refl, sym, ◌∙◌, Bool, true, false, some, List, [], ◌∷◌, ◌++◌, if◌then◌else◌,
  length, length-append, length-perm, ltb, arith, Bool-cases, inl, inr, lt→ltb,
}
use mathlib.Core.List.{append-nil, append_assoc}
use skeyevss_backend_service.XMap.{Outcome, returned, panicked}
use skeyevss_backend_service.Upload.{
  Task, LogLine, task_delayed, Queue, Sorting, is_urgent, task_capacity, priority_capacity,
  working_capacity,
}
use skeyevss_backend_service.Upload.Steps.{
  put_back, hand_over, dispatch_one, dispatch_all, flush_tasks, end_dispatcher, stop, start,
}

-- The tasks of the buffers in the order of dispatch.
abbrev pub in_order : {R : Type 0} → Sorting → Queue R → List Task
in_order s q =
    if q.config.priority_enabled
    then s.sort (q.priority_buffer ++ q.task_buffer)
    else q.priority_buffer ++ q.task_buffer

sort-length :
    (enabled : Bool) (s : Sorting) (tasks : List Task)
    → length (if enabled then s.sort tasks else tasks) ≡ length tasks
sort-length true s tasks = length-perm (s.sort-Perm tasks)
sort-length false s tasks = refl

-- The lines of the log for tasks that are dropped one after the other.
abbrev pub delayed_onto : List Task → List LogLine → List LogLine
delayed_onto [] log = log
delayed_onto (t ∷ tasks) log = delayed_onto tasks (task_delayed t ∷ log)

no_room : (n capacity : ℕ) → capacity ≤ n → ltb n capacity ≡ false
no_room n capacity h = ground (arith, h)

module _ {R : Type 0} where
  dispatch_one-room :
      (t : Task) (q : Queue R)
      → ltb (length q.working) (working_capacity q.config) ≡ true
      → dispatch_one t q ≡ hand_over t (some (q.working ++ t ∷ [])) q
  unfolding dispatch_one
  dispatch_one-room t q free = rw free refl

  dispatch_all-room :
      (tasks : List Task) (q : Queue R)
      → length q.working + length tasks ≤ working_capacity q.config
      → ((dispatch_all tasks q).working ≡ q.working ++ tasks) × ((dispatch_all tasks q).log ≡ q.log)
  unfolding dispatch_all hand_over
  dispatch_all-room [] q room = (sym (append-nil q.working), refl)
  dispatch_all-room (t ∷ tasks) q room =
      let free : ltb (length q.working) (working_capacity q.config) ≡ true =
        lt→ltb (length q.working) (working_capacity q.config) (omega (arith, room)) in
      let next : Queue R = hand_over t (some (q.working ++ t ∷ [])) q in
      let rest =
        dispatch_all-room tasks next (omega (arith, room, length-append q.working (t ∷ []))) in
      rw (dispatch_all, dispatch_one-room t q free)
        (rest.0 ∙ append_assoc q.working (t ∷ []) tasks, rest.1)

  -- Where the buffers fit into the channel of the workers beside what waits there, a tick appends
  -- them to it in their order, and drops none.
  pub flush_tasks-room :
      (s : Sorting) (q : Queue R)
      → length q.working + length q.priority_buffer + length q.task_buffer
        ≤ working_capacity q.config
      → ((flush_tasks s q).working ≡ q.working ++ in_order s q) × ((flush_tasks s q).log ≡ q.log)
  unfolding flush_tasks
  flush_tasks-room s q room =
      dispatch_all-room (in_order s q) (record q { task_buffer = []; priority_buffer = [] })
        (omega (
          arith,
          room,
          sort-length q.config.priority_enabled s (q.priority_buffer ++ q.task_buffer),
          length-append q.priority_buffer q.task_buffer,
        ))

  -- No channel takes another task.
  abbrev pub IsFull : Queue R → Type 0
  IsFull q =
      (working_capacity q.config ≤ length q.working)
      × (priority_capacity q.config ≤ length q.priority_chan)
      × (task_capacity q.config ≤ length q.task_chan)

  dispatch_one-full :
      (t : Task) (q : Queue R)
      → IsFull q
      → dispatch_one t q ≡ record q { log = task_delayed t ∷ q.log }
  unfolding dispatch_one hand_over put_back
  dispatch_one-full t q (work, urgent, plain) = elim (Bool-cases (is_urgent t)) [
    | inl u ↦
        rw (no_room (length q.working) _ work, u, no_room (length q.priority_chan) _ urgent) refl
    | inr u ↦ rw (no_room (length q.working) _ work, u, no_room (length q.task_chan) _ plain) refl
  ]

  dispatch_all-full :
      (tasks : List Task) (q : Queue R)
      → IsFull q
      → dispatch_all tasks q ≡ record q { log = delayed_onto tasks q.log }
  unfolding dispatch_all
  dispatch_all-full [] q full = refl
  dispatch_all-full (t ∷ tasks) q full =
      rw (dispatch_one-full t q full)
        (dispatch_all-full tasks (record q { log = task_delayed t ∷ q.log }) full)

  -- Where no channel takes another task, a tick empties the buffers and puts their tasks nowhere but
  -- into the log.
  pub flush_tasks-full :
      (s : Sorting) (q : Queue R)
      → IsFull q
      → flush_tasks s q ≡ record q {
        task_buffer = [];
        priority_buffer = [];
        log = delayed_onto (in_order s q) q.log;
      }
  unfolding flush_tasks
  flush_tasks-full s q full =
      dispatch_all-full (in_order s q) (record q { task_buffer = []; priority_buffer = [] }) full

  unfoldable pub then_end : Sorting → Outcome (Queue R) → Outcome (Queue R)
  unfolding end_dispatcher start
  then_end s panicked = panicked
  then_end s (returned q) = end_dispatcher s (start q)

  -- A queue that is stopped and started again panics: its dispatcher ends at once, and closes the
  -- channel of the workers once more.
  start_again : (s : Sorting) (q : Queue R) → q.is_running ≡ true → then_end s (stop s q) ≡ panicked
  unfolding then_end stop end_dispatcher start
  start_again s q running = elim (Bool-cases q.stop_closed) [
    | inl closed ↦ rw (running, closed) refl
    | inr open_still ↦ (elim (Bool-cases q.working_closed) [
      | inl closed ↦ rw (running, open_still, closed) refl
      | inr not_yet ↦ rw (running, open_still, not_yet) refl
    ])
  ]
