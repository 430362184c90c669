-- ===== src/Upload/Tests.antt =====
-- The theorems of Upload on a queue of one worker.
use mathlib.Core.List.Perm
use skeyevss_backend_service.Prelude.{
  ℕ, ◌+◌, ◌≤◌, ◌≡◌, refl, true, false, none, some, List, [], ◌∷◌, ◌++◌, Perm, if◌then◌else◌, ℤ, pos,
  ltb_ℤ, nat_beq, Bool-cases, inl, inr, arith,
}
use skeyevss_backend_service.Text.{Text, bytes}
use skeyevss_backend_service.Upload.{Task, Config, Queue, Sorting, new_upload_queue}
use skeyevss_backend_service.Upload.Steps.{flush_tasks}
use skeyevss_backend_service.Upload.Places.{whereabouts}
use skeyevss_backend_service.Upload.Conserved.{taken_in, given_out}
use skeyevss_backend_service.Upload.Runs.{
  Event, add, collect, tick, take_up, finish, wait, run, total, accepted_lem,
}
use skeyevss_backend_service.Upload.Flush.{
  in_order, delayed_onto, flush_tasks-room, flush_tasks-full,
}
use skeyevss_backend_service.Upload.Retry.{
  Attempt, uploaded, upload_failed, settles, unsettled, verdict_at, process_task,
  process_task-first,
}

abbrev insert_by : Task → List Task → List Task
insert_by t [] = t ∷ []
insert_by t (x ∷ tasks) =
    let rest = insert_by t tasks in if ltb_ℤ t.priority x.priority then t ∷ x ∷ tasks else x ∷ rest

abbrev sort_by : List Task → List Task
sort_by [] = []
sort_by (t ∷ tasks) = insert_by t (sort_by tasks)

insert_by-Perm : (t : Task) (tasks : List Task) → Perm (insert_by t tasks) (t ∷ tasks)
insert_by-Perm t [] = Perm.refl (t ∷ [])
insert_by-Perm t (x ∷ tasks) = elim (Bool-cases (ltb_ℤ t.priority x.priority)) [
  | inl before ↦ rw before (Perm.refl (t ∷ x ∷ tasks))
  | inr after ↦ rw after (Perm.trans (Perm.cons x (insert_by-Perm t tasks)) (Perm.swap t x tasks))
]

sort_by-Perm : (tasks : List Task) → Perm (sort_by tasks) tasks
sort_by-Perm [] = Perm.refl []
sort_by-Perm (t ∷ tasks) =
    Perm.trans (insert_by-Perm t (sort_by tasks)) (Perm.cons t (sort_by-Perm tasks))

abbrev sorting : Sorting
sorting = record { sort = sort_by; sort-Perm = sort_by-Perm }

abbrev clip : Text → ℤ → Task
clip id priority = record {
  id = id;
  local_file_path = bytes "/tmp/a.mp4";
  s3_key = bytes "a.mp4";
  max_retries = pos 1;
  timeout = pos 60;
  priority = priority;
}

abbrev config : Config
config = record {
  max_concurrent_uploads = pos 1;
  max_queue_size = pos 4;
  default_timeout = pos 0;
  default_retries = pos 0;
  retry_delay = pos 0;
  priority_enabled = true;
  result_buffer_size = pos 2;
}

abbrev events : List (Event ℕ)
events =
    add 0 (clip (bytes "a") (pos 5))
    ∷ collect
    ∷ tick
    ∷ take_up
    ∷ finish 0 (some (record { answer = some 7; error = none; attempts = 1 }))
    ∷ wait (bytes "a")
    ∷ []

accepted_lem_example :
    total (taken_in (bytes "a")) (run sorting events (new_upload_queue config)).1
    ≡ whereabouts (bytes "a") (run sorting events (new_upload_queue config)).0
      + total (given_out (bytes "a")) (run sorting events (new_upload_queue config)).1
accepted_lem_example = accepted_lem (bytes "a") sorting config events

delivered_once : total (given_out (bytes "a")) (run sorting events (new_upload_queue config)).1 ≡ 1
unfolding run new_upload_queue
delivered_once = refl

abbrev waiting : Queue ℕ
waiting = record (new_upload_queue config) {
  task_buffer = clip (bytes "a") (pos 5) ∷ [];
  priority_buffer = clip (bytes "b") (pos 1) ∷ [];
}

flush_tasks-room_example :
    ((flush_tasks sorting waiting).working ≡ waiting.working ++ in_order sorting waiting)
    × ((flush_tasks sorting waiting).log ≡ waiting.log)
unfolding new_upload_queue
flush_tasks-room_example = flush_tasks-room sorting waiting (omega arith)

abbrev blocked : Queue ℕ
blocked = record (new_upload_queue (record config { max_queue_size = pos 1 })) {
  task_buffer = clip (bytes "a") (pos 5) ∷ [];
  task_chan = clip (bytes "c") (pos 5) ∷ [];
  working =
      clip (bytes "1") (pos 5)
      ∷ clip (bytes "2") (pos 5)
      ∷ clip (bytes "3") (pos 5)
      ∷ clip (bytes "4") (pos 5)
      ∷ clip (bytes "5") (pos 5)
      ∷ clip (bytes "6") (pos 5)
      ∷ clip (bytes "7") (pos 5)
      ∷ clip (bytes "8") (pos 5)
      ∷ clip (bytes "9") (pos 5)
      ∷ clip (bytes "10") (pos 5)
      ∷ [];
}

flush_tasks-full_example : flush_tasks sorting blocked ≡ record blocked {
  task_buffer = [];
  priority_buffer = [];
  log = delayed_onto (in_order sorting blocked) blocked.log;
}
unfolding new_upload_queue
flush_tasks-full_example = flush_tasks-full sorting blocked (omega arith, omega arith, omega arith)

-- The network fails once.
abbrev upload : ℕ → Attempt ℕ
upload n =
    if nat_beq n 0 then upload_failed none (bytes "Network is down") false else uploaded (some n)

process_task-first_example :
    (last : ℕ) × (last ≤ 1)
    × (unsettled upload 1 0 last ≡ true)
    × (settles 1 last (upload last) ≡ true)
    × (process_task upload (clip (bytes "a") (pos 5)) ≡ verdict_at (pos 60) 1 last (upload last))
process_task-first_example = process_task-first upload (clip (bytes "a") (pos 5)) 1 refl
