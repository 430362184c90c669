-- ===== src/Upload/Steps.antt =====
-- core/pkg/s3obs/s3_upload_queue.go: the operations of the queue, one step after the other.
use skeyevss_backend_service.Prelude.{
  ℕ, zero, suc, ◌+◌, true, false, Option, none, some, List, [], ◌∷◌, ◌++◌, if◌then◌else◌, length,
  get_elem?, pos, negsuc, ◌+ℤ◌,
}
use skeyevss_backend_service.Text.{Text, text_beq, text_comparable}
use skeyevss_backend_service.GoMap.{insert, delete}
use skeyevss_backend_service.XMap.{Outcome, returned, panicked}
use skeyevss_backend_service.Upload.{
  Verdict, Task, Result, Queue, task_delayed, result_dropped, Sorting, AddError, priority_full,
  tasks_full, task_capacity, priority_capacity, working_capacity, result_capacity, try_send,
  is_urgent, update_waiting_tasks, update_stats_on_add, update_stats_on_result, set_task_defaults,
}

-- The list without the element at an index.
abbrev pub remove_at : {A : Type 0} → ℕ → List A → List A
remove_at n [] = []
remove_at zero (x ∷ xs) = xs
remove_at (suc n) (x ∷ xs) = x ∷ remove_at n xs

-- What a step hands to a caller, or that a task leaves nothing behind but a nil result, or that the
-- receiver of a nil result panics.
pub data Output (R : Type 0) : Type 0 where
  silent : Output R
  accepted : Task → Output R
  refused : Task → AddError → Output R
  delivered : Result R → Output R
  vanished : Task → Output R
  nil_dereferenced : Output R

module _ {R : Type 0} where
  -- The two branches of `AddTask`, for a task with its defaults.
  abbrev pub add_urgent : Task → Option (List Task) → Queue R → Queue R × Output R
  add_urgent t none q = (q, refused t (priority_full (priority_capacity q.config)))
  add_urgent t (some chan) q =
      (record q { priority_chan = chan; stats = update_stats_on_add q.stats }, accepted t)

  abbrev pub add_plain : Task → Option (List Task) → Queue R → Queue R × Output R
  add_plain t none q = (q, refused t (tasks_full (task_capacity q.config)))
  add_plain t (some chan) q =
      (record q { task_chan = chan; stats = update_stats_on_add q.stats }, accepted t)

  -- AddTask, at a time that makes an identifier.
  unfoldable pub add_task : ℕ → Task → Queue R → Queue R × Output R
  unfolding set_task_defaults
  add_task now task q =
      let t = set_task_defaults q.config now task in
      if is_urgent t
      then add_urgent t (try_send (priority_capacity q.config) t q.priority_chan) q
      else add_plain t (try_send (task_capacity q.config) t q.task_chan) q

  -- taskDispatcher: a task of each channel.
  abbrev pub receive_from : List Task → Queue R → Queue R
  receive_from [] q = q
  receive_from (t ∷ rest) q = record q {
    task_chan = rest;
    task_buffer = q.task_buffer ++ t ∷ [];
    stats = update_waiting_tasks (pos 1) q.stats;
  }

  abbrev pub receive_urgent_from : List Task → Queue R → Queue R
  receive_urgent_from [] q = q
  receive_urgent_from (t ∷ rest) q = record q {
    priority_chan = rest;
    priority_buffer = q.priority_buffer ++ t ∷ [];
    stats = update_waiting_tasks (pos 1) q.stats;
  }

  unfoldable pub receive_task : Queue R → Queue R
  receive_task q = receive_from q.task_chan q

  unfoldable pub receive_urgent : Queue R → Queue R
  receive_urgent q = receive_urgent_from q.priority_chan q

  -- flushTasks: the workers are busy, and the task goes back to its channel.
  abbrev pub put_back_urgent : Task → Option (List Task) → Queue R → Queue R
  put_back_urgent t none q = record q { log = task_delayed t ∷ q.log }
  put_back_urgent t (some chan) q = record q { priority_chan = chan }

  abbrev pub put_back_plain : Task → Option (List Task) → Queue R → Queue R
  put_back_plain t none q = record q { log = task_delayed t ∷ q.log }
  put_back_plain t (some chan) q = record q { task_chan = chan }

  unfoldable pub put_back : Task → Queue R → Queue R
  put_back t q =
      if is_urgent t
      then put_back_urgent t (try_send (priority_capacity q.config) t q.priority_chan) q
      else put_back_plain t (try_send (task_capacity q.config) t q.task_chan) q

  unfoldable pub hand_over : Task → Option (List Task) → Queue R → Queue R
  unfolding put_back
  hand_over t none q = put_back t q
  hand_over t (some chan) q = record q {
    working = chan;
    task_map = insert t.id t q.task_map;
    stats = update_waiting_tasks (negsuc 0) q.stats;
  }

  -- The loop of `flushTasks`.
  unfoldable pub dispatch_one : Task → Queue R → Queue R
  unfolding hand_over
  dispatch_one t q = hand_over t (try_send (working_capacity q.config) t q.working) q

  unfoldable pub dispatch_all : List Task → Queue R → Queue R
  unfolding dispatch_one
  dispatch_all [] q = q
  dispatch_all (t ∷ tasks) q = dispatch_all tasks (dispatch_one t q)

  -- flushTasks, and the buffers emptied after it; with empty buffers nothing happens.
  unfoldable pub flush_tasks : Sorting → Queue R → Queue R
  unfolding dispatch_all
  flush_tasks s q =
      let tasks = q.priority_buffer ++ q.task_buffer in
      dispatch_all (if q.config.priority_enabled then s.sort tasks else tasks)
        (record q { task_buffer = []; priority_buffer = [] })

  -- worker: a task off the channel.
  abbrev pub take_from : List Task → Queue R → Queue R
  take_from [] q = q
  take_from (t ∷ rest) q = record q {
    working = rest;
    active = t ∷ q.active;
    stats = record q.stats { active_workers = q.stats.active_workers +ℤ pos 1 };
  }

  unfoldable pub take_task : Queue R → Queue R
  take_task q = take_from q.working q

  -- The result of a task is sent, or its loss is logged.
  abbrev pub send_result : Task → Option (List (Option (Result R))) → Queue R → Queue R
  send_result t none q = record q { log = result_dropped t ∷ q.log }
  send_result t (some chan) q = record q { result_chan = chan }

  -- Whether a nil result was sent, which no longer names its task.
  abbrev pub sent_nil : Task → Option (Result R) → Option (List (Option (Result R))) → Output R
  sent_nil t none (some chan) = vanished t
  sent_nil t none none = silent
  sent_nil t (some r) o = silent

  -- The record and the error of a task as its result, nil after a panic.
  abbrev pub result_with : Task → Option (Verdict R) → Option (Result R)
  result_with t none = none
  result_with t (some v) = some (record { task = t; record_of = v.answer; error = v.error })

  -- processNextTask, from the result of processTask on.
  abbrev pub finish_with : ℕ → Option Task → Option (Verdict R) → Queue R → Queue R × Output R
  finish_with i none v q = (q, silent)
  finish_with i (some t) v q =
      let r = result_with t v in
      let room = try_send (result_capacity q.config) r q.result_chan in
      let sent = send_result t room (record q {
        active = remove_at i q.active;
        stats = record q.stats { active_workers = q.stats.active_workers +ℤ negsuc 0 };
      }) in
      (record sent { task_map = delete t.id sent.task_map }, sent_nil t r room)

  unfoldable pub finish_task : ℕ → Option (Verdict R) → Queue R → Queue R × Output R
  finish_task i v q = finish_with i (get_elem? q.active i) v q

  -- WaitForTaskResult: a result off the channel, which may be another task's.
  -- The fields of a nil result are not there to be read.
  abbrev pub receive_result_from : Text → List (Option (Result R)) → Queue R → Queue R × Output R
  receive_result_from id [] q = (q, silent)
  receive_result_from id (none ∷ rest) q = (record q { result_chan = rest }, nil_dereferenced)
  receive_result_from id (some r ∷ rest) q =
      if text_beq r.task.id id
      then (record q { result_chan = rest; stats = update_stats_on_result r q.stats }, delivered r)
      else (record q { result_chan = rest; returning = r ∷ q.returning }, silent)

  unfoldable pub receive_result : Text → Queue R → Queue R × Output R
  receive_result id q = receive_result_from id q.result_chan q

  -- The goroutine that puts a result back, or gives up after 100 milliseconds.
  abbrev pub return_with : ℕ → Option (Result R) → Queue R → Queue R
  return_with i none q = q
  return_with i (some r) q =
      send_result r.task (try_send (result_capacity q.config) (some r) q.result_chan)
        (record q { returning = remove_at i q.returning })

  unfoldable pub return_result : ℕ → Queue R → Queue R
  return_result i q = return_with i (get_elem? q.returning i) q

  -- Start: the dispatcher and the workers begin with empty hands.
  unfoldable pub start : Queue R → Queue R
  start q = if q.is_running then q else record q { is_running = true }

  -- The end of the dispatcher, which closes the channel of the workers.
  unfoldable pub end_dispatcher : Sorting → Queue R → Outcome (Queue R)
  unfolding flush_tasks
  end_dispatcher s q =
      if q.working_closed
      then panicked
      else returned (record (flush_tasks s q) { working_closed = true })

  abbrev pub stopped_with : Outcome (Queue R) → Outcome (Queue R)
  stopped_with panicked = panicked
  stopped_with (returned q) = returned (record q { is_running = false })

  -- Stop: the signal, and the wait for the dispatcher; a signal that is closed is closed again.
  unfoldable pub stop : Sorting → Queue R → Outcome (Queue R)
  unfolding end_dispatcher
  stop s q =
      if q.is_running
      then if q.stop_closed
        then panicked
        else stopped_with (end_dispatcher s (record q { stop_closed = true }))
      else returned q

  -- The value that `GetQueueStats` adds to the statistics.
  unfoldable pub current_queue : Queue R → ℕ
  current_queue q = length q.task_chan + length q.priority_chan
