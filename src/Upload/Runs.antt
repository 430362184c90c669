-- ===== src/Upload/Runs.antt =====
-- Runs of the upload queue: what its goroutines and its callers do, in any order.
use skeyevss_backend_service.Prelude.{ℕ, ◌+◌, ◌≡◌, refl, Option, List, [], ◌∷◌, arith}
use skeyevss_backend_service.Text.{Text}
use skeyevss_backend_service.Upload.{Verdict, Task, Config, Queue, Sorting, new_upload_queue}
use skeyevss_backend_service.Upload.Steps.{
  Output, silent, add_task, receive_task, receive_urgent, flush_tasks, take_task, finish_task,
  receive_result, return_result,
}
use skeyevss_backend_service.Upload.Places.{whereabouts}
use skeyevss_backend_service.Upload.Conserved.{
  taken_in, given_out, Balances, add_task-Balances, receive_task-whereabouts,
  receive_urgent-whereabouts, flush_tasks-whereabouts, take_task-whereabouts, finish_task-Balances,
  receive_result-Balances, return_result-whereabouts,
}

-- AddTask at a time; the three cases of the dispatcher; a worker that takes a task, and one that is
-- done with the task at an index; a caller that waits for a task; a result that is put back.
pub data Event (R : Type 0) : Type 0 where
  add : ℕ → Task → Event R
  collect : Event R
  collect_urgent : Event R
  tick : Event R
  take_up : Event R
  finish : ℕ → Option (Verdict R) → Event R
  wait : Text → Event R
  give_back : ℕ → Event R

new_queue-whereabouts :
    (R : Type 0) (id : Text) (config : Config)
    → whereabouts id (new_upload_queue {R = R} config) ≡ 0
unfolding new_upload_queue whereabouts
new_queue-whereabouts R id config = omega arith

module _ {R : Type 0} where
  unfoldable pub step : Sorting → Event R → Queue R → Queue R × Output R
  unfolding add_task receive_task receive_urgent flush_tasks take_task finish_task receive_result
      return_result
  step s (add now t) q = add_task now t q
  step s collect q = (receive_task q, silent)
  step s collect_urgent q = (receive_urgent q, silent)
  step s tick q = (flush_tasks s q, silent)
  step s take_up q = (take_task q, silent)
  step s (finish i v) q = finish_task i v q
  step s (wait id) q = receive_result id q
  step s (give_back i) q = (return_result i q, silent)

  unfoldable pub run : Sorting → List (Event R) → Queue R → Queue R × List (Output R)
  unfolding step
  run s [] q = (q, [])
  run s (e ∷ events) q =
      let first = step s e q in let rest = run s events first.0 in (rest.0, first.1 ∷ rest.1)

  abbrev pub total : (Output R → ℕ) → List (Output R) → ℕ
  total f [] = 0
  total f (out ∷ outs) = f out + total f outs

  step-Balances : (id : Text) (s : Sorting) (e : Event R) (q : Queue R) → Balances id q (step s e q)
  unfolding step
  step-Balances id s (add now t) q = add_task-Balances id now t q
  step-Balances id s collect q = omega (arith, receive_task-whereabouts id q)
  step-Balances id s collect_urgent q = omega (arith, receive_urgent-whereabouts id q)
  step-Balances id s tick q = omega (arith, flush_tasks-whereabouts id s q)
  step-Balances id s take_up q = omega (arith, take_task-whereabouts id q)
  step-Balances id s (finish i v) q = finish_task-Balances id i v q
  step-Balances id s (wait wanted) q = receive_result-Balances id wanted q
  step-Balances id s (give_back i) q = omega (arith, return_result-whereabouts id i q)

  run-Balances :
      (id : Text) (s : Sorting) (events : List (Event R)) (q : Queue R)
      → whereabouts id q + total (taken_in id) (run s events q).1
        ≡ whereabouts id (run s events q).0 + total (given_out id) (run s events q).1
  unfolding run
  run-Balances id s [] q = refl
  run-Balances id s (e ∷ events) q =
      omega (arith, step-Balances id s e q, run-Balances id s events (step s e q).0)

  -- Whatever the goroutines and callers do, and in whatever order, from a new queue on: as often as
  -- a task was accepted, so often it is in the queue, with a worker, on its way as a result, named in
  -- the log, delivered to a caller, or its upload panicked and a nil was sent in place of its result.
  pub accepted_lem :
      (id : Text) (s : Sorting) (config : Config) (events : List (Event R))
      → total (taken_in id) (run s events (new_upload_queue config)).1
        ≡ whereabouts id (run s events (new_upload_queue config)).0
          + total (given_out id) (run s events (new_upload_queue config)).1
  accepted_lem id s config events =
      omega (
        arith,
        run-Balances id s events (new_upload_queue config),
        new_queue-whereabouts R id config,
      )
