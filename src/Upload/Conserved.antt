-- ===== src/Upload/Conserved.antt =====
-- Where the tasks are: no step of the queue makes or loses one but those that the log names.
use skeyevss_backend_service.Prelude.{
  ℕ, zero, suc, ◌+◌, ◌≡◌, refl, ap, sym, ◌∙◌, Option, none, some, List, [], ◌∷◌, ◌++◌, map,
  if◌then◌else◌, length, ltb, ◌+ℤ◌, negsuc, get_elem?, arith, Bool-cases, inl, inr,
}
use mathlib.Core.Option.{some-injective}
use skeyevss_backend_service.Text.{Text, text_beq}
use skeyevss_backend_service.Upload.{
  Verdict, Task, Result, Queue, Sorting, try_send, is_urgent, task_capacity, priority_capacity,
  working_capacity, result_capacity, set_task_defaults,
}
use skeyevss_backend_service.Upload.Steps.{
  remove_at, Output, silent, accepted, refused, delivered, vanished, nil_dereferenced, sent_nil,
  result_with, add_urgent, add_plain, add_task, receive_task, receive_urgent, put_back,
  put_back_urgent, put_back_plain, hand_over, dispatch_one, dispatch_all, flush_tasks, take_task,
  send_result, finish_with, finish_task, receive_result_from, receive_result, return_with,
  return_result,
}
use skeyevss_backend_service.Upload.Places.{
  occurs, occurs-append, occurs-try_send, occurs-remove_at, occurs-sort, task_of, named,
  whereabouts, take_from-whereabouts, receive_from-whereabouts, receive_urgent_from-whereabouts,
}

module _ {R : Type 0} where
  put_back_urgent-whereabouts :
      (id : Text) (t : Task) (o : Option (List Task)) (q : Queue R)
      → try_send (priority_capacity q.config) t q.priority_chan ≡ o
      → whereabouts id (put_back_urgent t o q) ≡ whereabouts id q + occurs id (t ∷ [])
  unfolding whereabouts
  put_back_urgent-whereabouts id t none q h = ground arith
  put_back_urgent-whereabouts id t (some chan) q h =
      omega (arith, occurs-try_send id (priority_capacity q.config) t q.priority_chan chan h)

  put_back_plain-whereabouts :
      (id : Text) (t : Task) (o : Option (List Task)) (q : Queue R)
      → try_send (task_capacity q.config) t q.task_chan ≡ o
      → whereabouts id (put_back_plain t o q) ≡ whereabouts id q + occurs id (t ∷ [])
  unfolding whereabouts
  put_back_plain-whereabouts id t none q h = ground arith
  put_back_plain-whereabouts id t (some chan) q h =
      omega (arith, occurs-try_send id (task_capacity q.config) t q.task_chan chan h)

  put_back-whereabouts :
      (id : Text) (t : Task) (q : Queue R)
      → whereabouts id (put_back t q) ≡ whereabouts id q + occurs id (t ∷ [])
  unfolding put_back
  put_back-whereabouts id t q = elim (Bool-cases (is_urgent t)) [
    | inl urgent ↦ rw urgent (put_back_urgent-whereabouts id t _ q refl)
    | inr plain ↦ rw plain (put_back_plain-whereabouts id t _ q refl)
  ]

  hand_over-whereabouts :
      (id : Text) (t : Task) (o : Option (List Task)) (q : Queue R)
      → try_send (working_capacity q.config) t q.working ≡ o
      → whereabouts id (hand_over t o q) ≡ whereabouts id q + occurs id (t ∷ [])
  unfolding whereabouts hand_over
  hand_over-whereabouts id t none q h = put_back-whereabouts id t q
  hand_over-whereabouts id t (some chan) q h =
      omega (arith, occurs-try_send id (working_capacity q.config) t q.working chan h)

  dispatch_all-whereabouts :
      (id : Text) (tasks : List Task) (q : Queue R)
      → whereabouts id (dispatch_all tasks q) ≡ whereabouts id q + occurs id tasks
  unfolding dispatch_all dispatch_one
  dispatch_all-whereabouts id [] q = omega arith
  dispatch_all-whereabouts id (t ∷ tasks) q =
      dispatch_all-whereabouts id tasks (dispatch_one t q)
      ∙ ground (
        arith,
        hand_over-whereabouts id t (try_send (working_capacity q.config) t q.working) q refl,
      )

  pub flush_tasks-whereabouts :
      (id : Text) (s : Sorting) (q : Queue R) → whereabouts id (flush_tasks s q) ≡ whereabouts id q
  unfolding flush_tasks whereabouts
  flush_tasks-whereabouts id s q =
      let tasks : List Task = q.priority_buffer ++ q.task_buffer in
      let emptied : Queue R = record q { task_buffer = []; priority_buffer = [] } in
      dispatch_all-whereabouts id (if q.config.priority_enabled then s.sort tasks else tasks)
        emptied
      ∙ omega (
        arith,
        occurs-sort id q.config.priority_enabled s tasks,
        occurs-append id q.priority_buffer q.task_buffer,
      )

  -- The same for results, by their tasks, where a nil counts nothing.
  abbrev settled : Text → List (Option (Result R)) → ℕ
  settled id results = occurs id (named results)

  abbrev own : Text → Option (Result R) → ℕ
  own id none = 0
  own id (some r) = occurs id (r.task ∷ [])

  settled-append :
      (id : Text) (a b : List (Option (Result R)))
      → settled id (a ++ b) ≡ settled id a + settled id b
  settled-append id [] b = omega arith
  settled-append id (none ∷ a) b = settled-append id a b
  settled-append id (some r ∷ a) b = ground (arith, settled-append id a b)

  settled_one : (id : Text) (r : Option (Result R)) → settled id (r ∷ []) ≡ own id r
  settled_one id none = refl
  settled_one id (some r) = refl

  returned_to : Text → List (Result R) → ℕ
  returned_to id results = occurs id (map task_of results)

  returned_to-remove_at :
      (id : Text) (i : ℕ) (r : Result R) (results : List (Result R))
      → get_elem? results i ≡ some r
      → returned_to id results ≡ occurs id (r.task ∷ []) + returned_to id (remove_at i results)
  unfolding returned_to
  returned_to-remove_at id i r [] h = ground (arith, h)
  returned_to-remove_at id zero r (x ∷ results) h =
      ap (λ (y : Result R). returned_to id (y ∷ results)) (some-injective x r h) ∙ ground arith
  returned_to-remove_at id (suc i) r (x ∷ results) h =
      ground (arith, returned_to-remove_at id i r results h)

  settled-try_send :
      (id : Text) (capacity : ℕ) (r : Option (Result R)) (chan sent : List (Option (Result R)))
      → try_send capacity r chan ≡ some sent
      → settled id sent ≡ settled id chan + own id r
  settled-try_send id capacity r chan sent h = elim (Bool-cases (ltb (length chan) capacity)) [
    | inl room ↦
        ap (settled id) (sym (some-injective (chan ++ r ∷ []) sent (rw room at h)))
        ∙ settled-append id chan (r ∷ [])
        ∙ ap (λ n. settled id chan + n) (settled_one id r)
    | inr full ↦ ground (arith, full, h)
  ]

  -- The tasks that a step takes in, and those it gives out or loses.
  abbrev pub taken_in : Text → Output R → ℕ
  taken_in id (accepted t) = occurs id (t ∷ [])
  taken_in id silent = 0
  taken_in id (refused t e) = 0
  taken_in id (delivered r) = 0
  taken_in id (vanished t) = 0
  taken_in id nil_dereferenced = 0

  abbrev pub given_out : Text → Output R → ℕ
  given_out id (delivered r) = occurs id (r.task ∷ [])
  given_out id (vanished t) = occurs id (t ∷ [])
  given_out id silent = 0
  given_out id (accepted t) = 0
  given_out id (refused t e) = 0
  given_out id nil_dereferenced = 0

  abbrev pub Balances : Text → Queue R → Queue R × Output R → Type 0
  Balances id q (after, out) =
      whereabouts id q + taken_in id out ≡ whereabouts id after + given_out id out

  -- A result of a task is in the channel, in the log, or was a nil.
  send_result-whereabouts :
      (id : Text) (t : Task) (r : Option (Result R)) (o : Option (List (Option (Result R))))
      (q : Queue R)
      → ((x : Result R) → r ≡ some x → x.task ≡ t)
      → try_send (result_capacity q.config) r q.result_chan ≡ o
      → whereabouts id (send_result t o q) + given_out id (sent_nil t r o)
        ≡ whereabouts id q + occurs id (t ∷ [])
  unfolding whereabouts
  send_result-whereabouts id t none none q mine h = ground arith
  send_result-whereabouts id t (some r) none q mine h = ground arith
  send_result-whereabouts id t none (some chan) q mine h =
      omega (arith, settled-try_send id (result_capacity q.config) none q.result_chan chan h)
  send_result-whereabouts id t (some r) (some chan) q mine h = omega (
    arith,
    settled-try_send id (result_capacity q.config) (some r) q.result_chan chan h,
    ap (λ x. occurs id (x ∷ [])) (mine r refl),
  )

  result_with-mine :
      (t : Task) (v : Option (Verdict R)) (x : Result R) → result_with t v ≡ some x → x.task ≡ t
  result_with-mine t none x h = ground (arith, h)
  result_with-mine t (some v) x h = sym (ap task_of (some-injective _ x h))

  taken_in-sent_nil :
      (id : Text) (t : Task) (r : Option (Result R)) (o : Option (List (Option (Result R))))
      → taken_in id (sent_nil t r o) ≡ 0
  taken_in-sent_nil id t none none = refl
  taken_in-sent_nil id t none (some chan) = refl
  taken_in-sent_nil id t (some r) o = refl

  finish_with-Balances :
      (id : Text) (i : ℕ) (o : Option Task) (v : Option (Verdict R)) (q : Queue R)
      → get_elem? q.active i ≡ o
      → Balances id q (finish_with i o v q)
  unfolding whereabouts
  finish_with-Balances id i none v q h = refl
  finish_with-Balances id i (some t) v q h =
      let r = result_with t v in
      let room = try_send (result_capacity q.config) r q.result_chan in
      let taken : Queue R = record q {
        active = remove_at i q.active;
        stats = record q.stats { active_workers = q.stats.active_workers +ℤ negsuc 0 };
      } in
      omega (
        arith,
        send_result-whereabouts id t r room taken (result_with-mine t v) refl,
        occurs-remove_at id i t q.active h,
        taken_in-sent_nil id t r room,
      )

  return_with-whereabouts :
      (id : Text) (i : ℕ) (o : Option (Result R)) (q : Queue R)
      → get_elem? q.returning i ≡ o
      → whereabouts id (return_with i o q) ≡ whereabouts id q
  unfolding whereabouts returned_to
  return_with-whereabouts id i none q h = refl
  return_with-whereabouts id i (some r) q h = omega (
    arith,
    send_result-whereabouts id r.task (some r)
        (try_send (result_capacity q.config) (some r) q.result_chan)
        (record q { returning = remove_at i q.returning })
        (λ x e. sym (ap task_of (some-injective r x e))) refl,
    returned_to-remove_at id i r q.returning h,
  )

  receive_result_from-Balances :
      (id wanted : Text) (results : List (Option (Result R))) (q : Queue R)
      → q.result_chan ≡ results
      → Balances id q (receive_result_from wanted results q)
  unfolding whereabouts
  receive_result_from-Balances id wanted [] q e = refl
  receive_result_from-Balances id wanted (none ∷ rest) q e = ground (arith, ap (settled id) e)
  receive_result_from-Balances id wanted (some r ∷ rest) q e =
      elim (Bool-cases (text_beq r.task.id wanted)) [
        | inl mine ↦ rw mine (ground (arith, ap (settled id) e))
        | inr other ↦ rw other (ground (arith, ap (settled id) e))
      ]

  add_urgent-Balances :
      (id : Text) (t : Task) (o : Option (List Task)) (q : Queue R)
      → try_send (priority_capacity q.config) t q.priority_chan ≡ o
      → Balances id q (add_urgent t o q)
  unfolding whereabouts
  add_urgent-Balances id t none q h = refl
  add_urgent-Balances id t (some chan) q h =
      omega (arith, occurs-try_send id (priority_capacity q.config) t q.priority_chan chan h)

  add_plain-Balances :
      (id : Text) (t : Task) (o : Option (List Task)) (q : Queue R)
      → try_send (task_capacity q.config) t q.task_chan ≡ o
      → Balances id q (add_plain t o q)
  unfolding whereabouts
  add_plain-Balances id t none q h = refl
  add_plain-Balances id t (some chan) q h =
      omega (arith, occurs-try_send id (task_capacity q.config) t q.task_chan chan h)

  pub add_task-Balances :
      (id : Text) (now : ℕ) (task : Task) (q : Queue R) → Balances id q (add_task now task q)
  unfolding add_task
  add_task-Balances id now task q =
      let t : Task = set_task_defaults q.config now task in
      elim (Bool-cases (is_urgent t)) [
        | inl urgent ↦ rw urgent (add_urgent-Balances id t _ q refl)
        | inr plain ↦ rw plain (add_plain-Balances id t _ q refl)
      ]

  pub take_task-whereabouts :
      (id : Text) (q : Queue R) → whereabouts id (take_task q) ≡ whereabouts id q
  unfolding take_task
  take_task-whereabouts id q = take_from-whereabouts id q.working q refl

  pub receive_task-whereabouts :
      (id : Text) (q : Queue R) → whereabouts id (receive_task q) ≡ whereabouts id q
  unfolding receive_task
  receive_task-whereabouts id q = receive_from-whereabouts id q.task_chan q refl

  pub receive_urgent-whereabouts :
      (id : Text) (q : Queue R) → whereabouts id (receive_urgent q) ≡ whereabouts id q
  unfolding receive_urgent
  receive_urgent-whereabouts id q = receive_urgent_from-whereabouts id q.priority_chan q refl

  pub finish_task-Balances :
      (id : Text) (i : ℕ) (v : Option (Verdict R)) (q : Queue R) → Balances id q (finish_task i v q)
  unfolding finish_task
  finish_task-Balances id i v q = finish_with-Balances id i (get_elem? q.active i) v q refl

  pub return_result-whereabouts :
      (id : Text) (i : ℕ) (q : Queue R) → whereabouts id (return_result i q) ≡ whereabouts id q
  unfolding return_result
  return_result-whereabouts id i q = return_with-whereabouts id i (get_elem? q.returning i) q refl

  pub receive_result-Balances :
      (id wanted : Text) (q : Queue R) → Balances id q (receive_result wanted q)
  unfolding receive_result
  receive_result-Balances id wanted q = receive_result_from-Balances id wanted q.result_chan q refl
