-- ===== src/Upload/Places.antt =====
-- core/pkg/s3obs/s3_upload_queue.go: where a task is, as a number.
use skeyevss_backend_service.Prelude.{
  ℕ, zero, suc, ◌+◌, ◌≡◌, refl, ap, sym, ◌∙◌, Bool, true, false, Option, none, some, List, [], ◌∷◌,
  ◌++◌, map, Perm, if◌then◌else◌, length, ltb, get_elem?, arith, Bool-cases, inl, inr,
}
use mathlib.Core.Option.{some-injective}
use mathlib.Core.List.{Permᴰ}
use mathlib.Core.Logic.{∥∥₁_elim}
use native.Mathlib.Nat.{ℕ_set}
use skeyevss_backend_service.Text.{Text, text_beq}
use skeyevss_backend_service.Upload.{
  Task, Result, Queue, LogLine, task_delayed, result_dropped, Sorting, try_send,
}
use skeyevss_backend_service.Upload.Steps.{remove_at, receive_from, receive_urgent_from, take_from}

-- How often a task stands in a list, by its identifier.
abbrev pub occurs : Text → List Task → ℕ
occurs id [] = 0
occurs id (t ∷ tasks) = if text_beq t.id id then suc (occurs id tasks) else occurs id tasks

pub occurs-append : (id : Text) (s t : List Task) → occurs id (s ++ t) ≡ occurs id s + occurs id t
occurs-append id [] t = omega arith
occurs-append id (x ∷ s) t = ground (arith, occurs-append id s t)

pub occurs-permᴰ : (id : Text) {s t : List Task} → Permᴰ s t → occurs id s ≡ occurs id t
occurs-permᴰ id Permᴰ.nil = refl
occurs-permᴰ id (Permᴰ.cons {a = a} {b = b} {l₁ = l} {l₂ = m} e p) =
    ap (λ x. occurs id (x ∷ l)) e ∙ ground (arith, occurs-permᴰ id p)
occurs-permᴰ id (Permᴰ.swap {a = a} {b = b} {a' = c} {b' = d} {l = l} e f) =
    ap (λ x. occurs id (x ∷ b ∷ l)) e ∙ ap (λ x. occurs id (d ∷ x ∷ l)) f ∙ ground arith
occurs-permᴰ id (Permᴰ.trans p q) = occurs-permᴰ id p ∙ occurs-permᴰ id q

pub occurs-perm : (id : Text) {s t : List Task} → Perm s t → occurs id s ≡ occurs id t
occurs-perm id p = ∥∥₁_elim p (ℕ_set _ _) (occurs-permᴰ id)

abbrev pub logged : LogLine → Task
logged (task_delayed t) = t
logged (result_dropped t) = t

-- What a send that does not wait leaves in the channel.
pub occurs-try_send :
    (id : Text) (capacity : ℕ) (t : Task) (chan sent : List Task)
    → try_send capacity t chan ≡ some sent
    → occurs id sent ≡ occurs id chan + occurs id (t ∷ [])
occurs-try_send id capacity t chan sent h = elim (Bool-cases (ltb (length chan) capacity)) [
  | inl room ↦
      ap (occurs id) (sym (some-injective (chan ++ t ∷ []) sent (rw room at h)))
      ∙ occurs-append id chan (t ∷ [])
  | inr full ↦ ground (arith, full, h)
]

pub occurs-remove_at :
    (id : Text) (i : ℕ) (t : Task) (tasks : List Task)
    → get_elem? tasks i ≡ some t
    → occurs id tasks ≡ occurs id (t ∷ []) + occurs id (remove_at i tasks)
occurs-remove_at id i t [] h = ground (arith, h)
occurs-remove_at id zero t (x ∷ tasks) h =
    ap (λ (y : Task). occurs id (y ∷ tasks)) (some-injective x t h) ∙ ground arith
occurs-remove_at id (suc i) t (x ∷ tasks) h = ground (arith, occurs-remove_at id i t tasks h)

pub occurs-sort :
    (id : Text) (enabled : Bool) (s : Sorting) (tasks : List Task)
    → occurs id (if enabled then s.sort tasks else tasks) ≡ occurs id tasks
occurs-sort id true s tasks = occurs-perm id (s.sort-Perm tasks)
occurs-sort id false s tasks = refl

module _ {R : Type 0} where
  abbrev pub task_of : Result R → Task
  task_of r = r.task

  -- The tasks of the results that are not nil.
  abbrev pub named : List (Option (Result R)) → List Task
  named [] = []
  named (none ∷ results) = named results
  named (some r ∷ results) = r.task ∷ named results

  -- The places of the queue, the results on their way, and the log, together.
  unfoldable pub whereabouts : Text → Queue R → ℕ
  whereabouts id q =
      occurs id q.task_chan
      + occurs id q.priority_chan
      + occurs id q.task_buffer
      + occurs id q.priority_buffer
      + occurs id q.working
      + occurs id q.active
      + occurs id (named q.result_chan)
      + occurs id (map task_of q.returning)
      + occurs id (map logged q.log)

  pub take_from-whereabouts :
      (id : Text) (tasks : List Task) (q : Queue R)
      → q.working ≡ tasks
      → whereabouts id (take_from tasks q) ≡ whereabouts id q
  unfolding whereabouts
  take_from-whereabouts id [] q e = refl
  take_from-whereabouts id (t ∷ rest) q e = ground (arith, ap (occurs id) e)

  pub receive_from-whereabouts :
      (id : Text) (tasks : List Task) (q : Queue R)
      → q.task_chan ≡ tasks
      → whereabouts id (receive_from tasks q) ≡ whereabouts id q
  unfolding whereabouts
  receive_from-whereabouts id [] q e = refl
  receive_from-whereabouts id (t ∷ rest) q e =
      ground (arith, ap (occurs id) e, occurs-append id q.task_buffer (t ∷ []))

  pub receive_urgent_from-whereabouts :
      (id : Text) (tasks : List Task) (q : Queue R)
      → q.priority_chan ≡ tasks
      → whereabouts id (receive_urgent_from tasks q) ≡ whereabouts id q
  unfolding whereabouts
  receive_urgent_from-whereabouts id [] q e = refl
  receive_urgent_from-whereabouts id (t ∷ rest) q e =
      ground (arith, ap (occurs id) e, occurs-append id q.priority_buffer (t ∷ []))
