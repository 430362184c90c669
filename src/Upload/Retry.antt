-- ===== src/Upload/Retry.antt =====
-- core/pkg/s3obs/s3_upload_queue.go: the attempts of processTask.
-- After a panic the deferred function recovers and processTask, whose result has no name, returns nil.
-- What an attempt of the uploader does, with the state of the context after it, is a parameter.
use skeyevss_backend_service.Prelude.{
  ℕ, zero, suc, ◌+◌, ◌≤◌, ◌≡◌, refl, sym, ◌∙◌, subst, Bool, true, false, not, ◌&&◌, ◌||◌, Option,
  none, some, List, [], ◌∷◌, if◌then◌else◌, nat_beq, nat_beq_iff, arith, Bool-cases, inl, inr, ℤ,
  pos, negsuc,
}
use skeyevss_backend_service.Text.{Text, bytes}
use skeyevss_backend_service.Text.Trim.{starts_with}
use skeyevss_backend_service.Text.Cutset.{to_lower}
use skeyevss_backend_service.Upload.{Verdict, timed_out, exhausted, not_retried, Task}

-- uploadWithContext: the record; an error with what it gives beside it and whether the context's
-- deadline is exceeded; a panic.
pub data Attempt (R : Type 0) : Type 0 where
  uploaded : Option R → Attempt R
  upload_failed : Option R → Text → Bool → Attempt R
  upload_panicked : Text → Attempt R

-- strings.Contains
abbrev pub has_text : Text → Text → Bool
has_text [] part = starts_with part []
has_text (c ∷ s) part = starts_with part (c ∷ s) || has_text s part

abbrev has_any : Text → List Text → Bool
has_any s [] = false
has_any s (part ∷ parts) = has_text s part || has_any s parts

-- isRetryableError
unfoldable pub is_retryable_error : Text → Bool
is_retryable_error error = has_any (to_lower error) (
    bytes "timeout"
    ∷ bytes "deadline exceeded"
    ∷ bytes "network"
    ∷ bytes "connection reset"
    ∷ bytes "temporary"
    ∷ bytes "throttling"
    ∷ bytes "slow down"
    ∷ bytes "service unavailable"
    ∷ [])

module _ {R : Type 0} where
  -- The body of the loop, after an attempt; the last argument is what the further attempts give.
  abbrev pub after_attempt : ℤ → ℕ → ℕ → Attempt R → Option (Verdict R) → Option (Verdict R)
  after_attempt timeout max n (uploaded r) next =
      some (record { answer = r; error = none; attempts = suc n })
  after_attempt timeout max n (upload_panicked e) next = none
  after_attempt timeout max n (upload_failed r e expired) next =
      if expired
      then some (record { answer = r; error = some (timed_out timeout e); attempts = suc n })
      else if nat_beq n max
      then some (record { answer = r; error = some (exhausted (max + 1) e); attempts = suc n })
      else if is_retryable_error e
      then next
      else some (record { answer = r; error = some (not_retried e); attempts = suc n })

  -- The loop of `processTask`, for as many attempts as are left, from an attempt on.
  unfoldable pub attempt_loop : (ℕ → Attempt R) → ℤ → ℕ → ℕ → ℕ → Option (Verdict R)
  attempt_loop upload timeout max zero n =
      some (record { answer = none; error = none; attempts = n })
  attempt_loop upload timeout max (suc left) n =
      after_attempt timeout max n (upload n) (attempt_loop upload timeout max left (suc n))

  -- processTask: with a negative number of retries there is no attempt.
  unfoldable pub process_task : (ℕ → Attempt R) → Task → Option (Verdict R)
  unfolding attempt_loop
  process_task upload t = elim t.max_retries [
    | pos max ↦ attempt_loop upload t.timeout max (suc max) 0
    | negsuc n ↦ attempt_loop upload t.timeout 0 0 0
  ]

  -- Whether an attempt is not followed by another.
  abbrev pub settles : ℕ → ℕ → Attempt R → Bool
  settles max n (uploaded r) = true
  settles max n (upload_panicked e) = true
  settles max n (upload_failed r e expired) =
      expired || (nat_beq n max || not (is_retryable_error e))

  -- What a last attempt says.
  abbrev pub verdict_at : ℤ → ℕ → ℕ → Attempt R → Option (Verdict R)
  verdict_at timeout max n (uploaded r) =
      some (record { answer = r; error = none; attempts = suc n })
  verdict_at timeout max n (upload_panicked e) = none
  verdict_at timeout max n (upload_failed r e expired) = some (record {
    answer = r;
    error = some (
        if expired
        then timed_out timeout e
        else if nat_beq n max
        then exhausted (max + 1) e
        else not_retried e);
    attempts = suc n;
  })

  -- No attempt from `n` on, of the given number, settles the task.
  abbrev pub unsettled : (ℕ → Attempt R) → ℕ → ℕ → ℕ → Bool
  unsettled upload max n zero = true
  unsettled upload max n (suc count) =
      not (settles max n (upload n)) && unsettled upload max (suc n) count

  after_attempt-settles :
      (timeout : ℤ) (max n : ℕ) (a : Attempt R) (next : Option (Verdict R))
      → after_attempt timeout max n a next
        ≡ (if settles max n a then verdict_at timeout max n a else next)
  after_attempt-settles timeout max n (uploaded r) next = refl
  after_attempt-settles timeout max n (upload_panicked e) next = refl
  after_attempt-settles timeout max n (upload_failed r e true) next = refl
  after_attempt-settles timeout max n (upload_failed r e false) next =
      elim (Bool-cases (nat_beq n max)) [
        | inl last ↦ rw last refl
        | inr early ↦ (elim (Bool-cases (is_retryable_error e)) [
          | inl again ↦ rw (early, again) refl
          | inr final ↦ rw (early, final) refl
        ])
      ]

  last-settles : (max : ℕ) (a : Attempt R) → settles max max a ≡ true
  last-settles max (uploaded r) = refl
  last-settles max (upload_panicked e) = refl
  last-settles max (upload_failed r e true) = refl
  last-settles max (upload_failed r e false) = rw ((nat_beq_iff max max).1 refl) refl

  -- The loop stops at the first attempt, from one on, that settles the task.
  StopsAt : (ℕ → Attempt R) → ℤ → ℕ → ℕ → Option (Verdict R) → Type 0
  StopsAt upload timeout max n v =
      (count : ℕ) × (last : ℕ) × (last ≡ n + count)
      × (last ≤ max)
      × (unsettled upload max n count ≡ true)
      × (settles max last (upload last) ≡ true)
      × (v ≡ verdict_at timeout max last (upload last))

  stops_now :
      (upload : ℕ → Attempt R) (timeout : ℤ) (max n : ℕ) (next : Option (Verdict R))
      → n ≤ max
      → settles max n (upload n) ≡ true
      → StopsAt upload timeout max n (after_attempt timeout max n (upload n) next)
  unfolding StopsAt
  stops_now upload timeout max n next early now =
      let stops = after_attempt-settles timeout max n (upload n) next in
      (0, n, omega arith, early, refl, now, rw now at stops)

  stops_later :
      (upload : ℕ → Attempt R) (timeout : ℤ) (max n : ℕ) (next : Option (Verdict R))
      → settles max n (upload n) ≡ false
      → StopsAt upload timeout max (suc n) next
      → StopsAt upload timeout max n (after_attempt timeout max n (upload n) next)
  unfolding StopsAt
  stops_later upload timeout max n next later (count, last, at, within, before, settled, result) =
      let goes_on = after_attempt-settles timeout max n (upload n) next in
      (
        suc count,
        last,
        omega (arith, at),
        within,
        rw later before,
        settled,
        (rw later at goes_on) ∙ result,
      )

  attempt_loop-StopsAt :
      (upload : ℕ → Attempt R) (timeout : ℤ) (max left n : ℕ)
      → n + left ≡ max
      → StopsAt upload timeout max n (attempt_loop upload timeout max (suc left) n)
  unfolding attempt_loop
  attempt_loop-StopsAt upload timeout max zero n fits =
      let last : max ≡ n = omega (arith, fits) in
      stops_now upload timeout max n (attempt_loop upload timeout max zero (suc n))
        (omega (arith, fits))
        (subst (λ m. settles m n (upload n) ≡ true) (sym last) (last-settles n (upload n)))
  attempt_loop-StopsAt upload timeout max (suc left) n fits =
      let next : Option (Verdict R) = attempt_loop upload timeout max (suc left) (suc n) in
      elim (Bool-cases (settles max n (upload n))) [
        | inl now ↦ stops_now upload timeout max n next (omega (arith, fits)) now
        | inr later ↦
            stops_later upload timeout max n next later
              (attempt_loop-StopsAt upload timeout max left (suc n) (omega (arith, fits)))
      ]

  -- A task is tried until its first attempt that succeeds, panics, finds the deadline exceeded, is
  -- the last one allowed, or fails with an error that is not retried. There is such an attempt, at
  -- most the number of retries after the first, and the result is what that attempt says: nil, with
  -- neither record nor error, if it panics.
  pub process_task-first :
      (upload : ℕ → Attempt R) (t : Task) (max : ℕ)
      → t.max_retries ≡ pos max
      → (last : ℕ) × (last ≤ max)
        × (unsettled upload max 0 last ≡ true)
        × (settles max last (upload last) ≡ true)
        × (process_task upload t ≡ verdict_at t.timeout max last (upload last))
  unfolding process_task StopsAt
  process_task-first upload t max e =
      let (count, last, at, within, before, settled, result) =
        attempt_loop-StopsAt upload t.timeout max max 0 (omega arith) in
      let same : last ≡ count = omega (arith, at) in
      (
        last,
        within,
        subst (λ c. unsettled upload max 0 c ≡ true) (sym same) before,
        settled,
        rw e result,
      )
