-- ===== src/Recording/Failures.antt =====
-- A pass of the recording plans that fails, and the messages it logs.
use skeyevss_backend_service.Prelude.{
  ℕ, zero, suc, ◌-◌, ◌≤◌, ◌≡◌, refl, true, Option, none, some, List, [], ◌∷◌, ◌++◌, length, arith,
  Bool-cases, inl, inr, nat_beq, nat_comparable,
}
use skeyevss_backend_service.GoMap.{GoMap}
use skeyevss_backend_service.Arrays.{arr_unique}
use skeyevss_backend_service.Recording.{
  due_channels, stopping, Project, LockAnswer, lock_error, lock_taken, lock_got, Answers, Log,
  projects_failed, channels_failed, release_failed, lock_failed, Recorder, drop_logs, add_log,
  with_channels, with_projects, locked, with_lock, do_pass,
}

length-drop_logs : (n : ℕ) (l : List Log) → length (drop_logs n l) ≡ length l - n
length-drop_logs zero l = omega arith
length-drop_logs (suc n) [] = omega arith
length-drop_logs (suc n) (x ∷ l) = omega (arith, length-drop_logs n l)

-- A hundred messages stay at most.
pub length-add_log : (l : List Log) (m : Log) → length (add_log l m) ≤ 100
unfolding add_log
length-add_log l m =
    let d = length-drop_logs (length (l ++ m ∷ []) - 100) (l ++ m ∷ []) in ground (arith, d)

module _ {Rel : Type 0} where
  -- The same channels record, and no message was sent.
  pub record SameIds (s t : Recorder Rel) : Type 0 where
    pub recording : t.exec_channel_unique_ids ≡ s.exec_channel_unique_ids
    pub started : t.start_recording_ids ≡ s.start_recording_ids
    pub stopped : t.stop_recording_ids ≡ s.stop_recording_ids

  -- What stands in the way of a pass.
  pub data Fails (answers : Answers Rel) : Type 0 where
    no_lock : answers.lock ≡ lock_error → Fails answers
    locked_by_other : answers.lock ≡ lock_taken → Fails answers
    no_projects : answers.lock ≡ lock_got → answers.projects ≡ none → Fails answers
    no_channels :
        answers.lock ≡ lock_got → ((q : List ℕ) → answers.channel_maps q ≡ none) → Fails answers

  abbrev chosen : Answers Rel → ℕ → List Project → List ℕ
  chosen answers now ps = arr_unique (due_channels now answers.week_day answers.start_of_day ps)

  no_channels-with_projects :
      (answers : Answers Rel) (now : ℕ) (projects : Option (List Project)) (s : Recorder Rel)
      → ((q : List ℕ) → answers.channel_maps q ≡ none)
      → SameIds s (with_projects answers now projects s)
  unfolding with_projects with_channels
  no_channels-with_projects answers now none s h = record {
    recording = refl;
    started = refl;
    stopped = refl;
  }
  no_channels-with_projects answers now (some ps) s h =
      let c = chosen answers now ps in
      let q = c ++ stopping c s.exec_channel_unique_ids in
      elim (Bool-cases (nat_beq (length q) 0)) [
        | inl empty ↦
            rw (empty, with_projects) (record { recording = refl; started = refl; stopped = refl })
        | inr some_ids ↦
            rw (some_ids, with_projects, h q, with_channels)
              (record { recording = refl; started = refl; stopped = refl })
      ]

  kept-locked :
      (answers : Answers Rel) (now : ℕ) (s : Recorder Rel)
      → SameIds s (with_projects answers now answers.projects s)
      → SameIds s (locked answers now s)
  unfolding locked
  kept-locked answers now s same = elim (Bool-cases answers.released) [
    | inl yes_released ↦ rw (yes_released, locked) same
    | inr not_released ↦
        rw (not_released, locked)
          (record { recording = same.recording; started = same.started; stopped = same.stopped })
  ]

  kept-with_lock :
      (answers : Answers Rel) (now : ℕ) (s : Recorder Rel)
      → Fails answers
      → SameIds s (with_lock answers now answers.lock s)
  unfolding with_lock
  kept-with_lock answers now s (no_lock h) =
      rw (h, with_lock) (record { recording = refl; started = refl; stopped = refl })
  kept-with_lock answers now s (locked_by_other h) =
      rw (h, with_lock) (record { recording = refl; started = refl; stopped = refl })
  kept-with_lock answers now s (no_projects l h) =
      rw (l, with_lock)
        (kept-locked answers now s
          (rw (h, with_projects) (record { recording = refl; started = refl; stopped = refl })))
  kept-with_lock answers now s (no_channels l h) =
      rw (l, with_lock)
        (kept-locked answers now s (no_channels-with_projects answers now answers.projects s h))

  -- A pass that does not get the lock, or to which the configuration service or the device service
  -- gives no answer, leaves the channels that record as they are and sends no message.
  pub failing_pass :
      (answers : Answers Rel) (now : ℕ) (s : Recorder Rel)
      → Fails answers
      → SameIds s (do_pass answers now s)
  unfolding do_pass
  failing_pass answers now s f =
      let same = kept-with_lock answers now (record s { executing = true }) f in
      record { recording = same.recording; started = same.started; stopped = same.stopped }

  logs-with_channels :
      (c l : List ℕ) (rels : Option (GoMap ℕ Rel)) (s : Recorder Rel)
      → length s.logs ≤ 100
      → length (with_channels c l rels s).logs ≤ 100
  unfolding with_channels
  logs-with_channels c l none s h = length-add_log s.logs channels_failed
  logs-with_channels c l (some rels) s h = h

  logs-with_projects :
      (answers : Answers Rel) (now : ℕ) (projects : Option (List Project)) (s : Recorder Rel)
      → length s.logs ≤ 100
      → length (with_projects answers now projects s).logs ≤ 100
  unfolding with_projects
  logs-with_projects answers now none s h = length-add_log s.logs projects_failed
  logs-with_projects answers now (some ps) s h =
      let c = chosen answers now ps in
      let q = c ++ stopping c s.exec_channel_unique_ids in
      elim (Bool-cases (nat_beq (length q) 0)) [
        | inl empty ↦ rw (empty, with_projects) h
        | inr some_ids ↦
            rw (some_ids, with_projects)
              (logs-with_channels c (stopping c s.exec_channel_unique_ids) (answers.channel_maps q)
                s h)
      ]

  logs-with_lock :
      (answers : Answers Rel) (now : ℕ) (lock : LockAnswer) (s : Recorder Rel)
      → length s.logs ≤ 100
      → length (with_lock answers now lock s).logs ≤ 100
  unfolding with_lock locked
  logs-with_lock answers now lock_error s h = length-add_log s.logs lock_failed
  logs-with_lock answers now lock_taken s h = h
  logs-with_lock answers now lock_got s h = elim (Bool-cases answers.released) [
    | inl yes_released ↦
        rw (yes_released, with_lock, locked) (logs-with_projects answers now answers.projects s h)
    | inr not_released ↦
        rw (not_released, with_lock, locked)
          (length-add_log (with_projects answers now answers.projects s).logs release_failed)
  ]

  -- At most a hundred messages are kept, pass after pass.
  pub logs-do_pass :
      (answers : Answers Rel) (now : ℕ) (s : Recorder Rel)
      → length s.logs ≤ 100
      → length (do_pass answers now s).logs ≤ 100
  unfolding do_pass
  logs-do_pass answers now s h =
      logs-with_lock answers now answers.lock (record s { executing = true }) h
