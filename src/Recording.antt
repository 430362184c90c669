-- ===== src/Recording.antt =====
-- The recording plans: core/common/stream/plain.go, which turns the hours of a week into time
-- ranges, and core/app/sev/cron/internal/logic/crontab/video-project.go, which starts and stops
-- recordings by them. The hours of a plan are strings of one character; "1" is an hour that is on.
pub mod Cover
pub mod Pass
pub mod Failures
pub mod Tests
use skeyevss_backend_service.Prelude.{
  ℕ, zero, suc, ◌+◌, ◌-◌, ◌*◌, ◌/◌, ◌%◌, ◌≡◌, Bool, true, false, not, ◌&&◌, ◌||◌, Option, none,
  some, List, [], ◌∷◌, ◌++◌, if◌then◌else◌, ltb, leb, nat_beq, length, nat_comparable,
}
use skeyevss_backend_service.Text.{Text, bytes, text_beq, decimal}
use skeyevss_backend_service.GoMap.{GoMap, lookup, insert}
use skeyevss_backend_service.Arrays.{contains, arr_unique}

abbrev pub is_on : Text → Bool
is_on hour = text_beq hour (bytes "1")

-- The loop over the hours, from `hour` on: `start` is the hour at which the current range began
-- (-1 in the source is `none`), and `close` makes an entry of the result.
pub hour_loop {ℓ} :
    {R : Type ℓ} → (ℕ → ℕ → R) → ℕ → Option ℕ → List Text → List R → List R × Option ℕ
hour_loop close hour start [] result = (result, start)
hour_loop close hour none (d ∷ hours) result =
    if is_on d
    then hour_loop close (suc hour) (some hour) hours result
    else hour_loop close (suc hour) none hours result
hour_loop close hour (some start) (d ∷ hours) result =
    if is_on d
    then hour_loop close (suc hour) (some start) hours result
    else hour_loop close (suc hour) none hours (result ++ close start hour ∷ [])

-- What follows the loop: a range that is still open ends at 24.
pub close_last {ℓ} : {R : Type ℓ} → (ℕ → R) → List R × Option ℕ → List R
close_last close (result, none) = result
close_last close (result, some start) = result ++ close start ∷ []

-- `startOfDay.Add(hour * time.Hour).Unix()`
abbrev pub at_hour : ℕ → ℕ → ℕ
at_hour start_of_day hour = start_of_day + hour * 3600

-- GetTimeRanges; the start of the day of `b` in the local zone is that of package time.
pub get_time_ranges : List Text → ℕ → List (ℕ × ℕ)
unfolding hour_loop close_last
get_time_ranges hours start_of_day =
    close_last (λ start. (at_hour start_of_day start, at_hour start_of_day 24))
      (hour_loop (λ start hour. (at_hour start_of_day start, at_hour start_of_day hour)) 0 none
        hours [])

-- `%02d:00`
pub format_hour : ℕ → Text
unfolding decimal
format_hour hour = (if ltb hour 10 then b'0' ∷ decimal hour else decimal hour) ++ bytes ":00"

abbrev pub drop_hours : ℕ → List Text → List Text
drop_hours zero l = l
drop_hours (suc n) [] = []
drop_hours (suc n) (x ∷ l) = drop_hours n l

abbrev pub take_hours : ℕ → List Text → List Text
take_hours zero l = []
take_hours (suc n) [] = []
take_hours (suc n) (x ∷ l) = x ∷ take_hours n l

-- `data[day*24 : (day+1)*24]`
pub day_slice : ℕ → List Text → List Text
day_slice day hours = take_hours 24 (drop_hours (day * 24) hours)

pub views_loop : ℕ → ℕ → List Text → GoMap ℕ (List (Text × Text)) → GoMap ℕ (List (Text × Text))
unfolding hour_loop close_last format_hour day_slice insert
views_loop zero day hours result = result
views_loop (suc days) day hours result = views_loop days (suc day) hours (
    insert (suc day)
      (close_last (λ start. (format_hour start, bytes "24:00"))
        (hour_loop (λ start hour. (format_hour start, format_hour hour)) 0 none
          (day_slice day hours) []))
      result)

-- Views, over the 168 hours of a week.
pub views : List Text → GoMap ℕ (List (Text × Text))
unfolding views_loop
views hours = views_loop 7 0 hours []

-- videoProjects.Item: the plan as the characters that `strings.Split(item.Plans, "")` gives.
pub record Project : Type 0 where
  pub plans : List Text
  pub channel_unique_ids : List ℕ

pub week_loop : ℕ → ℕ → List Text → GoMap ℕ (List Text) → GoMap ℕ (List Text)
unfolding insert
week_loop zero i plains maps = maps
week_loop (suc days) i plains maps =
    week_loop days (suc i) plains (insert i (take_hours 24 (drop_hours ((i - 1) * 24) plains)) maps)

-- The hours of the days of the week, which are numbered from 1 to 7.
pub week_maps : List Text → GoMap ℕ (List Text)
unfolding week_loop
week_maps plains = week_loop 7 1 plains []

-- `params.Now >= val[0] && params.Now <= val[1]`
abbrev pub within : ℕ → ℕ × ℕ → Bool
within now r = leb r.0 now && leb now r.1

pub within_any : ℕ → List (ℕ × ℕ) → Bool
within_any now [] = false
within_any now (r ∷ ranges) = if within now r then true else within_any now ranges

pub hours_run : ℕ → ℕ → Option (List Text) → Bool
unfolding within_any get_time_ranges
hours_run now start_of_day none = false
hours_run now start_of_day (some hour_state) =
    within_any now (get_time_ranges hour_state start_of_day)

-- Whether the body of the loop over the plans comes to its last line.
pub runs_now : ℕ → ℕ → ℕ → Project → Bool
unfolding hours_run week_maps lookup
runs_now now week_day start_of_day item =
    if nat_beq (length item.plans) 0
    then false
    else if not (nat_beq (length item.plans) 168)
    then false
    else hours_run now start_of_day (lookup week_day (week_maps item.plans))

pub due_channels : ℕ → ℕ → ℕ → List Project → List ℕ
due_channels now week_day start_of_day [] = []
due_channels now week_day start_of_day (item ∷ rest) =
    let others = due_channels now week_day start_of_day rest in
    if runs_now now week_day start_of_day item then item.channel_unique_ids ++ others else others

-- The loop over the channels that record since an earlier pass.
pub stopping : List ℕ → List ℕ → List ℕ
unfolding contains
stopping channel_ids [] = []
stopping channel_ids (item ∷ rest) =
    let others = stopping channel_ids rest in
    if not (contains item channel_ids) then item ∷ others else others

-- What Redis answers to AcquireLock.
pub data LockAnswer : Type 0 where
  lock_error lock_taken lock_got : LockAnswer

-- The answers of Redis and of the RPC services to one pass, and what package time makes of its time. A
-- channel of which the device service says nothing is a nil pointer.
pub record Answers (Rel : Type 0) : Type 0 where
  pub lock : LockAnswer
  pub released : Bool
  pub projects : Option (List Project)
  pub channel_maps : List ℕ → Option (GoMap ℕ Rel)
  pub week_day : ℕ
  pub start_of_day : ℕ

-- The messages that are logged.
pub data Log : Type 0 where
  lock_failed release_failed projects_failed channels_failed : Log

-- VideoProjectLogic, and the logs of its record.
pub record Recorder (Rel : Type 0) : Type 0 where
  pub executing : Bool
  pub exec_channel_unique_ids : List ℕ
  pub start_recording_ids : List (GoMap ℕ (Option Rel))
  pub stop_recording_ids : List (GoMap ℕ (Option Rel))
  pub logs : List Log

abbrev pub drop_logs : ℕ → List Log → List Log
drop_logs zero l = l
drop_logs (suc n) [] = []
drop_logs (suc n) (x ∷ l) = drop_logs n l

-- `logs`: the last hundred messages stay.
pub add_log : List Log → Log → List Log
add_log logs item =
    let records = logs ++ item ∷ [] in
    if ltb (length records) 100 then records else drop_logs (length records - 100) records

module _ {Rel : Type 0} where
  abbrev pub note : Log → Recorder Rel → Recorder Rel
  note m s = record s { logs = add_log s.logs m }

  pub rel_map : GoMap ℕ Rel → List ℕ → GoMap ℕ (Option Rel) → GoMap ℕ (Option Rel)
  unfolding lookup insert
  rel_map rels [] m = m
  rel_map rels (item ∷ rest) m = rel_map rels rest (insert item (lookup item rels) m)

  -- `if len(m) > 0 { queue <- m }`
  pub send_any : GoMap ℕ (Option Rel) → List (GoMap ℕ (Option Rel)) → List (GoMap ℕ (Option Rel))
  send_any [] queue = queue
  send_any (x ∷ m) queue = queue ++ (x ∷ m) ∷ []

  -- From the answer of the device service on.
  pub with_channels : List ℕ → List ℕ → Option (GoMap ℕ Rel) → Recorder Rel → Recorder Rel
  unfolding add_log rel_map send_any
  with_channels channel_ids stop_ids none s = note channels_failed s
  with_channels channel_ids stop_ids (some rels) s = record s {
    exec_channel_unique_ids = channel_ids;
    start_recording_ids = send_any (rel_map rels channel_ids []) s.start_recording_ids;
    stop_recording_ids = send_any (rel_map rels stop_ids []) s.stop_recording_ids;
  }

  -- From the answer of the configuration service on.
  pub with_projects : Answers Rel → ℕ → Option (List Project) → Recorder Rel → Recorder Rel
  unfolding due_channels stopping with_channels arr_unique
  with_projects answers now none s = note projects_failed s
  with_projects answers now (some projects) s =
      let channel_ids =
        arr_unique (due_channels now answers.week_day answers.start_of_day projects) in
      let stop_ids = stopping channel_ids s.exec_channel_unique_ids in
      let query = channel_ids ++ stop_ids in
      if nat_beq (length query) 0
      then s
      else with_channels channel_ids stop_ids (answers.channel_maps query) s

  -- Behind the lock, which is released at the end.
  pub locked : Answers Rel → ℕ → Recorder Rel → Recorder Rel
  unfolding with_projects
  locked answers now s =
      let t = with_projects answers now answers.projects s in
      if answers.released then t else note release_failed t

  pub with_lock : Answers Rel → ℕ → LockAnswer → Recorder Rel → Recorder Rel
  unfolding locked
  with_lock answers now lock_error s = note lock_failed s
  with_lock answers now lock_taken s = s
  with_lock answers now lock_got s = locked answers now s

  -- do: `executing` is set for the time of the pass.
  pub do_pass : Answers Rel → ℕ → Recorder Rel → Recorder Rel
  unfolding with_lock
  do_pass answers now s =
      let t = with_lock answers now answers.lock (record s { executing = true }) in
      record t { executing = false }
