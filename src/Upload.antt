-- ===== src/Upload.antt =====
-- core/pkg/s3obs/s3_upload_queue.go: tasks wait in two bounded channels, a dispatcher collects them
-- in buffers and hands them to workers at each tick, and results wait in a third channel.
-- The buffers are the dispatcher's local variables, `active` holds the tasks that workers have in
-- hand and `returning` the results that goroutines of WaitForTaskResult hold. Each step is what one
-- goroutine does between two channel operations. A send to a full channel fails, which for the
-- capacity 0 leaves out the hand-over to a receiver that waits already. sort.Slice is a parameter,
-- which keeps the tasks; contexts, the removal of local files and the readings of the clock but for
-- the identifier are left out.
pub mod Retry
pub mod Steps
pub mod Places
pub mod Conserved
pub mod Runs
pub mod Flush
pub mod Tests
use skeyevss_backend_service.Prelude.{
  ℕ, zero, suc, ◌+◌, ◌*◌, ◌/◌, ◌^◌, ◌≡◌, Bool, true, false, not, ◌&&◌, Option, none, some, List, [],
  ◌∷◌, ◌++◌, Perm, if◌then◌else◌, length, ltb, leb, get_elem?, take, drop, ℤ, pos, negsuc, ◌+ℤ◌,
  ltb_ℤ, pos_part,
}
use skeyevss_backend_service.Text.{Text, text_beq, text_comparable, bytes, decimal}
use skeyevss_backend_service.GoMap.{GoMap}
use skeyevss_backend_service.XMap.{Outcome, returned, panicked}

-- UploadTask
pub record Task : Type 0 where
  pub id : Text
  pub local_file_path : Text
  pub s3_key : Text
  pub max_retries : ℤ
  pub timeout : ℤ
  pub priority : ℤ

-- The errors of an upload: after a timeout, after all attempts, one that is not retried. The error
-- that processTask sets after a panic is in no result, since the function then returns nil.
pub data UploadError : Type 0 where
  timed_out : ℤ → Text → UploadError
  exhausted : ℕ → Text → UploadError
  not_retried : Text → UploadError

-- UploadResult; `R` is the record of the upload.
pub record Result (R : Type 0) : Type 0 where
  pub task : Task
  pub record_of : Option R
  pub error : Option UploadError

-- What processTask puts in a result: the record, the error and the number of attempts made.
pub record Verdict (R : Type 0) : Type 0 where
  pub answer : Option R
  pub error : Option UploadError
  pub attempts : ℕ

-- UploadQueueConfig
pub record Config : Type 0 where
  pub max_concurrent_uploads : ℤ
  pub max_queue_size : ℤ
  pub default_timeout : ℤ
  pub default_retries : ℤ
  pub retry_delay : ℤ
  pub priority_enabled : Bool
  pub result_buffer_size : ℤ

-- QueueStats
pub record Stats : Type 0 where
  pub total_tasks : ℕ
  pub success_tasks : ℕ
  pub failed_tasks : ℕ
  pub active_workers : ℤ
  pub waiting_tasks : ℤ

-- The lines of the log that speak of a task.
pub data LogLine : Type 0 where
  task_delayed : Task → LogLine
  result_dropped : Task → LogLine

-- UploadQueue. A nil among the results is `none`.
pub record Queue (R : Type 0) : Type 0 where
  pub config : Config
  pub task_chan : List Task
  pub priority_chan : List Task
  pub result_chan : List (Option (Result R))
  pub working : List Task
  pub stop_closed : Bool
  pub working_closed : Bool
  pub is_running : Bool
  pub stats : Stats
  pub task_map : GoMap Text Task
  pub task_buffer : List Task
  pub priority_buffer : List Task
  pub active : List Task
  pub returning : List (Result R)
  pub log : List LogLine

-- sort.Slice by the priority.
pub record Sorting : Type 0 where
  pub sort : List Task → List Task
  pub sort-Perm : (tasks : List Task) → Perm (sort tasks) tasks

pub data AddError : Type 0 where
  priority_full : ℕ → AddError
  tasks_full : ℕ → AddError

abbrev pub or_default : ℤ → ℤ → ℤ
or_default default n = if ltb_ℤ (pos 0) n then n else default

-- NewUploadQueue: the configuration that it leaves.
unfoldable pub completed : Config → Config
completed c = record {
  max_concurrent_uploads = or_default (pos 5) c.max_concurrent_uploads;
  max_queue_size = or_default (pos 1000) c.max_queue_size;
  default_timeout = or_default (pos (30 * 60 * 10 ^ 9)) c.default_timeout;
  default_retries = or_default (pos 3) c.default_retries;
  retry_delay = or_default (pos (5 * 10 ^ 9)) c.retry_delay;
  priority_enabled = c.priority_enabled;
  result_buffer_size = or_default (pos 100) c.result_buffer_size;
}

abbrev pub no_stats : Stats
no_stats = record {
  total_tasks = 0;
  success_tasks = 0;
  failed_tasks = 0;
  active_workers = pos 0;
  waiting_tasks = pos 0;
}

-- NewUploadQueue
unfoldable pub new_upload_queue : {R : Type 0} → Config → Queue R
unfolding completed
new_upload_queue config = record {
  config = completed config;
  task_chan = [];
  priority_chan = [];
  result_chan = [];
  working = [];
  stop_closed = false;
  working_closed = false;
  is_running = false;
  stats = no_stats;
  task_map = [];
  task_buffer = [];
  priority_buffer = [];
  active = [];
  returning = [];
  log = [];
}

-- The capacities of the channels.
abbrev pub task_capacity : Config → ℕ
task_capacity c = pos_part c.max_queue_size

abbrev pub priority_capacity : Config → ℕ
priority_capacity c = pos_part c.max_queue_size / 2

abbrev pub working_capacity : Config → ℕ
working_capacity c = pos_part c.max_concurrent_uploads * 10

abbrev pub result_capacity : Config → ℕ
result_capacity c = pos_part c.result_buffer_size

-- A send that does not wait.
abbrev pub try_send : {A : Type 0} → ℕ → A → List A → Option (List A)
try_send capacity a chan = if ltb (length chan) capacity then some (chan ++ a ∷ []) else none

abbrev pub is_urgent : Task → Bool
is_urgent t = not (ltb_ℤ (pos 2) t.priority)

-- updateWaitingTasks
abbrev pub update_waiting_tasks : ℤ → Stats → Stats
update_waiting_tasks delta s = record s { waiting_tasks = s.waiting_tasks +ℤ delta }

-- updateStatsOnAdd
abbrev pub update_stats_on_add : Stats → Stats
update_stats_on_add s = record s {
  total_tasks = suc s.total_tasks;
  waiting_tasks = s.waiting_tasks +ℤ pos 1;
}

-- updateStatsOnResult
abbrev pub update_stats_on_result : {R : Type 0} → Result R → Stats → Stats
update_stats_on_result r s =
    let t : Stats = record s { waiting_tasks = s.waiting_tasks +ℤ negsuc 0 } in
    elim r.error [
      | some e ↦ record t { failed_tasks = suc t.failed_tasks }
      | none ↦ record t { success_tasks = suc t.success_tasks }
    ]

-- setTaskDefaults and generateTaskID
unfoldable pub set_task_defaults : Config → ℕ → Task → Task
set_task_defaults c now t = record t {
  timeout = or_default c.default_timeout t.timeout;
  max_retries = or_default c.default_retries t.max_retries;
  id = if text_beq t.id [] then bytes "s3_task_" ++ decimal now else t.id;
}
