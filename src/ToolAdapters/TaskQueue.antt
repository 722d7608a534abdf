-- ===== src/ToolAdapters/TaskQueue.antt =====
-- kernel/tool-adapters/task-queue.ts: the module's variables are one state, which each operation
-- takes and gives back; `Date.now()` is an argument, one for each call.
pub mod Inv
pub mod Preserve
pub mod Count
pub mod Ids
pub mod Bounds
use avorelo.Common.{
  ℕ, zero, suc, ◌+◌, ◌-◌, String, Bool, true, false, not, ◌&&◌, ◌||◌, Option, none, some, List, [],
  ◌∷◌, ◌++◌, length, get_or, if◌then◌else◌, ltb, leb, nat_beq, ◌==◌, string_eq, ◌&◌, sort_by, ℤ,
  pos, difference,
}
use avorelo.Json.{decimal}
use avorelo.ToolAdapters.Types.{
  ExecutionMode, real, RiskCeiling, medium, TaskPriority, critical, high, normal, low, background,
  TaskStatus, queued, running, completed, failed, cancelled, timed_out, QueuedTask, TaskQueueConfig,
  PartialConfig, EnqueueOptions,
}
use avorelo.ToolAdapters.Scrub.{sanitize_error_summary}

pub record QueueState : Type 0 where
  pub queue : List QueuedTask
  pub running : List QueuedTask
  pub completed : List QueuedTask
  pub failed : List QueuedTask
  pub total_processed : ℕ
  pub total_failed : ℕ
  pub total_timed_out : ℕ
  pub config : TaskQueueConfig
  pub next_id : ℕ

pub default_config : TaskQueueConfig
default_config = record {
  max_concurrent = 3;
  max_queue_size = 100;
  default_timeout_ms = 300000;
  default_max_retries = 2;
  priority_order = critical ∷ high ∷ normal ∷ low ∷ background ∷ [];
}

pub reset_task_queue : QueueState
unfolding default_config
reset_task_queue = record {
  queue = [];
  running = [];
  completed = [];
  failed = [];
  total_processed = 0;
  total_failed = 0;
  total_timed_out = 0;
  config = default_config;
  next_id = 1;
}

pub configure_task_queue : PartialConfig → QueueState → QueueState
configure_task_queue p s = record s {
  config = record {
    max_concurrent = get_or p.max_concurrent s.config.max_concurrent;
    max_queue_size = get_or p.max_queue_size s.config.max_queue_size;
    default_timeout_ms = get_or p.default_timeout_ms s.config.default_timeout_ms;
    default_max_retries = get_or p.default_max_retries s.config.default_max_retries;
    priority_order = get_or p.priority_order s.config.priority_order;
  };
}

-- `PRIORITY_ORDER.indexOf`
abbrev pub priority_index : TaskPriority → ℕ
priority_index critical = 0
priority_index high = 1
priority_index normal = 2
priority_index low = 3
priority_index background = 4

-- The comparator of the queue: it is not above 0.
abbrev pub goes_before : QueuedTask → QueuedTask → Bool
goes_before a b =
    if nat_beq (priority_index a.priority) (priority_index b.priority)
    then leb a.queued_at b.queued_at
    else leb (priority_index a.priority) (priority_index b.priority)

-- A new task.
pub new_task : QueueState → ℕ → String → String → EnqueueOptions → QueuedTask
unfolding decimal
new_task s now adapter description opts = record {
  task_id = "task-" & decimal s.next_id;
  adapter_id = adapter;
  execution_mode = get_or opts.execution_mode real;
  priority = get_or opts.priority normal;
  status = queued;
  sanitized_description = description;
  risk_ceiling = get_or opts.risk_ceiling medium;
  timeout_ms = get_or opts.timeout_ms s.config.default_timeout_ms;
  max_retries = get_or opts.max_retries s.config.default_max_retries;
  retry_count = 0;
  queued_at = now;
  started_at = none;
  completed_at = none;
  duration_ms = none;
  error_summary = none;
  contains_raw_prompt = false;
  contains_raw_source = false;
  contains_raw_secret = false;
  contains_raw_output = false;
}

-- `queue.push(task); sortQueue()`
abbrev push_sorted : QueuedTask → QueueState → QueueState
push_sorted t s = record s { queue = sort_by goes_before (s.queue ++ t ∷ []) }

unfoldable pub enqueue_task :
    QueueState → ℕ → String → String → EnqueueOptions → Option QueuedTask × QueueState
unfolding new_task
enqueue_task s now adapter description opts =
    if leb s.config.max_queue_size (length s.queue)
    then (none, s)
    else (let t = new_task s now adapter description opts in
        (some t, push_sorted t (record s { next_id = s.next_id + 1 })))

abbrev start : ℕ → QueuedTask → QueuedTask
start now t = record t { status = running; started_at = some now }

abbrev start_first : ℕ → List QueuedTask → QueueState → Option QueuedTask × QueueState
start_first now [] s = (none, s)
start_first now (t ∷ ts) s =
    (some (start now t), record s { queue = ts; running = s.running ++ start now t ∷ [] })

unfoldable pub dequeue_next : QueueState → ℕ → Option QueuedTask × QueueState
dequeue_next s now =
    if leb s.config.max_concurrent (length s.running) then (none, s) else start_first now s.queue s

-- `findIndex` and `splice`: the first task with this id, and the others.
abbrev put_back :
    QueuedTask → Option (QueuedTask × List QueuedTask) → Option (QueuedTask × List QueuedTask)
put_back t none = none
put_back t (some (found, rest)) = some (found, t ∷ rest)

pub take_out : List QueuedTask → String → Option (QueuedTask × List QueuedTask)
take_out [] id = none
take_out (t ∷ ts) id =
    let rest = put_back t (take_out ts id) in if t.task_id == id then some (t, ts) else rest

-- `task.startedAt ? completedAt - startedAt : 0`, where 0 is no start.
abbrev run_duration : Option ℕ → ℕ → ℤ
run_duration none end = pos 0
run_duration (some zero) end = pos 0
run_duration (some (suc t)) end = difference end (suc t)

abbrev finish : TaskStatus → ℕ → QueuedTask → QueuedTask
finish status now t = record t {
  status = status;
  completed_at = some now;
  duration_ms = some (run_duration t.started_at now);
}

abbrev complete_found :
    Option (QueuedTask × List QueuedTask) → ℕ → QueueState → Option QueuedTask × QueueState
complete_found none now s = (none, s)
complete_found (some (t, rest)) now s = (
  some (finish completed now t),
  record s {
    running = rest;
    completed = s.completed ++ finish completed now t ∷ [];
    total_processed = s.total_processed + 1;
  },
)

unfoldable pub complete_task : QueueState → ℕ → String → Option QueuedTask × QueueState
unfolding take_out
complete_task s now id = complete_found (take_out s.running id) now s

-- The task of a retry, and of the last failure.
abbrev retried : String → QueuedTask → QueuedTask
retried summary t = record t {
  retry_count = t.retry_count + 1;
  status = queued;
  started_at = none;
  error_summary = some summary;
}

abbrev given_up : ℕ → String → QueuedTask → QueuedTask
given_up now summary t = record (finish failed now t) { error_summary = some summary }

abbrev fail_found :
    Option (QueuedTask × List QueuedTask) → ℕ → String → QueueState → Option QueuedTask × QueueState
fail_found none now summary s = (none, s)
fail_found (some (t, rest)) now summary s =
    if ltb t.retry_count t.max_retries
    then (some (retried summary t), push_sorted (retried summary t) (record s { running = rest }))
    else (
      some (given_up now summary t),
      record s {
        running = rest;
        failed = s.failed ++ given_up now summary t ∷ [];
        total_failed = s.total_failed + 1;
      },
    )

unfoldable pub fail_task : QueueState → ℕ → String → String → Option QueuedTask × QueueState
unfolding take_out sanitize_error_summary
fail_task s now id summary =
    fail_found (take_out s.running id) now (sanitize_error_summary summary) s

-- A waiting task that is cancelled never ran and gets no duration.
abbrev cancel_waiting : ℕ → QueuedTask → QueuedTask
cancel_waiting now t = record t { status = cancelled; completed_at = some now }

abbrev cancel_running :
    Option (QueuedTask × List QueuedTask) → ℕ → QueueState → Option QueuedTask × QueueState
cancel_running none now s = (none, s)
cancel_running (some (t, rest)) now s = (
  some (finish cancelled now t),
  record s { running = rest; failed = s.failed ++ finish cancelled now t ∷ [] },
)

abbrev cancel_found :
    Option (QueuedTask × List QueuedTask)
    → Option (QueuedTask × List QueuedTask)
    → ℕ
    → QueueState
    → Option QueuedTask × QueueState
cancel_found none ran now s = cancel_running ran now s
cancel_found (some (t, rest)) ran now s = (
  some (cancel_waiting now t),
  record s { queue = rest; failed = s.failed ++ cancel_waiting now t ∷ [] },
)

unfoldable pub cancel_task : QueueState → ℕ → String → Option QueuedTask × QueueState
unfolding take_out
cancel_task s now id = cancel_found (take_out s.queue id) (take_out s.running id) now s

-- `task.startedAt && (now - task.startedAt) > task.timeoutMs`, where 0 is no start.
abbrev runs_over : Option ℕ → ℕ → ℕ → Bool
runs_over none timeout now = false
runs_over (some zero) timeout now = false
runs_over (some (suc t)) timeout now = ltb (suc t + timeout) now

abbrev pub is_expired : ℕ → QueuedTask → Bool
is_expired now t = runs_over t.started_at t.timeout_ms now

abbrev time_out : ℕ → QueuedTask → QueuedTask
time_out now t = record (finish timed_out now t) { error_summary = some "task_timed_out" }

-- The loop over the running tasks: those timed out, and those still running.
pub split_expired : ℕ → List QueuedTask → List QueuedTask × List QueuedTask
split_expired now [] = ([], [])
split_expired now (t ∷ ts) =
    let (expired, still) = split_expired now ts in
    if is_expired now t then (time_out now t ∷ expired, still) else (expired, t ∷ still)

unfoldable pub timeout_expired_tasks : QueueState → ℕ → List QueuedTask × QueueState
unfolding split_expired
timeout_expired_tasks s now =
    let (expired, still) = split_expired now s.running in
    (
      expired,
      record s {
        running = still;
        failed = s.failed ++ expired;
        total_timed_out = s.total_timed_out + length expired;
      },
    )

-- The snapshot, whose other fields are constants of its type.
pub record TaskQueueState : Type 0 where
  pub contract : String
  pub queued : List QueuedTask
  pub running : List QueuedTask
  pub completed : List QueuedTask
  pub failed : List QueuedTask
  pub config : TaskQueueConfig
  pub total_processed : ℕ
  pub total_failed : ℕ
  pub total_timed_out : ℕ
  pub contains_raw_prompt : Bool
  pub contains_raw_source : Bool
  pub contains_raw_secret : Bool
  pub contains_raw_output : Bool
  pub model_may_decide : Bool
  pub scanner_may_decide : Bool
  pub final_decision_owner : String

pub get_task_queue_state : QueueState → TaskQueueState
get_task_queue_state s = record {
  contract = "avorelo.taskQueue.v1";
  queued = s.queue;
  running = s.running;
  completed = s.completed;
  failed = s.failed;
  config = s.config;
  total_processed = s.total_processed;
  total_failed = s.total_failed;
  total_timed_out = s.total_timed_out;
  contains_raw_prompt = false;
  contains_raw_source = false;
  contains_raw_secret = false;
  contains_raw_output = false;
  model_may_decide = false;
  scanner_may_decide = false;
  final_decision_owner = "kernel/stop-continue-gate";
}

pub get_queue_depth : QueueState → ℕ
get_queue_depth s = length s.queue

pub get_running_count : QueueState → ℕ
get_running_count s = length s.running
