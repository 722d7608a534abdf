-- ===== src/ToolAdapters/TaskQueue/Preserve.antt =====
-- Runs of the operations of kernel/tool-adapters/task-queue.ts, and the queue's validity.
use avorelo.Common.{
  ℕ, String, refl, inl, inr, Option, none, some, List, [], ◌∷◌, length, arith, All, All-append,
  Bool-cases, IsSortedBy, length-append, ltb, leb, string_eq,
}
use avorelo.ToolAdapters.Types.{completed, cancelled, QueuedTask, EnqueueOptions, PartialConfig}
use avorelo.ToolAdapters.TaskQueue.{
  complete_found, fail_found, cancel_running, cancel_found, start_first, start, finish, retried,
  given_up, cancel_waiting, is_expired, QueueState, reset_task_queue, configure_task_queue,
  new_task, enqueue_task, dequeue_next, take_out, complete_task, fail_task, cancel_task,
  split_expired, timeout_expired_tasks, goes_before,
}
use avorelo.ToolAdapters.Scrub.{sanitize_error_summary}
use avorelo.ToolAdapters.TaskQueue.Inv.{
  Waits, Runs, Finished, Over, IsValid, Taken, RestSorted, snoc-All, take_out-Taken,
  take_out-RestSorted, push_sorted-sorted, push_sorted-All,
}

complete_found-IsValid :
    (o : Option (QueuedTask × List QueuedTask)) (now : ℕ) (s : QueueState)
    → Taken Runs o
    → IsValid s
    → IsValid (complete_found o now s).1
complete_found-IsValid none now s r v = v
complete_found-IsValid (some (t, rest)) now s r v = record {
  sorted = v.sorted;
  waiting = v.waiting;
  running = r.1;
  finished = snoc-All Finished s.completed (finish completed now t) v.finished (refl, r.0.1);
  over = v.over;
  processed = rw (length-append s.completed (finish completed now t ∷ []), v.processed) refl;
  lost = v.lost;
}

fail_found-IsValid :
    (o : Option (QueuedTask × List QueuedTask)) (now : ℕ) (summary : String) (s : QueueState)
    → Taken Runs o
    → IsValid s
    → IsValid (fail_found o now summary s).1
fail_found-IsValid none now summary s r v = v
fail_found-IsValid (some (t, rest)) now summary s r v =
    elim (Bool-cases (ltb t.retry_count t.max_retries)) [
      | inl e ↦ rw e (record {
        sorted = push_sorted-sorted (retried summary t) s.queue;
        waiting = push_sorted-All Waits (retried summary t) s.queue v.waiting (refl, ground arith);
        running = r.1;
        finished = v.finished;
        over = v.over;
        processed = v.processed;
        lost = v.lost;
      })
      | inr e ↦ rw e (record {
        sorted = v.sorted;
        waiting = v.waiting;
        running = r.1;
        finished = v.finished;
        over = snoc-All Over s.failed (given_up now summary t) v.over (tt, r.0.1);
        processed = v.processed;
        lost =
            rw (length-append s.failed (given_up now summary t ∷ []))
              (let l = v.lost in omega arith);
      })
    ]

cancel_running-IsValid :
    (o : Option (QueuedTask × List QueuedTask)) (now : ℕ) (s : QueueState)
    → Taken Runs o
    → IsValid s
    → IsValid (cancel_running o now s).1
cancel_running-IsValid none now s r v = v
cancel_running-IsValid (some (t, rest)) now s r v = record {
  sorted = v.sorted;
  waiting = v.waiting;
  running = r.1;
  finished = v.finished;
  over = snoc-All Over s.failed (finish cancelled now t) v.over (tt, r.0.1);
  processed = v.processed;
  lost = rw (length-append s.failed (finish cancelled now t ∷ [])) (let l = v.lost in omega arith);
}

cancel_found-IsValid :
    (o p : Option (QueuedTask × List QueuedTask)) (now : ℕ) (s : QueueState)
    → Taken Waits o
    → RestSorted o
    → Taken Runs p
    → IsValid s
    → IsValid (cancel_found o p now s).1
cancel_found-IsValid none p now s w k r v = cancel_running-IsValid p now s r v
cancel_found-IsValid (some (t, rest)) p now s w k r v = record {
  sorted = k;
  waiting = w.1;
  running = v.running;
  finished = v.finished;
  over = snoc-All Over s.failed (cancel_waiting now t) v.over (tt, w.0.1);
  processed = v.processed;
  lost = rw (length-append s.failed (cancel_waiting now t ∷ [])) (let l = v.lost in omega arith);
}

start_first-IsValid :
    (now : ℕ) (ts : List QueuedTask) (s : QueueState)
    → All Waits ts
    → IsSortedBy goes_before ts
    → IsValid s
    → IsValid (start_first now ts s).1
start_first-IsValid now [] s w k v = v
start_first-IsValid now (t ∷ ts) s w k v = record {
  sorted = k.1;
  waiting = w.1;
  running = snoc-All Runs s.running (start now t) v.running (refl, w.0.1);
  finished = v.finished;
  over = v.over;
  processed = v.processed;
  lost = v.lost;
}

split_expired-Runs :
    (now : ℕ) (ts : List QueuedTask)
    → All Runs ts
    → All Over (split_expired now ts).0 × All Runs (split_expired now ts).1
unfolding split_expired
split_expired-Runs now [] h = (tt, tt)
split_expired-Runs now (t ∷ ts) h =
    let rest = split_expired-Runs now ts h.1 in
    elim (Bool-cases (is_expired now t)) [
      | inl e ↦ rw e (((tt, h.0.1), rest.0), rest.1)
      | inr e ↦ rw e (rest.0, (h.0, rest.1))
    ]

timeout_expired_tasks-IsValid :
    (s : QueueState) (now : ℕ) → IsValid s → IsValid (timeout_expired_tasks s now).1
unfolding timeout_expired_tasks
timeout_expired_tasks-IsValid s now v =
    let r = split_expired-Runs now s.running v.running in
    record {
      sorted = v.sorted;
      waiting = v.waiting;
      running = r.1;
      finished = v.finished;
      over = All-append Over s.failed (split_expired now s.running).0 v.over r.0;
      processed = v.processed;
      lost =
          rw (length-append s.failed (split_expired now s.running).0)
            (let l = v.lost in omega arith);
    }

enqueue_task-IsValid :
    (s : QueueState) (now : ℕ) (adapter description : String) (opts : EnqueueOptions)
    → IsValid s
    → IsValid (enqueue_task s now adapter description opts).1
unfolding enqueue_task new_task
enqueue_task-IsValid s now adapter description opts v =
    let t = new_task s now adapter description opts in
    elim (Bool-cases (leb s.config.max_queue_size (length s.queue))) [
      | inl e ↦ rw e v
      | inr e ↦ rw e (record {
        sorted = push_sorted-sorted t s.queue;
        waiting = push_sorted-All Waits t s.queue v.waiting (refl, ground arith);
        running = v.running;
        finished = v.finished;
        over = v.over;
        processed = v.processed;
        lost = v.lost;
      })
    ]

dequeue_next-IsValid : (s : QueueState) (now : ℕ) → IsValid s → IsValid (dequeue_next s now).1
unfolding dequeue_next
dequeue_next-IsValid s now v = elim (Bool-cases (leb s.config.max_concurrent (length s.running))) [
  | inl e ↦ rw e v
  | inr e ↦ rw e (start_first-IsValid now s.queue s v.waiting v.sorted v)
]

-- An operation, and the state after it.
pub data Op : Type 0 where
  reset : Op
  configure : PartialConfig → Op
  enqueue : String → String → EnqueueOptions → Op
  dequeue time_out_expired : Op
  complete cancel : String → Op
  fail : String → String → Op

unfoldable pub step : QueueState → ℕ × Op → QueueState
unfolding reset_task_queue configure_task_queue
step s (now, reset) = reset_task_queue
step s (now, configure p) = configure_task_queue p s
step s (now, enqueue adapter description opts) = (enqueue_task s now adapter description opts).1
step s (now, dequeue) = (dequeue_next s now).1
step s (now, time_out_expired) = (timeout_expired_tasks s now).1
step s (now, complete id) = (complete_task s now id).1
step s (now, cancel id) = (cancel_task s now id).1
step s (now, fail id summary) = (fail_task s now id summary).1

-- The state after a run of operations, each at its time.
unfoldable pub run : List (ℕ × Op) → QueueState → QueueState
unfolding step
run [] s = s
run (op ∷ ops) s = run ops (step s op)

pub reset-IsValid : IsValid reset_task_queue
unfolding reset_task_queue
reset-IsValid = record {
  sorted = tt;
  waiting = tt;
  running = tt;
  finished = tt;
  over = tt;
  processed = refl;
  lost = ground arith;
}

step-IsValid : (s : QueueState) (op : ℕ × Op) → IsValid s → IsValid (step s op)
unfolding step configure_task_queue complete_task cancel_task fail_task
step-IsValid s (now, reset) v = reset-IsValid
step-IsValid s (now, configure p) v = record {
  sorted = v.sorted;
  waiting = v.waiting;
  running = v.running;
  finished = v.finished;
  over = v.over;
  processed = v.processed;
  lost = v.lost;
}
step-IsValid s (now, enqueue adapter description opts) v =
    enqueue_task-IsValid s now adapter description opts v
step-IsValid s (now, dequeue) v = dequeue_next-IsValid s now v
step-IsValid s (now, time_out_expired) v = timeout_expired_tasks-IsValid s now v
step-IsValid s (now, complete id) v =
    complete_found-IsValid (take_out s.running id) now s
      (take_out-Taken Runs s.running id v.running) v
step-IsValid s (now, cancel id) v =
    cancel_found-IsValid (take_out s.queue id) (take_out s.running id) now s
      (take_out-Taken Waits s.queue id v.waiting) (take_out-RestSorted s.queue id v.sorted)
      (take_out-Taken Runs s.running id v.running) v
step-IsValid s (now, fail id summary) v =
    fail_found-IsValid (take_out s.running id) now (sanitize_error_summary summary) s
      (take_out-Taken Runs s.running id v.running) v

-- Whatever operations run, at whatever times, a valid queue stays valid: it is sorted by priority
-- and then age; each list holds tasks of its own statuses only, retried at most as often as they may
-- be; the total of completed tasks is the length of their list; and the totals of failures and of
-- timeouts are together no more than the length of the list of what ended without success.
pub run-IsValid : (ops : List (ℕ × Op)) (s : QueueState) → IsValid s → IsValid (run ops s)
unfolding run
run-IsValid [] s v = v
run-IsValid (op ∷ ops) s v = run-IsValid ops (step s op) (step-IsValid s op v)
