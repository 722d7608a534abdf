-- ===== src/ToolAdapters/TaskQueue/Bounds.antt =====
-- How long the lists of task-queue.ts grow, while the configuration stays.
use avorelo.Common.{
  ℕ, ◌+◌, ◌≤◌, String, ◌≡◌, refl, ap, Bool, true, false, Option, none, some, List, [], ◌∷◌, length,
  length-append, arith, any, Bool-cases, inl, inr, leb,
}
use avorelo.ToolAdapters.Types.{QueuedTask}
use avorelo.ToolAdapters.Scrub.{sanitize_error_summary}
use avorelo.ToolAdapters.TaskQueue.{
  QueueState, reset_task_queue, default_config, new_task, enqueue_task, dequeue_next, take_out,
  complete_task, fail_task, cancel_task, timeout_expired_tasks, complete_found, fail_found,
  cancel_found, start_first, start, retried,
}
use avorelo.ToolAdapters.TaskQueue.Preserve.{
  Op, reset, configure, enqueue, dequeue, time_out_expired, complete, cancel, fail, step, run,
}
use avorelo.ToolAdapters.TaskQueue.Count.{
  RestShorter, take_out-RestShorter, length-pushed, length-split_expired,
}

-- No more tasks run than may, and no more wait and run than both limits together.
pub record IsBounded (s : QueueState) : Type 0 where
  pub running : length s.running ≤ s.config.max_concurrent
  pub together :
      length s.queue + length s.running ≤ s.config.max_queue_size + s.config.max_concurrent

complete_found-IsBounded :
    (o : Option (QueuedTask × List QueuedTask)) (now : ℕ) (s : QueueState)
    → RestShorter (length s.running) o
    → IsBounded s
    → IsBounded (complete_found o now s).1
complete_found-IsBounded none now s h b = b
complete_found-IsBounded (some (t, rest)) now s h b =
    let r = b.running in
    let q = b.together in record { running = ground arith; together = ground arith }

fail_found-IsBounded :
    (o : Option (QueuedTask × List QueuedTask)) (now : ℕ) (summary : String) (s : QueueState)
    → RestShorter (length s.running) o
    → IsBounded s
    → IsBounded (fail_found o now summary s).1
fail_found-IsBounded none now summary s h b = b
fail_found-IsBounded (some (t, rest)) now summary s h b =
    let r = b.running in
    let q = b.together in
    record {
      running = ground arith;
      together = ground (arith, length-pushed s.queue (retried summary t));
    }

cancel_found-IsBounded :
    (o p : Option (QueuedTask × List QueuedTask)) (now : ℕ) (s : QueueState)
    → RestShorter (length s.queue) o
    → RestShorter (length s.running) p
    → IsBounded s
    → IsBounded (cancel_found o p now s).1
cancel_found-IsBounded none none now s h k b = b
cancel_found-IsBounded none (some (t, rest)) now s h k b =
    let r = b.running in
    let q = b.together in record { running = ground arith; together = ground arith }
cancel_found-IsBounded (some (t, rest)) p now s h k b =
    let r = b.running in
    let q = b.together in record { running = ground arith; together = ground arith }

start_first-IsBounded :
    (now : ℕ) (ts : List QueuedTask) (s : QueueState)
    → ts ≡ s.queue
    → leb s.config.max_concurrent (length s.running) ≡ false
    → IsBounded s
    → IsBounded (start_first now ts s).1
start_first-IsBounded now [] s e l b = b
start_first-IsBounded now (t ∷ ts) s e l b =
    let q = b.together in
    let more = length-append s.running (start now t ∷ []) in
    let fewer = ap length e in record { running = ground arith; together = ground arith }

abbrev pub is_configure : ℕ × Op → Bool
is_configure (now, configure p) = true
is_configure _ = false

dequeue_next-IsBounded : (s : QueueState) (now : ℕ) → IsBounded s → IsBounded (dequeue_next s now).1
unfolding dequeue_next
dequeue_next-IsBounded s now b =
    elim (Bool-cases (leb s.config.max_concurrent (length s.running))) [
      | inl e ↦ rw e b
      | inr e ↦ rw e (start_first-IsBounded now s.queue s refl e b)
    ]

pub reset-IsBounded : IsBounded reset_task_queue
unfolding reset_task_queue default_config
reset-IsBounded = record { running = ground arith; together = ground arith }

step-IsBounded :
    (s : QueueState) (op : ℕ × Op) → is_configure op ≡ false → IsBounded s → IsBounded (step s op)
unfolding step reset_task_queue default_config enqueue_task dequeue_next complete_task cancel_task
    fail_task timeout_expired_tasks
step-IsBounded s (now, reset) n b = reset-IsBounded
step-IsBounded s (now, configure p) n b = cc
step-IsBounded s (now, enqueue adapter description opts) n b =
    let r = b.running in
    let q = b.together in
    let more = length-pushed s.queue (new_task s now adapter description opts) in
    record { running = ground arith; together = ground arith }
step-IsBounded s (now, dequeue) n b = dequeue_next-IsBounded s now b
step-IsBounded s (now, time_out_expired) n b =
    let r = b.running in
    let q = b.together in
    let fewer = length-split_expired now s.running in
    record { running = ground arith; together = ground arith }
step-IsBounded s (now, complete id) n b =
    complete_found-IsBounded (take_out s.running id) now s (take_out-RestShorter s.running id) b
step-IsBounded s (now, cancel id) n b =
    cancel_found-IsBounded (take_out s.queue id) (take_out s.running id) now s
      (take_out-RestShorter s.queue id) (take_out-RestShorter s.running id) b
step-IsBounded s (now, fail id summary) n b =
    fail_found-IsBounded (take_out s.running id) now (sanitize_error_summary summary) s
      (take_out-RestShorter s.running id) b

-- From a state within these bounds, under any operations but a change of the configuration: no more
-- tasks run than the configuration allows, and the waiting and the running tasks together are no more
-- than the size of the queue and the number that may run together.
pub run-IsBounded :
    (ops : List (ℕ × Op)) (s : QueueState)
    → any is_configure ops ≡ false
    → IsBounded s
    → IsBounded (run ops s)
unfolding run
run-IsBounded [] s n b = b
run-IsBounded (op ∷ ops) s n b =
    run-IsBounded ops (step s op) (ground arith) (step-IsBounded s op (ground arith) b)
