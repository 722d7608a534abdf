-- ===== src/ToolAdapters/TaskQueue/Ids.antt =====
-- Which tasks the lists of task-queue.ts hold, by their ids.
use avorelo.Common.{
  ℕ, zero, suc, ◌+◌, String, ◌≡◌, refl, ap, ◌∙◌, Option, none, some, List, [], ◌∷◌, ◌++◌, length,
  arith, Bool-cases, inl, inr, sort_by, insert_by, leb, ◌==◌, string_eq, if◌then◌else◌, ◌&◌,
}
use mathlib.Core.Path.{subst}
use avorelo.Json.{decimal}
use avorelo.ToolAdapters.Types.{completed, cancelled, QueuedTask, EnqueueOptions}
use avorelo.ToolAdapters.Scrub.{sanitize_error_summary}
use avorelo.ToolAdapters.TaskQueue.{
  QueueState, reset_task_queue, configure_task_queue, new_task, enqueue_task, dequeue_next,
  take_out, complete_task, fail_task, cancel_task, split_expired, timeout_expired_tasks,
  goes_before, finish, retried, given_up, cancel_waiting, start, put_back, complete_found,
  fail_found, cancel_found, start_first, is_expired,
}
use avorelo.ToolAdapters.TaskQueue.Preserve.{
  Op, reset, configure, enqueue, dequeue, time_out_expired, complete, cancel, fail, step, run,
}

-- The id with a number, and the ids with the numbers from 1 to `n`.
abbrev pub id_of : ℕ → String
id_of n = "task-" & decimal n

abbrev pub given_out : ℕ → List String
given_out zero = []
given_out (suc n) = id_of (suc n) ∷ given_out n

-- How often an id is in a list of ids.
abbrev pub times : String → List String → ℕ
times id [] = 0
times id (x ∷ xs) = (if x == id then 1 else 0) + times id xs

-- How many tasks of a list have an id.
abbrev pub tasks_with : String → List QueuedTask → ℕ
tasks_with id [] = 0
tasks_with id (t ∷ ts) = (if t.task_id == id then 1 else 0) + tasks_with id ts

-- How many tasks in the four lists have an id.
abbrev pub tasks_in_all : String → QueueState → ℕ
tasks_in_all id s =
    tasks_with id s.queue
    + tasks_with id s.running
    + tasks_with id s.completed
    + tasks_with id s.failed

module _ (id : String) where
  tasks_with-append :
      (ts us : List QueuedTask) → tasks_with id (ts ++ us) ≡ tasks_with id ts + tasks_with id us
  tasks_with-append [] us = omega arith
  tasks_with-append (t ∷ ts) us = omega (arith, tasks_with-append ts us)

  tasks_with-insert_by :
      (t : QueuedTask) (ts : List QueuedTask)
      → tasks_with id (insert_by goes_before t ts) ≡ tasks_with id (t ∷ ts)
  unfolding insert_by
  tasks_with-insert_by t [] = refl
  tasks_with-insert_by t (u ∷ ts) = elim (Bool-cases (goes_before t u)) [
    | inl e ↦ rw e refl
    | inr e ↦ rw e (let k = tasks_with-insert_by t ts in omega arith)
  ]

  tasks_with-sort_by :
      (ts : List QueuedTask) → tasks_with id (sort_by goes_before ts) ≡ tasks_with id ts
  unfolding sort_by
  tasks_with-sort_by [] = refl
  tasks_with-sort_by (t ∷ ts) =
      let k = tasks_with-insert_by t (sort_by goes_before ts) in
      let l = tasks_with-sort_by ts in omega arith

  -- A task pushed and sorted in is one more task with its id.
  tasks_with-pushed :
      (ts : List QueuedTask) (t : QueuedTask)
      → tasks_with id (sort_by goes_before (ts ++ t ∷ []))
        ≡ tasks_with id ts + tasks_with id (t ∷ [])
  tasks_with-pushed ts t = tasks_with-sort_by (ts ++ t ∷ []) ∙ tasks_with-append ts (t ∷ [])

  -- What was taken out and the rest make up so many tasks with the id.
  abbrev Divided : ℕ → Option (QueuedTask × List QueuedTask) → Type 0
  Divided n none = Unit
  Divided n (some (t, rest)) = tasks_with id (t ∷ []) + tasks_with id rest ≡ n

  put_back-Divided :
      (n : ℕ) (t : QueuedTask) (o : Option (QueuedTask × List QueuedTask))
      → Divided n o
      → Divided (tasks_with id (t ∷ []) + n) (put_back t o)
  put_back-Divided n t none h = tt
  put_back-Divided n t (some (u, rest)) h = omega arith

  take_out-Divided :
      (ts : List QueuedTask) (key : String) → Divided (tasks_with id ts) (take_out ts key)
  unfolding take_out
  take_out-Divided [] key = tt
  take_out-Divided (t ∷ ts) key = elim (Bool-cases (t.task_id == key)) [
    | inl e ↦ rw e (omega arith)
    | inr e ↦ rw e (
        subst (λ n. Divided n (put_back t (take_out ts key))) (omega arith)
          (put_back-Divided (tasks_with id ts) t (take_out ts key) (take_out-Divided ts key)))
  ]

  tasks_with-split_expired :
      (now : ℕ) (ts : List QueuedTask)
      → tasks_with id (split_expired now ts).0 + tasks_with id (split_expired now ts).1
        ≡ tasks_with id ts
  unfolding split_expired
  tasks_with-split_expired now [] = refl
  tasks_with-split_expired now (t ∷ ts) =
      let rest = tasks_with-split_expired now ts in
      elim (Bool-cases (is_expired now t)) [
        | inl e ↦ rw e (omega arith)
        | inr e ↦ rw e (omega arith)
      ]

  -- The tasks with the id are as many as it was given out.
  record IsKept (s : QueueState) : Type 0 where
    last : ℕ
    numbered : s.next_id ≡ suc last
    kept : tasks_in_all id s ≡ times id (given_out last)

  -- What leaves the counts as they are keeps them right.
  IsKept-same :
      (s t : QueueState)
      → t.next_id ≡ s.next_id
      → tasks_in_all id t ≡ tasks_in_all id s
      → IsKept s
      → IsKept t
  IsKept-same s t n e k = record { last = k.last; numbered = n ∙ k.numbered; kept = e ∙ k.kept }

  complete_found-IsKept :
      (o : Option (QueuedTask × List QueuedTask)) (now : ℕ) (s : QueueState)
      → Divided (tasks_with id s.running) o
      → IsKept s
      → IsKept (complete_found o now s).1
  complete_found-IsKept none now s h k = k
  complete_found-IsKept (some (t, rest)) now s h k =
      IsKept-same s _ refl
        (let a = tasks_with-append s.completed (finish completed now t ∷ []) in omega arith) k

  fail_found-IsKept :
      (o : Option (QueuedTask × List QueuedTask)) (now : ℕ) (summary : String) (s : QueueState)
      → Divided (tasks_with id s.running) o
      → IsKept s
      → IsKept (fail_found o now summary s).1
  fail_found-IsKept none now summary s h k = k
  fail_found-IsKept (some (t, rest)) now summary s h k =
      let p = tasks_with-pushed s.queue (retried summary t) in
      let f = tasks_with-append s.failed (given_up now summary t ∷ []) in
      IsKept-same s (fail_found (some (t, rest)) now summary s).1 (ground arith) (ground arith) k

  cancel_found-IsKept :
      (o p : Option (QueuedTask × List QueuedTask)) (now : ℕ) (s : QueueState)
      → Divided (tasks_with id s.queue) o
      → Divided (tasks_with id s.running) p
      → IsKept s
      → IsKept (cancel_found o p now s).1
  cancel_found-IsKept none none now s h l k = k
  cancel_found-IsKept none (some (t, rest)) now s h l k =
      IsKept-same s _ refl
        (let a = tasks_with-append s.failed (finish cancelled now t ∷ []) in omega arith) k
  cancel_found-IsKept (some (t, rest)) p now s h l k =
      IsKept-same s _ refl
        (let a = tasks_with-append s.failed (cancel_waiting now t ∷ []) in omega arith) k

  start_first-IsKept :
      (now : ℕ) (ts : List QueuedTask) (s : QueueState)
      → ts ≡ s.queue
      → IsKept s
      → IsKept (start_first now ts s).1
  start_first-IsKept now [] s e k = k
  start_first-IsKept now (t ∷ ts) s e k =
      IsKept-same s _ refl
        (let a = tasks_with-append s.running (start now t ∷ []) in
          let q = ap (tasks_with id) e in omega arith)
        k

  dequeue_next-IsKept : (s : QueueState) (now : ℕ) → IsKept s → IsKept (dequeue_next s now).1
  unfolding dequeue_next
  dequeue_next-IsKept s now k = elim (Bool-cases (leb s.config.max_concurrent (length s.running))) [
    | inl e ↦ rw e k
    | inr e ↦ rw e (start_first-IsKept now s.queue s refl k)
  ]

  enqueue_task-IsKept :
      (s : QueueState) (now : ℕ) (adapter description : String) (opts : EnqueueOptions)
      → IsKept s
      → IsKept (enqueue_task s now adapter description opts).1
  unfolding enqueue_task new_task
  enqueue_task-IsKept s now adapter description opts k =
      elim (Bool-cases (leb s.config.max_queue_size (length s.queue))) [
        | inl e ↦ rw e k
        | inr e ↦ rw e (
            let t = new_task s now adapter description opts in
            let p = tasks_with-pushed s.queue t in
            let n = ap id_of k.numbered in
            let same = ap (λ x. tasks_with id (record t { task_id = x } ∷ [])) n in
            let before = k.kept in
            let m = k.numbered in
            record { last = suc k.last; numbered = omega arith; kept = omega arith })
      ]

  step-IsKept : (s : QueueState) (op : ℕ × Op) → IsKept s → IsKept (step s op)
  unfolding step reset_task_queue configure_task_queue complete_task cancel_task fail_task
      timeout_expired_tasks
  step-IsKept s (now, reset) k = record { last = 0; numbered = refl; kept = refl }
  step-IsKept s (now, configure p) k = IsKept-same s _ refl refl k
  step-IsKept s (now, enqueue adapter description opts) k =
      enqueue_task-IsKept s now adapter description opts k
  step-IsKept s (now, dequeue) k = dequeue_next-IsKept s now k
  step-IsKept s (now, time_out_expired) k =
      IsKept-same s _ refl
        (let a = tasks_with-append s.failed (split_expired now s.running).0 in
          let b = tasks_with-split_expired now s.running in omega arith)
        k
  step-IsKept s (now, complete key) k =
      complete_found-IsKept (take_out s.running key) now s (take_out-Divided s.running key) k
  step-IsKept s (now, cancel key) k =
      cancel_found-IsKept (take_out s.queue key) (take_out s.running key) now s
        (take_out-Divided s.queue key) (take_out-Divided s.running key) k
  step-IsKept s (now, fail key summary) k =
      fail_found-IsKept (take_out s.running key) now (sanitize_error_summary summary) s
        (take_out-Divided s.running key) k

  run-IsKept : (ops : List (ℕ × Op)) (s : QueueState) → IsKept s → IsKept (run ops s)
  unfolding run
  run-IsKept [] s k = k
  run-IsKept (op ∷ ops) s k = run-IsKept ops (step s op) (step-IsKept s op k)

-- From the empty queue, whatever operations run, the next number is one above the last number given
-- out since the last reset, and the tasks with any id in the four lists together are as many as that
-- id was given out.
pub run-task_ids :
    (ops : List (ℕ × Op))
    → let s = run ops reset_task_queue in
      (last : ℕ) × (s.next_id ≡ suc last)
      × ((id : String) → tasks_in_all id s ≡ times id (given_out last))
unfolding reset_task_queue
run-task_ids ops =
    let start : (id : String) → IsKept id reset_task_queue =
      λ id. record { last = 0; numbered = refl; kept = refl } in
    let k = run-IsKept "" ops reset_task_queue (start "") in
    (
      k.last,
      k.numbered,
      λ id.
          let j = run-IsKept id ops reset_task_queue (start id) in
          let same : j.last ≡ k.last = (let a = j.numbered in let b = k.numbered in omega arith) in
          j.kept ∙ ap (λ n. times id (given_out n)) same,
    )
