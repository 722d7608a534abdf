-- ===== src/ToolAdapters/TaskQueue/Inv.antt =====
-- The valid states of kernel/tool-adapters/task-queue.ts.
use avorelo.Common.{
  ◌+◌, ◌≤◌, String, ◌≡◌, inl, inr, true, Option, none, some, List, [], ◌∷◌, ◌++◌, length, arith,
  All, All-append, Bool-cases, IsSortedBy, IsOrder, sort_by, sort_by-All, sort_by-IsSortedBy, ◌==◌,
  string_eq,
}
use avorelo.ToolAdapters.Types.{
  TaskStatus, queued, running, completed, failed, cancelled, timed_out, QueuedTask,
}
use avorelo.ToolAdapters.TaskQueue.{put_back, QueueState, take_out, goes_before}

goes_before-IsOrder : IsOrder goes_before
goes_before-IsOrder = record { total = λ a b h. ground arith; trans = λ a b c h k. ground arith }

-- A task that has ended without success.
abbrev pub IsOver : TaskStatus → Type 0
IsOver failed = Unit
IsOver cancelled = Unit
IsOver timed_out = Unit
IsOver _ = ⊥

abbrev pub Waits : QueuedTask → Type 0
Waits t = (t.status ≡ queued) × (t.retry_count ≤ t.max_retries)

abbrev pub Runs : QueuedTask → Type 0
Runs t = (t.status ≡ running) × (t.retry_count ≤ t.max_retries)

abbrev pub Finished : QueuedTask → Type 0
Finished t = (t.status ≡ completed) × (t.retry_count ≤ t.max_retries)

abbrev pub Over : QueuedTask → Type 0
Over t = IsOver t.status × (t.retry_count ≤ t.max_retries)

-- The queue is in its order, each list holds tasks of its statuses, retried no more than they may
-- be, and the counters count.
pub record IsValid (s : QueueState) : Type 0 where
  pub sorted : IsSortedBy goes_before s.queue
  pub waiting : All Waits s.queue
  pub running : All Runs s.running
  pub finished : All Finished s.completed
  pub over : All Over s.failed
  pub processed : s.total_processed ≡ length s.completed
  pub lost : s.total_failed + s.total_timed_out ≤ length s.failed

-- What holds of the task that was found and of the others.
abbrev pub Taken : (QueuedTask → Type 0) → Option (QueuedTask × List QueuedTask) → Type 0
Taken P none = Unit
Taken P (some (t, rest)) = P t × All P rest

abbrev pub RestSorted : Option (QueuedTask × List QueuedTask) → Type 0
RestSorted none = Unit
RestSorted (some (t, rest)) = IsSortedBy goes_before rest

put_back-Taken :
    (P : QueuedTask → Type 0) (t : QueuedTask) (o : Option (QueuedTask × List QueuedTask))
    → P t
    → Taken P o
    → Taken P (put_back t o)
put_back-Taken P t none p h = tt
put_back-Taken P t (some (u, rest)) p h = (h.0, (p, h.1))

pub take_out-Taken :
    (P : QueuedTask → Type 0) (ts : List QueuedTask) (id : String)
    → All P ts
    → Taken P (take_out ts id)
unfolding take_out
take_out-Taken P [] id h = tt
take_out-Taken P (t ∷ ts) id h = elim (Bool-cases (t.task_id == id)) [
  | inl e ↦ rw e h
  | inr e ↦ rw e (put_back-Taken P t (take_out ts id) h.0 (take_out-Taken P ts id h.1))
]

put_back-RestSorted :
    (t : QueuedTask) (o : Option (QueuedTask × List QueuedTask))
    → Taken (λ u. goes_before t u ≡ true) o
    → RestSorted o
    → RestSorted (put_back t o)
put_back-RestSorted t none p h = tt
put_back-RestSorted t (some (u, rest)) p h = (p.1, h)

pub take_out-RestSorted :
    (ts : List QueuedTask) (id : String) → IsSortedBy goes_before ts → RestSorted (take_out ts id)
unfolding take_out
take_out-RestSorted [] id h = tt
take_out-RestSorted (t ∷ ts) id h = elim (Bool-cases (t.task_id == id)) [
  | inl e ↦ rw e h.1
  | inr e ↦ rw e (
      put_back-RestSorted t (take_out ts id)
        (take_out-Taken (λ u. goes_before t u ≡ true) ts id h.0) (take_out-RestSorted ts id h.1))
]

pub push_sorted-sorted :
    (t : QueuedTask) (ts : List QueuedTask)
    → IsSortedBy goes_before (sort_by goes_before (ts ++ t ∷ []))
push_sorted-sorted t ts = sort_by-IsSortedBy goes_before goes_before-IsOrder (ts ++ t ∷ [])

pub push_sorted-All :
    (P : QueuedTask → Type 0) (t : QueuedTask) (ts : List QueuedTask)
    → All P ts
    → P t
    → All P (sort_by goes_before (ts ++ t ∷ []))
push_sorted-All P t ts h p =
    sort_by-All goes_before P (ts ++ t ∷ []) (All-append P ts (t ∷ []) h (p, tt))

abbrev pub snoc-All :
    (P : QueuedTask → Type 0) (ts : List QueuedTask) (t : QueuedTask)
    → All P ts
    → P t
    → All P (ts ++ t ∷ [])
snoc-All P ts t h p = All-append P ts (t ∷ []) h (p, tt)
