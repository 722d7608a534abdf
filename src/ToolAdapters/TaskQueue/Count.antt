-- ===== src/ToolAdapters/TaskQueue/Count.antt =====
-- How the operations of task-queue.ts change the lengths of its lists.
use avorelo.Common.{
  ℕ, suc, ◌+◌, String, ◌≡◌, refl, ◌∙◌, Option, none, some, List, [], ◌∷◌, ◌++◌, length,
  length-append, length-sort_by, arith, Bool-cases, inl, inr, sort_by, ◌==◌, string_eq,
}
use avorelo.ToolAdapters.Types.{QueuedTask}
use avorelo.ToolAdapters.TaskQueue.{take_out, split_expired, goes_before, put_back, is_expired}

abbrev pub RestShorter : ℕ → Option (QueuedTask × List QueuedTask) → Type 0
RestShorter n none = Unit
RestShorter n (some (t, rest)) = length rest + 1 ≡ n

put_back-RestShorter :
    (n : ℕ) (t : QueuedTask) (o : Option (QueuedTask × List QueuedTask))
    → RestShorter n o
    → RestShorter (suc n) (put_back t o)
put_back-RestShorter n t none h = tt
put_back-RestShorter n t (some (u, rest)) h = ground arith

pub take_out-RestShorter :
    (ts : List QueuedTask) (id : String) → RestShorter (length ts) (take_out ts id)
unfolding take_out
take_out-RestShorter [] id = tt
take_out-RestShorter (t ∷ ts) id = elim (Bool-cases (t.task_id == id)) [
  | inl e ↦ rw e (ground arith)
  | inr e ↦ rw e (put_back-RestShorter (length ts) t (take_out ts id) (take_out-RestShorter ts id))
]

pub length-split_expired :
    (now : ℕ) (ts : List QueuedTask)
    → length (split_expired now ts).0 + length (split_expired now ts).1 ≡ length ts
unfolding split_expired
length-split_expired now [] = refl
length-split_expired now (t ∷ ts) =
    let rest = length-split_expired now ts in
    elim (Bool-cases (is_expired now t)) [
      | inl e ↦ rw e (ground arith)
      | inr e ↦ rw e (ground arith)
    ]

-- A task pushed and sorted in is one more task.
pub length-pushed :
    (ts : List QueuedTask) (t : QueuedTask)
    → length (sort_by goes_before (ts ++ t ∷ [])) ≡ length ts + 1
length-pushed ts t = length-sort_by goes_before (ts ++ t ∷ []) ∙ length-append ts (t ∷ [])
