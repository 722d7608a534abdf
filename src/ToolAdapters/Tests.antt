-- ===== src/ToolAdapters/Tests.antt =====
-- Runs of kernel/tool-adapters at concrete inputs.
use avorelo.Common.{
  suc, Bool, false, string_eq, ℕ, ◌+◌, String, ◌≡◌, refl, true, not, ◌&&◌, ◌||◌, none, some, List,
  [], ◌∷◌, length,
}
use avorelo.ToolAdapters.Types.{PartialConfig, EnqueueOptions, high, low, medium, training_included}
use avorelo.ToolAdapters.Scrub.{sanitize_error_summary}
use avorelo.ToolAdapters.TaskQueue.{fail_task, enqueue_task, dequeue_next, reset_task_queue}
use avorelo.ToolAdapters.TaskQueue.Inv.{IsValid}
use avorelo.ToolAdapters.TaskQueue.Preserve.{
  Op, configure, enqueue, dequeue, time_out_expired, cancel, fail, run, run-IsValid, reset-IsValid,
}
use avorelo.ToolAdapters.TaskQueue.Ids.{tasks_in_all, times, given_out, run-task_ids}
use avorelo.ToolAdapters.TaskQueue.Bounds.{IsBounded, reset-IsBounded, run-IsBounded}
use avorelo.ToolAdapters.Policies.{
  FallbackTarget, is_fallback_safe, is_adapter_allowed, default_policy_constraints,
}
use avorelo.ToolAdapters.Policies.Fallback.{IsSafeChain, is_fallback_safe_chain}
use avorelo.ToolAdapters.TeamPolicy.{
  TeamPolicy, Candidate, evaluate_team_policy, create_strict_team_policy, is_named, lists, or_else,
  exceeds, apply_team_policy_to_constraints,
}
use avorelo.ToolAdapters.TeamPolicy.Effects.{
  is_deny, is_approval, rules_deny, rules_ask, evaluate_team_policy-deny_iff,
  evaluate_team_policy-approval_iff,
}
use avorelo.ToolAdapters.TeamPolicy.Merge.{apply_team_policy_to_constraints-allowed}

scrubbed :
    sanitize_error_summary "bad sk-ab12, ghp_ Bearer  x.y z"
    ≡ "bad [REDACTED_API_KEY], ghp_ Bearer [REDACTED] z"
unfolding sanitize_error_summary
scrubbed = refl

abbrev no_options : EnqueueOptions
no_options = record {
  execution_mode = none;
  priority = none;
  risk_ceiling = none;
  timeout_ms = none;
  max_retries = none;
}

-- Two tasks, of which the first fails once, is retried and then times out.
abbrev ops : List (ℕ × Op)
ops =
    (10, enqueue "codex" "first" no_options)
    ∷ (11, enqueue "aider" "second" no_options)
    ∷ (12, dequeue)
    ∷ (13, fail "task-1" "exit 1")
    ∷ (14, dequeue)
    ∷ (400000, time_out_expired)
    ∷ (400001, cancel "task-2")
    ∷ []

run-IsValid_example : IsValid (run ops reset_task_queue)
run-IsValid_example = run-IsValid ops reset_task_queue reset-IsValid

run-task_ids_example :
    (last : ℕ) × ((run ops reset_task_queue).next_id ≡ suc last)
    × ((id : String) → tasks_in_all id (run ops reset_task_queue) ≡ times id (given_out last))
run-task_ids_example = run-task_ids ops

run-IsBounded_example : IsBounded (run ops reset_task_queue)
run-IsBounded_example = run-IsBounded ops reset_task_queue refl reset-IsBounded

abbrev cloud : FallbackTarget
cloud = record { data_policy = "no_training"; risk_ceiling = high }

abbrev private_cloud : FallbackTarget
private_cloud = record { data_policy = "zdr"; risk_ceiling = medium }

abbrev on_device : FallbackTarget
on_device = record { data_policy = "local_only"; risk_ceiling = low }

-- A comparison of inherited members that finds none above another.
abbrev never : String → String → Bool
never a b = false

two_steps : IsSafeChain never default_policy_constraints cloud (private_cloud ∷ []) on_device
unfolding is_fallback_safe default_policy_constraints
two_steps = (refl, refl)

is_fallback_safe_chain_example :
    is_fallback_safe never cloud on_device default_policy_constraints ≡ true
is_fallback_safe_chain_example =
    is_fallback_safe_chain never default_policy_constraints cloud (private_cloud ∷ []) on_device
      refl (refl, tt) refl two_steps

-- Through the name of an inherited member a fallback leaves the device in two safe steps.
abbrev odd : FallbackTarget
odd = record { data_policy = "constructor"; risk_ceiling = low }

abbrev trained_on : FallbackTarget
trained_on = record { data_policy = "training_included"; risk_ceiling = low }

odd-steps :
    (is_fallback_safe never on_device odd default_policy_constraints ≡ true)
    × (is_fallback_safe never odd trained_on default_policy_constraints ≡ true)
    × (is_fallback_safe never on_device trained_on default_policy_constraints ≡ false)
unfolding is_fallback_safe default_policy_constraints
odd-steps = (refl, refl, refl)

abbrev strict : TeamPolicy
strict = create_strict_team_policy 5 "core"

abbrev trainer : Candidate
trainer = record {
  adapter_id = "gemini-cli";
  risk_ceiling = medium;
  data_policy = training_included;
  task_type = none;
}

abbrev keep : String → String
keep s = s

evaluate_team_policy-deny_iff_example :
    is_deny (evaluate_team_policy keep strict trainer).effect
    ≡ is_named strict.denied_adapters "gemini-cli"
      || not (lists strict.allowed_adapters "gemini-cli")
      || exceeds strict trainer
      || is_deny strict.default_effect
      || rules_deny strict.rules trainer
evaluate_team_policy-deny_iff_example = evaluate_team_policy-deny_iff keep strict trainer

evaluate_team_policy-approval_iff_example :
    is_approval (evaluate_team_policy keep strict trainer).effect
    ≡ not (is_deny (evaluate_team_policy keep strict trainer).effect)
      && (is_approval strict.default_effect || rules_ask strict.rules trainer)
evaluate_team_policy-approval_iff_example = evaluate_team_policy-approval_iff keep strict trainer

apply_team_policy_to_constraints-allowed_example :
    is_adapter_allowed "cursor" (apply_team_policy_to_constraints strict default_policy_constraints)
    ≡ lists (or_else strict.allowed_adapters default_policy_constraints.allowed_adapters) "cursor"
      && not (is_named default_policy_constraints.denied_adapters "cursor")
      && not (is_named strict.denied_adapters "cursor")
apply_team_policy_to_constraints-allowed_example =
    apply_team_policy_to_constraints-allowed strict default_policy_constraints "cursor"

-- A retry puts a second task into a queue that may hold one.
abbrev narrow : PartialConfig
narrow = record {
  max_concurrent = some 1;
  max_queue_size = some 1;
  default_timeout_ms = none;
  default_max_retries = none;
  priority_order = none;
}

abbrev overflow : List (ℕ × Op)
overflow =
    (1, configure narrow)
    ∷ (2, enqueue "codex" "first" no_options)
    ∷ (3, dequeue)
    ∷ (4, enqueue "codex" "second" no_options)
    ∷ (5, fail "task-1" "exit 1")
    ∷ []

overflows : length (run overflow reset_task_queue).queue ≡ 2
unfolding run fail_task enqueue_task dequeue_next avorelo.Common.sort_by
overflows = refl
