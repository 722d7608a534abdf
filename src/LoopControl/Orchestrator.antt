-- ===== src/LoopControl/Orchestrator.antt =====
-- capabilities/loop-control/orchestrator.ts with adapters/loop-adapter.ts: the run of a loop.
-- The adapter, git, the checks' commands, the clock and the random identifiers are what the
-- surroundings answer, iteration by iteration. The active-loop marker, the files of receipts and
-- metadata and the observer of finished iterations are left out.
pub mod Iteration
pub mod Loop
pub mod Rules
pub mod History
pub mod Outcome
pub mod Stops
pub mod Unreachable
use avorelo.Common.{
  ℕ, zero, suc, ◌-◌, ◌*◌, String, Bool, true, false, ◌&&◌, ◌||◌, not, Option, none, some, List, [],
  ◌∷◌, ◌++◌, map, any, all, filter, length, dedup_from, string_eq, nat_eq, is_empty, if◌then◌else◌,
  ltb, leb, nat_beq, ◌==◌, ◌&◌, slice_to, starts_with, get_or,
}
use avorelo.Schemas.{
  GateDecision, continue, stop_blocked, stop_done, PolicyVerdict, allow, block, free,
}
use avorelo.Evidence.{EvidenceArtifact, GradedEvidence, test_passed, grade_all}
use avorelo.Gate.{GateResult, decide}
use avorelo.Json.{Json, null, bool, num, str, arr, obj, nil, Fields, field, end}
use avorelo.Ledger.{StateLedger, AppendInput}
use avorelo.Receipts.{strings, level_text, write_receipt}
use avorelo.DriftGuard as Drift
use avorelo.DriftGuard.{DriftFinding, is_block, is_warning, detect_scope_drift, detect_method_drift}
use avorelo.LoopControl.{
  LoopMode, single_run, bounded_loop, LoopPolicy, LoopStopReason, LoopStopCategory, LoopCheckResult,
  LoopCheckResultStatus, LoopIterationSummary, LoopMetadata, CheckRun, passed, status_eq,
  success_all_checks_passed, success_gate_stop_done, failure_repeated_failure, failure_no_progress,
  failure_check_unavailable, failure_agent_error, safety_blocked_path, safety_secret_detected,
  safety_destructive_command, budget_max_iterations, budget_max_runtime, budget_too_many_files,
  escalation_rule_triggered, user_stopped,
}
use avorelo.LoopControl.Checks.{ExecError, run_all_checks}
use avorelo.LoopControl.Drift.{failed_ids, repeated_failures, detect_iteration_drift}
use avorelo.LoopControl.Metadata.{build_loop_metadata}

pub record IterationInput : Type 0 where
  pub task : String
  pub iteration : ℕ
  pub max_iterations : ℕ
  pub allowed_paths : List String
  pub disallowed_paths : List String
  pub allowed_commands : List String
  pub blocked_commands : List String
  pub previous_failures : List String
  pub previous_drift : List String

pub record IterationOutput : Type 0 where
  pub exit_code : ℕ
  pub files_changed : List String
  pub commands_run : List String
  pub agent_error : Option String

-- What the surroundings answer in one iteration: `completed_at` is the time of its ledger event.
pub record IterationEnv : Type 0 where
  pub aborted : Bool
  pub now : ℕ
  pub head : Option String
  pub execute_iteration : IterationInput → IterationOutput
  pub changed_files : String → List String
  pub exec : String → Option ExecError
  pub started_at : String
  pub duration_ms : ℕ
  pub completed_at : ℕ

pub record LoopEnv : Type 0 where
  pub loop_uuid8 : String
  pub start_time : ℕ
  pub during : ℕ → IterationEnv
  pub receipt_uuid : String
  pub written_at : ℕ
  pub logged_at : ℕ
  pub completed_at : ℕ
  pub end_time : ℕ
  pub created_at : String

pub record OrchestratorInput : Type 0 where
  pub task : String
  pub contract_id : String
  pub policy : LoopPolicy
  pub allowed_paths : List String
  pub disallowed_paths : List String

-- The local variables of `runLoop` that the loop changes.
pub record Run : Type 0 where
  pub ledger : StateLedger
  pub iterations : List LoopIterationSummary
  pub all_drift : List DriftFinding
  pub all_files_changed : List String
  pub latest_checks : List LoopCheckResult
  pub stop_reason : LoopStopReason

-- How an iteration ends: `break`, or on to the next.
pub data Flow : Type 0 where
  break : Run → Flow
  next : Run → Flow

-- `finalGateDecision` and `stopped`, which is always true, are those of the gate's result.
pub record OrchestratorResult : Type 0 where
  pub loop_id : String
  pub metadata : LoopMetadata
  pub stop_reason : LoopStopReason
  pub stop_category : LoopStopCategory
  pub iterations_run : ℕ
  pub final_gate_decision : GateDecision
  pub ledger : StateLedger

abbrev pub reason_text : LoopStopReason → String
reason_text success_all_checks_passed = "success_all_checks_passed"
reason_text success_gate_stop_done = "success_gate_stop_done"
reason_text failure_repeated_failure = "failure_repeated_failure"
reason_text failure_no_progress = "failure_no_progress"
reason_text failure_check_unavailable = "failure_check_unavailable"
reason_text failure_agent_error = "failure_agent_error"
reason_text safety_blocked_path = "safety_blocked_path"
reason_text safety_secret_detected = "safety_secret_detected"
reason_text safety_destructive_command = "safety_destructive_command"
reason_text budget_max_iterations = "budget_max_iterations"
reason_text budget_max_runtime = "budget_max_runtime"
reason_text budget_too_many_files = "budget_too_many_files"
reason_text escalation_rule_triggered = "escalation_rule_triggered"
reason_text user_stopped = "user_stopped"

abbrev pub mode_text : LoopMode → String
mode_text single_run = "single_run"
mode_text bounded_loop = "bounded_loop"

unfoldable pub category_for_reason : LoopStopReason → LoopStopCategory
unfolding starts_with
category_for_reason reason =
    let text = reason_text reason in
    if starts_with text "success_"
    then LoopStopCategory.success
    else if starts_with text "failure_"
    then LoopStopCategory.failure
    else if starts_with text "safety_"
    then LoopStopCategory.safety
    else if starts_with text "budget_"
    then LoopStopCategory.budget
    else if text == "escalation_rule_triggered"
    then LoopStopCategory.escalation
    else LoopStopCategory.user

unfoldable pub artifact_of : LoopCheckResult → EvidenceArtifact
artifact_of c = record {
  artifact_id = "ev_" & c.check_id;
  kind = test_passed;
  ref = "check:" & c.label;
}

unfoldable pub build_evidence_from_checks : List LoopCheckResult → List EvidenceArtifact
unfolding artifact_of
build_evidence_from_checks checks =
    map artifact_of (filter (λ (c : LoopCheckResult). c.last_result == passed) checks)

-- `record[key] = value`
set_key :
    List (String × LoopCheckResultStatus)
    → String
    → LoopCheckResultStatus
    → List (String × LoopCheckResultStatus)
set_key [] key value = (key, value) ∷ []
set_key ((k, v) ∷ entries) key value =
    let rest = set_key entries key value in if k == key then (k, value) ∷ entries else (k, v) ∷ rest

unfoldable pub check_results_from :
    List (String × LoopCheckResultStatus)
    → List LoopCheckResult
    → List (String × LoopCheckResultStatus)
unfolding set_key
check_results_from entries [] = entries
check_results_from entries (c ∷ checks) =
    check_results_from (set_key entries c.check_id c.last_result) checks

-- `latestChecks.filter((c) => c.required).every((c) => c.lastResult === "passed")`
unfoldable pub all_required_passed : List LoopCheckResult → Bool
all_required_passed checks =
    all (λ (c : LoopCheckResult). c.last_result == passed)
      (filter (λ (c : LoopCheckResult). c.required) checks)

unfoldable pub last_of : List LoopIterationSummary → Option LoopIterationSummary
last_of [] = none
last_of (s ∷ []) = some s
last_of (s ∷ t ∷ rest) = last_of (t ∷ rest)

unfoldable pub failures_of : Option LoopIterationSummary → List String
unfolding failed_ids
failures_of none = []
failures_of (some s) = failed_ids s

unfoldable pub files_of : Option LoopIterationSummary → List String
files_of none = []
files_of (some s) = s.files_changed

unfoldable pub is_reported : DriftFinding → Bool
is_reported d = is_warning d || is_block d

-- `agentError && exitCode !== 0`
unfoldable pub is_agent_error : IterationOutput → Bool
is_agent_error o = not (get_or o.agent_error "" == "") && not (o.exit_code == 0)

-- The error of a block drift.
unfoldable pub block_reason : List DriftFinding → List DriftFinding → LoopStopReason
block_reason scope_drift method_drift =
    if any is_block scope_drift
    then safety_blocked_path
    else if any is_block method_drift
    then safety_destructive_command
    else escalation_rule_triggered

-- The summary that an iteration ends with is the last of the iterations.
unfoldable pub with_summary : Run → LoopIterationSummary → GateDecision → String → Run
with_summary run summary decision code = record run {
  iterations =
      run.iterations ++ record summary { gate_decision = decision; reason_codes = code ∷ [] } ∷ [];
}

unfoldable pub stopped_with :
    Run → LoopIterationSummary → LoopStopReason → GateDecision → String → Flow
unfolding with_summary
stopped_with run summary reason decision code =
    break (record (with_summary run summary decision code) { stop_reason = reason })

-- The argument of the calls of `ledger.append`.
unfoldable pub event_of : OrchestratorInput → String → Fields → AppendInput
event_of input type payload = record {
  type = type;
  contract_id = some input.contract_id;
  payload = obj payload;
  reason_codes = none;
  ts = none;
}
