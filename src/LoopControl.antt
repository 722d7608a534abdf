-- ===== src/LoopControl.antt =====
-- shared/schemas/index.ts: the types of Loop Control. The parts of capabilities/loop-control stand
-- in the children. Limits and counts are the non-negative integers, and a check's id is no array
-- index, so that a record keeps its keys in the order of their first assignment.
pub mod Checks
pub mod Drift
pub mod Readiness
pub mod Policy
pub mod Metadata
pub mod Totals
pub mod Orchestrator
pub mod Limits
pub mod Routed
mod Tests
use avorelo.Common.{
  ℕ, zero, suc, String, Bool, true, false, Option, none, some, List, ◌≡◌, refl, ◌↔◌, Comparable,
  nat_beq, beq_of_code,
}
use avorelo.Schemas.{GateDecision}
use avorelo.DriftGuard.{DriftFinding}
use avorelo.WorkContract.{RiskClass}

pub data LoopMode : Type 0 where
  single_run bounded_loop : LoopMode

pub data LoopReadinessStatus : Type 0 where
  safe_to_loop safe_with_bounded_loop needs_human_gate not_suitable blocked : LoopReadinessStatus

pub data LoopStopCategory : Type 0 where
  success failure safety budget escalation user : LoopStopCategory

pub data LoopStopReason : Type 0 where
  success_all_checks_passed success_gate_stop_done : LoopStopReason
  failure_repeated_failure failure_no_progress failure_check_unavailable : LoopStopReason
  failure_agent_error : LoopStopReason
  safety_blocked_path safety_secret_detected safety_destructive_command : LoopStopReason
  budget_max_iterations budget_max_runtime budget_too_many_files : LoopStopReason
  escalation_rule_triggered user_stopped : LoopStopReason

pub data LoopProofState : Type 0 where
  proved partially_proved not_proved needs_attention blocked : LoopProofState

pub data LoopCheckResultStatus : Type 0 where
  passed failed not_run skipped : LoopCheckResultStatus

abbrev status_code : LoopCheckResultStatus → ℕ
status_code passed = 0
status_code failed = 1
status_code not_run = 2
status_code skipped = 3

status_decode : ℕ → LoopCheckResultStatus
status_decode zero = passed
status_decode (suc zero) = failed
status_decode (suc (suc zero)) = not_run
status_decode _ = skipped

status_decode-code : (s : LoopCheckResultStatus) → status_decode (status_code s) ≡ s
unfolding status_decode
status_decode-code passed = refl
status_decode-code failed = refl
status_decode-code not_run = refl
status_decode-code skipped = refl

pub status_beq_iff :
    (a b : LoopCheckResultStatus) → (nat_beq (status_code a) (status_code b) ≡ true) ↔ (a ≡ b)
status_beq_iff a b = beq_of_code status_code status_decode status_decode-code a b

instance abbrev pub status_eq : Comparable LoopCheckResultStatus
status_eq = record {
  equal = λ a b. nat_beq (status_code a) (status_code b);
  equal_iff = status_beq_iff;
}

-- The schema's types, and `shell`, which the check detection uses besides.
pub data CheckType : Type 0 where
  test_check typecheck lint scope_check drift_check custom shell : CheckType

pub record LoopCheckResult : Type 0 where
  pub check_id : String
  pub label : String
  pub command : Option String
  pub type : CheckType
  pub required : Bool
  pub last_result : LoopCheckResultStatus
  pub last_output : Option String

pub data LoopEscalationAction : Type 0 where
  stop notify : LoopEscalationAction

pub record LoopEscalationRule : Type 0 where
  pub condition : String
  pub action : LoopEscalationAction
  pub message : String

pub data StopConditionType : Type 0 where
  success failure safety budget human_gate : StopConditionType

pub record LoopStopCondition : Type 0 where
  pub condition_id : String
  pub type : StopConditionType
  pub condition : String
  pub enabled : Bool

pub data ReceiptLevel : Type 0 where
  compact detailed : ReceiptLevel

-- `maxTokenBudget` is never set and never read.
pub record LoopPolicy : Type 0 where
  pub policy_id : String
  pub mode : LoopMode
  pub max_iterations : ℕ
  pub max_runtime_minutes : ℕ
  pub allowed_commands : List String
  pub blocked_commands : List String
  pub required_checks : List LoopCheckResult
  pub stop_conditions : List LoopStopCondition
  pub escalation_rules : List LoopEscalationRule
  pub receipt_level : ReceiptLevel
  pub risk_tier : RiskClass

pub record LoopIterationSummary : Type 0 where
  pub iteration : ℕ
  pub started_at : String
  pub duration_ms : ℕ
  pub files_changed : List String
  pub checks_run : List String
  pub check_results : List (String × LoopCheckResultStatus)
  pub drift_detected : Bool
  pub gate_decision : GateDecision
  pub reason_codes : List String

pub record CheckRun : Type 0 where
  pub check_id : String
  pub label : String
  pub result : LoopCheckResultStatus

pub record LoopMetadata : Type 0 where
  pub loop_id : String
  pub contract_id : String
  pub kernel_receipt_ref : Option String
  pub created_at : String
  pub mode : LoopMode
  pub iterations_run : ℕ
  pub max_iterations : ℕ
  pub total_runtime_ms : ℕ
  pub stop_reason : LoopStopReason
  pub stop_category : LoopStopCategory
  pub files_changed : List String
  pub files_changed_in_scope : ℕ
  pub files_changed_out_of_scope : ℕ
  pub proof_state : LoopProofState
  pub checks_run : List CheckRun
  pub checks_passed : ℕ
  pub checks_failed : ℕ
  pub checks_not_run : ℕ
  pub drift_detected : Bool
  pub drift_summary : List DriftFinding
  pub iterations : List LoopIterationSummary
  pub safe_next_actions : List String
  pub open_issues : List String

pub record LoopReadinessResult : Type 0 where
  pub classification : LoopReadinessStatus
  pub risk_tier : RiskClass
  pub reason_codes : List String
  pub recommended_mode : LoopMode
  pub recommended_max_iterations : ℕ
  pub recommended_max_runtime_minutes : ℕ
  pub required_proof : List String
  pub human_gate_conditions : List String
