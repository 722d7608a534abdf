-- ===== src/ToolAdapters/Types.antt =====
-- kernel/tool-adapters/types.ts and the types of task-queue.ts.
use avorelo.Common.{
  ℕ, zero, suc, String, ◌≡◌, refl, ◌↔◌, Bool, true, Option, List, ℤ, Comparable, nat_beq,
  beq_of_code,
}

pub data ExecutionMode : Type 0 where
  real dry_run deterministic manual_gate scanner proof : ExecutionMode

pub data RiskCeiling : Type 0 where
  low medium high critical : RiskCeiling

pub data TaskPriority : Type 0 where
  critical high normal low background : TaskPriority

pub data TaskStatus : Type 0 where
  queued running completed failed cancelled timed_out : TaskStatus

pub record QueuedTask : Type 0 where
  pub task_id : String
  pub adapter_id : String
  pub execution_mode : ExecutionMode
  pub priority : TaskPriority
  pub status : TaskStatus
  pub sanitized_description : String
  pub risk_ceiling : RiskCeiling
  pub timeout_ms : ℕ
  pub max_retries : ℕ
  pub retry_count : ℕ
  pub queued_at : ℕ
  pub started_at : Option ℕ
  pub completed_at : Option ℕ
  pub duration_ms : Option ℤ
  pub error_summary : Option String
  pub contains_raw_prompt : Bool
  pub contains_raw_source : Bool
  pub contains_raw_secret : Bool
  pub contains_raw_output : Bool

-- `priorityOrder` is stored and read by nothing.
pub record TaskQueueConfig : Type 0 where
  pub max_concurrent : ℕ
  pub max_queue_size : ℕ
  pub default_timeout_ms : ℕ
  pub default_max_retries : ℕ
  pub priority_order : List TaskPriority

pub record PartialConfig : Type 0 where
  pub max_concurrent : Option ℕ
  pub max_queue_size : Option ℕ
  pub default_timeout_ms : Option ℕ
  pub default_max_retries : Option ℕ
  pub priority_order : Option (List TaskPriority)

-- The optional settings of a task.
pub record EnqueueOptions : Type 0 where
  pub execution_mode : Option ExecutionMode
  pub priority : Option TaskPriority
  pub risk_ceiling : Option RiskCeiling
  pub timeout_ms : Option ℕ
  pub max_retries : Option ℕ

pub data DataPolicy : Type 0 where
  local_only zdr no_training training_included : DataPolicy

abbrev pub data_policy_code : DataPolicy → ℕ
data_policy_code local_only = 0
data_policy_code zdr = 1
data_policy_code no_training = 2
data_policy_code training_included = 3

data_policy_decode : ℕ → DataPolicy
data_policy_decode zero = local_only
data_policy_decode (suc zero) = zdr
data_policy_decode (suc (suc zero)) = no_training
data_policy_decode _ = training_included

data_policy_decode-code : (p : DataPolicy) → data_policy_decode (data_policy_code p) ≡ p
unfolding data_policy_decode
data_policy_decode-code local_only = refl
data_policy_decode-code zdr = refl
data_policy_decode-code no_training = refl
data_policy_decode-code training_included = refl

pub data_policy_beq_iff :
    (a b : DataPolicy) → (nat_beq (data_policy_code a) (data_policy_code b) ≡ true) ↔ (a ≡ b)
data_policy_beq_iff a b =
    beq_of_code data_policy_code data_policy_decode data_policy_decode-code a b

instance abbrev pub data_policy_eq : Comparable DataPolicy
data_policy_eq = record {
  equal = λ a b. nat_beq (data_policy_code a) (data_policy_code b);
  equal_iff = data_policy_beq_iff;
}

pub record AdapterPolicyConstraints : Type 0 where
  pub local_only : Bool
  pub deny_data_collection : Bool
  pub require_sandbox : Bool
  pub require_proof_collection : Bool
  pub max_risk_ceiling : RiskCeiling
  pub allowed_adapters : Option (List String)
  pub denied_adapters : Option (List String)
  pub preference_order : List String
  pub allow_fallback : Bool
  pub fallback_cannot_lower_privacy : Bool
  pub fallback_cannot_lower_proof : Bool
