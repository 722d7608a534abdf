-- ===== src/LoopControl/Readiness.antt =====
-- capabilities/loop-control/readiness.ts: whether a task is fit for a loop.
-- `toLowerCase` of a text with any characters is a parameter.
use avorelo.Common.{
  ℕ, String, Bool, true, false, ◌||◌, Option, none, some, List, [], ◌∷◌, ◌++◌, any, length,
  is_empty, if◌then◌else◌, ltb, includes,
}
use avorelo.Regex.{Regex, edge, space, plus, optional, any_case, sequence, choice, test_any}
use avorelo.WorkContract.{
  RiskClass, low, medium, high, critical, Route, needs_decision, ApprovalPolicy,
  require_manual_review, EnrichedWorkContract, is_blocked_route,
}
use avorelo.LoopControl.{
  LoopMode, single_run, bounded_loop, LoopReadinessStatus, safe_to_loop, safe_with_bounded_loop,
  needs_human_gate, not_suitable, LoopReadinessResult,
}

-- `riskHints` is never read.
pub record ClassifyReadinessInput : Type 0 where
  pub task : String
  pub enriched_contract : Option EnrichedWorkContract

abbrev pub high_risk_keywords : List String
high_risk_keywords =
    "auth" ∷ "login" ∷ "oauth" ∷ "permission" ∷ "acl" ∷ "role" ∷ "billing" ∷ "payment" ∷ "charge"
    ∷ "invoice" ∷ "subscription" ∷ "database" ∷ "migration" ∷ "schema" ∷ "drop" ∷ "truncate"
    ∷ "deploy" ∷ "production" ∷ "prod" ∷ "release" ∷ "secret" ∷ "credential" ∷ "key" ∷ "token"
    ∷ "password" ∷ "security" ∷ "encrypt" ∷ "decrypt" ∷ "certificate" ∷ []

broad_task_patterns : List Regex
unfolding sequence plus any_case choice optional
broad_task_patterns =
    sequence (
      edge
      ∷ any_case "refactor"
      ∷ plus space
      ∷ choice (
          any_case "everything"
          ∷ sequence (any_case "the" ∷ plus space ∷ any_case "app" ∷ [])
          ∷ sequence (any_case "the" ∷ plus space ∷ any_case "whole" ∷ [])
          ∷ any_case "all"
          ∷ [])
      ∷ edge
      ∷ [])
    ∷ sequence (edge ∷ any_case "fix" ∷ plus space ∷ any_case "everything" ∷ edge ∷ [])
    ∷ sequence (
        edge
        ∷ any_case "improve"
        ∷ plus space
        ∷ optional (sequence (any_case "the" ∷ plus space ∷ []))
        ∷ any_case "ux"
        ∷ edge
        ∷ [])
    ∷ sequence (
        edge
        ∷ any_case "build"
        ∷ plus space
        ∷ choice (any_case "the" ∷ any_case "a" ∷ [])
        ∷ plus space
        ∷ optional (sequence (any_case "new" ∷ plus space ∷ []))
        ∷ any_case "feature"
        ∷ edge
        ∷ [])
    ∷ sequence (edge ∷ any_case "rewrite" ∷ edge ∷ [])
    ∷ sequence (
        edge
        ∷ any_case "make"
        ∷ plus space
        ∷ any_case "it"
        ∷ plus space
        ∷ any_case "better"
        ∷ edge
        ∷ [])
    ∷ []

destructive_task_patterns : List Regex
unfolding sequence plus any_case choice
destructive_task_patterns =
    sequence
      (edge ∷ any_case "deploy" ∷ plus space ∷ any_case "to" ∷ plus space ∷ any_case "prod" ∷ [])
    ∷ sequence (
        edge
        ∷ any_case "push"
        ∷ plus space
        ∷ any_case "to"
        ∷ plus space
        ∷ choice (any_case "main" ∷ any_case "master" ∷ any_case "prod" ∷ [])
        ∷ [])
    ∷ sequence (
        edge
        ∷ any_case "merge"
        ∷ plus space
        ∷ any_case "to"
        ∷ plus space
        ∷ choice (any_case "main" ∷ any_case "master" ∷ [])
        ∷ [])
    ∷ sequence (
        edge
        ∷ any_case "delete"
        ∷ plus space
        ∷ choice (
            any_case "all"
            ∷ sequence (any_case "the" ∷ plus space ∷ any_case "database" ∷ [])
            ∷ any_case "prod"
            ∷ [])
        ∷ [])
    ∷ sequence (
        edge
        ∷ any_case "drop"
        ∷ plus space
        ∷ choice (any_case "table" ∷ any_case "database" ∷ [])
        ∷ [])
    ∷ []

unfoldable pub is_broad_task : String → Bool
unfolding broad_task_patterns
is_broad_task text = test_any broad_task_patterns text

unfoldable pub is_destructive_task : String → Bool
unfolding destructive_task_patterns
is_destructive_task text = test_any destructive_task_patterns text

unfoldable pub default_iterations : RiskClass → ℕ
default_iterations low = 5
default_iterations medium = 3
default_iterations high = 2
default_iterations critical = 1

unfoldable pub default_runtime : RiskClass → ℕ
default_runtime low = 10
default_runtime medium = 15
default_runtime high = 20
default_runtime critical = 10

unfoldable pub default_mode : RiskClass → LoopMode
default_mode critical = single_run
default_mode _ = bounded_loop

unfoldable pub default_proof : RiskClass → List String
default_proof low = "typecheck" ∷ []
default_proof medium = "tests" ∷ "typecheck" ∷ "scope_check" ∷ []
default_proof high = "tests" ∷ "typecheck" ∷ "scope_check" ∷ "drift_check" ∷ []
default_proof critical = "tests" ∷ "typecheck" ∷ "scope_check" ∷ "drift_check" ∷ []

unfoldable pub result :
    LoopReadinessStatus → RiskClass → List String → List String → LoopReadinessResult
unfolding default_iterations default_runtime default_mode default_proof
result classification risk reason_codes human_gate_conditions = record {
  classification = classification;
  risk_tier = risk;
  reason_codes = reason_codes;
  recommended_mode = default_mode risk;
  recommended_max_iterations = default_iterations risk;
  recommended_max_runtime_minutes = default_runtime risk;
  required_proof = default_proof risk;
  human_gate_conditions = human_gate_conditions;
}

-- The result for a destructive task.
unfoldable pub destructive_result : LoopReadinessResult
destructive_result = record {
  classification = LoopReadinessStatus.blocked;
  risk_tier = critical;
  reason_codes = "DESTRUCTIVE_TASK" ∷ [];
  recommended_mode = single_run;
  recommended_max_iterations = 1;
  recommended_max_runtime_minutes = 10;
  required_proof = "tests" ∷ "typecheck" ∷ "scope_check" ∷ "drift_check" ∷ [];
  human_gate_conditions = "Task involves destructive or production-write operations." ∷ [];
}

-- `enrichedContract?.riskClass ?? "medium"`
contract_risk : Option EnrichedWorkContract → RiskClass
contract_risk none = medium
contract_risk (some c) = c.risk_class

-- The result for a broad task.
unfoldable pub broad_result : Option EnrichedWorkContract → LoopReadinessResult
unfolding contract_risk
broad_result contract = record {
  classification = not_suitable;
  risk_tier = contract_risk contract;
  reason_codes = "BROAD_TASK" ∷ [];
  recommended_mode = single_run;
  recommended_max_iterations = 1;
  recommended_max_runtime_minutes = 10;
  required_proof = [];
  human_gate_conditions = [];
}

unfoldable pub is_needs_decision : Route → Bool
is_needs_decision needs_decision = true
is_needs_decision _ = false

unfoldable pub is_approval_blocked : ApprovalPolicy → Bool
is_approval_blocked ApprovalPolicy.blocked = true
is_approval_blocked _ = false

unfoldable pub is_manual_review : ApprovalPolicy → Bool
is_manual_review require_manual_review = true
is_manual_review _ = false

unfoldable pub is_critical : RiskClass → Bool
is_critical critical = true
is_critical _ = false

unfoldable pub is_high : RiskClass → Bool
is_high high = true
is_high _ = false

unfoldable pub is_medium : RiskClass → Bool
is_medium medium = true
is_medium _ = false

-- The branches for a task with an enriched contract.
unfoldable pub classify_contract : EnrichedWorkContract → LoopReadinessResult
unfolding result is_blocked_route is_needs_decision is_approval_blocked is_manual_review is_critical
    is_high is_medium
classify_contract c =
    if is_blocked_route c.route
    then result LoopReadinessStatus.blocked c.risk_class ("ROUTE_BLOCKED" ∷ []) []
    else if is_needs_decision c.route
    then result not_suitable c.risk_class ("ROUTE_NEEDS_DECISION" ∷ []) []
    else if is_approval_blocked c.approval_policy
    then result LoopReadinessStatus.blocked c.risk_class ("APPROVAL_BLOCKED" ∷ []) []
    else if is_critical c.risk_class
    then result needs_human_gate critical ("CRITICAL_RISK" ∷ [])
        ("Critical risk task requires manual oversight." ∷ [])
    else if is_high c.risk_class || is_manual_review c.approval_policy
    then result needs_human_gate high ("HIGH_RISK" ∷ []) (
        (if is_empty c.safety_boundary.secret_risk_codes
          then []
          else "Secret-adjacent files may be affected." ∷ [])
        ++ "High-risk task — review changes before proceeding." ∷ [])
    else if ltb 20 (length c.base.allowed_paths)
    then result not_suitable c.risk_class ("SCOPE_TOO_WIDE" ∷ []) []
    else if is_medium c.risk_class
    then result safe_with_bounded_loop medium ("MEDIUM_RISK" ∷ []) []
    else result safe_to_loop low ("LOW_RISK" ∷ []) []

module _ (to_lower_case : String → String) where
  unfoldable pub has_high_risk_keyword : String → Bool
  has_high_risk_keyword text =
      let lower = to_lower_case text in any (λ kw. includes lower kw) high_risk_keywords

  -- The branches for a task without an enriched contract.
  unfoldable pub classify_task : String → LoopReadinessResult
  unfolding has_high_risk_keyword result
  classify_task task =
      if has_high_risk_keyword task
      then result needs_human_gate high ("HIGH_RISK_KEYWORD" ∷ [])
          ("Task mentions high-risk domain. Review scope before looping." ∷ [])
      else result safe_with_bounded_loop medium ("DEFAULT_MEDIUM" ∷ []) []

  -- The branches for a task that is neither destructive nor broad.
  unfoldable pub classify_narrow : String → Option EnrichedWorkContract → LoopReadinessResult
  unfolding classify_contract classify_task
  classify_narrow task none = classify_task task
  classify_narrow task (some c) = classify_contract c

  unfoldable pub classify_loop_readiness : ClassifyReadinessInput → LoopReadinessResult
  unfolding is_destructive_task destructive_result is_broad_task broad_result classify_narrow
  classify_loop_readiness input =
      if is_destructive_task input.task
      then destructive_result
      else if is_broad_task input.task
      then broad_result input.enriched_contract
      else classify_narrow input.task input.enriched_contract
