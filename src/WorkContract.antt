-- ===== src/WorkContract.antt =====
-- kernel/work-contract/routing.ts, with the classification of kernel/work-contract/task-parser.ts:
-- how a task becomes a routed work contract. What the secret boundary and the rest of the parser
-- find in the task is an argument.
pub mod Words
pub mod Safety
mod Tests
use avorelo.Common.{
  ℕ, String, Bool, true, false, ◌&&◌, ◌||◌, not, Option, List, [], ◌∷◌, ◌++◌, any, filter, is_empty,
  if◌then◌else◌, leb, ◌==◌, string_eq, ◌&◌, join, includes,
}
use avorelo.Schemas.{WorkContract}
use avorelo.WorkContract.Words.{
  TaskType, testing, deployment, docs, security, classify_task, is_sensitive, names_auth_or_billing,
  names_deploy, claims_browser_or_production, has_broad_scope, is_remediation_text, is_ambiguous,
  names_build_step, names_tests,
}

pub data RiskClass : Type 0 where
  low medium high critical : RiskClass

pub data Route : Type 0 where
  deterministic_only targeted_code_edit deep_reasoning_required browser_proof_required : Route
  needs_decision blocked : Route

pub data ApprovalPolicy : Type 0 where
  no_approval require_confirmation require_manual_review blocked : ApprovalPolicy

pub data ProofTier : Type 0 where
  no_proof local tests browser production : ProofTier

pub data SafeRunDecision : Type 0 where
  allow require_approval block : SafeRunDecision

-- The fields of the safety summary that routing reads.
pub record SafetyBoundarySummary : Type 0 where
  pub secret_risk_codes : List String
  pub safe_run_decision : SafeRunDecision

pub record EnrichedWorkContract : Type 0 where
  pub base : WorkContract
  pub non_goals : List String
  pub disallowed_paths : List String
  pub risk_class : RiskClass
  pub route : Route
  pub proof_tier : ProofTier
  pub approval_policy : ApprovalPolicy
  pub safety_boundary : SafetyBoundarySummary

-- A task with what is found in it: the parsed contract, the redacted task, the named paths and the
-- summary of the secret boundary.
pub record ParsedTask : Type 0 where
  pub task : String
  pub parsed : WorkContract
  pub sanitized : String
  pub paths : List String
  pub safety : SafetyBoundarySummary

pub data Gate : Type 0 where
  allow require_approval blocked : Gate

pub record RoutingDecision : Type 0 where
  pub contract : EnrichedWorkContract
  pub gate : Gate
  pub display_task : String

-- `PROOF_ORDER.indexOf(t)`
unfoldable pub proof_rank : ProofTier → ℕ
proof_rank no_proof = 0
proof_rank local = 1
proof_rank tests = 2
proof_rank browser = 3
proof_rank production = 4

unfoldable pub max_proof : ProofTier → ProofTier → ProofTier
unfolding proof_rank
max_proof a b = if leb (proof_rank b) (proof_rank a) then a else b

unfoldable pub apply_cost_proof_floor : ProofTier → ProofTier → ProofTier
unfolding max_proof
apply_cost_proof_floor current desired_cheaper = max_proof current desired_cheaper

-- The patterns with their stars dropped, which a named path is looked for.
derive_disallowed : List String → List String
unfolding includes
derive_disallowed named_paths =
    let unnamed : String → Bool = λ d. not (any (λ p. includes p d) named_paths) in
    (if unnamed ".env" then ".env" ∷ [] else [])
    ++ (if unnamed ".env." then ".env.*" ∷ [] else [])
    ++ (if unnamed "/.ssh/" then "**/.ssh/**" ∷ [] else [])
    ++ (if unnamed "/.pem" then "**/*.pem" ∷ [] else [])
    ++ (if unnamed "/id_rsa" then "**/id_rsa" ∷ [] else [])

-- What a branch of the routing asks for.
pub record Proposal : Type 0 where
  pub risk_class : RiskClass
  pub route : Route
  pub proof_tier : ProofTier
  pub approval_policy : ApprovalPolicy
  pub non_goals : List String

-- The first correction of `assemble`: by the safe-run decision.
unfoldable pub correct_by_safe_run : SafeRunDecision → Proposal → Proposal
correct_by_safe_run block p = record p {
  route = Route.blocked;
  proof_tier = no_proof;
  approval_policy = ApprovalPolicy.blocked;
  risk_class = critical;
}
correct_by_safe_run require_approval p = record p {
  approval_policy = elim p.approval_policy [
    | no_approval ↦ require_manual_review
    | require_confirmation ↦ require_confirmation
    | require_manual_review ↦ require_manual_review
    | ApprovalPolicy.blocked ↦ ApprovalPolicy.blocked
  ];
}
correct_by_safe_run allow p = p

unfoldable pub is_blocked_route : Route → Bool
is_blocked_route Route.blocked = true
is_blocked_route _ = false

unfoldable pub at_least_review : ApprovalPolicy → ApprovalPolicy
at_least_review ApprovalPolicy.blocked = ApprovalPolicy.blocked
at_least_review _ = require_manual_review

unfoldable pub at_least_high : RiskClass → RiskClass
at_least_high critical = critical
at_least_high _ = high

-- The second correction: by the secrets found in the task.
unfoldable pub correct_by_secrets : List String → Proposal → Proposal
unfolding is_blocked_route at_least_review at_least_high max_proof
correct_by_secrets codes p =
    if not (is_blocked_route p.route) && not (is_empty codes)
    then record p {
      approval_policy = at_least_review p.approval_policy;
      risk_class = at_least_high p.risk_class;
      proof_tier = max_proof p.proof_tier tests;
    }
    else p

unfoldable pub corrected : SafeRunDecision → List String → Proposal → Proposal
unfolding correct_by_safe_run correct_by_secrets
corrected decision codes p = correct_by_secrets codes (correct_by_safe_run decision p)

unfoldable pub assemble : ParsedTask → Proposal → EnrichedWorkContract
unfolding corrected derive_disallowed
assemble t p =
    let q = corrected t.safety.safe_run_decision t.safety.secret_risk_codes p in
    record {
      base = record t.parsed { objective = t.sanitized };
      non_goals = p.non_goals;
      disallowed_paths = derive_disallowed t.paths;
      risk_class = q.risk_class;
      route = q.route;
      proof_tier = q.proof_tier;
      approval_policy = q.approval_policy;
      safety_boundary = t.safety;
    }

unfoldable pub propose : RiskClass → Route → ProofTier → ApprovalPolicy → List String → Proposal
propose risk route proof approval non_goals = record {
  risk_class = risk;
  route = route;
  proof_tier = proof;
  approval_policy = approval;
  non_goals = non_goals;
}

abbrev is_type : TaskType → TaskType → Bool
is_type a b = elim a [
  | testing ↦ elim b [ testing ↦ true | _ ↦ false ]
  | deployment ↦ elim b [ deployment ↦ true | _ ↦ false ]
  | docs ↦ elim b [ docs ↦ true | _ ↦ false ]
  | security ↦ elim b [ security ↦ true | _ ↦ false ]
  | _ ↦ false
]

-- Steps 4 to 8, for a task of a type and the text of the task with its paths.
unfoldable pub propose_by_text : String → String → TaskType → Proposal
unfolding propose
propose_by_text task text task_type =
    if names_deploy text || is_type deployment task_type
    then propose critical needs_decision production require_manual_review
        ("No autonomous production deployment" ∷ [])
    else if claims_browser_or_production text
    then propose high browser_proof_required browser require_confirmation []
    else if names_auth_or_billing text || is_type security task_type
    then propose high targeted_code_edit tests require_manual_review []
    else if is_type testing task_type || (is_type docs task_type || names_build_step task)
    then propose low (if is_type docs task_type then targeted_code_edit else deterministic_only)
        (if is_type testing task_type || names_tests task then tests else local) no_approval []
    else propose (if is_sensitive text then high else medium) targeted_code_edit
        (if is_sensitive text then tests else local)
        (if is_sensitive text then require_confirmation else no_approval) []

-- `safety.safeRunDecision === "allow"`
unfoldable pub is_allowed_run : SafeRunDecision → Bool
is_allowed_run allow = true
is_allowed_run _ = false

-- Steps 2 to 8: what is proposed for a task that the secret boundary does not block.
unfoldable pub propose_route : ParsedTask → Proposal
unfolding propose propose_by_text max_proof is_allowed_run join classify_task is_sensitive
    names_auth_or_billing is_remediation_text is_ambiguous has_broad_scope
propose_route t =
    let text = t.task & " " & join " " t.paths in
    if is_allowed_run t.safety.safe_run_decision && is_remediation_text t.task
    then propose (if is_sensitive text then critical else high) targeted_code_edit
        (max_proof tests (if names_auth_or_billing text then tests else local))
        (if is_sensitive text then require_manual_review else require_confirmation)
        ("Do not expose the raw secret value; reference it safely" ∷ [])
    else if is_ambiguous t.task || has_broad_scope t.task
    then propose medium needs_decision tests require_confirmation
        ("Do not begin broad changes before scope is confirmed" ∷ [])
    else propose_by_text t.task text (classify_task t.task)

-- Step 1, and the rest, by the safe-run decision.
unfoldable pub propose_after : SafeRunDecision → ParsedTask → Proposal
unfolding propose propose_route
propose_after block t =
    propose critical Route.blocked no_proof ApprovalPolicy.blocked
      ("Never print, dump, or exfiltrate secret values" ∷ [])
propose_after _ t = propose_route t

unfoldable pub route_work_contract : ParsedTask → EnrichedWorkContract
unfolding assemble propose_after
route_work_contract t = assemble t (propose_after t.safety.safe_run_decision t)

unfoldable pub gate_of : Route → ApprovalPolicy → Gate
unfolding is_blocked_route
gate_of route approval = if is_blocked_route route then Gate.blocked else elim approval [
  | ApprovalPolicy.blocked ↦ Gate.blocked
  | require_manual_review ↦ Gate.require_approval
  | require_confirmation ↦ Gate.require_approval
  | no_approval ↦ Gate.allow
]

-- The summary for the console is left out.
unfoldable pub decide_routing : ParsedTask → RoutingDecision
unfolding route_work_contract gate_of
decide_routing t =
    let contract = route_work_contract t in
    record {
      contract = contract;
      gate = gate_of contract.route contract.approval_policy;
      display_task = contract.base.objective;
    }
