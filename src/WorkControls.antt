-- ===== src/WorkControls.antt =====
-- kernel/work-controls/index.ts: the hints of a proposal, and whether an action is worth taking;
-- Capabilities has the route of capabilities.
-- `toLowerCase` of a text with any characters is a parameter.
pub mod Verdict
pub mod Capabilities
pub mod Selection
mod Tests
use avorelo.Common.{
  String, Bool, true, false, ◌&&◌, ◌||◌, not, Option, none, some, List, [], ◌∷◌, ◌++◌, map, any,
  filter, contains, dedup, get_or, is_empty, if◌then◌else◌, ◌==◌, string_eq, ◌&◌, join,
}
use Prim.Native.Char.{code}
use avorelo.Common.{between}
use avorelo.Regex.{Regex, one, edge, space, plus, optional, literal, sequence, choice, test}

pub data ActionWorthinessVerdict : Type 0 where
  allow allow_with_bounds require_approval suggest_safer_action block : ActionWorthinessVerdict

-- `riskClass` is never read.
pub record ActionWorthinessInput : Type 0 where
  pub objective : String
  pub approval_policy : String
  pub proposal_hints : Option (List String)
  pub changed_files : Option (List String)

pub record ActionWorthinessDecision : Type 0 where
  pub verdict : ActionWorthinessVerdict
  pub proposal_hints : List String
  pub required_approvals : List String
  pub safer_alternative : Option String
  pub bounds : List String
  pub expected_evidence : List String
  pub reason_codes : List String

unfoldable pub unique : List String → List String
unique values = dedup (filter (λ v. not (v == "")) values)

-- `/\ba|b|c\b/`: an edge before the first alternative and one after the last, and none between.
alternatives : Regex → List String → String → Regex
unfolding sequence literal choice
alternatives first middle last =
    choice (
      sequence (edge ∷ first ∷ []) ∷ map literal middle ++ sequence (literal last ∷ edge ∷ []) ∷ [])

-- The hints with their patterns, in the order of the tests.
hint_patterns : List (String × Regex)
unfolding alternatives sequence literal plus optional between choice
hint_patterns =
    ("npm_publish", sequence (edge ∷ literal "npm" ∷ plus space ∷ literal "publish" ∷ edge ∷ []))
    ∷ (
      "production_deploy",
      alternatives (literal "deploy") ("production deploy" ∷ "ship to prod" ∷ []) "go live",
    )
    ∷ (
      "github_release",
      choice (
          sequence (edge ∷ literal "github release" ∷ [])
          ∷ literal "create release"
          ∷ sequence (literal "release v" ∷ one (λ c. between 48 57 (code c)) ∷ [])
          ∷ sequence (literal "release candidate" ∷ edge ∷ [])
          ∷ []),
    )
    ∷ ("git_tag", alternatives (literal "git tag") ("create tag" ∷ []) "tag release")
    ∷ (
      "billing_change",
      alternatives (literal "billing") ("payment" ∷ "invoice" ∷ "subscription" ∷ []) "webhook",
    )
    ∷ (
      "auth_security_change",
      alternatives (literal "auth") ("login" ∷ "session" ∷ "security" ∷ []) "permission",
    )
    ∷ (
      "credential_action",
      alternatives (literal "credential") ("secret" ∷ "token" ∷ "api key" ∷ "rotate key" ∷ [])
          "rotate secret",
    )
    ∷ (
      "customer_impacting",
      alternatives (literal "customer")
          ("tenant" ∷ "workspace" ∷ "user-facing" ∷ "user facing" ∷ []) "live users",
    )
    ∷ (
      "destructive_migration",
      alternatives (literal "migration") ("drop table" ∷ "destructive" ∷ [])
          "delete production data",
    )
    ∷ (
      "docs_only",
      alternatives (sequence (literal "doc" ∷ optional (literal "s") ∷ []))
          ("readme" ∷ "changelog" ∷ []) "markdown",
    )
    ∷ (
      "read_only_status",
      alternatives (literal "status") ("doctor" ∷ "health" ∷ "read-only" ∷ "read only" ∷ [])
          "explain",
    )
    ∷ []

hints_in : String → List (String × Regex) → List String
unfolding test
hints_in text [] = []
hints_in text ((hint, pattern) ∷ patterns) =
    let rest = hints_in text patterns in if test pattern text then hint ∷ rest else rest

approval_hints : List String
approval_hints =
    "npm_publish" ∷ "production_deploy" ∷ "github_release" ∷ "git_tag" ∷ "billing_change"
    ∷ "credential_action" ∷ "customer_impacting" ∷ []

-- `proposalHints.some((hint) => approvalHints.includes(hint))`
unfoldable pub is_risky : List String → Bool
unfolding approval_hints
is_risky hints = any (λ h. contains approval_hints h) hints

-- The local variables of `evaluateActionWorthiness`.
pub record Weighing : Type 0 where
  pub verdict : ActionWorthinessVerdict
  pub required_approvals : List String
  pub safer_alternative : Option String
  pub bounds : List String
  pub expected_evidence : List String
  pub reason_codes : List String

unfoldable pub start : Weighing
start = record {
  verdict = allow;
  required_approvals = [];
  safer_alternative = none;
  bounds = "local_only" ∷ "sanitized_receipts_only" ∷ [];
  expected_evidence = [];
  reason_codes = [];
}

unfoldable pub is_block : ActionWorthinessVerdict → Bool
is_block block = true
is_block _ = false

unfoldable pub is_allow : ActionWorthinessVerdict → Bool
is_allow allow = true
is_allow _ = false

unfoldable pub needs_approval : ActionWorthinessVerdict → Bool
needs_approval require_approval = true
needs_approval _ = false

unfoldable pub weigh_migration : List String → Weighing → Weighing
weigh_migration hints w =
    if contains hints "destructive_migration"
    then record w {
      verdict = block;
      safer_alternative =
          some
            "prepare a migration plan, backup plan, and readback proof before any destructive step";
      reason_codes = w.reason_codes ++ "DESTRUCTIVE_MIGRATION_BLOCKED" ∷ [];
      expected_evidence =
          w.expected_evidence ++ "migration_plan" ∷ "backup_confirmation" ∷ "readback_plan" ∷ [];
    }
    else w

unfoldable pub weigh_risk : List String → Weighing → Weighing
unfolding is_block is_risky
weigh_risk hints w =
    if not (is_block w.verdict) && is_risky hints
    then record w {
      verdict = require_approval;
      required_approvals = w.required_approvals ++ "human_approval" ∷ [];
      reason_codes = w.reason_codes ++ "RISKY_ACTION_REQUIRES_APPROVAL" ∷ [];
    }
    else w

-- The three steps that bound an action: a hint, its reason, its bound and its evidence.
unfoldable pub weigh_bound :
    List String → String → String → String → List String → Weighing → Weighing
unfolding is_allow
weigh_bound hints hint reason bound evidence w =
    if is_allow w.verdict && contains hints hint
    then record w {
      verdict = allow_with_bounds;
      reason_codes = w.reason_codes ++ reason ∷ [];
      bounds = w.bounds ++ bound ∷ [];
      expected_evidence = w.expected_evidence ++ evidence;
    }
    else w

unfoldable pub weigh_release : List String → Weighing → Weighing
unfolding needs_approval
weigh_release hints w =
    if needs_approval w.verdict
      && (contains hints "production_deploy"
          || contains hints "npm_publish"
          || contains hints "github_release")
    then record w {
      safer_alternative =
          some
            "prepare proof, package checks, and a manual release checklist instead of performing the live action";
      expected_evidence = w.expected_evidence ++ "package_check" ∷ "release_readiness" ∷ [];
    }
    else w

unfoldable pub weigh_policy : String → Weighing → Weighing
unfolding is_allow
weigh_policy policy w =
    if policy == "blocked"
    then record w {
      verdict = block;
      safer_alternative =
          some (get_or w.safer_alternative "resolve the existing policy block before execution");
      reason_codes = w.reason_codes ++ "WORK_CONTRACT_ALREADY_BLOCKED" ∷ [];
    }
    else if is_allow w.verdict
        && (policy == "require_manual_review" || policy == "require_confirmation")
    then record w {
      verdict = suggest_safer_action;
      safer_alternative = some (
          get_or w.safer_alternative
            "keep the change local and gather proof before asking for approval");
      required_approvals = w.required_approvals ++ "manual_review" ∷ [];
      reason_codes = w.reason_codes ++ "WORK_CONTRACT_APPROVAL_ESCALATION" ∷ [];
    }
    else w

-- The evidence that three hints ask for at the end.
late_evidence : List String → List String
late_evidence hints =
    (if contains hints "billing_change"
      then "billing_readback" ∷ "webhook_verification" ∷ []
      else [])
    ++ (if contains hints "credential_action"
        then "secret_rotation_plan" ∷ "secret_scan" ∷ []
        else [])
    ++ (if contains hints "customer_impacting" then "customer_impact_review" ∷ [] else [])

-- The steps in their order.
unfoldable pub weighed : List String → String → Weighing
unfolding start weigh_migration weigh_risk weigh_bound weigh_release weigh_policy
weighed hints policy = weigh_policy policy (
    weigh_release hints (
      weigh_bound hints "read_only_status" "READ_ONLY_STATUS_SAFE" "read_only_execution"
        ("read_only_output" ∷ [])
        (weigh_bound hints "docs_only" "DOCS_ONLY_SAFE_PATH" "docs_only_scope" ("diff_review" ∷ [])
          (weigh_bound hints "auth_security_change" "AUTH_SECURITY_BOUNDED" "proof_required"
            ("security_review" ∷ "secret_scan" ∷ [])
            (weigh_risk hints (weigh_migration hints start))))))

module _ (to_lower_case : String → String) where
  unfoldable pub detect_proposal_hints : String → List String → List String
  unfolding hints_in hint_patterns unique join
  detect_proposal_hints objective changed_files =
      unique (hints_in (to_lower_case (objective & " " & join " " changed_files)) hint_patterns)

  -- The hints that are given, or else those that are detected.
  unfoldable pub hints_of : ActionWorthinessInput → List String
  unfolding unique detect_proposal_hints
  hints_of input = unique (
      get_or input.proposal_hints
        (detect_proposal_hints input.objective (get_or input.changed_files [])))

  unfoldable pub evaluate_action_worthiness : ActionWorthinessInput → ActionWorthinessDecision
  unfolding hints_of weighed late_evidence unique
  evaluate_action_worthiness input =
      let hints = hints_of input in
      let w = weighed hints input.approval_policy in
      record {
        verdict = w.verdict;
        proposal_hints = hints;
        required_approvals = unique w.required_approvals;
        safer_alternative = w.safer_alternative;
        bounds = unique w.bounds;
        expected_evidence = unique (w.expected_evidence ++ late_evidence hints);
        reason_codes =
            unique
              (if is_empty w.reason_codes then "ACTION_SAFE_LOCAL_ONLY" ∷ [] else w.reason_codes);
      }
