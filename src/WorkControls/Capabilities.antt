-- ===== src/WorkControls/Capabilities.antt =====
-- kernel/work-controls/index.ts: the route of capabilities. A flag that is missing is false. The
-- comparison of two unknown capabilities, `localeCompare`, is a parameter.
use avorelo.Common.{
  ℕ, ◌+◌, String, Bool, true, false, ◌&&◌, ◌||◌, not, Option, none, some, List, [], ◌∷◌, ◌++◌, map,
  get_or, if◌then◌else◌, ltb, leb, ◌==◌, string_eq, sort_by,
}
use avorelo.WorkContract.{RiskClass, high, critical}
use avorelo.WorkControls.{unique}

-- The fields of the input that are read.
pub record CapabilityRouteInput : Type 0 where
  pub risk_class : RiskClass
  pub proof_tier : String
  pub approval_policy : String
  pub proposal_hints : Option (List String)
  pub payment_touched : Bool
  pub auth_touched : Bool
  pub dashboard_touched : Bool
  pub public_copy_touched : Bool
  pub deep_mode : Bool
  pub founder_cockpit_touched : Bool
  pub ai_team_touched : Bool
  pub old_repo_reference_used : Bool
  pub context_budget_remaining : Option ℕ
  pub token_budget_remaining : Option ℕ

pub record CapabilitySuppression : Type 0 where
  pub capability : String
  pub reason_code : String
  pub required_entitlement : Option String

pub record CapabilityEntitlementCheck : Type 0 where
  pub capability : String
  pub required_legacy_feature : String
  pub allowed : Bool
  pub reason_code : String

pub record CapabilityRouteDecision : Type 0 where
  pub selected_capabilities : List String
  pub suppressed_capabilities : List CapabilitySuppression
  pub entitlement_checks : List CapabilityEntitlementCheck
  pub required_approvals : List String
  pub expected_evidence : List String
  pub reason_codes : List String
  pub proposal_hints : List String

-- What one `pushCapability` adds; every call gives one item of evidence.
pub record Push : Type 0 where
  pub capability : String
  pub reason : String
  pub evidence : String

capability_order : List String
capability_order =
    "context-check" ∷ "tool-governance" ∷ "receipt-trace" ∷ "model-routing" ∷ "proof-review"
    ∷ "context-efficiency" ∷ "production-confidence" ∷ "local-dashboard" ∷ "context-budget"
    ∷ "loop-control" ∷ "drift-guard" ∷ "company-loop" ∷ "founder-cockpit" ∷ []

capability_to_legacy_feature : List (String × String)
capability_to_legacy_feature =
    ("production-confidence", "visual-proof")
    ∷ ("local-dashboard", "local-dashboard")
    ∷ ("context-budget", "autonomous-iteration")
    ∷ ("loop-control", "autonomous-iteration")
    ∷ ("company-loop", "team-governance")
    ∷ []

legacy_feature_in : List (String × String) → String → Option String
legacy_feature_in [] capability = none
legacy_feature_in ((c, feature) ∷ rest) capability =
    let later = legacy_feature_in rest capability in if c == capability then some feature else later

-- `indexOf`, from a first index on.
index_from : ℕ → List String → String → Option ℕ
index_from n [] capability = none
index_from n (c ∷ cs) capability =
    let later = index_from (n + 1) cs capability in if c == capability then some n else later

unfoldable pub is_proof_due : CapabilityRouteInput → Bool
is_proof_due i = not (i.proof_tier == "none") && not (i.proof_tier == "local")

unfoldable pub is_high_risk : CapabilityRouteInput → Bool
is_high_risk i =
    i.auth_touched
    || i.payment_touched
    || elim i.risk_class [ high ↦ true | critical ↦ true | _ ↦ false ]

-- Whether less than a share of the context budget is left, or the work needs it anyway.
unfoldable pub is_short_of : ℕ → CapabilityRouteInput → Bool
is_short_of share i =
    ltb (get_or i.context_budget_remaining 100) share || i.deep_mode || i.public_copy_touched

unfoldable pub is_short_of_tokens : CapabilityRouteInput → Bool
is_short_of_tokens i = ltb (get_or i.token_budget_remaining 100000) 5000

call : Bool → String → String → String → Bool × Push
call is_due capability reason evidence =
    (is_due, record { capability = capability; reason = reason; evidence = evidence })

-- The calls of `pushCapability` with their conditions, in their order.
unfoldable pub calls : CapabilityRouteInput → List (Bool × Push)
unfolding call
calls i =
    call true "context-check" "CONTEXT_CHECK_REUSED" "context_check_result"
    ∷ call true "tool-governance" "TOOL_GOVERNANCE_REUSED" "tool_routing_projection"
    ∷ call true "receipt-trace" "KERNEL_RECEIPTS_REUSED" "kernel_receipt_ref"
    ∷ call true "model-routing" "MODEL_ROUTING_SUBORDINATE" "model_routing_projection"
    ∷ call (is_proof_due i) "proof-review" "PROOF_REVIEW_REQUIRED" "proof_report"
    ∷ call (is_proof_due i) "production-confidence" "PRODUCTION_CONFIDENCE_EXPECTED"
        "post_action_evidence"
    ∷ call i.dashboard_touched "local-dashboard" "LOCAL_CONTROL_CENTER_RELEVANT"
        "local_control_projection"
    ∷ call i.deep_mode "loop-control" "BOUNDED_LOOP_REUSED" "loop_metadata"
    ∷ call i.deep_mode "drift-guard" "DRIFT_GUARD_REUSED" "drift_signal"
    ∷ call (is_high_risk i) "drift-guard" "HIGH_RISK_DRIFT_GUARD" "risk_review"
    ∷ call (is_short_of 25 i) "context-budget" "CONTEXT_BUDGET_RELEVANT" "context_budget_summary"
    ∷ call (is_short_of 60 i) "context-efficiency" "CONTEXT_EFFICIENCY_BRIEF_RECOMMENDED"
        "context_efficiency_brief"
    ∷ call i.ai_team_touched "company-loop" "TEAM_COORDINATION_SIGNAL" "team_review_summary"
    ∷ call i.founder_cockpit_touched "founder-cockpit" "FOUNDER_SURFACE_SIGNAL"
        "founder_surface_projection"
    ∷ []

-- The calls that are made.
unfoldable pub due : List (Bool × Push) → List Push
due [] = []
due ((is_due, p) ∷ rest) = let later = due rest in if is_due then p ∷ later else later

unfoldable pub pushes : CapabilityRouteInput → List Push
unfolding calls due
pushes i = due (calls i)

unfoldable pub old_reference : CapabilityRouteInput → List CapabilitySuppression
old_reference i =
    if i.old_repo_reference_used
    then record {
      capability = "proof-review";
      reason_code = "OLD_REPO_REFERENCE_NOT_RUNTIME_PROOF";
      required_entitlement = none;
    }
      ∷ []
    else []

unfoldable pub low_tokens : CapabilityRouteInput → List CapabilitySuppression
unfolding is_short_of_tokens legacy_feature_in capability_to_legacy_feature
low_tokens i =
    if is_short_of_tokens i
    then record {
      capability = "loop-control";
      reason_code = "TOKEN_BUDGET_TOO_LOW_FOR_LOOP";
      required_entitlement = legacy_feature_in capability_to_legacy_feature "loop-control";
    }
      ∷ []
    else []

unfoldable pub suppression_reasons : CapabilityRouteInput → List String
unfolding is_short_of_tokens
suppression_reasons i =
    (if i.old_repo_reference_used then "OLD_REPO_REFERENCE_NOT_RUNTIME_PROOF" ∷ [] else [])
    ++ (if is_short_of_tokens i then "LOOP_CONTROL_SUPPRESSED_LOW_TOKEN_BUDGET" ∷ [] else [])

unfoldable pub check_entitlements : List String → List CapabilityEntitlementCheck
unfolding legacy_feature_in capability_to_legacy_feature
check_entitlements [] = []
check_entitlements (c ∷ cs) =
    let rest = check_entitlements cs in
    elim (legacy_feature_in capability_to_legacy_feature c) [
      | none ↦ rest
      | some feature ↦
          record {
            capability = c;
            required_legacy_feature = feature;
            allowed = true;
            reason_code = "ENTITLEMENT_AVAILABLE";
          }
          ∷ rest
    ]

-- `locale_le a b` is `a.localeCompare(b) <= 0`.
module _ (locale_le : String → String → Bool) where
  unfoldable pub goes_before : String → String → Bool
  unfolding index_from capability_order
  goes_before a b = elim (index_from 0 capability_order a) [
    | none ↦ elim (index_from 0 capability_order b) [ none ↦ locale_le a b | some n ↦ false ]
    | some m ↦ elim (index_from 0 capability_order b) [ none ↦ true | some n ↦ leb m n ]
  ]

  unfoldable pub sort_capabilities : List String → List String
  unfolding sort_by
  sort_capabilities values = sort_by goes_before values

  unfoldable pub build_capability_route_decision : CapabilityRouteInput → CapabilityRouteDecision
  unfolding unique pushes old_reference low_tokens suppression_reasons check_entitlements
      sort_capabilities
  build_capability_route_decision i =
      let ps = pushes i in
      let selected = sort_capabilities (unique (map (λ (p : Push). p.capability) ps)) in
      record {
        selected_capabilities = selected;
        suppressed_capabilities = old_reference i ++ low_tokens i;
        entitlement_checks = check_entitlements selected;
        required_approvals = unique (
            if i.approval_policy == "require_manual_review" || i.approval_policy == "blocked"
            then "manual_review" ∷ []
            else []);
        expected_evidence = unique (map (λ (p : Push). p.evidence) ps);
        reason_codes = unique (map (λ (p : Push). p.reason) ps ++ suppression_reasons i);
        proposal_hints = unique (get_or i.proposal_hints []);
      }
