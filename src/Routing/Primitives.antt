-- ===== src/Routing/Primitives.antt =====
-- validation/model-routing/index.ts: `routePrimitive`, its twelve rules as steps on the variables
-- that they assign.
pub mod Blocking
use avorelo.Common.{
  ℕ, String, Bool, true, false, not, ◌&&◌, ◌||◌, List, [], ◌∷◌, ◌++◌, if◌then◌else◌, ◌==◌,
  string_eq,
}
use avorelo.Routing.Types.{
  Primitive, no_action, no_connect, deterministic_local_read, deterministic_local_script,
  built_in_scanner, internal_skill, manual_checklist, browser_workflow, stop_blocked, ModelProfile,
  no_model, standard_synthesis, high_reasoning, code_generation, security_sensitive_review,
  privacy_sensitive_summary, RoutingTaskFrame, is_high, is_low, is_no_model,
}

pub record PrimitiveRouteDecision : Type 0 where
  pub selected_primitive : Primitive
  pub selected_model_profile : ModelProfile
  pub selected_scanners : List String
  pub selected_skills : List String
  pub skipped_skills : List String
  pub reason_codes : List String
  pub forbidden_actions : List String
  pub approval_required : Bool
  pub required_evidence : List String
  pub verification_mode : String
  pub estimated_latency_ms : ℕ
  pub estimated_context_cost : String
  pub fallback_plan : String
  pub receipt_fields : List String
  pub kernel_decision_owner : String

-- The local variables of `routePrimitive`.
pub record Draft : Type 0 where
  pub primitive : Primitive
  pub profile : ModelProfile
  pub scanners : List String
  pub reasons : List String
  pub forbidden : List String
  pub evidence : List String
  pub approval : Bool
  pub fallback : String

start : Draft
start = record {
  primitive = deterministic_local_read;
  profile = no_model;
  scanners = [];
  reasons = [];
  forbidden = [];
  evidence = [];
  approval = false;
  fallback = "deterministic_local_read";
}

module _ (frame : RoutingTaskFrame) where
  -- Rule 1: no connection is a positive decision.
  no_connect_rule : Draft → Draft
  no_connect_rule d =
      if frame.task_type == "offline" || (not frame.external_tools_allowed && not frame.mcp_touched)
      then record d { primitive = no_connect; reasons = d.reasons ++ "NO_CONNECT_SUFFICIENT" ∷ [] }
      else d

  -- Rule 2: deterministic first.
  deterministic_rule : Draft → Draft
  deterministic_rule d =
      if frame.deterministic_evidence_available && not frame.deep_mode
      then record d {
        primitive = deterministic_local_script;
        profile = no_model;
        reasons = d.reasons ++ "DETERMINISTIC_EVIDENCE_AVAILABLE" ∷ [];
      }
      else d

  abbrev pub is_security_sensitive : Bool
  is_security_sensitive =
      is_high frame.risk_class
      || (frame.secrets_possible || (frame.payment_touched || frame.auth_touched))

  -- Rule 3: scanners and a deterministic gate.
  security_rule : Draft → Draft
  security_rule d =
      if is_security_sensitive
      then record d {
        primitive = built_in_scanner;
        scanners = "secret-patterns" ∷ "claims" ∷ "permissions" ∷ [];
        profile = if is_high frame.risk_class then security_sensitive_review else d.profile;
        reasons = d.reasons ++ "SECURITY_SENSITIVE_ROUTE" ∷ [];
        evidence = d.evidence ++ "scanner_output" ∷ "deterministic_gate_verdict" ∷ [];
        forbidden = d.forbidden ++ "model_owns_READY" ∷ "model_owns_entitlement" ∷ [];
      }
      else d

  -- Rule 4: an external write needs approval.
  external_write_rule : Draft → Draft
  external_write_rule d =
      if frame.external_write_requested
      then record d {
        approval = true;
        forbidden = d.forbidden ++ "silent_external_write" ∷ [];
        reasons = d.reasons ++ "EXTERNAL_WRITE_REQUIRES_APPROVAL" ∷ [];
      }
      else d

  -- Rule 5: production impact.
  production_rule : Draft → Draft
  production_rule d =
      if frame.production_impact_possible
      then record d {
        primitive = stop_blocked;
        reasons = d.reasons ++ "PRODUCTION_IMPACT_BLOCKED" ∷ [];
        evidence = d.evidence ++ "production_confidence_receipt" ∷ [];
      }
      else d

  -- Rule 6: a browser workflow where there is a browser.
  browser_rule : Draft → Draft
  browser_rule d =
      if frame.dashboard_touched && frame.browser_available
      then record d {
        primitive = browser_workflow;
        evidence = d.evidence ++ "screenshot_proof" ∷ [];
      }
      else if frame.dashboard_touched && not frame.browser_available
      then record d {
        primitive = manual_checklist;
        reasons = d.reasons ++ "BROWSER_UNAVAILABLE_FALLBACK" ∷ [];
        fallback = "manual_checklist + backlog browser proof";
      }
      else d

  -- Rule 7: public copy.
  public_copy_rule : Draft → Draft
  public_copy_rule d =
      if frame.public_copy_touched
      then record d {
        scanners = d.scanners ++ "claims" ∷ [];
        evidence = d.evidence ++ "claim_guard_output" ∷ [];
        profile =
            if not frame.deterministic_evidence_available then standard_synthesis else d.profile;
        reasons =
            d.reasons
            ++ (if not frame.deterministic_evidence_available
                then "SYNTHESIS_FOR_COPY_REVIEW" ∷ []
                else []);
      }
      else d

  -- Rule 8: tool governance.
  mcp_rule : Draft → Draft
  mcp_rule d =
      if frame.mcp_touched
      then record d {
        scanners = d.scanners ++ "permissions" ∷ [];
        reasons = d.reasons ++ "MCP_TOOL_GOVERNANCE_REQUIRED" ∷ [];
        forbidden = d.forbidden ++ "broad_mcp_exposure_without_approval" ∷ [];
      }
      else d

  -- Rule 9: sensitive data.
  sensitive_data_rule : Draft → Draft
  sensitive_data_rule d =
      if is_high frame.data_sensitivity
      then record d {
        forbidden =
            d.forbidden
            ++ "raw_prompt_exposure" ∷ "raw_source_exposure" ∷ "raw_secret_exposure" ∷ [];
        profile = if is_no_model d.profile then privacy_sensitive_summary else d.profile;
        reasons = d.reasons ++ "SENSITIVE_DATA_REDACTION_REQUIRED" ∷ [];
      }
      else d

  -- Rule 10: deep mode.
  deep_mode_rule : Draft → Draft
  deep_mode_rule d =
      if frame.deep_mode
      then record d {
        primitive = internal_skill;
        profile = if is_no_model d.profile then high_reasoning else d.profile;
        scanners =
            "secret-patterns" ∷ "env-exposure" ∷ "claims" ∷ "permissions" ∷ "generated-exposure"
            ∷ [];
        reasons = d.reasons ++ "DEEP_MODE_FULL_REVIEW" ∷ [];
      }
      else d

  -- Rule 11: code generation.
  code_generation_rule : Draft → Draft
  code_generation_rule d =
      if frame.task_type == "code_generation"
      then record d {
        profile = code_generation;
        evidence = d.evidence ++ "test_output" ∷ "proof_receipt" ∷ [];
        reasons = d.reasons ++ "CODE_GENERATION_PROOF_REQUIRED" ∷ [];
      }
      else d

  abbrev pub is_docs_only : Bool
  is_docs_only =
      frame.task_type == "docs" && (is_low frame.risk_class && not frame.public_copy_touched)

  -- Rule 12: low-risk documentation.
  docs_rule : Draft → Draft
  docs_rule d =
      if is_docs_only
      then record d {
        primitive = no_action;
        profile = no_model;
        scanners = [];
        reasons = d.reasons ++ "DOCS_ONLY_NO_ACTION" ∷ [];
      }
      else d

  -- Rules 1 to 6, and 7 to 12.
  early_rules : Draft
  early_rules = browser_rule (
      production_rule
        (external_write_rule (security_rule (deterministic_rule (no_connect_rule start)))))

  late_rules : Draft → Draft
  late_rules d =
      docs_rule (
        code_generation_rule (deep_mode_rule (sensitive_data_rule (mcp_rule (public_copy_rule d)))))

  pub final_draft : Draft
  unfolding start no_connect_rule deterministic_rule security_rule external_write_rule
      production_rule browser_rule public_copy_rule mcp_rule sensitive_data_rule deep_mode_rule
      code_generation_rule docs_rule early_rules late_rules
  final_draft = late_rules early_rules

  unfoldable pub route_primitive : PrimitiveRouteDecision
  unfolding final_draft
  route_primitive =
      let d = final_draft in
      record {
        selected_primitive = d.primitive;
        selected_model_profile = d.profile;
        selected_scanners = d.scanners;
        selected_skills = [];
        skipped_skills = [];
        reason_codes = d.reasons;
        forbidden_actions = d.forbidden;
        approval_required = d.approval;
        required_evidence = d.evidence;
        verification_mode = if frame.proof_required then "outcome_required" else "best_effort";
        estimated_latency_ms = if is_no_model d.profile then 10 else 500;
        estimated_context_cost = if is_no_model d.profile then "low" else "medium";
        fallback_plan = d.fallback;
        receipt_fields =
            "taskType" ∷ "selectedPrimitive" ∷ "selectedModelProfile" ∷ "reasonCodes" ∷ [];
        kernel_decision_owner = "kernel/stop-continue-gate";
      }
