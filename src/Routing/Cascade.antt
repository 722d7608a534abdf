-- ===== src/Routing/Cascade.antt =====
-- kernel/model-routing/cascade.ts and receipt.ts: the execution steps of a route, and the safe
-- projection of its three parts.
pub mod Order
use avorelo.Common.{
  ℕ, ◌+◌, String, Bool, true, false, not, ◌&&◌, ◌||◌, Option, none, some, List, [], ◌∷◌, ◌++◌, map,
  is_empty, if◌then◌else◌, ◌==◌, length,
}
use avorelo.Routing.Types.{
  Primitive, deterministic_local_read, built_in_scanner, llm_model_profile, human_approval,
  stop_blocked, no_action, ModelProfile, profile_eq, no_model, security_sensitive_review,
  high_reasoning, RoutingTaskFrame, ModelCapability, ProviderClass, no_provider, ResolverResult,
  ModelRoutingProjection,
}
use avorelo.Routing.Primitives.{PrimitiveRouteDecision}

pub record CascadeStep : Type 0 where
  pub order : ℕ
  pub primitive : Primitive
  pub reason : String
  pub gated : Bool

pub record CascadePlan : Type 0 where
  pub steps : List CascadeStep
  pub final_primitive : Primitive
  pub requires_model : Bool
  pub requires_approval : Bool

-- `steps.push({ order: ++order, ... })`: the counter is the number of steps so far.
abbrev push_step : List CascadeStep → Primitive → String → Bool → List CascadeStep
push_step steps primitive reason gated =
    steps
    ++ record { order = length steps + 1; primitive = primitive; reason = reason; gated = gated }
      ∷ []

abbrev push_if : Bool → Primitive → String → Bool → List CascadeStep → List CascadeStep
push_if b primitive reason gated steps = if b then push_step steps primitive reason gated else steps

abbrev pub is_classified : PrimitiveRouteDecision → Bool
is_classified d =
    not (d.selected_model_profile == no_model)
    && not (d.selected_model_profile == security_sensitive_review)

abbrev pub is_reviewed_deeply : PrimitiveRouteDecision → Bool
is_reviewed_deeply d =
    d.selected_model_profile == security_sensitive_review
    || d.selected_model_profile == high_reasoning

pub build_steps : RoutingTaskFrame → PrimitiveRouteDecision → List CascadeStep
build_steps frame d =
    push_if frame.production_impact_possible stop_blocked "production_impact" true (
      push_if d.approval_required human_approval "approval_gate" true (
        push_if (is_reviewed_deeply d) llm_model_profile "deep_review_required" true (
          push_if (is_classified d) llm_model_profile "classify_or_synthesize" false (
            push_if (not (is_empty d.selected_scanners)) built_in_scanner "scanner_required" false
              (push_step [] deterministic_local_read "local_evidence_first" false)))))

pub build_cascade : RoutingTaskFrame → PrimitiveRouteDecision → CascadePlan
unfolding build_steps
build_cascade frame d = record {
  steps = build_steps frame d;
  final_primitive = d.selected_primitive;
  requires_model = not (d.selected_model_profile == no_model);
  requires_approval = d.approval_required;
}

abbrev class_of : Option ModelCapability → ProviderClass
class_of none = no_provider
class_of (some m) = m.provider_class

abbrev is_stop_blocked : Primitive → Bool
is_stop_blocked stop_blocked = true
is_stop_blocked _ = false

abbrev is_no_action : Primitive → Bool
is_no_action no_action = true
is_no_action _ = false

abbrev pub model_may_assist : PrimitiveRouteDecision → Bool
model_may_assist d =
    not (d.selected_model_profile == no_model)
    && not (is_stop_blocked d.selected_primitive)
    && not (is_no_action d.selected_primitive)

unfoldable pub create_safe_projection :
    PrimitiveRouteDecision → ResolverResult → CascadePlan → ModelRoutingProjection
create_safe_projection d r cascade = record {
  selected_primitive = d.selected_primitive;
  selected_model_profile = d.selected_model_profile;
  resolver_status = r.status;
  provider_class = class_of r.selected_model;
  fallback_plan = map (λ m. m.model_id) r.fallback_chain;
  verifier_plan = map (λ s. s.reason) cascade.steps;
  reason_codes = d.reason_codes ++ r.reason_codes;
  forbidden_actions =
      d.forbidden_actions
      ++ "persist_raw_prompt" ∷ "persist_raw_source" ∷ "persist_raw_secret" ∷ "model_own_ready"
        ∷ "model_own_entitlement" ∷ "model_own_production_readiness"
        ∷ "claim_savings_without_evidence" ∷ [];
  model_may_assist = model_may_assist d;
  model_may_decide = false;
  scanner_may_decide = false;
  final_decision_owner = "kernel/stop-continue-gate";
  contains_raw_prompt = false;
  contains_raw_source = false;
  contains_raw_secret = false;
}
