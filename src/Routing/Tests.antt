-- ===== src/Routing/Tests.antt =====
-- Runs of the routing at concrete frames and requests.
use avorelo.Common.{
  ◌≡◌, ◌↔◌, refl, Bool, true, false, not, ◌&&◌, none, some, List, [], ◌∷◌, any, All, contains,
  string_eq, ◌==◌, leb, if◌then◌else◌, ◌+◌, ◌≤◌,
}
use avorelo.Routing.Types.{
  ResolverResult, ModelRoutingProjection, RoutingTaskFrame, high, cheap_classification,
  standard_synthesis, security_sensitive_review, resolved, stop_blocked, profile_eq,
}
use avorelo.Routing.Primitives.{route_primitive, is_docs_only}
use avorelo.Routing.Primitives.Blocking.{route_primitive-stop_blocked_iff}
use avorelo.Routing.Registry.{registry, local_deterministic}
use avorelo.Routing.Providers.{HealthMap, is_provider_available, mark_provider_unhealthy}
use avorelo.Routing.Providers.Cooldown.{is_provider_available-mark_unhealthy}
use avorelo.Routing.Resolver.{ResolveInput, resolve_model, cheaper, initial}
use avorelo.Routing.Resolver.Filters.{is_safe}
use avorelo.Routing.Resolver.Selection.{resolve_model-safe, resolve_model-status}
use avorelo.Routing.Session.{RouteSessionMemory, create_route_session, profile_rank}
use avorelo.Routing.Session.HighWater.{Op, request, touch, run, top_rank, run-high_water}
use avorelo.Routing.Defaults.{PartialConstraints, PartialSignals, lay_constraints, lay_signals}
use avorelo.Routing.Verifier.{
  CanonicalRoutingInput, verify_routing_decision, route_canonical, is_blocked, is_training,
}
use avorelo.Routing.Verifier.Valid.{
  IsInert, verify_routing_decision-valid_iff, route_canonical-valid_iff,
}

-- A change that touches authentication, may reach production and shows on the dashboard.
abbrev frame : RoutingTaskFrame
frame = record {
  task_type = "code";
  risk_class = high;
  touched_layers = "api" ∷ [];
  browser_available = true;
  external_tools_allowed = false;
  scanner_available = true;
  mcp_touched = false;
  payment_touched = false;
  auth_touched = true;
  cloud_touched = false;
  dashboard_touched = true;
  public_copy_touched = false;
  proof_required = true;
  deterministic_evidence_available = false;
  data_sensitivity = high;
  external_write_requested = false;
  secrets_possible = false;
  production_impact_possible = true;
  deep_mode = false;
}

abbrev no_constraints : PartialConstraints
no_constraints = record {
  local_only = none;
  deny_data_collection = none;
  require_vision = none;
  require_tool_support = none;
  require_json_output = none;
  max_cost_class = none;
  allowed_providers = none;
  denied_providers = none;
}

abbrev no_signals : PartialSignals
no_signals = record {
  estimated_tokens = none;
  requires_vision = none;
  requires_tool_use = none;
  requires_json_output = none;
  requires_reasoning = none;
}

abbrev classify : ResolveInput
classify = record {
  profile = cheap_classification;
  provider_constraints = lay_constraints no_constraints;
  context_signals = lay_signals no_signals;
  approval_policy = "auto_allow";
  now = some 5;
}

abbrev canonical : CanonicalRoutingInput
canonical = record {
  frame = frame;
  approval_policy = "auto_allow";
  provider_constraints = no_constraints;
  context_signals = no_signals;
  now = some 5;
  precomputed_primitive = none;
}

route_primitive-stop_blocked_iff_example :
    ((route_primitive frame).selected_primitive ≡ stop_blocked) ↔ (
      (frame.production_impact_possible ≡ true)
      × (frame.dashboard_touched ≡ false)
      × (frame.deep_mode ≡ false)
      × (is_docs_only frame ≡ false))
route_primitive-stop_blocked_iff_example = route_primitive-stop_blocked_iff frame

is_provider_available-mark_unhealthy_example :
    (is_provider_available (mark_provider_unhealthy [] "openai" "timeout" 60 100) "openai" 130).0
    ≡ false
is_provider_available-mark_unhealthy_example =
    is_provider_available-mark_unhealthy [] "openai" "timeout" 60 100 "openai" 130

abbrev cooling : HealthMap
cooling = mark_provider_unhealthy [] "openai" "timeout" 60 100

resolve_model-status_example :
    ((resolve_model registry [] 0 classify).0.status ≡ resolved)
    ↔ (any (is_safe [] 0 classify) (initial registry classify.profile) ≡ true)
resolve_model-status_example = resolve_model-status registry [] 0 classify refl refl

abbrev requests : List Op
requests =
    request standard_synthesis "docs"
    ∷ touch "auth"
    ∷ request security_sensitive_review "auth"
    ∷ request cheap_classification "done"
    ∷ []

run-high_water_example :
    profile_rank (run requests (create_route_session "s1")).high_water_profile
    ≡ top_rank (profile_rank (create_route_session "s1").high_water_profile) requests
run-high_water_example = run-high_water requests (create_route_session "s1")

abbrev raised : RouteSessionMemory
raised = run requests (create_route_session "s1")

route_canonical-valid_iff_example :
    let c = (route_canonical registry [] 0 canonical).0 in
    IsInert c.projection
    × ((c.verifier_result.valid ≡ true) ↔ (
        ((true && not (is_blocked c.primitive_decision.selected_primitive)) ≡ false)
        × ((true && is_training c.resolver_result.selected_model) ≡ false)))
route_canonical-valid_iff_example = route_canonical-valid_iff registry [] 0 canonical

abbrev classified : ResolverResult
classified = (resolve_model registry [] 0 classify).0

classified-selected : classified.selected_model ≡ some local_deterministic
unfolding resolve_model avorelo.Common.sort_by is_provider_available
classified-selected = refl

resolve_model-safe_example :
    (is_safe [] 0 classify local_deterministic ≡ true)
    × All (λ f. is_safe [] 0 classify f ≡ true) classified.fallback_chain
    × All (λ f. cheaper local_deterministic f ≡ true) classified.fallback_chain
resolve_model-safe_example =
    resolve_model-safe registry [] 0 classify local_deterministic classified-selected

abbrev projected : ModelRoutingProjection
projected = (route_canonical registry [] 0 canonical).0.projection

verify_routing_decision-valid_iff_example :
    ((verify_routing_decision frame cheap_classification classified projected).valid ≡ true) ↔ (
      IsInert projected
      × ((true && not (is_blocked projected.selected_primitive)) ≡ false)
      × ((true && is_training classified.selected_model) ≡ false))
verify_routing_decision-valid_iff_example =
    verify_routing_decision-valid_iff frame cheap_classification classified projected
