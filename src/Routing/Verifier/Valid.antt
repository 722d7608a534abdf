-- ===== src/Routing/Verifier/Valid.antt =====
-- When the verifier of kernel/model-routing/verifier.ts accepts.
use avorelo.Common.{ℕ, true, false, not, ◌≡◌, ◌↔◌, refl, arith, ◌&&◌, List, ◌==◌, string_eq}
use avorelo.Routing.Types.{
  RoutingTaskFrame, ModelProfile, ResolverResult, ModelRoutingProjection, ModelCapability, is_high,
}
use avorelo.Routing.Providers.{HealthMap}
use avorelo.Routing.Cascade.{create_safe_projection}
use avorelo.Routing.Verifier.{
  verify_routing_decision, violations_of, authority_violations, raw_violations, route_violations,
  route_canonical, CanonicalRoutingInput, is_blocked, is_training,
}

-- The projection leaves every decision to the gate and holds no raw content.
pub record IsInert (p : ModelRoutingProjection) : Type 0 where
  pub no_model_decides : p.model_may_decide ≡ false
  pub no_scanner_decides : p.scanner_may_decide ≡ false
  pub owner : (p.final_decision_owner == "kernel/stop-continue-gate") ≡ true
  pub no_raw_prompt : p.contains_raw_prompt ≡ false
  pub no_raw_source : p.contains_raw_source ≡ false
  pub no_raw_secret : p.contains_raw_secret ≡ false

-- The verifier accepts exactly the projections that are inert, of a frame whose production impact,
-- if any, is blocked and whose data, if highly sensitive, is not sent to a model that trains on it.
pub verify_routing_decision-valid_iff :
    (frame : RoutingTaskFrame) (profile : ModelProfile) (r : ResolverResult)
    (p : ModelRoutingProjection)
    → ((verify_routing_decision frame profile r p).valid ≡ true) ↔ (
        IsInert p
        × ((frame.production_impact_possible && not (is_blocked p.selected_primitive)) ≡ false)
        × ((is_high frame.data_sensitivity && is_training r.selected_model) ≡ false))
unfolding verify_routing_decision violations_of authority_violations raw_violations route_violations
verify_routing_decision-valid_iff frame profile r p = ground arith

-- Whatever the registry, the provider health and the input, the canonical route's projection is inert, and
-- its own verification accepts it exactly when production impact, if any, is blocked and highly
-- sensitive data does not go to a model that trains on it.
pub route_canonical-valid_iff :
    (models : List ModelCapability) (health : HealthMap) (clock : ℕ) (input : CanonicalRoutingInput)
    → let c = (route_canonical models health clock input).0 in
      IsInert c.projection
      × ((c.verifier_result.valid ≡ true) ↔ (
          ((input.frame.production_impact_possible
              && not (is_blocked c.primitive_decision.selected_primitive))
            ≡ false)
          × ((is_high input.frame.data_sensitivity && is_training c.resolver_result.selected_model)
              ≡ false)))
unfolding route_canonical create_safe_projection
route_canonical-valid_iff models health clock input =
    let c = (route_canonical models health clock input).0 in
    let valid =
      verify_routing_decision-valid_iff input.frame c.primitive_decision.selected_model_profile
        c.resolver_result c.projection in
    let inert : IsInert c.projection = record {
      no_model_decides = refl;
      no_scanner_decides = refl;
      owner = refl;
      no_raw_prompt = refl;
      no_raw_source = refl;
      no_raw_secret = refl;
    } in
    (inert, (λ h. ((valid.0 h).1, (valid.0 h).2), λ h. valid.1 (inert, h.0, h.1)))
