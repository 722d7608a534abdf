-- ===== src/Routing/Verifier.antt =====
-- kernel/model-routing/verifier.ts, and the whole routing of index.ts: a decision is checked against
-- the safety invariants, and the canonical route checks its own.
pub mod Valid
use avorelo.Common.{
  ℕ, String, Bool, true, false, not, ◌&&◌, ◌||◌, Option, none, some, List, [], ◌∷◌, ◌++◌, filter,
  is_empty, is_some, if◌then◌else◌, ◌==◌, string_eq, contains, get_or,
}
use avorelo.Routing.Types.{
  Primitive, stop_blocked, ModelProfile, profile_eq, no_model, RoutingTaskFrame, is_high,
  ModelCapability, DataPolicy, training_included, ResolverResult, ModelRoutingProjection,
  ProviderConstraints, ContextSignals, standard, expensive,
}
use avorelo.Routing.Primitives.{PrimitiveRouteDecision, route_primitive}
use avorelo.Routing.Providers.{HealthMap}
use avorelo.Routing.Resolver.{ResolveInput, resolve_model, trains_on_data}
use avorelo.Routing.Defaults.{PartialConstraints, PartialSignals, lay_constraints, lay_signals}
use avorelo.Routing.Cascade.{CascadePlan, build_cascade, create_safe_projection}

pub data Severity : Type 0 where
  error warning : Severity

pub record VerifierViolation : Type 0 where
  pub code : String
  pub severity : Severity
  pub detail : String

pub record VerifierResult : Type 0 where
  pub valid : Bool
  pub violations : List VerifierViolation

abbrev report_if : Bool → String → Severity → String → List VerifierViolation
report_if b code severity detail =
    if b then record { code = code; severity = severity; detail = detail } ∷ [] else []

abbrev pub is_blocked : Primitive → Bool
is_blocked stop_blocked = true
is_blocked _ = false

abbrev pub is_training : Option ModelCapability → Bool
is_training none = false
is_training (some m) = trains_on_data m.data_policy

abbrev is_error : Severity → Bool
is_error error = true
is_error warning = false

-- The invariants on what a model or a scanner may decide, and who does.
pub authority_violations : ModelRoutingProjection → List VerifierViolation
authority_violations p =
    report_if p.model_may_decide "MODEL_MAY_DECIDE" error "modelMayDecide must be false"
    ++ (report_if p.scanner_may_decide "SCANNER_MAY_DECIDE" error "scannerMayDecide must be false"
        ++ report_if (not (p.final_decision_owner == "kernel/stop-continue-gate"))
            "WRONG_DECISION_OWNER" error "finalDecisionOwner must be kernel/stop-continue-gate")

-- The invariants on raw content.
pub raw_violations : ModelRoutingProjection → List VerifierViolation
raw_violations p =
    report_if p.contains_raw_prompt "RAW_PROMPT" error "containsRawPrompt must be false"
    ++ (report_if p.contains_raw_source "RAW_SOURCE" error "containsRawSource must be false"
        ++ report_if p.contains_raw_secret "RAW_SECRET" error "containsRawSecret must be false")

-- The invariants on the frame and the resolution.
pub route_violations :
    RoutingTaskFrame
    → ModelProfile
    → ResolverResult
    → ModelRoutingProjection
    → List VerifierViolation
route_violations frame profile r p =
    report_if (frame.production_impact_possible && not (is_blocked p.selected_primitive))
      "PRODUCTION_NOT_BLOCKED" error "production impact must route to stop_blocked"
    ++ (report_if
          ((frame.secrets_possible || frame.auth_touched || frame.payment_touched)
            && not (contains p.forbidden_actions "model_owns_READY"))
          "MISSING_FORBIDDEN_MODEL_READY" warning
          "security-sensitive route should forbid model_owns_READY"
        ++ (report_if (profile == no_model && is_some r.selected_model) "MODEL_FOR_DETERMINISTIC"
              warning "no_model profile should not resolve a model"
            ++ report_if (is_high frame.data_sensitivity && is_training r.selected_model)
                "TRAINING_DATA_SENSITIVE" error
                "sensitive data must not use training_included provider"))

pub violations_of :
    RoutingTaskFrame
    → ModelProfile
    → ResolverResult
    → ModelRoutingProjection
    → List VerifierViolation
unfolding authority_violations raw_violations route_violations
violations_of frame profile r p =
    authority_violations p ++ (raw_violations p ++ route_violations frame profile r p)

unfoldable pub verify_routing_decision :
    RoutingTaskFrame → ModelProfile → ResolverResult → ModelRoutingProjection → VerifierResult
unfolding violations_of
verify_routing_decision frame profile r p =
    let violations = violations_of frame profile r p in
    record {
      valid = is_empty (filter (λ v. is_error v.severity) violations);
      violations = violations;
    }

pub record CanonicalRoutingInput : Type 0 where
  pub frame : RoutingTaskFrame
  pub approval_policy : String
  pub provider_constraints : PartialConstraints
  pub context_signals : PartialSignals
  pub now : Option ℕ
  pub precomputed_primitive : Option PrimitiveRouteDecision

pub record CanonicalRoutingResult : Type 0 where
  pub projection : ModelRoutingProjection
  pub primitive_decision : PrimitiveRouteDecision
  pub resolver_result : ResolverResult
  pub cascade_plan : CascadePlan
  pub verifier_result : VerifierResult

abbrev resolve_input : CanonicalRoutingInput → PrimitiveRouteDecision → ResolveInput
resolve_input input d = record {
  profile = d.selected_model_profile;
  provider_constraints = lay_constraints input.provider_constraints;
  context_signals = lay_signals input.context_signals;
  approval_policy = input.approval_policy;
  now = input.now;
}

abbrev route_with :
    CanonicalRoutingInput → PrimitiveRouteDecision → ResolverResult → CanonicalRoutingResult
route_with input d r =
    let cascade = build_cascade input.frame d in
    let projection = create_safe_projection d r cascade in
    record {
      projection = projection;
      primitive_decision = d;
      resolver_result = r;
      cascade_plan = cascade;
      verifier_result = verify_routing_decision input.frame d.selected_model_profile r projection;
    }

pub route_canonical :
    List ModelCapability
    → HealthMap
    → ℕ
    → CanonicalRoutingInput
    → CanonicalRoutingResult × HealthMap
route_canonical models health clock input =
    let d = get_or input.precomputed_primitive (route_primitive input.frame) in
    let (r, done) = resolve_model models health clock (resolve_input input d) in
    (route_with input d r, done)
