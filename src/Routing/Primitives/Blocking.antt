-- ===== src/Routing/Primitives/Blocking.antt =====
-- Which primitive a frame with production impact is routed to, and what the route forbids.
use avorelo.Common.{
  ◌≡◌, refl, sym, ap, inl, inr, ◌↔◌, ◌⊎◌, ◌∙◌, true, false, [], ◌∷◌, ◌++◌, arith, contains,
  contains-append, string_eq,
}
use avorelo.Routing.Types.{RoutingTaskFrame, stop_blocked}
use avorelo.Routing.Primitives.{
  Draft, is_security_sensitive, is_docs_only, early_rules, late_rules, docs_rule,
  code_generation_rule, deep_mode_rule, sensitive_data_rule, mcp_rule, public_copy_rule,
  browser_rule, production_rule, external_write_rule, security_rule, deterministic_rule,
  no_connect_rule, start, route_primitive,
}

module _ (frame : RoutingTaskFrame) where
  -- The primitive after rule 5, and after rules 6 to 12.
  production_primitive :
      (d : Draft)
      → ((production_rule frame d).primitive ≡ stop_blocked)
        ↔ ((frame.production_impact_possible ≡ true) ⊎ (d.primitive ≡ stop_blocked))
  unfolding production_rule
  production_primitive d = ground arith

  before_production :
      (security_rule frame (deterministic_rule frame (no_connect_rule frame start))).primitive
        ≡ stop_blocked
      → ⊥
  unfolding security_rule deterministic_rule no_connect_rule start
  before_production = ground arith

  external_write_primitive : (d : Draft) → (external_write_rule frame d).primitive ≡ d.primitive
  unfolding external_write_rule
  external_write_primitive d = ground arith

  browser_primitive :
      (d : Draft)
      → ((browser_rule frame d).primitive ≡ stop_blocked)
        ↔ ((frame.dashboard_touched ≡ false) × (d.primitive ≡ stop_blocked))
  unfolding browser_rule
  browser_primitive d = ground arith

  late_primitive :
      (d : Draft)
      → ((late_rules frame d).primitive ≡ stop_blocked)
        ↔ ((frame.deep_mode ≡ false) × (is_docs_only frame ≡ false) × (d.primitive ≡ stop_blocked))
  unfolding late_rules docs_rule code_generation_rule deep_mode_rule sensitive_data_rule mcp_rule
      public_copy_rule
  late_primitive d = ground arith

  route-primitive_stages :
      (route_primitive frame).selected_primitive ≡ (late_rules frame (early_rules frame)).primitive
  unfolding route_primitive
  route-primitive_stages = refl

  early_primitive :
      ((early_rules frame).primitive ≡ stop_blocked)
      ↔ ((frame.production_impact_possible ≡ true) × (frame.dashboard_touched ≡ false))
  unfolding early_rules
  early_primitive =
      let d = security_rule frame (deterministic_rule frame (no_connect_rule frame start)) in
      let b = browser_primitive (production_rule frame (external_write_rule frame d)) in
      let p = production_primitive (external_write_rule frame d) in
      let e = external_write_primitive d in
      let n = before_production in
      (
        λ h.
            let (dash, h') = b.0 h in
            (elim (p.0 h') [ inl y ↦ y | inr z ↦ absurd (n (sym e ∙ z)) ], dash),
        λ (y, dash). b.1 (dash, p.1 (inl y)),
      )

  -- A frame is routed to a stop exactly when production impact is possible, the dashboard is not
  -- touched, the mode is not deep, and it is not low-risk documentation: production impact alone does
  -- not stop it.
  pub route_primitive-stop_blocked_iff :
      ((route_primitive frame).selected_primitive ≡ stop_blocked) ↔ (
        (frame.production_impact_possible ≡ true)
        × (frame.dashboard_touched ≡ false)
        × (frame.deep_mode ≡ false)
        × (is_docs_only frame ≡ false))
  route_primitive-stop_blocked_iff =
      let late = late_primitive (early_rules frame) in
      let (to, from) = early_primitive in
      (
        λ h.
            let (deep, docs, e) = late.0 (sym route-primitive_stages ∙ h) in
            let (p, d) = to e in (p, d, deep, docs),
        λ (p, d, deep, docs). route-primitive_stages ∙ late.1 (deep, docs, from (p, d)),
      )

  late_forbidden :
      (d : Draft)
      → contains (late_rules frame d).forbidden "model_owns_READY"
        ≡ contains d.forbidden "model_owns_READY"
  unfolding late_rules docs_rule code_generation_rule deep_mode_rule sensitive_data_rule mcp_rule
      public_copy_rule
  late_forbidden d = ground (
    arith,
    contains-append d.forbidden ("broad_mcp_exposure_without_approval" ∷ []) "model_owns_READY",
    contains-append d.forbidden
        ("raw_prompt_exposure" ∷ "raw_source_exposure" ∷ "raw_secret_exposure" ∷ [])
        "model_owns_READY",
    contains-append (d.forbidden ++ "broad_mcp_exposure_without_approval" ∷ [])
        ("raw_prompt_exposure" ∷ "raw_source_exposure" ∷ "raw_secret_exposure" ∷ [])
        "model_owns_READY",
  )

  early_forbidden :
      contains (early_rules frame).forbidden "model_owns_READY" ≡ is_security_sensitive frame
  unfolding early_rules browser_rule production_rule external_write_rule security_rule
      deterministic_rule no_connect_rule start
  early_forbidden = ground arith

  route-forbidden_stages :
      (route_primitive frame).forbidden_actions ≡ (late_rules frame (early_rules frame)).forbidden
  unfolding route_primitive
  route-forbidden_stages = refl

  -- The route forbids the model to own READY exactly for the security-sensitive frames: high risk,
  -- possible secrets, or payment or authentication touched.
  pub route_primitive-forbids_ready :
      contains (route_primitive frame).forbidden_actions "model_owns_READY"
      ≡ is_security_sensitive frame
  route_primitive-forbids_ready =
      ap (λ xs. contains xs "model_owns_READY") route-forbidden_stages
      ∙ late_forbidden (early_rules frame)
      ∙ early_forbidden
