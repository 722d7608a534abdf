-- ===== src/Routing/Cascade/Order.antt =====
-- The order and the gates of the steps of a cascade.
use avorelo.Common.{ℕ, ◌+◌, ◌≡◌, Bool, true, false, List, [], ◌∷◌, arith, any}
use avorelo.Routing.Types.{
  RoutingTaskFrame, Primitive, stop_blocked, human_approval, llm_model_profile,
}
use avorelo.Routing.Primitives.{PrimitiveRouteDecision}
use avorelo.Routing.Cascade.{CascadeStep, build_steps, build_cascade}

-- The orders of the steps count up by one.
abbrev pub CountsFrom : ℕ → List CascadeStep → Type 0
CountsFrom n [] = Unit
CountsFrom n (s ∷ ss) = (s.order ≡ n) × CountsFrom (n + 1) ss

-- The steps of a cascade are numbered 1, 2, 3 and on, whichever of them the decision asks for.
pub build_cascade-orders :
    (frame : RoutingTaskFrame) (d : PrimitiveRouteDecision)
    → CountsFrom 1 (build_cascade frame d).steps
unfolding build_cascade build_steps
build_cascade-orders frame d = ground arith

abbrev pub is_model : Primitive → Bool
is_model llm_model_profile = true
is_model _ = false

abbrev pub is_approval : Primitive → Bool
is_approval human_approval = true
is_approval _ = false

abbrev pub is_stop : Primitive → Bool
is_stop stop_blocked = true
is_stop _ = false

-- The steps of a cascade hold a model step exactly when the plan requires a model, a human approval
-- exactly when it requires approval, and a stop exactly when production impact is possible.
pub build_cascade-steps :
    (frame : RoutingTaskFrame) (d : PrimitiveRouteDecision)
    → let plan = build_cascade frame d in
      (any (λ s. is_model s.primitive) plan.steps ≡ plan.requires_model)
      × (any (λ s. is_approval s.primitive) plan.steps ≡ plan.requires_approval)
      × (any (λ s. is_stop s.primitive) plan.steps ≡ frame.production_impact_possible)
unfolding build_cascade build_steps
build_cascade-steps frame d = ground arith
