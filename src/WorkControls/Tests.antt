-- ===== src/WorkControls/Tests.antt =====
-- Runs of the work controls.
use avorelo.Common.{String, ◌≡◌, refl, none, IsDistinct, string_eq, is_space, between}
use avorelo.Regex.{test}
use avorelo.WorkControls.{ActionWorthinessInput, require_approval, evaluate_action_worthiness}
use avorelo.Common.{[], ◌∷◌, true, false, some, ◌||◌, map, contains}
use avorelo.WorkContract.{low}
use avorelo.WorkControls.Capabilities.{
  CapabilityRouteInput, CapabilitySuppression, is_proof_due, is_high_risk, is_short_of,
  is_short_of_tokens, goes_before, build_capability_route_decision,
}
use avorelo.WorkControls.Selection.{build_capability_route_decision-selected}
use avorelo.WorkControls.Verdict.{verdict_for, evaluate_action_worthiness-verdict}

-- The lower case of a text of small letters.
abbrev lower : String → String
lower s = s

abbrev release : ActionWorthinessInput
release = record {
  objective = "npm publish the docs";
  approval_policy = "none";
  proposal_hints = none;
  changed_files = none;
}

evaluate_action_worthiness-verdict_example :
    let d = evaluate_action_worthiness lower release in
    (d.verdict ≡ verdict_for d.proposal_hints "none")
    × IsDistinct d.reason_codes
    × IsDistinct d.required_approvals
evaluate_action_worthiness-verdict_example = evaluate_action_worthiness-verdict lower release

asks_for_publish : (evaluate_action_worthiness lower release).verdict ≡ require_approval
unfolding evaluate_action_worthiness test is_space between
asks_for_publish = refl

abbrev deep_work : CapabilityRouteInput
deep_work = record {
  risk_class = low;
  proof_tier = "tests";
  approval_policy = "none";
  proposal_hints = none;
  payment_touched = false;
  auth_touched = false;
  dashboard_touched = false;
  public_copy_touched = false;
  deep_mode = true;
  founder_cockpit_touched = false;
  ai_team_touched = false;
  old_repo_reference_used = false;
  context_budget_remaining = none;
  token_budget_remaining = some 100;
}

build_capability_route_decision-selected_example :
    let d = build_capability_route_decision (λ a b. true) deep_work in
    (contains d.selected_capabilities "loop-control" ≡ true)
    × (contains
          (map (λ (s : CapabilitySuppression). s.capability) d.suppressed_capabilities)
          "loop-control"
        ≡ is_short_of_tokens deep_work)
    × (contains d.selected_capabilities "proof-review" ≡ is_proof_due deep_work)
    × (contains d.selected_capabilities "drift-guard" ≡ true || is_high_risk deep_work)
build_capability_route_decision-selected_example =
    build_capability_route_decision-selected (λ a b. true) deep_work

-- The selected capabilities in the fixed order.
selects_in_order :
    (build_capability_route_decision (λ a b. true) deep_work).selected_capabilities
    ≡ "context-check" ∷ "tool-governance" ∷ "receipt-trace" ∷ "model-routing" ∷ "proof-review"
      ∷ "context-efficiency" ∷ "production-confidence" ∷ "context-budget" ∷ "loop-control"
      ∷ "drift-guard" ∷ []
unfolding build_capability_route_decision is_proof_due is_high_risk is_short_of goes_before
selects_in_order = refl
