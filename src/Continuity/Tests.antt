-- ===== src/Continuity/Tests.antt =====
-- Runs of policy.ts at a concrete state of the work.
use avorelo.Common.{◌≡◌, ◌↔◌, true, false, [], ◌∷◌}
use avorelo.Continuity.{
  DecisionInput, needs_evidence, ready_to_continue, infer_decision_state, decision_state_is_ready,
  safe_to_continue, infer_continuation_mode, infer_recommended_next_action, infer_stage,
}
use avorelo.Continuity.Agreement.{stage_of, infer_stage-action, infer_decision_state-ready_iff}

infer_stage-action_example :
    infer_stage needs_evidence (infer_continuation_mode needs_evidence true 2) 2
    ≡ stage_of (infer_recommended_next_action needs_evidence true 2)
infer_stage-action_example = infer_stage-action needs_evidence true 2

abbrev warned : DecisionInput
warned = record {
  git_available = true;
  human_review_required = false;
  blocked = false;
  validation_missing = false;
  evidence_missing = false;
  dependency_merge_required = false;
  warnings = "untracked files" ∷ [];
}

infer_decision_state-ready_iff_example :
    (decision_state_is_ready (infer_decision_state warned) ≡ true)
    × (safe_to_continue (infer_decision_state warned) ≡ true)
    × ((infer_decision_state warned ≡ ready_to_continue) ↔ (false ≡ true))
infer_decision_state-ready_iff_example = infer_decision_state-ready_iff warned
