-- ===== src/Continuity/Agreement.antt =====
-- The readings of a decision state in policy.ts, side by side.
use avorelo.Common.{ℕ, ◌≡◌, ◌↔◌, Bool, true, not, ◌&&◌, arith, is_empty}
use avorelo.Continuity.{
  DecisionState, DecisionInput, NextAction, Stage, decision_state_is_ready, infer_decision_state,
  infer_continuation_mode, infer_recommended_next_action, infer_stage, safe_to_continue,
  stage_unavailable, stage_blocked, review_required, validation_pending, evidence_pending,
  waiting_on_dependency, handoff_ready, implementation_in_progress, action_unavailable,
  action_stop_and_review, ask_for_decision, run_validation, produce_receipt,
  retarget_or_rebase_after_dependency_merge, summarize_for_next_session, open_pr, continue_work,
  ready_to_continue,
}

-- The stage that belongs to an action.
abbrev pub stage_of : NextAction → Stage
stage_of action_unavailable = stage_unavailable
stage_of action_stop_and_review = stage_blocked
stage_of ask_for_decision = review_required
stage_of run_validation = validation_pending
stage_of produce_receipt = evidence_pending
stage_of retarget_or_rebase_after_dependency_merge = waiting_on_dependency
stage_of summarize_for_next_session = handoff_ready
stage_of open_pr = handoff_ready
stage_of continue_work = implementation_in_progress

-- The stage and the recommended action, which are inferred apart and the one through the mode, always
-- belong together.
pub infer_stage-action :
    (s : DecisionState) (merge : Bool) (changed : ℕ)
    → infer_stage s (infer_continuation_mode s merge changed) changed
      ≡ stage_of (infer_recommended_next_action s merge changed)
unfolding infer_stage infer_continuation_mode infer_recommended_next_action
infer_stage-action s merge changed = ground arith

-- The inferred state is ready exactly when git is available, nothing blocks or needs a review, and
-- neither validation nor evidence is missing. It is safe to continue exactly when git is available
-- and nothing blocks or needs a review. It is ready without warnings exactly when it is ready, no
-- dependency waits for its merge and there is no warning.
pub infer_decision_state-ready_iff :
    (i : DecisionInput)
    → let clear =
        i.git_available
        && not i.blocked
        && not i.human_review_required
        && not i.validation_missing
        && not i.evidence_missing in
      (decision_state_is_ready (infer_decision_state i) ≡ clear)
      × (safe_to_continue (infer_decision_state i)
          ≡ i.git_available && not i.blocked && not i.human_review_required)
      × ((infer_decision_state i ≡ ready_to_continue)
          ↔ ((clear && not i.dependency_merge_required && is_empty i.warnings) ≡ true))
unfolding infer_decision_state decision_state_is_ready safe_to_continue
infer_decision_state-ready_iff i = ground arith
