-- ===== src/Continuity.antt =====
-- capabilities/session-continuity/policy.ts: from what is known of the work to the state, the mode,
-- the next action and the stage of its continuation. The git queries are not modelled.
pub mod Agreement
mod Tests
use avorelo.Common.{
  ℕ, String, Bool, true, false, not, ◌&&◌, ◌||◌, List, is_empty, if◌then◌else◌, nat_beq,
}

pub data DecisionState : Type 0 where
  ready_to_continue ready_with_warnings needs_review needs_validation needs_evidence : DecisionState
  blocked unavailable : DecisionState

pub data ContinuationMode : Type 0 where
  mode_unavailable mode_stop_and_review ask_user_decision wait_for_dependency_merge :
      ContinuationMode
  summarize_and_handoff continue_same_worktree start_new_session_same_worktree : ContinuationMode

pub data NextAction : Type 0 where
  action_unavailable action_stop_and_review ask_for_decision run_validation produce_receipt :
      NextAction
  retarget_or_rebase_after_dependency_merge summarize_for_next_session continue_work : NextAction
  open_pr : NextAction

pub data Stage : Type 0 where
  stage_unavailable stage_blocked review_required validation_pending evidence_pending : Stage
  waiting_on_dependency handoff_ready implementation_in_progress : Stage

pub record DecisionInput : Type 0 where
  pub git_available : Bool
  pub human_review_required : Bool
  pub blocked : Bool
  pub validation_missing : Bool
  pub evidence_missing : Bool
  pub dependency_merge_required : Bool
  pub warnings : List String

abbrev state_code : DecisionState → ℕ
state_code ready_to_continue = 0
state_code ready_with_warnings = 1
state_code needs_review = 2
state_code needs_validation = 3
state_code needs_evidence = 4
state_code blocked = 5
state_code unavailable = 6

abbrev pub is_state : DecisionState → DecisionState → Bool
is_state a b = nat_beq (state_code a) (state_code b)

pub decision_state_is_ready : DecisionState → Bool
decision_state_is_ready s = is_state s ready_to_continue || is_state s ready_with_warnings

pub infer_decision_state : DecisionInput → DecisionState
infer_decision_state i =
    if not i.git_available
    then unavailable
    else if i.blocked
    then blocked
    else if i.human_review_required
    then needs_review
    else if i.validation_missing
    then needs_validation
    else if i.evidence_missing
    then needs_evidence
    else if i.dependency_merge_required || not (is_empty i.warnings)
    then ready_with_warnings
    else ready_to_continue

pub infer_continuation_mode : DecisionState → Bool → ℕ → ContinuationMode
infer_continuation_mode s merge changed =
    if is_state s unavailable
    then mode_unavailable
    else if is_state s blocked
    then mode_stop_and_review
    else if is_state s needs_review
    then ask_user_decision
    else if merge
    then wait_for_dependency_merge
    else if nat_beq changed 0
    then summarize_and_handoff
    else if is_state s needs_validation || is_state s needs_evidence
    then continue_same_worktree
    else start_new_session_same_worktree

pub infer_recommended_next_action : DecisionState → Bool → ℕ → NextAction
infer_recommended_next_action s merge changed =
    if is_state s unavailable
    then action_unavailable
    else if is_state s blocked
    then action_stop_and_review
    else if is_state s needs_review
    then ask_for_decision
    else if is_state s needs_validation
    then run_validation
    else if is_state s needs_evidence
    then produce_receipt
    else if merge
    then retarget_or_rebase_after_dependency_merge
    else if nat_beq changed 0
    then summarize_for_next_session
    else continue_work

abbrev is_waiting : ContinuationMode → Bool
is_waiting wait_for_dependency_merge = true
is_waiting _ = false

pub infer_stage : DecisionState → ContinuationMode → ℕ → Stage
infer_stage s mode changed =
    if is_state s unavailable
    then stage_unavailable
    else if is_state s blocked
    then stage_blocked
    else if is_state s needs_review
    then review_required
    else if is_state s needs_validation
    then validation_pending
    else if is_state s needs_evidence
    then evidence_pending
    else if is_waiting mode
    then waiting_on_dependency
    else if nat_beq changed 0
    then handoff_ready
    else implementation_in_progress

pub safe_to_continue : DecisionState → Bool
safe_to_continue s =
    not (is_state s blocked) && not (is_state s needs_review) && not (is_state s unavailable)
