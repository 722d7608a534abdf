-- ===== src/Gate.antt =====
-- kernel/stop-continue-gate/index.ts: the only decider of CONTINUE, STOP_BLOCKED and STOP_DONE.
-- A sample size is a count, so the source's `<= 0` is `= 0`.
pub mod Ready
pub mod Inert
mod Tests
use avorelo.Common.{
  ℕ, String, Bool, true, false, ◌&&◌, not, Option, none, some, List, [], ◌∷◌, ◌++◌, any, contains,
  get_or, is_empty, if◌then◌else◌, leb, ltb, ◌==◌, nat_eq, ◌&◌, join,
}
use avorelo.Schemas.{
  EvidenceLevel, outcome, post_action, level_eq, GateDecision, continue, stop_blocked, stop_done,
  PolicyVerdict, allow, block, needs_approval, ReviewerVerdict, go, no_go, partial, ConfidenceLabel,
  unknown, low, med, high, WorkContract,
}
use avorelo.Evidence.{GradedEvidence, is_ready_eligible, plausible_for_ready, levels_present}

pub record GateInput : Type 0 where
  pub contract : WorkContract
  pub graded : List GradedEvidence
  pub policy_verdict : PolicyVerdict
  pub policy_reason_codes : Option (List String)
  pub reviewer_verdicts : Option (List ReviewerVerdict)
  pub stop_condition_met : Option Bool
  pub sample_size : Option ℕ
  pub environment_compromised : Option Bool
  pub environment_reason_codes : Option (List String)

pub record GateResult : Type 0 where
  pub decision : GateDecision
  pub safe_next_actions : List String
  pub reason_codes : List String
  pub confidence : ConfidenceLabel

confidence_for : ℕ → ConfidenceLabel
confidence_for n =
    if leb n 0 then unknown else if n == 1 then low else if ltb n 5 then med else high

abbrev is_no_go : ReviewerVerdict → Bool
is_no_go no_go = true
is_no_go _ = false

-- `(input.reviewerVerdicts ?? []).includes("NO_GO")`
unfoldable pub reviewer_no_go : GateInput → Bool
reviewer_no_go i = any is_no_go (get_or i.reviewer_verdicts [])

-- The reason codes that steps 2 and 2b push.
abbrev warning_codes : GateInput → List String
unfolding reviewer_no_go
warning_codes i =
    (if reviewer_no_go i then "REVIEWER_NO_GO" ∷ [] else [])
    ++ (if get_or i.environment_compromised false
        then "ENVIRONMENT_COMPROMISED" ∷ get_or i.environment_reason_codes []
        else [])

missing_levels : List EvidenceLevel → List String
missing_levels present =
    (if contains present outcome then [] else "OUTCOME" ∷ [])
    ++ (if contains present post_action then [] else "POST_ACTION" ∷ [])

next_action : GateInput → Bool → Bool → String
unfolding missing_levels join
next_action i eligible plausible =
    let missing = missing_levels (levels_present i.graded) in
    if get_or i.environment_compromised false && (eligible && plausible)
    then "restore a clean environment (commit/stash the dirty worktree; stop stale/served processes), then re-verify"
    else "gather missing evidence levels: "
      & (if is_empty missing then "(plausible evidence)" else join ", " missing)

-- Step 4: the evidence does not make the work ready.
not_ready : GateInput → Bool → Bool → GateResult
unfolding next_action
not_ready i eligible plausible =
    let codes = warning_codes i ++ (if plausible then [] else "EVIDENCE_NOT_PLAUSIBLE" ∷ []) in
    let action = next_action i eligible plausible in
    if get_or i.stop_condition_met false
    then record {
      decision = stop_blocked;
      safe_next_actions = action ∷ [];
      reason_codes = codes ++ "STOP_CONDITION_MET" ∷ "READY_NOT_MET" ∷ [];
      confidence = unknown;
    }
    else record {
      decision = continue;
      safe_next_actions = action ∷ [];
      reason_codes = codes ++ "READY_NOT_MET" ∷ [];
      confidence = unknown;
    }

-- Steps 2 to 4, where the policy allows.
weigh : GateInput → GateResult
unfolding not_ready reviewer_no_go confidence_for
weigh i =
    let eligible = is_ready_eligible i.graded in
    let plausible = plausible_for_ready i.graded in
    if eligible
      && (plausible && (not (reviewer_no_go i) && not (get_or i.environment_compromised false)))
    then record {
      decision = stop_done;
      safe_next_actions = [];
      reason_codes = warning_codes i ++ "OUTCOME_AND_POST_ACTION_PRESENT" ∷ [];
      confidence = confidence_for (get_or i.sample_size 1);
    }
    else not_ready i eligible plausible

by_policy : PolicyVerdict → GateInput → GateResult
unfolding weigh
by_policy block i = record {
  decision = stop_blocked;
  safe_next_actions =
      "resolve the policy block (e.g., remove/rotate secret, narrow to allowed paths)" ∷ [];
  reason_codes = "POLICY_BLOCK" ∷ get_or i.policy_reason_codes [];
  confidence = unknown;
}
by_policy needs_approval i = record {
  decision = stop_blocked;
  safe_next_actions = "request compact approval for the external/destructive action" ∷ [];
  reason_codes = "NEEDS_APPROVAL" ∷ [];
  confidence = unknown;
}
by_policy allow i = weigh i

unfoldable pub decide : GateInput → GateResult
unfolding by_policy
decide i = by_policy i.policy_verdict i
