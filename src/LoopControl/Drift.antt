-- ===== src/LoopControl/Drift.antt =====
-- capabilities/loop-control/iteration-drift.ts: drift that shows in the history of the iterations.
use avorelo.Common.{
  String, ◌&&◌, List, [], ◌∷◌, ◌++◌, map, all, filter, contains, dedup, length, is_empty,
  if◌then◌else◌, ltb, nat_beq, ◌==◌, string_eq, ◌&◌, join,
}
use avorelo.DriftGuard.{DriftFinding, proof_drift, progress_drift, warning, info}
use avorelo.LoopControl.{LoopIterationSummary, LoopCheckResultStatus, failed, status_eq}

pub record IterationDriftInput : Type 0 where
  pub iterations : List LoopIterationSummary
  pub current_files_changed : List String
  pub previous_files_changed : List String

-- `Object.entries(checkResults).filter(([, v]) => v === "failed").map(([k]) => k)`
unfoldable pub failed_ids : LoopIterationSummary → List String
failed_ids s =
    map (λ (e : String × LoopCheckResultStatus). e.0)
      (filter (λ (e : String × LoopCheckResultStatus). e.1 == failed) s.check_results)

-- The checks that failed both in the last iteration and in the one before it.
unfoldable pub repeated_failures : List LoopIterationSummary → List String
unfolding failed_ids
repeated_failures [] = []
repeated_failures (s ∷ []) = []
repeated_failures (prev ∷ last ∷ []) = filter (λ c. contains (failed_ids prev) c) (failed_ids last)
repeated_failures (s ∷ t ∷ u ∷ rest) = repeated_failures (t ∷ u ∷ rest)

unfoldable pub detect_proof_drift : IterationDriftInput → List DriftFinding
unfolding repeated_failures join
detect_proof_drift input =
    let repeated = repeated_failures input.iterations in
    if is_empty repeated
    then []
    else record {
      type = proof_drift;
      severity = warning;
      description = "Same checks failed 2 consecutive iterations: " & join ", " repeated;
      evidence = repeated;
      recommendation = "Stop the loop — repeated identical failures indicate the agent is stuck.";
    }
      ∷ []

unfoldable pub detect_progress_drift : IterationDriftInput → List DriftFinding
detect_progress_drift input =
    let curr = dedup input.current_files_changed in
    let prev = dedup input.previous_files_changed in
    if ltb (length input.iterations) 2
    then []
    else if is_empty input.current_files_changed
    then record {
      type = progress_drift;
      severity = warning;
      description = "No files changed in the current iteration.";
      evidence = [];
      recommendation = "Agent may be stuck. Consider stopping the loop.";
    }
      ∷ []
    else if nat_beq (length curr) (length prev) && all (λ f. contains prev f) curr
    then record {
      type = progress_drift;
      severity = info;
      description = "Same files changed as previous iteration.";
      evidence = curr;
      recommendation = "Agent may be oscillating between changes. Monitor next iteration.";
    }
      ∷ []
    else []

unfoldable pub detect_iteration_drift : IterationDriftInput → List DriftFinding
unfolding detect_proof_drift detect_progress_drift
detect_iteration_drift input = detect_proof_drift input ++ detect_progress_drift input
