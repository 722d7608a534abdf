-- ===== src/Gate/Tests.antt =====
-- Runs of the gate at concrete evidence.
use mathlib.Core.List.{Memᴰ}
use avorelo.Common.{◌≡◌, ◌≢◌, refl, ◌↔◌, ◌⊎◌, false, some, none, List, [], ◌∷◌, get_or}
use avorelo.Schemas.{WorkContract, free, allow, stop_done, continue}
use avorelo.Evidence.{
  EvidenceArtifact, persisted_state_change, source_of_truth_readback, aftermath_correct,
  test_passed, fixture, grade_all, is_ready_eligible, plausible_for_ready,
}
use avorelo.Gate.{GateInput, decide}
use avorelo.Gate.Ready.{
  IsReady, decide-stop_done_iff, decide-continue_iff, decide-stop_done_artifacts,
}

abbrev contract : WorkContract
contract = record {
  contract_id = "c1";
  objective = "fix";
  allowed_paths = [];
  requested_outputs = [];
  success_criteria = [];
  stop_conditions = [];
  evidence_refs = [];
  review_reasons = [];
  plan_tier = free;
}

abbrev changed : EvidenceArtifact
changed = record { artifact_id = "a1"; kind = persisted_state_change; ref = "ledger:1" }

abbrev settled : EvidenceArtifact
settled = record { artifact_id = "a2"; kind = aftermath_correct; ref = "ledger:2" }

abbrev tested : EvidenceArtifact
tested = record { artifact_id = "a3"; kind = test_passed; ref = "check:unit" }

abbrev simulated : EvidenceArtifact
simulated = record { artifact_id = "a4"; kind = fixture; ref = "" }

abbrev input : List EvidenceArtifact → GateInput
input artifacts = record {
  contract = contract;
  graded = grade_all artifacts;
  policy_verdict = allow;
  policy_reason_codes = none;
  reviewer_verdicts = none;
  stop_condition_met = none;
  sample_size = some 2;
  environment_compromised = none;
  environment_reason_codes = none;
}

abbrev complete : GateInput
complete = input (changed ∷ settled ∷ [])

abbrev tests_only : GateInput
tests_only = input (tested ∷ [])

complete-stop_done : (decide complete).decision ≡ stop_done
unfolding decide grade_all is_ready_eligible plausible_for_ready
complete-stop_done = refl

tests_only_actions :
    (decide tests_only).safe_next_actions
    ≡ "gather missing evidence levels: OUTCOME, POST_ACTION" ∷ []
unfolding decide grade_all is_ready_eligible plausible_for_ready
tests_only_actions = refl

decide-stop_done_iff_example : ((decide complete).decision ≡ stop_done) ↔ IsReady complete
decide-stop_done_iff_example = decide-stop_done_iff complete

decide-continue_iff_example : ((decide tests_only).decision ≡ continue) ↔ (
    (tests_only.policy_verdict ≡ allow)
    × ¬ IsReady tests_only
    × (get_or tests_only.stop_condition_met false ≡ false))
decide-continue_iff_example = decide-continue_iff tests_only

decide-stop_done_artifacts_example :
    ((a : EvidenceArtifact) × Memᴰ a (changed ∷ settled ∷ [])
      × ((a.kind ≡ persisted_state_change) ⊎ (a.kind ≡ source_of_truth_readback))
      × (a.ref ≢ ""))
    × ((b : EvidenceArtifact) × Memᴰ b (changed ∷ settled ∷ [])
        × (b.kind ≡ aftermath_correct)
        × (b.ref ≢ ""))
decide-stop_done_artifacts_example =
    decide-stop_done_artifacts complete (changed ∷ settled ∷ []) refl complete-stop_done
