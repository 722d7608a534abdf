-- ===== src/EvidenceGate/Tests.antt =====
-- Runs of the evidence gate.
use avorelo.Common.{◌≡◌, ◌↔◌, refl, true, false, ◌&&◌, none, List, [], ◌∷◌, all}
use avorelo.EvidenceGate.{
  ProofContract, AdapterResult, pass, safe, blocked, needs_review, is_satisfied, evaluate_evidence,
}
use avorelo.EvidenceGate.Verdicts.{is_met, evaluate_evidence-status}

abbrev contract : ProofContract
contract = record {
  required_proof =
      record { id = "tests_pass"; description = "Tests"; critical = true; adapter_id = "tests" }
      ∷ record { id = "dep_audit"; description = "Audit"; critical = false; adapter_id = "audit" }
      ∷ [];
  optional_proof = [];
  closure_rules = [];
}

abbrev results : List AdapterResult
results =
    record {
      adapter_id = "tests";
      status = pass;
      evidence = record { type = "tests_passed"; summary = "12 passed"; passed = true } ∷ [];
      skip_reason = none;
      error_message = none;
    }
    ∷ []

evaluate_evidence-status_example :
    let g = evaluate_evidence results "2026-01-01T00:00:00.000Z" contract in
    (g.safe_to_close ≡ all (is_met results) contract.required_proof)
    × ((g.overall_status ≡ safe) ↔ (
        all (is_satisfied results) contract.required_proof
          && all (is_satisfied results) contract.optional_proof
        ≡ true))
    × ((g.overall_status ≡ blocked) ↔ (g.safe_to_close ≡ false))
evaluate_evidence-status_example =
    evaluate_evidence-status results "2026-01-01T00:00:00.000Z" contract

needs_audit : (evaluate_evidence results "now" contract).overall_status ≡ needs_review
unfolding evaluate_evidence
needs_audit = refl
