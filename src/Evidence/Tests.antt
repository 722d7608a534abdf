-- ===== src/Evidence/Tests.antt =====
-- Runs of the evidence foundation.
use avorelo.Common.{◌≡◌, ◌↔◌, refl, true, ◌&&◌, not, none, some}
use avorelo.Evidence.Foundation.{
  MakeEvidenceInput, token_cost, estimated, tool_output, is_unavailable, is_soft, is_given,
  make_evidence, as_number_or_not_available, is_savings_kind, can_claim_savings,
}
use avorelo.Evidence.Claims.{can_claim_savings-make_evidence}

abbrev estimate : MakeEvidenceInput
estimate = record {
  evidence_id = "ev_1";
  source = tool_output;
  kind = token_cost;
  confidence = estimated;
  value_label = some "about 5k tokens";
  evidence_ref = some "ledger:7";
  redaction_state = none;
  persist_locally = none;
  reason_codes = none;
}

can_claim_savings-make_evidence_example :
    let e = make_evidence estimate in
    let c = can_claim_savings e in
    ((c.allowed ≡ true) ↔ (
      is_savings_kind token_cost
        && (not (is_unavailable estimated) && is_given estimate.evidence_ref)
      ≡ true))
    × (c.allowed ≡ true → c.must_label ≡ is_soft estimated)
    × (is_unavailable estimated ≡ true
        → (e.evidence_ref ≡ none)
          × (e.value_label ≡ none)
          × (as_number_or_not_available e (some 5000) ≡ none))
can_claim_savings-make_evidence_example = can_claim_savings-make_evidence estimate (some 5000)

labels_estimates : (can_claim_savings (make_evidence estimate)).must_label ≡ true
unfolding can_claim_savings make_evidence
labels_estimates = refl
