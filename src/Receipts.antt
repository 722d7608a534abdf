-- ===== src/Receipts.antt =====
-- kernel/receipts/index.ts: `writeReceipt` and the digest. The store of receipt files is not
-- modelled. SHA-256, the redaction, the random identifier and the time are parameters.
use avorelo.Common.{
  ℕ, String, Option, none, some, List, [], map, filter, dedup, get_or, is_some, string_eq, ◌&◌,
  slice_to,
}
use avorelo.Schemas.{
  EvidenceLevel, navigation, interaction, outcome, post_action, GateDecision, continue,
  stop_blocked, stop_done,
}
use avorelo.Evidence.{GradedEvidence, levels_present}
use avorelo.Json.{Json, num, str, arr, obj, field, end, stable_stringify}
use avorelo.Ledger.{StateLedger, AppendInput, append, texts}

abbrev pub level_text : EvidenceLevel → String
level_text navigation = "NAVIGATION"
level_text interaction = "INTERACTION"
level_text outcome = "OUTCOME"
level_text post_action = "POST_ACTION"

abbrev pub decision_text : GateDecision → String
decision_text continue = "CONTINUE"
decision_text stop_blocked = "STOP_BLOCKED"
decision_text stop_done = "STOP_DONE"

unfoldable pub strings : List String → Json
unfolding texts
strings ss = arr (texts ss)

-- The decision basis is stored whole, and its reason codes are read besides.
pub record WriteReceiptInput : Type 0 where
  pub contract_id : String
  pub decision : GateDecision
  pub graded : List GradedEvidence
  pub safe_next_actions : List String
  pub decision_basis : Json
  pub basis_reason_codes : List String
  pub sample_size : ℕ
  pub redaction_classes : Option (List String)
  pub receipt_id : Option String
  pub written_at : Option ℕ

pub record Receipt : Type 0 where
  pub receipt_id : String
  pub contract_id : String
  pub decision : GateDecision
  pub evidence_levels : List EvidenceLevel
  pub evidence_refs : List String
  pub safe_next_actions : List String
  pub decision_basis : Json
  pub redaction_classes : List String
  pub receipt_digest : String
  pub sample_size : ℕ
  pub written_at : ℕ

-- The receipt as the object literal that the redaction is given.
unfoldable pub receipt_json : Receipt → Json
unfolding strings
receipt_json r = obj (
    field "receiptId" (str r.receipt_id) (
      field "contractId" (str r.contract_id) (
        field "decision" (str (decision_text r.decision)) (
          field "evidenceLevels" (strings (map level_text r.evidence_levels)) (
            field "evidenceRefs" (strings r.evidence_refs) (
              field "safeNextActions" (strings r.safe_next_actions) (
                field "decisionBasis" r.decision_basis (
                  field "redactionClasses" (strings r.redaction_classes) (
                    field "receiptDigest" (str r.receipt_digest) (
                      field "sampleSize" (num r.sample_size) (
                        field "writtenAt" (num r.written_at)
                          (field "redaction" (str "applied") end))))))))))))

-- The references of the evidence that counts.
unfoldable pub counted_refs : List GradedEvidence → List String
counted_refs graded =
    map (λ (g : GradedEvidence). g.ref) (filter (λ (g : GradedEvidence). is_some g.level) graded)

-- The ledger's event for a redacted receipt.
unfoldable pub receipt_event : WriteReceiptInput → Json → AppendInput
receipt_event input safe = record {
  type = "receipt.written";
  contract_id = some input.contract_id;
  payload = safe;
  reason_codes = some input.basis_reason_codes;
  ts = none;
}

module _ (sha256 : String → String) where
  unfoldable pub receipt_digest : String → GateDecision → List EvidenceLevel → List String → String
  unfolding strings slice_to
  receipt_digest contract_id decision evidence_levels evidence_refs = slice_to 16 (
      sha256 (
        stable_stringify (
          obj (
            field "contractId" (str contract_id) (
              field "decision" (str (decision_text decision)) (
                field "evidenceLevels" (strings (map level_text evidence_levels))
                  (field "evidenceRefs" (strings evidence_refs) end)))))))

  -- The receipt before its redaction, with the random identifier and the time.
  unfoldable pub build_receipt : String → ℕ → WriteReceiptInput → Receipt
  unfolding receipt_digest levels_present counted_refs
  build_receipt uuid now input =
      let evidence_levels = levels_present input.graded in
      let evidence_refs = counted_refs input.graded in
      record {
        receipt_id = get_or input.receipt_id ("rcpt_" & uuid);
        contract_id = input.contract_id;
        decision = input.decision;
        evidence_levels = evidence_levels;
        evidence_refs = evidence_refs;
        safe_next_actions = input.safe_next_actions;
        decision_basis = input.decision_basis;
        redaction_classes = dedup (get_or input.redaction_classes []);
        receipt_digest =
            receipt_digest input.contract_id input.decision evidence_levels evidence_refs;
        sample_size = input.sample_size;
        written_at = get_or input.written_at now;
      }

  module _ (redact : Json → Json) where
    -- The ledger with the event, logged at its own time, and the redacted receipt.
    unfoldable pub write_receipt :
        String → ℕ → ℕ → StateLedger → WriteReceiptInput → StateLedger × Json
    unfolding build_receipt receipt_json append receipt_event
    write_receipt uuid now logged_at ledger input =
        let safe = redact (receipt_json (build_receipt uuid now input)) in
        ((append sha256 redact ledger logged_at (receipt_event input safe)).0, safe)
