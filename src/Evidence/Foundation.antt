-- ===== src/Evidence/Foundation.antt =====
-- kernel/evidence/foundation.ts: entries of evidence with a confidence, and savings claims.
-- A number that is rendered is a non-negative integer.
use avorelo.Common.{
  ℕ, String, Bool, true, false, ◌&&◌, ◌||◌, not, Option, none, some, List, [], ◌∷◌, ◌++◌, get_or,
  if◌then◌else◌, ◌==◌, string_eq, ◌&◌,
}

pub data EvidenceConfidence : Type 0 where
  measured imported estimated inferred unavailable : EvidenceConfidence

pub data EvidenceSourceKind : Type 0 where
  deterministic_check tool_output model_opinion user_report : EvidenceSourceKind
  external_import unknown_source : EvidenceSourceKind

pub data EvidenceKind : Type 0 where
  token_cost time outcome safety context generic : EvidenceKind

pub data EvidenceRedactionState : Type 0 where
  applied not_required pending : EvidenceRedactionState

pub data SyncEligibility : Type 0 where
  eligible ineligible not_evaluated : SyncEligibility

pub record EvidenceEntry : Type 0 where
  pub evidence_id : String
  pub source : EvidenceSourceKind
  pub kind : EvidenceKind
  pub confidence : EvidenceConfidence
  pub redaction_state : EvidenceRedactionState
  pub sync_eligibility : SyncEligibility
  pub persist_locally : Bool
  pub value_label : Option String
  pub evidence_ref : Option String
  pub reason_codes : List String

pub record MakeEvidenceInput : Type 0 where
  pub evidence_id : String
  pub source : EvidenceSourceKind
  pub kind : EvidenceKind
  pub confidence : EvidenceConfidence
  pub value_label : Option String
  pub evidence_ref : Option String
  pub redaction_state : Option EvidenceRedactionState
  pub persist_locally : Option Bool
  pub reason_codes : Option (List String)

unfoldable pub is_unavailable : EvidenceConfidence → Bool
is_unavailable unavailable = true
is_unavailable _ = false

-- `["measured", "imported"]`
unfoldable pub is_hard : EvidenceConfidence → Bool
is_hard measured = true
is_hard imported = true
is_hard _ = false

-- `["estimated", "inferred"]`
unfoldable pub is_soft : EvidenceConfidence → Bool
is_soft estimated = true
is_soft inferred = true
is_soft _ = false

-- Neither null nor the empty text.
unfoldable pub is_given : Option String → Bool
is_given o = not (get_or o "" == "")

is_deterministic : EvidenceSourceKind → Bool
is_deterministic deterministic_check = true
is_deterministic _ = false

unfoldable pub make_evidence : MakeEvidenceInput → EvidenceEntry
unfolding is_unavailable is_given is_deterministic
make_evidence input =
    let absent = is_unavailable input.confidence in
    let codes = get_or input.reason_codes [] in
    record {
      evidence_id = input.evidence_id;
      source = input.source;
      kind = input.kind;
      confidence = input.confidence;
      redaction_state =
          get_or input.redaction_state
            (if is_deterministic input.source then not_required else pending);
      sync_eligibility = not_evaluated;
      persist_locally = get_or input.persist_locally (not absent);
      value_label = if absent then none else input.value_label;
      evidence_ref = if absent then none else input.evidence_ref;
      reason_codes =
          if absent && (is_given input.evidence_ref || is_given input.value_label)
          then codes ++ "unavailable_evidence_has_no_value" ∷ []
          else codes;
    }

abbrev pub kind_text : EvidenceKind → String
kind_text token_cost = "token_cost"
kind_text time = "time"
kind_text outcome = "outcome"
kind_text safety = "safety"
kind_text context = "context"
kind_text generic = "generic"

unfoldable pub unavailable_evidence : EvidenceKind → String → EvidenceEntry
unfolding make_evidence
unavailable_evidence kind reason = make_evidence (record {
  evidence_id = "ev_unavailable_" & kind_text kind;
  source = unknown_source;
  kind = kind;
  confidence = unavailable;
  value_label = none;
  evidence_ref = none;
  redaction_state = none;
  persist_locally = none;
  reason_codes = some ((if reason == "" then "evidence_unavailable" else reason) ∷ []);
})

unfoldable pub is_available : EvidenceEntry → Bool
unfolding is_unavailable
is_available e = not (is_unavailable e.confidence)

-- `none` is `"not_available"`.
unfoldable pub as_number_or_not_available : EvidenceEntry → Option ℕ → Option ℕ
unfolding is_available
as_number_or_not_available e value = if is_available e then value else none

pub record SavingsClaimDecision : Type 0 where
  pub allowed : Bool
  pub must_label : Bool
  pub confidence : EvidenceConfidence
  pub reason_codes : List String

unfoldable pub is_savings_kind : EvidenceKind → Bool
is_savings_kind token_cost = true
is_savings_kind time = true
is_savings_kind _ = false

unfoldable pub claim : EvidenceEntry → Bool → Bool → List String → SavingsClaimDecision
claim e allowed must_label codes = record {
  allowed = allowed;
  must_label = must_label;
  confidence = e.confidence;
  reason_codes = codes;
}

unfoldable pub can_claim_savings : EvidenceEntry → SavingsClaimDecision
unfolding is_savings_kind is_available is_given is_hard is_soft claim
can_claim_savings e =
    if not (is_savings_kind e.kind)
    then claim e false false ("not_a_savings_kind" ∷ [])
    else if not (is_available e)
    then claim e false false ("no_savings_from_unavailable_evidence" ∷ [])
    else if not (is_given e.evidence_ref)
    then claim e false false ("savings_requires_evidence_ref" ∷ [])
    else if is_hard e.confidence
    then claim e true false []
    else if is_soft e.confidence
    then claim e true true ("savings_must_be_labelled" ∷ [])
    else claim e false false ("unknown_confidence" ∷ [])
