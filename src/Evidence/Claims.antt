-- ===== src/Evidence/Claims.antt =====
-- What evidence backs a claim of savings.
use avorelo.Common.{ℕ, ◌≡◌, ◌↔◌, true, ◌&&◌, not, Option, none, arith}
use avorelo.Evidence.Foundation.{
  MakeEvidenceInput, is_unavailable, is_soft, is_hard, is_given, make_evidence, is_available,
  as_number_or_not_available, is_savings_kind, claim, can_claim_savings,
}

-- For an entry made of any input: a savings claim is allowed exactly when the input is about cost or
-- time, its confidence is not "unavailable" and it gives a reference, and an allowed claim must be
-- labelled exactly when the confidence is estimated or inferred. An unavailable entry carries no
-- reference and no value, whatever the input gives, and no number is shown for it.
pub can_claim_savings-make_evidence :
    (i : MakeEvidenceInput) (value : Option ℕ)
    → let e = make_evidence i in
      let c = can_claim_savings e in
      ((c.allowed ≡ true) ↔ (
        is_savings_kind i.kind && (not (is_unavailable i.confidence) && is_given i.evidence_ref)
        ≡ true))
      × (c.allowed ≡ true → c.must_label ≡ is_soft i.confidence)
      × (is_unavailable i.confidence ≡ true
          → (e.evidence_ref ≡ none)
            × (e.value_label ≡ none)
            × (as_number_or_not_available e value ≡ none))
unfolding can_claim_savings make_evidence claim is_available is_unavailable is_soft is_hard
    as_number_or_not_available is_given
can_claim_savings-make_evidence i value = (ground arith, ground arith, ground arith)
