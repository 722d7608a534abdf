-- ===== src/EvidenceGate.antt =====
-- kernel/evidence-gate/index.ts: whether the proof that a contract asks for has been given, with the
-- types of kernel/proof-contract/index.ts and kernel/proof-adapters/types.ts that it reads.
pub mod Verdicts
mod Tests
use avorelo.Common.{
  ℕ, String, Bool, true, false, ◌&&◌, ◌||◌, not, Option, none, some, List, [], ◌∷◌, ◌++◌, map, all,
  filter, find, length, is_empty, get_or, if◌then◌else◌, ◌==◌, string_eq, ◌&◌, join,
}

pub record ProofRequirement : Type 0 where
  pub id : String
  pub description : String
  pub critical : Bool
  pub adapter_id : String

-- The fields of a proof contract that the gate reads.
pub record ProofContract : Type 0 where
  pub required_proof : List ProofRequirement
  pub optional_proof : List ProofRequirement
  pub closure_rules : List String

pub record AdapterEvidence : Type 0 where
  pub type : String
  pub summary : String
  pub passed : Bool

pub data AdapterStatus : Type 0 where
  pass fail skip error : AdapterStatus

pub record AdapterResult : Type 0 where
  pub adapter_id : String
  pub status : AdapterStatus
  pub evidence : List AdapterEvidence
  pub skip_reason : Option String
  pub error_message : Option String

pub record EvidenceVerdict : Type 0 where
  pub requirement_id : String
  pub description : String
  pub critical : Bool
  pub satisfied : Bool
  pub reason : String
  pub adapter_id : String

pub data OverallStatus : Type 0 where
  safe blocked needs_review : OverallStatus

pub record GateResult : Type 0 where
  pub timestamp : String
  pub safe_to_close : Bool
  pub overall_status : OverallStatus
  pub verdicts : List EvidenceVerdict
  pub blocking_reasons : List String
  pub warnings : List String
  pub satisfied_count : ℕ
  pub total_required : ℕ
  pub closure_rules_applied : List String

pub record Match : Type 0 where
  pub satisfied : Bool
  pub reason : String

-- Whether evidence of a type counts for a requirement.
unfoldable pub is_relevant : String → String → Bool
is_relevant id type =
    if id == "build_pass"
    then type == "build_passed"
    else if id == "tests_pass"
    then type == "tests_passed"
    else if id == "artifact_guard"
    then type == "no_secret_findings" || type == "product_surface_clean"
    else if id == "secret_scan" || id == "no_raw_secrets"
    then type == "no_secret_findings"
    else if id == "dep_audit"
    then type == "package_audit"
    else if id == "product_surface" || id == "claims_check"
    then type == "product_surface_clean"
    else if id == "browser_proof"
    then type == "browser_tooling_detected"
    else if id == "api_contract"
    then type == "api_schema_valid"
    else false

summaries : List AdapterEvidence → String
unfolding join
summaries es = join "; " (map (λ (e : AdapterEvidence). e.summary) es)

-- The relevant evidence of a result that is no error and no skip.
unfoldable pub match_evidence : ProofRequirement → Bool → List AdapterEvidence → Match
unfolding summaries
match_evidence req passes relevant =
    if is_empty relevant
    then if passes
      then record { satisfied = true; reason = "Adapter passed overall" }
      else record { satisfied = false; reason = "No matching evidence for " & req.id }
    else if all (λ (e : AdapterEvidence). e.passed) relevant
    then record { satisfied = true; reason = summaries relevant }
    else record {
      satisfied = false;
      reason = summaries (filter (λ (e : AdapterEvidence). not e.passed) relevant);
    }

unfoldable pub match_result : ProofRequirement → AdapterResult → AdapterStatus → Match
unfolding match_evidence is_relevant
match_result req result error = record {
  satisfied = false;
  reason = "Adapter error: " & get_or result.error_message "unknown";
}
match_result req result skip = record {
  satisfied = not req.critical;
  reason = get_or result.skip_reason "Adapter skipped";
}
match_result req result pass =
    match_evidence req true
      (filter (λ (e : AdapterEvidence). is_relevant req.id e.type) result.evidence)
match_result req result fail =
    match_evidence req false
      (filter (λ (e : AdapterEvidence). is_relevant req.id e.type) result.evidence)

unfoldable pub match_found : ProofRequirement → Option AdapterResult → Match
unfolding match_result
match_found req none = record {
  satisfied = false;
  reason = "No adapter result for " & req.adapter_id;
}
match_found req (some result) = match_result req result result.status

unfoldable pub match_requirement_to_result : ProofRequirement → List AdapterResult → Match
unfolding match_found
match_requirement_to_result req results =
    match_found req (find (λ (r : AdapterResult). r.adapter_id == req.adapter_id) results)

-- What the loops push for a requirement.
unfoldable pub verdict_of : ProofRequirement → Bool → Match → EvidenceVerdict
verdict_of req critical m = record {
  requirement_id = req.id;
  description = req.description;
  critical = critical;
  satisfied = m.satisfied;
  reason = m.reason;
  adapter_id = req.adapter_id;
}

module _ (results : List AdapterResult) where
  -- The test that is the same for a requirement in all four lists.
  unfoldable pub is_satisfied : ProofRequirement → Bool
  unfolding match_requirement_to_result
  is_satisfied req = (match_requirement_to_result req results).satisfied

  complaint : ProofRequirement → String
  unfolding match_requirement_to_result
  complaint req = req.description & ": " & (match_requirement_to_result req results).reason

  unfoldable pub required_verdicts : List ProofRequirement → List EvidenceVerdict
  unfolding verdict_of match_requirement_to_result
  required_verdicts reqs =
      map
        (λ (r : ProofRequirement). verdict_of r r.critical (match_requirement_to_result r results))
        reqs

  unfoldable pub optional_verdicts : List ProofRequirement → List EvidenceVerdict
  unfolding verdict_of match_requirement_to_result
  optional_verdicts reqs =
      map (λ (r : ProofRequirement). verdict_of r false (match_requirement_to_result r results))
        reqs

  unfoldable pub blocking_of : List ProofRequirement → List String
  unfolding complaint is_satisfied
  blocking_of reqs =
      map complaint (filter (λ (r : ProofRequirement). not (is_satisfied r) && r.critical) reqs)

  unfoldable pub warnings_of : List ProofRequirement → List String
  unfolding complaint is_satisfied
  warnings_of reqs =
      map complaint (filter (λ (r : ProofRequirement). not (is_satisfied r) && not r.critical) reqs)

  unfoldable pub optional_warnings_of : List ProofRequirement → List String
  unfolding complaint is_satisfied
  optional_warnings_of reqs =
      map (λ (r : ProofRequirement). "Optional: " & complaint r)
        (filter (λ (r : ProofRequirement). not (is_satisfied r)) reqs)

  unfoldable pub evaluate_evidence : String → ProofContract → GateResult
  unfolding required_verdicts optional_verdicts blocking_of warnings_of optional_warnings_of
  evaluate_evidence now contract =
      let verdicts =
        required_verdicts contract.required_proof ++ optional_verdicts contract.optional_proof in
      let blocking = blocking_of contract.required_proof in
      let warnings =
        warnings_of contract.required_proof ++ optional_warnings_of contract.optional_proof in
      record {
        timestamp = now;
        safe_to_close = is_empty blocking;
        overall_status =
            if is_empty blocking then if is_empty warnings then safe else needs_review else blocked;
        verdicts = verdicts;
        blocking_reasons = blocking;
        warnings = warnings;
        satisfied_count = length (filter (λ (v : EvidenceVerdict). v.satisfied) verdicts);
        total_required = length verdicts;
        closure_rules_applied = contract.closure_rules;
      }
