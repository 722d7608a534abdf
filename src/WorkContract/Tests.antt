-- ===== src/WorkContract/Tests.antt =====
-- Runs of the routing of tasks.
use avorelo.Common.{◌≤◌, ◌≡◌, ◌≢◌, ◌↔◌, refl, true, false, [], is_empty, is_space, trim, includes}
use avorelo.Schemas.{WorkContract, free}
use avorelo.Regex.{test, test_any}
use avorelo.WorkContract.{
  ParsedTask, SafeRunDecision, block, Gate, require_manual_review, proof_rank, decide_routing,
}
use avorelo.WorkContract.Words.{names_deploy, claims_browser_or_production, names_build_step}
use avorelo.WorkContract.Safety.{is_at_most_medium, decide_routing-safe}

abbrev parsed : WorkContract
parsed = record {
  contract_id = "wc_1";
  objective = "center the footer";
  allowed_paths = [];
  requested_outputs = [];
  success_criteria = [];
  stop_conditions = [];
  evidence_refs = [];
  review_reasons = [];
  plan_tier = free;
}

abbrev center : ParsedTask
center = record {
  task = "center the footer";
  parsed = parsed;
  sanitized = "center the footer";
  paths = [];
  safety = record { secret_risk_codes = []; safe_run_decision = SafeRunDecision.allow };
}

decide_routing-safe_example :
    let r = decide_routing center in
    ((r.gate ≡ Gate.blocked) ↔ (SafeRunDecision.allow ≡ block))
    × (r.gate ≡ Gate.allow
        → (SafeRunDecision.allow ≡ SafeRunDecision.allow)
          × (is_empty center.safety.secret_risk_codes ≡ true)
          × (is_at_most_medium r.contract.risk_class ≡ true))
    × (is_empty center.safety.secret_risk_codes ≡ false
        → SafeRunDecision.allow ≢ block
        → (r.contract.approval_policy ≡ require_manual_review)
          × (is_at_most_medium r.contract.risk_class ≡ false)
          × (2 ≤ proof_rank r.contract.proof_tier))
decide_routing-safe_example = decide_routing-safe center

allows_small_task : (decide_routing center).gate ≡ Gate.allow
unfolding decide_routing test test_any is_space trim includes names_deploy
    claims_browser_or_production names_build_step
allows_small_task = refl
