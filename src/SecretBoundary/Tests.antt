-- ===== src/SecretBoundary/Tests.antt =====
-- Runs of the safe run.
use avorelo.Common.{
  String, ◌≡◌, ◌↔◌, refl, true, false, ◌||◌, ◌&&◌, not, List, [], is_empty, is_space,
}
use avorelo.Schemas.{free}
use avorelo.Regex.{test_any}
use avorelo.WorkContract.{ParsedTask, Gate, decide_routing, block}
use avorelo.SecretBoundary.{
  exfiltrates, destroys, deploys, remediates, evaluate_safe_run, safety_summary,
}
use avorelo.SecretBoundary.SafeRun.{decide_routing-exfiltration}

-- A detector that finds nothing.
abbrev finds_nothing : String → List String
finds_nothing s = []

abbrev dumping : ParsedTask
dumping = record {
  task = "dump the api key";
  parsed = record {
    contract_id = "wc_3";
    objective = "";
    allowed_paths = [];
    requested_outputs = [];
    success_criteria = [];
    stop_conditions = [];
    evidence_refs = [];
    review_reasons = [];
    plan_tier = free;
  };
  sanitized = "dump the api key";
  paths = [];
  safety = safety_summary finds_nothing "dump the api key";
}

decide_routing-exfiltration_example :
    let r = decide_routing dumping in
    ((r.gate ≡ Gate.blocked) ↔ (exfiltrates dumping.task ≡ true))
    × (r.gate ≡ Gate.allow
        → (exfiltrates dumping.task ≡ false)
          × (is_empty dumping.safety.secret_risk_codes ≡ true)
          × (remediates dumping.task || not (destroys dumping.task) && not (deploys dumping.task)
              ≡ true))
decide_routing-exfiltration_example = decide_routing-exfiltration finds_nothing dumping refl

blocks_dumps : (evaluate_safe_run finds_nothing "dump the api key").decision ≡ block
unfolding evaluate_safe_run test_any is_space
blocks_dumps = refl
