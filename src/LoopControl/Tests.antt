-- ===== src/LoopControl/Tests.antt =====
-- Runs of the loop control.
use avorelo.Common.{
  ◌++◌, ◌+◌, ◌≤◌, starts_with, ends_with, includes, trim, String, ◌≡◌, ◌≢◌, refl, true, false, ◌||◌,
  none, some, [], ◌∷◌, is_empty, any, is_space,
}
use avorelo.Schemas.{stop_blocked, free}
use avorelo.Json.{Json, decimal}
use avorelo.Regex.{test_any}
use avorelo.Ledger.{verify_chain}
use avorelo.DriftGuard.{is_block, matches_glob, detect_scope_drift, detect_method_drift}
use avorelo.LoopControl.{
  LoopReadinessResult, LoopPolicy, bounded_loop, success_all_checks_passed, failure_no_progress,
  user_stopped, proved, not_proved, budget_max_iterations, CheckRun, passed, skipped,
  LoopStopReason, LoopIterationSummary,
}
use avorelo.LoopControl.Checks.{run_all_checks}
use avorelo.LoopControl.Drift.{detect_iteration_drift}
use avorelo.LoopControl.Readiness.{
  ClassifyReadinessInput, classify_loop_readiness, is_broad_task, is_critical,
}
use avorelo.LoopControl.Policy.{BuildPolicyInput, build_loop_policy, is_gated, is_single_run}
use avorelo.WorkContract.{ParsedTask, block, route_work_contract}
use avorelo.LoopControl.Routed.{build_loop_policy-blocked_task}
use avorelo.LoopControl.Limits.{build_loop_policy-limits}
use avorelo.LoopControl.Metadata.{BuildLoopMetadataInput, asks_attention, build_loop_metadata}
use avorelo.LoopControl.Totals.{build_loop_metadata-totals}
use avorelo.LoopControl.Orchestrator.{IterationEnv, LoopEnv, OrchestratorInput}
use avorelo.LoopControl.Orchestrator.Loop.{run_loop}
use avorelo.LoopControl.Orchestrator.Outcome.{run_loop-stop_blocked}
use avorelo.LoopControl.Orchestrator.Stops.{
  is_used, is_safety, is_proof_drift, run_loop-stop_reason,
}
use avorelo.LoopControl.Orchestrator.Unreachable.{run_loop-never_success}
use avorelo.LoopControl.Orchestrator.History.{kinds, kinds_logged, NumberedFrom, run_loop-history}

-- The lower case of a text of small letters, a constant hash and a redaction that changes nothing.
abbrev lower : String → String
lower s = s

abbrev constant_hash : String → String
constant_hash s = "0123456789abcdef0123"

abbrev keep_all : Json → Json
keep_all j = j

abbrev small_fix : ClassifyReadinessInput
small_fix = record { task = "fix the footer"; enriched_contract = none }

abbrev asked : BuildPolicyInput
asked = record {
  readiness = classify_loop_readiness lower small_fix;
  user_checks = some (record { label = "unit"; command = "npm test"; type = none } ∷ []);
  user_max_iterations = some 50;
  user_max_runtime_minutes = some 600;
  allowed_commands = none;
  blocked_commands = none;
  receipt_level = none;
  cwd = none;
}

abbrev policy : LoopPolicy
policy = build_loop_policy "0badcafe" asked

build_loop_policy-limits_example :
    (policy.max_iterations ≤ 10)
    × (policy.max_runtime_minutes ≤ 60)
    × (is_single_run policy.mode
        ≡ is_gated asked.readiness.classification
          || (is_broad_task small_fix.task || is_critical asked.readiness.risk_tier))
    × (is_single_run policy.mode ≡ true → policy.max_iterations ≡ 1)
build_loop_policy-limits_example = build_loop_policy-limits lower "0badcafe" small_fix asked refl

abbrev work : OrchestratorInput
work = record {
  task = "fix the footer";
  contract_id = "wc_1";
  policy = policy;
  allowed_paths = "src/*" ∷ [];
  disallowed_paths = "infra/*" ∷ [];
}

-- Every iteration changes one file in scope, and every command passes.
abbrev steady : IterationEnv
steady = record {
  aborted = false;
  now = 2000;
  head = some "abc";
  execute_iteration = λ i. record {
    exit_code = 0;
    files_changed = "src/footer.ts" ∷ [];
    commands_run = "npm test" ∷ [];
    agent_error = none;
  };
  changed_files = λ since. [];
  exec = λ command. none;
  started_at = "2026-01-01T00:00:02.000Z";
  duration_ms = 10;
  completed_at = 2010;
}

abbrev env : LoopEnv
env = record {
  loop_uuid8 = "feedbeef";
  start_time = 1000;
  during = λ i. steady;
  receipt_uuid = "r1";
  written_at = 3000;
  logged_at = 3001;
  completed_at = 3002;
  end_time = 3003;
  created_at = "2026-01-01T00:00:03.003Z";
}

run_loop-stop_blocked_example :
    let r = run_loop lower constant_hash keep_all work env in
    (r.iterations_run ≤ policy.max_iterations) × (r.final_gate_decision ≡ stop_blocked)
run_loop-stop_blocked_example = run_loop-stop_blocked lower constant_hash keep_all work env

run_loop-stop_reason_example :
    let r = run_loop lower constant_hash keep_all work env in
    (is_used r.stop_reason ≡ true)
    × (any is_block r.metadata.drift_summary ≡ is_safety r.stop_reason)
    × (any is_proof_drift r.metadata.drift_summary ≡ false)
run_loop-stop_reason_example = run_loop-stop_reason lower constant_hash keep_all work env

run_loop-never_success_example :
    let r = run_loop lower constant_hash keep_all work env in
    (r.stop_reason ≢ success_all_checks_passed) × (r.metadata.proof_state ≢ proved)
run_loop-never_success_example =
    run_loop-never_success lower constant_hash keep_all work env "0badcafe" asked refl

run_loop-history_example :
    let r = run_loop lower constant_hash keep_all work env in
    (verify_chain constant_hash r.ledger ≡ true)
    × (kinds r.ledger
        ≡ kinds_logged r.metadata.iterations ++ "receipt.written" ∷ "loop.completed" ∷ [])
    × NumberedFrom 1 r.metadata.iterations
run_loop-history_example = run_loop-history lower constant_hash keep_all work env

abbrev finished_loop : BuildLoopMetadataInput
finished_loop = record {
  loop_id = "loop_feedbeef";
  contract_id = "wc_1";
  kernel_receipt_ref = some "rcpt_r1";
  mode = bounded_loop;
  iterations_run = 2;
  max_iterations = 3;
  total_runtime_ms = 5000;
  stop_reason = user_stopped;
  stop_category = avorelo.LoopControl.LoopStopCategory.user;
  files_changed = "src/footer.ts" ∷ "docs/a.md" ∷ [];
  allowed_paths = "src/*" ∷ [];
  disallowed_paths = [];
  checks_run =
      record { check_id = "chk_01"; label = "unit"; result = passed }
      ∷ record { check_id = "chk_02"; label = "lint"; result = skipped }
      ∷ [];
  drift_summary = [];
  iterations = [];
  safe_next_actions = [];
  open_issues = [];
}

build_loop_metadata-totals_example :
    let m = build_loop_metadata "2026-01-01T00:00:03.003Z" finished_loop in
    (m.files_changed_in_scope + m.files_changed_out_of_scope ≡ 2)
    × (m.checks_passed + m.checks_failed + m.checks_not_run ≡ 2)
    × (m.proof_state ≡ proved
        → (m.checks_passed ≡ 2)
          × (is_empty finished_loop.checks_run ≡ false)
          × (asks_attention user_stopped ≡ false)
          × (any is_block finished_loop.drift_summary ≡ false))
build_loop_metadata-totals_example =
    build_loop_metadata-totals "2026-01-01T00:00:03.003Z" finished_loop

counts_scope :
    (build_loop_metadata "2026-01-01T00:00:03.003Z" finished_loop).files_changed_in_scope ≡ 1
unfolding build_loop_metadata starts_with
counts_scope = refl

-- The loop above uses up its three iterations.
uses_up : (run_loop lower constant_hash keep_all work env).stop_reason ≡ budget_max_iterations
unfolding run_loop build_loop_policy classify_loop_readiness test_any is_space includes
    detect_scope_drift matches_glob ends_with detect_method_drift trim detect_iteration_drift
    run_all_checks decimal
uses_up = refl

abbrev leaking_task : ParsedTask
leaking_task = record {
  task = "print the api key";
  parsed = record {
    contract_id = "wc_2";
    objective = "";
    allowed_paths = [];
    requested_outputs = [];
    success_criteria = [];
    stop_conditions = [];
    evidence_refs = [];
    review_reasons = [];
    plan_tier = free;
  };
  sanitized = "print the api key";
  paths = [];
  safety = record { secret_risk_codes = []; safe_run_decision = block };
}

abbrev asked_anyway : BuildPolicyInput
asked_anyway = record asked {
  readiness = classify_loop_readiness lower (record {
    task = "print the api key";
    enriched_contract = some (route_work_contract leaking_task);
  });
}

build_loop_policy-blocked_task_example :
    let p = build_loop_policy "0badcafe" asked_anyway in
    (is_single_run p.mode ≡ true) × (p.max_iterations ≡ 1)
build_loop_policy-blocked_task_example =
    build_loop_policy-blocked_task lower leaking_task "0badcafe" asked_anyway refl refl
