-- ===== src/LoopControl/Orchestrator/Loop.antt =====
-- capabilities/loop-control/orchestrator.ts: `runLoop` from its start to its result.
use avorelo.Common.{
  ℕ, zero, suc, ◌-◌, String, Bool, true, false, ◌||◌, Option, none, some, List, [], ◌∷◌, map, any,
  length, if◌then◌else◌, leb, ◌==◌, string_eq, ◌&◌, slice_to,
}
use avorelo.Schemas.{EvidenceLevel, PolicyVerdict, allow, block, free}
use avorelo.Evidence.{GradedEvidence, grade_all}
use avorelo.Gate.{GateInput, decide}
use avorelo.Json.{Json, num, str, arr, obj, null, nil, Fields, field, end}
use avorelo.Ledger.{StateLedger, empty, append}
use avorelo.Receipts.{strings, level_text, write_receipt}
use avorelo.DriftGuard.{is_block}
use avorelo.LoopControl.{LoopCheckResult, LoopStopReason, budget_max_iterations}
use avorelo.LoopControl.Metadata.{build_loop_metadata}
use avorelo.LoopControl.Orchestrator.{
  IterationEnv, LoopEnv, OrchestratorInput, OrchestratorResult, Run, break, next, reason_text,
  mode_text, category_for_reason, build_evidence_from_checks, event_of,
}
use avorelo.LoopControl.Orchestrator.Iteration.{iterate}

-- Every reason but that the iterations are used up.
unfoldable pub is_early : LoopStopReason → Bool
is_early reason = elim reason [ budget_max_iterations ↦ false | _ ↦ true ]

-- The levels of the evidence that counts, with repetitions.
levels_of : List GradedEvidence → List EvidenceLevel
levels_of [] = []
levels_of (g ∷ graded) = elim g.level [ none ↦ levels_of graded | some l ↦ l ∷ levels_of graded ]

abbrev pub verdict_text : PolicyVerdict → String
verdict_text allow = "allow"
verdict_text block = "block"
verdict_text PolicyVerdict.needs_approval = "needs_approval"

field_in : String → Fields → Option Json
field_in key end = none
field_in key (field k v fields) =
    let rest = field_in key fields in if k == key then some v else rest

-- `receipt.receiptId` of the receipt as the redaction leaves it; nothing where it is no text.
receipt_id_of : Json → Option String
unfolding field_in
receipt_id_of (obj fields) = elim (field_in "receiptId" fields) [ some (str s) ↦ some s | _ ↦ none ]
receipt_id_of _ = none

optional_text : Option String → Json
optional_text none = null
optional_text (some s) = str s

module _ (to_lower_case sha256 : String → String) (redact : Json → Json) where
  -- The ledger's event of a kind, with the loop's contract.
  unfoldable pub log : OrchestratorInput → StateLedger → ℕ → String → Fields → StateLedger
  unfolding append event_of
  log input ledger now type payload =
      (append sha256 redact ledger now (event_of input type payload)).0

  -- The iterations from number `i` on, of which `left` are allowed.
  unfoldable pub iterate_from :
      OrchestratorInput → ℕ → String → (ℕ → IterationEnv) → ℕ → ℕ → Run → Run
  unfolding iterate
  iterate_from input start_time loop_id during zero i run = run
  iterate_from input start_time loop_id during (suc left) i run =
      elim (iterate to_lower_case sha256 redact input start_time loop_id i (during i) run) [
        | break stopped ↦ stopped
        | next run' ↦ iterate_from input start_time loop_id during left (suc i) run'
      ]

  -- The state before the first iteration.
  unfoldable pub started : OrchestratorInput → LoopEnv → Run
  unfolding log empty slice_to
  started input env = record {
    ledger = log input empty env.start_time "loop.started" (
        field "loopId" (str ("loop_" & env.loop_uuid8)) (
          field "mode" (str (mode_text input.policy.mode)) (
            field "maxIterations" (num input.policy.max_iterations)
              (field "task" (str (slice_to 100 input.task)) end))));
    iterations = [];
    all_drift = [];
    all_files_changed = [];
    latest_checks = input.policy.required_checks;
    stop_reason = budget_max_iterations;
  }

  -- The state after the loop.
  unfoldable pub looped : OrchestratorInput → LoopEnv → Run
  unfolding started iterate_from
  looped input env =
      iterate_from input env.start_time ("loop_" & env.loop_uuid8) env.during
        input.policy.max_iterations 1 (started input env)

  unfoldable pub policy_verdict_of : Run → PolicyVerdict
  policy_verdict_of run = if any is_block run.all_drift then block else allow

  -- What the gate is asked after the loop.
  unfoldable pub gate_input_of : OrchestratorInput → Run → GateInput
  unfolding policy_verdict_of is_early grade_all build_evidence_from_checks slice_to
  gate_input_of input run = record {
    contract = record {
      contract_id = input.contract_id;
      objective = slice_to 200 input.task;
      allowed_paths = input.allowed_paths;
      requested_outputs = [];
      success_criteria = [];
      stop_conditions = [];
      evidence_refs = [];
      review_reasons = [];
      plan_tier = free;
    };
    graded = grade_all (build_evidence_from_checks run.latest_checks);
    policy_verdict = policy_verdict_of run;
    policy_reason_codes = none;
    reviewer_verdicts = none;
    stop_condition_met =
        some (is_early run.stop_reason || leb input.policy.max_iterations (length run.iterations));
    sample_size = none;
    environment_compromised = none;
    environment_reason_codes = none;
  }

  -- The ledger with the receipt, and the receipt.
  unfoldable pub receipted : OrchestratorInput → LoopEnv → Run → StateLedger × Json
  unfolding gate_input_of levels_of strings
  receipted input env run =
      let gate = gate_input_of input run in
      let result = decide gate in
      write_receipt sha256 redact env.receipt_uuid env.written_at env.logged_at run.ledger (record {
        contract_id = input.contract_id;
        decision = result.decision;
        graded = gate.graded;
        safe_next_actions = result.safe_next_actions;
        decision_basis = obj (
            field "evidenceLevels" (strings (map level_text (levels_of gate.graded))) (
              field "reasonCodes" (strings result.reason_codes) (
                field "policyVerdict" (str (verdict_text gate.policy_verdict))
                  (field "reviewerVerdicts" (arr nil) end))));
        basis_reason_codes = result.reason_codes;
        sample_size = length (build_evidence_from_checks run.latest_checks);
        redaction_classes = none;
        receipt_id = none;
        written_at = none;
      })

  -- What follows the loop.
  unfoldable pub finished : OrchestratorInput → LoopEnv → Run → OrchestratorResult
  unfolding receipted log receipt_id_of optional_text category_for_reason build_loop_metadata
  finished input env run =
      let result = decide (gate_input_of input run) in
      let (ledger, receipt) = receipted input env run in
      let receipt_id = receipt_id_of receipt in
      let loop_id = "loop_" & env.loop_uuid8 in
      let category = category_for_reason run.stop_reason in
      record {
        loop_id = loop_id;
        metadata = build_loop_metadata env.created_at (record {
          loop_id = loop_id;
          contract_id = input.contract_id;
          kernel_receipt_ref = receipt_id;
          mode = input.policy.mode;
          iterations_run = length run.iterations;
          max_iterations = input.policy.max_iterations;
          total_runtime_ms = env.end_time - env.start_time;
          stop_reason = run.stop_reason;
          stop_category = category;
          files_changed = run.all_files_changed;
          allowed_paths = input.allowed_paths;
          disallowed_paths = input.disallowed_paths;
          checks_run =
              map
                (λ (c : LoopCheckResult). record {
                  check_id = c.check_id;
                  label = c.label;
                  result = c.last_result;
                })
                run.latest_checks;
          drift_summary = run.all_drift;
          iterations = run.iterations;
          safe_next_actions = result.safe_next_actions;
          open_issues = [];
        });
        stop_reason = run.stop_reason;
        stop_category = category;
        iterations_run = length run.iterations;
        final_gate_decision = result.decision;
        ledger = log input ledger env.completed_at "loop.completed" (
            field "loopId" (str loop_id) (
              field "stopReason" (str (reason_text run.stop_reason)) (
                field "iterationsRun" (num (length run.iterations))
                  (field "receiptId" (optional_text receipt_id) end))));
      }

  unfoldable pub run_loop : OrchestratorInput → LoopEnv → OrchestratorResult
  unfolding looped finished
  run_loop input env = finished input env (looped input env)
