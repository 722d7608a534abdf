-- ===== src/LoopControl/Orchestrator/Iteration.antt =====
-- capabilities/loop-control/orchestrator.ts: the body of the loop of `runLoop`.
use avorelo.Common.{
  ℕ, ◌-◌, ◌*◌, String, ◌&&◌, not, List, [], ◌∷◌, ◌++◌, map, any, filter, length, dedup_from,
  string_eq, nat_eq, is_empty, if◌then◌else◌, ltb, ◌==◌, get_or,
}
use avorelo.Schemas.{continue, stop_blocked, stop_done}
use avorelo.Json.{Json, bool, num, str, field, end}
use avorelo.Ledger.{AppendInput, append}
use avorelo.DriftGuard.{DriftFinding, is_block, detect_scope_drift, detect_method_drift}
use avorelo.LoopControl.{
  LoopCheckResult, LoopIterationSummary, success_all_checks_passed, failure_repeated_failure,
  failure_no_progress, failure_agent_error, budget_max_runtime, user_stopped,
}
use avorelo.LoopControl.Checks.{run_all_checks}
use avorelo.LoopControl.Drift.{repeated_failures, detect_iteration_drift}
use avorelo.LoopControl.Orchestrator.{
  IterationInput, IterationOutput, IterationEnv, OrchestratorInput, Run, Flow, break, next,
  check_results_from, all_required_passed, last_of, failures_of, files_of, is_reported,
  is_agent_error, block_reason, with_summary, stopped_with, event_of,
}

unfoldable pub iteration_input : OrchestratorInput → ℕ → Run → IterationInput
unfolding last_of failures_of is_reported
iteration_input input i run = record {
  task = input.task;
  iteration = i;
  max_iterations = input.policy.max_iterations;
  allowed_paths = input.allowed_paths;
  disallowed_paths = input.disallowed_paths;
  allowed_commands = input.policy.allowed_commands;
  blocked_commands = input.policy.blocked_commands;
  previous_failures = failures_of (last_of run.iterations);
  previous_drift =
      map (λ (d : DriftFinding). d.description) (filter (λ d. is_reported d) run.all_drift);
}

-- The files of an iteration: the adapter's, or else those that git sees changed.
unfoldable pub files_of_iteration : IterationEnv → IterationOutput → List String
files_of_iteration env output =
    if is_empty output.files_changed
    then env.changed_files (get_or env.head "HEAD")
    else output.files_changed

-- What an iteration has found before its stops are tested.
pub record Found : Type 0 where
  pub output : IterationOutput
  pub files : List String
  pub scope_drift : List DriftFinding
  pub method_drift : List DriftFinding
  pub iteration_drift : List DriftFinding
  pub checks : List LoopCheckResult
  pub summary : LoopIterationSummary

unfoldable pub drifts_of : Found → List DriftFinding
drifts_of f = f.scope_drift ++ f.method_drift ++ f.iteration_drift

-- The run after the drift is recorded and the checks are run.
unfoldable pub recorded : Run → Found → Run
unfolding drifts_of
recorded run f = record run {
  all_drift = run.all_drift ++ drifts_of f;
  all_files_changed = dedup_from run.all_files_changed f.files;
  latest_checks = f.checks;
}

-- The event of an iteration after which the loop goes on.
unfoldable pub iteration_event : OrchestratorInput → String → ℕ → Found → AppendInput
unfolding event_of all_required_passed
iteration_event input loop_id i f = event_of input "loop.iteration_completed" (
    field "loopId" (str loop_id) (
      field "iteration" (num i) (
        field "filesChanged" (num (length f.files))
          (field "checksAllPassed" (bool (all_required_passed f.checks)) end))))

module _ (to_lower_case : String → String) where
  unfoldable pub find_out : OrchestratorInput → ℕ → IterationEnv → Run → Found
  unfolding iteration_input files_of_iteration last_of files_of check_results_from
  find_out input i env run =
      let output = env.execute_iteration (iteration_input input i run) in
      let files = files_of_iteration env output in
      let scope_drift = detect_scope_drift (record {
        changed_files = files;
        allowed_paths = input.allowed_paths;
        disallowed_paths = input.disallowed_paths;
      }) in
      let method_drift = detect_method_drift to_lower_case (record {
        commands_run = output.commands_run;
        blocked_commands = input.policy.blocked_commands;
      }) in
      let iteration_drift = detect_iteration_drift (record {
        iterations = run.iterations;
        current_files_changed = files;
        previous_files_changed = files_of (last_of run.iterations);
      }) in
      let checks = run_all_checks env.exec run.latest_checks in
      record {
        output = output;
        files = files;
        scope_drift = scope_drift;
        method_drift = method_drift;
        iteration_drift = iteration_drift;
        checks = checks;
        summary = record {
          iteration = i;
          started_at = env.started_at;
          duration_ms = env.duration_ms;
          files_changed = files;
          checks_run = map (λ (c : LoopCheckResult). c.check_id) checks;
          check_results = check_results_from [] checks;
          drift_detected = not (is_empty (scope_drift ++ method_drift ++ iteration_drift));
          gate_decision = continue;
          reason_codes = [];
        };
      }

  module _ (sha256 : String → String) (redact : Json → Json) where
    -- The last lines of the body, which log the iteration and go on.
    unfoldable pub carry_on : OrchestratorInput → String → ℕ → IterationEnv → Run → Found → Flow
    unfolding with_summary append iteration_event
    carry_on input loop_id i env run f =
        let continued = with_summary run f.summary continue "CONTINUE" in
        next (record continued {
          ledger =
              (append sha256 redact run.ledger env.completed_at
                (iteration_event input loop_id i f)).0;
        })

    -- The stops in their order, on the run that records what was found.
    unfoldable pub settle : OrchestratorInput → String → ℕ → IterationEnv → Run → Found → Flow
    unfolding carry_on stopped_with block_reason is_agent_error all_required_passed
        repeated_failures drifts_of
    settle input loop_id i env run f =
        if any is_block (drifts_of f)
        then stopped_with run f.summary (block_reason f.scope_drift f.method_drift) stop_blocked
            "DRIFT_BLOCK"
        else if is_agent_error f.output
        then stopped_with run f.summary failure_agent_error stop_blocked "AGENT_ERROR"
        else if not (is_empty (repeated_failures (run.iterations ++ f.summary ∷ [])))
        then stopped_with run f.summary failure_repeated_failure stop_blocked "REPEATED_FAILURE"
        else if all_required_passed f.checks
        then stopped_with run f.summary success_all_checks_passed stop_done "ALL_CHECKS_PASSED"
        else if is_empty f.files && f.output.exit_code == 0
        then stopped_with run f.summary failure_no_progress stop_blocked "NO_PROGRESS"
        else carry_on input loop_id i env run f

    -- One iteration, with the start of the loop and the loop's identifier.
    unfoldable pub iterate : OrchestratorInput → ℕ → String → ℕ → IterationEnv → Run → Flow
    unfolding find_out recorded settle
    iterate input start_time loop_id i env run =
        let f = find_out input i env run in
        if env.aborted
        then break (record run { stop_reason = user_stopped })
        else if ltb (input.policy.max_runtime_minutes * 60 * 1000) (env.now - start_time)
        then break (record run { stop_reason = budget_max_runtime })
        else settle input loop_id i env (recorded run f) f
