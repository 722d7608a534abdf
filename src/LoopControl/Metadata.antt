-- ===== src/LoopControl/Metadata.antt =====
-- capabilities/loop-control/loop-metadata.ts: what is recorded of a finished loop. The files of
-- `.avorelo/loops` and their reading and writing are not modelled.
use avorelo.Common.{
  ℕ, ◌-◌, String, Bool, true, false, ◌&&◌, ◌||◌, not, Option, List, any, all, filter, length,
  is_empty, if◌then◌else◌, ◌==◌, string_eq, starts_with,
}
use avorelo.DriftGuard.{DriftFinding, is_block, strip_glob}
use avorelo.LoopControl.{
  LoopMode, LoopStopReason, LoopStopCategory, LoopProofState, CheckRun, LoopIterationSummary,
  LoopMetadata, passed, failed, not_run, skipped, status_eq, proved, partially_proved, not_proved,
  needs_attention, safety_blocked_path, safety_secret_detected, safety_destructive_command,
  escalation_rule_triggered,
}

pub record BuildLoopMetadataInput : Type 0 where
  pub loop_id : String
  pub contract_id : String
  pub kernel_receipt_ref : Option String
  pub mode : LoopMode
  pub iterations_run : ℕ
  pub max_iterations : ℕ
  pub total_runtime_ms : ℕ
  pub stop_reason : LoopStopReason
  pub stop_category : LoopStopCategory
  pub files_changed : List String
  pub allowed_paths : List String
  pub disallowed_paths : List String
  pub checks_run : List CheckRun
  pub drift_summary : List DriftFinding
  pub iterations : List LoopIterationSummary
  pub safe_next_actions : List String
  pub open_issues : List String

-- `pat && (file === p || file.startsWith(pat))`
unfoldable pub is_under : String → String → Bool
unfolding strip_glob
is_under file p = let pat = strip_glob p in not (pat == "") && (file == p || starts_with file pat)

-- `classifyFile(file, allowed, disallowed) === "in_scope"`
unfoldable pub is_in_scope : String → List String → List String → Bool
unfolding is_under
is_in_scope file allowed disallowed =
    if any (λ d. is_under file d) disallowed
    then false
    else if is_empty allowed
    then true
    else any (λ a. is_under file a) allowed

-- `stopReason.startsWith("safety_")`, or the escalation.
unfoldable pub asks_attention : LoopStopReason → Bool
asks_attention safety_blocked_path = true
asks_attention safety_secret_detected = true
asks_attention safety_destructive_command = true
asks_attention escalation_rule_triggered = true
asks_attention _ = false

unfoldable pub derive_proof_state :
    List CheckRun → List DriftFinding → LoopStopReason → LoopProofState
unfolding asks_attention is_block
derive_proof_state checks_run drift_summary stop_reason =
    if asks_attention stop_reason || any is_block drift_summary
    then needs_attention
    else if is_empty checks_run
    then not_proved
    else if all (λ c. c.result == passed) checks_run
    then proved
    else if any (λ c. c.result == failed) checks_run
    then partially_proved
    else if any (λ c. c.result == not_run) checks_run
    then not_proved
    else partially_proved

-- The argument is the text of the present time.
unfoldable pub build_loop_metadata : String → BuildLoopMetadataInput → LoopMetadata
unfolding is_in_scope derive_proof_state
build_loop_metadata now input =
    let in_scope = length (
      filter (λ f. is_in_scope f input.allowed_paths input.disallowed_paths) input.files_changed) in
    record {
      loop_id = input.loop_id;
      contract_id = input.contract_id;
      kernel_receipt_ref = input.kernel_receipt_ref;
      created_at = now;
      mode = input.mode;
      iterations_run = input.iterations_run;
      max_iterations = input.max_iterations;
      total_runtime_ms = input.total_runtime_ms;
      stop_reason = input.stop_reason;
      stop_category = input.stop_category;
      files_changed = input.files_changed;
      files_changed_in_scope = in_scope;
      files_changed_out_of_scope = length input.files_changed - in_scope;
      proof_state = derive_proof_state input.checks_run input.drift_summary input.stop_reason;
      checks_run = input.checks_run;
      checks_passed = length (filter (λ (c : CheckRun). c.result == passed) input.checks_run);
      checks_failed = length (filter (λ (c : CheckRun). c.result == failed) input.checks_run);
      checks_not_run =
          length (
            filter (λ (c : CheckRun). c.result == not_run || c.result == skipped) input.checks_run);
      drift_detected = not (is_empty input.drift_summary);
      drift_summary = input.drift_summary;
      iterations = input.iterations;
      safe_next_actions = input.safe_next_actions;
      open_issues = input.open_issues;
    }
