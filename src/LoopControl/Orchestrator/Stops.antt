-- ===== src/LoopControl/Orchestrator/Stops.antt =====
-- Why a loop stops, and which drift it can have seen.
use mathlib.Core.Path.{subst}
use avorelo.Common.{
  ℕ, suc, String, ◌≡◌, refl, sym, ◌∙◌, Bool, true, false, Option, none, some, List, [], ◌∷◌, ◌++◌,
  any, any-append, is_empty, arith,
}
use avorelo.Schemas.{GateDecision}
use avorelo.Json.{Json}
use avorelo.DriftGuard.{
  DriftFinding, proof_drift, is_block, ScopeDriftInput, MethodDriftInput, scope_findings,
  scope_drift_from, detect_scope_drift, destructive_findings, command_findings, method_findings,
  method_drift_from, detect_method_drift,
}
use avorelo.LoopControl.{
  LoopIterationSummary, LoopStopReason, success_all_checks_passed, failure_repeated_failure,
  failure_no_progress, failure_agent_error, safety_blocked_path, safety_destructive_command,
  budget_max_iterations, budget_max_runtime, user_stopped,
}
use avorelo.LoopControl.Drift.{
  IterationDriftInput, repeated_failures, failed_ids, detect_proof_drift, detect_progress_drift,
  detect_iteration_drift,
}
use avorelo.LoopControl.Orchestrator.{
  IterationEnv, LoopEnv, OrchestratorInput, Run, Flow, all_required_passed, block_reason,
  with_summary, stopped_with,
}
use avorelo.LoopControl.Orchestrator.Iteration.{Found, drifts_of, recorded, find_out, carry_on}
use avorelo.LoopControl.Orchestrator.Loop.{started, looped, finished, run_loop}
use avorelo.LoopControl.Orchestrator.Rules.{Stop, Step, Gives, iterate_from-Gives}

-- The reasons of a block drift.
abbrev pub is_safety : LoopStopReason → Bool
is_safety safety_blocked_path = true
is_safety safety_destructive_command = true
is_safety _ = false

-- The nine reasons that a loop can stop for, of the fourteen that the schema has.
abbrev pub is_used : LoopStopReason → Bool
is_used success_all_checks_passed = true
is_used failure_repeated_failure = true
is_used failure_no_progress = true
is_used failure_agent_error = true
is_used safety_blocked_path = true
is_used safety_destructive_command = true
is_used budget_max_iterations = true
is_used budget_max_runtime = true
is_used user_stopped = true
is_used _ = false

abbrev pub is_proof_drift : DriftFinding → Bool
is_proof_drift d = elim d.type [ proof_drift ↦ true | _ ↦ false ]

scope_drift-not_proof :
    (i : ScopeDriftInput) (fs : List String) → any is_proof_drift (scope_drift_from i fs) ≡ false
unfolding scope_drift_from scope_findings
scope_drift-not_proof i [] = refl
scope_drift-not_proof i (f ∷ fs) = ground (
  arith,
  any-append is_proof_drift (scope_findings i f) (scope_drift_from i fs),
  scope_drift-not_proof i fs,
)

command-not_proof :
    (c : String) (o : Option String) → any is_proof_drift (command_findings c o) ≡ false
unfolding command_findings destructive_findings
command-not_proof c none = ground arith
command-not_proof c (some b) = ground arith

method_drift-not_proof :
    (to_lower_case : String → String) (i : MethodDriftInput) (cs : List String)
    → any is_proof_drift (method_drift_from to_lower_case i cs) ≡ false
unfolding method_drift_from method_findings
method_drift-not_proof l i [] = refl
method_drift-not_proof l i (c ∷ cs) =
    any-append is_proof_drift (method_findings l i c) (method_drift_from l i cs)
    ∙ rw (command-not_proof c _, method_drift-not_proof l i cs) refl

detect_scope_drift-not_proof :
    (i : ScopeDriftInput) → any is_proof_drift (detect_scope_drift i) ≡ false
unfolding detect_scope_drift
detect_scope_drift-not_proof i = scope_drift-not_proof i i.changed_files

detect_method_drift-not_proof :
    (to_lower_case : String → String) (i : MethodDriftInput)
    → any is_proof_drift (detect_method_drift to_lower_case i) ≡ false
unfolding detect_method_drift
detect_method_drift-not_proof l i = method_drift-not_proof l i i.commands_run

iteration_drift-not_block :
    (i : IterationDriftInput) → any is_block (detect_iteration_drift i) ≡ false
unfolding detect_iteration_drift detect_proof_drift detect_progress_drift is_block
iteration_drift-not_block i =
    any-append is_block (detect_proof_drift i) (detect_progress_drift i) ∙ ground arith

iteration_drift-not_proof :
    (i : IterationDriftInput)
    → is_empty (repeated_failures i.iterations) ≡ true
    → any is_proof_drift (detect_iteration_drift i) ≡ false
unfolding detect_iteration_drift detect_proof_drift detect_progress_drift
iteration_drift-not_proof i h =
    any-append is_proof_drift (detect_proof_drift i) (detect_progress_drift i) ∙ ground arith

-- The decision and the codes of the last iteration do not matter for repeated failures.
repeated_failures-settled :
    (xs : List LoopIterationSummary) (s : LoopIterationSummary) (d : GateDecision)
    (cs : List String)
    → repeated_failures (xs ++ record s { gate_decision = d; reason_codes = cs } ∷ [])
      ≡ repeated_failures (xs ++ s ∷ [])
unfolding repeated_failures failed_ids
repeated_failures-settled [] s d cs = refl
repeated_failures-settled (x ∷ []) s d cs = refl
repeated_failures-settled (x ∷ y ∷ []) s d cs = refl
repeated_failures-settled (x ∷ y ∷ z ∷ xs) s d cs = repeated_failures-settled (y ∷ z ∷ xs) s d cs

-- What an iteration finds has no proof drift, and no block but of scope or method.
record IsClean (f : Found) : Type 0 where
  scope_clean : any is_proof_drift f.scope_drift ≡ false
  method_clean : any is_proof_drift f.method_drift ≡ false
  iteration_clean : any is_proof_drift f.iteration_drift ≡ false
  iteration_passes : any is_block f.iteration_drift ≡ false

find_out-IsClean :
    (to_lower_case : String → String) (input : OrchestratorInput) (i : ℕ) (env : IterationEnv)
    (run : Run)
    → is_empty (repeated_failures run.iterations) ≡ true
    → IsClean (find_out to_lower_case input i env run)
unfolding find_out
find_out-IsClean to_lower_case input i env run h = record {
  scope_clean = detect_scope_drift-not_proof _;
  method_clean = detect_method_drift-not_proof to_lower_case _;
  iteration_clean = iteration_drift-not_proof _ h;
  iteration_passes = iteration_drift-not_block _;
}

drifts-not_proof : {f : Found} → IsClean f → any is_proof_drift (drifts_of f) ≡ false
unfolding drifts_of
drifts-not_proof {f} c =
    let a = any-append is_proof_drift (f.scope_drift ++ f.method_drift) f.iteration_drift in
    let b = any-append is_proof_drift f.scope_drift f.method_drift in
    let x = c.scope_clean in let y = c.method_clean in let z = c.iteration_clean in ground arith

block_reason-is_safety :
    {f : Found}
    → IsClean f
    → any is_block (drifts_of f) ≡ true
    → (is_used (block_reason f.scope_drift f.method_drift) ≡ true)
      × (true ≡ is_safety (block_reason f.scope_drift f.method_drift))
unfolding drifts_of block_reason
block_reason-is_safety {f} c h =
    let a = any-append is_block (f.scope_drift ++ f.method_drift) f.iteration_drift in
    let b = any-append is_block f.scope_drift f.method_drift in
    let x = c.iteration_passes in ground arith

Stop-IsClean :
    {run : Run} {f : Found} {reason : LoopStopReason} {decision : GateDecision}
    → Stop run f reason decision
    → IsClean f
    → (is_used reason ≡ true) × (any is_block (drifts_of f) ≡ is_safety reason)
Stop-IsClean (Stop.by_drift d) c = let (u, s) = block_reason-is_safety c d in (u, d ∙ s)
Stop-IsClean (Stop.by_error d a) c = (refl, d)
Stop-IsClean (Stop.by_repetition d r) c = (refl, d)
Stop-IsClean (Stop.by_success q p) c = (refl, q.no_block)
Stop-IsClean (Stop.by_stall q p) c = (refl, q.no_block)

Stop-success :
    {run : Run} {f : Found} {reason : LoopStopReason} {decision : GateDecision}
    → Stop run f reason decision
    → reason ≡ success_all_checks_passed
    → all_required_passed f.checks ≡ true
unfolding block_reason
Stop-success {f} (Stop.by_drift d) e = ground arith
Stop-success (Stop.by_error d a) e = cc
Stop-success (Stop.by_repetition d r) e = cc
Stop-success (Stop.by_success q p) e = p
Stop-success (Stop.by_stall q p) e = cc

module _ (to_lower_case sha256 : String → String) (redact : Json → Json)
    (input : OrchestratorInput) where
  record Before (left i : ℕ) (run : Run) : Type 0 where
    unstopped : run.stop_reason ≡ budget_max_iterations
    no_block : any is_block run.all_drift ≡ false
    no_proof_drift : any is_proof_drift run.all_drift ≡ false
    no_repetition : is_empty (repeated_failures run.iterations) ≡ true

  pub record After (run : Run) : Type 0 where
    pub used : is_used run.stop_reason ≡ true
    pub block_iff : any is_block run.all_drift ≡ is_safety run.stop_reason
    pub no_proof_drift : any is_proof_drift run.all_drift ≡ false
    pub success_sound :
        run.stop_reason ≡ success_all_checks_passed → all_required_passed run.latest_checks ≡ true

  keep :
      (start_time : ℕ) (loop_id : String) (during : ℕ → IterationEnv) (left i : ℕ) (run : Run)
      (flow : Flow)
      → Before (suc left) i run
      → Step to_lower_case sha256 redact input start_time loop_id i (during i) run flow
      → Gives After (Before left (suc i)) flow
  unfolding stopped_with with_summary recorded carry_on
  keep start_time loop_id during left i run flow b Step.aborts = record {
    used = refl;
    block_iff = b.no_block;
    no_proof_drift = b.no_proof_drift;
    success_sound = λ e. cc;
  }
  keep start_time loop_id during left i run flow b Step.times_out = record {
    used = refl;
    block_iff = b.no_block;
    no_proof_drift = b.no_proof_drift;
    success_sound = λ e. cc;
  }
  keep start_time loop_id during left i run flow b (Step.stops reason decision code f found s) =
      let c : IsClean f =
        subst IsClean (sym found)
          (find_out-IsClean to_lower_case input i (during i) run b.no_repetition) in
      let (u, k) = Stop-IsClean s c in
      record {
        used = u;
        block_iff = any-append is_block run.all_drift (drifts_of f) ∙ rw b.no_block k;
        no_proof_drift =
            any-append is_proof_drift run.all_drift (drifts_of f)
            ∙ rw (b.no_proof_drift, drifts-not_proof c) refl;
        success_sound = λ e. Stop-success s e;
      }
  keep start_time loop_id during left i run flow b (Step.continues f found q p) =
      let c : IsClean f =
        subst IsClean (sym found)
          (find_out-IsClean to_lower_case input i (during i) run b.no_repetition) in
      record {
        unstopped = b.unstopped;
        no_block =
            any-append is_block run.all_drift (drifts_of f) ∙ rw (b.no_block, q.no_block) refl;
        no_proof_drift =
            any-append is_proof_drift run.all_drift (drifts_of f)
            ∙ rw (b.no_proof_drift, drifts-not_proof c) refl;
        no_repetition = rw (repeated_failures-settled run.iterations f.summary _ _) q.no_repetition;
      }

  pub looped-After : (env : LoopEnv) → After (looped to_lower_case sha256 redact input env)
  unfolding looped started repeated_failures
  looped-After env =
      iterate_from-Gives to_lower_case sha256 redact input env.start_time _ env.during Before After
        (λ i run b. record {
          used = rw b.unstopped refl;
          block_iff = rw (b.no_block, b.unstopped) refl;
          no_proof_drift = b.no_proof_drift;
          success_sound = λ e. let u = b.unstopped in cc;
        })
        (keep env.start_time _ env.during) input.policy.max_iterations 1
        (started to_lower_case sha256 redact input env)
        (record { unstopped = refl; no_block = refl; no_proof_drift = refl; no_repetition = refl })

  -- Whatever happens in the iterations, a loop stops for one of nine reasons: never for the
  -- escalation, the gate, an unavailable check, a secret or too many files. It stops for a safety
  -- reason exactly when its drift summary has a finding of severity block, and no finding of a loop
  -- is a proof drift, since a repeated failure stops the loop before it is looked for.
  pub run_loop-stop_reason :
      (env : LoopEnv)
      → let r = run_loop to_lower_case sha256 redact input env in
        (is_used r.stop_reason ≡ true)
        × (any is_block r.metadata.drift_summary ≡ is_safety r.stop_reason)
        × (any is_proof_drift r.metadata.drift_summary ≡ false)
  unfolding run_loop finished
  run_loop-stop_reason env = let h = looped-After env in (h.used, h.block_iff, h.no_proof_drift)
