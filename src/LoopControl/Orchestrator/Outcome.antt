-- ===== src/LoopControl/Orchestrator/Outcome.antt =====
-- How far a loop goes, and what the gate says of it.
use mathlib.Core.List.{Memᴰ}
use avorelo.Common.{
  ℕ, suc, ◌+◌, ◌≤◌, String, ◌≡◌, refl, ap, true, ◌||◌, List, [], ◌∷◌, map, filter, length,
  length-append, leb, ◌==◌, arith,
}
use avorelo.Schemas.{GateDecision, continue, stop_blocked, stop_done}
use avorelo.Evidence.{EvidenceArtifact, test_passed}
use avorelo.Gate.{decide}
use avorelo.Gate.Ready.{decide-stop_done_artifacts, decide-continue_iff}
use avorelo.Json.{Json}
use avorelo.DriftGuard.{is_block}
use avorelo.LoopControl.{LoopStopReason, LoopCheckResult, budget_max_iterations, passed, status_eq}
use avorelo.LoopControl.Orchestrator.{
  IterationEnv, LoopEnv, OrchestratorInput, Run, Flow, artifact_of, build_evidence_from_checks,
  stopped_with, with_summary, block_reason,
}
use avorelo.LoopControl.Orchestrator.Iteration.{recorded, carry_on}
use avorelo.LoopControl.Orchestrator.Loop.{
  is_early, started, looped, gate_input_of, finished, run_loop,
}
use avorelo.LoopControl.Orchestrator.Rules.{Stop, Step, Gives, iterate_from-Gives}

block_reason-is_early :
    (f g : List avorelo.DriftGuard.DriftFinding) → is_early (block_reason f g) ≡ true
unfolding is_early block_reason
block_reason-is_early f g = ground arith

mapped_kind :
    (checks : List LoopCheckResult) (a : EvidenceArtifact)
    → Memᴰ a (map artifact_of checks)
    → a.kind ≡ test_passed
unfolding artifact_of
mapped_kind [] a m = elim m [ ]
mapped_kind (c ∷ checks) a (Memᴰ.head e) = ap (λ (x : EvidenceArtifact). x.kind) e
mapped_kind (c ∷ checks) a (Memᴰ.tail m) = mapped_kind checks a m

-- All evidence of a loop is of passed checks.
evidence_kind :
    (checks : List LoopCheckResult) (a : EvidenceArtifact)
    → Memᴰ a (build_evidence_from_checks checks)
    → a.kind ≡ test_passed
unfolding build_evidence_from_checks
evidence_kind checks a m = mapped_kind (filter (λ c. c.last_result == passed) checks) a m

only_blocked : (d : GateDecision) → ¬ (d ≡ stop_done) → ¬ (d ≡ continue) → d ≡ stop_blocked
only_blocked continue h k = absurd (k refl)
only_blocked stop_blocked h k = refl
only_blocked stop_done h k = absurd (h refl)

module _ (to_lower_case sha256 : String → String) (redact : Json → Json)
    (input : OrchestratorInput) where
  -- Before an iteration: those done and those left make up the limit.
  record Before (left i : ℕ) (run : Run) : Type 0 where
    counted : length run.iterations + left ≡ input.policy.max_iterations
    unstopped : run.stop_reason ≡ budget_max_iterations

  -- After the loop: the limit is kept, and used up where nothing else stopped the loop.
  pub record After (run : Run) : Type 0 where
    pub within : length run.iterations ≤ input.policy.max_iterations
    pub used_up :
        is_early run.stop_reason || leb input.policy.max_iterations (length run.iterations) ≡ true

  Stop-is_early :
      {run : Run} {f : avorelo.LoopControl.Orchestrator.Iteration.Found} {reason : LoopStopReason}
      {decision : GateDecision}
      → Stop run f reason decision
      → is_early reason ≡ true
  unfolding is_early
  Stop-is_early {f = f} (Stop.by_drift d) = block_reason-is_early f.scope_drift f.method_drift
  Stop-is_early (Stop.by_error d a) = refl
  Stop-is_early (Stop.by_repetition d r) = refl
  Stop-is_early (Stop.by_success q p) = refl
  Stop-is_early (Stop.by_stall q p) = refl

  keep :
      (start_time : ℕ) (loop_id : String) (during : ℕ → IterationEnv) (left i : ℕ) (run : Run)
      (flow : Flow)
      → Before (suc left) i run
      → Step to_lower_case sha256 redact input start_time loop_id i (during i) run flow
      → Gives After (Before left (suc i)) flow
  unfolding is_early stopped_with with_summary recorded carry_on
  keep start_time loop_id during left i run flow b Step.aborts =
      let c = b.counted in record { within = omega arith; used_up = refl }
  keep start_time loop_id during left i run flow b Step.times_out =
      let c = b.counted in record { within = omega arith; used_up = refl }
  keep start_time loop_id during left i run flow b (Step.stops reason decision code f found s) =
      let c = b.counted in
      let added =
        length-append run.iterations
          (record f.summary { gate_decision = decision; reason_codes = code ∷ [] } ∷ []) in
      record { within = omega arith; used_up = rw (Stop-is_early s) refl }
  keep start_time loop_id during left i run flow b (Step.continues f found q p) =
      let c = b.counted in
      let added =
        length-append run.iterations
          (record f.summary { gate_decision = continue; reason_codes = "CONTINUE" ∷ [] } ∷ []) in
      record { counted = omega arith; unstopped = b.unstopped }

  looped-After : (env : LoopEnv) → After (looped to_lower_case sha256 redact input env)
  unfolding looped started is_early
  looped-After env =
      iterate_from-Gives to_lower_case sha256 redact input env.start_time _ env.during Before After
        (λ i run b.
          let c = b.counted in
          record { within = omega arith; used_up = rw b.unstopped (ground arith) })
        (keep env.start_time _ env.during) input.policy.max_iterations 1
        (started to_lower_case sha256 redact input env)
        (record { counted = omega arith; unstopped = refl })

  decide-looped :
      (run : Run)
      → After run
      → (decide (gate_input_of to_lower_case sha256 redact input run)).decision ≡ stop_blocked
  unfolding gate_input_of
  decide-looped run h =
      let i = gate_input_of to_lower_case sha256 redact input run in
      only_blocked (decide i).decision
        (λ done.
          let (_, (b, m, e, _)) =
            decide-stop_done_artifacts i (build_evidence_from_checks run.latest_checks) refl done in
          let k : b.kind ≡ test_passed = evidence_kind run.latest_checks b m in cc)
        (λ goes.
          let (_, _, s) = (decide-continue_iff i).0 goes in let u = h.used_up in ground arith)

  -- A loop of a policy runs at most as many iterations as the policy allows, whatever the adapter,
  -- the commands and the clock do; and the gate's final decision is never that the work is done or may
  -- continue: it is STOP_BLOCKED, also where all required checks have passed.
  pub run_loop-stop_blocked :
      (env : LoopEnv)
      → let r = run_loop to_lower_case sha256 redact input env in
        (r.iterations_run ≤ input.policy.max_iterations) × (r.final_gate_decision ≡ stop_blocked)
  unfolding run_loop finished
  run_loop-stop_blocked env = let h = looped-After env in (h.within, decide-looped _ h)
