-- ===== src/LoopControl/Orchestrator/Rules.antt =====
-- The iterations of `runLoop` as a step relation, and induction over them.
use avorelo.Common.{
  ℕ, zero, suc, ◌-◌, ◌*◌, String, ◌≡◌, refl, true, false, ◌&&◌, not, [], ◌∷◌, ◌++◌, any, is_empty,
  if◌then◌else◌, ltb, ◌==◌, nat_eq, by_test, arith,
}
use avorelo.Schemas.{GateDecision, stop_blocked, stop_done}
use avorelo.Json.{Json}
use avorelo.DriftGuard.{is_block}
use avorelo.LoopControl.{
  LoopStopReason, success_all_checks_passed, failure_repeated_failure, failure_no_progress,
  failure_agent_error, budget_max_runtime, user_stopped,
}
use avorelo.LoopControl.Drift.{repeated_failures}
use avorelo.LoopControl.Orchestrator.{
  IterationEnv, OrchestratorInput, Run, Flow, break, next, all_required_passed, is_agent_error,
  block_reason, stopped_with,
}
use avorelo.LoopControl.Orchestrator.Iteration.{
  Found, drifts_of, recorded, find_out, carry_on, settle, iterate,
}
use avorelo.LoopControl.Orchestrator.Loop.{iterate_from}

-- No stop before the test of the checks.
pub record IsQuiet (run : Run) (f : Found) : Type 0 where
  pub no_block : any is_block (drifts_of f) ≡ false
  pub no_error : is_agent_error f.output ≡ false
  pub no_repetition : is_empty (repeated_failures (run.iterations ++ f.summary ∷ [])) ≡ true

-- Why an iteration stops the loop.
pub data Stop (run : Run) (f : Found) : LoopStopReason → GateDecision → Type 0 where
  by_drift :
      any is_block (drifts_of f) ≡ true
      → Stop run f (block_reason f.scope_drift f.method_drift) stop_blocked
  by_error :
      any is_block (drifts_of f) ≡ false
      → is_agent_error f.output ≡ true
      → Stop run f failure_agent_error stop_blocked
  by_repetition :
      any is_block (drifts_of f) ≡ false
      → is_empty (repeated_failures (run.iterations ++ f.summary ∷ [])) ≡ false
      → Stop run f failure_repeated_failure stop_blocked
  by_success :
      IsQuiet run f
      → all_required_passed f.checks ≡ true
      → Stop run f success_all_checks_passed stop_done
  by_stall :
      IsQuiet run f
      → all_required_passed f.checks ≡ false
      → Stop run f failure_no_progress stop_blocked

-- What a break has to give, and what the next iteration is given.
abbrev pub Gives {ℓ} : (Run → Type ℓ) → (Run → Type ℓ) → Flow → Type ℓ
Gives Q P (break run) = Q run
Gives Q P (next run) = P run

follow {ℓ} :
    (Q P : Run → Type ℓ) (go : Run → Run) (flow : Flow)
    → Gives Q P flow
    → ((run : Run) → P run → Q (go run))
    → Q (elim flow [ break run ↦ run | next run ↦ go run ])
follow Q P go (break run) h k = h
follow Q P go (next run) h k = k run h

module _ (to_lower_case sha256 : String → String) (redact : Json → Json) where
  module _ (input : OrchestratorInput) (start_time : ℕ) (loop_id : String) where
    -- One iteration, from a run to what it gives.
    pub data Step (i : ℕ) (env : IterationEnv) (run : Run) : Flow → Type 0 where
      aborts : Step i env run (break (record run { stop_reason = user_stopped }))
      times_out : Step i env run (break (record run { stop_reason = budget_max_runtime }))
      stops :
          (reason : LoopStopReason) (decision : GateDecision) (code : String) (f : Found)
          → f ≡ find_out to_lower_case input i env run
          → Stop (recorded run f) f reason decision
          → Step i env run (stopped_with (recorded run f) f.summary reason decision code)
      continues :
          (f : Found)
          → f ≡ find_out to_lower_case input i env run
          → IsQuiet (recorded run f) f
          → all_required_passed f.checks ≡ false
          → Step i env run
              (carry_on to_lower_case sha256 redact input loop_id i env (recorded run f) f)

    settle-Step :
        (i : ℕ) (env : IterationEnv) (run : Run) (f : Found)
        → f ≡ find_out to_lower_case input i env run
        → Step i env run (settle to_lower_case sha256 redact input loop_id i env (recorded run f) f)
    unfolding settle
    settle-Step i env run f found =
        let quiet : any is_block (drifts_of f) ≡ false
            → is_agent_error f.output ≡ false
            → not (is_empty (repeated_failures ((recorded run f).iterations ++ f.summary ∷ [])))
              ≡ false
            → IsQuiet (recorded run f) f =
          λ d a r. record { no_block = d; no_error = a; no_repetition = ground arith } in
        by_test (Step i env run) _ _ _ (λ d. Step.stops _ _ _ f found (Stop.by_drift d))
          (λ d.
            by_test (Step i env run) _ _ _ (λ a. Step.stops _ _ _ f found (Stop.by_error d a))
              (λ a.
                by_test (Step i env run) _ _ _
                  (λ r. Step.stops _ _ _ f found (Stop.by_repetition d (ground arith)))
                  (λ r.
                    by_test (Step i env run) _ _ _
                      (λ p. Step.stops _ _ _ f found (Stop.by_success (quiet d a r) p))
                      (λ p.
                        by_test (Step i env run) (is_empty f.files && f.output.exit_code == 0)
                          (stopped_with (recorded run f) f.summary failure_no_progress stop_blocked
                            "NO_PROGRESS")
                          _ (λ e. Step.stops _ _ _ f found (Stop.by_stall (quiet d a r) p))
                          (λ e. Step.continues f found (quiet d a r) p)))))

    iterate-Step :
        (i : ℕ) (env : IterationEnv) (run : Run)
        → Step i env run (iterate to_lower_case sha256 redact input start_time loop_id i env run)
    unfolding iterate
    iterate-Step i env run =
        let f = find_out to_lower_case input i env run in
        let late : Flow = break (record run { stop_reason = budget_max_runtime }) in
        let settled = settle to_lower_case sha256 redact input loop_id i env (recorded run f) f in
        let too_late = ltb (input.policy.max_runtime_minutes * 60 * 1000) (env.now - start_time) in
        by_test (Step i env run) env.aborted (break (record run { stop_reason = user_stopped }))
          (if too_late then late else settled) (λ a. Step.aborts)
          (λ a.
            by_test (Step i env run) too_late late settled (λ t. Step.times_out)
              (λ t. settle-Step i env run f refl))

    -- `P left i run` holds before iteration `i` with `left` more allowed; `Q` is to hold at the end.
    pub iterate_from-Gives {ℓ} :
        (during : ℕ → IterationEnv) (P : ℕ → ℕ → Run → Type ℓ) (Q : Run → Type ℓ)
        → ((i : ℕ) (run : Run) → P zero i run → Q run)
        → ((left i : ℕ) (run : Run) (flow : Flow)
            → P (suc left) i run
            → Step i (during i) run flow
            → Gives Q (P left (suc i)) flow)
        → (left i : ℕ) (run : Run) → P left i run
        → Q (iterate_from to_lower_case sha256 redact input start_time loop_id during left i run)
    unfolding iterate_from
    iterate_from-Gives during P Q exit keep zero i run h = exit i run h
    iterate_from-Gives during P Q exit keep (suc left) i run h =
        let now = iterate to_lower_case sha256 redact input start_time loop_id i (during i) run in
        follow Q (P left (suc i))
          (iterate_from to_lower_case sha256 redact input start_time loop_id during left (suc i))
          now (keep left i run now h (iterate-Step i (during i) run))
          (iterate_from-Gives during P Q exit keep left (suc i))
