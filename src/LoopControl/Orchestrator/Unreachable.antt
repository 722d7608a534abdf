-- ===== src/LoopControl/Orchestrator/Unreachable.antt =====
-- Loops with the checks that the policy builder gives: the scope check is required and never run.
use mathlib.Core.Path.{subst}
use avorelo.Common.{
  ℕ, ◌+◌, String, ◌≡◌, ◌≢◌, refl, sym, ap, ◌∙◌, Bool, true, false, ◌&&◌, List, [], ◌∷◌, ◌++◌, map,
  any, all, any-append, arith, ◌==◌, get_or, Option,
}
use avorelo.Json.{Json}
use avorelo.LoopControl.{
  LoopCheckResult, CheckRun, not_run, passed, status_eq, success_all_checks_passed, proved,
  LoopStopReason, LoopPolicy,
}
use avorelo.DriftGuard.{DriftFinding}
use avorelo.LoopControl.Checks.{ExecError, is_left_alone, run_check, run_all_checks}
use avorelo.LoopControl.Policy.{
  BuildPolicyInput, build_checks, scope_check_at, build_loop_policy, given_checks, count,
  with_scope_check,
}
use avorelo.LoopControl.Metadata.{derive_proof_state, build_loop_metadata}
use avorelo.LoopControl.Orchestrator.{
  IterationEnv, LoopEnv, OrchestratorInput, Run, Flow, all_required_passed, stopped_with,
  with_summary,
}
use avorelo.LoopControl.Orchestrator.Iteration.{Found, recorded, find_out, carry_on}
use avorelo.LoopControl.Orchestrator.Loop.{started, looped, finished, run_loop}
use avorelo.LoopControl.Orchestrator.Rules.{Step, Gives, iterate_from-Gives}
use avorelo.LoopControl.Orchestrator.Stops as Stops

-- A required check of a type that is never run, and that was not run.
abbrev is_open : LoopCheckResult → Bool
is_open c = c.required && (is_left_alone c.type && c.last_result == not_run)

run_check-open :
    (exec : String → Option ExecError) (c : LoopCheckResult)
    → is_open c ≡ true
    → is_open (run_check exec c) ≡ true
unfolding run_check
run_check-open exec c h = let e : is_left_alone c.type ≡ true = ground arith in rw e h

run_all_checks-open :
    (exec : String → Option ExecError) (cs : List LoopCheckResult)
    → any is_open cs ≡ true
    → any is_open (run_all_checks exec cs) ≡ true
unfolding run_all_checks
run_all_checks-open exec [] h = h
run_all_checks-open exec (c ∷ cs) h =
    ground (arith, run_check-open exec c, run_all_checks-open exec cs)

open-not_passed :
    (cs : List LoopCheckResult) → any is_open cs ≡ true → all_required_passed cs ≡ false
unfolding all_required_passed
open-not_passed [] h = cc
open-not_passed (c ∷ cs) h = ground (arith, open-not_passed cs)

abbrev run_of : LoopCheckResult → CheckRun
run_of c = record { check_id = c.check_id; label = c.label; result = c.last_result }

open-not_all :
    (cs : List LoopCheckResult)
    → any is_open cs ≡ true
    → all (λ (c : CheckRun). c.result == passed) (map run_of cs) ≡ false
open-not_all [] h = cc
open-not_all (c ∷ cs) h = ground (arith, open-not_all cs)

derive_proof_state-open :
    (cs : List CheckRun) (ds : List DriftFinding) (r : LoopStopReason)
    → all (λ (c : CheckRun). c.result == passed) cs ≡ false
    → derive_proof_state cs ds r ≢ proved
unfolding derive_proof_state
derive_proof_state-open cs ds r h = ground arith

snoc-open :
    (cs : List LoopCheckResult) (c : LoopCheckResult)
    → is_open c ≡ true
    → any is_open (cs ++ c ∷ []) ≡ true
snoc-open cs c h = any-append is_open cs (c ∷ []) ∙ ground arith

with_scope_check-open : (given : List LoopCheckResult) → any is_open (with_scope_check given) ≡ true
unfolding with_scope_check scope_check_at is_left_alone
with_scope_check-open given = snoc-open given (scope_check_at (count given + 1)) refl

build_checks-open : (b : BuildPolicyInput) → any is_open (build_checks b.user_checks b.cwd) ≡ true
unfolding build_checks
build_checks-open b = with_scope_check-open (given_checks (get_or b.user_checks []) b.cwd)

module _ (to_lower_case sha256 : String → String) (redact : Json → Json)
    (input : OrchestratorInput) where
  abbrev IsOpen : Run → Type 0
  IsOpen run = any is_open run.latest_checks ≡ true

  found-open :
      (i : ℕ) (env : IterationEnv) (run : Run)
      → IsOpen run
      → any is_open (find_out to_lower_case input i env run).checks ≡ true
  unfolding find_out
  found-open i env run h = run_all_checks-open env.exec run.latest_checks h

  keep :
      (start_time : ℕ) (loop_id : String) (during : ℕ → IterationEnv) (left i : ℕ) (run : Run)
      (flow : Flow)
      → IsOpen run
      → Step to_lower_case sha256 redact input start_time loop_id i (during i) run flow
      → Gives IsOpen IsOpen flow
  unfolding stopped_with with_summary recorded carry_on
  keep start_time loop_id during left i run flow h Step.aborts = h
  keep start_time loop_id during left i run flow h Step.times_out = h
  keep start_time loop_id during left i run flow h (Step.stops reason decision code f found s) =
      subst (λ (g : Found). any is_open g.checks ≡ true) (sym found) (found-open i (during i) run h)
  keep start_time loop_id during left i run flow h (Step.continues f found q p) =
      subst (λ (g : Found). any is_open g.checks ≡ true) (sym found) (found-open i (during i) run h)

  looped-open :
      (env : LoopEnv)
      → any is_open input.policy.required_checks ≡ true
      → IsOpen (looped to_lower_case sha256 redact input env)
  unfolding looped started
  looped-open env h =
      iterate_from-Gives to_lower_case sha256 redact input env.start_time _ env.during
        (λ left i. IsOpen) IsOpen (λ i run h. h) (keep env.start_time _ env.during)
        input.policy.max_iterations 1 (started to_lower_case sha256 redact input env) h

  -- With a policy of the builder, no loop ends as a success, and none is recorded as proved, even if
  -- every command of every check passes: the scope check, which the builder adds and requires, is
  -- never run.
  pub run_loop-never_success :
      (env : LoopEnv) (uuid8 : String) (b : BuildPolicyInput)
      → input.policy ≡ build_loop_policy uuid8 b
      → let r = run_loop to_lower_case sha256 redact input env in
        (r.stop_reason ≢ success_all_checks_passed) × (r.metadata.proof_state ≢ proved)
  unfolding run_loop finished build_loop_metadata build_loop_policy
  run_loop-never_success env uuid8 b built =
      let run = looped to_lower_case sha256 redact input env in
      let initial : any is_open input.policy.required_checks ≡ true =
        ap (λ (p : LoopPolicy). any is_open p.required_checks) built ∙ build_checks-open b in
      let h = looped-open env initial in
      (
        λ e.
            let p = (Stops.looped-After to_lower_case sha256 redact input env).success_sound e in
            let n = open-not_passed run.latest_checks h in cc,
        derive_proof_state-open (map run_of run.latest_checks) run.all_drift run.stop_reason
            (open-not_all run.latest_checks h),
      )
