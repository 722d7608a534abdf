-- ===== src/LoopControl/Routed.antt =====
-- From the routing of a task to the policy of its loop.
use mathlib.Core.Path.{subst}
use avorelo.Common.{
  String, ◌≡◌, refl, sym, ◌∙◌, true, ◌||◌, some, List, arith, Bool-cases, inl, inr,
}
use avorelo.WorkContract.{
  ParsedTask, SafeRunDecision, block, EnrichedWorkContract, is_blocked_route, propose_after,
  correct_by_safe_run, correct_by_secrets, corrected, assemble, route_work_contract, Proposal,
}
use avorelo.LoopControl.{LoopReadinessResult}
use avorelo.LoopControl.Readiness.{
  ClassifyReadinessInput, is_destructive_task, is_broad_task, result, classify_narrow,
  destructive_result, broad_result, classify_contract, classify_loop_readiness,
}
use avorelo.LoopControl.Policy.{BuildPolicyInput, is_gated, is_single_run, build_loop_policy}
use avorelo.LoopControl.Limits.{build_loop_policy-limits}

corrected-block :
    (d : SafeRunDecision) (codes : List String) (p : Proposal)
    → d ≡ block
    → is_blocked_route (corrected d codes p).route ≡ true
unfolding corrected correct_by_safe_run correct_by_secrets is_blocked_route
corrected-block d codes p e = rw e refl

route_work_contract-block :
    (t : ParsedTask)
    → t.safety.safe_run_decision ≡ block
    → is_blocked_route (route_work_contract t).route ≡ true
unfolding route_work_contract assemble
route_work_contract-block t e =
    let d = t.safety.safe_run_decision in
    corrected-block d t.safety.secret_risk_codes (propose_after d t) e

module _ (to_lower_case : String → String) where
  classify_loop_readiness-blocked :
      (task : String) (c : EnrichedWorkContract)
      → is_blocked_route c.route ≡ true
      → let i : ClassifyReadinessInput = record { task = task; enriched_contract = some c } in
        is_gated (classify_loop_readiness to_lower_case i).classification || is_broad_task task
        ≡ true
  unfolding classify_loop_readiness classify_narrow classify_contract destructive_result
      broad_result result is_gated
  classify_loop_readiness-blocked task c h = elim (Bool-cases (is_destructive_task task)) [
    | inl d ↦ rw d refl
    | inr d ↦ elim (Bool-cases (is_broad_task task)) [
      | inl b ↦ rw (d, b) refl
      | inr b ↦ rw (d, b, h) refl
    ]
  ]

  -- A task that the safe run blocks gets a single run of one iteration, whatever its text is and
  -- whatever limits the user asks for.
  pub build_loop_policy-blocked_task :
      (t : ParsedTask) (uuid8 : String) (b : BuildPolicyInput)
      → t.safety.safe_run_decision ≡ block
      → b.readiness
        ≡ classify_loop_readiness to_lower_case
            (record { task = t.task; enriched_contract = some (route_work_contract t) })
      → let p = build_loop_policy uuid8 b in (is_single_run p.mode ≡ true) × (p.max_iterations ≡ 1)
  build_loop_policy-blocked_task t uuid8 b e k =
      let i : ClassifyReadinessInput = record {
        task = t.task;
        enriched_contract = some (route_work_contract t);
      } in
      let (_, _, m, one) = build_loop_policy-limits to_lower_case uuid8 i b k in
      let h =
        classify_loop_readiness-blocked t.task (route_work_contract t)
          (route_work_contract-block t e) in
      let g : is_gated b.readiness.classification || is_broad_task t.task ≡ true =
        subst
          (λ (r : LoopReadinessResult). is_gated r.classification || is_broad_task t.task ≡ true)
          (sym k) h in
      let single : is_single_run (build_loop_policy uuid8 b).mode ≡ true = m ∙ ground arith in
      (single, one single)
