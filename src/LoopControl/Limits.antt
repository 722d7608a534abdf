-- ===== src/LoopControl/Limits.antt =====
-- The limits of the policies that are built from a classification.
use avorelo.Common.{
  ℕ, ◌≤◌, String, ◌≡◌, refl, sym, Option, none, some, true, false, arith, Bool-cases, inl, inr,
  by_test, Bool, if◌then◌else◌, ◌||◌,
}
use mathlib.Core.Path.{subst}
use avorelo.LoopControl.{LoopReadinessResult}
use avorelo.WorkContract.{EnrichedWorkContract}
use avorelo.LoopControl.Readiness.{
  ClassifyReadinessInput, is_destructive_task, is_broad_task, default_iterations, default_runtime,
  default_mode, result, has_high_risk_keyword, is_critical, classify_narrow, destructive_result,
  broad_result, classify_contract, classify_task, classify_loop_readiness,
}
use avorelo.LoopControl.Policy.{
  BuildPolicyInput, is_gated, is_single_run, limited, mode_for, max_iterations_for,
  build_loop_policy,
}

-- What is recommended is within the bounds of the policies, and a single run is recommended for the
-- gated, the broad and the critical tasks alone.
record IsModest (broad : Bool) (r : LoopReadinessResult) : Type 0 where
  few : r.recommended_max_iterations ≤ 5
  short : r.recommended_max_runtime_minutes ≤ 20
  single_iff :
      is_gated r.classification || is_single_run r.recommended_mode
      ≡ is_gated r.classification || (broad || is_critical r.risk_tier)

classify_contract-IsModest : (c : EnrichedWorkContract) → IsModest false (classify_contract c)
unfolding classify_contract result default_iterations default_runtime default_mode is_critical
    is_single_run is_gated
classify_contract-IsModest c = record {
  few = ground arith;
  short = ground arith;
  single_iff = ground arith;
}

limited-le :
    (o : Option ℕ) (most recommended : ℕ) → recommended ≤ most → limited o most recommended ≤ most
unfolding limited
limited-le none most recommended h = h
limited-le (some n) most recommended h = ground arith

max_iterations_for-le :
    (b : BuildPolicyInput) → b.readiness.recommended_max_iterations ≤ 10 → max_iterations_for b ≤ 10
unfolding max_iterations_for
max_iterations_for-le b h =
    let r = b.readiness in
    let recommended = if is_gated r.classification then 1 else r.recommended_max_iterations in
    let l = limited-le b.user_max_iterations 10 recommended (ground arith) in ground arith

module _ (to_lower_case : String → String) where
  classify_narrow-IsModest :
      (task : String) (o : Option EnrichedWorkContract)
      → IsModest false (classify_narrow to_lower_case task o)
  unfolding classify_narrow classify_task result default_iterations default_runtime default_mode
      is_critical is_single_run is_gated
  classify_narrow-IsModest task none =
      by_test (IsModest false) (has_high_risk_keyword to_lower_case task) _ _
        (λ h. record { few = omega arith; short = omega arith; single_iff = refl })
        (λ h. record { few = omega arith; short = omega arith; single_iff = refl })
  classify_narrow-IsModest task (some c) = classify_contract-IsModest c

  classify_loop_readiness-IsModest :
      (i : ClassifyReadinessInput)
      → IsModest (is_broad_task i.task) (classify_loop_readiness to_lower_case i)
  unfolding classify_loop_readiness destructive_result broad_result is_single_run is_gated
  classify_loop_readiness-IsModest i = elim (Bool-cases (is_destructive_task i.task)) [
    | inl d ↦ rw d (record { few = omega arith; short = omega arith; single_iff = refl })
    | inr d ↦ elim (Bool-cases (is_broad_task i.task)) [
      | inl b ↦ rw (d, b) (record { few = omega arith; short = omega arith; single_iff = refl })
      | inr b ↦ rw (d, b) (classify_narrow-IsModest i.task i.enriched_contract)
    ]
  ]

  -- A policy that is built from a classification allows at most ten iterations and sixty minutes,
  -- whatever the user asks for; its mode is a single run, with one iteration, exactly where the task
  -- needs a human gate, is blocked, is broad or is of critical risk.
  pub build_loop_policy-limits :
      (uuid8 : String) (c : ClassifyReadinessInput) (b : BuildPolicyInput)
      → b.readiness ≡ classify_loop_readiness to_lower_case c
      → let p = build_loop_policy uuid8 b in
        let r = b.readiness in
        (p.max_iterations ≤ 10)
        × (p.max_runtime_minutes ≤ 60)
        × (is_single_run p.mode
            ≡ is_gated r.classification || (is_broad_task c.task || is_critical r.risk_tier))
        × (is_single_run p.mode ≡ true → p.max_iterations ≡ 1)
  unfolding build_loop_policy mode_for max_iterations_for
  build_loop_policy-limits uuid8 c b e =
      let m : IsModest (is_broad_task c.task) b.readiness =
        subst (IsModest (is_broad_task c.task)) (sym e) (classify_loop_readiness-IsModest c) in
      let few = m.few in
      let short = m.short in
      let single = m.single_iff in
      (
        max_iterations_for-le b (omega arith),
        limited-le b.user_max_runtime_minutes 60 _ (omega arith),
        ground arith,
        λ h. rw h refl,
      )
