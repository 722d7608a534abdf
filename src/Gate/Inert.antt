-- ===== src/Gate/Inert.antt =====
-- Evidence that counts for nothing.
use avorelo.Common.{◌≡◌, refl, none, List, ◌∷◌, ◌++◌}
use avorelo.Schemas.{PolicyVerdict, allow, block, needs_approval}
use avorelo.Evidence.{GradedEvidence}
use avorelo.Evidence.Inert.{
  levels_present-insert_ungraded, is_ready_eligible-insert_ungraded,
  plausible_for_ready-insert_ungraded,
}
use avorelo.Gate.{GateInput, decide, by_policy}

module _ (i : GateInput) (xs ys : List GradedEvidence) (g : GradedEvidence)
    (h : g.level ≡ none) where
  by_policy-insert_ungraded :
      (v : PolicyVerdict)
      → by_policy v (record i { graded = xs ++ g ∷ ys })
        ≡ by_policy v (record i { graded = xs ++ ys })
  unfolding by_policy
  by_policy-insert_ungraded block = refl
  by_policy-insert_ungraded needs_approval = refl
  by_policy-insert_ungraded allow = rw (
    levels_present-insert_ungraded xs ys g h,
    is_ready_eligible-insert_ungraded xs ys g h,
    plausible_for_ready-insert_ungraded xs ys g h,
  )

-- An item graded as nothing, such as a fixture, changes no part of the gate's result, wherever it
-- stands in the evidence.
pub decide-insert_ungraded :
    (i : GateInput) (xs ys : List GradedEvidence) (g : GradedEvidence)
    → g.level ≡ none
    → decide (record i { graded = xs ++ g ∷ ys }) ≡ decide (record i { graded = xs ++ ys })
unfolding decide
decide-insert_ungraded i xs ys g h = by_policy-insert_ungraded i xs ys g h i.policy_verdict
