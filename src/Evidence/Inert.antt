-- ===== src/Evidence/Inert.antt =====
-- The folds of kernel/evidence/index.ts over an item with no level.
use avorelo.Common.{◌≡◌, refl, none, List, [], ◌∷◌, ◌++◌, arith, filter, is_some}
use avorelo.Schemas.{EvidenceLevel}
use avorelo.Evidence.{
  GradedEvidence, levels_from, levels_present, is_ready_eligible, plausible_for_ready,
}

levels_from-insert_ungraded :
    (xs ys : List GradedEvidence) (set : List EvidenceLevel) (g : GradedEvidence)
    → g.level ≡ none
    → levels_from set (xs ++ g ∷ ys) ≡ levels_from set (xs ++ ys)
unfolding levels_from
levels_from-insert_ungraded [] ys set g h = rw h refl
levels_from-insert_ungraded (x ∷ xs) ys set g h = levels_from-insert_ungraded xs ys _ g h

usable-insert_ungraded :
    (xs ys : List GradedEvidence) (g : GradedEvidence)
    → g.level ≡ none
    → filter (λ u. is_some u.level) (xs ++ g ∷ ys) ≡ filter (λ u. is_some u.level) (xs ++ ys)
usable-insert_ungraded [] ys g h = rw h refl
usable-insert_ungraded (x ∷ xs) ys g h = ground (arith, usable-insert_ungraded xs ys g h)

module _ (xs ys : List GradedEvidence) (g : GradedEvidence) (h : g.level ≡ none) where
  pub levels_present-insert_ungraded : levels_present (xs ++ g ∷ ys) ≡ levels_present (xs ++ ys)
  unfolding levels_present
  levels_present-insert_ungraded = levels_from-insert_ungraded xs ys [] g h

  pub is_ready_eligible-insert_ungraded :
      is_ready_eligible (xs ++ g ∷ ys) ≡ is_ready_eligible (xs ++ ys)
  unfolding is_ready_eligible
  is_ready_eligible-insert_ungraded = rw (levels_from-insert_ungraded xs ys [] g h)

  pub plausible_for_ready-insert_ungraded :
      plausible_for_ready (xs ++ g ∷ ys) ≡ plausible_for_ready (xs ++ ys)
  unfolding plausible_for_ready
  plausible_for_ready-insert_ungraded = rw (usable-insert_ungraded xs ys g h)
