-- ===== src/Evidence.antt =====
-- kernel/evidence/index.ts: artifacts are graded into four levels; a submitter cannot grade up.
pub mod Levels
pub mod Inert
pub mod Foundation
pub mod Claims
mod Tests
use avorelo.Common.{
  String, Bool, true, false, ◌&&◌, not, Option, none, some, List, [], ◌∷◌, map, all, filter,
  contains, add, is_some, is_empty, if◌then◌else◌, ◌==◌, string_eq,
}
use avorelo.Schemas.{EvidenceLevel, navigation, interaction, outcome, post_action, level_eq}

pub data ArtifactKind : Type 0 where
  http_status_ok redirect ui_action_accepted test_passed screenshot user_confirmed : ArtifactKind
  persisted_state_change source_of_truth_readback aftermath_correct fixture : ArtifactKind

-- `detail` is never read by the router and is left out.
pub record EvidenceArtifact : Type 0 where
  pub artifact_id : String
  pub kind : ArtifactKind
  pub ref : String

-- A `none` level is an artifact that counts for nothing.
pub record GradedEvidence : Type 0 where
  pub artifact_id : String
  pub level : Option EvidenceLevel
  pub ref : String

unfoldable pub kind_max : ArtifactKind → Option EvidenceLevel
kind_max http_status_ok = some navigation
kind_max redirect = some interaction
kind_max ui_action_accepted = some interaction
kind_max test_passed = some interaction
kind_max screenshot = some interaction
kind_max user_confirmed = some interaction
kind_max persisted_state_change = some outcome
kind_max source_of_truth_readback = some outcome
kind_max aftermath_correct = some post_action
kind_max fixture = none

unfoldable pub grade_artifact : EvidenceArtifact → GradedEvidence
unfolding kind_max
grade_artifact a = record { artifact_id = a.artifact_id; level = kind_max a.kind; ref = a.ref }

unfoldable pub grade_all : List EvidenceArtifact → List GradedEvidence
unfolding grade_artifact
grade_all artifacts = map grade_artifact artifacts

-- The loop of `levelsPresent` over the set that it fills.
levels_from : List EvidenceLevel → List GradedEvidence → List EvidenceLevel
levels_from set [] = set
levels_from set (g ∷ graded) = levels_from (elim g.level [ none ↦ set | some l ↦ add set l ]) graded

unfoldable pub levels_present : List GradedEvidence → List EvidenceLevel
unfolding levels_from
levels_present graded = levels_from [] graded

unfoldable pub is_ready_eligible : List GradedEvidence → Bool
unfolding levels_present
is_ready_eligible graded =
    let levels = levels_present graded in contains levels outcome && contains levels post_action

unfoldable pub plausible_for_ready : List GradedEvidence → Bool
plausible_for_ready graded =
    let usable = filter (λ g. is_some g.level) graded in
    if is_empty usable then false else all (λ g. not (g.ref == "")) usable
