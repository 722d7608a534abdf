-- ===== src/Evidence/Levels.antt =====
-- What the fold of the levels and the plausibility test say of the evidence itself.
use mathlib.Core.List.{Memᴰ}
use avorelo.Common.{
  ◌≡◌, refl, sym, ◌≢◌, ◌↔◌, Bool, true, false, ◌||◌, none, some, List, [], ◌∷◌, all, filter,
  contains, contains-add, add, is_some, All, arith, eq_iff, ◌==◌, IsDistinct, add-IsDistinct, any,
  any_sound, any_complete, string_eq, not, Option-cases, is_empty, inl, inr, ◌∙◌,
}
use avorelo.Schemas.{EvidenceLevel, outcome, post_action, level_eq, level_beq_iff}
use avorelo.Evidence.{
  GradedEvidence, levels_from, levels_present, is_ready_eligible, plausible_for_ready,
}

-- Some item of the evidence has the level.
abbrev pub HasLevel : EvidenceLevel → List GradedEvidence → Type 0
HasLevel l graded = (g : GradedEvidence) × Memᴰ g graded × (g.level ≡ some l)

-- Every item that counts carries a reference.
abbrev pub IsReferenced : List GradedEvidence → Type 0
IsReferenced graded = All (λ g. g.level ≢ none → g.ref ≢ "") graded

abbrev at_level : EvidenceLevel → GradedEvidence → Bool
at_level l g = elim g.level [ none ↦ false | some k ↦ k == l ]

levels_from-contains :
    (set : List EvidenceLevel) (graded : List GradedEvidence) (l : EvidenceLevel)
    → contains (levels_from set graded) l ≡ contains set l || any (at_level l) graded
unfolding levels_from
levels_from-contains set [] l = ground arith
levels_from-contains set (g ∷ graded) l = elim (Option-cases g.level) [
  | inl e ↦ ground (arith, levels_from-contains set graded l)
  | inr (k, e) ↦ ground (arith, levels_from-contains (add set k) graded l, contains-add set k l)
]

at_level_iff : (l : EvidenceLevel) (g : GradedEvidence) → (at_level l g ≡ true) ↔ (g.level ≡ some l)
at_level_iff l g = elim (Option-cases g.level) [
  | inl e ↦ ground arith
  | inr (k, e) ↦ ground (arith, level_beq_iff k l)
]

pub levels_present_iff :
    (graded : List GradedEvidence) (l : EvidenceLevel)
    → (contains (levels_present graded) l ≡ true) ↔ HasLevel l graded
unfolding levels_present
levels_present_iff graded l = (
  λ h.
      let (g, m, e) = any_sound (at_level l) graded (sym (levels_from-contains [] graded l) ∙ h) in
      (g, m, (at_level_iff l g).0 e),
  λ (g, m, e).
      levels_from-contains [] graded l
      ∙ any_complete (at_level l) graded g m ((at_level_iff l g).1 e),
)

pub is_ready_eligible_iff :
    (graded : List GradedEvidence)
    → (is_ready_eligible graded ≡ true) ↔ (HasLevel outcome graded × HasLevel post_action graded)
unfolding is_ready_eligible
is_ready_eligible_iff graded =
    let o = levels_present_iff graded outcome in
    let p = levels_present_iff graded post_action in
    (λ h. (o.0 (ground arith), p.0 (ground arith)), λ (a, b). ground (arith, o.1 a, p.1 b))

levels_from-IsDistinct :
    (set : List EvidenceLevel) (graded : List GradedEvidence)
    → IsDistinct set
    → IsDistinct (levels_from set graded)
unfolding levels_from
levels_from-IsDistinct set [] d = d
levels_from-IsDistinct set (g ∷ graded) d = elim (Option-cases g.level) [
  | inl e ↦ rw e (levels_from-IsDistinct set graded d)
  | inr (k, e) ↦ rw e (levels_from-IsDistinct (add set k) graded (add-IsDistinct set k d))
]

-- The levels present are listed once each.
pub levels_present-IsDistinct : (graded : List GradedEvidence) → IsDistinct (levels_present graded)
unfolding levels_present
levels_present-IsDistinct graded = levels_from-IsDistinct [] graded tt

usable_all_iff :
    (graded : List GradedEvidence)
    → (all (λ g. not (g.ref == "")) (filter (λ g. is_some g.level) graded) ≡ true)
      ↔ IsReferenced graded
usable_all_iff [] = (λ h. tt, λ h. refl)
usable_all_iff (g ∷ graded) = elim (Option-cases g.level) [
  | inl e ↦ ground (arith, usable_all_iff graded, eq_iff g.ref "")
  | inr (k, e) ↦ ground (arith, usable_all_iff graded, eq_iff g.ref "")
]

usable-is_empty :
    (graded : List GradedEvidence)
    → is_empty (filter (λ g. is_some g.level) graded) ≡ not (any (λ g. is_some g.level) graded)
usable-is_empty [] = refl
usable-is_empty (g ∷ graded) = ground (arith, usable-is_empty graded)

-- Some item of the evidence counts.
abbrev pub HasUsable : List GradedEvidence → Type 0
HasUsable graded = (g : GradedEvidence) × Memᴰ g graded × (is_some g.level ≡ true)

pub plausible_for_ready_iff :
    (graded : List GradedEvidence)
    → (plausible_for_ready graded ≡ true) ↔ (HasUsable graded × IsReferenced graded)
unfolding plausible_for_ready
plausible_for_ready_iff graded =
    let used = λ (g : GradedEvidence). is_some g.level in
    let all_iff = usable_all_iff graded in
    let empty = usable-is_empty graded in
    (
      λ h. (any_sound used graded (ground arith), all_iff.0 (ground arith)),
      λ ((g, m, e), r).
          let some_used = any_complete used graded g m e in
          let referenced = all_iff.1 r in ground arith,
    )
