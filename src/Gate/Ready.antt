-- ===== src/Gate/Ready.antt =====
-- When the gate stops as done, stops as blocked, and continues.
use mathlib.Core.List.{Memᴰ}
use mathlib.Core.Path.{subst}
use avorelo.Common.{
  ap, ◌∙◌, ◌≡◌, ◌≢◌, refl, sym, ◌↔◌, ◌⊎◌, inl, inr, Bool, true, false, ◌&&◌, not, some, List, [],
  ◌∷◌, get_or, arith, Bool-cases,
}
use avorelo.Schemas.{
  EvidenceLevel, outcome, post_action, continue, stop_done, allow, block, needs_approval,
  PolicyVerdict,
}
use avorelo.Evidence.{
  GradedEvidence, EvidenceArtifact, ArtifactKind, persisted_state_change, source_of_truth_readback,
  aftermath_correct, kind_max, grade_all, is_ready_eligible, plausible_for_ready,
}
use avorelo.Evidence.Levels.{HasLevel, IsReferenced, is_ready_eligible_iff, plausible_for_ready_iff}
use avorelo.Gate.{GateInput, reviewer_no_go, by_policy, decide}

-- What a READY claim rests on.
pub record IsReady (i : GateInput) : Type 0 where
  pub allowed : i.policy_verdict ≡ allow
  pub outcome_present : HasLevel outcome i.graded
  pub post_action_present : HasLevel post_action i.graded
  pub referenced : IsReferenced i.graded
  pub no_objection : reviewer_no_go i ≡ false
  pub clean : get_or i.environment_compromised false ≡ false

-- The test of step 3, together with that of the policy.
ready : GateInput → Bool
ready i =
    is_ready_eligible i.graded
    && (plausible_for_ready i.graded
        && (not (reviewer_no_go i) && not (get_or i.environment_compromised false)))

ready_sound : (i : GateInput) → i.policy_verdict ≡ allow → ready i ≡ true → IsReady i
unfolding ready
ready_sound i p h =
    let (o, a) = (is_ready_eligible_iff i.graded).0 (ground arith) in
    let (u, r) = (plausible_for_ready_iff i.graded).0 (ground arith) in
    record {
      allowed = p;
      outcome_present = o;
      post_action_present = a;
      referenced = r;
      no_objection = ground arith;
      clean = ground arith;
    }

ready_complete : (i : GateInput) → IsReady i → ready i ≡ true
unfolding ready
ready_complete i s =
    let (g, m, e) = s.outcome_present in
    let eligible = (is_ready_eligible_iff i.graded).1 (s.outcome_present, s.post_action_present) in
    let plausible = (plausible_for_ready_iff i.graded).1 ((g, m, ground arith), s.referenced) in
    let quiet = s.no_objection in let clean = s.clean in ground arith

by_policy-stop_done :
    (v : PolicyVerdict) (i : GateInput)
    → ((by_policy v i).decision ≡ stop_done) ↔ ((v ≡ allow) × (ready i ≡ true))
unfolding by_policy ready
by_policy-stop_done allow i = ground arith
by_policy-stop_done block i = ground arith
by_policy-stop_done needs_approval i = ground arith

-- The gate stops as done exactly when the policy allows, some evidence is graded OUTCOME and some
-- POST_ACTION, all evidence that counts carries a reference, no reviewer says NO_GO and the
-- environment is not compromised.
pub decide-stop_done_iff : (i : GateInput) → ((decide i).decision ≡ stop_done) ↔ IsReady i
unfolding decide
decide-stop_done_iff i =
    let (to, from) = by_policy-stop_done i.policy_verdict i in
    (λ h. let (p, r) = to h in ready_sound i p r, λ s. from (s.allowed, ready_complete i s))

by_policy-continue :
    (v : PolicyVerdict) (i : GateInput)
    → ((by_policy v i).decision ≡ continue)
      ↔ ((v ≡ allow) × (ready i ≡ false) × (get_or i.stop_condition_met false ≡ false))
unfolding by_policy ready
by_policy-continue allow i = ground arith
by_policy-continue block i = ground arith
by_policy-continue needs_approval i = ground arith

-- The gate lets work continue exactly when the policy allows, the work is not ready and no stop
-- condition is met; so a policy verdict other than allow always stops it.
pub decide-continue_iff :
    (i : GateInput)
    → ((decide i).decision ≡ continue)
      ↔ ((i.policy_verdict ≡ allow) × ¬ IsReady i × (get_or i.stop_condition_met false ≡ false))
unfolding decide
decide-continue_iff i =
    let (to, from) = by_policy-continue i.policy_verdict i in
    (
      λ h. let (p, r, s) = to h in (p, λ z. let w = ready_complete i z in cc, s),
      λ (p, n, s). from (
        p,
        elim (Bool-cases (ready i)) [ inl y ↦ absurd (n (ready_sound i p y)) | inr f ↦ f ],
        s,
      ),
    )

HasLevel-grade_all :
    (l : EvidenceLevel) (artifacts : List EvidenceArtifact)
    → HasLevel l (grade_all artifacts)
    → IsReferenced (grade_all artifacts)
    → (a : EvidenceArtifact) × Memᴰ a artifacts × (kind_max a.kind ≡ some l) × (a.ref ≢ "")
unfolding grade_all
HasLevel-grade_all l [] (g, m, e) r = elim m [ ]
HasLevel-grade_all l (a ∷ artifacts) (g, Memᴰ.head same, e) r =
    let k : kind_max a.kind ≡ some l = sym (ap (λ (x : GradedEvidence). x.level) same) ∙ e in
    (a, Memᴰ.head refl, k, r.0 (λ z. cc))
HasLevel-grade_all l (a ∷ artifacts) (g, Memᴰ.tail m, e) r =
    let (b, n, k, u) = HasLevel-grade_all l artifacts (g, m, e) r.1 in (b, Memᴰ.tail n, k, u)

outcome_kinds :
    (k : ArtifactKind)
    → kind_max k ≡ some outcome
    → (k ≡ persisted_state_change) ⊎ (k ≡ source_of_truth_readback)
unfolding kind_max
outcome_kinds k h = ground arith

post_action_kinds : (k : ArtifactKind) → kind_max k ≡ some post_action → k ≡ aftermath_correct
unfolding kind_max
post_action_kinds k h = ground arith

-- Whatever artifacts are submitted, if the gate stops as done on their grades, then one of them is
-- a persisted state change or a readback of the source of truth, and one is a correct aftermath, and
-- both carry a reference: passed tests, screenshots, redirects, confirmations and fixtures never
-- suffice.
pub decide-stop_done_artifacts :
    (i : GateInput) (artifacts : List EvidenceArtifact)
    → i.graded ≡ grade_all artifacts
    → (decide i).decision ≡ stop_done
    → ((a : EvidenceArtifact) × Memᴰ a artifacts
        × ((a.kind ≡ persisted_state_change) ⊎ (a.kind ≡ source_of_truth_readback))
        × (a.ref ≢ ""))
      × ((b : EvidenceArtifact) × Memᴰ b artifacts × (b.kind ≡ aftermath_correct) × (b.ref ≢ ""))
decide-stop_done_artifacts i artifacts e h =
    let r = (decide-stop_done_iff i).0 h in
    let refs = subst IsReferenced e r.referenced in
    let (a, m, k, u) =
      HasLevel-grade_all outcome artifacts (subst (HasLevel outcome) e r.outcome_present) refs in
    let (b, n, j, v) =
      HasLevel-grade_all post_action artifacts
        (subst (HasLevel post_action) e r.post_action_present) refs in
    ((a, m, outcome_kinds a.kind k, u), (b, n, post_action_kinds b.kind j, v))
