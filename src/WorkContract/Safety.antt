-- ===== src/WorkContract/Safety.antt =====
-- The routing of a task never overrides the secret boundary, and never lowers the proof.
use avorelo.Common.{
  ◌≤◌, String, ◌≡◌, ◌≢◌, refl, ◌&◌, join, ◌↔◌, Bool, true, false, ◌||◌, ◌&&◌, List, [], ◌∷◌,
  is_empty, arith, by_test, if◌then◌else◌,
}
use avorelo.WorkContract.Words.{
  TaskType, classify_task, is_sensitive, names_auth_or_billing, has_broad_scope,
  is_remediation_text, is_ambiguous,
}
use avorelo.WorkContract.{
  RiskClass, low, medium, high, critical, ApprovalPolicy, no_approval, require_confirmation,
  require_manual_review, local, tests, SafeRunDecision, ParsedTask, Gate, proof_rank, max_proof,
  Proposal, correct_by_safe_run, is_blocked_route, at_least_review, at_least_high,
  correct_by_secrets, assemble, propose, propose_by_text, propose_route, propose_after, corrected,
  is_allowed_run, targeted_code_edit, block, route_work_contract, gate_of, decide_routing,
}

abbrev pub is_at_most_medium : RiskClass → Bool
is_at_most_medium low = true
is_at_most_medium medium = true
is_at_most_medium _ = false

abbrev is_refused : ApprovalPolicy → Bool
is_refused ApprovalPolicy.blocked = true
is_refused _ = false

-- No step but the first blocks, and none leaves a risky task without an approval.
record IsOpen (p : Proposal) : Type 0 where
  not_blocked : is_blocked_route p.route ≡ false
  not_refused : is_refused p.approval_policy ≡ false
  modest : p.approval_policy ≡ no_approval → is_at_most_medium p.risk_class ≡ true

propose_by_text-IsOpen : (task text : String) (t : TaskType) → IsOpen (propose_by_text task text t)
unfolding propose_by_text propose is_blocked_route
propose_by_text-IsOpen task text t = record {
  not_blocked = ground arith;
  not_refused = ground arith;
  modest = ground arith;
}

propose_route-IsOpen : (t : ParsedTask) → IsOpen (propose_route t)
unfolding propose_route propose is_blocked_route
propose_route-IsOpen t =
    let text = t.task & " " & join " " t.paths in
    let remedy : Proposal =
      propose (if is_sensitive text then critical else high) targeted_code_edit
        (max_proof tests (if names_auth_or_billing text then tests else local))
        (if is_sensitive text then require_manual_review else require_confirmation)
        ("Do not expose the raw secret value; reference it safely" ∷ []) in
    by_test IsOpen (is_allowed_run t.safety.safe_run_decision && is_remediation_text t.task) remedy
      _ (λ r. record { not_blocked = refl; not_refused = ground arith; modest = ground arith })
      (λ r.
        by_test IsOpen (is_ambiguous t.task || has_broad_scope t.task) _ _
          (λ a. record { not_blocked = refl; not_refused = refl; modest = λ e. cc })
          (λ a. propose_by_text-IsOpen t.task text (classify_task t.task)))

propose_after-IsOpen :
    (d : SafeRunDecision) (t : ParsedTask) → d ≢ block → IsOpen (propose_after d t)
unfolding propose_after
propose_after-IsOpen SafeRunDecision.allow t h = propose_route-IsOpen t
propose_after-IsOpen SafeRunDecision.require_approval t h = propose_route-IsOpen t
propose_after-IsOpen block t h = absurd (h refl)

-- A corrected proposal against what the secret boundary decided and found.
record IsGuarded (d : SafeRunDecision) (codes : List String) (q : Proposal) : Type 0 where
  blocks : (gate_of q.route q.approval_policy ≡ Gate.blocked) ↔ (d ≡ block)
  allows :
      gate_of q.route q.approval_policy ≡ Gate.allow
      → (d ≡ SafeRunDecision.allow)
        × (is_empty codes ≡ true)
        × (is_at_most_medium q.risk_class ≡ true)
  reviews :
      is_empty codes ≡ false
      → d ≢ block
      → (q.approval_policy ≡ require_manual_review)
        × (is_at_most_medium q.risk_class ≡ false)
        × (2 ≤ proof_rank q.proof_tier)

corrected-IsGuarded :
    (d : SafeRunDecision) (codes : List String) (p : Proposal)
    → (d ≢ block → IsOpen p)
    → IsGuarded d codes (corrected d codes p)
unfolding corrected correct_by_safe_run correct_by_secrets gate_of is_blocked_route at_least_review
    at_least_high max_proof proof_rank
corrected-IsGuarded SafeRunDecision.allow codes p h =
    let o = h (λ e. cc) in
    let b = o.not_blocked in
    let r = o.not_refused in
    let m = o.modest in
    record { blocks = ground arith; allows = ground arith; reviews = ground arith }
corrected-IsGuarded SafeRunDecision.require_approval codes p h =
    let o = h (λ e. cc) in
    let b = o.not_blocked in
    let r = o.not_refused in
    let m = o.modest in
    record { blocks = ground arith; allows = ground arith; reviews = ground arith }
corrected-IsGuarded block codes p h = record {
  blocks = (λ e. refl, λ e. refl);
  allows = λ e. cc;
  reviews = λ e n. absurd (n refl);
}

-- A task is gated as blocked exactly when the safe run blocks it. It is allowed without an approval
-- only where the safe run allows it, no secret is found in it and its risk is low or medium. A task
-- with a secret that is not blocked gets a manual review, a high or critical risk and at least tests
-- as its proof.
pub decide_routing-safe :
    (t : ParsedTask)
    → let r = decide_routing t in
      ((r.gate ≡ Gate.blocked) ↔ (t.safety.safe_run_decision ≡ block))
      × (r.gate ≡ Gate.allow
          → (t.safety.safe_run_decision ≡ SafeRunDecision.allow)
            × (is_empty t.safety.secret_risk_codes ≡ true)
            × (is_at_most_medium r.contract.risk_class ≡ true))
      × (is_empty t.safety.secret_risk_codes ≡ false
          → t.safety.safe_run_decision ≢ block
          → (r.contract.approval_policy ≡ require_manual_review)
            × (is_at_most_medium r.contract.risk_class ≡ false)
            × (2 ≤ proof_rank r.contract.proof_tier))
unfolding decide_routing route_work_contract assemble
decide_routing-safe t =
    let d = t.safety.safe_run_decision in
    let g =
      corrected-IsGuarded d t.safety.secret_risk_codes (propose_after d t)
        (propose_after-IsOpen d t) in
    (g.blocks, g.allows, g.reviews)
