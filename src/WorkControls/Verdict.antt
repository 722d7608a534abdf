-- ===== src/WorkControls/Verdict.antt =====
-- The verdict on an action, apart from the order of the steps that reach it.
use avorelo.Common.{
  String, ◌≡◌, Bool, ◌||◌, not, List, [], contains, filter, is_empty, ◌∷◌, arith, if◌then◌else◌,
  ◌==◌, string_eq, IsDistinct, dedup-IsDistinct,
}
use avorelo.WorkControls.{
  ActionWorthinessVerdict, allow, allow_with_bounds, require_approval, suggest_safer_action, block,
  ActionWorthinessInput, unique, is_risky, start, is_block, is_allow, needs_approval,
  weigh_migration, weigh_risk, weigh_bound, weigh_release, weigh_policy, weighed, hints_of,
  evaluate_action_worthiness,
}

abbrev pub is_bounded : List String → Bool
is_bounded hints =
    contains hints "auth_security_change"
    || (contains hints "docs_only" || contains hints "read_only_status")

abbrev pub asks_review : String → Bool
asks_review policy = policy == "require_manual_review" || policy == "require_confirmation"

-- The verdict by precedence.
abbrev pub verdict_for : List String → String → ActionWorthinessVerdict
verdict_for hints policy =
    if contains hints "destructive_migration" || policy == "blocked"
    then block
    else if is_risky hints
    then require_approval
    else if is_bounded hints
    then allow_with_bounds
    else if asks_review policy
    then suggest_safer_action
    else allow

weighed-verdict :
    (hints : List String) (policy : String)
    → (weighed hints policy).verdict ≡ verdict_for hints policy
unfolding weighed start weigh_migration weigh_risk weigh_bound weigh_release weigh_policy is_block
    is_allow needs_approval
weighed-verdict hints policy = ground arith

unique-IsDistinct : (values : List String) → IsDistinct (unique values)
unfolding unique
unique-IsDistinct values = dedup-IsDistinct (filter (λ v. not (v == "")) values)

-- The verdict on an action depends on its hints and the approval policy by precedence: a destructive
-- migration or a blocked policy blocks it, else a risky hint asks for an approval, else a hint of
-- security, documentation or reading bounds it, else a policy that asks for a review suggests a safer
-- action, and else it is allowed. The reason codes and the approvals have no repetitions.
pub evaluate_action_worthiness-verdict :
    (to_lower_case : String → String) (i : ActionWorthinessInput)
    → let d = evaluate_action_worthiness to_lower_case i in
      (d.verdict ≡ verdict_for d.proposal_hints i.approval_policy)
      × IsDistinct d.reason_codes
      × IsDistinct d.required_approvals
unfolding evaluate_action_worthiness
evaluate_action_worthiness-verdict l i =
    let w = weighed (hints_of l i) i.approval_policy in
    (
      weighed-verdict (hints_of l i) i.approval_policy,
      unique-IsDistinct
          (if is_empty w.reason_codes then "ACTION_SAFE_LOCAL_ONLY" ∷ [] else w.reason_codes),
      unique-IsDistinct w.required_approvals,
    )
