-- ===== src/ToolAdapters/TeamPolicy/Effects.antt =====
-- What team-policy.ts decides, against a description that has no loop.
use avorelo.Common.{
  string_eq, String, ◌≡◌, Bool, true, false, not, ◌&&◌, ◌||◌, List, [], ◌∷◌, any, arith,
  if◌then◌else◌,
}
use avorelo.ToolAdapters.TeamPolicy.{
  Effect, deny, require_approval, TeamPolicyRule, TeamPolicy, Candidate, rule_matches, effect_of,
  exceeds, is_named, lists, evaluate_team_policy, after_rule,
}

abbrev pub is_deny : Effect → Bool
is_deny deny = true
is_deny _ = false

abbrev pub is_approval : Effect → Bool
is_approval require_approval = true
is_approval _ = false

-- Some rule that matches denies, or asks for approval.
abbrev pub rules_deny : List TeamPolicyRule → Candidate → Bool
rules_deny rules c = any (λ r. rule_matches r.conditions c && is_deny r.effect) rules

abbrev pub rules_ask : List TeamPolicyRule → Candidate → Bool
rules_ask rules c = any (λ r. rule_matches r.conditions c && is_approval r.effect) rules

effect_of-deny :
    (rules : List TeamPolicyRule) (c : Candidate) (old : Effect)
    → is_deny (effect_of rules c old) ≡ is_deny old || rules_deny rules c
unfolding effect_of
effect_of-deny [] c old = ground arith
effect_of-deny (r ∷ rs) c old = ground (
  arith,
  effect_of-deny rs c (if rule_matches r.conditions c then after_rule r.effect old else old),
)

effect_of-approval :
    (rules : List TeamPolicyRule) (c : Candidate) (old : Effect)
    → is_approval (effect_of rules c old)
      ≡ not (is_deny old || rules_deny rules c) && (is_approval old || rules_ask rules c)
unfolding effect_of
effect_of-approval [] c old = ground arith
effect_of-approval (r ∷ rs) c old = ground (
  arith,
  effect_of-approval rs c (if rule_matches r.conditions c then after_rule r.effect old else old),
)

-- An adapter is denied exactly when the policy denies it by name, has a list of allowed adapters that
-- leaves it out, has a lower risk ceiling, denies by default, or has a rule that matches
-- and denies, wherever that rule stands. No rule and no other setting takes a denial back.
pub evaluate_team_policy-deny_iff :
    (to_upper : String → String) (p : TeamPolicy) (c : Candidate)
    → is_deny (evaluate_team_policy to_upper p c).effect
      ≡ is_named p.denied_adapters c.adapter_id
        || not (lists p.allowed_adapters c.adapter_id)
        || exceeds p c
        || is_deny p.default_effect
        || rules_deny p.rules c
unfolding evaluate_team_policy
evaluate_team_policy-deny_iff to_upper p c =
    ground (arith, effect_of-deny p.rules c (if exceeds p c then deny else p.default_effect))

-- Approval is asked for exactly when the adapter is not denied and either the policy asks by default or
-- a rule that matches asks.
pub evaluate_team_policy-approval_iff :
    (to_upper : String → String) (p : TeamPolicy) (c : Candidate)
    → is_approval (evaluate_team_policy to_upper p c).effect
      ≡ not (is_deny (evaluate_team_policy to_upper p c).effect)
        && (is_approval p.default_effect || rules_ask p.rules c)
unfolding evaluate_team_policy
evaluate_team_policy-approval_iff to_upper p c = ground (
  arith,
  effect_of-deny p.rules c (if exceeds p c then deny else p.default_effect),
  effect_of-approval p.rules c (if exceeds p c then deny else p.default_effect),
)
