-- ===== src/ToolAdapters/TeamPolicy.antt =====
-- kernel/tool-adapters/team-policy.ts: what a team's policy decides of an adapter. `Date.now()` is
-- an argument, and so is `toUpperCase`.
pub mod Effects
pub mod Merge
use avorelo.Common.{
  Comparable, map, ℕ, String, Bool, true, false, not, ◌&&◌, ◌||◌, Option, none, some, List, [], ◌∷◌,
  ◌++◌, contains, string_eq, dedup, get_or, if◌then◌else◌, ltb, leb, ◌==◌, ◌&◌, is_empty,
}
use avorelo.Json.{decimal}
use avorelo.ToolAdapters.Types.{
  RiskCeiling, low, medium, high, critical, DataPolicy, data_policy_eq, training_included,
  AdapterPolicyConstraints,
}

pub data Effect : Type 0 where
  deny require_approval allow : Effect

-- `requireSandbox` and `requireProof` of a rule are stored and read by nothing.
pub record RuleConditions : Type 0 where
  pub adapters : Option (List String)
  pub risk_ceiling_above : Option RiskCeiling
  pub data_policies : Option (List DataPolicy)
  pub task_types : Option (List String)
  pub require_sandbox : Option Bool
  pub require_proof : Option Bool

pub record TeamPolicyRule : Type 0 where
  pub rule_id : String
  pub description : String
  pub effect : Effect
  pub conditions : RuleConditions
  pub contains_raw_prompt : Bool
  pub contains_raw_secret : Bool

pub record TeamPolicy : Type 0 where
  pub contract : String
  pub policy_id : String
  pub team_name : String
  pub rules : List TeamPolicyRule
  pub default_effect : Effect
  pub allowed_adapters : Option (List String)
  pub denied_adapters : Option (List String)
  pub max_risk_ceiling : RiskCeiling
  pub require_local_only : Bool
  pub require_sandbox : Bool
  pub require_proof_collection : Bool
  pub deny_data_collection : Bool
  pub created_at : ℕ
  pub updated_at : ℕ
  pub contains_raw_prompt : Bool
  pub contains_raw_source : Bool
  pub contains_raw_secret : Bool
  pub contains_raw_output : Bool
  pub model_may_decide : Bool
  pub scanner_may_decide : Bool
  pub final_decision_owner : String

pub record TeamPolicyEvaluation : Type 0 where
  pub policy_id : String
  pub adapter_id : String
  pub effect : Effect
  pub matched_rules : List String
  pub reason_codes : List String
  pub contains_raw_prompt : Bool
  pub contains_raw_secret : Bool

abbrev pub risk_order : RiskCeiling → ℕ
risk_order low = 1
risk_order medium = 2
risk_order high = 3
risk_order critical = 4

unfoldable pub create_default_team_policy : ℕ → String → TeamPolicy
create_default_team_policy now team = record {
  contract = "avorelo.teamPolicy.v1";
  policy_id = "policy-" & team & "-" & decimal now;
  team_name = team;
  rules = [];
  default_effect = allow;
  allowed_adapters = none;
  denied_adapters = none;
  max_risk_ceiling = high;
  require_local_only = false;
  require_sandbox = false;
  require_proof_collection = false;
  deny_data_collection = false;
  created_at = now;
  updated_at = now;
  contains_raw_prompt = false;
  contains_raw_source = false;
  contains_raw_secret = false;
  contains_raw_output = false;
  model_may_decide = false;
  scanner_may_decide = false;
  final_decision_owner = "kernel/stop-continue-gate";
}

abbrev no_conditions : RuleConditions
no_conditions = record {
  adapters = none;
  risk_ceiling_above = none;
  data_policies = none;
  task_types = none;
  require_sandbox = none;
  require_proof = none;
}

unfoldable pub create_strict_team_policy : ℕ → String → TeamPolicy
unfolding create_default_team_policy
create_strict_team_policy now team = record (create_default_team_policy now team) {
  policy_id = "policy-strict-" & team & "-" & decimal now;
  max_risk_ceiling = medium;
  require_local_only = true;
  require_sandbox = true;
  require_proof_collection = true;
  deny_data_collection = true;
  denied_adapters = some ("cursor" ∷ []);
  rules =
      record {
        rule_id = "strict-deny-training";
        description = "Deny adapters that include training in data policy";
        effect = deny;
        conditions = record no_conditions { data_policies = some (training_included ∷ []) };
        contains_raw_prompt = false;
        contains_raw_secret = false;
      }
      ∷ record {
        rule_id = "strict-require-approval-high-risk";
        description = "Require approval for high-risk tasks";
        effect = require_approval;
        conditions = record no_conditions { risk_ceiling_above = some medium };
        contains_raw_prompt = false;
        contains_raw_secret = false;
      }
      ∷ [];
}

-- What an adapter brings to its evaluation.
pub record Candidate : Type 0 where
  pub adapter_id : String
  pub risk_ceiling : RiskCeiling
  pub data_policy : DataPolicy
  pub task_type : Option String

abbrev pub lists {ℓ} : {A : Type ℓ} ⦃e : Comparable A⦄ → Option (List A) → A → Bool
lists none a = true
lists (some xs) a = contains xs a

abbrev is_above : Option RiskCeiling → RiskCeiling → Bool
is_above none r = true
is_above (some c) r = not (leb (risk_order r) (risk_order c))

-- A missing or empty task type meets every condition on it.
abbrev lists_type : Option (List String) → Option String → Bool
lists_type types none = true
lists_type types (some t) = if t == "" then true else lists types t

-- The four tests of a rule.
pub rule_matches : RuleConditions → Candidate → Bool
rule_matches r c =
    lists r.adapters c.adapter_id
    && is_above r.risk_ceiling_above c.risk_ceiling
    && lists r.data_policies c.data_policy
    && lists_type r.task_types c.task_type

-- The effect so far, after a rule that matches.
abbrev after_rule : Effect → Effect → Effect
after_rule deny old = deny
after_rule require_approval deny = deny
after_rule require_approval old = require_approval
after_rule allow old = old

-- The loop over the rules, from an effect.
pub effect_of : List TeamPolicyRule → Candidate → Effect → Effect
unfolding rule_matches
effect_of [] c old = old
effect_of (r ∷ rs) c old =
    effect_of rs c (if rule_matches r.conditions c then after_rule r.effect old else old)

pub matched_of : List TeamPolicyRule → Candidate → List String
unfolding rule_matches
matched_of [] c = []
matched_of (r ∷ rs) c =
    let rest = matched_of rs c in if rule_matches r.conditions c then r.rule_id ∷ rest else rest

abbrev pub exceeds : TeamPolicy → Candidate → Bool
exceeds p c = ltb (risk_order p.max_risk_ceiling) (risk_order c.risk_ceiling)

abbrev denied_result : TeamPolicy → Candidate → String → String → TeamPolicyEvaluation
denied_result p c rule code = record {
  policy_id = p.policy_id;
  adapter_id = c.adapter_id;
  effect = deny;
  matched_rules = rule ∷ [];
  reason_codes = code ∷ [];
  contains_raw_prompt = false;
  contains_raw_secret = false;
}

abbrev pub is_named : Option (List String) → String → Bool
is_named none id = false
is_named (some ids) id = contains ids id

module _ (to_upper : String → String) where
  abbrev rule_code : String → String
  rule_code id = "TEAM_RULE_" & to_upper id

  abbrev evaluated : TeamPolicy → Candidate → TeamPolicyEvaluation
  evaluated p c = record {
    policy_id = p.policy_id;
    adapter_id = c.adapter_id;
    effect = effect_of p.rules c (if exceeds p c then deny else p.default_effect);
    matched_rules =
        (if exceeds p c then "risk_ceiling_exceeded" ∷ [] else []) ++ matched_of p.rules c;
    reason_codes =
        (if exceeds p c then "TEAM_POLICY_RISK_CEILING_EXCEEDED" ∷ [] else [])
        ++ map rule_code (matched_of p.rules c);
    contains_raw_prompt = false;
    contains_raw_secret = false;
  }

  unfoldable pub evaluate_team_policy : TeamPolicy → Candidate → TeamPolicyEvaluation
  unfolding effect_of matched_of
  evaluate_team_policy p c =
      if is_named p.denied_adapters c.adapter_id
      then denied_result p c "adapter_denied_by_policy" "TEAM_POLICY_ADAPTER_DENIED"
      else if not (lists p.allowed_adapters c.adapter_id)
      then denied_result p c "adapter_not_in_allowed_list" "TEAM_POLICY_ADAPTER_NOT_ALLOWED"
      else evaluated p c

pub merge_denied : Option (List String) → Option (List String) → Option (List String)
merge_denied none none = none
merge_denied a b = some (dedup (get_or a [] ++ get_or b []))

abbrev pub or_else {ℓ} : {A : Type ℓ} → Option A → Option A → Option A
or_else none b = b
or_else (some a) b = some a

pub apply_team_policy_to_constraints :
    TeamPolicy → AdapterPolicyConstraints → AdapterPolicyConstraints
unfolding merge_denied
apply_team_policy_to_constraints p base = record base {
  local_only = base.local_only || p.require_local_only;
  deny_data_collection = base.deny_data_collection || p.deny_data_collection;
  require_sandbox = base.require_sandbox || p.require_sandbox;
  require_proof_collection = base.require_proof_collection || p.require_proof_collection;
  max_risk_ceiling =
      if ltb (risk_order p.max_risk_ceiling) (risk_order base.max_risk_ceiling)
      then p.max_risk_ceiling
      else base.max_risk_ceiling;
  allowed_adapters = or_else p.allowed_adapters base.allowed_adapters;
  denied_adapters = merge_denied base.denied_adapters p.denied_adapters;
}

abbrev error_if : Bool → String → List String
error_if b code = if b then code ∷ [] else []

pub rule_errors : List TeamPolicyRule → List String
rule_errors [] = []
rule_errors (r ∷ rs) =
    let rest = rule_errors rs in
    error_if (r.rule_id == "") "rule_missing_id"
    ++ (error_if r.contains_raw_prompt ("rule_" & r.rule_id & "_raw_prompt")
        ++ (error_if r.contains_raw_secret ("rule_" & r.rule_id & "_raw_secret") ++ rest))

pub policy_errors : TeamPolicy → List String
policy_errors p =
    error_if (not (p.contract == "avorelo.teamPolicy.v1")) "invalid_contract"
    ++ (error_if (p.policy_id == "") "missing_policy_id"
        ++ (error_if (p.team_name == "") "missing_team_name"
            ++ (error_if p.model_may_decide "model_may_decide_must_be_false"
                ++ (error_if p.scanner_may_decide "scanner_may_decide_must_be_false"
                    ++ (error_if (not (p.final_decision_owner == "kernel/stop-continue-gate"))
                          "invalid_final_decision_owner"
                        ++ (error_if p.contains_raw_prompt "contains_raw_prompt_must_be_false"
                            ++ error_if p.contains_raw_secret
                                "contains_raw_secret_must_be_false"))))))

pub record Validation : Type 0 where
  pub valid : Bool
  pub errors : List String

unfoldable pub validate_team_policy : TeamPolicy → Validation
unfolding policy_errors rule_errors
validate_team_policy p =
    let errors = policy_errors p ++ rule_errors p.rules in
    record { valid = is_empty errors; errors = errors }
