-- ===== src/ToolAdapters/Policies.antt =====
-- kernel/tool-adapters/policies.ts: which adapter a task class may use, and which fallback is safe.
pub mod Fallback
use avorelo.Common.{
  ℕ, String, Bool, true, false, not, ◌&&◌, ◌||◌, Option, none, some, List, [], ◌∷◌, contains,
  string_eq, get_or, if◌then◌else◌, ltb, ◌==◌,
}
use avorelo.ToolAdapters.Types.{RiskCeiling, low, medium, high, critical, AdapterPolicyConstraints}

unfoldable pub default_policy_constraints : AdapterPolicyConstraints
default_policy_constraints = record {
  local_only = false;
  deny_data_collection = true;
  require_sandbox = false;
  require_proof_collection = true;
  max_risk_ceiling = high;
  allowed_adapters = none;
  denied_adapters = none;
  preference_order =
      "deterministic-local" ∷ "scanner" ∷ "semgrep" ∷ "playwright-proof" ∷ "github-actions"
      ∷ "claude-code" ∷ "codex" ∷ "gemini-cli" ∷ "aider" ∷ "manual-gate" ∷ [];
  allow_fallback = true;
  fallback_cannot_lower_privacy = true;
  fallback_cannot_lower_proof = true;
}

abbrev pub risk_rank : RiskCeiling → ℕ
risk_rank low = 0
risk_rank medium = 1
risk_rank high = 2
risk_rank critical = 3

-- The members that every object inherits from `Object.prototype`.
abbrev inherited_names : List String
inherited_names =
    "constructor" ∷ "hasOwnProperty" ∷ "isPrototypeOf" ∷ "propertyIsEnumerable" ∷ "toLocaleString"
    ∷ "toString" ∷ "valueOf" ∷ "__proto__" ∷ "__defineGetter__" ∷ "__defineSetter__"
    ∷ "__lookupGetter__" ∷ "__lookupSetter__" ∷ []

abbrev pub is_inherited : String → Bool
is_inherited p = contains inherited_names p

-- What the table of ranks holds under a text: a number, or the inherited member of that name.
pub data Rank : Type 0 where
  number : ℕ → Rank
  member : String → Rank

-- A data policy is a text, and one that the table does not have has no rank.
abbrev pub data_policy_rank : String → Option Rank
data_policy_rank p =
    if p == "local_only"
    then some (number 0)
    else if p == "zdr"
    then some (number 1)
    else if p == "no_training"
    then some (number 2)
    else if p == "training_included"
    then some (number 3)
    else if is_inherited p
    then some (member p)
    else none

abbrev is_outside : Option (List String) → String → Bool
is_outside none id = false
is_outside (some ids) id = not (contains ids id)

abbrev is_within : Option (List String) → String → Bool
is_within none id = false
is_within (some ids) id = contains ids id

unfoldable pub is_adapter_allowed : String → AdapterPolicyConstraints → Bool
is_adapter_allowed id c =
    if is_outside c.allowed_adapters id
    then false
    else if is_within c.denied_adapters id
    then false
    else true

pub record FallbackTarget : Type 0 where
  pub data_policy : String
  pub risk_ceiling : RiskCeiling

-- `>` on ranks. A member is no number, so that it is neither above nor below one. Two members are
-- compared by their texts, which the engine chooses: `member_above` is a parameter.
module _ (member_above : String → String → Bool) where
  abbrev pub is_above : Rank → Rank → Bool
  is_above (number m) (number n) = ltb n m
  is_above (number m) (member n) = false
  is_above (member m) (number n) = false
  is_above (member m) (member n) = member_above m n

  unfoldable pub is_fallback_safe :
      FallbackTarget → FallbackTarget → AdapterPolicyConstraints → Bool
  is_fallback_safe old next c =
      if c.fallback_cannot_lower_privacy
        && is_above (get_or (data_policy_rank next.data_policy) (number 3))
            (get_or (data_policy_rank old.data_policy) (number 0))
      then false
      else if c.fallback_cannot_lower_proof
          && ltb (risk_rank old.risk_ceiling) (risk_rank next.risk_ceiling)
      then false
      else true

pub data TaskClass : Type 0 where
  deterministic_check low_risk_code code_review security_review browser_proof : TaskClass
  ci_review billing_payment production_deploy long_context_refactor unknown : TaskClass

-- The two optional flags are false where they are missing.
pub record TaskFlags : Type 0 where
  pub payment_touched : Bool
  pub auth_touched : Bool
  pub production_impact_possible : Bool
  pub deterministic_evidence_available : Bool
  pub deep_mode : Bool
  pub browser_proof_requested : Option Bool
  pub ci_verification_requested : Option Bool

pub classify_task : String → String → TaskFlags → TaskClass
classify_task task_type risk_class flags =
    if flags.production_impact_possible
    then production_deploy
    else if flags.payment_touched
    then billing_payment
    else if flags.auth_touched || risk_class == "high"
    then security_review
    else if get_or flags.ci_verification_requested false
    then ci_review
    else if get_or flags.browser_proof_requested false
    then browser_proof
    else if flags.deterministic_evidence_available
    then deterministic_check
    else if flags.deep_mode
    then long_context_refactor
    else if task_type == "code_generation" || task_type == "code"
    then low_risk_code
    else if task_type == "code_review"
    then code_review
    else unknown

-- The constraints that a task class sets; the others are missing.
pub record TaskClassPolicy : Type 0 where
  pub preference_order : List String
  pub max_risk_ceiling : Option RiskCeiling
  pub require_proof_collection : Option Bool
  pub allow_fallback : Option Bool

abbrev prefer : List String → TaskClassPolicy
prefer order = record {
  preference_order = order;
  max_risk_ceiling = none;
  require_proof_collection = none;
  allow_fallback = none;
}

abbrev prefer_with_proof : List String → TaskClassPolicy
prefer_with_proof order = record (prefer order) { require_proof_collection = some true }

pub get_task_class_policy : TaskClass → TaskClassPolicy
get_task_class_policy deterministic_check =
    record (prefer ("deterministic-local" ∷ "scanner" ∷ "manual-gate" ∷ [])) {
      max_risk_ceiling = some low;
    }
get_task_class_policy low_risk_code =
    prefer (
      "claude-code" ∷ "codex" ∷ "gemini-cli" ∷ "aider" ∷ "deterministic-local" ∷ "manual-gate" ∷ [])
get_task_class_policy code_review =
    prefer
      ("codex" ∷ "claude-code" ∷ "gemini-cli" ∷ "github-actions" ∷ "scanner" ∷ "manual-gate" ∷ [])
get_task_class_policy security_review =
    prefer_with_proof ("semgrep" ∷ "scanner" ∷ "manual-gate" ∷ "claude-code" ∷ "codex" ∷ [])
get_task_class_policy browser_proof =
    prefer_with_proof ("playwright-proof" ∷ "manual-gate" ∷ "deterministic-local" ∷ [])
get_task_class_policy ci_review =
    prefer_with_proof ("github-actions" ∷ "manual-gate" ∷ "deterministic-local" ∷ [])
get_task_class_policy billing_payment =
    prefer_with_proof ("semgrep" ∷ "scanner" ∷ "manual-gate" ∷ "deterministic-local" ∷ [])
get_task_class_policy production_deploy =
    record (prefer ("manual-gate" ∷ "deterministic-local" ∷ [])) {
      max_risk_ceiling = some critical;
      allow_fallback = some false;
    }
get_task_class_policy long_context_refactor =
    prefer (
      "claude-code" ∷ "codex" ∷ "gemini-cli" ∷ "aider" ∷ "deterministic-local" ∷ "manual-gate" ∷ [])
get_task_class_policy unknown =
    prefer ("deterministic-local" ∷ "scanner" ∷ "semgrep" ∷ "manual-gate" ∷ [])
