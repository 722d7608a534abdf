-- ===== src/Routing/Types.antt =====
-- kernel/model-routing/types.ts, and the types of validation/model-routing/index.ts.
use avorelo.Common.{
  ℕ, zero, suc, String, ◌≡◌, refl, ◌↔◌, Bool, true, Option, List, Comparable, nat_beq, beq_of_code,
}

pub data Primitive : Type 0 where
  no_action no_connect deterministic_local_read deterministic_local_script : Primitive
  built_in_scanner scanner_adapter internal_skill manual_checklist llm_model_profile : Primitive
  mcp_tool browser_workflow direct_api human_approval stop_blocked : Primitive
  prepare_next_run_packet : Primitive

pub data ModelProfile : Type 0 where
  no_model cheap_classification standard_synthesis high_reasoning code_generation : ModelProfile
  security_sensitive_review privacy_sensitive_summary fallback_only : ModelProfile

abbrev pub profile_code : ModelProfile → ℕ
profile_code no_model = 0
profile_code cheap_classification = 1
profile_code standard_synthesis = 2
profile_code high_reasoning = 3
profile_code code_generation = 4
profile_code security_sensitive_review = 5
profile_code privacy_sensitive_summary = 6
profile_code fallback_only = 7

profile_decode : ℕ → ModelProfile
profile_decode zero = no_model
profile_decode (suc zero) = cheap_classification
profile_decode (suc (suc zero)) = standard_synthesis
profile_decode (suc (suc (suc zero))) = high_reasoning
profile_decode (suc (suc (suc (suc zero)))) = code_generation
profile_decode (suc (suc (suc (suc (suc zero))))) = security_sensitive_review
profile_decode (suc (suc (suc (suc (suc (suc zero)))))) = privacy_sensitive_summary
profile_decode _ = fallback_only

profile_decode-code : (p : ModelProfile) → profile_decode (profile_code p) ≡ p
unfolding profile_decode
profile_decode-code no_model = refl
profile_decode-code cheap_classification = refl
profile_decode-code standard_synthesis = refl
profile_decode-code high_reasoning = refl
profile_decode-code code_generation = refl
profile_decode-code security_sensitive_review = refl
profile_decode-code privacy_sensitive_summary = refl
profile_decode-code fallback_only = refl

pub profile_beq_iff :
    (a b : ModelProfile) → (nat_beq (profile_code a) (profile_code b) ≡ true) ↔ (a ≡ b)
profile_beq_iff a b = beq_of_code profile_code profile_decode profile_decode-code a b

instance abbrev pub profile_eq : Comparable ModelProfile
profile_eq = record {
  equal = λ a b. nat_beq (profile_code a) (profile_code b);
  equal_iff = profile_beq_iff;
}

pub data RiskLevel : Type 0 where
  low medium high : RiskLevel

pub data CostClass : Type 0 where
  free cheap standard expensive : CostClass

-- `moderate` is the source's "standard", a name that the cost classes have.
pub data LatencyClass : Type 0 where
  instant fast moderate slow : LatencyClass

pub data ProviderClass : Type 0 where
  no_provider local cloud_zdr cloud_standard : ProviderClass

pub data DataPolicy : Type 0 where
  no_training zdr training_included : DataPolicy

-- `Infinity` or a number of tokens.
pub data Window : Type 0 where
  unbounded : Window
  tokens : ℕ → Window

pub record ContextSignals : Type 0 where
  pub estimated_tokens : ℕ
  pub requires_vision : Bool
  pub requires_tool_use : Bool
  pub requires_json_output : Bool
  pub requires_reasoning : Bool

pub record ProviderConstraints : Type 0 where
  pub local_only : Bool
  pub deny_data_collection : Bool
  pub require_vision : Bool
  pub require_tool_support : Bool
  pub require_json_output : Bool
  pub max_cost_class : CostClass
  pub allowed_providers : Option (List String)
  pub denied_providers : Option (List String)

pub record ModelCapability : Type 0 where
  pub model_id : String
  pub display_name : String
  pub provider : String
  pub provider_class : ProviderClass
  pub context_window : Window
  pub cost_class : CostClass
  pub latency_class : LatencyClass
  pub supports_vision : Bool
  pub supports_tool_use : Bool
  pub supports_json_output : Bool
  pub supports_reasoning : Bool
  pub data_policy : DataPolicy
  pub profiles : List ModelProfile
  pub enabled : Bool

pub record ProviderHealth : Type 0 where
  pub provider : String
  pub healthy : Bool
  pub last_error : Option String
  pub cooldown_until : ℕ
  pub consecutive_failures : ℕ

pub data ResolverStatus : Type 0 where
  no_model_needed deterministic_only resolved no_safe_candidate blocked : ResolverStatus
  approval_required fallback_used : ResolverStatus

pub record ResolverResult : Type 0 where
  pub status : ResolverStatus
  pub selected_model : Option ModelCapability
  pub fallback_chain : List ModelCapability
  pub reason_codes : List String

pub record ModelRoutingProjection : Type 0 where
  pub selected_primitive : Primitive
  pub selected_model_profile : ModelProfile
  pub resolver_status : ResolverStatus
  pub provider_class : ProviderClass
  pub fallback_plan : List String
  pub verifier_plan : List String
  pub reason_codes : List String
  pub forbidden_actions : List String
  pub model_may_assist : Bool
  pub model_may_decide : Bool
  pub scanner_may_decide : Bool
  pub final_decision_owner : String
  pub contains_raw_prompt : Bool
  pub contains_raw_source : Bool
  pub contains_raw_secret : Bool

pub record RoutingTaskFrame : Type 0 where
  pub task_type : String
  pub risk_class : RiskLevel
  pub touched_layers : List String
  pub browser_available : Bool
  pub external_tools_allowed : Bool
  pub scanner_available : Bool
  pub mcp_touched : Bool
  pub payment_touched : Bool
  pub auth_touched : Bool
  pub cloud_touched : Bool
  pub dashboard_touched : Bool
  pub public_copy_touched : Bool
  pub proof_required : Bool
  pub deterministic_evidence_available : Bool
  pub data_sensitivity : RiskLevel
  pub external_write_requested : Bool
  pub secrets_possible : Bool
  pub production_impact_possible : Bool
  pub deep_mode : Bool

abbrev pub is_high : RiskLevel → Bool
is_high high = true
is_high _ = Bool.false

abbrev pub is_low : RiskLevel → Bool
is_low low = true
is_low _ = Bool.false

abbrev pub is_no_model : ModelProfile → Bool
is_no_model no_model = true
is_no_model _ = Bool.false
