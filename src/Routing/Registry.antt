-- ===== src/Routing/Registry.antt =====
-- kernel/model-routing/model-registry.ts: the registry, and its look-ups over any registry.
use avorelo.Common.{
  String, Bool, true, false, ◌&&◌, Option, List, [], ◌∷◌, filter, find, contains, ◌==◌, string_eq,
}
use avorelo.Routing.Types.{
  ModelCapability, ModelProfile, profile_eq, no_model, cheap_classification, standard_synthesis,
  high_reasoning, code_generation, security_sensitive_review, fallback_only, unbounded, tokens,
  local, cloud_zdr, cloud_standard, free, cheap, standard, expensive, instant, fast, slow,
  no_training, zdr, training_included, ProviderClass,
}

abbrev pub local_deterministic : ModelCapability
local_deterministic = record {
  model_id = "local/deterministic";
  display_name = "Local Deterministic";
  provider = "local";
  provider_class = local;
  context_window = unbounded;
  cost_class = free;
  latency_class = instant;
  supports_vision = false;
  supports_tool_use = false;
  supports_json_output = true;
  supports_reasoning = false;
  data_policy = no_training;
  profiles = no_model ∷ cheap_classification ∷ [];
  enabled = true;
}

abbrev pub local_scanner : ModelCapability
local_scanner = record {
  model_id = "local/scanner";
  display_name = "Local Scanner";
  provider = "local";
  provider_class = local;
  context_window = unbounded;
  cost_class = free;
  latency_class = instant;
  supports_vision = false;
  supports_tool_use = false;
  supports_json_output = true;
  supports_reasoning = false;
  data_policy = no_training;
  profiles = cheap_classification ∷ security_sensitive_review ∷ [];
  enabled = true;
}

abbrev pub claude_sonnet : ModelCapability
claude_sonnet = record {
  model_id = "cloud/claude-sonnet";
  display_name = "Claude Sonnet";
  provider = "anthropic";
  provider_class = cloud_zdr;
  context_window = tokens 200_000;
  cost_class = standard;
  latency_class = fast;
  supports_vision = true;
  supports_tool_use = true;
  supports_json_output = true;
  supports_reasoning = true;
  data_policy = zdr;
  profiles = standard_synthesis ∷ code_generation ∷ cheap_classification ∷ [];
  enabled = true;
}

abbrev pub claude_opus : ModelCapability
claude_opus = record {
  model_id = "cloud/claude-opus";
  display_name = "Claude Opus";
  provider = "anthropic";
  provider_class = cloud_zdr;
  context_window = tokens 200_000;
  cost_class = expensive;
  latency_class = slow;
  supports_vision = true;
  supports_tool_use = true;
  supports_json_output = true;
  supports_reasoning = true;
  data_policy = zdr;
  profiles = high_reasoning ∷ security_sensitive_review ∷ code_generation ∷ [];
  enabled = true;
}

abbrev pub claude_haiku : ModelCapability
claude_haiku = record {
  model_id = "cloud/claude-haiku";
  display_name = "Claude Haiku";
  provider = "anthropic";
  provider_class = cloud_zdr;
  context_window = tokens 200_000;
  cost_class = cheap;
  latency_class = fast;
  supports_vision = true;
  supports_tool_use = true;
  supports_json_output = true;
  supports_reasoning = false;
  data_policy = zdr;
  profiles = cheap_classification ∷ standard_synthesis ∷ fallback_only ∷ [];
  enabled = true;
}

abbrev pub gpt_4o : ModelCapability
gpt_4o = record {
  model_id = "cloud/gpt-4o";
  display_name = "GPT-4o";
  provider = "openai";
  provider_class = cloud_standard;
  context_window = tokens 128_000;
  cost_class = standard;
  latency_class = fast;
  supports_vision = true;
  supports_tool_use = true;
  supports_json_output = true;
  supports_reasoning = true;
  data_policy = training_included;
  profiles = standard_synthesis ∷ code_generation ∷ [];
  enabled = true;
}

abbrev pub gpt_4o_mini : ModelCapability
gpt_4o_mini = record {
  model_id = "cloud/gpt-4o-mini";
  display_name = "GPT-4o Mini";
  provider = "openai";
  provider_class = cloud_standard;
  context_window = tokens 128_000;
  cost_class = cheap;
  latency_class = fast;
  supports_vision = true;
  supports_tool_use = true;
  supports_json_output = true;
  supports_reasoning = false;
  data_policy = training_included;
  profiles = cheap_classification ∷ fallback_only ∷ [];
  enabled = true;
}

abbrev pub registry : List ModelCapability
registry =
    local_deterministic ∷ local_scanner ∷ claude_sonnet ∷ claude_opus ∷ claude_haiku ∷ gpt_4o
    ∷ gpt_4o_mini ∷ []

abbrev is_local : ProviderClass → Bool
is_local local = true
is_local _ = false

module _ (models : List ModelCapability) where
  unfoldable pub get_model : String → Option ModelCapability
  get_model id = find (λ m. m.model_id == id) models

  unfoldable pub get_models_for_profile : ModelProfile → List ModelCapability
  get_models_for_profile profile = filter (λ m. m.enabled && contains m.profiles profile) models

  unfoldable pub get_local_models : List ModelCapability
  get_local_models = filter (λ m. m.enabled && is_local m.provider_class) models

  unfoldable pub get_enabled_models : List ModelCapability
  get_enabled_models = filter (λ m. m.enabled) models
