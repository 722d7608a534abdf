-- ===== src/Routing/Defaults.antt =====
-- The defaults of kernel/model-routing/index.ts, under the partial inputs laid over them.
use avorelo.Common.{ℕ, String, Bool, false, Option, none, List, get_or}
use avorelo.Routing.Types.{ProviderConstraints, ContextSignals, CostClass, standard}

-- `Partial<ProviderConstraints>`; a missing key is `none`.
pub record PartialConstraints : Type 0 where
  pub local_only : Option Bool
  pub deny_data_collection : Option Bool
  pub require_vision : Option Bool
  pub require_tool_support : Option Bool
  pub require_json_output : Option Bool
  pub max_cost_class : Option CostClass
  pub allowed_providers : Option (Option (List String))
  pub denied_providers : Option (Option (List String))

-- `Partial<ContextSignals>`
pub record PartialSignals : Type 0 where
  pub estimated_tokens : Option ℕ
  pub requires_vision : Option Bool
  pub requires_tool_use : Option Bool
  pub requires_json_output : Option Bool
  pub requires_reasoning : Option Bool

abbrev pub lay_constraints : PartialConstraints → ProviderConstraints
lay_constraints p = record {
  local_only = get_or p.local_only false;
  deny_data_collection = get_or p.deny_data_collection false;
  require_vision = get_or p.require_vision false;
  require_tool_support = get_or p.require_tool_support false;
  require_json_output = get_or p.require_json_output false;
  max_cost_class = get_or p.max_cost_class standard;
  allowed_providers = get_or p.allowed_providers none;
  denied_providers = get_or p.denied_providers none;
}

abbrev pub lay_signals : PartialSignals → ContextSignals
lay_signals p = record {
  estimated_tokens = get_or p.estimated_tokens 0;
  requires_vision = get_or p.requires_vision false;
  requires_tool_use = get_or p.requires_tool_use false;
  requires_json_output = get_or p.requires_json_output false;
  requires_reasoning = get_or p.requires_reasoning false;
}
