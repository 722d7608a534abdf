-- ===== src/Routing/Resolver.antt =====
-- kernel/model-routing/resolver.ts: unsafe and unfit models are filtered out, and the cheapest of
-- the rest is selected. The clock is an argument, used where the input gives no time.
pub mod Filters
pub mod Selection
use avorelo.Common.{
  ℕ, ◌+◌, ◌*◌, String, Bool, true, false, not, ◌&&◌, ◌||◌, Option, none, some, List, [], ◌∷◌, ◌++◌,
  filter, is_empty, contains, get_or, if◌then◌else◌, ltb, leb, ◌==◌, string_eq, nat_eq, sort_by,
}
use avorelo.Routing.Types.{
  ModelProfile, profile_eq, no_model, security_sensitive_review, privacy_sensitive_summary,
  is_no_model, ProviderConstraints, ContextSignals, ModelCapability, CostClass, free, cheap,
  standard, expensive, LatencyClass, instant, fast, moderate, slow, ProviderClass, local,
  DataPolicy, training_included, Window, unbounded, tokens, ResolverResult, no_model_needed,
  blocked, no_safe_candidate, resolved,
}
use avorelo.Routing.Registry.{get_models_for_profile, get_enabled_models}
use avorelo.Routing.Providers.{HealthMap, is_provider_available}

pub record ResolveInput : Type 0 where
  pub profile : ModelProfile
  pub provider_constraints : ProviderConstraints
  pub context_signals : ContextSignals
  pub approval_policy : String
  pub now : Option ℕ

abbrev pub cost_rank : CostClass → ℕ
cost_rank free = 0
cost_rank cheap = 1
cost_rank standard = 2
cost_rank expensive = 3

abbrev pub latency_rank : LatencyClass → ℕ
latency_rank instant = 0
latency_rank fast = 1
latency_rank moderate = 2
latency_rank slow = 3

-- The comparator: cheapest first, then fastest.
abbrev pub cheaper : ModelCapability → ModelCapability → Bool
cheaper a b =
    if cost_rank a.cost_class == cost_rank b.cost_class
    then leb (latency_rank a.latency_class) (latency_rank b.latency_class)
    else leb (cost_rank a.cost_class) (cost_rank b.cost_class)

abbrev pub is_local : ProviderClass → Bool
is_local local = true
is_local _ = false

abbrev pub trains_on_data : DataPolicy → Bool
trains_on_data training_included = true
trains_on_data _ = false

abbrev pub fits : ℕ → Window → Bool
fits n unbounded = true
fits n (tokens m) = leb n m

abbrev pub force_data_protection : ResolveInput → Bool
force_data_protection i =
    i.provider_constraints.deny_data_collection
    || contains (security_sensitive_review ∷ privacy_sensitive_summary ∷ []) i.profile

abbrev pub needs_vision : ResolveInput → Bool
needs_vision i = i.provider_constraints.require_vision || i.context_signals.requires_vision

abbrev pub needs_tools : ResolveInput → Bool
needs_tools i = i.provider_constraints.require_tool_support || i.context_signals.requires_tool_use

abbrev pub needs_json : ResolveInput → Bool
needs_json i = i.provider_constraints.require_json_output || i.context_signals.requires_json_output

-- `if (b) candidates = candidates.filter(p)`
abbrev pub filter_if {ℓ} : {A : Type ℓ} → Bool → (A → Bool) → List A → List A
filter_if b p ms = if b then filter p ms else ms

abbrev filter_by {ℓ κ} : {A : Type ℓ} {B : Type κ} → Option B → (B → A → Bool) → List A → List A
filter_by none p ms = ms
filter_by (some b) p ms = filter (p b) ms

-- The candidates before any filter.
pub initial : List ModelCapability → ModelProfile → List ModelCapability
unfolding get_models_for_profile get_enabled_models
initial models profile =
    let own = get_models_for_profile models profile in
    if is_empty own
    then filter (λ m. not (is_empty m.profiles)) (get_enabled_models models)
    else own

-- The filters on privacy and providers.
pub private_candidates : ResolveInput → List ModelCapability → List ModelCapability
private_candidates i ms =
    let c = i.provider_constraints in
    filter_by c.denied_providers (λ names m. not (contains names m.provider))
      (filter_by c.allowed_providers (λ names m. contains names m.provider)
        (filter_if (force_data_protection i) (λ m. not (trains_on_data m.data_policy))
          (filter_if c.local_only (λ m. is_local m.provider_class) ms)))

-- The filters on capabilities and the context window.
pub capable_candidates : ResolveInput → List ModelCapability → List ModelCapability
capable_candidates i ms =
    let tokens = i.context_signals.estimated_tokens in
    filter_if (ltb 0 tokens) (λ m. fits tokens m.context_window)
      (filter_if (needs_json i) (λ m. m.supports_json_output)
        (filter_if (needs_tools i) (λ m. m.supports_tool_use)
          (filter_if (needs_vision i) (λ m. m.supports_vision) ms)))

-- The filter on the cost ceiling.
pub affordable_candidates : ResolveInput → List ModelCapability → List ModelCapability
affordable_candidates i =
    filter λ m. leb (cost_rank m.cost_class) (cost_rank i.provider_constraints.max_cost_class)

-- The filter on provider health, which asks, and so may restore, one provider after the other.
pub healthy_candidates : HealthMap → ℕ → List ModelCapability → List ModelCapability × HealthMap
healthy_candidates health t [] = ([], health)
healthy_candidates health t (m ∷ ms) =
    let (ok, asked) = is_provider_available health m.provider t in
    let (rest, done) = healthy_candidates asked t ms in (if ok then m ∷ rest else rest, done)

-- The reason codes pushed before the health filter.
pub filter_codes : List ModelCapability → ResolveInput → List String
unfolding private_candidates capable_candidates initial get_models_for_profile
filter_codes models i =
    (if i.approval_policy == "require_manual_review" || i.approval_policy == "require_confirmation"
      then "APPROVAL_REQUIRED" ∷ []
      else [])
    ++ ((if is_empty (get_models_for_profile models i.profile)
          then "PROFILE_FALLBACK_TO_ALL" ∷ []
          else [])
        ++ ((if i.provider_constraints.local_only then "LOCAL_ONLY_FILTER" ∷ [] else [])
            ++ ((if force_data_protection i
                  then (if i.provider_constraints.deny_data_collection
                      then "DENY_DATA_COLLECTION_FILTER"
                      else "SENSITIVE_PROFILE_DATA_PROTECTION")
                    ∷ []
                  else [])
                ++ ((if needs_vision i then "VISION_REQUIRED_FILTER" ∷ [] else [])
                    ++ (if ltb 0 i.context_signals.estimated_tokens
                          && is_empty (
                              capable_candidates i
                                (private_candidates i (initial models i.profile)))
                        then "CONTEXT_WINDOW_TOO_SMALL" ∷ []
                        else [])))))

abbrev none_selected : List String → ResolverResult
none_selected codes = record {
  status = no_safe_candidate;
  selected_model = none;
  fallback_chain = [];
  reason_codes = codes ++ "NO_CANDIDATES_AFTER_FILTERING" ∷ [];
}

-- The sorted candidates: the first is selected, the others are its fallbacks.
pub select : List String → List ModelCapability → ResolverResult
select codes [] = none_selected codes
select codes (m ∷ ms) = record {
  status = resolved;
  selected_model = some m;
  fallback_chain = ms;
  reason_codes = codes ++ "RESOLVED_CHEAPEST_SAFE" ∷ [];
}

-- The candidates after every filter, and the health map as the filter leaves it.
pub candidates :
    List ModelCapability → HealthMap → ℕ → ResolveInput → List ModelCapability × HealthMap
unfolding initial private_candidates capable_candidates affordable_candidates healthy_candidates
candidates models health clock i = healthy_candidates health (get_or i.now clock) (
    affordable_candidates i
      (capable_candidates i (private_candidates i (initial models i.profile))))

-- A registry is an argument; the program's own is `Registry.registry`.
unfoldable pub resolve_model :
    List ModelCapability → HealthMap → ℕ → ResolveInput → ResolverResult × HealthMap
unfolding candidates filter_codes select
resolve_model models health clock i =
    if is_no_model i.profile
    then (
      record {
        status = no_model_needed;
        selected_model = none;
        fallback_chain = [];
        reason_codes = "NO_MODEL_PROFILE" ∷ [];
      },
      health,
    )
    else if i.approval_policy == "blocked"
    then (
      record {
        status = blocked;
        selected_model = none;
        fallback_chain = [];
        reason_codes = "STOP_BLOCKED_BY_POLICY" ∷ [];
      },
      health,
    )
    else (let (ms, done) = candidates models health clock i in
        (select (filter_codes models i) (sort_by cheaper ms), done))
