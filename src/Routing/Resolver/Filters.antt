-- ===== src/Routing/Resolver/Filters.antt =====
-- The chain of filters of kernel/model-routing/resolver.ts, and what a model must meet.
use mathlib.Core.Path.{fun_ext}
use native.Mathlib.Nat.{le_refl}
use avorelo.Common.{
  ℕ, String, ◌≡◌, refl, sym, ap, ◌∙◌, Bool, true, false, not, ◌&&◌, ◌||◌, Option, none, some, List,
  [], ◌∷◌, filter, contains, get_or, if◌then◌else◌, ltb, leb, string_eq, filter-filter, filter-true,
}
use avorelo.Routing.Types.{ModelCapability}
use avorelo.Routing.Providers.{HealthMap, is_provider_available}
use avorelo.Routing.Providers.Cooldown.{is_provider_available-query}
use avorelo.Routing.Resolver.{
  ResolveInput, cost_rank, is_local, trains_on_data, fits, force_data_protection, needs_vision,
  needs_tools, needs_json, filter_if, filter_by, initial, private_candidates, capable_candidates,
  affordable_candidates, healthy_candidates, candidates,
}

filter_if-eq_filter {ℓ} :
    {A : Type ℓ} (b : Bool) (p : A → Bool) (xs : List A)
    → filter_if b p xs ≡ filter (λ x. not b || p x) xs
filter_if-eq_filter true p xs = refl
filter_if-eq_filter false p xs = sym (filter-true xs)

abbrev passes_by {ℓ κ} : {A : Type ℓ} {B : Type κ} → Option B → (B → A → Bool) → A → Bool
passes_by none p a = true
passes_by (some b) p a = p b a

filter_by-eq_filter {ℓ κ} :
    {A : Type ℓ} {B : Type κ} (o : Option B) (p : B → A → Bool) (xs : List A)
    → filter_by o p xs ≡ filter (passes_by o p) xs
filter_by-eq_filter none p xs = sym (filter-true xs)
filter_by-eq_filter (some b) p xs = refl

-- One filter after another.
filter-then {ℓ} :
    {A : Type ℓ} (p q : A → Bool) (xs : List A) {ys zs : List A}
    → ys ≡ filter p xs
    → zs ≡ filter q ys
    → zs ≡ filter (λ x. p x && q x) xs
filter-then p q xs first next = next ∙ ap (filter q) first ∙ filter-filter p q xs

-- The tests of the filters, in their order.
module _ (i : ResolveInput) where
  abbrev allowed_test : List String → ModelCapability → Bool
  allowed_test names m = contains names m.provider

  abbrev denied_test : List String → ModelCapability → Bool
  denied_test names m = not (contains names m.provider)

  abbrev is_local_enough : ModelCapability → Bool
  is_local_enough m = not i.provider_constraints.local_only || is_local m.provider_class

  abbrev is_protected : ModelCapability → Bool
  is_protected m = not (force_data_protection i) || not (trains_on_data m.data_policy)

  abbrev is_allowed : ModelCapability → Bool
  is_allowed = passes_by i.provider_constraints.allowed_providers allowed_test

  abbrev is_not_denied : ModelCapability → Bool
  is_not_denied = passes_by i.provider_constraints.denied_providers denied_test

  abbrev is_private : ModelCapability → Bool
  is_private m = ((is_local_enough m && is_protected m) && is_allowed m) && is_not_denied m

  abbrev sees : ModelCapability → Bool
  sees m = not (needs_vision i) || m.supports_vision

  abbrev uses_tools : ModelCapability → Bool
  uses_tools m = not (needs_tools i) || m.supports_tool_use

  abbrev writes_json : ModelCapability → Bool
  writes_json m = not (needs_json i) || m.supports_json_output

  abbrev is_wide_enough : ModelCapability → Bool
  is_wide_enough m =
      not (ltb 0 i.context_signals.estimated_tokens)
      || fits i.context_signals.estimated_tokens m.context_window

  abbrev is_capable : ModelCapability → Bool
  is_capable m = ((sees m && uses_tools m) && writes_json m) && is_wide_enough m

  abbrev is_affordable : ModelCapability → Bool
  is_affordable m = leb (cost_rank m.cost_class) (cost_rank i.provider_constraints.max_cost_class)

  private-eq_filter : (ms : List ModelCapability) → private_candidates i ms ≡ filter is_private ms
  unfolding private_candidates
  private-eq_filter ms =
      let c = i.provider_constraints in
      filter-then (λ m. (is_local_enough m && is_protected m) && is_allowed m) is_not_denied ms
        (filter-then (λ m. is_local_enough m && is_protected m) is_allowed ms
          (filter-then is_local_enough is_protected ms
            (filter_if-eq_filter c.local_only (λ m. is_local m.provider_class) ms)
            (filter_if-eq_filter (force_data_protection i) (λ m. not (trains_on_data m.data_policy))
              _))
          (filter_by-eq_filter c.allowed_providers allowed_test _))
        (filter_by-eq_filter c.denied_providers denied_test _)

  capable-eq_filter : (ms : List ModelCapability) → capable_candidates i ms ≡ filter is_capable ms
  unfolding capable_candidates
  capable-eq_filter ms =
      let tokens = i.context_signals.estimated_tokens in
      filter-then (λ m. (sees m && uses_tools m) && writes_json m) is_wide_enough ms
        (filter-then (λ m. sees m && uses_tools m) writes_json ms
          (filter-then sees uses_tools ms
            (filter_if-eq_filter (needs_vision i) (λ m. m.supports_vision) ms)
            (filter_if-eq_filter (needs_tools i) (λ m. m.supports_tool_use) _))
          (filter_if-eq_filter (needs_json i) (λ m. m.supports_json_output) _))
        (filter_if-eq_filter (ltb 0 tokens) (λ m. fits tokens m.context_window) _)

module _ (t : ℕ) where
  abbrev is_healthy : HealthMap → ModelCapability → Bool
  is_healthy health m = (is_provider_available health m.provider t).0

  -- Asking one provider leaves the answers about all models.
  is_healthy-asked :
      (health : HealthMap) (p : String)
      → is_healthy (is_provider_available health p t).1 ≡ is_healthy health
  is_healthy-asked health p =
      fun_ext λ m. is_provider_available-query health p m.provider t t (le_refl t)

  healthy-eq_filter :
      (ms : List ModelCapability) (health : HealthMap)
      → (healthy_candidates health t ms).0 ≡ filter (is_healthy health) ms
  unfolding healthy_candidates
  healthy-eq_filter [] health = refl
  healthy-eq_filter (m ∷ ms) health =
      let asked = (is_provider_available health m.provider t).1 in
      ap (λ rest. if is_healthy health m then m ∷ rest else rest)
        (healthy-eq_filter ms asked ∙ ap (λ p. filter p ms) (is_healthy-asked health m.provider))

-- The whole test of a model.
abbrev pub is_safe : HealthMap → ℕ → ResolveInput → ModelCapability → Bool
is_safe health clock i m =
    ((is_private i m && is_capable i m) && is_affordable i m)
    && is_healthy (get_or i.now clock) health m

-- What the selection is made from: the initial candidates that pass every test.
pub candidates-eq_filter :
    (models : List ModelCapability) (health : HealthMap) (clock : ℕ) (i : ResolveInput)
    → (candidates models health clock i).0
      ≡ filter (is_safe health clock i) (initial models i.profile)
unfolding candidates affordable_candidates
candidates-eq_filter models health clock i =
    let start = initial models i.profile in
    let t = get_or i.now clock in
    filter-then (λ m. (is_private i m && is_capable i m) && is_affordable i m) (is_healthy t health)
      start
      (filter-then (λ m. is_private i m && is_capable i m) (is_affordable i) start
        (filter-then (is_private i) (is_capable i) start (private-eq_filter i start)
          (capable-eq_filter i (private_candidates i start)))
        refl)
      (healthy-eq_filter t
        (affordable_candidates i (capable_candidates i (private_candidates i start))) health)
