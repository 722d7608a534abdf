-- ===== src/Routing/Providers.antt =====
-- kernel/model-routing/provider-registry.ts: provider health and cooldown. The map of the module is
-- the state, passed and returned; a time is an argument. Times and delays are non-negative.
pub mod Cooldown
use avorelo.Common.{
  ℕ, ◌+◌, String, Bool, true, false, not, ◌&&◌, Option, none, some, List, [], ◌∷◌, if◌then◌else◌,
  ltb, leb, ◌==◌, string_eq,
}
use avorelo.Routing.Types.{ProviderHealth}

-- `Map<string, ProviderHealth>`: the first entry for a name counts.
abbrev pub HealthMap : Type 0
HealthMap = List (String × ProviderHealth)

pub get : HealthMap → String → Option ProviderHealth
get [] p = none
get ((q, h) ∷ m) p = if q == p then some h else get m p

pub set : HealthMap → String → ProviderHealth → HealthMap
set [] p h = (p, h) ∷ []
set ((q, g) ∷ m) p h = if q == p then (p, h) ∷ m else (q, g) ∷ set m p h

pub default_health : String → ProviderHealth
default_health p = record {
  provider = p;
  healthy = true;
  last_error = none;
  cooldown_until = 0;
  consecutive_failures = 0;
}

unfoldable pub get_provider_health : HealthMap → String → ProviderHealth
unfolding get default_health
get_provider_health m p = elim (get m p) [ none ↦ default_health p | some h ↦ h ]

-- The entry after a query: an unhealthy provider whose cooldown has passed is restored.
pub recover : ℕ → ProviderHealth → ProviderHealth
recover t h =
    if not h.healthy && leb h.cooldown_until t
    then record h { healthy = true; consecutive_failures = 0; last_error = none }
    else h

-- The answer, and the map as the query leaves it, by the entry that it finds.
pub query : Option ProviderHealth → HealthMap → String → ℕ → Bool × HealthMap
query none m p t = (true, m)
query (some h) m p t =
    if not h.healthy && ltb t h.cooldown_until
    then (false, m)
    else ((recover t h).healthy, set m p (recover t h))

unfoldable pub is_provider_available : HealthMap → String → ℕ → Bool × HealthMap
unfolding query get set recover
is_provider_available m p t = query (get m p) m p t

unfoldable pub mark_provider_unhealthy : HealthMap → String → String → ℕ → ℕ → HealthMap
unfolding get_provider_health set
mark_provider_unhealthy m p error cooldown t =
    let h = get_provider_health m p in
    set m p (record h {
      healthy = false;
      last_error = some error;
      cooldown_until = t + cooldown;
      consecutive_failures = h.consecutive_failures + 1;
    })

unfoldable pub mark_provider_healthy : HealthMap → String → HealthMap
unfolding get_provider_health set
mark_provider_healthy m p =
    let h = get_provider_health m p in
    set m p
      (record h { healthy = true; last_error = none; cooldown_until = 0; consecutive_failures = 0 })

unfoldable pub reset_all_health : HealthMap
reset_all_health = []
