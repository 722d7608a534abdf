-- ===== src/Routing/Providers/Cooldown.antt =====
-- Availability over time.
use mathlib.Core.Path.{subst}
use avorelo.Common.{
  ℕ, ◌+◌, ◌≤◌, String, ◌≡◌, refl, Bool, true, false, ◌||◌, sym, ap, ◌∙◌, Option, none, some, [],
  ◌∷◌, if◌then◌else◌, leb, ◌==◌, string_eq, arith, eq_iff, Bool-cases, inl, inr,
}
use avorelo.Routing.Types.{ProviderHealth}
use avorelo.Routing.Providers.{
  HealthMap, get, set, get_provider_health, recover, query, is_provider_available,
  mark_provider_unhealthy,
}

get-set :
    (m : HealthMap) (p q : String) (h : ProviderHealth)
    → get (set m p h) q ≡ (if p == q then some h else get m q)
unfolding get set
get-set [] p q h = refl
get-set ((r, g) ∷ m) p q h = ground (arith, eq_iff r p, eq_iff r q, eq_iff p q, get-set m p q h)

-- The answer of a query, as a function of the entry alone.
available : Option ProviderHealth → ℕ → Bool
available none t = true
available (some h) t = h.healthy || leb h.cooldown_until t

query_answer :
    (o : Option ProviderHealth) (m : HealthMap) (p : String) (t : ℕ)
    → (query o m p t).0 ≡ available o t
unfolding query available recover
query_answer none m p t = refl
query_answer (some h) m p t = ground arith

answer-eq_available :
    (m : HealthMap) (p : String) (t : ℕ) → (is_provider_available m p t).0 ≡ available (get m p) t
unfolding is_provider_available
answer-eq_available m p t = query_answer (get m p) m p t

-- After a provider is marked unhealthy at time `now`, it is unavailable until its cooldown has
-- passed and available from then on; the answers for the others stay.
pub is_provider_available-mark_unhealthy :
    (m : HealthMap) (p error : String) (cooldown now : ℕ) (q : String) (t : ℕ)
    → (is_provider_available (mark_provider_unhealthy m p error cooldown now) q t).0
      ≡ (if p == q then leb (now + cooldown) t else (is_provider_available m q t).0)
unfolding mark_provider_unhealthy available
is_provider_available-mark_unhealthy m p error cooldown now q t =
    let h = record (get_provider_health m p) {
      healthy = false;
      last_error = some error;
      cooldown_until = now + cooldown;
      consecutive_failures = (get_provider_health m p).consecutive_failures + 1;
    } in
    answer-eq_available (set m p h) q t
    ∙ ap (λ o. available o t) (get-set m p q h)
    ∙ (available-if (p == q) h (get m q) t)
    ∙ ap (λ (b : Bool). if p == q then leb (now + cooldown) t else b)
        (sym (answer-eq_available m q t))
  where
    available-if :
        (b : Bool) (h : ProviderHealth) (o : Option ProviderHealth) (t : ℕ)
        → available (if b then some h else o) t
          ≡ (if b then available (some h) t else available o t)
    available-if true h o t = refl
    available-if false h o t = refl

-- What a query leaves: at a later time every answer is as it was.
query_later :
    (o : Option ProviderHealth) (m : HealthMap) (p q : String) (t u : ℕ)
    → get m p ≡ o
    → t ≤ u
    → available (get (query o m p t).1 q) u ≡ available (get m q) u
unfolding query available recover
query_later none m p q t u e h = refl
query_later (some g) m p q t u e h = elim (Bool-cases (p == q)) [
  | inl s ↦
      let same : p ≡ q = (eq_iff p q).0 s in
      let found : get m q ≡ some g = subst (λ x. get m x ≡ some g) same e in
      ground (arith, get-set m p q (recover t g), found)
  | inr d ↦ ground (arith, get-set m p q (recover t g))
]

-- Asking for a provider's availability, which may restore it, changes no answer that is given at
-- that time or later.
pub is_provider_available-query :
    (m : HealthMap) (p q : String) (t u : ℕ)
    → t ≤ u
    → (is_provider_available (is_provider_available m p t).1 q u).0
      ≡ (is_provider_available m q u).0
is_provider_available-query m p q t u h =
    answer-eq_available (is_provider_available m p t).1 q u
    ∙ unfold is_provider_available in
      query_later (get m p) m p q t u refl h ∙ sym (answer-eq_available m q u)
