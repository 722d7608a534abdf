-- ===== src/Routing/Resolver/Selection.antt =====
-- What resolver.ts selects, and when it finds nothing to select.
use avorelo.Common.{
  ◌⊎◌, String, Bool, not, is_empty, insert_by, IsSortedBy, ℕ, ◌≡◌, refl, sym, ap, ◌∙◌, ◌↔◌, inl,
  inr, true, false, some, none, List, [], ◌∷◌, arith, any, All, filter, filter-All, ◌==◌, string_eq,
  Bool-cases, IsOrder, sort_by, sort_by-All, sort_by-IsSortedBy,
}
use avorelo.Routing.Types.{ResolverResult, ModelCapability, is_no_model, resolved}
use avorelo.Routing.Providers.{HealthMap}
use avorelo.Routing.Resolver.{
  ResolveInput, cheaper, initial, candidates, select, filter_codes, resolve_model,
}
use avorelo.Routing.Resolver.Filters.{is_safe, candidates-eq_filter}

cheaper-IsOrder : IsOrder cheaper
cheaper-IsOrder = record { total = λ a b h. ground arith; trans = λ a b c h k. ground arith }

module _ (health : HealthMap) (clock : ℕ) (i : ResolveInput) where
  abbrev AllSafe : List ModelCapability → Type 0
  AllSafe = All (λ m. is_safe health clock i m ≡ true)

  sorted-AllSafe :
      (models : List ModelCapability)
      → AllSafe (sort_by cheaper (candidates models health clock i).0)
  sorted-AllSafe models =
      sort_by-All cheaper (λ m. is_safe health clock i m ≡ true)
        (candidates models health clock i).0
        (rw (candidates-eq_filter models health clock i)
          (filter-All (is_safe health clock i) (initial models i.profile)))

  select-safe :
      (codes : List String) (ms : List ModelCapability)
      → AllSafe ms
      → IsSortedBy cheaper ms
      → (m : ModelCapability) → (select codes ms).selected_model ≡ some m
      → (is_safe health clock i m ≡ true)
        × AllSafe (select codes ms).fallback_chain
        × All (λ f. cheaper m f ≡ true) (select codes ms).fallback_chain
  unfolding select
  select-safe codes [] safe sorted m e = cc
  select-safe codes (x ∷ xs) safe sorted m e =
      let same : x ≡ m = cc in rw (sym same) (safe.0, safe.1, sorted.0)

  select-resolved_iff :
      (codes : List String) (ms : List ModelCapability)
      → ((select codes ms).status ≡ resolved) ↔ (is_empty ms ≡ false)
  unfolding select
  select-resolved_iff codes [] = ground arith
  select-resolved_iff codes (m ∷ ms) = ground arith

is_empty-filter {ℓ} :
    {A : Type ℓ} (p : A → Bool) (xs : List A) → is_empty (filter p xs) ≡ not (any p xs)
is_empty-filter p [] = refl
is_empty-filter p (x ∷ xs) = ground (arith, is_empty-filter p xs)

is_empty-insert_by {ℓ} :
    {A : Type ℓ} (le : A → A → Bool) (x : A) (xs : List A) → is_empty (insert_by le x xs) ≡ false
unfolding insert_by
is_empty-insert_by le x [] = refl
is_empty-insert_by le x (y ∷ ys) = ground arith

is_empty-sort_by {ℓ} :
    {A : Type ℓ} (le : A → A → Bool) (xs : List A) → is_empty (sort_by le xs) ≡ is_empty xs
unfolding sort_by
is_empty-sort_by le [] = refl
is_empty-sort_by le (x ∷ xs) = is_empty-insert_by le x (sort_by le xs)

-- The sorted candidates that the answer is made from.
abbrev selection : List ModelCapability → HealthMap → ℕ → ResolveInput → ResolverResult
selection models health clock i =
    select (filter_codes models i) (sort_by cheaper (candidates models health clock i).0)

resolve_model-eq_selection :
    (models : List ModelCapability) (health : HealthMap) (clock : ℕ) (i : ResolveInput)
    → is_no_model i.profile ≡ false
    → (i.approval_policy == "blocked") ≡ false
    → (resolve_model models health clock i).0 ≡ selection models health clock i
unfolding resolve_model
resolve_model-eq_selection models health clock i n p = rw (n, p)

resolve_model-stopped :
    (models : List ModelCapability) (health : HealthMap) (clock : ℕ) (i : ResolveInput)
    → (is_no_model i.profile ≡ true) ⊎ ((i.approval_policy == "blocked") ≡ true)
    → (resolve_model models health clock i).0.selected_model ≡ none
unfolding resolve_model
resolve_model-stopped models health clock i (inl n) = rw n
resolve_model-stopped models health clock i (inr p) = elim (Bool-cases (is_no_model i.profile)) [
  | inl n ↦ rw n
  | inr n ↦ rw (n, p)
]

-- A model that is selected passes every test of the resolver (locality, data protection, allowed
-- and denied providers, capabilities, context window, cost ceiling, provider health), and so does
-- every fallback; no fallback is cheaper, or as cheap and faster, than the model selected.
pub resolve_model-safe :
    (models : List ModelCapability) (health : HealthMap) (clock : ℕ) (i : ResolveInput)
    (m : ModelCapability)
    → (resolve_model models health clock i).0.selected_model ≡ some m
    → let r = (resolve_model models health clock i).0 in
      (is_safe health clock i m ≡ true)
      × All (λ f. is_safe health clock i f ≡ true) r.fallback_chain
      × All (λ f. cheaper m f ≡ true) r.fallback_chain
resolve_model-safe models health clock i m e = elim (Bool-cases (is_no_model i.profile)) [
  | inl n ↦ let none_is = resolve_model-stopped models health clock i (inl n) in cc
  | inr n ↦ elim (Bool-cases (i.approval_policy == "blocked")) [
    | inl p ↦ let none_is = resolve_model-stopped models health clock i (inr p) in cc
    | inr p ↦
        let eq = resolve_model-eq_selection models health clock i n p in
        let kept = (candidates models health clock i).0 in
        rw eq (
          select-safe health clock i (filter_codes models i) (sort_by cheaper kept)
            (sorted-AllSafe health clock i models) (sort_by-IsSortedBy cheaper cheaper-IsOrder kept)
            m (sym (ap (λ r. r.selected_model) eq) ∙ e))
  ]
]

is_empty-candidates :
    (models : List ModelCapability) (health : HealthMap) (clock : ℕ) (i : ResolveInput)
    → is_empty (sort_by cheaper (candidates models health clock i).0)
      ≡ not (any (is_safe health clock i) (initial models i.profile))
is_empty-candidates models health clock i =
    is_empty-sort_by cheaper (candidates models health clock i).0
    ∙ ap is_empty (candidates-eq_filter models health clock i)
    ∙ is_empty-filter (is_safe health clock i) (initial models i.profile)

not-false_iff : (b : Bool) → (not b ≡ false) ↔ (b ≡ true)
not-false_iff true = ground arith
not-false_iff false = ground arith

-- Where the profile asks for a model and the policy is not to block, a model is resolved exactly
-- when one of the initial candidates passes every test; else the answer is that no candidate is safe.
pub resolve_model-status :
    (models : List ModelCapability) (health : HealthMap) (clock : ℕ) (i : ResolveInput)
    → is_no_model i.profile ≡ false
    → (i.approval_policy == "blocked") ≡ false
    → ((resolve_model models health clock i).0.status ≡ resolved)
      ↔ (any (is_safe health clock i) (initial models i.profile) ≡ true)
resolve_model-status models health clock i n p =
    let ms = sort_by cheaper (candidates models health clock i).0 in
    let found = any (is_safe health clock i) (initial models i.profile) in
    let chosen = select-resolved_iff health clock i (filter_codes models i) ms in
    let eq = resolve_model-eq_selection models health clock i n p in
    let empty = is_empty-candidates models health clock i in
    (
      λ h. (not-false_iff found).0 (sym empty ∙ chosen.0 (sym (ap (λ r. r.status) eq) ∙ h)),
      λ h. ap (λ r. r.status) eq ∙ chosen.1 (empty ∙ (not-false_iff found).1 h),
    )
