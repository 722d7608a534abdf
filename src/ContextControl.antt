-- ===== src/ContextControl.antt =====
-- kernel/context-control/budget.ts: which promoted items of the context memory fit into the token
-- budget. A text's length counts code points.
pub mod Budget
mod Tests
use avorelo.Common.{
  ℕ, ◌+◌, String, Bool, true, false, ◌&&◌, ◌||◌, not, List, [], ◌∷◌, ◌++◌, filter, contains, dedup,
  map, string_eq, if◌then◌else◌, leb, text_length,
}
use Prim.Native.Nat.{◌/◌}

pub data ContextItemType : Type 0 where
  instruction policy decision proof constraint handoff : ContextItemType
  release_state workstream_state : ContextItemType
  risk_signal user_preference environment_fact dependency : ContextItemType
  known_issue capability artifact external_reference : ContextItemType

pub data TrustLevel : Type 0 where
  verified confirmed inferred unverified contradicted unsafe : TrustLevel

-- The fields of a memory item that the budget reads.
pub record ContextMemoryItem : Type 0 where
  pub id : String
  pub type : ContextItemType
  pub summary : String
  pub trust_level : TrustLevel
  pub production_impact : Bool
  pub owner_only : Bool

-- The fields of a promotion that the budget reads: the decision is "promote" or not.
pub record PromotionResult : Type 0 where
  pub item_id : String
  pub is_promote : Bool

-- The reasons of the exclusions, in the order of their first assignment.
pub record ContextBudget : Type 0 where
  pub max_approx_tokens : ℕ
  pub included_item_ids : List String
  pub excluded_item_ids : List String
  pub exclusion_reasons : List (String × String)

unfoldable pub estimate_tokens : String → ℕ
unfolding text_length
estimate_tokens text = (text_length text + 3) / 4

unfoldable pub is_safety : ContextMemoryItem → Bool
is_safety i =
    (elim i.type [ constraint ↦ true | policy ↦ true | _ ↦ false ])
    || i.production_impact
    || i.owner_only

unfoldable pub is_verified : ContextMemoryItem → Bool
is_verified i = elim i.trust_level [ verified ↦ true | _ ↦ false ]

unfoldable pub is_proof : ContextMemoryItem → Bool
is_proof i = elim i.type [ proof ↦ true | _ ↦ false ]

unfoldable pub is_state : ContextMemoryItem → Bool
is_state i = elim i.type [ workstream_state ↦ true | release_state ↦ true | _ ↦ false ]

unfoldable pub promoted_ids : List PromotionResult → List String
promoted_ids promotions = dedup (
    map (λ (p : PromotionResult). p.item_id)
      (filter (λ (p : PromotionResult). p.is_promote) promotions))

-- A tier: its items and what it may use.
pub record Tier : Type 0 where
  pub items : List ContextMemoryItem
  pub budget : ℕ

-- An item goes into the first tier that it fits; being in a list of the same items is passing its test.
unfoldable pub tiers : List String → List ContextMemoryItem → List Tier
unfolding is_safety is_verified is_proof is_state
tiers ids items =
    let promoted = filter (λ (i : ContextMemoryItem). contains ids i.id) items in
    let unsafe_left = filter (λ i. not (is_safety i)) promoted in
    let unverified_left = filter (λ i. not (is_verified i)) unsafe_left in
    let unproved_left = filter (λ i. not (is_proof i)) unverified_left in
    record { items = filter (λ i. is_safety i) promoted; budget = 400 }
    ∷ record { items = filter (λ i. is_verified i) unsafe_left; budget = 400 }
    ∷ record { items = filter (λ i. is_proof i) unverified_left; budget = 350 }
    ∷ record { items = filter (λ i. is_state i) unproved_left; budget = 200 }
    ∷ record { items = filter (λ i. not (is_state i)) unproved_left; budget = 200 }
    ∷ []

-- The local variables that the loops change.
pub record Allocation : Type 0 where
  pub included : List String
  pub excluded : List String
  pub exclusion_reasons : List (String × String)
  pub used_tokens : ℕ

-- `record[key] = value`
set_reason : List (String × String) → String → String → List (String × String)
set_reason [] key value = (key, value) ∷ []
set_reason ((k, v) ∷ rest) key value =
    let later = set_reason rest key value in
    if contains (k ∷ []) key then (k, value) ∷ rest else (k, v) ∷ later

unfoldable pub include : ContextMemoryItem → Allocation → Allocation
unfolding estimate_tokens
include item a = record a {
  included = a.included ++ item.id ∷ [];
  used_tokens = a.used_tokens + estimate_tokens item.summary;
}

unfoldable pub exclude : ContextMemoryItem → String → Allocation → Allocation
unfolding set_reason
exclude item reason a = record a {
  excluded = a.excluded ++ item.id ∷ [];
  exclusion_reasons = set_reason a.exclusion_reasons item.id reason;
}

module _ (max_tokens : ℕ) where
  -- The inner loop, with what the tier has used.
  unfoldable pub fill : ℕ → ℕ → List ContextMemoryItem → Allocation → Allocation
  unfolding include exclude estimate_tokens
  fill budget tier_used [] a = a
  fill budget tier_used (item ∷ items) a =
      let tokens = estimate_tokens item.summary in
      let taken = fill budget (tier_used + tokens) items (include item a) in
      let skipped = fill budget tier_used items (exclude item "exceeded_budget" a) in
      if leb (a.used_tokens + tokens) max_tokens && leb (tier_used + tokens) budget
      then taken
      else skipped

  unfoldable pub fill_tiers : List Tier → Allocation → Allocation
  unfolding fill
  fill_tiers [] a = a
  fill_tiers (t ∷ ts) a = fill_tiers ts (fill t.budget 0 t.items a)

-- The last loop.
unfoldable pub exclude_others : List String → List ContextMemoryItem → Allocation → Allocation
unfolding exclude
exclude_others ids [] a = a
exclude_others ids (item ∷ items) a = exclude_others ids items (
    if not (contains ids item.id) && not (contains a.excluded item.id)
    then exclude item "not_promoted" a
    else a)

unfoldable pub allocate : List ContextMemoryItem → List PromotionResult → ℕ → Allocation
unfolding tiers fill_tiers exclude_others promoted_ids
allocate items promotions max_tokens =
    let ids = promoted_ids promotions in
    exclude_others ids items (
      fill_tiers max_tokens (tiers ids items)
        (record { included = []; excluded = []; exclusion_reasons = []; used_tokens = 0 }))

-- The limit of 1800 tokens is the caller's where it gives none; `conflictCount` is never read.
unfoldable pub allocate_budget : List ContextMemoryItem → List PromotionResult → ℕ → ContextBudget
unfolding allocate
allocate_budget items promotions max_tokens =
    let a = allocate items promotions max_tokens in
    record {
      max_approx_tokens = max_tokens;
      included_item_ids = a.included;
      excluded_item_ids = a.excluded;
      exclusion_reasons = a.exclusion_reasons;
    }
