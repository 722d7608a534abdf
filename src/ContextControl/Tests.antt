-- ===== src/ContextControl/Tests.antt =====
-- Tests of ContextControl, and its theorem at concrete items.
use mathlib.Core.List.{Perm}
use avorelo.Common.{
  String, ◌++◌, filter, ◌≤◌, ◌≡◌, refl, true, false, List, [], ◌∷◌, map, All, contains, string_eq,
}
use avorelo.ContextControl.{
  ContextMemoryItem, PromotionResult, instruction, policy, verified, inferred, promoted_ids,
  allocate_budget,
}
use avorelo.ContextControl.Budget.{total_tokens, allocate_budget-within}

abbrev rule_item : ContextMemoryItem
rule_item = record {
  id = "rule";
  type = policy;
  summary = "Keep the tests green";
  trust_level = inferred;
  production_impact = false;
  owner_only = false;
}

abbrev note_item : ContextMemoryItem
note_item = record {
  id = "note";
  type = instruction;
  summary = "Prefer small edits of one file";
  trust_level = verified;
  production_impact = false;
  owner_only = false;
}

abbrev memory : List ContextMemoryItem
memory = note_item ∷ rule_item ∷ []

abbrev promotions : List PromotionResult
promotions =
    record { item_id = "rule"; is_promote = true }
    ∷ record { item_id = "note"; is_promote = true }
    ∷ []

-- The policy comes first, and the note no longer fits.
rule-first : (allocate_budget memory promotions 10).included_item_ids ≡ "rule" ∷ []
unfolding allocate_budget
rule-first = refl

allocate_budget-within_example :
    let b = allocate_budget memory promotions 10 in
    let ids = promoted_ids promotions in
    (taken : List ContextMemoryItem) × (skipped : List ContextMemoryItem) × (others : List String)
    × Perm (taken ++ skipped) (filter (λ (i : ContextMemoryItem). contains ids i.id) memory)
    × (b.included_item_ids ≡ map (λ (i : ContextMemoryItem). i.id) taken)
    × (total_tokens taken ≤ 10)
    × (b.excluded_item_ids ≡ map (λ (i : ContextMemoryItem). i.id) skipped ++ others)
    × All (λ (n : String). contains ids n ≡ false) others
allocate_budget-within_example = allocate_budget-within memory promotions 10
