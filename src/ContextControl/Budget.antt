-- ===== src/ContextControl/Budget.antt =====
-- What an allocation of the token budget includes.
use mathlib.Core.List.{map-append, append-nil, append_assoc, Perm}
use mathlib.Core.List.Perm
use avorelo.Common.{
  ℕ, ◌+◌, ◌≤◌, String, ◌≡◌, refl, ap, sym, ◌∙◌, false, ◌&&◌, not, List, [], ◌∷◌, ◌++◌, map, leb,
  arith, by_test, contains, string_eq, All, filter, Perm-middle, Perm-append_comm, Perm-filter_not,
}
use avorelo.ContextControl.{
  ContextMemoryItem, PromotionResult, Tier, Allocation, estimate_tokens, promoted_ids, is_safety,
  is_verified, is_proof, is_state, tiers, include, exclude, fill, fill_tiers, exclude_others,
  allocate, allocate_budget,
}

-- The estimate for all items together.
pub total_tokens : List ContextMemoryItem → ℕ
total_tokens [] = 0
total_tokens (i ∷ is) = estimate_tokens i.summary + total_tokens is

total_tokens-snoc :
    (is : List ContextMemoryItem) (i : ContextMemoryItem)
    → total_tokens (is ++ i ∷ []) ≡ total_tokens is + estimate_tokens i.summary
unfolding total_tokens
total_tokens-snoc [] i = omega arith
total_tokens-snoc (j ∷ is) i = omega (arith, total_tokens-snoc is i)

-- An allocation that has seen some items: each of them is taken or skipped, and the ids and the tokens
-- are theirs.
record Backed (m : ℕ) (seen : List ContextMemoryItem) (a : Allocation) : Type 0 where
  taken : List ContextMemoryItem
  skipped : List ContextMemoryItem
  split : Perm (taken ++ skipped) seen
  named : a.included ≡ map (λ (i : ContextMemoryItem). i.id) taken
  left_out : a.excluded ≡ map (λ (i : ContextMemoryItem). i.id) skipped
  counted : a.used_tokens ≡ total_tokens taken
  within : a.used_tokens ≤ m

Backed-seen :
    {m : ℕ} {s t : List ContextMemoryItem} {a : Allocation} → Perm s t → Backed m s a → Backed m t a
Backed-seen p b = record {
  taken = b.taken;
  skipped = b.skipped;
  split = Perm.trans b.split p;
  named = b.named;
  left_out = b.left_out;
  counted = b.counted;
  within = b.within;
}

ids-snoc :
    (is : List ContextMemoryItem) (i : ContextMemoryItem)
    → map (λ (j : ContextMemoryItem). j.id) is ++ i.id ∷ []
      ≡ map (λ (j : ContextMemoryItem). j.id) (is ++ i ∷ [])
ids-snoc is i = sym (map-append (λ (j : ContextMemoryItem). j.id) is (i ∷ []))

module _ (m : ℕ) where
  include-Backed :
      (i : ContextMemoryItem) (seen : List ContextMemoryItem) (a : Allocation)
      → a.used_tokens + estimate_tokens i.summary ≤ m
      → Backed m seen a
      → Backed m (i ∷ seen) (include i a)
  unfolding include
  include-Backed i seen a h b =
      let k = b.counted in
      let t = total_tokens-snoc b.taken i in
      record {
        taken = b.taken ++ i ∷ [];
        skipped = b.skipped;
        split =
            rw (append_assoc b.taken (i ∷ []) b.skipped)
              (Perm.trans (Perm-middle b.taken b.skipped) (Perm.cons i b.split));
        named = ap (λ ns. ns ++ i.id ∷ []) b.named ∙ ids-snoc b.taken i;
        left_out = b.left_out;
        counted = omega arith;
        within = h;
      }

  exclude-Backed :
      (i : ContextMemoryItem) (seen : List ContextMemoryItem) (reason : String) (a : Allocation)
      → Backed m seen a
      → Backed m (i ∷ seen) (exclude i reason a)
  unfolding exclude
  exclude-Backed i seen reason a b = record {
    taken = b.taken;
    skipped = b.skipped ++ i ∷ [];
    split =
        rw (sym (append_assoc b.taken b.skipped (i ∷ [])))
          (Perm.trans (Perm-append_comm (b.taken ++ b.skipped) (i ∷ [])) (Perm.cons i b.split));
    named = b.named;
    left_out = ap (λ ns. ns ++ i.id ∷ []) b.left_out ∙ ids-snoc b.skipped i;
    counted = b.counted;
    within = b.within;
  }

  fill-Backed :
      (items seen : List ContextMemoryItem) (budget used : ℕ) (a : Allocation)
      → Backed m seen a
      → Backed m (items ++ seen) (fill m budget used items a)
  unfolding fill
  fill-Backed [] seen budget used a b = b
  fill-Backed (i ∷ items) seen budget used a b =
      let tokens = estimate_tokens i.summary in
      Backed-seen (Perm-middle items seen) (
        by_test (Backed m (items ++ i ∷ seen))
          (leb (a.used_tokens + tokens) m && leb (used + tokens) budget)
          (fill m budget (used + tokens) items (include i a))
          (fill m budget used items (exclude i "exceeded_budget" a))
          (λ e.
            fill-Backed items (i ∷ seen) budget (used + tokens) (include i a)
              (include-Backed i seen a (ground arith) b))
          (λ e.
            fill-Backed items (i ∷ seen) budget used (exclude i "exceeded_budget" a)
              (exclude-Backed i seen "exceeded_budget" a b)))

  -- All items of some tiers.
  abbrev items_of : List Tier → List ContextMemoryItem
  items_of [] = []
  items_of (t ∷ ts) = t.items ++ items_of ts

  fill_tiers-Backed :
      (ts : List Tier) (seen : List ContextMemoryItem) (a : Allocation)
      → Backed m seen a
      → Backed m (items_of ts ++ seen) (fill_tiers m ts a)
  unfolding fill_tiers
  fill_tiers-Backed [] seen a b = b
  fill_tiers-Backed (t ∷ ts) seen a b =
      Backed-seen
        (rw (sym (append_assoc (items_of ts) t.items seen))
          (Perm.append_right seen (Perm-append_comm (items_of ts) t.items)))
        (fill_tiers-Backed ts (t.items ++ seen) (fill m t.budget 0 t.items a)
          (fill-Backed t.items seen t.budget 0 a b))

  -- The tiers hold the promoted items, each in one tier.
  items_of-tiers :
      (ids : List String) (items : List ContextMemoryItem)
      → Perm
          (items_of (tiers ids items))
          (filter (λ (i : ContextMemoryItem). contains ids i.id) items)
  unfolding tiers
  items_of-tiers ids items =
      let promoted = filter (λ (i : ContextMemoryItem). contains ids i.id) items in
      let unsafe_left = filter (λ i. not (is_safety i)) promoted in
      let unverified_left = filter (λ i. not (is_verified i)) unsafe_left in
      let unproved_left = filter (λ i. not (is_proof i)) unverified_left in
      let others = filter (λ i. not (is_state i)) unproved_left in
      let states : Perm (filter (λ i. is_state i) unproved_left ++ (others ++ [])) unproved_left =
        rw (append-nil others) (Perm-filter_not (λ i. is_state i) unproved_left) in
      Perm.trans
        (Perm.append_left (filter (λ i. is_safety i) promoted) (
          Perm.trans
            (Perm.append_left (filter (λ i. is_verified i) unsafe_left) (
              Perm.trans (Perm.append_left (filter (λ i. is_proof i) unverified_left) states)
                (Perm-filter_not (λ i. is_proof i) unverified_left)))
            (Perm-filter_not (λ i. is_verified i) unsafe_left)))
        (Perm-filter_not (λ i. is_safety i) promoted)

-- What the last loop leaves as it is, and the ids that it adds, which are not promoted.
record Extends (ids : List String) (a b : Allocation) : Type 0 where
  same_included : b.included ≡ a.included
  others : List String
  grown : b.excluded ≡ a.excluded ++ others
  not_promoted : All (λ (n : String). contains ids n ≡ false) others

exclude_others-Extends :
    (ids : List String) (items : List ContextMemoryItem) (a : Allocation)
    → Extends ids a (exclude_others ids items a)
unfolding exclude_others exclude
exclude_others-Extends ids [] a = record {
  same_included = refl;
  others = [];
  grown = sym (append-nil a.excluded);
  not_promoted = tt;
}
exclude_others-Extends ids (i ∷ items) a =
    by_test (λ b. Extends ids a (exclude_others ids items b))
      (not (contains ids i.id) && not (contains a.excluded i.id)) (exclude i "not_promoted" a) a
      (λ e.
        let r = exclude_others-Extends ids items (exclude i "not_promoted" a) in
        record {
          same_included = r.same_included;
          others = i.id ∷ r.others;
          grown = r.grown ∙ append_assoc a.excluded (i.id ∷ []) r.others;
          not_promoted = (ground arith, r.not_promoted);
        })
      (λ e. exclude_others-Extends ids items a)

nothing-counted : 0 ≡ total_tokens []
unfolding total_tokens
nothing-counted = refl

-- The promoted items are divided: the included ids are those of some of them, whose estimates together
-- are at most the limit, and the excluded ids are those of all the rest of them, followed by ids that
-- are not promoted.
pub allocate_budget-within :
    (items : List ContextMemoryItem) (promotions : List PromotionResult) (max_tokens : ℕ)
    → let b = allocate_budget items promotions max_tokens in
      let ids = promoted_ids promotions in
      (taken : List ContextMemoryItem) × (skipped : List ContextMemoryItem) × (others : List String)
      × Perm (taken ++ skipped) (filter (λ (i : ContextMemoryItem). contains ids i.id) items)
      × (b.included_item_ids ≡ map (λ (i : ContextMemoryItem). i.id) taken)
      × (total_tokens taken ≤ max_tokens)
      × (b.excluded_item_ids ≡ map (λ (i : ContextMemoryItem). i.id) skipped ++ others)
      × All (λ (n : String). contains ids n ≡ false) others
unfolding allocate_budget allocate
allocate_budget-within items promotions m =
    let ids = promoted_ids promotions in
    let nothing : Allocation = record {
      included = [];
      excluded = [];
      exclusion_reasons = [];
      used_tokens = 0;
    } in
    let start : Backed m [] nothing = record {
      taken = [];
      skipped = [];
      split = Perm.refl [];
      named = refl;
      left_out = refl;
      counted = nothing-counted;
      within = omega arith;
    } in
    let b = fill_tiers-Backed m (tiers ids items) [] nothing start in
    let x = exclude_others-Extends ids items (fill_tiers m (tiers ids items) nothing) in
    let k = b.counted in
    let w = b.within in
    (
      b.taken,
      b.skipped,
      x.others,
      Perm.trans b.split
          (rw (append-nil (items_of m (tiers ids items))) (items_of-tiers m ids items)),
      x.same_included ∙ b.named,
      omega arith,
      x.grown ∙ ap (λ (ns : List String). ns ++ x.others) b.left_out,
      x.not_promoted,
    )
