-- ===== src/WorkControls/Selection.antt =====
-- Which capabilities the route selects and which it suppresses.
use avorelo.Common.{
  String, ◌≡◌, refl, ap, ◌∙◌, Bool, true, false, ◌&&◌, ◌||◌, not, List, [], ◌∷◌, map, any, filter,
  ◌==◌, string_eq, arith, sort_by, insert_by, contains, contains-dedup,
}
use avorelo.WorkControls.{unique}
use avorelo.WorkControls.Capabilities.{
  CapabilityRouteInput, CapabilitySuppression, Push, calls, due, pushes, is_proof_due, is_high_risk,
  is_short_of_tokens, old_reference, low_tokens, goes_before, sort_capabilities,
  build_capability_route_decision,
}

contains-filter :
    (values : List String) (v : String)
    → (v == "") ≡ false
    → contains (filter (λ w. not (w == "")) values) v ≡ contains values v
contains-filter [] v h = refl
contains-filter (w ∷ values) v h =
    ground (arith, contains-filter values v h, string_eq.equal_iff w v)

contains-unique :
    (values : List String) (v : String)
    → (v == "") ≡ false
    → contains (unique values) v ≡ contains values v
unfolding unique
contains-unique values v h =
    contains-dedup (filter (λ w. not (w == "")) values) v ∙ contains-filter values v h

module _ (le : String → String → Bool) where
  contains-insert_by :
      (x : String) (xs : List String) (v : String)
      → contains (insert_by le x xs) v ≡ x == v || contains xs v
  unfolding insert_by
  contains-insert_by x [] v = refl
  contains-insert_by x (y ∷ ys) v = ground (arith, contains-insert_by x ys v)

  contains-sort_by : (xs : List String) (v : String) → contains (sort_by le xs) v ≡ contains xs v
  unfolding sort_by
  contains-sort_by [] v = refl
  contains-sort_by (x ∷ xs) v =
      ground (arith, contains-insert_by x (sort_by le xs) v, contains-sort_by xs v)

contains-due :
    (rows : List (Bool × Push)) (c : String)
    → contains (map (λ (p : Push). p.capability) (due rows)) c
      ≡ any (λ (r : Bool × Push). r.0 && (r.1).capability == c) rows
unfolding due
contains-due [] c = refl
contains-due ((true, p) ∷ rows) c = ap (λ b. p.capability == c || b) (contains-due rows c)
contains-due ((false, p) ∷ rows) c = contains-due rows c

selected-calls :
    (locale_le : String → String → Bool) (i : CapabilityRouteInput) (c : String)
    → (c == "") ≡ false
    → contains (build_capability_route_decision locale_le i).selected_capabilities c
      ≡ any (λ (r : Bool × Push). r.0 && (r.1).capability == c) (calls i)
unfolding build_capability_route_decision sort_capabilities pushes
selected-calls locale_le i c h =
    let names = map (λ (p : Push). p.capability) (due (calls i)) in
    contains-sort_by (goes_before locale_le) (unique names) c
    ∙ contains-unique names c h
    ∙ contains-due (calls i) c

-- The loop control is selected exactly for the deep mode, and it is suppressed exactly for less than
-- 5000 tokens, so that a deep mode with few tokens has it both selected and suppressed; the review of
-- proofs is selected exactly where the tier is neither none nor local; the drift guard exactly for the
-- deep mode, a change of authentication or payment, or a high risk.
pub build_capability_route_decision-selected :
    (locale_le : String → String → Bool) (i : CapabilityRouteInput)
    → let d = build_capability_route_decision locale_le i in
      (contains d.selected_capabilities "loop-control" ≡ i.deep_mode)
      × (contains
            (map (λ (s : CapabilitySuppression). s.capability) d.suppressed_capabilities)
            "loop-control"
          ≡ is_short_of_tokens i)
      × (contains d.selected_capabilities "proof-review" ≡ is_proof_due i)
      × (contains d.selected_capabilities "drift-guard" ≡ i.deep_mode || is_high_risk i)
unfolding build_capability_route_decision calls old_reference low_tokens
build_capability_route_decision-selected locale_le i =
    let loop = selected-calls locale_le i "loop-control" refl in
    let review = selected-calls locale_le i "proof-review" refl in
    let guard = selected-calls locale_le i "drift-guard" refl in
    (ground arith, ground arith, ground arith, ground arith)
