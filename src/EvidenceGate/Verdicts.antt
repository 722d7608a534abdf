-- ===== src/EvidenceGate/Verdicts.antt =====
-- What the verdict of the evidence gate rests on.
use avorelo.Common.{
  String, ◌≡◌, refl, ◌↔◌, Bool, true, false, ◌&&◌, ◌||◌, not, List, [], ◌∷◌, ◌++◌, map, all, filter,
  is_empty, arith,
}
use avorelo.EvidenceGate.{
  ProofRequirement, ProofContract, AdapterResult, safe, blocked, is_satisfied, blocking_of,
  warnings_of, optional_warnings_of, evaluate_evidence,
}

is_empty-map {ℓ κ} :
    {A : Type ℓ} {B : Type κ} (f : A → B) (xs : List A) → is_empty (map f xs) ≡ is_empty xs
is_empty-map f [] = refl
is_empty-map f (x ∷ xs) = refl

is_empty-append {ℓ} :
    {A : Type ℓ} (xs ys : List A) → is_empty (xs ++ ys) ≡ is_empty xs && is_empty ys
is_empty-append [] ys = refl
is_empty-append (x ∷ xs) ys = refl

is_empty-filter {ℓ} :
    {A : Type ℓ} (p : A → Bool) (xs : List A) → is_empty (filter p xs) ≡ all (λ x. not (p x)) xs
is_empty-filter p [] = refl
is_empty-filter p (x ∷ xs) = ground (arith, is_empty-filter p xs)

module _ (results : List AdapterResult) where
  -- A critical requirement is satisfied.
  abbrev pub is_met : ProofRequirement → Bool
  is_met r = not r.critical || is_satisfied results r

  blocking_of-is_empty :
      (rs : List ProofRequirement) → is_empty (blocking_of results rs) ≡ all is_met rs
  unfolding blocking_of
  blocking_of-is_empty [] = refl
  blocking_of-is_empty (r ∷ rs) = ground (arith, blocking_of-is_empty rs)

  required-is_empty :
      (rs : List ProofRequirement)
      → is_empty (blocking_of results rs) && is_empty (warnings_of results rs)
        ≡ all (is_satisfied results) rs
  unfolding blocking_of warnings_of
  required-is_empty [] = refl
  required-is_empty (r ∷ rs) = ground (arith, required-is_empty rs)

  optional_warnings_of-is_empty :
      (rs : List ProofRequirement)
      → is_empty (optional_warnings_of results rs) ≡ all (is_satisfied results) rs
  unfolding optional_warnings_of
  optional_warnings_of-is_empty [] = refl
  optional_warnings_of-is_empty (r ∷ rs) = ground (arith, optional_warnings_of-is_empty rs)

  -- Work is safe to close exactly when every critical requirement is satisfied; the status is safe
  -- exactly when every requirement, optional ones included, is satisfied, and blocked exactly when
  -- the work is not safe to close.
  pub evaluate_evidence-status :
      (now : String) (c : ProofContract)
      → let g = evaluate_evidence results now c in
        (g.safe_to_close ≡ all is_met c.required_proof)
        × ((g.overall_status ≡ safe) ↔ (
            all (is_satisfied results) c.required_proof
              && all (is_satisfied results) c.optional_proof
            ≡ true))
        × ((g.overall_status ≡ blocked) ↔ (g.safe_to_close ≡ false))
  unfolding evaluate_evidence
  evaluate_evidence-status now c =
      let b = blocking_of-is_empty c.required_proof in
      let r = required-is_empty c.required_proof in
      let o = optional_warnings_of-is_empty c.optional_proof in
      let a =
        is_empty-append (warnings_of results c.required_proof)
          (optional_warnings_of results c.optional_proof) in
      (b, ground arith, ground arith)
