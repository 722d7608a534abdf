-- ===== src/Schemas.antt =====
-- shared/schemas/index.ts: the enumerations and records that several modules read.
-- A field whose TypeScript type is one literal (`containsRawPrompt: false`) carries no information
-- and is left out, unless some code tests it.
use avorelo.Common.{
  ℕ, String, true, ◌≡◌, refl, ◌↔◌, List, Comparable, nat_beq, beq_of_code, zero, suc,
}

pub data EvidenceLevel : Type 0 where
  navigation interaction outcome post_action : EvidenceLevel

abbrev level_code : EvidenceLevel → ℕ
level_code navigation = 0
level_code interaction = 1
level_code outcome = 2
level_code post_action = 3

level_decode : ℕ → EvidenceLevel
level_decode zero = navigation
level_decode (suc zero) = interaction
level_decode (suc (suc zero)) = outcome
level_decode _ = post_action

level_decode-code : (l : EvidenceLevel) → level_decode (level_code l) ≡ l
unfolding level_decode
level_decode-code navigation = refl
level_decode-code interaction = refl
level_decode-code outcome = refl
level_decode-code post_action = refl

pub level_beq_iff : (a b : EvidenceLevel) → (nat_beq (level_code a) (level_code b) ≡ true) ↔ (a ≡ b)
level_beq_iff a b = beq_of_code level_code level_decode level_decode-code a b

instance abbrev pub level_eq : Comparable EvidenceLevel
level_eq = record {
  equal = λ a b. nat_beq (level_code a) (level_code b);
  equal_iff = level_beq_iff;
}

pub data GateDecision : Type 0 where
  continue stop_blocked stop_done : GateDecision

pub data PolicyVerdict : Type 0 where
  allow block needs_approval : PolicyVerdict

pub data ReviewerVerdict : Type 0 where
  go no_go partial : ReviewerVerdict

pub data ConfidenceLabel : Type 0 where
  unknown low med high : ConfidenceLabel

pub data PlanTier : Type 0 where
  free pro teams : PlanTier

pub record WorkContract : Type 0 where
  pub contract_id : String
  pub objective : String
  pub allowed_paths : List String
  pub requested_outputs : List String
  pub success_criteria : List String
  pub stop_conditions : List String
  pub evidence_refs : List String
  pub review_reasons : List String
  pub plan_tier : PlanTier
