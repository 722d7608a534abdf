-- ===== src/ToolAdapters/Policies/Fallback.antt =====
-- Chains of the fallbacks of policies.ts.
use avorelo.Common.{
  ℕ, ◌≤◌, String, if◌then◌else◌, ◌≡◌, refl, sym, ◌∙◌, Bool, true, false, Option, none, some, List,
  [], ◌∷◌, ◌&&◌, ◌==◌, arith, ltb, get_or, string_eq, All,
}
use avorelo.ToolAdapters.Types.{AdapterPolicyConstraints}
use avorelo.ToolAdapters.Policies.{
  FallbackTarget, Rank, number, member, is_inherited, is_fallback_safe, data_policy_rank, risk_rank,
}

module _ (member_above : String → String → Bool) where
  -- Each target is a safe fallback from the one before it, the last one included.
  abbrev pub IsSafeChain :
      AdapterPolicyConstraints → FallbackTarget → List FallbackTarget → FallbackTarget → Type 0
  IsSafeChain c a [] b = is_fallback_safe member_above a b c ≡ true
  IsSafeChain c a (x ∷ xs) b = (is_fallback_safe member_above a x c ≡ true) × IsSafeChain c x xs b

  -- The data policy is no name of an inherited member.
  abbrev pub IsPlain : FallbackTarget → Type 0
  IsPlain t = is_inherited t.data_policy ≡ false

  -- A rank as a number, where a missing rank counts as this one.
  abbrev rank_or : ℕ → Option Rank → ℕ
  rank_or missing (some (number n)) = n
  rank_or missing _ = missing

  -- An unknown policy ranks as public where it is fallen back to, as private where it is left.
  known_rank : (o : Option Rank) → rank_or 0 o ≤ rank_or 3 o
  known_rank none = omega arith
  known_rank (some (number n)) = omega arith
  known_rank (some (member n)) = omega arith

  -- A lookup that finds no member, by what it tests.
  abbrev rank_by : Bool → Bool → Bool → Bool → Bool → String → Option Rank
  rank_by l z n t i p =
      if l
      then some (number 0)
      else if z
      then some (number 1)
      else if n
      then some (number 2)
      else if t
      then some (number 3)
      else if i
      then some (member p)
      else none

  rank_by-plain :
      (missing : ℕ) (l z n t : Bool) (p : String)
      → get_or (rank_by l z n t false p) (number missing)
        ≡ number (rank_or missing (rank_by l z n t false p))
  rank_by-plain missing true z n t p = refl
  rank_by-plain missing false true n t p = refl
  rank_by-plain missing false false true t p = refl
  rank_by-plain missing false false false true p = refl
  rank_by-plain missing false false false false p = refl

  plain_rank :
      (missing : ℕ) (p : String)
      → is_inherited p ≡ false
      → get_or (data_policy_rank p) (number missing) ≡ number (rank_or missing (data_policy_rank p))
  plain_rank missing p h = rw h (
      rank_by-plain missing (p == "local_only") (p == "zdr") (p == "no_training")
        (p == "training_included") p)

  -- The test on the ranks alone.
  abbrev keeps : Bool → Bool → ℕ → ℕ → ℕ → ℕ → Bool
  keeps privacy proof p q r s =
      if privacy && ltb p q then false else if proof && ltb r s then false else true

  keeps_trans :
      (privacy proof : Bool) (p q o t r s u : ℕ)
      → o ≤ q
      → keeps privacy proof p q r s ≡ true
      → keeps privacy proof o t s u ≡ true
      → keeps privacy proof p t r u ≡ true
  keeps_trans privacy proof p q o t r s u l h k = ground arith

  -- Between plain policies the test is one on numbers.
  is_fallback_safe-plain :
      (c : AdapterPolicyConstraints) (x y : FallbackTarget)
      → IsPlain x
      → IsPlain y
      → is_fallback_safe member_above x y c
        ≡ keeps c.fallback_cannot_lower_privacy c.fallback_cannot_lower_proof
            (rank_or 0 (data_policy_rank x.data_policy))
            (rank_or 3 (data_policy_rank y.data_policy))
            (risk_rank x.risk_ceiling)
            (risk_rank y.risk_ceiling)
  unfolding is_fallback_safe
  is_fallback_safe-plain c x y h k =
      rw (plain_rank 0 x.data_policy h, plain_rank 3 y.data_policy k) refl

  is_fallback_safe_trans :
      (c : AdapterPolicyConstraints) (x y z : FallbackTarget)
      → IsPlain x
      → IsPlain y
      → IsPlain z
      → is_fallback_safe member_above x y c ≡ true
      → is_fallback_safe member_above y z c ≡ true
      → is_fallback_safe member_above x z c ≡ true
  is_fallback_safe_trans c x y z l m n h k =
      is_fallback_safe-plain c x z l n
      ∙ keeps_trans c.fallback_cannot_lower_privacy c.fallback_cannot_lower_proof
          (rank_or 0 (data_policy_rank x.data_policy)) (rank_or 3 (data_policy_rank y.data_policy))
          (rank_or 0 (data_policy_rank y.data_policy)) (rank_or 3 (data_policy_rank z.data_policy))
          (risk_rank x.risk_ceiling) (risk_rank y.risk_ceiling) (risk_rank z.risk_ceiling)
          (known_rank (data_policy_rank y.data_policy)) (sym (is_fallback_safe-plain c x y l m) ∙ h)
          (sym (is_fallback_safe-plain c y z m n) ∙ k)

  -- A chain of fallbacks that are safe one by one, between data policies of which none has the name
  -- of an inherited member, is safe from its start to its end: by no number of steps does it reach
  -- what a single safe fallback may not, also through unknown data policies.
  pub is_fallback_safe_chain :
      (c : AdapterPolicyConstraints) (a : FallbackTarget) (xs : List FallbackTarget)
      (b : FallbackTarget)
      → IsPlain a
      → All IsPlain xs
      → IsPlain b
      → IsSafeChain c a xs b
      → is_fallback_safe member_above a b c ≡ true
  is_fallback_safe_chain c a [] b l m n h = h
  is_fallback_safe_chain c a (x ∷ xs) b l m n h =
      is_fallback_safe_trans c a x b l m.0 n h.0 (is_fallback_safe_chain c x xs b m.0 m.1 n h.1)
