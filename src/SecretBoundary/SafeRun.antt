-- ===== src/SecretBoundary/SafeRun.antt =====
-- What the safe run blocks and allows, and what routing makes of it.
use avorelo.Common.{
  String, ◌≡◌, ◌↔◌, true, false, ◌&&◌, ◌||◌, not, List, is_empty, arith, ap, ◌∙◌, sym,
}
use avorelo.WorkContract.{allow, block, ParsedTask, Gate, SafetyBoundarySummary, decide_routing}
use avorelo.WorkContract.Safety.{decide_routing-safe}
use avorelo.SecretBoundary.{
  exfiltrates, destroys, deploys, remediates, decided, evaluate_harmless, evaluate_safe_run,
  safety_summary,
}

module _ (detect_in_string : String → List String) where
  evaluate_safe_run-block_iff :
      (s : String)
      → ((evaluate_safe_run detect_in_string s).decision ≡ block) ↔ (exfiltrates s ≡ true)
  unfolding evaluate_safe_run evaluate_harmless decided
  evaluate_safe_run-block_iff s = ground arith

  evaluate_safe_run-allow_iff :
      (s : String)
      → ((evaluate_safe_run detect_in_string s).decision ≡ allow) ↔ (
          not (exfiltrates s)
            && (remediates s
                || not (destroys s) && (not (deploys s) && is_empty (detect_in_string s)))
          ≡ true)
  unfolding evaluate_safe_run evaluate_harmless decided
  evaluate_safe_run-allow_iff s = ground arith

  -- A task with its own safety summary is gated as blocked exactly when a pattern of exfiltration is
  -- found in it. It is allowed without an approval only where none is found, no secret is detected,
  -- and it either asks for a remediation or neither destroys nor deploys.
  pub decide_routing-exfiltration :
      (t : ParsedTask)
      → t.safety ≡ safety_summary detect_in_string t.task
      → let r = decide_routing t in
        ((r.gate ≡ Gate.blocked) ↔ (exfiltrates t.task ≡ true))
        × (r.gate ≡ Gate.allow
            → (exfiltrates t.task ≡ false)
              × (is_empty t.safety.secret_risk_codes ≡ true)
              × (remediates t.task || not (destroys t.task) && not (deploys t.task) ≡ true))
  unfolding safety_summary
  decide_routing-exfiltration t e =
      let d : t.safety.safe_run_decision ≡ (evaluate_safe_run detect_in_string t.task).decision =
        ap (λ (s : SafetyBoundarySummary). s.safe_run_decision) e in
      let (b, a, _) = decide_routing-safe t in
      let blocks = evaluate_safe_run-block_iff t.task in
      let allows = evaluate_safe_run-allow_iff t.task in
      (
        (λ h. blocks.0 (sym d ∙ b.0 h), λ h. b.1 (d ∙ blocks.1 h)),
        λ h.
            let (ok, none_found, _) = a h in
            let k = allows.0 (sym d ∙ ok) in (ground arith, none_found, ground arith),
      )
