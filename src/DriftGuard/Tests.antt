-- ===== src/DriftGuard/Tests.antt =====
-- Runs of the drift guard.
use avorelo.Common.{
  String, ◌≡◌, refl, true, [], ◌∷◌, filter, All, length, ends_with, starts_with, trim,
}
use avorelo.Regex.{test_any}
use avorelo.DriftGuard.{
  ScopeDriftInput, MethodDriftInput, is_block, is_warning, matches_glob, detect_scope_drift,
  detect_method_drift,
}
use avorelo.DriftGuard.Reports.{
  is_disallowed, is_outside, evidence_of, singles, is_dangerous, detect_scope_drift-reports,
  detect_method_drift-reports,
}

abbrev changes : ScopeDriftInput
changes = record {
  changed_files = "src/a.ts" ∷ "infra/prod.tf" ∷ "README.md" ∷ [];
  allowed_paths = "src/*" ∷ [];
  disallowed_paths = "infra/**" ∷ [];
}

detect_scope_drift-reports_example :
    (evidence_of (filter is_block (detect_scope_drift changes))
      ≡ singles (filter (is_disallowed changes) changes.changed_files))
    × (evidence_of (filter is_warning (detect_scope_drift changes))
        ≡ singles (filter (is_outside changes) changes.changed_files))
detect_scope_drift-reports_example = detect_scope_drift-reports changes

abbrev lower : String → String
lower s = s

abbrev commands : MethodDriftInput
commands = record {
  commands_run = "npm test" ∷ "npm publish --dry-run" ∷ "rm -rf dist" ∷ [];
  blocked_commands = "npm publish" ∷ "git push" ∷ [];
}

detect_method_drift-reports_example :
    (evidence_of (detect_method_drift lower commands)
      ≡ singles (filter (is_dangerous lower commands) commands.commands_run))
    × All (λ d. is_block d ≡ true) (detect_method_drift lower commands)
detect_method_drift-reports_example = detect_method_drift-reports lower commands refl

blocks_one_file :
    evidence_of (filter is_block (detect_scope_drift changes)) ≡ ("infra/prod.tf" ∷ []) ∷ []
unfolding detect_scope_drift is_block matches_glob ends_with starts_with
blocks_one_file = refl

finds_two_commands : length (detect_method_drift lower commands) ≡ 2
unfolding detect_method_drift trim starts_with test_any
finds_two_commands = refl
