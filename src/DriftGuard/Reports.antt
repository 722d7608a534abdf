-- ===== src/DriftGuard/Reports.antt =====
-- Which files and commands the drift guard reports, and how severely.
use avorelo.Common.{
  ◌∙◌, String, ◌≡◌, refl, true, false, ◌&&◌, ◌||◌, not, inl, inr, List, [], ◌∷◌, ◌++◌, map, any,
  find, filter, contains, is_empty, ◌==◌, string_eq, arith, Bool-cases, Bool, All, if◌then◌else◌,
  All-append,
}
use mathlib.Core.List.{map-append}
use avorelo.Regex.{test_any}
use avorelo.DriftGuard.{
  DriftFinding, ScopeDriftInput, MethodDriftInput, is_block, is_warning, file_matches_any,
  scope_findings, scope_drift_from, detect_scope_drift, destructive_patterns, is_blocked_by,
  destructive_findings, command_findings, method_findings, method_drift_from, detect_method_drift,
}

abbrev pub is_disallowed : ScopeDriftInput → String → Bool
is_disallowed i f = file_matches_any f i.disallowed_paths

-- Not disallowed, and outside the allowed paths where there are any.
abbrev pub is_outside : ScopeDriftInput → String → Bool
is_outside i f =
    not (is_disallowed i f)
    && (not (is_empty i.allowed_paths) && not (file_matches_any f i.allowed_paths))

-- What findings are about.
abbrev pub evidence_of : List DriftFinding → List (List String)
evidence_of ds = map (λ (d : DriftFinding). d.evidence) ds

abbrev pub singles : List String → List (List String)
singles ss = map (λ s. s ∷ []) ss

disallowed-is_empty :
    (f : String) (ps : List String)
    → not (is_empty ps) && file_matches_any f ps ≡ file_matches_any f ps
unfolding file_matches_any
disallowed-is_empty f [] = refl
disallowed-is_empty f (p ∷ ps) = refl

scope_drift_from-reports :
    (i : ScopeDriftInput) (fs : List String)
    → (evidence_of (filter is_block (scope_drift_from i fs))
        ≡ singles (filter (is_disallowed i) fs))
      × (evidence_of (filter is_warning (scope_drift_from i fs))
          ≡ singles (filter (is_outside i) fs))
unfolding scope_drift_from scope_findings is_block is_warning
scope_drift_from-reports i [] = (refl, refl)
scope_drift_from-reports i (f ∷ fs) =
    let ih = scope_drift_from-reports i fs in
    let e = disallowed-is_empty f i.disallowed_paths in ground arith

-- The files that a scope check reports with severity block are the disallowed ones, and those with
-- severity warning the ones outside the allowed paths, in order, each as often as it was changed.
pub detect_scope_drift-reports :
    (i : ScopeDriftInput)
    → (evidence_of (filter is_block (detect_scope_drift i))
        ≡ singles (filter (is_disallowed i) i.changed_files))
      × (evidence_of (filter is_warning (detect_scope_drift i))
          ≡ singles (filter (is_outside i) i.changed_files))
unfolding detect_scope_drift
detect_scope_drift-reports i = scope_drift_from-reports i i.changed_files

destructive_findings-reports :
    (c : String)
    → (evidence_of (destructive_findings c)
        ≡ (if test_any destructive_patterns c then (c ∷ []) ∷ [] else []))
      × All (λ d. is_block d ≡ true) (destructive_findings c)
unfolding destructive_findings is_block
destructive_findings-reports c = elim (Bool-cases (test_any destructive_patterns c)) [
  | inl e ↦ rw e (refl, (refl, tt))
  | inr e ↦ rw e (refl, tt)
]

command_findings-reports :
    (c : String) (p : String → Bool) (bs : List String)
    → contains bs "" ≡ false
    → (evidence_of (command_findings c (find p bs))
        ≡ (if any p bs || test_any destructive_patterns c then (c ∷ []) ∷ [] else []))
      × All (λ d. is_block d ≡ true) (command_findings c (find p bs))
unfolding command_findings is_block
command_findings-reports c p [] h = destructive_findings-reports c
command_findings-reports c p (b ∷ bs) h = elim (Bool-cases (p b)) [
  | inl e ↦ rw e (let k : (b == "") ≡ false = ground arith in rw k (refl, (refl, tt)))
  | inr e ↦ rw e (command_findings-reports c p bs (ground arith))
]

singles-filter :
    (p : String → Bool) (c : String) (cs : List String)
    → (if p c then (c ∷ []) ∷ [] else []) ++ singles (filter p cs) ≡ singles (filter p (c ∷ cs))
singles-filter p c cs = ground arith

module _ (to_lower_case : String → String) where
  -- Some blocked command is the command or its beginning, or a destructive pattern is found in it.
  abbrev pub is_dangerous : MethodDriftInput → String → Bool
  is_dangerous i c =
      any (λ b. is_blocked_by to_lower_case c b) i.blocked_commands
      || test_any destructive_patterns c

  method_drift_from-reports :
      (i : MethodDriftInput) (cs : List String)
      → contains i.blocked_commands "" ≡ false
      → (evidence_of (method_drift_from to_lower_case i cs) ≡ singles (filter (is_dangerous i) cs))
        × All (λ d. is_block d ≡ true) (method_drift_from to_lower_case i cs)
  unfolding method_drift_from method_findings
  method_drift_from-reports i [] h = (refl, tt)
  method_drift_from-reports i (c ∷ cs) h =
      let (e, a) =
        command_findings-reports c (λ b. is_blocked_by to_lower_case c b) i.blocked_commands h in
      let (es, as_) = method_drift_from-reports i cs h in
      let now = method_findings to_lower_case i c in
      let later = method_drift_from to_lower_case i cs in
      (
        map-append (λ (d : DriftFinding). d.evidence) now later
            ∙ rw (e, es) (singles-filter (is_dangerous i) c cs),
        All-append (λ d. is_block d ≡ true) now later a as_,
      )

  -- Where no blocked command is the empty text, the commands that a method check reports are those
  -- that a blocked command begins or that hold a destructive pattern, in order, each as often as it
  -- was run, and always with severity block.
  pub detect_method_drift-reports :
      (i : MethodDriftInput)
      → contains i.blocked_commands "" ≡ false
      → (evidence_of (detect_method_drift to_lower_case i)
          ≡ singles (filter (is_dangerous i) i.commands_run))
        × All (λ d. is_block d ≡ true) (detect_method_drift to_lower_case i)
  unfolding detect_method_drift
  detect_method_drift-reports i h = method_drift_from-reports i i.commands_run h
