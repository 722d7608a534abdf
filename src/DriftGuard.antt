-- ===== src/DriftGuard.antt =====
-- kernel/drift-guard/index.ts: changed files against the allowed and the disallowed paths, and
-- commands that were run against the blocked and the destructive ones.
-- `toLowerCase` of a text with any characters is a parameter.
pub mod Reports
mod Tests
use Prim.Native.Char.{Char, code}
use avorelo.Common.{
  String, Bool, true, false, ◌&&◌, ◌||◌, not, Option, none, some, List, [], ◌∷◌, ◌++◌, any, find,
  is_empty, if◌then◌else◌, nat_beq, ◌==◌, string_eq, ◌&◌, starts_with, ends_with, trim,
}
use avorelo.Regex.{Regex, edge, space, plus, literal, any_case, sequence, test_any}

pub data DriftType : Type 0 where
  scope_drift method_drift proof_drift progress_drift : DriftType

pub data DriftSeverity : Type 0 where
  info warning block : DriftSeverity

pub record DriftFinding : Type 0 where
  pub type : DriftType
  pub severity : DriftSeverity
  pub description : String
  pub evidence : List String
  pub recommendation : String

-- `d.severity === "block"`
unfoldable pub is_block : DriftFinding → Bool
is_block d = elim d.severity [ block ↦ true | _ ↦ false ]

-- `d.severity === "warning"`
unfoldable pub is_warning : DriftFinding → Bool
is_warning d = elim d.severity [ warning ↦ true | _ ↦ false ]

pub record ScopeDriftInput : Type 0 where
  pub changed_files : List String
  pub allowed_paths : List String
  pub disallowed_paths : List String

pub record MethodDriftInput : Type 0 where
  pub commands_run : List String
  pub blocked_commands : List String

unfoldable pub destructive_patterns : List Regex
unfolding plus literal any_case sequence
destructive_patterns =
    sequence (edge ∷ literal "rm" ∷ plus space ∷ literal "-rf" ∷ edge ∷ [])
    ∷ sequence (
        edge
        ∷ literal "git"
        ∷ plus space
        ∷ literal "push"
        ∷ plus space
        ∷ literal "--force"
        ∷ edge
        ∷ [])
    ∷ sequence (
        edge
        ∷ literal "git"
        ∷ plus space
        ∷ literal "reset"
        ∷ plus space
        ∷ literal "--hard"
        ∷ edge
        ∷ [])
    ∷ sequence (edge ∷ any_case "DROP" ∷ plus space ∷ any_case "TABLE" ∷ edge ∷ [])
    ∷ sequence (edge ∷ any_case "DROP" ∷ plus space ∷ any_case "DATABASE" ∷ edge ∷ [])
    ∷ sequence (edge ∷ any_case "TRUNCATE" ∷ plus space ∷ [])
    ∷ sequence (edge ∷ literal "npm" ∷ plus space ∷ literal "publish" ∷ edge ∷ [])
    ∷ sequence (edge ∷ literal "git" ∷ plus space ∷ literal "push" ∷ edge ∷ [])
    ∷ []

is_star : Char → Bool
is_star c = nat_beq (code c) 42

is_slash : Char → Bool
is_slash c = nat_beq (code c) 47

only_stars : String → Bool
unfolding is_star
only_stars String.[] = true
only_stars (String.◌∷◌ c s) = is_star c && only_stars s

-- `^\/?\*+$`
is_glob_tail : String → Bool
unfolding only_stars is_star is_slash
is_glob_tail String.[] = false
is_glob_tail (String.◌∷◌ c s) =
    is_star c && only_stars s || is_slash c && (not (s == "") && only_stars s)

-- `pattern.replace(/\/?\*+$/, "")`
unfoldable pub strip_glob : String → String
unfolding is_glob_tail
strip_glob String.[] = ""
strip_glob (String.◌∷◌ c s) =
    let rest = strip_glob s in if is_glob_tail (String.◌∷◌ c s) then "" else String.◌∷◌ c rest

-- `trimmed.replace(/\/$/, "")`
strip_slash : String → String
unfolding is_slash
strip_slash String.[] = ""
strip_slash (String.◌∷◌ c s) =
    let rest = strip_slash s in if is_slash c && s == "" then "" else String.◌∷◌ c rest

unfoldable pub matches_glob : String → String → Bool
unfolding strip_glob strip_slash
matches_glob file pattern =
    let trimmed = strip_glob pattern in
    if pattern == file
    then true
    else if trimmed == ""
    then false
    else if ends_with pattern "*"
    then starts_with file trimmed || starts_with file (strip_slash trimmed)
    else file == pattern || starts_with file (pattern & "/")

unfoldable pub file_matches_any : String → List String → Bool
file_matches_any file patterns = any (λ p. matches_glob file p) patterns

-- The body of the loop over the changed files: what it pushes for one.
unfoldable pub scope_findings : ScopeDriftInput → String → List DriftFinding
unfolding file_matches_any
scope_findings input file =
    if not (is_empty input.disallowed_paths) && file_matches_any file input.disallowed_paths
    then record {
      type = scope_drift;
      severity = block;
      description = "File in disallowed paths: " & file;
      evidence = file ∷ [];
      recommendation = "Revert changes to this file or adjust the work contract scope.";
    }
      ∷ []
    else if not (is_empty input.allowed_paths) && not (file_matches_any file input.allowed_paths)
    then record {
      type = scope_drift;
      severity = warning;
      description = "File outside allowed paths: " & file;
      evidence = file ∷ [];
      recommendation = "Review whether this file change is necessary for the task.";
    }
      ∷ []
    else []

unfoldable pub scope_drift_from : ScopeDriftInput → List String → List DriftFinding
unfolding scope_findings
scope_drift_from input [] = []
scope_drift_from input (file ∷ files) = scope_findings input file ++ scope_drift_from input files

unfoldable pub detect_scope_drift : ScopeDriftInput → List DriftFinding
unfolding scope_drift_from
detect_scope_drift input = scope_drift_from input input.changed_files

-- What the search of the destructive patterns pushes for a command.
unfoldable pub destructive_findings : String → List DriftFinding
unfolding destructive_patterns
destructive_findings command =
    if test_any destructive_patterns command
    then record {
      type = method_drift;
      severity = block;
      description = "Destructive command detected: " & command;
      evidence = command ∷ [];
      recommendation = "Destructive commands are blocked in loop mode. Stop and review.";
    }
      ∷ []
    else []

-- What is pushed for a command with the blocked one that was found for it; the empty text is falsy.
unfoldable pub command_findings : String → Option String → List DriftFinding
unfolding destructive_findings
command_findings command none = destructive_findings command
command_findings command (some b) =
    if b == ""
    then destructive_findings command
    else record {
      type = method_drift;
      severity = block;
      description = "Blocked command executed: " & command;
      evidence = command ∷ [];
      recommendation = "This command is not allowed by the loop policy. Stop and review.";
    }
      ∷ []

module _ (to_lower_case : String → String) where
  -- The test by which a command is found among the blocked ones.
  unfoldable pub is_blocked_by : String → String → Bool
  is_blocked_by command b =
      let lower = trim (to_lower_case command) in
      let forbidden = trim (to_lower_case b) in
      lower == forbidden || starts_with lower (forbidden & " ")

  -- The body of the loop over the commands.
  unfoldable pub method_findings : MethodDriftInput → String → List DriftFinding
  unfolding is_blocked_by command_findings
  method_findings input command =
      command_findings command (find (λ b. is_blocked_by command b) input.blocked_commands)

  unfoldable pub method_drift_from : MethodDriftInput → List String → List DriftFinding
  unfolding method_findings
  method_drift_from input [] = []
  method_drift_from input (command ∷ commands) =
      method_findings input command ++ method_drift_from input commands

  unfoldable pub detect_method_drift : MethodDriftInput → List DriftFinding
  unfolding method_drift_from
  detect_method_drift input = method_drift_from input input.commands_run
