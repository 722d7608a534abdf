-- ===== src/LoopControl/Checks.antt =====
-- capabilities/loop-control/checks-runner.ts and check-detection.ts.
-- A command's run is a parameter: nothing when it exits with 0, else what the error carries. What
-- the detection finds on the disk is its argument.
use avorelo.Common.{
  String, Bool, true, false, ◌&&◌, ◌||◌, Option, none, some, List, [], ◌∷◌, ◌++◌, map,
  if◌then◌else◌, leb, ◌==◌, string_eq, ◌&◌, slice_to, text_length, trim, get_or,
}
use avorelo.LoopControl.{
  LoopCheckResult, CheckType, scope_check, drift_check, shell, passed, failed, skipped, not_run,
}

-- The error that `execSync` throws.
pub record ExecError : Type 0 where
  pub stderr : String
  pub stdout : String
  pub message : String

truncate_output : String → String
unfolding trim text_length slice_to
truncate_output s =
    let trimmed = trim s in
    if leb (text_length trimmed) 200 then trimmed else slice_to 200 trimmed & "...[truncated]"

-- `err.stderr || err.stdout || err.message || "unknown error"`
raw_output : ExecError → String
raw_output err =
    if err.stderr == ""
    then if err.stdout == ""
      then if err.message == "" then "unknown error" else err.message
      else err.stdout
    else err.stderr

unfoldable pub is_left_alone : CheckType → Bool
is_left_alone scope_check = true
is_left_alone drift_check = true
is_left_alone _ = false

-- The outcome of a command for its check.
unfoldable pub with_outcome : LoopCheckResult → Option ExecError → LoopCheckResult
unfolding truncate_output raw_output
with_outcome check none = record check { last_result = passed; last_output = none }
with_outcome check (some err) = record check {
  last_result = failed;
  last_output = some (truncate_output (raw_output err));
}

module _ (exec : String → Option ExecError) where
  unfoldable pub run_check : LoopCheckResult → LoopCheckResult
  unfolding is_left_alone with_outcome
  run_check check =
      let command = get_or check.command "" in
      if is_left_alone check.type
      then check
      else if command == ""
      then record check { last_result = skipped; last_output = some "no command configured" }
      else with_outcome check (exec command)

  unfoldable pub run_all_checks : List LoopCheckResult → List LoopCheckResult
  unfolding run_check
  run_all_checks checks = map (λ c. run_check c) checks

pub record DetectedCheck : Type 0 where
  pub check_id : String
  pub label : String
  pub command : String
  pub source : String

-- The scripts of a package.json that was found and parsed; the empty text is falsy.
pub record Scripts : Type 0 where
  pub test_local : String
  pub test : String
  pub lint : String
  pub typecheck : String
  pub type_check : String

-- What stands in the working directory.
pub record WorkingDirectory : Type 0 where
  pub package_scripts : Option Scripts
  pub has_python_project : Bool
  pub has_go_module : Bool
  pub has_cargo_manifest : Bool

detect_from_scripts : Scripts → List DetectedCheck
detect_from_scripts scripts =
    (if scripts.test_local == ""
      then if scripts.test == "" || scripts.test == "echo \"Error: no test specified\" && exit 1"
        then []
        else record {
          check_id = "chk_npm_test";
          label = "npm test";
          command = "npm test";
          source = "package.json";
        }
          ∷ []
      else record {
        check_id = "chk_npm_test_local";
        label = "npm test:local";
        command = "npm run test:local";
        source = "package.json";
      }
        ∷ [])
    ++ (if scripts.lint == ""
        then []
        else record {
          check_id = "chk_npm_lint";
          label = "npm lint";
          command = "npm run lint";
          source = "package.json";
        }
          ∷ [])
    ++ (let key = if scripts.typecheck == "" then "type-check" else "typecheck" in
        if scripts.typecheck == "" && scripts.type_check == ""
        then []
        else record {
          check_id = "chk_npm_typecheck";
          label = "npm " & key;
          command = "npm run " & key;
          source = "package.json";
        }
          ∷ [])

detect_from_package_json : Option Scripts → List DetectedCheck
unfolding detect_from_scripts
detect_from_package_json none = []
detect_from_package_json (some scripts) = detect_from_scripts scripts

detect_from_python : Bool → List DetectedCheck
detect_from_python found =
    if found
    then record {
      check_id = "chk_pytest";
      label = "pytest";
      command = "python -m pytest";
      source = "python";
    }
      ∷ []
    else []

detect_from_go : Bool → List DetectedCheck
detect_from_go found =
    if found
    then record {
      check_id = "chk_go_test";
      label = "go test";
      command = "go test ./...";
      source = "go.mod";
    }
      ∷ []
    else []

detect_from_rust : Bool → List DetectedCheck
detect_from_rust found =
    if found
    then record {
      check_id = "chk_cargo_test";
      label = "cargo test";
      command = "cargo test";
      source = "Cargo.toml";
    }
      ∷ []
    else []

unfoldable pub detect_check_commands : WorkingDirectory → List DetectedCheck
unfolding detect_from_package_json detect_from_python detect_from_go detect_from_rust
detect_check_commands cwd =
    detect_from_package_json cwd.package_scripts
    ++ detect_from_python cwd.has_python_project
    ++ detect_from_go cwd.has_go_module
    ++ detect_from_rust cwd.has_cargo_manifest

unfoldable pub detected_checks_to_loop_checks : List DetectedCheck → List LoopCheckResult
detected_checks_to_loop_checks detected =
    map
      (λ (d : DetectedCheck). record {
        check_id = d.check_id;
        label = d.label;
        command = some d.command;
        type = shell;
        required = true;
        last_result = not_run;
        last_output = none;
      })
      detected
