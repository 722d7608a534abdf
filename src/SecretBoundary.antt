-- ===== src/SecretBoundary.antt =====
-- capabilities/secret-boundary/safe-run.ts: whether a task or a command may run, and the summary of
-- kernel/work-contract/routing.ts that routing reads. The detector of secrets is a parameter: the
-- codes of what it finds in a text.
pub mod SafeRun
mod Tests
use Prim.Native.Char.{code}
use avorelo.Common.{
  String, Bool, true, false, ◌&&◌, not, Option, none, some, List, [], ◌∷◌, map, is_empty, dedup,
  string_eq, if◌then◌else◌, nat_beq,
}
use avorelo.Regex.{
  Regex, one, edge, ends, many, space, plus, optional, literal, any_case, sequence, choice,
  test_any, is_word, up_to, none_of, dot,
}
use avorelo.WorkContract.Words.{whole_word, whole_words}
use avorelo.WorkContract.{SafeRunDecision, allow, require_approval, block, SafetyBoundarySummary}

pub data SafeRunCategory : Type 0 where
  safe_local secret_exfiltration deploy_or_publish destructive : SafeRunCategory
  remediation secret_material unclassified : SafeRunCategory

pub record SafeRunResult : Type 0 where
  pub decision : SafeRunDecision
  pub category : SafeRunCategory
  pub reason_codes : List String
  pub safe_alternative : Option String

-- `[^\n]`
abbrev pub on_line : Regex
unfolding none_of
on_line = one (none_of (10 ∷ []))

-- `[^.\n]{0,40}`
near : Regex
unfolding up_to none_of
near = up_to 40 (one (none_of (46 ∷ 10 ∷ [])))

any_of : List String → Regex
unfolding choice any_case
any_of words = choice (map any_case words)

exfiltration : List Regex
unfolding sequence any_of any_case optional plus choice up_to near whole_word whole_words literal
exfiltration =
    sequence
      (edge ∷ any_case "print" ∷ any_of ("env" ∷ " my env" ∷ " m env" ∷ " environment" ∷ []) ∷ [])
    ∷ sequence (edge ∷ any_case "cat" ∷ edge ∷ many on_line ∷ any_case ".env" ∷ [])
    ∷ sequence (
        edge
        ∷ any_of ("echo" ∷ "printf" ∷ [])
        ∷ edge
        ∷ many on_line
        ∷ literal "$"
        ∷ optional (literal "{")
        ∷ many (one is_word)
        ∷ any_of ("SECRET" ∷ "TOKEN" ∷ "KEY" ∷ "PASSWORD" ∷ [])
        ∷ [])
    ∷ sequence (
        edge
        ∷ any_of ("show" ∷ "reveal" ∷ "dump" ∷ "print" ∷ "leak" ∷ "exfiltrate" ∷ "display" ∷ [])
        ∷ edge
        ∷ near
        ∷ edge
        ∷ choice (
            any_of ("secret" ∷ "secrets" ∷ "token" ∷ "credential" ∷ "password" ∷ [])
            ∷ sequence (
                any_case "api"
                ∷ optional (choice (literal "_" ∷ space ∷ literal "-" ∷ []))
                ∷ any_case "key"
                ∷ [])
            ∷ sequence (any_case "env" ∷ optional (any_case "ironment") ∷ any_case " var" ∷ [])
            ∷ [])
        ∷ [])
    ∷ sequence (
        edge
        ∷ any_of ("read" ∷ "cat" ∷ "type" ∷ [])
        ∷ edge
        ∷ up_to 30 on_line
        ∷ any_of ("id_rsa" ∷ ".pem" ∷ "private key" ∷ ".ssh/" ∷ [])
        ∷ [])
    ∷ whole_word "printenv"
    ∷ sequence (edge ∷ any_case "env" ∷ many space ∷ ends ∷ [])
    ∷ []

deploy : List Regex
unfolding sequence any_of any_case plus whole_words dot
deploy =
    whole_words (map any_case ("deploy" ∷ "publish" ∷ "release" ∷ "ship" ∷ []))
    ∷ sequence (edge ∷ any_case "npm" ∷ plus space ∷ any_case "publish" ∷ edge ∷ [])
    ∷ sequence (
        edge
        ∷ any_of ("railway" ∷ "vercel" ∷ "netlify" ∷ "fly" ∷ [])
        ∷ edge
        ∷ many on_line
        ∷ edge
        ∷ any_of ("up" ∷ "deploy" ∷ "--prod" ∷ [])
        ∷ [])
    ∷ sequence (
        edge
        ∷ any_case "git"
        ∷ plus space
        ∷ any_case "push"
        ∷ edge
        ∷ many dot
        ∷ any_case "--force"
        ∷ [])
    ∷ []

destruction : List Regex
unfolding sequence any_of any_case plus whole_word literal choice
destruction =
    sequence (
      edge
      ∷ any_case "rm"
      ∷ plus space
      ∷ any_case "-rf"
      ∷ plus space
      ∷ choice (literal "/" ∷ literal "~" ∷ [])
      ∷ [])
    ∷ whole_word "mkfs"
    ∷ sequence (edge ∷ any_case "dd" ∷ plus space ∷ any_case "if=" ∷ [])
    ∷ sequence (
        edge
        ∷ any_of ("drop" ∷ "truncate" ∷ [])
        ∷ plus space
        ∷ any_of ("database" ∷ "table" ∷ [])
        ∷ edge
        ∷ [])
    ∷ literal ":(){:|:&};:"
    ∷ []

local_proof : List Regex
unfolding sequence any_of any_case optional whole_word whole_words
local_proof =
    sequence (
      edge
      ∷ optional (any_of ("run" ∷ "npm run" ∷ []))
      ∷ many space
      ∷ any_case "test"
      ∷ optional (any_case "s")
      ∷ edge
      ∷ [])
    ∷ sequence (
        edge
        ∷ any_case "npm "
        ∷ optional (any_case "run ")
        ∷ any_of ("test" ∷ "build" ∷ "lint" ∷ "typecheck" ∷ [])
        ∷ edge
        ∷ [])
    ∷ whole_words (map any_case ("build" ∷ "lint" ∷ "typecheck" ∷ "compile" ∷ []))
    ∷ whole_word "node --test"
    ∷ whole_word "dogfood"
    ∷ []

remedies : List Regex
unfolding sequence any_of any_case optional near whole_word
remedies =
    sequence (
      edge
      ∷ any_of ("fix" ∷ "remediate" ∷ "remove" ∷ "rotate" ∷ "clean up" ∷ "scrub" ∷ [])
      ∷ edge
      ∷ near
      ∷ edge
      ∷ optional (any_of ("leaked" ∷ "exposed" ∷ "hardcoded" ∷ []))
      ∷ many space
      ∷ any_of ("secret" ∷ "token" ∷ "key" ∷ "credential" ∷ "password" ∷ [])
      ∷ edge
      ∷ [])
    ∷ whole_word "gitignore"
    ∷ whole_word ".env.example"
    ∷ []

unfoldable pub exfiltrates : String → Bool
unfolding exfiltration
exfiltrates s = test_any exfiltration s

unfoldable pub destroys : String → Bool
unfolding destruction
destroys s = test_any destruction s

unfoldable pub deploys : String → Bool
unfolding deploy
deploys s = test_any deploy s

unfoldable pub proves_locally : String → Bool
unfolding local_proof
proves_locally s = test_any local_proof s

unfoldable pub remediates : String → Bool
unfolding remedies
remediates s = test_any remedies s

unfoldable pub decided :
    SafeRunDecision → SafeRunCategory → List String → Option String → SafeRunResult
decided decision category codes alternative = record {
  decision = decision;
  category = category;
  reason_codes = codes;
  safe_alternative = alternative;
}

-- The branches after the destructive commands, for a text that carries a secret or not.
unfoldable pub evaluate_harmless : String → Bool → SafeRunResult
unfolding decided deploys proves_locally
evaluate_harmless s carries_secret =
    if deploys s
    then decided require_approval (if carries_secret then secret_material else deploy_or_publish)
        ((if carries_secret
            then "deploy_with_secret_material_requires_approval"
            else "deploy_or_publish_requires_approval")
          ∷ [])
        (some "Run local proof first; supply secrets via environment, not inline.")
    else if carries_secret
    then decided require_approval secret_material ("command_carries_secret_material" ∷ [])
        (some "Reference the secret via env placeholder; do not inline it.")
    else if proves_locally s
    then decided allow safe_local ("safe_local_proof_command" ∷ []) none
    else decided allow unclassified ("no_secret_risk_detected" ∷ []) none

module _ (detect_in_string : String → List String) where
  unfoldable pub evaluate_safe_run : String → SafeRunResult
  unfolding decided evaluate_harmless remediates exfiltrates destroys
  evaluate_safe_run s =
      if remediates s && not (exfiltrates s)
      then decided allow remediation ("safe_remediation_plan_only" ∷ "no_raw_value_exposure" ∷ [])
          none
      else if exfiltrates s
      then decided block secret_exfiltration ("secret_exfiltration_blocked" ∷ "fail_closed" ∷ []) (
          some
            "Use a SafeReference to the value (avorelo secret-boundary scan); never print raw secrets.")
      else if destroys s
      then decided require_approval destructive ("destructive_command_requires_approval" ∷ [])
          (some "Confirm scope explicitly before running destructive commands.")
      else evaluate_harmless s (not (is_empty (detect_in_string s)))

  unfoldable pub safety_summary : String → SafetyBoundarySummary
  unfolding evaluate_safe_run
  safety_summary task = record {
    secret_risk_codes = dedup (detect_in_string task);
    safe_run_decision = (evaluate_safe_run task).decision;
  }
