-- ===== src/LoopControl/Policy.antt =====
-- capabilities/loop-control/policy-builder.ts: the bounded policy of a loop.
-- The first eight characters of the random identifier are an argument.
use avorelo.Common.{
  ℕ, suc, ◌+◌, String, true, Bool, false, Option, none, some, List, [], ◌∷◌, ◌++◌, if◌then◌else◌,
  ltb, ◌&◌, pad_start, get_or,
}
use avorelo.Json.{decimal}
use avorelo.LoopControl.{
  LoopMode, single_run, bounded_loop, LoopReadinessStatus, needs_human_gate, CheckType, custom,
  scope_check, LoopCheckResult, not_run, LoopEscalationRule, stop, LoopStopCondition,
  StopConditionType, LoopPolicy, LoopReadinessResult, ReceiptLevel, compact,
}
use avorelo.LoopControl.Checks.{
  WorkingDirectory, detect_check_commands, detected_checks_to_loop_checks,
}

pub record UserCheck : Type 0 where
  pub label : String
  pub command : String
  pub type : Option CheckType

-- The working directory stands for what is found there; an empty path is one not given.
pub record BuildPolicyInput : Type 0 where
  pub readiness : LoopReadinessResult
  pub user_checks : Option (List UserCheck)
  pub user_max_iterations : Option ℕ
  pub user_max_runtime_minutes : Option ℕ
  pub allowed_commands : Option (List String)
  pub blocked_commands : Option (List String)
  pub receipt_level : Option ReceiptLevel
  pub cwd : Option WorkingDirectory

default_escalation_rules : List LoopEscalationRule
default_escalation_rules =
    record {
      condition = "blocked_path_touched";
      action = stop;
      message = "Agent changed a file in the blocked paths. Loop stopped.";
    }
    ∷ record {
      condition = "secret_detected";
      action = stop;
      message = "Secret detected in agent output. Loop stopped.";
    }
    ∷ []

default_stop_conditions : List LoopStopCondition
default_stop_conditions =
    record {
      condition_id = "sc_success";
      type = StopConditionType.success;
      condition = "All required checks passed";
      enabled = true;
    }
    ∷ record {
      condition_id = "sc_repeated";
      type = StopConditionType.failure;
      condition = "Same check failure repeats 2 consecutive iterations";
      enabled = true;
    }
    ∷ record {
      condition_id = "sc_blocked_path";
      type = StopConditionType.safety;
      condition = "File in disallowed paths changed";
      enabled = true;
    }
    ∷ record {
      condition_id = "sc_secret";
      type = StopConditionType.safety;
      condition = "Secret detected in agent output";
      enabled = true;
    }
    ∷ record {
      condition_id = "sc_destructive";
      type = StopConditionType.safety;
      condition = "Destructive command attempted";
      enabled = true;
    }
    ∷ record {
      condition_id = "sc_max_iter";
      type = StopConditionType.budget;
      condition = "Max iterations reached";
      enabled = true;
    }
    ∷ record {
      condition_id = "sc_max_runtime";
      type = StopConditionType.budget;
      condition = "Max runtime exceeded";
      enabled = true;
    }
    ∷ []

unfoldable pub check_id_of : ℕ → String
unfolding pad_start
check_id_of idx = "chk_" & pad_start 2 "0" (decimal idx)

-- The loop over the user's checks, from the index that the first of them gets.
user_checks_from : ℕ → List UserCheck → List LoopCheckResult
unfolding check_id_of
user_checks_from idx [] = []
user_checks_from idx (uc ∷ ucs) =
    record {
      check_id = check_id_of idx;
      label = uc.label;
      command = some uc.command;
      type = get_or uc.type custom;
      required = true;
      last_result = not_run;
      last_output = none;
    }
    ∷ user_checks_from (suc idx) ucs

detected_checks_from : ℕ → List LoopCheckResult → List LoopCheckResult
unfolding check_id_of
detected_checks_from idx [] = []
detected_checks_from idx (dc ∷ dcs) =
    record dc { check_id = check_id_of idx } ∷ detected_checks_from (suc idx) dcs

-- The check that is added last, with its index.
unfoldable pub scope_check_at : ℕ → LoopCheckResult
unfolding check_id_of
scope_check_at idx = record {
  check_id = check_id_of idx;
  label = "scope check";
  command = none;
  type = scope_check;
  required = true;
  last_result = not_run;
  last_output = none;
}

detected_or_none : Option WorkingDirectory → List LoopCheckResult
unfolding detected_checks_from detect_check_commands detected_checks_to_loop_checks
detected_or_none none = []
detected_or_none (some cwd) =
    detected_checks_from 1 (detected_checks_to_loop_checks (detect_check_commands cwd))

-- The checks before the last one.
pub given_checks : List UserCheck → Option WorkingDirectory → List LoopCheckResult
unfolding user_checks_from detected_or_none
given_checks [] cwd = detected_or_none cwd
given_checks (uc ∷ ucs) cwd = user_checks_from 1 (uc ∷ ucs)

pub count : List LoopCheckResult → ℕ
count [] = 0
count (c ∷ cs) = suc (count cs)

-- The last check is numbered on.
unfoldable pub with_scope_check : List LoopCheckResult → List LoopCheckResult
unfolding count scope_check_at
with_scope_check given = given ++ scope_check_at (count given + 1) ∷ []

unfoldable pub build_checks :
    Option (List UserCheck) → Option WorkingDirectory → List LoopCheckResult
unfolding given_checks with_scope_check
build_checks user_checks cwd = with_scope_check (given_checks (get_or user_checks []) cwd)

-- `classification === "needs_human_gate" || classification === "blocked"`
unfoldable pub is_gated : LoopReadinessStatus → Bool
is_gated needs_human_gate = true
is_gated LoopReadinessStatus.blocked = true
is_gated _ = false

unfoldable pub is_single_run : LoopMode → Bool
is_single_run single_run = true
is_single_run bounded_loop = false

-- `Math.min(given, most)` where the user gives a number, else the recommended one.
unfoldable pub limited : Option ℕ → ℕ → ℕ → ℕ
limited none most recommended = recommended
limited (some n) most recommended = if ltb n most then n else most

unfoldable pub mode_for : LoopReadinessResult → LoopMode
unfolding is_gated
mode_for readiness =
    if is_gated readiness.classification then single_run else readiness.recommended_mode

unfoldable pub max_iterations_for : BuildPolicyInput → ℕ
unfolding is_gated limited mode_for is_single_run
max_iterations_for input =
    let readiness = input.readiness in
    let recommended =
      if is_gated readiness.classification then 1 else readiness.recommended_max_iterations in
    if is_single_run (mode_for readiness)
    then 1
    else limited input.user_max_iterations 10 recommended

unfoldable pub build_loop_policy : String → BuildPolicyInput → LoopPolicy
unfolding mode_for max_iterations_for limited build_checks default_stop_conditions
    default_escalation_rules
build_loop_policy uuid8 input = record {
  policy_id = "pol_" & uuid8;
  mode = mode_for input.readiness;
  max_iterations = max_iterations_for input;
  max_runtime_minutes =
      limited input.user_max_runtime_minutes 60 input.readiness.recommended_max_runtime_minutes;
  allowed_commands = get_or input.allowed_commands [];
  blocked_commands =
      get_or input.blocked_commands ("npm publish" ∷ "git push" ∷ "git push --force" ∷ []);
  required_checks = build_checks input.user_checks input.cwd;
  stop_conditions = default_stop_conditions;
  escalation_rules = default_escalation_rules;
  receipt_level = get_or input.receipt_level compact;
  risk_tier = input.readiness.risk_tier;
}
