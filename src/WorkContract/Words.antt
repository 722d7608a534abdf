-- ===== src/WorkContract/Words.antt =====
-- kernel/work-contract/routing.ts and task-parser.ts: the words that are looked for in a task.
use avorelo.Common.{
  String, Bool, true, false, ◌&&◌, ◌||◌, List, [], ◌∷◌, map, if◌then◌else◌, nat_beq, ◌==◌,
  string_eq, trim, is_space,
}
use avorelo.Regex.{Regex, one, edge, space, optional, any_case, sequence, choice, test, test_any}
use Prim.Native.Char.{code}

pub data TaskType : Type 0 where
  bug_fix feature refactor testing deployment docs security general : TaskType

-- `/\b(a|b|c)\b/i`
unfoldable pub whole_words : List Regex → Regex
unfolding sequence choice
whole_words words = sequence (edge ∷ choice words ∷ edge ∷ [])

-- `/\bword\b/i`
unfoldable pub whole_word : String → Regex
unfolding sequence any_case
whole_word w = sequence (edge ∷ any_case w ∷ edge ∷ [])

-- The pattern that ends in `s?`.
plural : String → Regex
unfolding sequence any_case optional
plural w = sequence (any_case w ∷ optional (any_case "s") ∷ [])

task_keywords_test : TaskType → List Regex
unfolding whole_word sequence optional any_case plural
task_keywords_test bug_fix =
    map whole_word ("fix" ∷ "bug" ∷ "patch" ∷ "regression" ∷ "broken" ∷ "crash" ∷ [])
task_keywords_test feature = map whole_word ("add" ∷ "implement" ∷ "build" ∷ "create" ∷ "new" ∷ [])
task_keywords_test refactor =
    whole_word "refactor"
    ∷ sequence (edge ∷ any_case "clean" ∷ optional space ∷ any_case "up" ∷ edge ∷ [])
    ∷ map whole_word ("rewrite" ∷ "reorganize" ∷ "rename" ∷ [])
task_keywords_test testing =
    sequence (edge ∷ plural "test" ∷ edge ∷ []) ∷ map whole_word ("spec" ∷ "coverage" ∷ "e2e" ∷ [])
task_keywords_test deployment =
    map whole_word ("deploy" ∷ "release" ∷ "publish" ∷ "ship" ∷ "ci" ∷ "cd" ∷ [])
task_keywords_test docs = map whole_word ("doc" ∷ "readme" ∷ "changelog" ∷ "comment" ∷ [])
task_keywords_test security =
    sequence (edge ∷ any_case "secur" ∷ [])
    ∷ whole_word "auth"
    ∷ sequence (edge ∷ any_case "permission" ∷ [])
    ∷ sequence (edge ∷ any_case "vulnerab" ∷ [])
    ∷ whole_word "cve"
    ∷ []
task_keywords_test general = []

-- The first type, in the order of the table, one of whose patterns is found.
first_type : List TaskType → String → TaskType
unfolding task_keywords_test
first_type [] task = general
first_type (t ∷ ts) task =
    let rest = first_type ts task in if test_any (task_keywords_test t) task then t else rest

unfoldable pub classify_task : String → TaskType
unfolding first_type
classify_task task =
    first_type (bug_fix ∷ feature ∷ refactor ∷ testing ∷ deployment ∷ docs ∷ security ∷ []) task

unfoldable pub is_sensitive : String → Bool
unfolding whole_words any_case
is_sensitive text =
    test
      (whole_words (
        map any_case (
          "auth" ∷ "login" ∷ "signup" ∷ "session" ∷ "token" ∷ "billing" ∷ "payment" ∷ "invoice"
          ∷ "subscription" ∷ "webhook" ∷ "secret" ∷ "credential" ∷ "security" ∷ "permission"
          ∷ "drizzle" ∷ "migration" ∷ ".env" ∷ "deploy" ∷ "production" ∷ "prod" ∷ [])))
      text

unfoldable pub names_auth_or_billing : String → Bool
unfolding whole_words any_case
names_auth_or_billing text =
    test
      (whole_words (
        map any_case (
          "auth" ∷ "login" ∷ "signup" ∷ "billing" ∷ "payment" ∷ "invoice" ∷ "subscription"
          ∷ "webhook" ∷ "security" ∷ "permission" ∷ "credential" ∷ [])))
      text

unfoldable pub names_deploy : String → Bool
unfolding whole_words any_case
names_deploy text =
    test
      (whole_words
        (map any_case ("deploy" ∷ "publish" ∷ "release" ∷ "ship to prod" ∷ "production" ∷ [])))
      text

-- `[- ]`
abbrev dash_or_blank : Regex
dash_or_blank = one (λ c. nat_beq (code c) 45 || nat_beq (code c) 32)

unfoldable pub claims_browser_or_production : String → Bool
unfolding whole_words any_case sequence
claims_browser_or_production text =
    test
      (whole_words (
        any_case "browser"
        ∷ any_case "e2e"
        ∷ sequence
            (any_case "end" ∷ dash_or_blank ∷ any_case "to" ∷ dash_or_blank ∷ any_case "end" ∷ [])
        ∷ any_case "in production"
        ∷ any_case "on prod"
        ∷ any_case "live site"
        ∷ sequence (any_case "user" ∷ dash_or_blank ∷ any_case "facing" ∷ [])
        ∷ []))
      text

unfoldable pub has_broad_scope : String → Bool
unfolding whole_words any_case sequence optional choice
has_broad_scope task =
    test
      (whole_words (
        sequence (
          any_case "refactor "
          ∷ optional (any_case "the ")
          ∷ choice (map any_case ("whole" ∷ "entire" ∷ "app" ∷ "codebase" ∷ "everything" ∷ []))
          ∷ [])
        ∷ map any_case
            ("rewrite everything" ∷ "migrate everything" ∷ "overhaul" ∷ "all files" ∷ [])))
      task

-- The two tests of the task itself for a remediation.
unfoldable pub is_remediation_text : String → Bool
unfolding whole_words any_case
is_remediation_text task =
    test (whole_words (map any_case ("fix" ∷ "remediate" ∷ "remove" ∷ "scrub" ∷ "clean up" ∷ [])))
      task
    && test
        (whole_words (
          map any_case
            ("leak" ∷ "leaked" ∷ "exposed" ∷ "secret" ∷ "token" ∷ "key" ∷ "credential" ∷ [])))
        task

has_space : String → Bool
has_space String.[] = false
has_space (String.◌∷◌ c s) = is_space c || has_space s

-- Empty, or no white space that would split the trimmed text.
unfoldable pub is_ambiguous : String → Bool
unfolding trim has_space
is_ambiguous task = let t = trim task in t == "" || (if has_space t then false else true)

unfoldable pub names_build_step : String → Bool
unfolding sequence optional choice any_case plural
names_build_step task =
    test
      (sequence (
        edge
        ∷ optional (any_case "run ")
        ∷ choice (plural "test" ∷ any_case "build" ∷ any_case "lint" ∷ any_case "typecheck" ∷ [])
        ∷ edge
        ∷ []))
      task

unfoldable pub names_tests : String → Bool
unfolding sequence plural
names_tests task = test (sequence (edge ∷ plural "test" ∷ edge ∷ [])) task
