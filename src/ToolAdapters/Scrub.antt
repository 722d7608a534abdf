-- ===== src/ToolAdapters/Scrub.antt =====
-- `sanitizeErrorSummary` of kernel/tool-adapters/task-queue.ts. A regular expression is a function
-- that gives the length of its match at the head of a text, 0 where it does not match; a text's
-- length counts code points.
use Prim.Native.Char.{Char, code}
use avorelo.Common.{
  ℕ, zero, suc, ◌+◌, ◌-◌, String, Bool, true, false, ◌&&◌, ◌||◌, if◌then◌else◌, leb, nat_beq, ◌&◌,
  slice_to,
}

between : ℕ → ℕ → ℕ → Bool
between a b n = leb a n && leb n b

-- `[A-Za-z0-9]`
is_alphanumeric : Char → Bool
unfolding between
is_alphanumeric c = between 65 90 (code c) || between 97 122 (code c) || between 48 57 (code c)

-- `\s`
is_space : Char → Bool
unfolding between
is_space c =
    between 9 13 (code c)
    || nat_beq (code c) 32
    || nat_beq (code c) 0xa0
    || nat_beq (code c) 0x1680
    || between 0x2000 0x200a (code c)
    || between 0x2028 0x2029 (code c)
    || nat_beq (code c) 0x202f
    || nat_beq (code c) 0x205f
    || nat_beq (code c) 0x3000
    || nat_beq (code c) 0xfeff

-- How many characters at the head pass a test.
run_length : (Char → Bool) → String → ℕ
run_length p String.[] = 0
run_length p (String.◌∷◌ c s) = let rest = run_length p s in if p c then suc rest else 0

-- The length of `prefix`, then one match at least of `then`.
match_after : String → (String → ℕ) → String → ℕ
match_after String.[] next s = next s
match_after (String.◌∷◌ c prefix) next String.[] = 0
match_after (String.◌∷◌ c prefix) next (String.◌∷◌ d s) =
    let rest = match_after prefix next s in
    if nat_beq (code c) (code d) && leb 1 rest then suc rest else 0

drop : ℕ → String → String
drop zero s = s
drop (suc n) String.[] = ""
drop (suc n) (String.◌∷◌ c s) = drop n s

-- `\s+[^\s]+`
match_word_after_space : String → ℕ
unfolding run_length is_space drop
match_word_after_space s =
    let spaces = run_length is_space s in
    let word = run_length (λ c. if is_space c then false else true) (drop spaces s) in
    if leb 1 spaces && leb 1 word then spaces + word else 0

-- `s.replace(/m/g, by)`, with the number of characters of a match still to skip.
replace_all : (String → ℕ) → String → ℕ → String → String
replace_all m by skip String.[] = ""
replace_all m by (suc skip) (String.◌∷◌ c s) = replace_all m by skip s
replace_all m by zero (String.◌∷◌ c s) =
    let matched = m (String.◌∷◌ c s) in
    let rest = replace_all m by (matched - 1) s in
    if leb 1 matched then by & rest else String.◌∷◌ c rest

unfoldable pub sanitize_error_summary : String → String
unfolding replace_all match_after run_length is_alphanumeric match_word_after_space slice_to
sanitize_error_summary error =
    let keys =
      replace_all (match_after "sk-" (run_length is_alphanumeric)) "[REDACTED_API_KEY]" 0 error in
    let tokens =
      replace_all (match_after "ghp_" (run_length is_alphanumeric)) "[REDACTED_GH_TOKEN]" 0 keys in
    slice_to 500
      (replace_all (match_after "Bearer" match_word_after_space) "Bearer [REDACTED]" 0 tokens)
