-- ===== src/Regex.antt =====
-- JavaScript's regular expressions, as far as the repository's tests use them: literals with and
-- without the flag `i`, classes, groups, alternatives, `?`, `+`, `*`, `\b`, `^` and `$`.
-- `test` reads a text once and keeps the expression that is left to match.
mod Tests
use Prim.Native.Char.{Char, code}
use Prim.Native.String
use avorelo.Common.{
  ℕ, zero, suc, ◌+◌, String, Bool, true, false, ◌&&◌, ◌||◌, not, Option, none, some, List, [], ◌∷◌,
  any, if◌then◌else◌, nat_beq, between, is_space,
}

pub data Regex : Type 0 where
  never : Regex
  nothing : Regex
  one : (Char → Bool) → Regex
  edge : Regex
  begins : Regex
  ends : Regex
  seq : Regex → Regex → Regex
  alt : Regex → Regex → Regex
  many : Regex → Regex

-- `[0-9A-Za-z_]`, the class `\w`.
unfoldable pub is_word : Char → Bool
unfolding between
is_word c =
    between 48 57 (code c)
    || between 65 90 (code c)
    || between 97 122 (code c)
    || nat_beq (code c) 95

is_word_at : Option Char → Bool
unfolding is_word
is_word_at none = false
is_word_at (some c) = is_word c

missing : Option Char → Bool
missing none = true
missing (some c) = false

differ : Bool → Bool → Bool
differ true b = not b
differ false b = b

-- Whether the expression matches the empty text between two characters.
matches_nothing : Regex → Option Char → Option Char → Bool
unfolding is_word_at missing differ
matches_nothing never prev next = false
matches_nothing nothing prev next = true
matches_nothing (one p) prev next = false
matches_nothing edge prev next = differ (is_word_at prev) (is_word_at next)
matches_nothing begins prev next = missing prev
matches_nothing ends prev next = missing next
matches_nothing (seq r t) prev next = matches_nothing r prev next && matches_nothing t prev next
matches_nothing (alt r t) prev next = matches_nothing r prev next || matches_nothing t prev next
matches_nothing (many r) prev next = true

-- `alt` and `seq` that drop what cannot match.
either : Regex → Regex → Regex
either never t = t
either r never = r
either r t = alt r t

andthen : Regex → Regex → Regex
andthen never t = never
andthen nothing t = t
andthen r t = seq r t

-- What is left to match after a character.
after : Regex → Option Char → Char → Regex
unfolding either andthen matches_nothing
after never prev c = never
after nothing prev c = never
after (one p) prev c = if p c then nothing else never
after edge prev c = never
after begins prev c = never
after ends prev c = never
after (seq r t) prev c =
    let later = after t prev c in
    either (andthen (after r prev c) t) (if matches_nothing r prev (some c) then later else never)
after (alt r t) prev c = either (after r prev c) (after t prev c)
after (many r) prev c = andthen (after r prev c) (many r)

-- The search for `r` anywhere in the text, where `left` is what matches begun before still need.
search : Regex → Regex → Option Char → String → Bool
unfolding either after matches_nothing
search r left prev String.[] = matches_nothing (either left r) prev none
search r left prev (String.◌∷◌ c s) =
    let begun = either left r in
    let rest = search r (after begun prev c) (some c) s in
    matches_nothing begun prev (some c) || rest

-- `r.test(s)`
unfoldable pub test : Regex → String → Bool
unfolding search
test r s = search r never none s

unfoldable pub plus : Regex → Regex
plus r = seq r (many r)

unfoldable pub optional : Regex → Regex
optional r = alt r nothing

-- `\s`
abbrev pub space : Regex
space = one is_space

unfoldable pub literal : String → Regex
literal String.[] = nothing
literal (String.◌∷◌ c String.[]) = one (λ d. nat_beq (code c) (code d))
literal (String.◌∷◌ c s) = seq (one (λ d. nat_beq (code c) (code d))) (literal s)

-- A capital of ASCII and its small letter are one.
fold_case : Char → ℕ
unfolding between
fold_case c = if between 65 90 (code c) then code c + 32 else code c

-- A literal under the flag `i`.
unfoldable pub any_case : String → Regex
unfolding fold_case
any_case String.[] = nothing
any_case (String.◌∷◌ c String.[]) = one (λ d. nat_beq (fold_case c) (fold_case d))
any_case (String.◌∷◌ c s) = seq (one (λ d. nat_beq (fold_case c) (fold_case d))) (any_case s)

unfoldable pub sequence : List Regex → Regex
sequence [] = nothing
sequence (r ∷ []) = r
sequence (r ∷ q ∷ rs) = seq r (sequence (q ∷ rs))

unfoldable pub choice : List Regex → Regex
choice [] = never
choice (r ∷ []) = r
choice (r ∷ q ∷ rs) = alt r (choice (q ∷ rs))

-- `patterns.some((p) => p.test(s))`
unfoldable pub test_any : List Regex → String → Bool
unfolding test
test_any patterns s = any (λ p. test p s) patterns

-- `r{0,n}`
unfoldable pub up_to : ℕ → Regex → Regex
unfolding optional
up_to zero r = nothing
up_to (suc n) r = optional (seq r (up_to n r))

-- Any character but these code points.
unfoldable pub none_of : List ℕ → Char → Bool
none_of codes c = not (any (λ n. nat_beq n (code c)) codes)

-- `.`
unfoldable pub dot : Regex
unfolding none_of
dot = one (none_of (10 ∷ 13 ∷ 0x2028 ∷ 0x2029 ∷ []))
