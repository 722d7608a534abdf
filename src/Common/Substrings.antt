-- ===== src/Common/Substrings.antt =====
-- JavaScript's `startsWith`, `endsWith`, `includes`, `trim` and `padStart`.
use Prim.Native.Char.{Char, code}
use Prim.Native.Nat.{ℕ, zero, suc, ◌-◌}
use Prim.Native.String.{String}
use mathlib.Core.Bool.{Bool, true, false, ◌&&◌, ◌||◌}
use avorelo.Common.Tests.{if◌then◌else◌, nat_beq, leb}
use avorelo.Common.Equality.{◌==◌, string_eq}
use avorelo.Common.Texts.{◌&◌}

unfoldable pub between : ℕ → ℕ → ℕ → Bool
between a b n = leb a n && leb n b

-- White space and line ends, which is also `\s`.
unfoldable pub is_space : Char → Bool
unfolding between
is_space c =
    let n = code c in
    between 9 13 n
    || nat_beq n 32
    || nat_beq n 0xa0
    || nat_beq n 0x1680
    || between 0x2000 0x200a n
    || between 0x2028 0x2029 n
    || nat_beq n 0x202f
    || nat_beq n 0x205f
    || nat_beq n 0x3000
    || nat_beq n 0xfeff

unfoldable pub text_length : String → ℕ
text_length String.[] = 0
text_length (String.◌∷◌ c s) = suc (text_length s)

-- `s.startsWith(prefix)`
unfoldable pub starts_with : String → String → Bool
starts_with s String.[] = true
starts_with String.[] (String.◌∷◌ d prefix) = false
starts_with (String.◌∷◌ c s) (String.◌∷◌ d prefix) =
    let rest = starts_with s prefix in nat_beq (code c) (code d) && rest

-- `s.endsWith(suffix)`
unfoldable pub ends_with : String → String → Bool
ends_with String.[] suffix = suffix == ""
ends_with (String.◌∷◌ c s) suffix =
    let rest = ends_with s suffix in String.◌∷◌ c s == suffix || rest

-- `s.includes(part)`
unfoldable pub includes : String → String → Bool
unfolding starts_with
includes String.[] part = starts_with "" part
includes (String.◌∷◌ c s) part =
    let rest = includes s part in starts_with (String.◌∷◌ c s) part || rest

trim_start : String → String
unfolding is_space
trim_start String.[] = ""
trim_start (String.◌∷◌ c s) = let rest = trim_start s in if is_space c then rest else String.◌∷◌ c s

trim_end : String → String
unfolding is_space
trim_end String.[] = ""
trim_end (String.◌∷◌ c s) =
    let rest = trim_end s in if rest == "" && is_space c then "" else String.◌∷◌ c rest

unfoldable pub trim : String → String
unfolding trim_start trim_end
trim s = trim_end (trim_start s)

repeat : ℕ → String → String
repeat zero s = ""
repeat (suc n) s = s & repeat n s

-- `s.padStart(n, one)`, where `one` is one character.
unfoldable pub pad_start : ℕ → String → String → String
unfolding repeat text_length
pad_start n one s = repeat (n - text_length s) one & s
