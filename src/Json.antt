-- ===== src/Json.antt =====
-- kernel/state-ledger/index.ts: `stableStringify`, over the JSON values that the ledger stores.
-- Numbers are the non-negative integers. `JSON.stringify` of a text escapes quotes, backslashes and
-- control characters; keys are ordered by code points.
pub mod Order
mod Tests
use Prim.Native.Char.{Char, code}
use Prim.Native.String
use avorelo.Common.{
  ℕ, zero, suc, ◌+◌, String, Bool, true, false, List, [], ◌∷◌, map, if◌then◌else◌, ltb, nat_beq,
  ◌&◌, join, text_lt, get_or,
}
use Prim.Native.Nat.{◌/◌, ◌%◌}
use mathlib.Core.Option.{Option, none, some}

-- An object's fields are a list of keys and values; a JavaScript object has distinct keys.
mutual
  pub data Json : Type 0 where
    null : Json
    bool : Bool → Json
    num : ℕ → Json
    str : String → Json
    arr : Items → Json
    obj : Fields → Json

  pub data Items : Type 0 where
    nil : Items
    cons : Json → Items → Items

  pub data Fields : Type 0 where
    end : Fields
    field : String → Json → Fields → Fields

-- The hexadecimal, and so the decimal, digit of a number below 16.
digit_in : List String → ℕ → String
digit_in [] n = ""
digit_in (d ∷ ds) zero = d
digit_in (d ∷ ds) (suc n) = digit_in ds n

digit : ℕ → String
unfolding digit_in
digit n =
    digit_in
      ("0" ∷ "1" ∷ "2" ∷ "3" ∷ "4" ∷ "5" ∷ "6" ∷ "7" ∷ "8" ∷ "9" ∷ "a" ∷ "b" ∷ "c" ∷ "d" ∷ "e" ∷ "f"
        ∷ [])
      n

-- The decimal digits of a number before `out`; a number has no more digits than its successor.
decimal_from : ℕ → ℕ → String → String
decimal_from zero n out = out
decimal_from (suc fuel) n out =
    let rest = decimal_from fuel (n / 10) (digit (n % 10) & out) in
    if ltb n 10 then digit n & out else rest

unfoldable pub decimal : ℕ → String
unfolding decimal_from digit
decimal n = decimal_from (n + 1) n ""

escape : Char → String → String
unfolding digit
escape c rest =
    if nat_beq (code c) 0x22
    then "\\\"" & rest
    else if nat_beq (code c) 0x5c
    then "\\\\" & rest
    else if nat_beq (code c) 8
    then "\\b" & rest
    else if nat_beq (code c) 9
    then "\\t" & rest
    else if nat_beq (code c) 10
    then "\\n" & rest
    else if nat_beq (code c) 12
    then "\\f" & rest
    else if nat_beq (code c) 13
    then "\\r" & rest
    else if ltb (code c) 32
    then "\\u00" & digit (code c / 16) & digit (code c % 16) & rest
    else String.◌∷◌ c rest

escape_all : String → String
unfolding escape
escape_all String.[] = ""
escape_all (String.◌∷◌ c s) = escape c (escape_all s)

-- `JSON.stringify` of a text.
unfoldable pub quote : String → String
unfolding escape_all
quote s = "\"" & escape_all s & "\""

-- `Object.keys(obj).sort()`, with the text of each value beside its key.
insert_field : String → String → List (String × String) → List (String × String)
insert_field k t [] = (k, t) ∷ []
insert_field k t ((l, u) ∷ fs) =
    if text_lt k l then (k, t) ∷ (l, u) ∷ fs else (l, u) ∷ insert_field k t fs

render : String × String → String
render (k, t) = quote k & ":" & t

unfoldable mutual
  unfolding insert_field render quote decimal join

  pub stable_stringify : Json → String
  stable_stringify null = "null"
  stable_stringify (bool true) = "true"
  stable_stringify (bool false) = "false"
  stable_stringify (num n) = decimal n
  stable_stringify (str s) = quote s
  stable_stringify (arr xs) = "[" & join "," (stringify_items xs) & "]"
  stable_stringify (obj fs) = "{" & join "," (map render (sorted_fields fs)) & "}"

  pub stringify_items : Items → List String
  stringify_items nil = []
  stringify_items (cons x xs) = stable_stringify x ∷ stringify_items xs

  pub sorted_fields : Fields → List (String × String)
  sorted_fields end = []
  sorted_fields (field k v fs) = insert_field k (stable_stringify v) (sorted_fields fs)
