-- ===== src/Json/Print.antt =====
-- `JSON.stringify` of a text or a number, and `String(v)` of a number.
use Prim.Native.Nat.{zero, suc}
use Prim.Native.Char.{Char, code}
use xrpl_credit_orchestrator.Prelude.{
  ℕ, ◌/◌, ◌%◌, String, Bool, true, false, List, [], ◌∷◌, ◌+++◌, join, if◌then◌else◌, nat_eq, ltb,
}
use xrpl_credit_orchestrator.Json.{
  Json, null, undefined, bool, num, str, arr, obj, Items, nil, cons, Fields, end, field,
}

abbrev digit : ℕ → String
digit n =
    if nat_eq n 0
    then "0"
    else if nat_eq n 1
    then "1"
    else if nat_eq n 2
    then "2"
    else if nat_eq n 3
    then "3"
    else if nat_eq n 4
    then "4"
    else if nat_eq n 5
    then "5"
    else if nat_eq n 6
    then "6"
    else if nat_eq n 7
    then "7"
    else if nat_eq n 8
    then "8"
    else if nat_eq n 9
    then "9"
    else if nat_eq n 10
    then "a"
    else if nat_eq n 11
    then "b"
    else if nat_eq n 12
    then "c"
    else if nat_eq n 13
    then "d"
    else if nat_eq n 14
    then "e"
    else "f"

-- A number below 2 ^ fuel has fewer digits than that.
decimal_from : ℕ → ℕ → String
decimal_from zero n = ""
decimal_from (suc fuel) n =
    let front = decimal_from fuel (n / 10) in if ltb n 10 then digit n else front +++ digit (n % 10)

-- The decimal digits of a number: `suc n` rounds are enough, since each divides by ten.
unfoldable pub decimal : ℕ → String
unfolding decimal_from
decimal n = decimal_from (suc n) n

-- `JSON.stringify` escapes the quote, the backslash and the control characters.
abbrev escape_char : Char → String
escape_char c =
    if nat_eq (code c) 34
    then "\\\""
    else if nat_eq (code c) 92
    then "\\\\"
    else if nat_eq (code c) 8
    then "\\b"
    else if nat_eq (code c) 9
    then "\\t"
    else if nat_eq (code c) 10
    then "\\n"
    else if nat_eq (code c) 12
    then "\\f"
    else if nat_eq (code c) 13
    then "\\r"
    else if ltb (code c) 32
    then "\\u00" +++ digit (code c / 16) +++ digit (code c % 16)
    else String.◌∷◌ c String.[]

escape : String → String
escape String.[] = ""
escape (String.◌∷◌ c s) = escape_char c +++ escape s

unfoldable pub quote : String → String
unfolding escape
quote s = "\"" +++ escape s +++ "\""

abbrev bool_text : Bool → String
bool_text true = "true"
bool_text false = "false"

-- The texts that an object's fields and an array's elements print as, with commas between them.
unfoldable mutual
  unfolding decimal quote

  -- `JSON.stringify(v)`; of `undefined` it is the text that a template literal shows.
  pub stringify : Json → String
  stringify null = "null"
  stringify undefined = "undefined"
  stringify (bool b) = bool_text b
  stringify (num n) = decimal n
  stringify (str s) = quote s
  stringify (arr vs) = "[" +++ join "," (item_texts vs) +++ "]"
  stringify (obj fs) = "{" +++ join "," (field_texts fs) +++ "}"

  pub item_texts : Items → List String
  item_texts nil = []
  item_texts (cons undefined vs) = "null" ∷ item_texts vs
  item_texts (cons v vs) = stringify v ∷ item_texts vs

  pub field_texts : Fields → List String
  field_texts end = []
  field_texts (field k undefined fs) = field_texts fs
  field_texts (field k v fs) = (quote k +++ ":" +++ stringify v) ∷ field_texts fs

-- `String(v)`; an array is written as JSON, which the code never asks for.
unfoldable pub to_string : Json → String
unfolding stringify
to_string (str s) = s
to_string (obj _) = "[object Object]"
to_string v = stringify v
