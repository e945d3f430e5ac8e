-- ===== src/Logger.antt =====
-- packages/logger/src/index.js: the line that is logged, with secrets removed. A text's length counts
-- its characters.
pub mod Secrets
use Prim.Native.Nat.{zero, suc}
use Prim.Native.Char.{Char, code}
use xrpl_credit_orchestrator.Prelude.{
  ℕ, ◌+◌, ◌-◌, String, Bool, true, false, not, ◌&&◌, ◌||◌, Option, none, some, List, [], ◌∷◌, ◌+++◌,
  includes, is_space, first_chars, starts_with, to_lower, truthy, if◌then◌else◌, nat_eq, ltb, leb,
}
use xrpl_credit_orchestrator.Json.{
  Json, null, undefined, bool, num, str, arr, obj, Items, nil, cons, Fields, end, field,
}
use xrpl_credit_orchestrator.Json.Field.{truthy_json, put, or_json}
use xrpl_credit_orchestrator.Json.Print.{stringify}

abbrev pub redact_keys : List String
redact_keys =
    "seed" ∷ "secret" ∷ "mnemonic" ∷ "private_key" ∷ "privateKey" ∷ "password" ∷ "passwordHash"
    ∷ "password_hash" ∷ "TxnSignature" ∷ "tx_blob" ∷ "signedTxBlob" ∷ "SigningPubKey"
    ∷ "accessToken" ∷ "token" ∷ "authorization" ∷ "XRPL_SEEDS_JSON" ∷ "SEEDS_JSON"
    ∷ "AUTH_TOKEN_SECRET" ∷ []

unfoldable pub is_redacted_key : String → Bool
is_redacted_key key = includes redact_keys key

abbrev pub text_length : String → ℕ
text_length String.[] = 0
text_length (String.◌∷◌ _ s) = suc (text_length s)

abbrev pub redacted : String → String
redacted s = if leb (text_length s) 4 then "[REDACTED]" else first_chars 3 s +++ "...[REDACTED]"

-- `redactValue` under a key that is to be redacted
abbrev pub redact_value : Json → Json
redact_value (str s) = str (redacted s)
redact_value v = v

-- How many characters from the start are of a class.
abbrev pub run_length : (ℕ → Bool) → String → ℕ
run_length p String.[] = 0
run_length p (String.◌∷◌ c s) = if p (code c) then suc (run_length p s) else 0

abbrev pub rest_of : ℕ → String → String
rest_of zero s = s
rest_of (suc n) String.[] = ""
rest_of (suc n) (String.◌∷◌ c s) = rest_of n s

-- `[A-Za-z0-9]`
abbrev is_alnum : ℕ → Bool
is_alnum n = (leb 65 n && leb n 90) || (leb 97 n && leb n 122) || (leb 48 n && leb n 57)

-- The length of a match of `/s[A-Za-z0-9]{28,}/` at the start, or zero.
abbrev pub seed_match : String → ℕ
seed_match String.[] = 0
seed_match (String.◌∷◌ c s) =
    if nat_eq (code c) 115 && leb 28 (run_length is_alnum s) then suc (run_length is_alnum s) else 0

-- `["\s:=]` and `[^\s,"}{]`
abbrev is_separator : ℕ → Bool
is_separator n = nat_eq n 34 || is_space n || nat_eq n 58 || nat_eq n 61

abbrev is_secret_char : ℕ → Bool
is_secret_char n = not (is_space n || nat_eq n 44 || nat_eq n 34 || nat_eq n 125 || nat_eq n 123)

-- With `n` separators before it and one at least, the match that the longest retreat allows.
abbrev retreat : ℕ → String → ℕ
retreat zero s = 0
retreat (suc zero) s = 0
retreat (suc (suc n)) s =
    let run = run_length is_secret_char (rest_of (suc n) s) in
    if ltb 0 run then suc n + run else retreat (suc n) s

-- The separators and the value, from the start of a text.
abbrev after_secret : String → ℕ
after_secret s =
    let separators = run_length is_separator s in
    let run = run_length is_secret_char (rest_of separators s) in
    if nat_eq separators 0 then 0 else if ltb 0 run then separators + run else retreat separators s

-- The length of a match of `/secret["\s:=]+[^\s,"}{]+/i` at the start, or zero.
abbrev pub secret_match : String → ℕ
secret_match s =
    let tail = after_secret (rest_of 6 s) in
    if starts_with (to_lower s) "secret" && ltb 0 tail then 6 + tail else 0

-- `s.replace(pattern, '[REDACTED]')` of every match, from left to right; `skip` characters of the last
-- match are still to come.
unfoldable pub replace_matches : (String → ℕ) → ℕ → String → String
replace_matches match skip String.[] = ""
replace_matches match (suc skip) (String.◌∷◌ c s) = replace_matches match skip s
replace_matches match zero (String.◌∷◌ c s) =
    let n = match (String.◌∷◌ c s) in
    let tail = replace_matches match (n - 1) s in
    if nat_eq n 0 then String.◌∷◌ c tail else "[REDACTED]" +++ tail

unfoldable pub redact_text : String → String
redact_text s = replace_matches secret_match 0 (replace_matches seed_match 0 s)

-- `depth` is left of the eleven levels that are looked into.
unfoldable mutual
  pub redact_object : ℕ → Json → Json
  redact_object zero v = str "[MAX_DEPTH]"
  redact_object (suc depth) (str s) = str (redact_text s)
  redact_object (suc depth) (arr vs) = arr (redact_items depth vs)
  redact_object (suc depth) (obj fs) = obj (redact_fields depth fs)
  redact_object (suc depth) v = v

  pub redact_items : ℕ → Items → Items
  redact_items depth nil = nil
  redact_items depth (cons v vs) = cons (redact_object depth v) (redact_items depth vs)

  pub redact_fields : ℕ → Fields → Fields
  redact_fields depth end = end
  redact_fields depth (field k v fs) =
      field k (if is_redacted_key k then redact_value v else redact_object depth v)
        (redact_fields depth fs)

pub data Level : Type 0 where
  info warn error audit : Level

abbrev pub level_text : Level → String
level_text info = "info"
level_text warn = "warn"
level_text error = "error"
level_text audit = "audit"

-- Where a line is written.
pub data Sink : Type 0 where
  console_log console_warn console_error stdout stderr : Sink

-- `createLogger(service, options)`, whose state is the current trace.
pub record Logger : Type 0 where
  pub service : String
  pub is_dev : Bool
  pub trace_id : Option String

abbrev pub add_trace : Option String → Json → Json
add_trace none line = line
add_trace (some id) line = if truthy (some id) then put "traceId" (str id) line else line

-- `...(data ? { data: redactObject(data) } : {})`
abbrev pub add_details : Json → Json → Json
add_details details line =
    if truthy_json details then put "data" (redact_object 11 details) line else line

-- `formatLog`, at an instant.
unfoldable pub format_log : String → Level → Logger → String → Json → String
format_log ts level logger msg details = stringify (
    add_details details (
      add_trace logger.trace_id (
        obj (
          field "ts" (str ts) (
            field "level" (str (level_text level))
              (field "service" (str logger.service) (field "msg" (str msg) end)))))))

-- An audit line goes to the error stream everywhere.
abbrev pub sink_of : Bool → Level → Sink
sink_of true info = console_log
sink_of true warn = console_warn
sink_of true error = console_error
sink_of false info = stdout
sink_of false warn = stderr
sink_of false error = stderr
sink_of _ audit = stderr

unfoldable pub log : String → Level → String → Json → Logger → Sink × String
log ts level msg details logger =
    (sink_of logger.is_dev level, format_log ts level logger msg details)

abbrev pub set_trace_id : Option String → Logger → Logger
set_trace_id id logger = record logger { trace_id = id }
