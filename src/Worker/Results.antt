-- ===== src/Worker/Results.antt =====
-- The result codes of apps/ledger-worker/src/tx-executor.js and what they call for.
use xrpl_credit_orchestrator.Prelude.{
  String, Bool, true, false, not, ◌||◌, Option, none, some, List, [], ◌∷◌, ◌==◌, starts_with,
  has_part, to_lower, truthy_text, if◌then◌else◌,
}

pub data Class : Type 0 where
  success retry manual_review fail : Class

-- `RESULT_CLASSIFICATION`
abbrev pub result_classification : List (String × Class)
result_classification =
    ("tesSUCCESS", success)
    ∷ ("terQUEUED", success)
    ∷ ("terPRE_SEQ", retry)
    ∷ ("tefPAST_SEQ", retry)
    ∷ ("telCAN_NOT_QUEUE", retry)
    ∷ ("terINSUF_FEE_B", retry)
    ∷ ("telINSUF_FEE_P", retry)
    ∷ ("tecUNFUNDED", manual_review)
    ∷ ("tecNO_PERMISSION", manual_review)
    ∷ ("tecNO_AUTH", manual_review)
    ∷ ("tefNOT_ENABLED", manual_review)
    ∷ ("tecINVARIANT_FAILED", manual_review)
    ∷ ("tecUNFUNDED_PAYMENT", manual_review)
    ∷ ("tecPATH_DRY", manual_review)
    ∷ ("tecNO_LINE", manual_review)
    ∷ ("temMALFORMED", fail)
    ∷ ("temBAD_AMOUNT", fail)
    ∷ ("temBAD_FEE", fail)
    ∷ ("temINVALID", fail)
    ∷ ("temDISABLED", fail)
    ∷ ("temBAD_SEQUENCE", fail)
    ∷ ("temREDUNDANT", fail)
    ∷ ("temBAD_EXPIRATION", fail)
    ∷ []

abbrev pub class_in : List (String × Class) → String → Option Class
class_in [] code = none
class_in ((k, c) ∷ rest) code = if k == code then some c else class_in rest code

-- The class of a code that is not in the table, by its prefix.
abbrev pub class_by_prefix : String → Class
class_by_prefix code =
    if starts_with code "tes"
    then success
    else if starts_with code "ter"
    then retry
    else if starts_with code "tel"
    then retry
    else if starts_with code "tec"
    then manual_review
    else fail

unfoldable pub classify_result : String → Class
classify_result code =
    if not (truthy_text code) || code == "unknown"
    then fail
    else elim (class_in result_classification code) [ some c ↦ c | none ↦ class_by_prefix code ]

unfoldable pub is_retryable_error : String → Bool
is_retryable_error message =
    let m = to_lower message in
    has_part m "timeout"
    || has_part m "disconnect"
    || has_part m "websocket"
    || has_part m "not connected"
    || has_part m "connection"

abbrev pub is_success : Class → Bool
is_success success = true
is_success _ = false
