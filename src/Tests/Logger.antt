-- ===== src/Tests/Logger.antt =====
-- What the logger shows of concrete secrets.
use xrpl_credit_orchestrator.Prelude.{String, true, none, to_lower, ◌≡◌, refl, arith}
use xrpl_credit_orchestrator.Json.{Json, str, obj, end, field}
use xrpl_credit_orchestrator.Logger.{
  Logger, info, log, redact_object, redact_text, replace_matches, is_redacted_key,
}
use xrpl_credit_orchestrator.Logger.Secrets.{SameButSecrets, objects, secret, no_field, log-same}

abbrev logger : Logger
logger = record { service = "control-api"; is_dev = true; trace_id = none }

abbrev with_seed : String → Json
with_seed s = obj (field "seed" (str s) end)

seeds-SameButSecrets : SameButSecrets (with_seed "sEd7aaaa") (with_seed "sEdXbb")
unfolding is_redacted_key
seeds-SameButSecrets = objects (
    secret "seed" refl
      (record { long_left = omega arith; long_right = omega arith; same_start = refl }) no_field)

log-same_example :
    log "now" info "sent" (with_seed "sEd7aaaa") logger
    ≡ log "now" info "sent" (with_seed "sEdXbb") logger
log-same_example =
    log-same "now" info "sent" (with_seed "sEd7aaaa") (with_seed "sEdXbb") logger
      seeds-SameButSecrets

-- A seed in the middle of a text is taken out, and so is a value behind the word "secret".
text_redacted :
    redact_text "key sEdTM1uX8pu2do5XvTnutH6HsouMaM2 and Secret=abc, done"
    ≡ "key [REDACTED] and [REDACTED], done"
unfolding redact_text replace_matches to_lower
text_redacted = refl

-- The value of a redacted key that is no text is shown whole.
nested_shown :
    redact_object 11 (obj (field "secret" (with_seed "sEd7aaaa") end))
    ≡ obj (field "secret" (with_seed "sEd7aaaa") end)
unfolding redact_object is_redacted_key
nested_shown = refl
