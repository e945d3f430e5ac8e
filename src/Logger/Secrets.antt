-- ===== src/Logger/Secrets.antt =====
-- What a line can tell of a secret.
use xrpl_credit_orchestrator.Prelude.{
  ℕ, zero, suc, ◌<◌, String, Bool, true, false, ◌≡◌, refl, ap, first_chars, if◌then◌else◌, arith,
}
use mathlib.Core.Path.{ap₂}
use xrpl_credit_orchestrator.Json.{Json, str, arr, obj, Items, nil, cons, Fields, end, field}
use xrpl_credit_orchestrator.Json.Field.{truthy_json, put}
use xrpl_credit_orchestrator.Json.Print.{stringify}
use xrpl_credit_orchestrator.Logger.{
  is_redacted_key, text_length, redacted, redact_value, redact_object, redact_items, redact_fields,
  Sink, Level, Logger, level_text, sink_of, add_trace, format_log, log,
}

-- The two texts have more than four characters, and begin with the same three.
pub record AreMasked (s t : String) : Type 0 where
  pub long_left : 4 < text_length s
  pub long_right : 4 < text_length t
  pub same_start : first_chars 3 s ≡ first_chars 3 t

-- Two values that differ in texts under redacted keys only, and there not in the first three
-- characters.
mutual
  pub data SameButSecrets : Json → Json → Type 0 where
    same : (v : Json) → SameButSecrets v v
    arrays : {vs ws : Items} → SameItems vs ws → SameButSecrets (arr vs) (arr ws)
    objects : {fs gs : Fields} → SameFields fs gs → SameButSecrets (obj fs) (obj gs)

  pub data SameItems : Items → Items → Type 0 where
    no_item : SameItems nil nil
    item :
        {v w : Json} {vs ws : Items}
        → SameButSecrets v w
        → SameItems vs ws
        → SameItems (cons v vs) (cons w ws)

  pub data SameFields : Fields → Fields → Type 0 where
    no_field : SameFields end end
    shown :
        (k : String) {v w : Json} {fs gs : Fields}
        → is_redacted_key k ≡ false
        → SameButSecrets v w
        → SameFields fs gs
        → SameFields (field k v fs) (field k w gs)
    alike :
        (k : String) (v : Json) {fs gs : Fields}
        → SameFields fs gs
        → SameFields (field k v fs) (field k v gs)
    secret :
        (k : String) {s t : String} {fs gs : Fields}
        → is_redacted_key k ≡ true
        → AreMasked s t
        → SameFields fs gs
        → SameFields (field k (str s) fs) (field k (str t) gs)

redacted-AreMasked : {s t : String} → AreMasked s t → redacted s ≡ redacted t
redacted-AreMasked {s} {t} m = ground (arith, m.same_start)

mutual
  unfolding redact_object

  redact_object-same :
      (d : ℕ) {v w : Json} → SameButSecrets v w → redact_object d v ≡ redact_object d w
  redact_object-same d (same v) = refl
  redact_object-same zero (arrays h) = refl
  redact_object-same (suc d) (arrays h) = ap arr (redact_items-same d h)
  redact_object-same zero (objects h) = refl
  redact_object-same (suc d) (objects h) = ap obj (redact_fields-same d h)

  redact_items-same :
      (d : ℕ) {vs ws : Items} → SameItems vs ws → redact_items d vs ≡ redact_items d ws
  redact_items-same d no_item = refl
  redact_items-same d (item h hs) = ap₂ cons (redact_object-same d h) (redact_items-same d hs)

  redact_fields-same :
      (d : ℕ) {fs gs : Fields} → SameFields fs gs → redact_fields d fs ≡ redact_fields d gs
  redact_fields-same d no_field = refl
  redact_fields-same d (shown k e h hs) =
      rw e (ap₂ (field k) (redact_object-same d h) (redact_fields-same d hs))
  redact_fields-same d (alike k v hs) =
      ap (field k (if is_redacted_key k then redact_value v else redact_object d v))
        (redact_fields-same d hs)
  redact_fields-same d (secret k e m hs) =
      rw e (ap₂ (field k) (ap str (redacted-AreMasked m)) (redact_fields-same d hs))

truthy_json-same : {v w : Json} → SameButSecrets v w → truthy_json v ≡ truthy_json w
truthy_json-same (same v) = refl
truthy_json-same (arrays h) = refl
truthy_json-same (objects h) = refl

-- The line, by what it depends on of the details.
log_as : String → Level → String → Logger → Bool → Json → Sink × String
log_as ts level msg logger present details = (
  sink_of logger.is_dev level,
  stringify (
      let line = add_trace logger.trace_id (
        obj (
          field "ts" (str ts) (
            field "level" (str (level_text level))
              (field "service" (str logger.service) (field "msg" (str msg) end))))) in
      if present then put "data" details line else line),
)

-- Of a text of more than four characters under a redacted key, outside the value of another such key, a
-- line that is logged tells the first three characters at most: two values that differ in such texts
-- only, and not in their first three characters, give the same line, at the same place.
pub log-same :
    (ts : String) (level : Level) (msg : String) (v w : Json) (logger : Logger)
    → SameButSecrets v w
    → log ts level msg v logger ≡ log ts level msg w logger
unfolding log format_log log_as
log-same ts level msg v w logger h =
    ap₂ (log_as ts level msg logger) (truthy_json-same h) (redact_object-same 11 h)
