-- ===== src/Http/Router.antt =====
-- apps/control-api/src/http/router.js: patterns, and the way of a request to its handler. Handlers work
-- on a state `S` and answer with a value of `B`; the parsed address of the request is given.
pub mod Admission
pub mod Found
pub mod Granted
use xrpl_credit_orchestrator.Prelude.{
  ℕ, zero, suc, String, Bool, true, false, not, ◌&&◌, ◌||◌, Option, none, some, List, [], ◌∷◌, ◌==◌,
  ◌+++◌, if◌then◌else◌, truthy, truthy_text, split_on, trim, starts_with, map, filter, or_else,
  insert, Action, Result, ok, err,
}
use xrpl_credit_orchestrator.Json.{Json, null}
use xrpl_credit_orchestrator.Json.Field.{get}
use xrpl_credit_orchestrator.RateLimit.{Buckets, Options, Decision, check}
use xrpl_credit_orchestrator.Http.Body.{
  Body, BodyError, too_large, invalid, read, refused, Reader, read_json,
}
use xrpl_credit_orchestrator.Http.Token.{
  Crypto, verify_token, extract_bearer, drop_chars, is_role_allowed,
}
use xrpl_credit_orchestrator.Http.Pattern.{Part, Params, match_path}

-- `options.auth !== false`, and `options.roles`
pub record RouteOptions : Type 0 where
  pub auth : Bool
  pub roles : Option (List String)

pub record Route (H : Type 0) : Type 0 where
  pub method : String
  pub compiled : List Part
  pub handler : H
  pub options : RouteOptions

-- What the router reads of a request.
pub record Request : Type 0 where
  pub method : String
  pub pathname : String
  pub query : Params
  pub remote_address : Option String
  pub forwarded_for : Option String
  pub authorization : Option String
  pub chunks : List (List ℕ)

pub record Context : Type 0 where
  pub crypto : Crypto
  pub reader : Reader
  pub auth_token_secret : String
  pub limits : Options
  pub trust_proxy : Bool

-- The readings of the clock: by the limiter, in milliseconds, and by the check of the token, in seconds.
pub record Clock : Type 0 where
  pub cleaned_at : ℕ
  pub current : ℕ
  pub seconds : ℕ

-- What a handler is given.
pub record Call : Type 0 where
  pub body : Json
  pub params : Params
  pub query : Params
  pub auth : Json

pub data Payload (B : Type 0) : Type 0 where
  failure : String → Option String → Payload B
  rate_limited : ℕ → Payload B
  value : B → Payload B

-- The status, the limiter's decision, which two headers show, and the body.
pub record Reply (B : Type 0) : Type 0 where
  pub status : ℕ
  pub rate : Option Decision
  pub payload : Payload B

-- The state of the limiter and of the application.
pub record Site (S : Type 0) : Type 0 where
  pub buckets : Buckets
  pub app : S

-- The route whose pattern matched, or what the later routes give.
abbrev pub chosen :
    {H : Type 0} → Option Params → Route H → Option (Route H × Params) → Option (Route H × Params)
chosen none route on = on
chosen (some params) route on = some (route, params)

unfoldable pub find_route : {H : Type 0} → List (Route H) → Request → Option (Route H × Params)
find_route [] req = none
find_route (route ∷ routes) req =
    let on = find_route routes req in
    if route.method == req.method
    then chosen (match_path route.compiled req.pathname) route on
    else on

-- The first address of `x-forwarded-for`, where a proxy is trusted to write it.
abbrev first_address : List String → String
first_address [] = ""
first_address (a ∷ _) = trim a

unfoldable pub client_ip : Bool → Request → String
unfolding split_on trim
client_ip trust_proxy req =
    if trust_proxy && truthy req.forwarded_for
    then first_address (split_on 44 (or_else req.forwarded_for ""))
    else or_else req.remote_address "local"

abbrev pub rate_key : Bool → Request → String
rate_key trust_proxy req = client_ip trust_proxy req +++ ":" +++ req.pathname

-- Who is let in, with the payload of the token, and who is not.
pub data Access : Type 0 where
  granted : Json → Access
  denied : ℕ → String → Option String → Access

abbrev pub roles_hold : Option (List String) → Json → Bool
roles_hold none auth = true
roles_hold (some roles) auth = is_role_allowed (get "role" auth) roles

abbrev pub authorised : Option (List String) → Result Json → Access
authorised roles (err detail) = denied 401 "invalid_token" (some detail)
authorised roles (ok auth) =
    if roles_hold roles auth then granted auth else denied 403 "forbidden" none

-- A missing token and an empty one are refused alike.
abbrev pub with_token : Context → RouteOptions → ℕ → Option String → Access
with_token context options seconds none = denied 401 "missing_bearer_token" none
with_token context options seconds (some token) =
    if truthy_text token
    then authorised options.roles
        (verify_token context.crypto token context.auth_token_secret seconds)
    else denied 401 "missing_bearer_token" none

unfoldable pub authenticate : Context → RouteOptions → Request → ℕ → Access
authenticate context options req seconds =
    if options.auth
    then with_token context options seconds (extract_bearer req.authorization)
    else granted null

module _ {B : Type 0} where
  abbrev pub refusal : ℕ → Option Decision → String → Option String → Reply B
  refusal status rate error detail = record {
    status = status;
    rate = rate;
    payload = failure error detail;
  }

  abbrev pub body_refusal : Decision → BodyError → Reply B
  body_refusal rate too_large =
      refusal 413 (some rate) "request_body_too_large" (some "Maximum body size is 1MB")
  body_refusal rate (invalid detail) = refusal 400 (some rate) "invalid_json" (some detail)

  abbrev pub handler_reply : Decision → Result (ℕ × B) → Reply B
  handler_reply rate (ok (status, body)) = record {
    status = status;
    rate = some rate;
    payload = value body;
  }
  handler_reply rate (err message) = refusal 500 (some rate) "internal_error" (some message)

module _ {H S B : Type 0} (run : H → Call → Action S (ℕ × B)) where
  unfoldable pub run_handler : Route H → Decision → Call → S → Reply B × S
  run_handler route rate call app =
      let (r, app') = run route.handler call app in (handler_reply rate r, app')

  abbrev pub with_body : Route H → Params → Request → Decision → Json → Body Json → S → Reply B × S
  with_body route params req rate auth (refused e) app = (body_refusal rate e, app)
  with_body route params req rate auth (read body) app =
      run_handler route rate
        (record { body = body; params = params; query = req.query; auth = auth }) app

  abbrev pub with_access :
      Context → Route H → Params → Request → Decision → Access → S → Reply B × S
  with_access context route params req rate (denied status error detail) app =
      (refusal status (some rate) error detail, app)
  with_access context route params req rate (granted auth) app =
      with_body route params req rate auth (read_json context.reader req.chunks) app

  -- Past the limiter.
  unfoldable pub admit : Context → Route H → Params → Request → Clock → Decision → S → Reply B × S
  admit context route params req clock rate app =
      if rate.allowed
      then with_access context route params req rate
          (authenticate context route.options req clock.seconds) app
      else (record { status = 429; rate = some rate; payload = rate_limited rate.reset_at }, app)

  unfoldable pub serve : Context → Route H → Params → Request → Clock → Site S → Reply B × Site S
  serve context route params req clock site =
      let (rate, buckets) =
        check context.limits (rate_key context.trust_proxy req) clock.cleaned_at clock.current
          site.buckets in
      let (reply, app) = admit context route params req clock rate site.app in
      (reply, record { buckets = buckets; app = app })

  abbrev pub dispatch :
      Context → Request → Clock → Site S → Option (Route H × Params) → Reply B × Site S
  dispatch context req clock site none = (refusal 404 none "not_found" none, site)
  dispatch context req clock site (some (route, params)) = serve context route params req clock site

  -- `handle(req, res)`
  unfoldable pub handle : Context → List (Route H) → Request → Clock → Site S → Reply B × Site S
  handle context routes req clock site = dispatch context req clock site (find_route routes req)
