-- ===== src/Http/Token.antt =====
-- apps/control-api/src/http/auth.js: bearer tokens, passwords and roles. The keyed hash, base64url,
-- `JSON.parse` and the password hash are parameters.
pub mod Accepted
pub mod Laws
use Prim.Native.Nat.{zero, suc}
use xrpl_credit_orchestrator.Prelude.{
  ℕ, ◌+◌, ◌/◌, String, Bool, true, false, not, ◌&&◌, ◌||◌, Option, none, some, List, [], ◌∷◌, ◌==◌,
  ◌+++◌, if◌then◌else◌, nat_eq, ltb, truthy_text, split_on, starts_with, includes, or_else, Result,
  ok, err,
}
use xrpl_credit_orchestrator.Json.{Json, null, undefined, num, str, arr, obj, nil, cons, end, field}
use xrpl_credit_orchestrator.Json.Field.{get, put, truthy_json, to_number}
use xrpl_credit_orchestrator.Json.Print.{stringify}

pub record Crypto : Type 0 where
  pub hmac : String → String → String
  pub encode : String → String
  pub decode : String → String
  pub parse : String → Result Json
  pub scrypt : String → String → String
  -- Two texts, as buffers, have one length.
  pub same_size : String → String → Bool

-- `const [header, body, signature] = token.split('.')`: a part that is missing is falsy, as the empty text is,
-- and a part beyond the third is not looked at.
pub record Parts : Type 0 where
  pub header : String
  pub body : String
  pub signature : String

abbrev pub parts_of : List String → Parts
parts_of (h ∷ b ∷ s ∷ _) = record { header = h; body = b; signature = s }
parts_of (h ∷ b ∷ []) = record { header = h; body = b; signature = "" }
parts_of (h ∷ []) = record { header = h; body = ""; signature = "" }
parts_of [] = record { header = ""; body = ""; signature = "" }

-- `timingSafeEqual`, which throws on buffers of two lengths.
abbrev pub timing_safe_equal : Crypto → String → String → Result Bool
timing_safe_equal crypto a b =
    if crypto.same_size a b then ok (a == b) else err "Input buffers must have the same byte length"

-- `payload.exp < n`, where what is not a number is not less.
abbrev pub less_than : Json → ℕ → Bool
less_than v n = elim (to_number v) [ none ↦ false | some m ↦ ltb m n ]

-- `payload.exp && payload.exp < now`
abbrev pub has_expired : ℕ → Json → Bool
has_expired now payload = truthy_json (get "exp" payload) && less_than (get "exp" payload) now

abbrev pub unexpired : ℕ → Json → Result Json
unexpired now null = err "Cannot read properties of null (reading 'exp')"
unexpired now payload = if has_expired now payload then err "token expired" else ok payload

abbrev pub checked_payload : ℕ → Result Json → Result Json
checked_payload now (err e) = err e
checked_payload now (ok payload) = unexpired now payload

abbrev pub after_signature : Crypto → ℕ → String → Result Bool → Result Json
after_signature crypto now body (err e) = err e
after_signature crypto now body (ok false) = err "invalid token signature"
after_signature crypto now body (ok true) = checked_payload now (crypto.parse (crypto.decode body))

abbrev pub signed_text : Parts → String
signed_text p = p.header +++ "." +++ p.body

-- The check of the three parts at an instant, in seconds.
unfoldable pub verify_parts : Crypto → String → ℕ → Parts → Result Json
verify_parts crypto secret now p =
    if not (truthy_text p.header) || not (truthy_text p.body) || not (truthy_text p.signature)
    then err "invalid token format"
    else after_signature crypto now p.body
        (timing_safe_equal crypto p.signature (crypto.hmac secret (signed_text p)))

-- `verifyToken`; `now` is `Math.floor(Date.now() / 1000)`.
unfoldable pub verify_token : Crypto → String → String → ℕ → Result Json
verify_token crypto token secret now = verify_parts crypto secret now (parts_of (split_on 46 token))

abbrev pub token_header : Json
token_header = obj (field "alg" (str "HS256") (field "typ" (str "JWT") end))

-- The payload, with a fresh identifier and the instant at which it expires.
abbrev pub stamped : Json → String → ℕ → Json
stamped payload jti exp = put "exp" (num exp) (put "jti" (str jti) payload)

-- `createToken`
unfoldable pub create_token : Crypto → Json → String → String → ℕ → ℕ → String
create_token crypto payload secret jti now expires_in =
    let header = crypto.encode (stringify token_header) in
    let body = crypto.encode (stringify (stamped payload jti (now + expires_in))) in
    header +++ "." +++ body +++ "." +++ crypto.hmac secret (header +++ "." +++ body)

abbrev pub dev_salt : String
dev_salt = "xco-static-dev-salt"

abbrev pub hash_password : Crypto → String → String
hash_password crypto password = crypto.scrypt password dev_salt

unfoldable pub verify_password : Crypto → String → String → Result Bool
verify_password crypto password expected_hash =
    timing_safe_equal crypto (hash_password crypto password) expected_hash

-- `text.slice(n)`
unfoldable pub drop_chars : ℕ → String → String
drop_chars zero s = s
drop_chars (suc n) String.[] = ""
drop_chars (suc n) (String.◌∷◌ c s) = drop_chars n s

-- `extractBearer` of the header, which is absent or a text.
unfoldable pub extract_bearer : Option String → Option String
extract_bearer authorization =
    let header = or_else authorization "" in
    if starts_with header "Bearer " then some (drop_chars 7 header) else none

abbrev pub legacy_map : String → String
legacy_map role =
    if role == "admin"
    then "platform_admin"
    else if role == "operator"
    then "risk_operator"
    else role

-- The key that `legacyMap` reads for a role: an array of one value is read as that value. What is read as
-- another text is no key of the map.
abbrev pub role_key : Json → String
role_key (str role) = role
role_key (arr (cons role nil)) = role_key role
role_key _ = ""

abbrev is_legacy : String → Bool
is_legacy role = role == "admin" || role == "operator"

-- `isRoleAllowed`; a role that is no text is in no list itself.
unfoldable pub is_role_allowed : Json → List String → Bool
is_role_allowed (str role) allowed = includes allowed role || includes allowed (legacy_map role)
is_role_allowed role allowed =
    is_legacy (role_key role) && includes allowed (legacy_map (role_key role))

-- `assertAuthMode`, of `NODE_ENV`
unfoldable pub assert_auth_mode : Option String → Result (Unit {0})
assert_auth_mode node_env =
    if or_else node_env "development" == "production"
    then err
        "FATAL: dev-only auth module cannot run in production. Replace with OIDC/OAuth2 provider, per-user salted hashing, and proper token management. See docs/SECURITY.md"
    else ok tt
