-- ===== src/Http/Router/Granted.antt =====
-- Who is let in by the check of a token: the payload is the token's, and its role is a listed one.
use xrpl_credit_orchestrator.Prelude.{
  ℕ, String, Bool, true, false, ◌&&◌, Option, none, some, List, [], ◌∷◌, ◌≡◌, refl, ap, inl, inr,
  includes, truthy_text, eq_iff, Bool-cases, Result, ok, err, arith, subst,
}
use xrpl_credit_orchestrator.Json.{Json, null, undefined, bool, num, str, arr, obj}
use xrpl_credit_orchestrator.Json.Field.{get}
use xrpl_credit_orchestrator.Http.Token.{
  legacy_map, role_key, is_role_allowed, verify_token, extract_bearer,
}
use xrpl_credit_orchestrator.Http.Router.{
  RouteOptions, Request, Context, granted, roles_hold, authorised, with_token, authenticate,
}

-- Every role of the first list stands in the second.
abbrev pub within : List String → List String → Bool
within [] ws = true
within (r ∷ rs) ws = includes ws r && within rs ws

includes-within :
    (rs ws : List String) (role : String)
    → within rs ws ≡ true
    → includes rs role ≡ true
    → includes ws role ≡ true
includes-within [] ws role w h = absurd (cc)
includes-within (r ∷ rs) ws role w h = ground (arith, eq_iff r role, includes-within rs ws role)

is_role_allowed-within :
    (role : Json) (rs ws : List String)
    → within rs ws ≡ true
    → is_role_allowed role rs ≡ true
    → is_role_allowed role ws ≡ true
unfolding is_role_allowed
is_role_allowed-within (str r) rs ws w h =
    ground (arith, includes-within rs ws r w, includes-within rs ws (legacy_map r) w)
is_role_allowed-within null rs ws w h = absurd (cc)
is_role_allowed-within undefined rs ws w h = absurd (cc)
is_role_allowed-within (bool _) rs ws w h = absurd (cc)
is_role_allowed-within (num _) rs ws w h = absurd (cc)
is_role_allowed-within (arr vs) rs ws w h =
    ground (arith, includes-within rs ws (legacy_map (role_key (arr vs))) w)
is_role_allowed-within (obj _) rs ws w h = absurd (cc)

granted_inj : {a b : Json} → granted a ≡ granted b → a ≡ b
granted_inj e = cc

authorised-granted :
    (roles : Option (List String)) (r : Result Json) (auth : Json)
    → authorised roles r ≡ granted auth
    → (r ≡ ok auth) × (roles_hold roles auth ≡ true)
authorised-granted roles (err e) auth h = absurd (cc)
authorised-granted roles (ok v) auth h = elim (Bool-cases (roles_hold roles v)) [
  | inr out ↦ absurd (refused out h)
  | inl held ↦
      let same : v ≡ auth = granted_inj (rw held at h) in
      (ap ok same, subst (λ w. roles_hold roles w ≡ true) same held)
]
  where
    refused : roles_hold roles v ≡ false → authorised roles (ok v) ≡ granted auth → ⊥
    refused out e = ground arith

with_token-granted :
    (context : Context) (options : RouteOptions) (seconds : ℕ) (found : Option String) (auth : Json)
    → with_token context options seconds found ≡ granted auth
    → (token : String) × (found ≡ some token)
      × (verify_token context.crypto token context.auth_token_secret seconds ≡ ok auth)
      × (roles_hold options.roles auth ≡ true)
with_token-granted context options seconds none auth h = absurd (cc)
with_token-granted context options seconds (some token) auth h =
    elim (Bool-cases (truthy_text token)) [
      | inr empty ↦ absurd (ground arith)
      | inl full ↦
          let (verified, held) =
            authorised-granted options.roles
              (verify_token context.crypto token context.auth_token_secret seconds) auth
              (rw full at h) in
          (token, refl, verified, held)
    ]

-- The token of a request is good, and its role stands in the list.
pub record IsAuthorised (context : Context) (req : Request) (seconds : ℕ) (auth : Json)
    (roles : List String) : Type 0 where
  pub token : String
  pub borne : extract_bearer req.authorization ≡ some token
  pub verified : verify_token context.crypto token context.auth_token_secret seconds ≡ ok auth
  pub role_held : is_role_allowed (get "role" auth) roles ≡ true

-- Where a route wants a token, whoever is let in bears a good one, whose role is allowed by every list
-- that the route's is part of.
pub authenticate-granted :
    (context : Context) (options : RouteOptions) (req : Request) (seconds : ℕ) (auth : Json)
    (roles allowed : List String)
    → options.auth ≡ true
    → options.roles ≡ some roles
    → within roles allowed ≡ true
    → authenticate context options req seconds ≡ granted auth
    → IsAuthorised context req seconds auth allowed
unfolding authenticate
authenticate-granted context options req seconds auth roles allowed wants listed narrow h =
    let checked : with_token context options seconds (extract_bearer req.authorization)
        ≡ granted auth =
      rw wants at h in
    let (token, borne, verified, held) =
      with_token-granted context options seconds (extract_bearer req.authorization) auth checked in
    record {
      token = token;
      borne = borne;
      verified = verified;
      role_held = is_role_allowed-within (get "role" auth) roles allowed narrow (rw listed at held);
    }
