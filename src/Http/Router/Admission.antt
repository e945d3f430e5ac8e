-- ===== src/Http/Router/Admission.antt =====
-- What a request has passed when a handler runs.
use xrpl_credit_orchestrator.Prelude.{
  ℕ, Bool, true, false, ◌≡◌, refl, sym, ap, ◌∙◌, ◌⊎◌, inl, inr, none, some, List, Action,
  Bool-cases, Option-cases, subst,
}
use xrpl_credit_orchestrator.Json.{Json}
use xrpl_credit_orchestrator.RateLimit.{Decision, check}
use xrpl_credit_orchestrator.Http.Body.{Body, too_large, invalid, read, refused, read_json}
use xrpl_credit_orchestrator.Http.Router.{
  Route, Request, Context, Clock, Call, Payload, value, rate_limited, refusal, Reply, Site, Access,
  granted, denied, find_route, rate_key, authenticate, run_handler, with_body, with_access, admit,
  serve, dispatch, handle,
}
use xrpl_credit_orchestrator.Http.Pattern.{Params}

-- The request has found its route, is within its rate, is let in, and has a body that can be read.
pub record IsAdmitted {H S : Type 0} (context : Context) (routes : List (Route H)) (req : Request)
    (clock : Clock) (site : Site S) (route : Route H) (call : Call) : Type 0 where
  pub found : find_route routes req ≡ some (route, call.params)
  pub in_rate :
      (check context.limits
        (rate_key context.trust_proxy req)
        clock.cleaned_at
        clock.current
        site.buckets).0.allowed
      ≡ true
  pub let_in : authenticate context route.options req clock.seconds ≡ granted call.auth
  pub has_body : read_json context.reader req.chunks ≡ read call.body

abbrev pub is_value : {B : Type 0} → Payload B → Bool
is_value (value _) = true
is_value _ = false

-- The reply holds nothing that a handler answered, and the state is as it was.
abbrev pub IsUntouched : {S B : Type 0} → S → Reply B × S → Type 0
IsUntouched app (reply, app') = (is_value reply.payload ≡ false) × (app' ≡ app)

module _ {H S B : Type 0} (run : H → Call → Action S (ℕ × B)) where
  abbrev called : Params → Request → Json → Json → Call
  called params req auth body = record {
    body = body;
    params = params;
    query = req.query;
    auth = auth;
  }

  with_body-cases :
      (route : Route H) (params : Params) (req : Request) (rate : Decision) (auth : Json)
      (b : Body Json) (app : S)
      → IsUntouched app (with_body run route params req rate auth b app)
        ⊎ ((body : Json) × (b ≡ read body)
            × (with_body run route params req rate auth b app
                ≡ run_handler run route rate (called params req auth body) app))
  with_body-cases route params req rate auth (refused too_large) app = inl (refl, refl)
  with_body-cases route params req rate auth (refused (invalid e)) app = inl (refl, refl)
  with_body-cases route params req rate auth (read body) app = inr (body, refl, refl)

  with_access-cases :
      (context : Context) (route : Route H) (params : Params) (req : Request) (rate : Decision)
      (access : Access) (app : S)
      → IsUntouched app (with_access run context route params req rate access app)
        ⊎ ((auth body : Json) × (access ≡ granted auth)
            × (read_json context.reader req.chunks ≡ read body)
            × (with_access run context route params req rate access app
                ≡ run_handler run route rate (called params req auth body) app))
  with_access-cases context route params req rate (denied status e d) app = inl (refl, refl)
  with_access-cases context route params req rate (granted auth) app =
      elim (with_body-cases route params req rate auth (read_json context.reader req.chunks) app) [
        | inl same ↦ inl same
        | inr (body, e, ran) ↦ inr (auth, body, refl, e, ran)
      ]

  admit-within :
      (context : Context) (route : Route H) (params : Params) (req : Request) (clock : Clock)
      (rate : Decision) (app : S)
      → rate.allowed ≡ true
      → admit run context route params req clock rate app
        ≡ with_access run context route params req rate
            (authenticate context route.options req clock.seconds)
            app
  unfolding admit
  admit-within context route params req clock rate app h = simp (h)

  admit-over :
      (context : Context) (route : Route H) (params : Params) (req : Request) (clock : Clock)
      (rate : Decision) (app : S)
      → rate.allowed ≡ false
      → admit run context route params req clock rate app
        ≡ (record { status = 429; rate = some rate; payload = rate_limited rate.reset_at }, app)
  unfolding admit
  admit-over context route params req clock rate app h = simp (h)

  admit-cases :
      (context : Context) (route : Route H) (params : Params) (req : Request) (clock : Clock)
      (rate : Decision) (app : S)
      → IsUntouched app (admit run context route params req clock rate app)
        ⊎ ((auth body : Json) × (rate.allowed ≡ true)
            × (authenticate context route.options req clock.seconds ≡ granted auth)
            × (read_json context.reader req.chunks ≡ read body)
            × (admit run context route params req clock rate app
                ≡ run_handler run route rate (called params req auth body) app))
  admit-cases context route params req clock rate app = elim (Bool-cases rate.allowed) [
    | inr over ↦ inl (
        subst (IsUntouched app) (sym (admit-over context route params req clock rate app over))
          (refl, refl))
    | inl within ↦
        let e = admit-within context route params req clock rate app within in
        elim (with_access-cases context route params req rate
          (authenticate context route.options req clock.seconds) app) [
            | inl same ↦ inl (subst (IsUntouched app) (sym e) same)
            | inr (auth, body, in_e, read_e, ran) ↦ inr (auth, body, within, in_e, read_e, e ∙ ran)
          ]
  ]

  handle-missed :
      (context : Context) (routes : List (Route H)) (req : Request) (clock : Clock) (site : Site S)
      → find_route routes req ≡ none
      → handle run context routes req clock site ≡ (refusal 404 none "not_found" none, site)
  unfolding handle
  handle-missed context routes req clock site h = ap (dispatch run context req clock site) h

  handle-found :
      (context : Context) (routes : List (Route H)) (req : Request) (clock : Clock) (site : Site S)
      (hit : Route H × Params)
      → find_route routes req ≡ some hit
      → handle run context routes req clock site ≡ (
          let (rate, buckets) =
            check context.limits
              (rate_key context.trust_proxy req)
              clock.cleaned_at
              clock.current
              site.buckets in
          let (reply, app) = admit run context hit.0 hit.1 req clock rate site.app in
          (reply, record { buckets = buckets; app = app }))
  unfolding handle serve
  handle-found context routes req clock site hit h = ap (dispatch run context req clock site) h

  -- Either a request is answered without a handler, with a refusal, and leaves the state of the
  -- application as it is; or it has found its route, is within its rate, is let in by the check of its
  -- token and its role where the route wants one, and has a body that can be read, and then its reply
  -- and its state are what the route's handler makes of it.
  pub handle-cases :
      (context : Context) (routes : List (Route H)) (req : Request) (clock : Clock) (site : Site S)
      → ((is_value (handle run context routes req clock site).0.payload ≡ false)
          × ((handle run context routes req clock site).1.app ≡ site.app))
        ⊎ ((route : Route H) × (call : Call) × (rate : Decision) × IsAdmitted context routes req
              clock site route call
            × ((handle run context routes req clock site).0
                ≡ (run_handler run route rate call site.app).0)
            × ((handle run context routes req clock site).1.app
                ≡ (run_handler run route rate call site.app).1))
  handle-cases context routes req clock site = elim (Option-cases (find_route routes req)) [
    | inl missed ↦
        let e = handle-missed context routes req clock site missed in
        inl (ap (λ out. is_value out.0.payload) e, ap (λ out. out.1.app) e)
    | inr (hit, found) ↦
        let e = handle-found context routes req clock site hit found in
        let rate =
          (check context.limits (rate_key context.trust_proxy req) clock.cleaned_at clock.current
            site.buckets).0 in
        elim (admit-cases context hit.0 hit.1 req clock rate site.app) [
          | inl same ↦
              inl (ap (λ out. is_value out.0.payload) e ∙ same.0, ap (λ out. out.1.app) e ∙ same.1)
          | inr (auth, body, within, in_e, read_e, ran) ↦ inr (
            hit.0,
            called hit.1 req auth body,
            rate,
            record { found = found; in_rate = within; let_in = in_e; has_body = read_e },
            ap (λ out. out.0) e ∙ ap (λ out. out.0) ran,
            ap (λ out. out.1.app) e ∙ ap (λ out. out.1) ran,
          )
        ]
  ]
