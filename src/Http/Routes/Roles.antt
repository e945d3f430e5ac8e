-- ===== src/Http/Routes/Roles.antt =====
-- Who can change the database by a request.
use xrpl_credit_orchestrator.Prelude.{
  ℕ, String, Bool, true, false, ◌&&◌, ◌||◌, not, none, some, List, [], ◌∷◌, ◌≡◌, refl, ◌∙◌, ◌⊎◌,
  inl, inr, Bool-cases, Option-cases, All, arith,
}
use xrpl_credit_orchestrator.Json.{Json}
use xrpl_credit_orchestrator.Shared.{platform_admin, risk_operator, lender, borrower}
use xrpl_credit_orchestrator.Database.{Store}
use xrpl_credit_orchestrator.RateLimit.{Decision}
use xrpl_credit_orchestrator.Http.Router.{
  Route, Request, Context, Clock, Call, Site, granted, authenticate, run_handler, handle,
}
use xrpl_credit_orchestrator.Http.Router.Found.{find_route-All}
use xrpl_credit_orchestrator.Http.Router.Granted.{within, IsAuthorised, authenticate-granted}
use xrpl_credit_orchestrator.Http.Router.Admission.{IsAdmitted, handle-cases}
use xrpl_credit_orchestrator.Http.Routes.{Endpoint, staff, routes}
use xrpl_credit_orchestrator.Http.Routes.Handlers.{run}
use xrpl_credit_orchestrator.Http.Routes.Answers.{Setup}

-- The handlers that write.
abbrev pub writes : Endpoint → Bool
writes Endpoint.login = true
writes Endpoint.create_borrower = true
writes Endpoint.link_auth = true
writes Endpoint.create_vault = true
writes Endpoint.vault_deposit = true
writes Endpoint.create_loan_broker = true
writes Endpoint.collateral_deposit = true
writes Endpoint.create_loan = true
writes Endpoint.cosign_packet = true
writes Endpoint.sign_broker = true
writes Endpoint.sign_borrower = true
writes _ = false

-- Staff may write everywhere, a lender by deposits to vaults, a borrower by its signature.
abbrev pub writers : Endpoint → List String
writers Endpoint.vault_deposit = platform_admin ∷ risk_operator ∷ lender ∷ []
writers Endpoint.sign_borrower = platform_admin ∷ risk_operator ∷ borrower ∷ []
writers _ = staff

abbrev pub is_login : Endpoint → Bool
is_login Endpoint.login = true
is_login _ = false

run-reads :
    (setup : Setup) (e : Endpoint) (call : Call) (s : Store)
    → writes e ≡ false
    → (run setup e call s).1 ≡ s
unfolding run
run-reads setup Endpoint.health call s h = refl
run-reads setup Endpoint.dashboard call s h = refl
run-reads setup Endpoint.metrics call s h = refl
run-reads setup Endpoint.audit_export call s h = refl
run-reads setup Endpoint.list_borrowers call s h = refl
run-reads setup Endpoint.list_vaults call s h = refl
run-reads setup Endpoint.list_loan_brokers call s h = refl
run-reads setup Endpoint.quote call s h = refl
run-reads setup Endpoint.list_loans call s h = refl
run-reads setup Endpoint.list_outbox call s h = refl
run-reads setup Endpoint.list_transactions call s h = refl
run-reads setup Endpoint.list_runs call s h = refl
run-reads setup Endpoint.evidence call s h = refl
run-reads setup Endpoint.root call s h = refl
run-reads setup Endpoint.prometheus call s h = refl
run-reads setup other call s h = cc

run_handler-reads :
    (setup : Setup) (route : Route Endpoint) (rate : Decision) (call : Call) (s : Store)
    → writes route.handler ≡ false
    → (run_handler (run setup) route rate call s).1 ≡ s
unfolding run_handler
run_handler-reads setup route rate call s h = run-reads setup route.handler call s h

-- A route that writes is the login, or wants a role that may write there.
abbrev is_guarded : Route Endpoint → Bool
is_guarded r =
    not (writes r.handler)
    || is_login r.handler
    || (r.options.auth
        && (elim r.options.roles [ none ↦ false | some rs ↦ within rs (writers r.handler) ]))

abbrev all_guarded : List (Route Endpoint) → Bool
all_guarded [] = true
all_guarded (r ∷ rs) = is_guarded r && all_guarded rs

All-all_guarded :
    (rs : List (Route Endpoint)) → all_guarded rs ≡ true → All (λ r. is_guarded r ≡ true) rs
All-all_guarded [] h = tt
All-all_guarded (r ∷ rs) h = (ground arith, All-all_guarded rs (ground arith))

routes-IsGuarded : All (λ r. is_guarded r ≡ true) routes
unfolding routes
routes-IsGuarded = All-all_guarded routes refl

-- A guarded route that writes lets in nobody but the login and the roles that may write there.
guarded-let_in :
    (context : Context) (route : Route Endpoint) (req : Request) (seconds : ℕ) (auth : Json)
    → is_guarded route ≡ true
    → writes route.handler ≡ true
    → authenticate context route.options req seconds ≡ granted auth
    → (is_login route.handler ≡ true)
      ⊎ IsAuthorised context req seconds auth (writers route.handler)
guarded-let_in context route req seconds auth g w h = elim (Bool-cases (is_login route.handler)) [
  | inl login ↦ inl login
  | inr other ↦ elim (Option-cases route.options.roles) [
    | inl open_e ↦ absurd (ground arith)
    | inr (roles, listed) ↦ inr (
        authenticate-granted context route.options req seconds auth roles (writers route.handler)
          (ground arith) listed (ground arith) h)
  ]
]

-- Whatever a request is, the database is as it was before it, or the request has been admitted to its
-- route, and either that is the login, or the request bears a good token of a role that may write there:
-- staff everywhere, a lender by its deposits to vaults, a borrower by its signature.
pub handle-writers :
    (setup : Setup) (context : Context) (req : Request) (clock : Clock) (site : Site Store)
    → ((handle (run setup) context routes req clock site).1.app ≡ site.app)
      ⊎ ((route : Route Endpoint) × (call : Call) × IsAdmitted context routes req clock site route
            call
          × ((is_login route.handler ≡ true)
              ⊎ IsAuthorised context req clock.seconds call.auth (writers route.handler)))
handle-writers setup context req clock site =
    elim (handle-cases (run setup) context routes req clock site) [
      | inl same ↦ inl same.1
      | inr (route, call, rate, admitted, replied, left) ↦
          elim (Bool-cases (writes route.handler)) [
            | inr reads ↦ inl (left ∙ run_handler-reads setup route rate call site.app reads)
            | inl written ↦ inr (
              route,
              call,
              admitted,
              guarded-let_in context route req clock.seconds call.auth
                  (find_route-All (λ r. is_guarded r ≡ true) routes req (route, call.params)
                    routes-IsGuarded admitted.found)
                  written admitted.let_in,
            )
          ]
    ]
