-- ===== src/Http/Routes/Listed.antt =====
-- Which loans a reply can list.
use xrpl_credit_orchestrator.Prelude.{
  ℕ, String, Bool, true, false, ◌&&◌, ◌||◌, not, none, some, List, [], ◌∷◌, ◌≡◌, refl, sym, ap, ◌∙◌,
  inl, inr, Option-cases, Result, ok, err, All, arith,
}
use xrpl_credit_orchestrator.Json.{Json}
use xrpl_credit_orchestrator.Shared.{platform_admin, risk_operator, lender, borrower}
use xrpl_credit_orchestrator.Database.{Store, Loan}
use xrpl_credit_orchestrator.RateLimit.{Decision}
use xrpl_credit_orchestrator.Http.Router.{
  Route, Request, Context, Clock, Call, Reply, value, Site, authenticate, granted, handler_reply,
  run_handler, handle,
}
use xrpl_credit_orchestrator.Http.Router.Found.{find_route-All}
use xrpl_credit_orchestrator.Http.Router.Granted.{IsAuthorised, authenticate-granted, within}
use xrpl_credit_orchestrator.Http.Router.Admission.{is_value, handle-cases}
use xrpl_credit_orchestrator.Http.Tenant.{shown_loans}
use xrpl_credit_orchestrator.Http.Tenant.Shown.{loans_of, shown_loans_lem}
use xrpl_credit_orchestrator.Http.Routes.{Endpoint, routes}
use xrpl_credit_orchestrator.Http.Routes.Handlers.{run}
use xrpl_credit_orchestrator.Http.Routes.Answers.{Setup, Answer}
use xrpl_credit_orchestrator.Http.Routes.Replies.{is_loans_result, is_list_loans, run-is_loans}

list_loans-lem : (e : Endpoint) → is_list_loans e ≡ true → e ≡ Endpoint.list_loans
list_loans-lem Endpoint.list_loans h = refl
list_loans-lem other h = absurd (cc)

handler_reply-loans :
    (rate : Decision) (r : Result (ℕ × Answer)) (ls : List Loan)
    → (handler_reply rate r).payload ≡ value (Answer.loans ls)
    → (n : ℕ) × (r ≡ ok (n, Answer.loans ls))
handler_reply-loans rate (ok (n, answer)) ls h =
    let same : answer ≡ Answer.loans ls = value_inj h in (n, ap (λ a. ok (n, a)) same)
  where
    value_inj : value answer ≡ value (Answer.loans ls) → answer ≡ Answer.loans ls
    value_inj e = cc
handler_reply-loans rate (err e) ls h = absurd (cc)

-- Who may list loans.
abbrev pub readers : List String
readers = platform_admin ∷ risk_operator ∷ lender ∷ borrower ∷ []

-- A route that lists loans wants one of these roles.
abbrev is_listing_guarded : Route Endpoint → Bool
is_listing_guarded r =
    not (is_list_loans r.handler)
    || (r.options.auth && (elim r.options.roles [ none ↦ false | some rs ↦ within rs readers ]))

abbrev all_listing_guarded : List (Route Endpoint) → Bool
all_listing_guarded [] = true
all_listing_guarded (r ∷ rs) = is_listing_guarded r && all_listing_guarded rs

All-listing_guarded :
    (rs : List (Route Endpoint))
    → all_listing_guarded rs ≡ true
    → All (λ r. is_listing_guarded r ≡ true) rs
All-listing_guarded [] h = tt
All-listing_guarded (r ∷ rs) h = (ground arith, All-listing_guarded rs (ground arith))

routes-listing_guarded : All (λ r. is_listing_guarded r ≡ true) routes
unfolding routes
routes-listing_guarded = All-listing_guarded routes refl

listing-let_in :
    (context : Context) (route : Route Endpoint) (req : Request) (seconds : ℕ) (auth : Json)
    → is_listing_guarded route ≡ true
    → is_list_loans route.handler ≡ true
    → authenticate context route.options req seconds ≡ granted auth
    → IsAuthorised context req seconds auth readers
listing-let_in context route req seconds auth g l h = elim (Option-cases route.options.roles) [
  | inl open_e ↦ absurd (ground arith)
  | inr (roles, listed) ↦
      authenticate-granted context route.options req seconds auth roles readers (ground arith)
        listed (ground arith) h
]

run-list_loans :
    (setup : Setup) (call : Call) (s : Store)
    → (run setup Endpoint.list_loans call s).0 ≡ ok (200, Answer.loans (shown_loans call.auth s))
unfolding run
run-list_loans setup call s = refl

run_handler-payload :
    (setup : Setup) (route : Route Endpoint) (rate : Decision) (call : Call) (s : Store)
    (ls : List Loan)
    → (run_handler (run setup) route rate call s).0.payload ≡ value (Answer.loans ls)
    → (handler_reply rate (run setup route.handler call s).0).payload ≡ value (Answer.loans ls)
unfolding run_handler
run_handler-payload setup route rate call s ls h = h

abbrev result_of : Setup → Call → Store → Endpoint → Result (ℕ × Answer)
result_of setup call s e = (run setup e call s).0

run-loans :
    (setup : Setup) (e : Endpoint) (call : Call) (s : Store) (n : ℕ) (ls : List Loan)
    → (run setup e call s).0 ≡ ok (n, Answer.loans ls)
    → (is_list_loans e ≡ true) × (ls ≡ shown_loans call.auth s)
run-loans setup e call s n ls h =
    let listing : is_list_loans e ≡ true =
      sym (run-is_loans setup e call s) ∙ ap is_loans_result h in
    (
      listing,
      loans_inj (
          sym h
          ∙ ap (result_of setup call s) (list_loans-lem e listing)
          ∙ run-list_loans setup call s),
    )
  where
    loans_inj :
        ◌≡◌ {A = Result (ℕ × Answer)}
          (ok (n, Answer.loans ls))
          (ok (200, Answer.loans (shown_loans call.auth s)))
        → ls ≡ shown_loans call.auth s
    loans_inj e = cc

-- Whatever route it comes by, a reply that lists loans answers a request that bears a good token of
-- staff, a lender or a borrower, and lists exactly the loans of the database that are shown to that
-- token, by its role: to a borrower those whose borrower is the borrower's party or user, to a lender
-- those whose broker stands on a vault in which a position is the lender's, and to staff all.
pub handle-loans :
    (setup : Setup) (context : Context) (req : Request) (clock : Clock) (site : Site Store)
    (ls : List Loan)
    → (handle (run setup) context routes req clock site).0.payload ≡ value (Answer.loans ls)
    → (auth : Json) × IsAuthorised context req clock.seconds auth readers
      × (ls ≡ loans_of auth site.app)
handle-loans setup context req clock site ls h =
    elim (handle-cases (run setup) context routes req clock site) [
      | inl same ↦ absurd (no_value (sym (ap is_value h) ∙ same.0))
      | inr (route, call, rate, admitted, replied, left) ↦
          let (n, ran) = handler_reply-loans rate (run setup route.handler call site.app).0 ls (
            run_handler-payload setup route rate call site.app ls
              (ap (λ (r : Reply Answer). r.payload) (sym replied) ∙ h)) in
          let (listing, shown) = run-loans setup route.handler call site.app n ls ran in
          (
            call.auth,
            listing-let_in context route req clock.seconds call.auth
                (find_route-All (λ r. is_listing_guarded r ≡ true) routes req (route, call.params)
                  routes-listing_guarded admitted.found)
                listing admitted.let_in,
            shown ∙ shown_loans_lem call.auth site.app,
          )
    ]
  where
    no_value : true ≡ false → ⊥
    no_value e = cc
