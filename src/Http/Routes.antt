-- ===== src/Http/Routes.antt =====
-- The routes of apps/control-api/src/main.js, with the roles that each wants.
pub mod Replies
pub mod Answers
pub mod Handlers
pub mod Roles
pub mod Listed
use xrpl_credit_orchestrator.Prelude.{String, Bool, true, false, Option, none, some, List, [], ◌∷◌}
use xrpl_credit_orchestrator.Shared.{platform_admin, risk_operator, lender, borrower}
use xrpl_credit_orchestrator.Http.Router.{Route}
use xrpl_credit_orchestrator.Http.Pattern.{compile_pattern}

-- The handlers, by what they do.
pub data Endpoint : Type 0 where
  health login dashboard metrics audit_export list_borrowers create_borrower link_auth list_vaults
        create_vault vault_deposit list_loan_brokers create_loan_broker collateral_deposit quote
        list_loans create_loan cosign_packet sign_broker sign_borrower list_outbox list_transactions
        list_runs evidence root prometheus :
      Endpoint

abbrev pub staff : List String
staff = platform_admin ∷ risk_operator ∷ []

abbrev staff_and_lender : List String
staff_and_lender = platform_admin ∷ risk_operator ∷ lender ∷ []

abbrev route : String → String → Endpoint → List String → Route Endpoint
route method pattern endpoint roles = record {
  method = method;
  compiled = compile_pattern pattern;
  handler = endpoint;
  options = record { auth = true; roles = some roles };
}

-- `{ auth: false }`
abbrev open_route : String → String → Endpoint → Route Endpoint
open_route method pattern endpoint = record {
  method = method;
  compiled = compile_pattern pattern;
  handler = endpoint;
  options = record { auth = false; roles = none };
}

-- The routes, in the order in which they are registered.
unfoldable pub routes : List (Route Endpoint)
routes =
    open_route "GET" "/health" Endpoint.health
    ∷ open_route "POST" "/v1/auth/login" Endpoint.login
    ∷ route "GET" "/v1/dashboard" Endpoint.dashboard staff_and_lender
    ∷ route "GET" "/v1/metrics" Endpoint.metrics staff
    ∷ route "GET" "/v1/audit/export/:aggregateType/:aggregateId" Endpoint.audit_export staff
    ∷ route "GET" "/v1/borrowers" Endpoint.list_borrowers staff_and_lender
    ∷ route "POST" "/v1/borrowers" Endpoint.create_borrower staff
    ∷ route "POST" "/v1/borrowers/:id/link-auth" Endpoint.link_auth staff
    ∷ route "GET" "/v1/vaults" Endpoint.list_vaults staff_and_lender
    ∷ route "POST" "/v1/vaults" Endpoint.create_vault staff
    ∷ route "POST" "/v1/vaults/:id/deposits" Endpoint.vault_deposit staff_and_lender
    ∷ route "GET" "/v1/loan-brokers" Endpoint.list_loan_brokers staff_and_lender
    ∷ route "POST" "/v1/loan-brokers" Endpoint.create_loan_broker staff
    ∷ route "POST" "/v1/loan-brokers/:id/collateral/deposits" Endpoint.collateral_deposit staff
    ∷ route "POST" "/v1/loan-brokers/:id/cover/deposits" Endpoint.collateral_deposit staff
    ∷ route "POST" "/v1/loans/quote" Endpoint.quote
        (platform_admin ∷ risk_operator ∷ borrower ∷ lender ∷ [])
    ∷ route "GET" "/v1/loans" Endpoint.list_loans
        (platform_admin ∷ risk_operator ∷ lender ∷ borrower ∷ [])
    ∷ route "POST" "/v1/loans" Endpoint.create_loan staff
    ∷ route "POST" "/v1/loans/:id/cosign-packet" Endpoint.cosign_packet staff
    ∷ route "POST" "/v1/loans/:id/sign/broker" Endpoint.sign_broker staff
    ∷ route "POST" "/v1/loans/:id/sign/borrower" Endpoint.sign_borrower
        (platform_admin ∷ risk_operator ∷ borrower ∷ [])
    ∷ route "GET" "/v1/outbox" Endpoint.list_outbox staff
    ∷ route "GET" "/v1/transactions" Endpoint.list_transactions staff
    ∷ route "GET" "/v1/reconciliation-runs" Endpoint.list_runs staff
    ∷ route "GET" "/v1/evidence/:aggregateType/:aggregateId" Endpoint.evidence staff
    ∷ open_route "GET" "/" Endpoint.root
    ∷ route "GET" "/metrics/prometheus" Endpoint.prometheus staff
    ∷ []
