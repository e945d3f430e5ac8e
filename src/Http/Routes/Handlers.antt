-- ===== src/Http/Routes/Handlers.antt =====
-- The handlers of apps/control-api/src/main.js over the database and its services. How a body is read
-- as the typed input of a service, the quote of a loan, and the text of the metrics are parameters; the two
-- signatures are given what the body names, as it is.
use Prim.Native.Nat.{zero, suc}
use mathlib.Core.List.{reverse}
use xrpl_credit_orchestrator.Prelude.{
  ℕ, ◌/◌, String, ◌+++◌, Option, none, some, List, map, lookup, or_else, number_of, if◌then◌else◌,
  Action, Result, ok, err, pure, gets, ◌>>=◌,
}
use xrpl_credit_orchestrator.Json.{Json, null, str, obj, end, field}
use xrpl_credit_orchestrator.Json.Field.{get, as_text, or_json}
use xrpl_credit_orchestrator.Evidence.{verify_chain}
use xrpl_credit_orchestrator.Database.{Store, User, OutboxRow, random_uuid, now_iso}
use xrpl_credit_orchestrator.Database.Entities.{find_user_by_username, list_borrowers, list_vaults}
use xrpl_credit_orchestrator.Database.Lending.{list_loan_brokers}
use xrpl_credit_orchestrator.Database.Outbox.{list_outbox}
use xrpl_credit_orchestrator.Database.Ledgers.{newest}
use xrpl_credit_orchestrator.Database.Evidence.{get_evidence}
use xrpl_credit_orchestrator.Database.Dashboard.{health, get_dashboard_summary}
use xrpl_credit_orchestrator.Loans.{create, prepare_cosign_packet}
use xrpl_credit_orchestrator.Loans.Signatures.{record_broker_signature, record_borrower_signature}
use xrpl_credit_orchestrator.Vaults.{create_vault_with, deposit}
use xrpl_credit_orchestrator.Vaults.Brokers.{create_broker, deposit_collateral}
use xrpl_credit_orchestrator.Borrowers.{register_borrower, link_auth_user}
use xrpl_credit_orchestrator.Audit.{export_aggregate_bundle}
use xrpl_credit_orchestrator.Http.Token.{create_token, verify_password}
use xrpl_credit_orchestrator.Http.Router.{Call}
use xrpl_credit_orchestrator.Http.Tenant.{sub_of, shown_loans}
use xrpl_credit_orchestrator.Http.Routes.{Endpoint}
use xrpl_credit_orchestrator.Http.Routes.Answers.{
  Setup, safe_row, Answer, healthy, error, session, summary, service_metrics, exported, parties,
  party, vaults, new_vault, queued, brokers, new_broker, quoted, loans, loan, packet, row, rows,
  transactions, runs, history, plain,
}

-- A parameter of the path.
abbrev pub param : String → Call → String
param name call = or_else (lookup name call.params) ""

abbrev pub reply : {A : Type 0} → ℕ → (A → Answer) → Action Store A → Action Store (ℕ × Answer)
reply status show m = do a ← m; pure (status, show a)

-- `rows.slice(-limit).reverse()`, where no number and zero take all rows.
abbrev pub last_rows : {A : Type 0} → Option ℕ → List A → List A
last_rows none xs = reverse xs
last_rows (some zero) xs = reverse xs
last_rows (some (suc n)) xs = newest (suc n) xs

-- `Number(url.searchParams.get('limit') ?? 50)`, of decimal digits
abbrev pub limit_of : Call → Option ℕ
limit_of call = elim (lookup "limit" call.query) [ none ↦ some 50 | some t ↦ number_of t ]

-- `body.password ?? ''`; what is not a text cannot be hashed.
abbrev pub password_of : Json → Result String
password_of body = elim (or_json (get "password" body) (str "")) [
  | str s ↦ ok s
  | _ ↦ err "The \"password\" argument must be of type string"
]

abbrev pub of_result : {A : Type 0} → Result A → Action Store A
of_result (ok a) s = (ok a, s)
of_result (err e) s = (err e, s)

abbrev pub session_payload : User → Json
session_payload user = obj (
    field "sub" (str user.id)
      (field "username" (str user.username) (field "role" (str user.role) end)))

-- A session of eight hours.
unfoldable pub open_session : Setup → User → Action Store (ℕ × Answer)
open_session setup user = do
  jti ← random_uuid
  now ← gets (λ (s : Store). s.now / 1000)
  let token = create_token setup.crypto (session_payload user) setup.auth_token_secret jti now 28800
  pure (200, session token user.role user.username)

abbrev pub wrong_credentials : Action Store (ℕ × Answer)
wrong_credentials s = (ok (401, error "invalid_credentials"), s)

unfoldable pub check_password : Setup → Json → User → Action Store (ℕ × Answer)
check_password setup body user = do
  password ← of_result (password_of body)
  right ← of_result (verify_password setup.crypto password user.password_hash)
  if right then open_session setup user else wrong_credentials

abbrev pub log_in_as : Setup → Json → Option User → Action Store (ℕ × Answer)
log_in_as setup body none = wrong_credentials
log_in_as setup body (some user) =
    if user.is_active then check_password setup body user else wrong_credentials

-- A username that is no text is nobody's.
abbrev pub user_named : Json → Action Store (Option User)
user_named body = elim (as_text (get "username" body)) [
  | none ↦ pure none
  | some name ↦ find_user_by_username name
]

unfoldable pub log_in : Setup → Json → Action Store (ℕ × Answer)
log_in setup body = do user ← user_named body; log_in_as setup body user

abbrev pub show_summary : Store → Answer
show_summary s =
    let dashboard = get_dashboard_summary s in
    service_metrics (now_iso s) dashboard.counts dashboard.statuses dashboard.checkpoints

abbrev pub show_history : Call → Store → Answer
show_history call s =
    let events = get_evidence (param "aggregateType" call) (param "aggregateId" call) s in
    history events (verify_chain s.host.sha256 events)

-- `body.k`, which throws for a body that is null; the value is not checked.
abbrev pub read_field : String → Json → Result Json
read_field k null = err ("Cannot read properties of null (reading '" +++ k +++ "')")
read_field k body = ok (get k body)

abbrev pub sign_broker_with : Call → Action Store OutboxRow
sign_broker_with call = do
  blob ← of_result (read_field "signedTxBlob" call.body)
  tx_hash ← of_result (read_field "txHash" call.body)
  record_broker_signature (param "id" call) blob tx_hash (sub_of call.auth)

abbrev pub sign_borrower_with : Call → Action Store OutboxRow
sign_borrower_with call = do
  blob ← of_result (read_field "counterpartySignedTxBlob" call.body)
  record_borrower_signature (param "id" call) blob (sub_of call.auth)

-- The handler of each route.
unfoldable pub run : Setup → Endpoint → Call → Action Store (ℕ × Answer)
run setup Endpoint.health call =
    reply 200 (λ h. healthy h setup.xrpl_lending_enabled setup.xrpl_network) (gets health)
run setup Endpoint.login call = log_in setup call.body
run setup Endpoint.dashboard call = reply 200 summary (gets get_dashboard_summary)
run setup Endpoint.metrics call = reply 200 (λ a. a) (gets show_summary)
run setup Endpoint.audit_export call =
    reply 200 exported
      (gets (export_aggregate_bundle (param "aggregateType" call) (param "aggregateId" call)))
run setup Endpoint.list_borrowers call = reply 200 parties list_borrowers
run setup Endpoint.create_borrower call =
    reply 201 party (register_borrower (setup.inputs.borrower call.body) (sub_of call.auth))
run setup Endpoint.link_auth call =
    reply 200 party
      (link_auth_user (param "id" call) (setup.inputs.auth_user call.body) (sub_of call.auth))
run setup Endpoint.list_vaults call = reply 200 vaults list_vaults
run setup Endpoint.create_vault call =
    let (input, extras) = setup.inputs.vault call.body in
    reply 201 new_vault (create_vault_with input extras (sub_of call.auth))
run setup Endpoint.vault_deposit call =
    reply 202 queued (deposit (param "id" call) (setup.inputs.deposit call.body) (sub_of call.auth))
run setup Endpoint.list_loan_brokers call = reply 200 brokers list_loan_brokers
run setup Endpoint.create_loan_broker call =
    let (input, extras) = setup.inputs.loan_broker call.body in
    reply 201 new_broker (create_broker input extras (sub_of call.auth))
run setup Endpoint.collateral_deposit call = reply 202 queued (
    deposit_collateral (param "id" call) (get "amountObject" call.body) (get "amount" call.body)
      (sub_of call.auth))
run setup Endpoint.quote call = reply 200 quoted (pure (setup.inputs.quote call.body))
run setup Endpoint.list_loans call = reply 200 loans (gets (shown_loans call.auth))
run setup Endpoint.create_loan call =
    reply 201 loan (create (setup.inputs.loan call.body) (sub_of call.auth))
run setup Endpoint.cosign_packet call =
    reply 201 packet (prepare_cosign_packet (param "id" call) (sub_of call.auth))
run setup Endpoint.sign_broker call = reply 200 row (sign_broker_with call)
run setup Endpoint.sign_borrower call = reply 200 row (sign_borrower_with call)
run setup Endpoint.list_outbox call =
    reply 200 (λ found. rows (map safe_row found)) (list_outbox (lookup "status" call.query))
run setup Endpoint.list_transactions call =
    reply 200 transactions (gets (λ (s : Store). last_rows (limit_of call) s.transactions))
run setup Endpoint.list_runs call =
    reply 200 runs (gets (λ (s : Store). last_rows (limit_of call) s.reconciliations))
run setup Endpoint.evidence call = reply 200 (λ a. a) (gets (show_history call))
run setup Endpoint.root call = reply 200 plain (pure "XRPL Credit Orchestrator control-api")
run setup Endpoint.prometheus call = reply 200 plain (gets setup.inputs.metrics_text)
