-- ===== src/Http/Routes/Replies.antt =====
-- No handler but that of the loans replies with loans.
use xrpl_credit_orchestrator.Prelude.{
  ℕ, String, Bool, true, false, Option, none, some, ◌≡◌, refl, inl, inr, Bool-cases, Result,
  Result-cases, ok, err, Action, arith, if◌then◌else◌, pure, ◌>>=◌,
}
use xrpl_credit_orchestrator.Json.{Json}
use xrpl_credit_orchestrator.Database.{Store, User}
use xrpl_credit_orchestrator.Json.Field.{get}
use xrpl_credit_orchestrator.Loans.{create, prepare_cosign_packet}
use xrpl_credit_orchestrator.Vaults.{create_vault_with, deposit}
use xrpl_credit_orchestrator.Vaults.Brokers.{create_broker, deposit_collateral}
use xrpl_credit_orchestrator.Borrowers.{register_borrower, link_auth_user}
use xrpl_credit_orchestrator.Http.Router.{Call}
use xrpl_credit_orchestrator.Http.Token.{verify_password}
use xrpl_credit_orchestrator.Http.Tenant.{sub_of}
use xrpl_credit_orchestrator.Http.Routes.{Endpoint}
use xrpl_credit_orchestrator.Http.Routes.Handlers.{
  sign_broker_with, sign_borrower_with, run, reply, log_in, log_in_as, check_password, open_session,
  of_result, password_of, user_named, wrong_credentials, param,
}
use xrpl_credit_orchestrator.Http.Routes.Answers.{Setup, Answer}

abbrev is_loans : Answer → Bool
is_loans (Answer.loans _) = true
is_loans _ = false

abbrev pub is_loans_result : Result (ℕ × Answer) → Bool
is_loans_result (ok (_, answer)) = is_loans answer
is_loans_result (err _) = false

abbrev pub is_list_loans : Endpoint → Bool
is_list_loans Endpoint.list_loans = true
is_list_loans _ = false

-- A chain whose last step lists no loans lists none.
bind-is_loans :
    {A : Type 0} (m : Action Store A) (f : A → Action Store (ℕ × Answer)) (s : Store)
    → ((a : A) (t : Store) → is_loans_result (f a t).0 ≡ false)
    → is_loans_result ((m >>= f) s).0 ≡ false
bind-is_loans m f s other = elim (Result-cases (m s).0) [
  | inl (a, e) ↦ ground (arith, e, other a (m s).1)
  | inr (message, e) ↦ ground (arith, e)
]

abbrev concluded : Setup → User → Bool → Action Store (ℕ × Answer)
concluded setup user right = if right then open_session setup user else wrong_credentials

abbrev checked : Setup → User → String → Action Store (ℕ × Answer)
checked setup user password =
    of_result (verify_password setup.crypto password user.password_hash) >>= concluded setup user

concluded-is_loans :
    (setup : Setup) (user : User) (right : Bool) (s : Store)
    → is_loans_result (concluded setup user right s).0 ≡ false
unfolding open_session
concluded-is_loans setup user true s = refl
concluded-is_loans setup user false s = refl

reply-is_loans :
    {A : Type 0} (status : ℕ) (show : A → Answer) (m : Action Store A) (s : Store)
    → ((a : A) → is_loans (show a) ≡ false)
    → is_loans_result (reply status show m s).0 ≡ false
reply-is_loans status show m s other =
    bind-is_loans m (λ a. pure (status, show a)) s (λ a t. other a)

check_password-is_loans :
    (setup : Setup) (body : Json) (user : User) (s : Store)
    → is_loans_result (check_password setup body user s).0 ≡ false
unfolding check_password
check_password-is_loans setup body user s =
    bind-is_loans (of_result (password_of body)) (checked setup user) s (λ password t.
      bind-is_loans (of_result (verify_password setup.crypto password user.password_hash))
        (concluded setup user) t (concluded-is_loans setup user))

log_in_as-is_loans :
    (setup : Setup) (body : Json) (user : Option User) (s : Store)
    → is_loans_result (log_in_as setup body user s).0 ≡ false
log_in_as-is_loans setup body none s = refl
log_in_as-is_loans setup body (some user) s = elim (Bool-cases user.is_active) [
  | inl e ↦ simp (e) (check_password-is_loans setup body user s)
  | inr e ↦ simp (e)
]

log_in-is_loans :
    (setup : Setup) (body : Json) (s : Store) → is_loans_result (log_in setup body s).0 ≡ false
unfolding log_in
log_in-is_loans setup body s =
    bind-is_loans (user_named body) (log_in_as setup body) s (log_in_as-is_loans setup body)

-- Of all handlers, only the list of loans lists loans.
pub run-is_loans :
    (setup : Setup) (e : Endpoint) (call : Call) (s : Store)
    → is_loans_result (run setup e call s).0 ≡ is_list_loans e
unfolding run
run-is_loans setup Endpoint.list_loans call s = refl
run-is_loans setup Endpoint.login call s = log_in-is_loans setup call.body s
run-is_loans setup Endpoint.create_borrower call s =
    reply-is_loans 201 Answer.party
      (register_borrower (setup.inputs.borrower call.body) (sub_of call.auth)) s (λ a. refl)
run-is_loans setup Endpoint.link_auth call s =
    reply-is_loans 200 Answer.party
      (link_auth_user (param "id" call) (setup.inputs.auth_user call.body) (sub_of call.auth)) s
      (λ a. refl)
run-is_loans setup Endpoint.create_vault call s =
    reply-is_loans 201 Answer.new_vault
      (create_vault_with (setup.inputs.vault call.body).0 (setup.inputs.vault call.body).1
        (sub_of call.auth))
      s (λ a. refl)
run-is_loans setup Endpoint.vault_deposit call s =
    reply-is_loans 202 Answer.queued
      (deposit (param "id" call) (setup.inputs.deposit call.body) (sub_of call.auth)) s (λ a. refl)
run-is_loans setup Endpoint.create_loan_broker call s =
    reply-is_loans 201 Answer.new_broker
      (create_broker (setup.inputs.loan_broker call.body).0 (setup.inputs.loan_broker call.body).1
        (sub_of call.auth))
      s (λ a. refl)
run-is_loans setup Endpoint.collateral_deposit call s =
    reply-is_loans 202 Answer.queued
      (deposit_collateral (param "id" call) (get "amountObject" call.body) (get "amount" call.body)
        (sub_of call.auth))
      s (λ a. refl)
run-is_loans setup Endpoint.create_loan call s =
    reply-is_loans 201 Answer.loan (create (setup.inputs.loan call.body) (sub_of call.auth)) s
      (λ a. refl)
run-is_loans setup Endpoint.cosign_packet call s =
    reply-is_loans 201 Answer.packet (prepare_cosign_packet (param "id" call) (sub_of call.auth)) s
      (λ a. refl)
run-is_loans setup Endpoint.sign_broker call s =
    reply-is_loans 200 Answer.row (sign_broker_with call) s (λ a. refl)
run-is_loans setup Endpoint.sign_borrower call s =
    reply-is_loans 200 Answer.row (sign_borrower_with call) s (λ a. refl)
run-is_loans setup other call s = refl
