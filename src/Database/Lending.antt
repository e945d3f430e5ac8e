-- ===== src/Database/Lending.antt =====
-- The tables of loan brokers, of their cover and of loans, of apps/control-api/src/db/memory.js.
use xrpl_credit_orchestrator.Prelude.{
  String, Bool, Option, none, List, [], ◌∷◌, ◌++◌, ◌==◌, find, update_first, Action, ok, pure, gets,
  modify, ◌>>=◌, ◌>>◌,
}
use xrpl_credit_orchestrator.Json.{Json, null, num, str}
use xrpl_credit_orchestrator.Json.Field.{or_json}
use xrpl_credit_orchestrator.Json.Print.{to_string}
use xrpl_credit_orchestrator.Shared.{LoanStatus, BrokerStatus}
use xrpl_credit_orchestrator.Database.Tables.{
  Store, LoanBroker, CoverEntry, Loan, random_uuid, now_iso,
}

pub record BrokerInput : Type 0 where
  pub vault_id : String
  pub owner_address : String
  pub management_fee_rate : Json
  pub debt_maximum : Json
  pub cover_rate_minimum : Json
  pub cover_rate_liquidation : Json

unfoldable pub create_loan_broker : BrokerInput → Action Store LoanBroker
create_loan_broker input = do
  id ← random_uuid
  now ← gets now_iso
  let row : LoanBroker = record {
    id = id;
    xrpl_loan_broker_id = none;
    vault_id = input.vault_id;
    owner_address = input.owner_address;
    management_fee_rate = or_json input.management_fee_rate (num 0);
    debt_maximum = to_string (or_json input.debt_maximum (str "0"));
    cover_rate_minimum = or_json input.cover_rate_minimum (num 0);
    cover_rate_liquidation = or_json input.cover_rate_liquidation (num 0);
    status = BrokerStatus.queued;
    created_at = now;
    updated_at = now;
  }
  modify (λ s. record s { loan_brokers = s.loan_brokers ++ row ∷ [] })
  pure row

abbrev pub is_broker : String → LoanBroker → Bool
is_broker id b = b.id == id

abbrev pub get_loan_broker : String → Action Store (Option LoanBroker)
get_loan_broker id = gets (λ s. find (is_broker id) s.loan_brokers)

abbrev pub list_loan_brokers : Action Store (List LoanBroker)
list_loan_brokers = gets (λ s. s.loan_brokers)

unfoldable pub update_loan_broker :
    String → (LoanBroker → LoanBroker) → Action Store (Option LoanBroker)
update_loan_broker id patch s =
    let write = λ (b : LoanBroker). (let b' = patch b in record b' { updated_at = now_iso s }) in
    let rows = update_first (is_broker id) write s.loan_brokers in
    (ok (find (is_broker id) rows), record s { loan_brokers = rows })

pub record CoverInput : Type 0 where
  pub loan_broker_id : String
  pub entry_type : String
  pub amount : Json
  pub asset_ref : String
  pub xrpl_tx_hash : Option String

unfoldable pub append_cover_ledger : CoverInput → Action Store CoverEntry
append_cover_ledger input = do
  id ← random_uuid
  now ← gets now_iso
  let row : CoverEntry = record {
    id = id;
    created_at = now;
    loan_broker_id = input.loan_broker_id;
    entry_type = input.entry_type;
    amount = input.amount;
    asset_ref = input.asset_ref;
    xrpl_tx_hash = input.xrpl_tx_hash;
  }
  modify (λ s. record s { first_loss_cover_ledger = s.first_loss_cover_ledger ++ row ∷ [] })
  pure row

pub record LoanInput : Type 0 where
  pub application_id : Option String
  pub loan_broker_id : String
  pub borrower_party_id : Option String
  pub borrower_address : String
  pub principal : Json
  pub interest_rate : Json
  pub payment_total : Json
  pub payment_interval : Json
  pub grace_period : Json
  pub loan_origination_fee : Json
  pub loan_service_fee : Json
  pub reason : Option String

unfoldable pub create_loan : LoanInput → Action Store Loan
create_loan input = do
  id ← random_uuid
  now ← gets now_iso
  let row : Loan = record {
    id = id;
    application_id = input.application_id;
    xrpl_loan_id = none;
    xrpl_loan_seq = none;
    loan_broker_id = input.loan_broker_id;
    borrower_party_id = input.borrower_party_id;
    borrower_address = input.borrower_address;
    principal = to_string input.principal;
    interest_rate = input.interest_rate;
    payment_total = input.payment_total;
    payment_interval = input.payment_interval;
    grace_period = input.grace_period;
    loan_origination_fee = to_string (or_json input.loan_origination_fee (str "0"));
    loan_service_fee = to_string (or_json input.loan_service_fee (str "0"));
    status = LoanStatus.approved;
    cosign_packet = null;
    partially_signed_tx_json = null;
    created_at = now;
    updated_at = now;
  }
  modify (λ s. record s { loans = s.loans ++ row ∷ [] })
  pure row

abbrev pub is_loan : String → Loan → Bool
is_loan id l = l.id == id

abbrev pub get_loan : String → Action Store (Option Loan)
get_loan id = gets (λ s. find (is_loan id) s.loans)

abbrev pub list_loans : Action Store (List Loan)
list_loans = gets (λ s. s.loans)

unfoldable pub update_loan : String → (Loan → Loan) → Action Store (Option Loan)
update_loan id patch s =
    let write = λ (l : Loan). (let l' = patch l in record l' { updated_at = now_iso s }) in
    let rows = update_first (is_loan id) write s.loans in
    (ok (find (is_loan id) rows), record s { loans = rows })
