-- ===== src/Http/Routes/Answers.antt =====
-- What the routes of apps/control-api/src/main.js are given and what they answer with.
use xrpl_credit_orchestrator.Prelude.{ℕ, String, Bool, Option, List}
use xrpl_credit_orchestrator.Json.{Json}
use xrpl_credit_orchestrator.Shared.{TxKind, OutboxStatus}
use xrpl_credit_orchestrator.Evidence.{EvidenceEvent, Verdict}
use xrpl_credit_orchestrator.Database.{
  Store, Party, Vault, LoanBroker, Loan, OutboxRow, TransactionRow, Checkpoint, ReconciliationRun,
}
use xrpl_credit_orchestrator.Database.Entities.{BorrowerInput, VaultInput}
use xrpl_credit_orchestrator.Database.Lending.{BrokerInput, LoanInput}
use xrpl_credit_orchestrator.Database.Dashboard.{Health, Counts, Statuses, Summary}
use xrpl_credit_orchestrator.Vaults.{VaultExtras, DepositRequest}
use xrpl_credit_orchestrator.Vaults.Brokers.{BrokerExtras}
use xrpl_credit_orchestrator.Audit.{Export}
use xrpl_credit_orchestrator.Http.Token.{Crypto}

-- How a body is read as what the services take, and what else is not modelled.
pub record Inputs : Type 0 where
  pub borrower : Json → BorrowerInput
  pub auth_user : Json → String
  pub vault : Json → VaultInput × VaultExtras
  pub deposit : Json → DepositRequest
  pub loan_broker : Json → BrokerInput × BrokerExtras
  pub loan : Json → LoanInput
  pub quote : Json → Json
  pub metrics_text : Store → String

-- The configuration, as far as a handler reads it.
pub record Setup : Type 0 where
  pub crypto : Crypto
  pub auth_token_secret : String
  pub xrpl_lending_enabled : Bool
  pub xrpl_network : String
  pub inputs : Inputs

-- The fields of an outbox row that are shown.
pub record SafeRow : Type 0 where
  pub id : String
  pub kind : TxKind
  pub status : OutboxStatus
  pub aggregate_type : String
  pub aggregate_id : String
  pub tx_hash : Option String
  pub error : Option String
  pub attempts : ℕ
  pub created_at : String
  pub updated_at : String

abbrev pub safe_row : OutboxRow → SafeRow
safe_row r = record {
  id = r.id;
  kind = r.kind;
  status = r.status;
  aggregate_type = r.aggregate_type;
  aggregate_id = r.aggregate_id;
  tx_hash = r.tx_hash;
  error = r.error;
  attempts = r.attempts;
  created_at = r.created_at;
  updated_at = r.updated_at;
}

-- What a handler passes to `json` or `text`.
pub data Answer : Type 0 where
  healthy : Health → Bool → String → Answer
  error : String → Answer
  session : (access_token role username : String) → Answer
  summary : Summary → Answer
  service_metrics : String → Counts → Statuses → List Checkpoint → Answer
  exported : Export → Answer
  parties : List Party → Answer
  party : Party → Answer
  vaults : List Vault → Answer
  new_vault : Vault × OutboxRow × Json → Answer
  queued : OutboxRow × Json → Answer
  brokers : List LoanBroker → Answer
  new_broker : LoanBroker × OutboxRow × Json → Answer
  quoted : Json → Answer
  loans : List Loan → Answer
  loan : Loan → Answer
  packet : Json × OutboxRow → Answer
  row : OutboxRow → Answer
  rows : List SafeRow → Answer
  transactions : List TransactionRow → Answer
  runs : List ReconciliationRun → Answer
  history : List EvidenceEvent → Verdict → Answer
  plain : String → Answer
