-- ===== src/Shared.antt =====
-- packages/shared-types/src/index.js: roles, statuses and kinds, with the texts that they are.
use xrpl_credit_orchestrator.Prelude.{
  String, Bool, true, false, Option, none, some, List, [], ◌∷◌, ◌==◌, if◌then◌else◌,
}

-- `Roles`; `ADMIN` and `OPERATOR` are other names of the first two.
abbrev pub platform_admin : String
platform_admin = "platform_admin"

abbrev pub risk_operator : String
risk_operator = "risk_operator"

abbrev pub ledger_operator : String
ledger_operator = "ledger_operator"

abbrev pub auditor : String
auditor = "auditor"

abbrev pub lender : String
lender = "lender"

abbrev pub borrower : String
borrower = "borrower"

-- `SoDConstraints[action]`
abbrev pub sod_constraints : String → Option (List String)
sod_constraints action =
    if action == "LOAN_APPROVE"
    then some ("LOAN_SUBMIT" ∷ "RECONCILIATION_CLOSE" ∷ [])
    else if action == "LOAN_SUBMIT"
    then some ("LOAN_APPROVE" ∷ "RECONCILIATION_CLOSE" ∷ [])
    else if action == "RECONCILIATION_CLOSE"
    then some ("LOAN_APPROVE" ∷ "LOAN_SUBMIT" ∷ [])
    else none

pub data TxKind : Type 0 where
  vault_create vault_deposit loan_broker_set loan_broker_collateral_deposit loan_set : TxKind

abbrev pub kind_text : TxKind → String
kind_text TxKind.vault_create = "vault_create"
kind_text TxKind.vault_deposit = "vault_deposit"
kind_text TxKind.loan_broker_set = "loan_broker_set"
kind_text TxKind.loan_broker_collateral_deposit = "loan_broker_collateral_deposit"
kind_text TxKind.loan_set = "loan_set"

abbrev pub is_loan_set : TxKind → Bool
is_loan_set TxKind.loan_set = true
is_loan_set _ = false

pub data OutboxStatus : Type 0 where
  pending processing prepared signed_1 signed_2 submitted validated indexed reconciled closed failed
        blocked manual_review :
      OutboxStatus

abbrev pub status_text : OutboxStatus → String
status_text OutboxStatus.pending = "pending"
status_text OutboxStatus.processing = "processing"
status_text OutboxStatus.prepared = "prepared"
status_text OutboxStatus.signed_1 = "signed_1"
status_text OutboxStatus.signed_2 = "signed_2"
status_text OutboxStatus.submitted = "submitted"
status_text OutboxStatus.validated = "validated"
status_text OutboxStatus.indexed = "indexed"
status_text OutboxStatus.reconciled = "reconciled"
status_text OutboxStatus.closed = "closed"
status_text OutboxStatus.failed = "failed"
status_text OutboxStatus.blocked = "blocked"
status_text OutboxStatus.manual_review = "manual_review"

pub data LoanStatus : Type 0 where
  quoted approved cosign_pending active impaired defaulted repaid closed : LoanStatus

abbrev pub loan_status_text : LoanStatus → String
loan_status_text LoanStatus.quoted = "quoted"
loan_status_text LoanStatus.approved = "approved"
loan_status_text LoanStatus.cosign_pending = "cosign_pending"
loan_status_text LoanStatus.active = "active"
loan_status_text LoanStatus.impaired = "impaired"
loan_status_text LoanStatus.defaulted = "defaulted"
loan_status_text LoanStatus.repaid = "repaid"
loan_status_text LoanStatus.closed = "closed"

pub data VaultStatus : Type 0 where
  queued active funded failed : VaultStatus

pub data BrokerStatus : Type 0 where
  queued active cover_funded failed : BrokerStatus

abbrev pub vault_status_text : VaultStatus → String
vault_status_text VaultStatus.queued = "queued"
vault_status_text VaultStatus.active = "active"
vault_status_text VaultStatus.funded = "funded"
vault_status_text VaultStatus.failed = "failed"

abbrev pub broker_status_text : BrokerStatus → String
broker_status_text BrokerStatus.queued = "queued"
broker_status_text BrokerStatus.active = "active"
broker_status_text BrokerStatus.cover_funded = "cover_funded"
broker_status_text BrokerStatus.failed = "failed"
