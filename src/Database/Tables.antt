-- ===== src/Database/Tables.antt =====
-- The rows of the tables, and the state of the database.
use xrpl_credit_orchestrator.Prelude.{ℕ, suc, String, Bool, Option, List, Action, ok}
use xrpl_credit_orchestrator.Json.{Json}
use xrpl_credit_orchestrator.Shared.{TxKind, OutboxStatus, LoanStatus, VaultStatus, BrokerStatus}
use xrpl_credit_orchestrator.Evidence.{EvidenceEvent}

pub record User : Type 0 where
  pub id : String
  pub username : String
  pub password_hash : String
  pub role : String
  pub is_active : Bool

pub record Party : Type 0 where
  pub id : String
  pub auth_user_id : Option String
  pub role : String
  pub legal_name : String
  pub country_code : Option String
  pub status : String
  pub xrpl_address : Option String
  pub created_at : String

pub record Vault : Type 0 where
  pub id : String
  pub xrpl_vault_id : Option String
  pub owner_address : String
  pub asset_type : String
  pub asset_code : Option String
  pub issuer_address : Option String
  pub asset_mpt_issuance_id : Option String
  pub is_private : Bool
  pub permissioned_domain_id : Option String
  pub status : VaultStatus
  pub created_at : String
  pub updated_at : String

pub record VaultPosition : Type 0 where
  pub id : String
  pub vault_id : String
  pub lender_party_id : Option String
  pub lender_address : String
  pub shares_numeric : String
  pub deposited_amount : String
  pub withdrawn_amount : String
  pub updated_at : String

pub record LoanBroker : Type 0 where
  pub id : String
  pub xrpl_loan_broker_id : Option String
  pub vault_id : String
  pub owner_address : String
  pub management_fee_rate : Json
  pub debt_maximum : String
  pub cover_rate_minimum : Json
  pub cover_rate_liquidation : Json
  pub status : BrokerStatus
  pub created_at : String
  pub updated_at : String

-- `amount` and `asset_ref` are whatever the caller took from the request.
pub record CoverEntry : Type 0 where
  pub id : String
  pub created_at : String
  pub loan_broker_id : String
  pub entry_type : String
  pub amount : Json
  pub asset_ref : String
  pub xrpl_tx_hash : Option String

pub record Loan : Type 0 where
  pub id : String
  pub application_id : Option String
  pub xrpl_loan_id : Option String
  pub xrpl_loan_seq : Option ℕ
  pub loan_broker_id : String
  pub borrower_party_id : Option String
  pub borrower_address : String
  pub principal : String
  pub interest_rate : Json
  pub payment_total : Json
  pub payment_interval : Json
  pub grace_period : Json
  pub loan_origination_fee : String
  pub loan_service_fee : String
  pub status : LoanStatus
  pub cosign_packet : Json
  pub partially_signed_tx_json : Json
  pub created_at : String
  pub updated_at : String

pub record OutboxRow : Type 0 where
  pub id : String
  pub kind : TxKind
  pub status : OutboxStatus
  pub aggregate_type : String
  pub aggregate_id : String
  pub requested_by_user : Option String
  pub dedupe_key : Option String
  pub tx_json : Json
  pub submitted_tx_json : Json
  pub tx_hash : Option String
  pub tx_result : Json
  pub metadata : Json
  pub error : Option String
  pub attempts : ℕ
  pub created_at : String
  pub updated_at : String

pub record StoredEvent : Type 0 where
  pub id : String
  pub event : EvidenceEvent

pub record TransactionRow : Type 0 where
  pub tx_hash : Option String
  pub tx_type : Json
  pub account : Json
  pub counterparty : Json
  pub ledger_index : Json
  pub result_code : Json
  pub raw_json : Json
  pub observed_at : String

pub record Checkpoint : Type 0 where
  pub name : String
  pub last_validated_ledger : ℕ
  pub updated_at : String

pub record ReconciliationRun : Type 0 where
  pub id : String
  pub created_at : String
  pub job_name : String
  pub target_type : String
  pub target_id : String
  pub outcome : String
  pub detail : Json

-- What the runtime provides: the hash, the n-th random identifier, an instant as a text, the
-- hexadecimal digits of a text's bytes, and the hash of a password.
pub record Host : Type 0 where
  pub sha256 : String → String
  pub uuid : ℕ → String
  pub iso : ℕ → String
  pub hex_utf8 : String → String
  pub hash_password : String → String

-- `drawn` counts the identifiers that were drawn; `now` is `Date.now()`, in milliseconds.
pub record Store : Type 0 where
  pub host : Host
  pub drawn : ℕ
  pub now : ℕ
  pub users : List User
  pub parties : List Party
  pub vaults : List Vault
  pub vault_positions : List VaultPosition
  pub loan_brokers : List LoanBroker
  pub first_loss_cover_ledger : List CoverEntry
  pub loans : List Loan
  pub evidence : List StoredEvent
  pub outbox : List OutboxRow
  pub checkpoints : List Checkpoint
  pub reconciliations : List ReconciliationRun
  pub transactions : List TransactionRow
  pub sequences : List (String × ℕ)

-- `randomUUID()`
abbrev pub random_uuid : Action Store String
random_uuid s = (ok (s.host.uuid s.drawn), record s { drawn = suc s.drawn })

-- `new Date().toISOString()`
abbrev pub now_iso : Store → String
now_iso s = s.host.iso s.now
