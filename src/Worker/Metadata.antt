-- ===== src/Worker/Metadata.antt =====
-- apps/ledger-worker/src/runs/xrpl-state.js: what a transaction's metadata says, and what it makes of
-- the vaults, brokers and loans.
mod Nodes
pub mod Readable
pub use Nodes.*
use xrpl_credit_orchestrator.Prelude.{
  String, Bool, true, false, not, ◌&&◌, ◌||◌, Option, none, some, List, [], ◌∷◌, find, map, filter,
  if◌then◌else◌, Action, pure, returned, ◌>>=◌, ◌>>◌,
}
use xrpl_credit_orchestrator.Json.{Json, null, undefined, bool, str, arr, obj, end, field}
use xrpl_credit_orchestrator.Json.Field.{
  get, or_json, truthy_json, is_text, as_text, as_num, of_list,
}
use xrpl_credit_orchestrator.Shared.{TxKind, kind_text, VaultStatus, BrokerStatus, LoanStatus}
use xrpl_credit_orchestrator.Database.{Store, OutboxRow, Vault, LoanBroker, Loan}
use xrpl_credit_orchestrator.Database.Entities.{update_vault}
use xrpl_credit_orchestrator.Database.Lending.{update_loan_broker, update_loan}
use xrpl_credit_orchestrator.Worker.Metadata.Nodes.{
  NodeAction, action_text, Node, CreatedIds, TxMetadata, is_created, is_modified, is_broker_type,
  extract_created_ledger_ids, extract_tx_metadata,
}

-- What the enrichment returns; `info` is its `sharesInfo`, `coverInfo` or `loanTerms`.
pub record Enriched : Type 0 where
  pub kind : TxKind
  pub created : CreatedIds
  pub tx_meta : TxMetadata
  pub info : Json
  pub resolved : Bool

abbrev or_null : Json → Json
or_null v = or_json v null

-- `sharesInfo`
abbrev shares_info : List Node → Json
shares_info nodes = elim (find (λ n. is_modified n && is_text "Vault" n.entry_type) nodes) [
  | none ↦ null
  | some n ↦ obj (
      field "finalAsset" (or_null (get "Asset" n.final_fields)) (
        field "finalShares" (or_null (get "TotalShares" n.final_fields))
          (field "previousShares" (or_null (get "TotalShares" n.previous_fields)) end)))
]

-- `coverInfo`
abbrev cover_info : List Node → Json
cover_info nodes = elim (find (λ n. is_modified n && is_broker_type n.entry_type) nodes) [
  | none ↦ null
  | some n ↦ obj (
      field "finalCover" (or_null (get "CoverBalance" n.final_fields))
        (field "previousCover" (or_null (get "CoverBalance" n.previous_fields)) end))
]

-- `loanTerms`
abbrev loan_terms : List Node → Json
loan_terms nodes = elim (find (λ n. is_created n && is_text "Loan" n.entry_type) nodes) [
  | none ↦ obj end
  | some n ↦ or_json n.new_fields (obj end)
]

abbrev vault_created : Json → Vault → Vault
vault_created id v = record v { xrpl_vault_id = as_text id; status = VaultStatus.active }

abbrev vault_funded : Vault → Vault
vault_funded v = record v { status = VaultStatus.funded }

abbrev broker_created : Json → LoanBroker → LoanBroker
broker_created id b = record b { xrpl_loan_broker_id = as_text id; status = BrokerStatus.active }

abbrev broker_covered : LoanBroker → LoanBroker
broker_covered b = record b { status = BrokerStatus.cover_funded }

abbrev loan_created : CreatedIds → Loan → Loan
loan_created out l = record l {
  xrpl_loan_id = as_text out.loan_id;
  xrpl_loan_seq = as_num out.loan_seq;
  status = LoanStatus.active;
}

abbrev update_if : {A : Type 0} → Bool → Action Store A → Action Store (Unit {0})
update_if b m = if b then (m >> pure tt) else pure tt

-- What each kind of transaction writes to its aggregate.
unfoldable pub write_aggregate : TxKind → String → CreatedIds → Action Store (Unit {0})
write_aggregate TxKind.vault_create id out =
    update_if (truthy_json out.vault_id) (update_vault id (vault_created out.vault_id))
write_aggregate TxKind.vault_deposit id out = update_if true (update_vault id vault_funded)
write_aggregate TxKind.loan_broker_set id out =
    update_if (truthy_json out.loan_broker_id)
      (update_loan_broker id (broker_created out.loan_broker_id))
write_aggregate TxKind.loan_broker_collateral_deposit id out =
    update_if true (update_loan_broker id broker_covered)
write_aggregate TxKind.loan_set id out =
    update_if (truthy_json out.loan_id || truthy_json out.loan_seq)
      (update_loan id (loan_created out))

abbrev pub info_of : TxKind → CreatedIds → List Node → Json
info_of TxKind.vault_create out nodes = undefined
info_of TxKind.vault_deposit out nodes = shares_info nodes
info_of TxKind.loan_broker_set out nodes = undefined
info_of TxKind.loan_broker_collateral_deposit out nodes = cover_info nodes
info_of TxKind.loan_set out nodes =
    if truthy_json out.loan_id || truthy_json out.loan_seq then loan_terms nodes else undefined

abbrev pub is_resolved : TxKind → CreatedIds → Bool
is_resolved TxKind.vault_create out = truthy_json out.vault_id
is_resolved TxKind.vault_deposit out = true
is_resolved TxKind.loan_broker_set out = truthy_json out.loan_broker_id
is_resolved TxKind.loan_broker_collateral_deposit out = true
is_resolved TxKind.loan_set out = truthy_json out.loan_id || truthy_json out.loan_seq

-- `enrichAggregateFromValidatedOutbox`, given the row and its result.
unfoldable pub enrich_aggregate : OutboxRow → Json → Action Store Enriched
enrich_aggregate row tx_result = do
  out ← returned (extract_created_ledger_ids tx_result)
  tx_meta ← returned (extract_tx_metadata tx_result)
  write_aggregate row.kind row.aggregate_id out
  let enriched : Enriched = record {
    kind = row.kind;
    created = out;
    tx_meta = tx_meta;
    info = info_of row.kind out tx_meta.nodes;
    resolved = is_resolved row.kind out;
  }
  pure enriched

-- The same values as JSON, as the worker stores them.
abbrev node_json : Node → Json
node_json n = obj (
    field "action" (str (action_text n.action)) (
      field "entryType" n.entry_type (
        field "ledgerIndex" n.ledger_index (
          field "newFields" n.new_fields
            (field "finalFields" n.final_fields (field "previousFields" n.previous_fields end))))))

abbrev pub created_json : CreatedIds → Json
created_json out = obj (
    field "vaultId" out.vault_id (
      field "loanBrokerId" out.loan_broker_id (
        field "loanId" out.loan_id (
          field "loanSeq" out.loan_seq (
            field "affectedTypes" (arr (of_list out.affected_types)) (
              field "normalizedNodes" (arr (of_list (map node_json out.normalized_nodes))) end))))))

abbrev pub metadata_json : TxMetadata → Json
metadata_json m = obj (
    field "txHash" m.tx_hash (
      field "ledgerIndex" m.ledger_index (
        field "transactionIndex" m.transaction_index (
          field "resultCode" m.result_code (
            field "deliveredAmount" m.delivered_amount
              (field "nodes" (arr (of_list (map node_json m.nodes))) end))))))

abbrev info_name : TxKind → String
info_name TxKind.vault_deposit = "sharesInfo"
info_name TxKind.loan_broker_collateral_deposit = "coverInfo"
info_name _ = "loanTerms"

abbrev pub enriched_json : Enriched → Json
enriched_json e = obj (
    field "kind" (str (kind_text e.kind)) (
      field "created" (created_json e.created) (
        field "txMeta" (metadata_json e.tx_meta)
          (field (info_name e.kind) e.info (field "resolved" (bool e.resolved) end)))))
