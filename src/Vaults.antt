-- ===== src/Vaults.antt =====
-- apps/control-api/src/services/vaults.service.js: vaults, deposits, loan brokers and their collateral.
pub mod Brokers
pub mod Deposit
use xrpl_credit_orchestrator.Prelude.{
  ℕ, String, Bool, true, false, not, ◌||◌, Option, none, some, List, [], ◌∷◌, ◌==◌, ◌+++◌, or_else,
  truthy_text, starts_with, to_upper, if◌then◌else◌, Action, ok, err, pure, throw, throw_if, gets,
  ◌>>=◌, ◌>>◌,
}
use xrpl_credit_orchestrator.Json.{Json, null, undefined, num, str, obj, end, field}
use xrpl_credit_orchestrator.Json.Field.{get, or_json, of_text}
use xrpl_credit_orchestrator.Json.Print.{stringify, to_string, decimal}
use xrpl_credit_orchestrator.Shared.{TxKind, kind_text}
use xrpl_credit_orchestrator.Builders.{
  is_string, build_vault_create_tx, build_vault_deposit_tx, build_loan_broker_set_tx,
  build_loan_broker_collateral_deposit_tx,
}
use xrpl_credit_orchestrator.Database.{Store, Vault, LoanBroker, OutboxRow}
use xrpl_credit_orchestrator.Database.Entities.{
  VaultInput, PositionInput, create_vault, get_vault, upsert_vault_position,
}
use xrpl_credit_orchestrator.Database.Lending.{
  BrokerInput, CoverInput, create_loan_broker, get_loan_broker, append_cover_ledger,
}
use xrpl_credit_orchestrator.Database.Outbox.{TxInput, enqueue_tx}
use xrpl_credit_orchestrator.Database.Evidence.{append_evidence}
use xrpl_credit_orchestrator.Loans.{Actor, is_unset, or_throw}

-- A field of the request that may be absent.
abbrev pub of_given : Option String → Json
of_given none = undefined
of_given (some s) = str s

-- `buildVaultCreateTx` and the like write metadata in upper-case hexadecimal digits.
abbrev pub hex_upper : Action Store (String → String)
hex_upper = gets (λ s t. to_upper (s.host.hex_utf8 t))

-- The fields of the request that the transaction alone uses.
pub record VaultExtras : Type 0 where
  pub display_name : Option String
  pub website : Json
  pub metadata : Json
  pub assets_maximum : Json
  pub withdrawal_policy : Json

abbrev pub asset_of : VaultInput → Json
asset_of input =
    if input.asset_type == "MPT"
    then obj (field "mpt_issuance_id" (of_given input.asset_mpt_issuance_id) end)
    else if input.asset_type == "XRP"
    then obj (field "currency" (str "XRP") end)
    else obj (
        field "currency" (of_given input.asset_code)
          (field "issuer" (of_given input.issuer_address) end))

abbrev vault_create_input : VaultInput → VaultExtras → Json
vault_create_input input extras =
    let name = obj (
      field "name" (str (or_else extras.display_name "Vault"))
        (field "website" (or_json extras.website null) end)) in
    obj (
      field "account" (str input.owner_address) (
        field "asset" (asset_of input) (
          field "domainId" (of_given input.permissioned_domain_id) (
            field "data" (or_json extras.metadata name) (
              field "assetsMaximum" (or_json extras.assets_maximum (str "0"))
                (field "withdrawalPolicy" (or_json extras.withdrawal_policy (num 0)) end))))))

abbrev pub request_of : TxKind → String → String → String → Actor → Json → Json → TxInput
request_of kind aggregate_type aggregate_id key actor tx metadata = record {
  kind = kind;
  aggregate_type = aggregate_type;
  aggregate_id = aggregate_id;
  dedupe_key = some key;
  requested_by_user = actor;
  tx_json = tx;
  metadata = metadata;
}

abbrev owner_fields : VaultInput → Json
owner_fields input =
    obj (
      field "ownerAddress" (str input.owner_address) (field "assetType" (str input.asset_type) end))

unfoldable pub create_vault_with :
    VaultInput → VaultExtras → Actor → Action Store (Vault × OutboxRow × Json)
create_vault_with input extras actor = do
  vault ← create_vault input
  hex ← hex_upper
  tx ← build_vault_create_tx hex (vault_create_input input extras)
  outbox ← enqueue_tx (
      request_of TxKind.vault_create "vault" vault.id ("vault_create_" +++ vault.id) actor tx
        (owner_fields input))
  append_evidence "vault" vault.id "vault.queued" (
      obj (
        field "actor" (of_text actor) (
          field "txKind" (str (kind_text outbox.kind)) (
            field "ownerAddress" (str input.owner_address)
              (field "assetType" (str input.asset_type) end)))))
  pure (vault, outbox, tx)

pub record DepositRequest : Type 0 where
  pub account : String
  pub amount : Json
  pub lender_party_id : Option String
  pub shares_numeric : Json

abbrev pub amount_of : Vault → Json → Json
amount_of vault amount =
    if vault.asset_type == "MPT"
    then obj (
        field "mpt_issuance_id" (of_text vault.asset_mpt_issuance_id)
          (field "value" (str (to_string amount)) end))
    else if vault.asset_type == "XRP"
    then str (to_string amount)
    else obj (
        field "currency" (of_text vault.asset_code) (
          field "issuer" (of_text vault.issuer_address)
            (field "value" (str (to_string amount)) end)))

abbrev pub deposit_input : Vault → DepositRequest → Json
deposit_input vault input = obj (
    field "account" (str input.account) (
      field "vaultId" (of_text vault.xrpl_vault_id)
        (field "amount" (amount_of vault input.amount) end)))

abbrev pub deposit_request : Vault → DepositRequest → Json → Actor → TxInput
deposit_request vault input tx actor =
    request_of TxKind.vault_deposit "vault" vault.id
      ("vault_deposit_" +++ vault.id +++ "_" +++ input.account) actor tx
      (obj
        (field "account" (str input.account) (field "amount" (amount_of vault input.amount) end)))

abbrev pub position_of : String → DepositRequest → PositionInput
position_of vault_id input = record {
  vault_id = vault_id;
  lender_party_id = input.lender_party_id;
  lender_address = input.account;
  shares_numeric = some (or_json input.shares_numeric (str "0"));
  deposited_amount = some (str (to_string input.amount));
  withdrawn_amount = some (str "0");
}

-- The deposit of a vault that is ready.
unfoldable pub queue_deposit :
    String → Vault → DepositRequest → Actor → Json → Action Store (OutboxRow × Json)
queue_deposit vault_id vault input actor tx = do
  outbox ← enqueue_tx (deposit_request vault input tx actor)
  upsert_vault_position (position_of vault_id input)
  append_evidence "vault" vault.id "vault.deposit.queued" (
      obj (
        field "actor" (of_text actor) (
          field "account" (str input.account) (field "amount" (amount_of vault input.amount) end))))
  pure (outbox, tx)

unfoldable pub deposit : String → DepositRequest → Actor → Action Store (OutboxRow × Json)
deposit vault_id input actor = do
  found ← get_vault vault_id
  vault ← or_throw found "vault_not_found"
  throw_if (is_unset vault.xrpl_vault_id)
      "vault_not_ready: xrplVaultId not yet written back from ledger. Wait for VaultCreate to be validated and indexed."
  tx ← build_vault_deposit_tx (deposit_input vault input)
  queue_deposit vault_id vault input actor tx
