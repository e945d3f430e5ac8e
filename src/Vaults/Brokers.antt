-- ===== src/Vaults/Brokers.antt =====
-- `createBroker` and `depositCollateral` of apps/control-api/src/services/vaults.service.js.
use xrpl_credit_orchestrator.Prelude.{
  String, not, Option, none, ◌==◌, ◌+++◌, or_else, if◌then◌else◌, Action, pure, throw_if, gets,
  ◌>>=◌, ◌>>◌,
}
use xrpl_credit_orchestrator.Json.{Json, num, str, obj, end, field}
use xrpl_credit_orchestrator.Json.Field.{get, or_json, of_text}
use xrpl_credit_orchestrator.Json.Print.{stringify, to_string, decimal}
use xrpl_credit_orchestrator.Shared.{TxKind}
use xrpl_credit_orchestrator.Builders.{
  is_string, build_loan_broker_set_tx, build_loan_broker_collateral_deposit_tx,
}
use xrpl_credit_orchestrator.Database.{Store, Vault, LoanBroker, OutboxRow}
use xrpl_credit_orchestrator.Database.Entities.{get_vault}
use xrpl_credit_orchestrator.Database.Lending.{
  BrokerInput, CoverInput, create_loan_broker, get_loan_broker, append_cover_ledger,
}
use xrpl_credit_orchestrator.Database.Outbox.{enqueue_tx}
use xrpl_credit_orchestrator.Database.Evidence.{append_evidence}
use xrpl_credit_orchestrator.Loans.{Actor, is_unset, or_throw}
use xrpl_credit_orchestrator.Vaults.{hex_upper, request_of}

-- The fields of a loan broker's request that the transaction alone uses.
pub record BrokerExtras : Type 0 where
  pub collateral_rate_minimum : Json
  pub collateral_rate_liquidation : Json
  pub display_name : Option String
  pub metadata : Json

abbrev broker_set_input : Vault → BrokerInput → BrokerExtras → Json
broker_set_input vault input extras =
    let name = obj (field "displayName" (str (or_else extras.display_name "Loan Broker")) end) in
    obj (
      field "account" (str input.owner_address) (
        field "vaultId" (of_text vault.xrpl_vault_id) (
          field "managementFeeRate" (or_json input.management_fee_rate (num 0)) (
            field "debtMaximum" (or_json input.debt_maximum (str "0")) (
              field "collateralRateMinimum"
                (or_json extras.collateral_rate_minimum (or_json input.cover_rate_minimum (num 0)))
                (field "collateralRateLiquidation"
                  (or_json extras.collateral_rate_liquidation
                    (or_json input.cover_rate_liquidation (num 0)))
                  (field "data" (or_json extras.metadata name) end)))))))

unfoldable pub create_broker :
    BrokerInput → BrokerExtras → Actor → Action Store (LoanBroker × OutboxRow × Json)
create_broker input extras actor = do
  found ← get_vault input.vault_id
  vault ← or_throw found "vault_not_found"
  throw_if (is_unset vault.xrpl_vault_id) "vault_not_ready: xrplVaultId not yet written back."
  throw_if (not (vault.owner_address == input.owner_address))
      "owner_mismatch: loan broker owner must match vault owner per XLS-66d"
  broker ← create_loan_broker input
  hex ← hex_upper
  tx ← build_loan_broker_set_tx hex (broker_set_input vault input extras)
  outbox ← enqueue_tx (
      request_of TxKind.loan_broker_set "loan_broker" broker.id ("broker_set_" +++ broker.id) actor
        tx (obj (field "vaultId" (str input.vault_id) end)))
  append_evidence "loan_broker" broker.id "loan_broker.queued" (
      obj (
        field "actor" (of_text actor) (
          field "vaultId" (str input.vault_id)
            (field "managementFeeRate" (or_json input.management_fee_rate (num 0)) end))))
  pure (broker, outbox, tx)

-- `input.amountObject ?? String(input.amount)`
abbrev pub collateral_amount : Json → Json → Json
collateral_amount amount_object amount = or_json amount_object (str (to_string amount))

abbrev cover_of : String → Json → CoverInput
cover_of loan_broker_id amount = record {
  loan_broker_id = loan_broker_id;
  entry_type = "collateral_deposit";
  amount = if is_string amount then amount else get "value" amount;
  asset_ref = if is_string amount then "XRP" else stringify amount;
  xrpl_tx_hash = none;
}

unfoldable pub deposit_collateral : String → Json → Json → Actor → Action Store (OutboxRow × Json)
deposit_collateral loan_broker_id amount_object amount_given actor = do
  found ← get_loan_broker loan_broker_id
  broker ← or_throw found "loan_broker_not_found"
  throw_if (is_unset broker.xrpl_loan_broker_id)
      "loan_broker_not_ready: xrplLoanBrokerId not yet written back."
  let amount = collateral_amount amount_object amount_given
  tx ← build_loan_broker_collateral_deposit_tx (
      obj (
        field "account" (str broker.owner_address)
          (field "loanBrokerId" (of_text broker.xrpl_loan_broker_id) (field "amount" amount end))))
  now ← gets (λ s. s.now)
  outbox ← enqueue_tx (
      request_of TxKind.loan_broker_collateral_deposit "loan_broker" broker.id
        ("broker_collateral_" +++ broker.id +++ "_" +++ decimal now) actor tx
        (obj (field "amount" amount end)))
  append_cover_ledger (cover_of loan_broker_id amount)
  append_evidence "loan_broker" broker.id "loan_broker.collateral.queued" (
      obj (
        field "actor" (of_text actor)
          (field "action" (str "collateral_deposit") (field "amount" amount end))))
  pure (outbox, tx)
