-- ===== src/Tests/Vaults.antt =====
-- The vault service's theorem at a concrete vault.
use xrpl_credit_orchestrator.Prelude.{false, none, some, [], ◌∷◌, ◌⊎◌}
use xrpl_credit_orchestrator.Json.{null, num}
use xrpl_credit_orchestrator.Shared.{VaultStatus}
use xrpl_credit_orchestrator.Database.{Store, Vault}
use xrpl_credit_orchestrator.Vaults.{DepositRequest, deposit}
use xrpl_credit_orchestrator.Vaults.Deposit.{IsNothing, IsQueued, deposit-cases}
use xrpl_credit_orchestrator.Tests.Data.{store}

abbrev vault : Vault
vault = record {
  id = "v1";
  xrpl_vault_id = some "V0";
  owner_address = "rOwner";
  asset_type = "XRP";
  asset_code = none;
  issuer_address = none;
  asset_mpt_issuance_id = none;
  is_private = false;
  permissioned_domain_id = none;
  status = VaultStatus.active;
  created_at = "";
  updated_at = "";
}

abbrev with_vault : Store
with_vault = record store { vaults = vault ∷ [] }

abbrev request : DepositRequest
request = record {
  account = "rLender";
  amount = num 40;
  lender_party_id = none;
  shares_numeric = null;
}

deposit-cases_example :
    IsNothing with_vault (deposit "v1" request (some "u3") with_vault)
    ⊎ IsQueued "v1" request with_vault (deposit "v1" request (some "u3") with_vault)
deposit-cases_example = deposit-cases "v1" request (some "u3") with_vault
