-- ===== src/Tests/Daily.antt =====
-- The daily reconciliation of one vault that the ledger shows, and what a broker without a node tells;
-- and a counter of requests.
use xrpl_credit_orchestrator.Prelude.{
  ℕ, String, suc, true, false, none, some, [], ◌∷◌, ◌++◌, ◌≡◌, ◌⊎◌, refl, filter, map, All, ok,
  pure,
}
use xrpl_credit_orchestrator.Json.{Json, null, str, obj, end, field}
use xrpl_credit_orchestrator.Shared.{VaultStatus}
use xrpl_credit_orchestrator.Database.{Vault, LoanBroker, ReconciliationRun}
use xrpl_credit_orchestrator.Worker.{Calls, Config, World}
use xrpl_credit_orchestrator.Worker.Reconciliation.Daily.{node, broker_faults}
use xrpl_credit_orchestrator.Worker.Reconciliation.Daily.Run.{
  Results, is_checked_vault, run_full_reconciliation,
}
use xrpl_credit_orchestrator.Worker.Reconciliation.Daily.Clean.{run_full_reconciliation-clean}
use xrpl_credit_orchestrator.Worker.Reconciliation.Daily.Checks.{ShowsVault, id_of}
use xrpl_credit_orchestrator.Tests.Data.{store}

abbrev vault : Vault
vault = record {
  id = "v1";
  xrpl_vault_id = some "V0";
  owner_address = "rOwner";
  asset_type = "XRP";
  asset_code = none;
  issuer_address = none;
  asset_mpt_issuance_id = none;
  is_private = false;
  permissioned_domain_id = none;
  status = VaultStatus.active;
  created_at = "";
  updated_at = "";
}

abbrev shown : Json
shown =
    obj (
      field "result" (obj (field "node" (obj (field "LedgerEntryType" (str "Vault") end)) end)) end)

abbrev calls : Calls ℕ
calls = record {
  connect = pure tt;
  request = λ _ n. (ok shown, suc n);
  server_info = pure null;
  ledger_current = pure 9;
  autofill = λ tx. pure tx;
  has_key = λ _. pure true;
  sign = λ tx account. pure ("B10B", "HASH");
  sleep = λ ms n. n;
}

abbrev live : Config
live = record { xrpl_lending_enabled = true; dry_run = false; batch_size = 10 }

abbrev world : World ℕ
world = record {
  db = record store { vaults = vault ∷ [] };
  ledger = 0;
  last_network_check = none;
  last_fee_check = none;
}

run_full_reconciliation-clean_example :
    (rs : Results) × (stored : ReconciliationRun) × ((run_full_reconciliation calls live world).0
      ≡ ok (some rs))
    × ((run_full_reconciliation calls live world).1.db.reconciliations ≡ [] ++ stored ∷ [])
    × (map id_of rs.vaults ≡ map (λ (v : Vault). v.id) (filter is_checked_vault (vault ∷ [])))
    × ((stored.outcome ≡ "critical_mismatch")
        ⊎ ((stored.outcome ≡ "ok") × All ShowsVault rs.vaults))
run_full_reconciliation-clean_example = run_full_reconciliation-clean calls live world refl refl

-- A broker whose node the ledger does not give is no mismatch, in whatever status.
no_node : (now : String) (b : LoanBroker) → broker_faults now b (node null) ≡ []
no_node now b = refl
