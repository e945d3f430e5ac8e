-- ===== src/Worker/Reconciliation/Run.antt =====
-- `verifyLedgerPresence` and `runReconciliation` of apps/ledger-worker/src/runs/reconciliation.js: the
-- immediate run after submission.
use xrpl_credit_orchestrator.Prelude.{
  String, true, not, ◌&&◌, List, [], ◌∷◌, if◌then◌else◌, Action, pure, ◌>>=◌, ◌>>◌, try_catch, gets,
}
use xrpl_credit_orchestrator.Json.{Json, null, bool, str, obj, end}
use xrpl_credit_orchestrator.Json.Field.{put, or_json, truthy_json, object_entries}
use xrpl_credit_orchestrator.Database.{OutboxRow, now_iso}
use xrpl_credit_orchestrator.Database.Outbox.{update_outbox, list_outbox_for_reconciliation}
use xrpl_credit_orchestrator.Database.Ledgers.{save_reconciliation_run}
use xrpl_credit_orchestrator.Worker.State.{Calls, Config, World, on_db, on_ledger}
use xrpl_credit_orchestrator.Worker.Metadata.{CreatedIds, Enriched, enrich_aggregate}
use xrpl_credit_orchestrator.Worker.Reconciliation.{
  ledger_entry, vault_info, vault_found, vault_fallback, entry_found, not_found, missing, Checked,
  outcome_of, detail_of, run_of, reconciled_patch, error_run, mode, has_any_id,
}

module _ {L : Type 0} (calls : Calls L) where
  abbrev check_vault : Json → Action L Json
  check_vault id =
      try_catch (do answer ← calls.request (vault_info id); pure (vault_found id answer))
        (λ message.
          try_catch (do answer ← calls.request (ledger_entry id); pure (vault_fallback id answer))
            (λ _. pure (not_found message)))

  abbrev check_entry : Json → Action L Json
  check_entry id =
      try_catch (do answer ← calls.request (ledger_entry id); pure (entry_found answer))
        (λ message. pure (not_found message))

  -- `if (id) detail.key = check(id)`
  abbrev add_check : String → Json → (Json → Action L Json) → Json → Action L Json
  add_check key id check detail =
      if truthy_json id then (do v ← check id; pure (put key v detail)) else pure detail

  unfoldable pub verify_ledger_presence : Json → Json → Json → Action L Json
  verify_ledger_presence vault_id loan_broker_id loan_id = do
    with_vault ← add_check "vault" vault_id check_vault (obj end)
    with_broker ← add_check "loanBroker" loan_broker_id check_entry with_vault
    add_check "loan" loan_id check_entry with_broker

  abbrev pub live_check : CreatedIds → String → Action L Checked
  live_check out now =
      try_catch
        (do
          calls.connect
          check ←
              verify_ledger_presence (or_json out.vault_id null) (or_json out.loan_broker_id null)
                (or_json out.loan_id null)
          let checked : Checked = record {
            ledger_check = check;
            mismatches = missing now (object_entries check);
          }
          pure checked)
        (λ message. do
          let checked : Checked = record {
            ledger_check = put "partial" (bool true) (put "error" (str message) (mode "live"));
            mismatches = [];
          }
          pure checked)

  -- The check of the ledger, where the configuration has one.
  unfoldable pub check_ledger : Config → CreatedIds → String → Action L Checked
  check_ledger config out now =
      if not config.dry_run && config.xrpl_lending_enabled
      then if has_any_id out
        then live_check out now
        else pure (record {
          ledger_check =
              put "reason" (str "no ledger objects to verify")
                (put "skipped" (bool true) (mode "live"));
          mismatches = [];
        })
      else pure (record {
        ledger_check = mode (if config.dry_run then "dry_run" else "live");
        mismatches = [];
      })

  unfoldable pub conclude_run : OutboxRow → Enriched → Checked → Action (World L) (Unit {0})
  conclude_run item updated checked = do
    let detail = detail_of item updated checked
    on_db (save_reconciliation_run (run_of item (outcome_of checked.mismatches) detail))
    now ← gets (λ (w : World L). now_iso w.db)
    on_db (update_outbox item.id (reconciled_patch item checked detail now))
    pure tt

  unfoldable pub reconcile_body : Config → OutboxRow → Action (World L) (Unit {0})
  reconcile_body config item = do
    updated ← on_db (enrich_aggregate item item.tx_result)
    now ← gets (λ (w : World L). now_iso w.db)
    checked ← on_ledger (check_ledger config updated.created now)
    conclude_run item updated checked

  unfoldable pub reconcile_row : Config → OutboxRow → Action (World L) (Unit {0})
  reconcile_row config item =
      try_catch (reconcile_body config item)
        (λ message. on_db (save_reconciliation_run (error_run item message)) >> pure tt)

  unfoldable pub reconcile_rows : Config → List OutboxRow → Action (World L) (Unit {0})
  reconcile_rows config [] = pure tt
  reconcile_rows config (item ∷ items) = reconcile_row config item >> reconcile_rows config items

  unfoldable pub run_reconciliation : Config → Action (World L) (Unit {0})
  run_reconciliation config = do
    targets ← on_db (list_outbox_for_reconciliation 20)
    reconcile_rows config targets
