-- ===== src/Worker/Reconciliation.antt =====
-- `runReconciliation` of apps/ledger-worker/src/runs/reconciliation.js, with `verifyLedgerPresence` of
-- apps/ledger-worker/src/runs/xrpl-state.js.
pub mod Run
pub mod Outcome
pub mod Daily
use xrpl_credit_orchestrator.Prelude.{
  ℕ, String, Bool, true, false, not, ◌&&◌, ◌||◌, Option, none, some, List, [], ◌∷◌, ◌++◌, ◌+++◌,
  any, map, is_some, if◌then◌else◌, Action, ok, pure, ◌>>=◌, ◌>>◌, try_catch, gets,
}
use xrpl_credit_orchestrator.Json.{Json, null, bool, str, arr, obj, end, field}
use xrpl_credit_orchestrator.Json.Field.{
  get, put, or_json, truthy_json, is_true, of_text, of_list, object_entries,
}
use xrpl_credit_orchestrator.Shared.{OutboxStatus, kind_text}
use xrpl_credit_orchestrator.Database.{Store, OutboxRow, now_iso}
use xrpl_credit_orchestrator.Database.Outbox.{update_outbox, list_outbox_for_reconciliation}
use xrpl_credit_orchestrator.Database.Ledgers.{RunInput, save_reconciliation_run}
use xrpl_credit_orchestrator.Worker.State.{Calls, Config, World, on_db, on_ledger}
use xrpl_credit_orchestrator.Worker.Metadata.{
  CreatedIds, Enriched, enrich_aggregate, created_json, metadata_json,
}

pub data Severity : Type 0 where
  info warning critical : Severity

abbrev pub severity_text : Severity → String
severity_text info = "info"
severity_text warning = "warning"
severity_text critical = "critical"

pub record Mismatch : Type 0 where
  pub name : String
  pub expected : String
  pub actual : String
  pub severity : Severity
  pub detected_at : String

abbrev mismatch_json : Mismatch → Json
mismatch_json m = obj (
    field "field" (str m.name) (
      field "expected" (str m.expected) (
        field "actual" (str m.actual) (
          field "severity" (str (severity_text m.severity))
            (field "detectedAt" (str m.detected_at) end)))))

abbrev pub is_critical : Mismatch → Bool
is_critical m = elim m.severity [ critical ↦ true | _ ↦ false ]

-- `ledgerEntry({ index })`
abbrev pub ledger_entry : Json → Json
ledger_entry id = obj (
    field "command" (str "ledger_entry")
      (field "ledger_index" (str "validated") (field "index" id end)))

abbrev pub vault_info : Json → Json
vault_info id = obj (
    field "command" (str "vault_info")
      (field "ledger_index" (str "validated") (field "vault_id" id end)))

abbrev entry_type : Json → Json
entry_type answer = or_json (get "LedgerEntryType" (get "node" (get "result" answer))) null

abbrev pub vault_found : Json → Json → Json
vault_found id answer =
    let result = get "result" answer in
    let entry =
      or_json (get "ledger_entry" result)
        (or_json (get "node" result) (or_json (get "vault" result) null)) in
    obj (
      field "ok" (bool true) (
        field "index" (or_json (get "index" entry) (or_json (get "LedgerIndex" entry) id))
          (field "entryType" (or_json (get "LedgerEntryType" entry) null) end)))

abbrev pub vault_fallback : Json → Json → Json
vault_fallback id answer = obj (
    field "ok" (bool true) (
      field "index" id
        (field "entryType" (entry_type answer) (field "via" (str "ledger_entry") end))))

abbrev pub entry_found : Json → Json
entry_found answer = obj (field "ok" (bool true) (field "type" (entry_type answer) end))

abbrev pub not_found : String → Json
not_found message = obj (field "ok" (bool false) (field "error" (str message) end))

-- `val && val.ok === false`
abbrev is_not_ok : Json → Bool
is_not_ok v = elim (get "ok" v) [ bool b ↦ not b | _ ↦ false ]

-- One mismatch, a warning, for each object that was not found.
abbrev pub missing : String → List (String × Json) → List Mismatch
missing now [] = []
missing now ((key, v) ∷ rest) =
    if is_not_ok v
    then record {
      name = "ledger_" +++ key;
      expected = "exists";
      actual = "not_found";
      severity = warning;
      detected_at = now;
    }
      ∷ missing now rest
    else missing now rest

-- What the check of one row comes to.
pub record Checked : Type 0 where
  pub ledger_check : Json
  pub mismatches : List Mismatch

abbrev pub outcome_of : List Mismatch → String
outcome_of ms =
    if any is_critical ms then "critical_mismatch" else elim ms [ [] ↦ "ok" | _ ∷ _ ↦ "mismatch" ]

abbrev pub detail_of : OutboxRow → Enriched → Checked → Json
detail_of item updated checked = obj (
    field "kind" (str (kind_text updated.kind)) (
      field "created" (created_json updated.created) (
        field "resolved" (bool updated.resolved) (
          field "ledgerCheck" checked.ledger_check (
            field "mismatches" (arr (of_list (map mismatch_json checked.mismatches))) (
              field "txHash" (of_text item.tx_hash)
                (field "txMeta" (metadata_json updated.tx_meta) end)))))))

abbrev pub run_of : OutboxRow → String → Json → RunInput
run_of item outcome detail = record {
  job_name = "post_submit_reconciliation";
  target_type = item.aggregate_type;
  target_id = item.aggregate_id;
  outcome = outcome;
  detail = detail;
}

abbrev pub new_status : List Mismatch → OutboxStatus
new_status ms = if any is_critical ms then OutboxStatus.manual_review else OutboxStatus.reconciled

abbrev pub reconciled_patch : OutboxRow → Checked → Json → String → OutboxRow → OutboxRow
reconciled_patch item checked detail now r = record r {
  status = new_status checked.mismatches;
  metadata =
      put "reconciliation" detail (put "reconciledAt" (str now) (or_json item.metadata (obj end)));
}

abbrev pub error_run : OutboxRow → String → RunInput
error_run item message =
    run_of item "error"
      (obj (field "error" (str message) (field "txHash" (of_text item.tx_hash) end)))

abbrev pub mode : String → Json
mode text = obj (field "mode" (str text) end)

abbrev pub has_any_id : CreatedIds → Bool
has_any_id out =
    truthy_json out.vault_id || truthy_json out.loan_broker_id || truthy_json out.loan_id
