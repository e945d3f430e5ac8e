-- ===== src/Worker/Reconciliation/Daily/Run.antt =====
-- `runFullReconciliation` of apps/ledger-worker/src/runs/reconciliation.js.
use xrpl_credit_orchestrator.Prelude.{
  ℕ, ◌+◌, String, Bool, true, false, not, ◌||◌, Option, none, some, List, [], ◌∷◌, filter, ltb, map,
  length, if◌then◌else◌, Action, ok, pure, ◌>>=◌, ◌>>◌,
}
use xrpl_credit_orchestrator.Json.{Json, str, num, arr, obj, end, field}
use xrpl_credit_orchestrator.Json.Field.{of_list}
use xrpl_credit_orchestrator.Shared.{VaultStatus, BrokerStatus}
use xrpl_credit_orchestrator.Database.{Store, Vault, LoanBroker, now_iso}
use xrpl_credit_orchestrator.Database.Ledgers.{RunInput, save_reconciliation_run}
use xrpl_credit_orchestrator.Worker.State.{Calls, Config, World, on_db, on_ledger}
use xrpl_credit_orchestrator.Worker.Reconciliation.{severity_text}
use xrpl_credit_orchestrator.Worker.Reconciliation.Daily.{
  Fault, Report, is_active_loan, reconcile_vault, reconcile_broker, reconcile_loan, check_all,
}

-- The rows that are checked.
abbrev pub is_checked_vault : Vault → Bool
is_checked_vault v = elim v.status [
  | VaultStatus.queued ↦ false
  | VaultStatus.failed ↦ false
  | _ ↦ true
]

abbrev pub is_checked_broker : LoanBroker → Bool
is_checked_broker b = elim b.status [
  | BrokerStatus.queued ↦ false
  | BrokerStatus.failed ↦ false
  | _ ↦ true
]

-- `summary.critical`; the checks know no other severity.
abbrev pub fault_count : List Report → ℕ
fault_count [] = 0
fault_count (r ∷ rs) = length r.mismatches + fault_count rs

pub record Results : Type 0 where
  pub vaults : List Report
  pub brokers : List Report
  pub loans : List Report

abbrev pub critical_count : Results → ℕ
critical_count r = fault_count r.vaults + fault_count r.brokers + fault_count r.loans

abbrev fault_json : Fault → Json
fault_json m = obj (
    field "field" (str m.name) (
      field "expected" (str m.expected) (
        field "actual" m.actual (
          field "severity" (str (severity_text m.severity))
            (field "detectedAt" (str m.detected_at) end)))))

abbrev report_json : Report → Json
report_json r = obj (
    field "type" (str r.kind) (
      field "id" (str r.id) (
        field "mismatches" (arr (of_list (map fault_json r.mismatches)))
          (field "onLedger" r.on_ledger end))))

abbrev pub results_json : Results → Json
results_json r =
    let summary = obj (
      field "info" (num 0)
        (field "warning" (num 0) (field "critical" (num (critical_count r)) end))) in
    obj (
      field "vaults" (arr (of_list (map report_json r.vaults))) (
        field "brokers" (arr (of_list (map report_json r.brokers)))
          (field "loans" (arr (of_list (map report_json r.loans))) (field "summary" summary end))))

abbrev pub daily_outcome : Results → String
daily_outcome r = if ltb 0 (critical_count r) then "critical_mismatch" else "ok"

abbrev pub daily_run : Results → RunInput
daily_run r = record {
  job_name = "daily_full_reconciliation";
  target_type = "system";
  target_id = "00000000-0000-0000-0000-000000000000";
  outcome = daily_outcome r;
  detail = results_json r;
}

module _ {L : Type 0} (calls : Calls L) where
  unfoldable pub collect_results : String → Store → Action L Results
  collect_results now s = do
    vaults ← check_all calls (reconcile_vault calls now) (filter is_checked_vault s.vaults)
    brokers ← check_all calls (reconcile_broker calls now) (filter is_checked_broker s.loan_brokers)
    loans ←
        check_all calls (reconcile_loan calls now) (filter (λ l. is_active_loan l.status) s.loans)
    let results : Results = record { vaults = vaults; brokers = brokers; loans = loans }
    pure results

  unfoldable pub conclude_daily : Results → Action (World L) (Option Results)
  conclude_daily results = do
    on_db (save_reconciliation_run (daily_run results))
    pure (some results)

  -- `none` is a run that was skipped.
  unfoldable pub run_full_reconciliation : Config → Action (World L) (Option Results)
  run_full_reconciliation config w =
      if config.dry_run || not config.xrpl_lending_enabled
      then (ok none, w)
      else (do results ← on_ledger (collect_results (now_iso w.db) w.db); conclude_daily results) w
