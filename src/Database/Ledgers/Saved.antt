-- ===== src/Database/Ledgers/Saved.antt =====
-- What `saveReconciliationRun` of apps/control-api/src/db/memory.js leaves.
use xrpl_credit_orchestrator.Prelude.{[], ◌∷◌, ◌++◌, ◌≡◌, refl, ok}
use xrpl_credit_orchestrator.Database.Tables.{Store, ReconciliationRun, now_iso}
use xrpl_credit_orchestrator.Database.Ledgers.{RunInput, save_reconciliation_run}

-- A run is saved last of all runs, with the outcome that it has.
pub save_run-ok :
    (run : RunInput) (s : Store)
    → (stored : ReconciliationRun) × ((save_reconciliation_run run s).0 ≡ ok stored)
      × ((save_reconciliation_run run s).1.reconciliations ≡ s.reconciliations ++ stored ∷ [])
      × (stored.outcome ≡ run.outcome)
      × ((save_reconciliation_run run s).1.outbox ≡ s.outbox)
unfolding save_reconciliation_run
save_run-ok run s = (
  record {
    id = s.host.uuid s.drawn;
    created_at = now_iso s;
    job_name = run.job_name;
    target_type = run.target_type;
    target_id = run.target_id;
    outcome = run.outcome;
    detail = run.detail;
  },
  refl,
  refl,
  refl,
  refl,
)
