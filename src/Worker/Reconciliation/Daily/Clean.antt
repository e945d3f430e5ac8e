-- ===== src/Worker/Reconciliation/Daily/Clean.antt =====
-- The daily run always ends, and what a clean one says of the vaults.
use xrpl_credit_orchestrator.Prelude.{
  String, Bool, true, false, ◌≡◌, ap, ◌∙◌, ◌⊎◌, inl, inr, some, [], ◌∷◌, ◌++◌, filter, map, All,
  ltb, if◌then◌else◌, ok, Bool-cases, arith, ◌>>=◌,
}
use xrpl_credit_orchestrator.Database.{Store, Vault, Loan, ReconciliationRun, now_iso}
use xrpl_credit_orchestrator.Database.Ledgers.Saved.{save_run-ok}
use xrpl_credit_orchestrator.Worker.State.{Calls, Config, World, on_ledger}
use xrpl_credit_orchestrator.Worker.Reconciliation.Daily.{
  is_live_vault, reconcile_vault, reconcile_broker, reconcile_loan, check_all, is_active_loan,
}
use xrpl_credit_orchestrator.Worker.Reconciliation.Daily.Run.{
  is_checked_vault, is_checked_broker, Results, critical_count, daily_outcome, daily_run,
  collect_results, conclude_daily, run_full_reconciliation,
}
use xrpl_credit_orchestrator.Worker.Reconciliation.Daily.Checks.{
  All-live, All-unit, ShowsVault, id_of, IsVouched, fault_count-clean, reconcile_vault-ok,
  reconcile_broker-ok, reconcile_loan-ok, check_all-ok,
}

module _ {L : Type 0} (calls : Calls L) where
  collect_results-ok :
      (now : String) (s : Store) (l : L)
      → (rs : Results) × ((collect_results calls now s l).0 ≡ ok rs)
        × All IsVouched rs.vaults
        × (map id_of rs.vaults ≡ map (λ (v : Vault). v.id) (filter is_checked_vault s.vaults))
  unfolding collect_results
  collect_results-ok now s l =
      let live = All-live s.vaults in
      let vs = filter is_checked_vault s.vaults in
      let bs = filter is_checked_broker s.loan_brokers in
      let ls = filter (λ (l : Loan). is_active_loan l.status) s.loans in
      let (rv, ev, pv, nv) =
        check_all-ok calls (λ v. v.id) (λ v. is_live_vault v.status ≡ true) IsVouched
          (reconcile_vault calls now) (reconcile_vault-ok calls now) vs l live in
      let l' = (check_all calls (reconcile_vault calls now) vs l).1 in
      let (rb, eb, pb, nb) =
        check_all-ok calls (λ b. b.id) (λ b. Unit {0}) (λ r. Unit {0}) (reconcile_broker calls now)
          (λ b t _. reconcile_broker-ok calls now b t) bs l' (All-unit bs) in
      let l'' = (check_all calls (reconcile_broker calls now) bs l').1 in
      let (rl, el, pl, nl) =
        check_all-ok calls (λ b. b.id) (λ b. Unit {0}) (λ r. Unit {0}) (reconcile_loan calls now)
          (λ b t _. reconcile_loan-ok calls now b t) ls l'' (All-unit ls) in
      (record { vaults = rv; brokers = rb; loans = rl }, ground (arith, ev, eb, el), pv, nv)

  -- The run, once it is not skipped.
  run_live :
      (config : Config) (w : World L)
      → config.dry_run ≡ false
      → config.xrpl_lending_enabled ≡ true
      → run_full_reconciliation calls config w
        ≡ (on_ledger (collect_results calls (now_iso w.db) w.db) >>= conclude_daily calls) w
  unfolding run_full_reconciliation
  run_live config w dry lending = rw (dry, lending)

  conclude-ok :
      (rs : Results) (w : World L)
      → (stored : ReconciliationRun) × ((conclude_daily calls rs w).0 ≡ ok (some rs))
        × ((conclude_daily calls rs w).1.db.reconciliations ≡ w.db.reconciliations ++ stored ∷ [])
        × (stored.outcome ≡ daily_outcome rs)
  unfolding conclude_daily
  conclude-ok rs w =
      let (stored, e, kept, outcome, _) = save_run-ok (daily_run rs) w.db in
      (stored, ground (arith, e), ground (arith, e, kept), outcome)

  -- On a live network with lending, whatever the ledger answers or throws, the daily run ends, and
  -- saves one run with its outcome. It reports on exactly the vaults that are neither queued nor failed,
  -- in order, and its outcome is a critical mismatch, or it is ok and the ledger shows every one of these
  -- vaults as a vault.
  pub run_full_reconciliation-clean :
      (config : Config) (w : World L)
      → config.dry_run ≡ false
      → config.xrpl_lending_enabled ≡ true
      → (rs : Results) × (stored : ReconciliationRun) × ((run_full_reconciliation calls config w).0
          ≡ ok (some rs))
        × ((run_full_reconciliation calls config w).1.db.reconciliations
            ≡ w.db.reconciliations ++ stored ∷ [])
        × (map id_of rs.vaults ≡ map (λ (v : Vault). v.id) (filter is_checked_vault w.db.vaults))
        × ((stored.outcome ≡ "critical_mismatch")
            ⊎ ((stored.outcome ≡ "ok") × All ShowsVault rs.vaults))
  run_full_reconciliation-clean config w dry lending =
      let (rs, e, vouched, n) = collect_results-ok (now_iso w.db) w.db w.ledger in
      let seen = record w { ledger = (collect_results calls (now_iso w.db) w.db w.ledger).1 } in
      let (stored, ended, kept, outcome) = conclude-ok rs seen in
      let run = run_live config w dry lending in
      let whole : (on_ledger (collect_results calls (now_iso w.db) w.db) >>= conclude_daily calls) w
          ≡ conclude_daily calls rs seen =
        ground (arith, e) in
      (
        rs,
        stored,
        ap (λ out. out.0) (run ∙ whole) ∙ ended,
        ap (λ out. out.1.db.reconciliations) (run ∙ whole) ∙ kept,
        n,
        elim (Bool-cases (ltb 0 (critical_count rs))) [
          | inl some_fault ↦ inl (outcome ∙ ap daily_text some_fault)
          | inr clean ↦
              inr
                (outcome ∙ ap daily_text clean, fault_count-clean rs.vaults (ground arith) vouched)
        ],
      )
    where
      daily_text : Bool → String
      daily_text b = if b then "critical_mismatch" else "ok"
