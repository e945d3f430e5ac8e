-- ===== src/Worker/Reconciliation/Outcome.antt =====
-- How apps/ledger-worker/src/runs/reconciliation.js leaves a row after its immediate reconciliation.
use xrpl_credit_orchestrator.Prelude.{
  String, true, false, ◌⊎◌, not, ◌&&◌, List, [], ◌∷◌, ◌≡◌, refl, subst, sym, inl, inr, arith, any,
  Bool-cases, Result-cases, Result, ok,
}
use xrpl_credit_orchestrator.Json.{Json}
use xrpl_credit_orchestrator.Json.Field.{or_json, object_entries}
use xrpl_credit_orchestrator.Json.{null}
use xrpl_credit_orchestrator.Shared.{OutboxStatus}
use xrpl_credit_orchestrator.Database.{OutboxRow}
use xrpl_credit_orchestrator.Database.Outbox.{update_outbox, patched}
use xrpl_credit_orchestrator.Database.Ledgers.{save_reconciliation_run}
use xrpl_credit_orchestrator.Worker.State.{Calls, Config, World, on_db, on_ledger}
use xrpl_credit_orchestrator.Worker.Change.{IsChange}
use xrpl_credit_orchestrator.Worker.Metadata.{CreatedIds, Enriched, enrich_aggregate, is_readable}
use xrpl_credit_orchestrator.Worker.Indexer.Keeps.{enrich_aggregate_keeps, enrich_aggregate_throws}
use xrpl_credit_orchestrator.Worker.Indexer.Rounds.{IsReported}
use xrpl_credit_orchestrator.Database.Ledgers.Saved.{save_run-ok}
use xrpl_credit_orchestrator.Worker.Reconciliation.{
  Checked, is_critical, missing, detail_of, reconciled_patch, has_any_id, error_run,
}
use xrpl_credit_orchestrator.Worker.Reconciliation.Run.{
  verify_ledger_presence, check_ledger, live_check, conclude_run, reconcile_body, reconcile_row,
}

missing-is_critical :
    (now : String) (rest : List (String × Json)) → any is_critical (missing now rest) ≡ false
missing-is_critical now [] = refl
missing-is_critical now ((key, v) ∷ rest) = ground (arith, missing-is_critical now rest)

module _ {L : Type 0} (calls : Calls L) where
  verify_ledger_presence_answers :
      (a b c : Json) (l : L) → (v : Json) × ((verify_ledger_presence calls a b c l).0 ≡ ok v)
  unfolding verify_ledger_presence
  verify_ledger_presence_answers a b c l =
      elim (Result-cases (verify_ledger_presence calls a b c l).0) [
        | inl h ↦ h
        | inr (m, e) ↦ absurd (ground (arith, e))
      ]

  abbrev IsCalm : Result Checked × L → Type 0
  IsCalm res = (c : Checked) × (res.0 ≡ ok c) × (any is_critical c.mismatches ≡ false)

  live_check-IsCalm :
      (out : CreatedIds) (now : String) (l : L) → IsCalm (live_check calls out now l)
  live_check-IsCalm out now l =
      let l' = (calls.connect l).1 in
      let (v, e) =
        verify_ledger_presence_answers (or_json out.vault_id null) (or_json out.loan_broker_id null)
          (or_json out.loan_id null) l' in
      elim (Result-cases (live_check calls out now l).0) [
        | inl (c, f) ↦ (c, f, ground (arith, e, f, missing-is_critical now (object_entries v)))
        | inr (m, f) ↦ absurd (ground (arith, e, f))
      ]

  check_ledger-IsCalm :
      (config : Config) (out : CreatedIds) (now : String) (l : L)
      → IsCalm (check_ledger calls config out now l)
  unfolding check_ledger
  check_ledger-IsCalm config out now l =
      elim (Bool-cases (not config.dry_run && config.xrpl_lending_enabled)) [
        | inr off ↦ rw off (_, refl, refl)
        | inl on ↦ elim (Bool-cases (has_any_id out)) [
          | inl some_id ↦ rw (on, some_id) (live_check-IsCalm out now l)
          | inr no_id ↦ rw (on, no_id) (_, refl, refl)
        ]
      ]

  abbrev pub IsReconciled : OutboxRow → Type 0
  IsReconciled r = r.status ≡ OutboxStatus.reconciled

  abbrev IsClosed : OutboxRow → World L → Result (Unit {0}) × World L → Type 0
  IsClosed item w res = (res.0 ≡ ok tt) × IsChange item.id IsReconciled w.db.outbox res.1.db.outbox

  conclude_run-IsClosed :
      (item : OutboxRow) (updated : Enriched) (c : Checked) (w : World L)
      → any is_critical c.mismatches ≡ false
      → IsClosed item w (conclude_run calls item updated c w)
  unfolding conclude_run update_outbox save_reconciliation_run
  conclude_run-IsClosed item updated c w h =
      let now = w.db.host.iso w.db.now in
      let patch = reconciled_patch item c (detail_of item updated c) now in
      (refl, (patched patch now, (λ r. refl), (λ r. ground (arith, h)), refl))

  -- A row whose result can be read.
  reconcile_row-IsClosed :
      (config : Config) (item : OutboxRow) (w : World L)
      → is_readable item.tx_result ≡ true
      → IsClosed item w (reconcile_row calls config item w)
  unfolding reconcile_row reconcile_body
  reconcile_row-IsClosed config item w h =
      let (e, _, _, done, kept) = enrich_aggregate_keeps item item.tx_result w.db h in
      let w1 = (on_db (enrich_aggregate item item.tx_result) w).1 in
      let now = w1.db.host.iso w1.db.now in
      let (c, checked, calm) = check_ledger-IsCalm config e.created now w1.ledger in
      let w2 = (on_ledger (check_ledger calls config e.created now) w1).1 in
      let (fine, change) = conclude_run-IsClosed item e c w2 calm in
      let same : reconcile_row calls config item w ≡ conclude_run calls item e c w2 =
        ground (arith, done, checked, fine) in
      subst (IsClosed item w) (sym same) (
        fine,
        subst
            (λ rows.
              IsChange item.id IsReconciled rows (conclude_run calls item e c w2).1.db.outbox)
            kept change,
      )

  -- A row whose result throws.
  reconcile_row-reports :
      (config : Config) (item : OutboxRow) (w : World L)
      → is_readable item.tx_result ≡ false
      → let (r, w') = reconcile_row calls config item w in
        (r ≡ ok tt) × IsReported w w' × (w'.db.outbox ≡ w.db.outbox)
  unfolding reconcile_row reconcile_body
  reconcile_row-reports config item w h =
      let (m, _, thrown) = enrich_aggregate_throws item item.tx_result w.db h in
      let (run, done, saved, outcome, kept) = save_run-ok (error_run item m) w.db in
      (
        ground (arith, thrown, done),
        (run, outcome, ground (arith, thrown, done, saved)),
        ground (arith, thrown, done, kept),
      )

  -- The immediate reconciliation of a row never throws. Where the affected nodes of its result are missing,
  -- or an array without null, it always closes the row as reconciled, also where the ledger says that its
  -- objects are not there: no check that it makes is critical, so none keeps the row open for an
  -- operator. Otherwise it saves an error run, and leaves the outbox as it is.
  pub reconcile_row-IsReconciled :
      (config : Config) (item : OutboxRow) (w : World L)
      → let (r, w') = reconcile_row calls config item w in
        (r ≡ ok tt)
        × (((is_readable item.tx_result ≡ true)
              × IsChange item.id IsReconciled w.db.outbox w'.db.outbox)
            ⊎ ((is_readable item.tx_result ≡ false)
                × IsReported w w'
                × (w'.db.outbox ≡ w.db.outbox)))
  reconcile_row-IsReconciled config item w = elim (Bool-cases (is_readable item.tx_result)) [
    | inl h ↦ let (done, change) = reconcile_row-IsClosed config item w h in (done, inl (h, change))
    | inr h ↦
        let (done, report, kept) = reconcile_row-reports config item w h in
        (done, inr (h, report, kept))
  ]
