-- ===== src/Worker/Indexer/Rounds.antt =====
-- One round of the loop of apps/ledger-worker/src/runs/ledger-indexer.js, with its catch.
use xrpl_credit_orchestrator.Prelude.{
  String, true, false, ◌≡◌, ap, ◌∙◌, inl, inr, ◌⊎◌, arith, Bool-cases, Result, ok, [], ◌∷◌, ◌++◌,
  update_first,
}
use xrpl_credit_orchestrator.Json.{Json}
use xrpl_credit_orchestrator.Json.Field.{truthy_json}
use xrpl_credit_orchestrator.Database.{OutboxRow, ReconciliationRun}
use xrpl_credit_orchestrator.Database.Ledgers.Saved.{save_run-ok}
use xrpl_credit_orchestrator.Database.Outbox.{update_outbox, has_id, patched}
use xrpl_credit_orchestrator.Worker.State.{Calls, World}
use xrpl_credit_orchestrator.Worker.Metadata.{enrich_aggregate, is_readable}
use xrpl_credit_orchestrator.Worker.Indexer.{
  indexed_patch, result_of, index_with, index_body, index_row, indexed_metadata, index_error,
}
use xrpl_credit_orchestrator.Worker.Indexer.Keeps.{enrich_aggregate_throws, enrich_aggregate_keeps}

module _ {L : Type 0} where
  -- An error run is saved, last of all runs.
  abbrev pub IsReported : World L → World L → Type 0
  IsReported w w' =
      (run : ReconciliationRun) × (run.outcome ≡ "error")
      × (w'.db.reconciliations ≡ w.db.reconciliations ++ run ∷ [])

  pub IsReported-since :
      (w w1 w' : World L)
      → w1.db.reconciliations ≡ w.db.reconciliations
      → IsReported w1 w'
      → IsReported w w'
  IsReported-since w w1 w' e (run, outcome, saved) =
      (run, outcome, saved ∙ ap (λ rs. rs ++ run ∷ []) e)

module _ {L : Type 0} (calls : Calls L) where
  -- A result that is no value ends the round.
  pub index_row_falsy :
      (row : OutboxRow) (v : Json) (w : World L)
      → (result_of calls row w).0 ≡ ok v
      → truthy_json v ≡ false
      → index_row calls row w ≡ (ok tt, (result_of calls row w).1)
  unfolding index_row index_body
  index_row_falsy row v w e f = ground (arith, e, f)

  -- The mark, from the world in which the result is known.
  index_with_marks :
      (row : OutboxRow) (v : Json) (w : World L)
      → is_readable v ≡ true
      → (m : Json) × (now : String) × ((index_with calls row v w).0 ≡ ok tt)
        × ((index_with calls row v w).1.db.outbox
            ≡ update_first (has_id row.id) (patched (indexed_patch m) now) w.db.outbox)
  unfolding index_with update_outbox
  index_with_marks row v w h =
      let (e, meta, read, done, kept) = enrich_aggregate_keeps row v w.db h in
      let s = (enrich_aggregate row v w.db).1 in
      (
        indexed_metadata row (s.host.iso s.now) e meta,
        s.host.iso s.now,
        ground (arith, read, done, kept),
        ground (arith, read, done, kept),
      )

  index_row_marks :
      (row : OutboxRow) (v : Json) (w : World L)
      → (result_of calls row w).0 ≡ ok v
      → truthy_json v ≡ true
      → is_readable v ≡ true
      → index_row calls row w ≡ (ok tt, (index_with calls row v (result_of calls row w).1).1)
  unfolding index_row index_body
  index_row_marks row v w e f h =
      let (m, now, done, mark) = index_with_marks row v (result_of calls row w).1 h in
      ground (arith, e, f, done)

  -- What the catch makes of a result that cannot be read.
  index_row_reports :
      (row : OutboxRow) (v : Json) (w : World L)
      → (result_of calls row w).0 ≡ ok v
      → truthy_json v ≡ true
      → is_readable v ≡ false
      → let (r, w') = index_row calls row w in
        (r ≡ ok tt)
        × IsReported (result_of calls row w).1 w'
        × (w'.db.outbox ≡ (result_of calls row w).1.db.outbox)
  unfolding index_row index_body index_with
  index_row_reports row v w e f h =
      let w1 = (result_of calls row w).1 in
      let (m, read, _) = enrich_aggregate_throws row v w1.db h in
      let (run, done, saved, outcome, kept) = save_run-ok (index_error row m) w1.db in
      (
        ground (arith, e, f, read, done),
        (run, outcome, ground (arith, e, f, read, done, saved)),
        ground (arith, e, f, read, done, kept),
      )

  -- What a round makes of a result that is a value.
  pub index_row_cases :
      (row : OutboxRow) (v : Json) (w : World L)
      → (result_of calls row w).0 ≡ ok v
      → truthy_json v ≡ true
      → let (r, w') = index_row calls row w in
        let rows = (result_of calls row w).1.db.outbox in
        (r ≡ ok tt)
        × (((is_readable v ≡ true)
              × (m : Json) × (now : String) × (w'.db.outbox
                  ≡ update_first (has_id row.id) (patched (indexed_patch m) now) rows))
            ⊎ ((is_readable v ≡ false)
                × IsReported (result_of calls row w).1 w'
                × (w'.db.outbox ≡ rows)))
  index_row_cases row v w e f = elim (Bool-cases (is_readable v)) [
    | inl h ↦
        let (m, now, done, mark) = index_with_marks row v (result_of calls row w).1 h in
        let same = index_row_marks row v w e f h in
        (
          ap (λ (x : Result (Unit {0}) × World L). x.0) same,
          inl (h, m, now, ap (λ (x : Result (Unit {0}) × World L). x.1.db.outbox) same ∙ mark),
        )
    | inr h ↦
        let (done, reported, kept) = index_row_reports row v w e f h in
        (done, inr (h, reported, kept))
  ]
