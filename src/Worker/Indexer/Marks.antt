-- ===== src/Worker/Indexer/Marks.antt =====
-- Which rows the loop of apps/ledger-worker/src/runs/ledger-indexer.js marks as indexed.
use xrpl_credit_orchestrator.Prelude.{
  String, true, false, ◌≡◌, refl, subst, sym, ap, ◌∙◌, inl, inr, ◌⊎◌, Result, ok, List,
  update_first,
}
use xrpl_credit_orchestrator.Json.{Json}
use xrpl_credit_orchestrator.Json.Field.{truthy_json}
use xrpl_credit_orchestrator.Shared.{OutboxStatus}
use xrpl_credit_orchestrator.Database.{OutboxRow, now_iso}
use xrpl_credit_orchestrator.Database.Outbox.{has_id, patched}
use xrpl_credit_orchestrator.Worker.State.{Calls, World}
use xrpl_credit_orchestrator.Worker.Lookup.Answers.{IsValidated}
use xrpl_credit_orchestrator.Worker.Change.{IsChange, IsChange-then}
use xrpl_credit_orchestrator.Worker.Metadata.{is_readable}
use xrpl_credit_orchestrator.Worker.Indexer.{result_patch, indexed_patch, result_of, index_row}
use xrpl_credit_orchestrator.Worker.Indexer.Keeps.{IsValidated-truthy}
use xrpl_credit_orchestrator.Worker.Indexer.Fetched.{stored, result_of-IsResult}
use xrpl_credit_orchestrator.Worker.Indexer.Rounds.{
  IsReported, IsReported-since, index_row_falsy, index_row_cases,
}

abbrev pub IsIndexed : OutboxRow → Type 0
IsIndexed r = r.status ≡ OutboxStatus.indexed

module _ {L : Type 0} (calls : Calls L) where
  marked_stored :
      (row : OutboxRow) (v m : Json) (now : String) (w : World L) (rows' : List OutboxRow)
      → rows' ≡ update_first (has_id row.id) (patched (indexed_patch m) now) (stored row v w)
      → IsChange row.id (λ r. IsIndexed r × (r.tx_result ≡ v)) w.db.outbox rows'
  marked_stored row v m now w rows' e =
      subst (IsChange row.id (λ r. IsIndexed r × (r.tx_result ≡ v)) w.db.outbox) (sym e) (
        IsChange-then row.id now (λ r. r.tx_result ≡ v) (λ r. IsIndexed r × (r.tx_result ≡ v))
          (indexed_patch m) w.db.outbox (stored row v w) (λ r. refl) (λ r q. (refl, q))
          (patched (result_patch v) (now_iso w.db), (λ r. refl), (λ r. refl), refl))

  -- The indexing of a row without a result never throws. It leaves the outbox alone, or the ledger has
  -- validated the transaction, and then either the affected nodes of the validated result are missing or
  -- an array without null, and the row is marked as indexed and holds that result, or an error run is
  -- saved, and the result is written to the row without marking it.
  pub index_row-IsValidated :
      (row : OutboxRow) (w : World L)
      → truthy_json row.tx_result ≡ false
      → let (r, w') = index_row calls row w in
        (r ≡ ok tt)
        × ((w'.db.outbox ≡ w.db.outbox)
            ⊎ ((v : Json) × IsValidated v
                × (((is_readable v ≡ true)
                      × IsChange row.id
                          (λ r. IsIndexed r × (r.tx_result ≡ v))
                          w.db.outbox
                          w'.db.outbox)
                    ⊎ ((is_readable v ≡ false)
                        × IsReported w w'
                        × (w'.db.outbox ≡ stored row v w)))))
  index_row-IsValidated row w h =
      let (v, e, runs, which) = result_of-IsResult calls row w in
      elim which [
        | inl (own, rows) ↦
            let same = index_row_falsy calls row v w e (rw own h) in
            (
              ap (λ (x : Result (Unit {0}) × World L). x.0) same,
              inl (ap (λ (x : Result (Unit {0}) × World L). x.1.db.outbox) same ∙ rows),
            )
        | inr (valid, rows) ↦
            let (done, cases) = index_row_cases calls row v w e (IsValidated-truthy v valid) in
            (
              done,
              inr (
                v,
                valid,
                elim cases [
                  | inl (good, m, now, mark) ↦ inl (
                    good,
                    marked_stored row v m now w _ (
                        mark
                        ∙ ap (update_first (has_id row.id) (patched (indexed_patch m) now)) rows),
                  )
                  | inr (bad, report, kept) ↦ inr (
                    bad,
                    IsReported-since w (result_of calls row w).1 (index_row calls row w).1 runs
                        report,
                    kept ∙ rows,
                  )
                ],
              ),
            )
      ]
