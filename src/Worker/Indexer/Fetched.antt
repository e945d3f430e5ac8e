-- ===== src/Worker/Indexer/Fetched.antt =====
-- Which result the loop of apps/ledger-worker/src/runs/ledger-indexer.js goes on with.
use xrpl_credit_orchestrator.Prelude.{
  Option, none, some, ◌≡◌, refl, inl, inr, ◌⊎◌, arith, or_else, Bool-cases, Result-cases, Result,
  ok, List, update_first,
}
use xrpl_credit_orchestrator.Json.{Json, str, obj, end, field}
use xrpl_credit_orchestrator.Json.Field.{get, truthy_json}
use xrpl_credit_orchestrator.Database.{OutboxRow, now_iso}
use xrpl_credit_orchestrator.Database.Outbox.{update_outbox, has_id, patched}
use xrpl_credit_orchestrator.Worker.State.{Calls, World}
use xrpl_credit_orchestrator.Worker.Lookup.Answers.{IsValidated}
use xrpl_credit_orchestrator.Worker.Indexer.{result_patch, asks, fetched, fetch_result, result_of}

module _ {L : Type 0} where
  -- The outbox once a result is written to the row.
  abbrev pub stored : OutboxRow → Json → World L → List OutboxRow
  stored row v w =
      update_first (has_id row.id) (patched (result_patch v) (now_iso w.db)) w.db.outbox

  -- The result that the loop goes on with is the row's own, and the outbox is as it was; or the ledger has
  -- just validated it, and it is written to the row.
  abbrev pub IsResult : OutboxRow → World L → Json → List OutboxRow → Type 0
  IsResult row w v rows =
      ((v ≡ row.tx_result) × (rows ≡ w.db.outbox)) ⊎ (IsValidated v × (rows ≡ stored row v w))

module _ {L : Type 0} (calls : Calls L) where
  -- A fetch brings no news, or a validated result that it has written to the row.
  IsFetched : OutboxRow → World L → Result (Option Json) × World L → Type 0
  IsFetched row w res =
      (res.1.db.reconciliations ≡ w.db.reconciliations)
      × (((res.0 ≡ ok none) × (res.1.db.outbox ≡ w.db.outbox))
          ⊎ ((v : Json) × (res.0 ≡ ok (some v))
              × IsValidated v
              × (res.1.db.outbox ≡ stored row v w)))

  fetched-IsFetched : (row : OutboxRow) (w : World L) → IsFetched row w (fetched calls row w)
  unfolding fetched fetch_result IsFetched update_outbox
  fetched-IsFetched row w =
      let ask =
        obj (field "command" (str "tx") (field "transaction" (str (or_else row.tx_hash "")) end)) in
      elim (Result-cases (calls.request ask w.ledger).0) [
        | inr (m, e) ↦ (ground (arith, e), inl (ground (arith, e), ground (arith, e)))
        | inl (tx, e) ↦ elim (Bool-cases (truthy_json (get "validated" (get "result" tx)))) [
          | inr f ↦ (ground (arith, e, f), inl (ground (arith, e, f), ground (arith, e, f)))
          | inl f ↦ (
            ground (arith, e, f),
            inr (get "result" tx, ground (arith, e, f), f, ground (arith, e, f)),
          )
        ]
      ]

  pub result_of-IsResult :
      (row : OutboxRow) (w : World L)
      → (v : Json) × ((result_of calls row w).0 ≡ ok v)
        × ((result_of calls row w).1.db.reconciliations ≡ w.db.reconciliations)
        × IsResult row w v (result_of calls row w).1.db.outbox
  unfolding result_of IsFetched
  result_of-IsResult row w = elim (Bool-cases (asks row)) [
    | inr e ↦ (row.tx_result, ground (arith, e), ground (arith, e), inl (refl, ground (arith, e)))
    | inl e ↦
        let (runs, news) = fetched-IsFetched row w in
        elim news [
          | inl (no_news, kept) ↦ (
            row.tx_result,
            ground (arith, e, no_news),
            ground (arith, e, no_news, runs),
            inl (refl, ground (arith, e, no_news, kept)),
          )
          | inr (v, found, valid, written) ↦ (
            v,
            ground (arith, e, found),
            ground (arith, e, found, runs),
            inr (valid, ground (arith, e, found, written)),
          )
        ]
  ]
