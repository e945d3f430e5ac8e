-- ===== src/Tests/Worker.antt =====
-- The worker's theorems against a concrete ledger.
use xrpl_credit_orchestrator.Prelude.{
  ℕ, suc, true, false, none, some, [], ◌∷◌, ◌≡◌, ◌⊎◌, refl, All, ok, pure,
}
use xrpl_credit_orchestrator.Json.{Json, null, bool, num, str, arr, obj, end, field, nil, cons}
use xrpl_credit_orchestrator.Worker.Metadata.{is_readable}
use xrpl_credit_orchestrator.Database.{OutboxRow}
use xrpl_credit_orchestrator.Database.Outbox.{claim_result}
use xrpl_credit_orchestrator.Database.Outbox.Dedupe.{fresh_row, pushed}
use xrpl_credit_orchestrator.Worker.{Calls, Config, World, NetworkStatus, FeeStatus}
use xrpl_credit_orchestrator.Worker.Change.{IsHandled, IsSettled, IsChange, IsAt}
use xrpl_credit_orchestrator.Worker.Network.{refresh_network_status}
use xrpl_credit_orchestrator.Worker.Submit.Attempts.{sign_and_submit, reserve}
use xrpl_credit_orchestrator.Worker.Submit.Numbers.{reserve_all, reserve-reserve}
use xrpl_credit_orchestrator.Database.Sequences.{reserve_account_sequence}
use xrpl_credit_orchestrator.Worker.Submit.Settles.{sign_and_submit-IsSettled}
use xrpl_credit_orchestrator.Worker.Executor.{process_pending, process_caught}
use xrpl_credit_orchestrator.Worker.Executor.Rows.{
  process_caught-IsHandled, process_caught_stays_off,
}
use xrpl_credit_orchestrator.Worker.Executor.Batch.{process_pending-IsHandled}
use xrpl_credit_orchestrator.Shared.{OutboxStatus}
use xrpl_credit_orchestrator.Worker.Lookup.Answers.{IsValidated}
use xrpl_credit_orchestrator.Worker.Indexer.{index_row}
use xrpl_credit_orchestrator.Worker.Indexer.Fetched.{stored}
use xrpl_credit_orchestrator.Worker.Indexer.Rounds.{IsReported}
use xrpl_credit_orchestrator.Worker.Indexer.Marks.{IsIndexed, index_row-IsValidated}
use xrpl_credit_orchestrator.Worker.Reconciliation.Run.{reconcile_row}
use xrpl_credit_orchestrator.Worker.Reconciliation.Outcome.{
  IsReconciled, reconcile_row-IsReconciled,
}
use xrpl_credit_orchestrator.Tests.Data.{store, deposit}

abbrev result : Json → Json
result v = obj (field "result" v end)

-- A ledger that is ready, accepts every blob, and has validated it at once. Its state counts requests.
abbrev answer : Json
answer = result (
    obj (
      field "engine_result" (str "tesSUCCESS") (
        field "validated" (bool true) (
          field "account_data" (obj (field "Sequence" (num 7) end))
            (field "meta" (obj (field "TransactionResult" (str "tesSUCCESS") end)) end)))))

abbrev calls : Calls ℕ
calls = record {
  connect = pure tt;
  request = λ _ n. (ok answer, suc n);
  server_info =
      pure (result (obj (field "info" (obj (field "server_state" (str "full") end)) end)));
  ledger_current = pure 9;
  autofill = λ tx. pure tx;
  has_key = λ _. pure true;
  sign = λ tx account. pure ("B10B", "HASH");
  sleep = λ ms n. n;
}

abbrev live : Config
live = record { xrpl_lending_enabled = true; dry_run = false; batch_size = 10 }

abbrev dry : Config
dry = record { xrpl_lending_enabled = true; dry_run = true; batch_size = 10 }

abbrev world : World ℕ
world = record {
  db = pushed deposit store;
  ledger = 0;
  last_network_check = none;
  last_fee_check = none;
}

abbrev row : OutboxRow
row = fresh_row deposit store

process_pending-IsHandled_example :
    let w' = (process_pending calls live world).1 in
    (n : NetworkStatus) × (f : FeeStatus) × ((refresh_network_status calls world).0 ≡ ok (n, f))
    × ((process_pending calls live world).0 ≡ ok tt)
    × (((n.amendment_blocked ≡ true) × (w'.db ≡ world.db))
        ⊎ ((n.amendment_blocked ≡ false)
            × All
                (λ (row : OutboxRow). IsAt row.id IsHandled w'.db.outbox)
                (claim_result (world.db.host.iso world.db.now) live.batch_size world.db.outbox)))
process_pending-IsHandled_example = process_pending-IsHandled calls live world

process_caught-IsHandled_example :
    let (r, w') = process_caught calls live row world in
    (r ≡ ok tt) × IsChange row.id IsHandled world.db.outbox w'.db.outbox
process_caught-IsHandled_example = process_caught-IsHandled calls live row world

process_caught_stays_off_example :
    let w' = (process_caught calls dry row world).1 in
    (w'.ledger ≡ world.ledger) × (w'.db.sequences ≡ world.db.sequences)
process_caught_stays_off_example = process_caught_stays_off calls dry row world refl

sign_and_submit-IsSettled_example :
    let (r, w') = sign_and_submit calls 2 row "rLender" world in
    (r ≡ ok tt) × IsChange row.id IsSettled world.db.outbox w'.db.outbox
sign_and_submit-IsSettled_example = sign_and_submit-IsSettled calls 2 row "rLender" world

-- A row that was submitted, with the ledger's first answer as its result; and one without a result.
abbrev submitted : OutboxRow
submitted = record row {
  status = OutboxStatus.submitted;
  tx_hash = some "HASH";
  tx_result = answer;
}

index_row-IsValidated_example :
    let (r, w') = index_row calls row world in
    (r ≡ ok tt)
    × ((w'.db.outbox ≡ world.db.outbox)
        ⊎ ((v : Json) × IsValidated v
            × (((is_readable v ≡ true)
                  × IsChange row.id
                      (λ r. IsIndexed r × (r.tx_result ≡ v))
                      world.db.outbox
                      w'.db.outbox)
                ⊎ ((is_readable v ≡ false)
                    × IsReported world w'
                    × (w'.db.outbox ≡ stored row v world)))))
index_row-IsValidated_example = index_row-IsValidated calls row world refl

-- A result whose affected nodes hold a null.
abbrev unreadable : OutboxRow
unreadable = record submitted {
  tx_result = obj (field "meta" (obj (field "AffectedNodes" (arr (cons null nil)) end)) end);
}

reconcile_row-IsReconciled_example :
    let (r, w') = reconcile_row calls live unreadable world in
    (r ≡ ok tt)
    × (((is_readable unreadable.tx_result ≡ true)
          × IsChange unreadable.id (IsReconciled calls) world.db.outbox w'.db.outbox)
        ⊎ ((is_readable unreadable.tx_result ≡ false)
            × IsReported world w'
            × (w'.db.outbox ≡ world.db.outbox)))
reconcile_row-IsReconciled_example = reconcile_row-IsReconciled calls live unreadable world

reserve-reserve_example :
    (reserve calls "rA" (reserve_all calls ("rB" ∷ []) (reserve calls "rA" world).1)).0 ≡ ok 8
unfolding reserve reserve_account_sequence
reserve-reserve_example = reserve-reserve calls "rA" ("rB" ∷ []) world 7 refl (refl, tt)
