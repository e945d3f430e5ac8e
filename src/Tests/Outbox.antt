-- ===== src/Tests/Outbox.antt =====
-- The outbox's theorems at concrete rows.
use xrpl_credit_orchestrator.Prelude.{
  some, List, ◌++◌, ◌≡◌, ◌≤◌, refl, arith, length, take, ok, err,
}
use xrpl_credit_orchestrator.Shared.{OutboxStatus}
use xrpl_credit_orchestrator.Database.{Store, OutboxRow}
use xrpl_credit_orchestrator.Database.Outbox.{
  enqueue_tx, claim_pending_outbox, update_outbox, duplicate_message,
}
use xrpl_credit_orchestrator.Database.Outbox.Claim.{
  claimable, IsMarked, claim_pending_outbox_splits, claim_rounds, claim_rounds_drain,
}
use xrpl_credit_orchestrator.Database.Outbox.Dedupe.{
  live_count, fresh_row, pushed, enqueue_tx-live_count-le,
}
use xrpl_credit_orchestrator.Database.Outbox.Reconciled.{reconcile, enqueue_tx-reconcile}
use xrpl_credit_orchestrator.Tests.Data.{store, deposit}

-- One row is in the outbox.
abbrev one_row : Store
one_row = pushed deposit store

abbrev failed : OutboxRow → OutboxRow
failed r = record r { status = OutboxStatus.failed }

claim_pending_outbox_splits_example :
    let (r, t) = claim_pending_outbox 3 one_row in
    let first = take 3 (claimable one_row.outbox) in
    (rows : List OutboxRow) × (r ≡ ok rows)
    × IsMarked (one_row.host.iso one_row.now) first rows
    × (length rows ≤ 3)
    × (first ++ claimable t.outbox ≡ claimable one_row.outbox)
    × (length t.outbox ≡ length one_row.outbox)
claim_pending_outbox_splits_example = claim_pending_outbox_splits 3 one_row

claim_rounds_drain_example : length (claimable (claim_rounds 2 1 one_row).outbox) ≡ 0
claim_rounds_drain_example = claim_rounds_drain 2 1 one_row (omega arith) (omega arith)

enqueue_tx-live_count-le_example :
    live_count "vault_deposit_v1_rLender" (enqueue_tx deposit one_row).1.outbox ≤ 1
enqueue_tx-live_count-le_example =
    enqueue_tx-live_count-le "vault_deposit_v1_rLender" deposit one_row refl (omega arith)

enqueue_tx-reconcile_example :
    let t = (update_outbox "" reconcile one_row).1 in
    (x : OutboxRow) × (enqueue_tx deposit t
      ≡ (err (duplicate_message (some "vault_deposit_v1_rLender") x), t))
enqueue_tx-reconcile_example =
    enqueue_tx-reconcile "vault_deposit_v1_rLender" "" (fresh_row deposit store) deposit one_row
      refl refl refl refl
