-- ===== src/Database/Outbox/Reconciled.antt =====
-- A reconciled row still counts as live for `enqueueTx` of apps/control-api/src/db/memory.js.
use xrpl_credit_orchestrator.Prelude.{
  String, true, some, List, [], ◌∷◌, ◌≡◌, refl, inl, inr, arith, truthy_text, find, update_first,
  Bool-cases, err,
}
use xrpl_credit_orchestrator.Shared.{OutboxStatus}
use xrpl_credit_orchestrator.Database.Tables.{Store, OutboxRow}
use xrpl_credit_orchestrator.Database.Outbox.{
  TxInput, has_id, has_key, is_live_duplicate, duplicate_of, duplicate_message, patched,
  update_outbox, enqueue_tx,
}
use xrpl_credit_orchestrator.Database.Outbox.Dedupe.{enqueue_tx_refuses}

abbrev pub reconcile : OutboxRow → OutboxRow
reconcile r = record r { status = OutboxStatus.reconciled }

reconciled_live :
    (k id now : String) (r : OutboxRow) (rows : List OutboxRow)
    → find (has_id id) rows ≡ some r
    → has_key k r ≡ true
    → (x : OutboxRow) × (find
          (is_live_duplicate k)
          (update_first (has_id id) (patched reconcile now) rows)
        ≡ some x)
reconciled_live k id now r [] e h = absurd (cc)
reconciled_live k id now r (y ∷ rows) e h = elim (Bool-cases (has_id id y)) [
  | inl own ↦ (patched reconcile now y, ground (arith, own, e, h))
  | inr other ↦ elim (Bool-cases (is_live_duplicate k y)) [
    | inl live ↦ (y, ground (arith, other, live))
    | inr dead ↦
        let (x, found) = reconciled_live k id now r rows (ground (arith, other, e)) h in
        (x, ground (arith, other, dead, found))
  ]
]

-- Once a row is marked as reconciled, no transaction can be enqueued under its key: the call throws and
-- changes nothing.
pub enqueue_tx-reconcile :
    (k id : String) (r : OutboxRow) (input : TxInput) (s : Store)
    → truthy_text k ≡ true
    → input.dedupe_key ≡ some k
    → find (has_id id) s.outbox ≡ some r
    → has_key k r ≡ true
    → let t = (update_outbox id reconcile s).1 in
      (x : OutboxRow) × (enqueue_tx input t ≡ (err (duplicate_message (some k) x), t))
unfolding update_outbox
enqueue_tx-reconcile k id r input s t ki e h =
    let (x, found) = reconciled_live k id (s.host.iso s.now) r s.outbox e h in
    let u = (update_outbox id reconcile s).1 in
    let there : duplicate_of input.dedupe_key u.outbox ≡ some x = rw ki (rw t found) in
    (x, rw (enqueue_tx_refuses input u x there) (rw ki refl))
