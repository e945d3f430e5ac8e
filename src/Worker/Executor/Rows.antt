-- ===== src/Worker/Executor/Rows.antt =====
-- `_processOne` of apps/ledger-worker/src/tx-executor.js takes up its row, on every path.
use xrpl_credit_orchestrator.Prelude.{
  String, true, not, ◌≡◌, refl, subst, sym, inl, inr, ◌⊎◌, arith, Bool-cases, Option-cases,
  Result-cases, Result, ok, err, ◌+++◌, ◌||◌,
}
use xrpl_credit_orchestrator.Database.{OutboxRow}
use xrpl_credit_orchestrator.Database.Outbox.{update_outbox}
use xrpl_credit_orchestrator.Database.Ledgers.{record_transaction}
use xrpl_credit_orchestrator.Worker.State.{Calls, Config, World, on_ledger, on_db}
use xrpl_credit_orchestrator.Worker.Change.{
  IsHandled, IsSettled, IsSettled-IsHandled, IsChange, IsChange-map, IsChange-trans,
  update_outbox-IsChange,
}
use xrpl_credit_orchestrator.Worker.Submit.{max_submit_retries, failed_patch, account_of}
use xrpl_credit_orchestrator.Worker.Submit.Attempts.{sign_and_submit}
use xrpl_credit_orchestrator.Worker.Submit.Settles.{sign_and_submit-IsSettled}
use xrpl_credit_orchestrator.Worker.Executor.{
  blocked_patch, prepared_patch, submitted_patch, signed_blob, submit_blob_and_lookup, block,
  dry_run, submit, process_one, process_caught, has_fee_spike, spike_reason, fallback_tx_hash, send,
}
use xrpl_credit_orchestrator.Worker.Executor.Blobs.{IsTaken, submit_blob_and_lookup-IsTaken}

module _ {L : Type 0} (calls : Calls L) (config : Config) where
  block-IsTaken :
      (row : OutboxRow) (reason : String) (w : World L)
      → IsTaken calls config row w (block calls config row reason w)
  unfolding block update_outbox
  block-IsTaken row reason w = (
    refl,
    update_outbox-IsChange row.id IsHandled (blocked_patch reason) w.db (λ r. refl) (λ r. refl),
  )

  dry_run-IsTaken :
      (row : OutboxRow) (w : World L) → IsTaken calls config row w (dry_run calls config row w)
  unfolding dry_run update_outbox record_transaction
  dry_run-IsTaken row w = (
    refl,
    update_outbox-IsChange row.id IsHandled
        (prepared_patch row (fallback_tx_hash w.db.host.sha256 row.tx_json)) w.db (λ r. refl)
        (λ r. refl),
  )

  -- A call that has taken up the row, or threw, having left the outbox alone or written to the row.
  IsTried : OutboxRow → World L → Result (Unit {0}) × World L → Type 0
  IsTried row w res =
      ((m : String) × (res.0 ≡ err m)
        × ((res.1.db.outbox ≡ w.db.outbox) ⊎ IsChange row.id IsHandled w.db.outbox res.1.db.outbox))
      ⊎ IsTaken calls config row w res

  send-IsTried : (row : OutboxRow) (w : World L) → IsTried row w (send calls config row w)
  unfolding send IsTried
  send-IsTried row w = elim (Option-cases (signed_blob row)) [
    | inr (blob, e) ↦
        let same : send calls config row w ≡ submit_blob_and_lookup calls config row blob w =
          ground (arith, e) in
        inr (
          subst (IsTaken calls config row w) (sym same)
            (submit_blob_and_lookup-IsTaken calls config row blob w))
    | inl e ↦ elim (Result-cases (calls.has_key (account_of row) w.ledger).0) [
      | inr (m, thrown) ↦ inl (m, ground (arith, e, thrown), inl (ground (arith, e, thrown)))
      | inl (known, asked) ↦
          let w' = (on_ledger (calls.has_key (account_of row)) w).1 in
          elim (Bool-cases known) [
            | inl k ↦
                let it = sign_and_submit calls max_submit_retries row (account_of row) w' in
                let (done, change) =
                  sign_and_submit-IsSettled calls max_submit_retries row (account_of row) w' in
                let same : send calls config row w ≡ it = ground (arith, e, asked, k) in
                inr (
                  subst (IsTaken calls config row w) (sym same) (
                    done,
                    IsChange-map row.id IsSettled IsHandled w.db.outbox it.1.db.outbox
                        IsSettled-IsHandled change,
                  ))
            | inr k ↦
                let reason = "no_signer: " +++ account_of row in
                let same : send calls config row w ≡ block calls config row reason w' =
                  ground (arith, e, asked, k) in
                inr (subst (IsTaken calls config row w) (sym same) (block-IsTaken row reason w'))
          ]
    ]
  ]

  -- What is tried after a write to the row.
  IsTried-after :
      (row : OutboxRow) (w v : World L) (res : Result (Unit {0}) × World L)
      → IsChange row.id IsHandled w.db.outbox v.db.outbox
      → IsTried row v res
      → IsTried row w res
  unfolding IsTried
  IsTried-after row w v res first (inl (m, thrown, inl kept)) =
      inl (m, thrown, inr (subst (IsChange row.id IsHandled w.db.outbox) (sym kept) first))
  IsTried-after row w v res first (inl (m, thrown, inr change)) = inl (
    m,
    thrown,
    inr (
        IsChange-trans row.id IsHandled IsHandled w.db.outbox v.db.outbox res.1.db.outbox first
          change),
  )
  IsTried-after row w v res first (inr (done, change)) = inr (
    done,
    IsChange-trans row.id IsHandled IsHandled w.db.outbox v.db.outbox res.1.db.outbox first change,
  )

  submit-IsTried : (row : OutboxRow) (w : World L) → IsTried row w (submit calls config row w)
  unfolding submit IsTried update_outbox
  submit-IsTried row w = elim (Result-cases (calls.connect w.ledger).0) [
    | inr (m, e) ↦ inl (m, ground (arith, e), inl (ground (arith, e)))
    | inl (u, e) ↦
        let w' = (on_ledger calls.connect w).1 in
        let w'' = (on_db (update_outbox row.id submitted_patch) w').1 in
        let same : submit calls config row w ≡ send calls config row w'' = ground (arith, e) in
        let first : IsChange row.id IsHandled w.db.outbox w''.db.outbox =
          update_outbox-IsChange row.id IsHandled submitted_patch w.db (λ r. refl) (λ r. refl) in
        subst (IsTried row w) (sym same)
          (IsTried-after row w w'' (send calls config row w'') first (send-IsTried row w''))
  ]

  process_one-IsTried :
      (row : OutboxRow) (w : World L) → IsTried row w (process_one calls config row w)
  unfolding process_one IsTried
  process_one-IsTried row w = elim (Bool-cases config.xrpl_lending_enabled) [
    | inr off ↦
        let same : process_one calls config row w ≡ block calls config row "lending_disabled" w =
          ground (arith, off) in
        inr (subst (IsTaken calls config row w) (sym same) (block-IsTaken row "lending_disabled" w))
    | inl on ↦ elim (Bool-cases config.dry_run) [
      | inl dry ↦
          let same : process_one calls config row w ≡ dry_run calls config row w =
            ground (arith, on, dry) in
          inr (subst (IsTaken calls config row w) (sym same) (dry_run-IsTaken row w))
      | inr wet ↦ elim (Bool-cases (has_fee_spike w.last_fee_check)) [
        | inl spike ↦
            let reason = spike_reason w.last_fee_check in
            let same : process_one calls config row w ≡ block calls config row reason w =
              ground (arith, on, wet, spike) in
            inr (subst (IsTaken calls config row w) (sym same) (block-IsTaken row reason w))
        | inr calm ↦
            let same : process_one calls config row w ≡ submit calls config row w =
              ground (arith, on, wet, calm) in
            subst (IsTried row w) (sym same) (submit-IsTried row w)
      ]
    ]
  ]

  -- The write of the catch.
  failed-IsHandled :
      (row : OutboxRow) (m : String) (w v : World L)
      → (v.db.outbox ≡ w.db.outbox) ⊎ IsChange row.id IsHandled w.db.outbox v.db.outbox
      → IsChange row.id IsHandled w.db.outbox
          (update_outbox row.id (failed_patch "unhandled: " m) v.db).1.outbox
  unfolding update_outbox
  failed-IsHandled row m w v before =
      let patch = failed_patch "unhandled: " m in
      let last = update_outbox-IsChange row.id IsHandled patch v.db (λ r. refl) (λ r. refl) in
      let after = (update_outbox row.id patch v.db).1.outbox in
      elim before [
        | inl kept ↦ subst (λ rows. IsChange row.id IsHandled rows after) kept last
        | inr change ↦
            IsChange-trans row.id IsHandled IsHandled w.db.outbox v.db.outbox after change last
      ]

  -- The processing of one row never throws, and takes up that row and no other: it ends as failed, as
  -- awaiting an operator, blocked, prepared, submitted, or validated by a confirming answer.
  pub process_caught-IsHandled :
      (row : OutboxRow) (w : World L)
      → let (r, w') = process_caught calls config row w in
        (r ≡ ok tt) × IsChange row.id IsHandled w.db.outbox w'.db.outbox
  unfolding process_caught IsTried update_outbox
  process_caught-IsHandled row w =
      let w' = (process_one calls config row w).1 in
      let again = process_caught calls config row w in
      elim (process_one-IsTried row w) [
        | inr (done, change) ↦
            let same : again ≡ process_one calls config row w = ground (arith, done) in
            subst (IsTaken calls config row w) (sym same) (done, change)
        | inl (m, e, before) ↦
            let patch = failed_patch "unhandled: " m in
            let same : again ≡ (ok tt, (on_db (update_outbox row.id patch) w').1) =
              ground (arith, e) in
            subst (IsTaken calls config row w) (sym same) (refl, failed-IsHandled row m w w' before)
      ]

  -- A dry run, and a worker whose lending is disabled, never call the ledger or the key store: whatever
  -- row is processed, the ledger's state and the reserved sequences stay as they are.
  pub process_caught_stays_off :
      (row : OutboxRow) (w : World L)
      → not config.xrpl_lending_enabled || config.dry_run ≡ true
      → let w' = (process_caught calls config row w).1 in
        (w'.ledger ≡ w.ledger) × (w'.db.sequences ≡ w.db.sequences)
  unfolding process_caught process_one block dry_run update_outbox record_transaction
  process_caught_stays_off row w h = ground (arith, h)
