-- ===== src/Worker/Executor.antt =====
-- `processPending`, `_processOne` and `_submitBlobAndLookup` of apps/ledger-worker/src/tx-executor.js.
pub mod Blobs
pub mod Rows
pub mod Batch
use xrpl_credit_orchestrator.Prelude.{
  ℕ, String, Bool, true, false, not, ◌&&◌, Option, none, some, List, [], ◌∷◌, ◌+++◌, or_else,
  truthy, to_upper, first_chars, is_some, if◌then◌else◌, Action, ok, pure, ◌>>=◌, ◌>>◌, try_catch,
  gets,
}
use xrpl_credit_orchestrator.Json.{Json, null, bool, num, str, obj, end, field}
use xrpl_credit_orchestrator.Json.Field.{get, put, or_json, as_text, truthy_json}
use xrpl_credit_orchestrator.Json.Print.{stringify, to_string, decimal}
use xrpl_credit_orchestrator.Shared.{OutboxStatus, is_loan_set, kind_text}
use xrpl_credit_orchestrator.Database.{Store, OutboxRow, now_iso}
use xrpl_credit_orchestrator.Database.Outbox.{update_outbox, claim_pending_outbox}
use xrpl_credit_orchestrator.Database.Ledgers.{record_transaction}
use xrpl_credit_orchestrator.Worker.State.{
  Calls, Config, World, NetworkStatus, FeeStatus, on_db, on_ledger,
}
use xrpl_credit_orchestrator.Worker.Results.{
  Class, success, retry, manual_review, fail, classify_result, is_success,
}
use xrpl_credit_orchestrator.Worker.Network.{refresh_network_status}
use xrpl_credit_orchestrator.Worker.Lookup.{lookup_tx, tx_lookup_retries}
use xrpl_credit_orchestrator.Worker.Submit.{
  account_of, transaction_of, engine_result_of, final_code, final_status, failed_patch,
  max_submit_retries,
}
use xrpl_credit_orchestrator.Worker.Submit.Attempts.{sign_and_submit}

-- `fallbackTxHash`
unfoldable pub fallback_tx_hash : (String → String) → Json → String
unfolding to_upper
fallback_tx_hash sha tx = "PSEUDO_" +++ first_chars 56 (to_upper (sha (stringify tx)))

abbrev pub blocked_patch : String → OutboxRow → OutboxRow
blocked_patch reason r = record r { status = OutboxStatus.blocked; error = some reason }

abbrev pub prepared_patch : OutboxRow → String → OutboxRow → OutboxRow
prepared_patch row hash r = record r {
  status = OutboxStatus.prepared;
  tx_hash = some hash;
  submitted_tx_json = row.tx_json;
  tx_result = obj (field "dryRun" (bool true) (field "kind" (str (kind_text row.kind)) end));
}

abbrev pub submitted_patch : OutboxRow → OutboxRow
submitted_patch r = record r { status = OutboxStatus.submitted }

-- `fee_spike: ${openLedgerFee}`
abbrev fee_spike_reason : FeeStatus → String
fee_spike_reason fee =
    "fee_spike: " +++ elim fee.open_ledger_fee [ none ↦ "NaN" | some n ↦ decimal n ]

abbrev pub has_fee_spike : Option FeeStatus → Bool
has_fee_spike none = false
has_fee_spike (some fee) = fee.fee_spike

abbrev pub spike_reason : Option FeeStatus → String
spike_reason none = ""
spike_reason (some fee) = fee_spike_reason fee

-- `counterpartySignedTxBlob` of a LoanSet row that has one.
abbrev pub signed_blob : OutboxRow → Option Json
signed_blob row =
    let blob = get "counterpartySignedTxBlob" row.metadata in
    if is_loan_set row.kind && truthy_json blob then some blob else none

-- The last ledger that a signed blob may enter.
abbrev pub last_ledger_of : OutboxRow → Json
last_ledger_of row =
    or_json (get "LastLedgerSequence" row.tx_json)
      (or_json (get "lastLedgerSequence" row.metadata) null)

abbrev pub blob_metadata : OutboxRow → String → Json
blob_metadata row now = put "submittedAt" (str now) (or_json row.metadata (obj end))

abbrev pub blob_validated_patch :
    OutboxRow → Option String → Json → String → String → OutboxRow → OutboxRow
blob_validated_patch row hash validated engine_result now r = record r {
  status = final_status (final_code validated engine_result);
  tx_hash = hash;
  tx_result = validated;
  metadata = put "validationSource" (str "lookup") (blob_metadata row now);
}

abbrev pub awaiting_patch : OutboxRow → Option String → Json → Json → String → OutboxRow → OutboxRow
awaiting_patch row hash result last now r = record r {
  status = OutboxStatus.submitted;
  tx_hash = hash;
  tx_result = result;
  metadata =
      put "lastLedgerSequence" last (put "awaitingValidation" (bool true) (blob_metadata row now));
}

abbrev blob_status : Class → OutboxStatus
blob_status manual_review = OutboxStatus.manual_review
blob_status retry = OutboxStatus.submitted
blob_status _ = OutboxStatus.failed

abbrev pub blob_rejected_patch : Option String → Json → String → OutboxRow → OutboxRow
blob_rejected_patch hash result engine_result r = record r {
  status = blob_status (classify_result engine_result);
  tx_hash = hash;
  tx_result = result;
}

module _ {L : Type 0} (calls : Calls L) (config : Config) where
  abbrev now : Action (World L) String
  now = gets (λ (w : World L). now_iso w.db)

  -- What is written once the ledger has been asked: validated, or left to the indexer.
  unfoldable pub write_blob_seen :
      OutboxRow → String → Json → String → Json → Option Json → Action (World L) (Unit {0})
  write_blob_seen row hash answer engine_result last (some validated) = do
    at ← now
    on_db (update_outbox row.id (blob_validated_patch row (some hash) validated engine_result at))
    on_db (
        record_transaction (
          transaction_of row (some hash) (some (or_json (get "ledger_index" validated) null))
            (str (final_code validated engine_result)) validated))
  write_blob_seen row hash answer engine_result last none = do
    at ← now
    on_db (update_outbox row.id (awaiting_patch row (some hash) (get "result" answer) last at))
    pure tt

  -- A successful submission of a blob.
  unfoldable pub conclude_blob :
      OutboxRow → String → Json → String → Json → Action (World L) (Unit {0})
  conclude_blob row hash answer engine_result last = do
    seen ← on_ledger (lookup_tx calls tx_lookup_retries hash last)
    write_blob_seen row hash answer engine_result last seen

  unfoldable pub reject_blob :
      OutboxRow → Option String → Json → String → Action (World L) (Unit {0})
  reject_blob row hash answer engine_result = do
    let result = get "result" answer
    on_db (update_outbox row.id (blob_rejected_patch hash result engine_result))
    if truthy hash
        then on_db (record_transaction (transaction_of row hash none (str engine_result) result))
        else pure tt

  -- What follows the ledger's answer to a blob.
  unfoldable pub after_submit_blob : OutboxRow → Json → Action (World L) (Unit {0})
  after_submit_blob row answer =
      let engine_result = engine_result_of answer in
      let hash = as_text (get "hash" (get "tx_json" (get "result" answer))) in
      let last = last_ledger_of row in
      elim (if is_success (classify_result engine_result) && truthy hash then hash else none) [
        | some h ↦ conclude_blob row h answer engine_result last
        | none ↦ reject_blob row hash answer engine_result
      ]

  unfoldable pub submit_blob_and_lookup : OutboxRow → Json → Action (World L) (Unit {0})
  submit_blob_and_lookup row blob =
      try_catch
        (do
          answer ←
              on_ledger
                (calls.request (obj (field "command" (str "submit") (field "tx_blob" blob end))))
          after_submit_blob row answer)
        (λ message. do
          on_db (update_outbox row.id (failed_patch "cosign_error: " message))
          pure tt)

  unfoldable pub block : OutboxRow → String → Action (World L) (Unit {0})
  block row reason = do on_db (update_outbox row.id (blocked_patch reason)); pure tt

  unfoldable pub dry_run : OutboxRow → Action (World L) (Unit {0})
  dry_run row = do
    sha ← gets (λ (w : World L). w.db.host.sha256)
    let hash = fallback_tx_hash sha row.tx_json
    on_db (update_outbox row.id (prepared_patch row hash))
    on_db (record_transaction (transaction_of row (some hash) none (str "DRY_RUN") row.tx_json))

  -- A LoanSet that both have signed goes as it is; anything else needs a key.
  unfoldable pub send : OutboxRow → Action (World L) (Unit {0})
  send row = elim (signed_blob row) [
    | some blob ↦ submit_blob_and_lookup row blob
    | none ↦ do
      known ← on_ledger (calls.has_key (account_of row))
      if known
          then sign_and_submit calls max_submit_retries row (account_of row)
          else block row ("no_signer: " +++ account_of row)
  ]

  unfoldable pub submit : OutboxRow → Action (World L) (Unit {0})
  submit row = do on_ledger calls.connect; on_db (update_outbox row.id submitted_patch); send row

  unfoldable pub process_one : OutboxRow → Action (World L) (Unit {0})
  process_one row =
      if not config.xrpl_lending_enabled
      then block row "lending_disabled"
      else if config.dry_run
      then dry_run row
      else (do
        fee ← gets (λ (w : World L). w.last_fee_check)
        if has_fee_spike fee then block row (spike_reason fee) else submit row)

  unfoldable pub process_caught : OutboxRow → Action (World L) (Unit {0})
  process_caught row =
      try_catch (process_one row)
        (λ message. do on_db (update_outbox row.id (failed_patch "unhandled: " message)); pure tt)

  unfoldable pub process_rows : List OutboxRow → Action (World L) (Unit {0})
  process_rows [] = pure tt
  process_rows (row ∷ rows) = process_caught row >> process_rows rows

  unfoldable pub process_pending : Action (World L) (Unit {0})
  process_pending = do
    (network, fee) ← refresh_network_status calls
    if network.amendment_blocked
        then pure tt
        else (do rows ← on_db (claim_pending_outbox config.batch_size); process_rows rows)
