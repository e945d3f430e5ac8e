-- ===== src/Worker/Submit/Attempts.antt =====
-- `_signAndSubmit` of apps/ledger-worker/src/tx-executor.js, over the calls of the worker.
use xrpl_credit_orchestrator.Prelude.{
  ℕ, zero, suc, String, Bool, true, false, ◌&&◌, Option, none, some, ◌+++◌, if◌then◌else◌, Action,
  pure, throw, ◌>>=◌, ◌>>◌, try_catch, or_caught, modify,
}
use xrpl_credit_orchestrator.Json.{Json, null, num, str, obj, end, field}
use xrpl_credit_orchestrator.Json.Field.{get, put, or_json, as_num}
use xrpl_credit_orchestrator.Database.{OutboxRow}
use xrpl_credit_orchestrator.Database.Outbox.{update_outbox}
use xrpl_credit_orchestrator.Database.Ledgers.{record_transaction}
use xrpl_credit_orchestrator.Database.Sequences.{
  SequenceMap, reserve_account_sequence, forget_account_sequence,
}
use xrpl_credit_orchestrator.Worker.State.{Calls, World, on_db, on_ledger}
use xrpl_credit_orchestrator.Worker.Results.{classify_result, is_retryable_error, is_success}
use xrpl_credit_orchestrator.Worker.Lookup.{lookup_tx, tx_lookup_retries}
use xrpl_credit_orchestrator.Worker.Submit.{
  retry_delay_ms, transaction_of, engine_result_of, final_code, Submission, unsigned_tx,
  validated_patch, not_validated_patch, rejected_patch, failed_patch, is_sequence_error, is_retry,
}

module _ {L : Type 0} (calls : Calls L) where
  -- The callback that asks the ledger for an account's sequence.
  abbrev pub fetch_sequence : String → Action (World L) ℕ
  fetch_sequence account = do
    on_ledger calls.connect
    answer ← on_ledger (
        calls.request (
          obj (
            field "command" (str "account_info")
              (field "account" (str account) (field "ledger_index" (str "current") end)))))
    elim (as_num (get "Sequence" (get "account_data" (get "result" answer)))) [
      | some seq ↦ pure seq
      | none ↦ throw ("sequence_unavailable: " +++ account)
    ]

  abbrev sequences : World L → SequenceMap
  sequences w = w.db.sequences

  abbrev set_sequences : SequenceMap → World L → World L
  set_sequences m w = let s = w.db in record w { db = record s { sequences = m } }

  unfoldable pub reserve : String → Action (World L) ℕ
  reserve account =
      reserve_account_sequence sequences set_sequences account (fetch_sequence account)

  unfoldable pub with_account_sequence :
      {A : Type 0} → String → (ℕ → Action (World L) A) → Action (World L) A
  with_account_sequence account fn = do reserved ← reserve account; fn reserved

  abbrev pub invalidate : String → Action (World L) (Unit {0})
  invalidate account =
      modify (λ (w : World L). set_sequences (forget_account_sequence account w.db.sequences) w)

  -- Fill in, sign and submit under a reserved sequence.
  unfoldable pub submit_with : OutboxRow → String → ℕ → Action (World L) Submission
  submit_with row account reserved = do
    filled ← on_ledger (calls.autofill (unsigned_tx row.tx_json reserved))
    let prepared = put "Sequence" (num reserved) filled
    signed ← on_ledger (calls.sign prepared account)
    answer ←
        on_ledger (
          calls.request (obj (field "command" (str "submit") (field "tx_blob" (str signed.0) end))))
    let sub : Submission = record {
      tx_hash = signed.1;
      prepared = prepared;
      engine_result = engine_result_of answer;
      submit_result = answer;
    }
    pure sub

  abbrev pause : Action (World L) (Unit {0})
  pause = modify (λ (w : World L). record w { ledger = calls.sleep retry_delay_ms w.ledger })

  -- What is written once the ledger has been asked.
  unfoldable pub write_seen : OutboxRow → Submission → Option Json → Action (World L) (Unit {0})
  write_seen row sub (some validated) = do
    on_db (update_outbox row.id (validated_patch sub validated))
    on_db (
        record_transaction (
          transaction_of row (some sub.tx_hash) (some (or_json (get "ledger_index" validated) null))
            (str (final_code validated sub.engine_result)) validated))
  write_seen row sub none = do on_db (update_outbox row.id (not_validated_patch sub)); pure tt

  -- After a successful submission: what the ledger says of the transaction.
  unfoldable pub conclude : OutboxRow → Submission → Action (World L) (Unit {0})
  conclude row sub = do
    let last = or_json (get "LastLedgerSequence" sub.prepared) null
    seen ← on_ledger (lookup_tx calls tx_lookup_retries sub.tx_hash last)
    write_seen row sub seen

  unfoldable pub reject : OutboxRow → Submission → Action (World L) (Unit {0})
  reject row sub = do
    on_db (update_outbox row.id (rejected_patch sub))
    on_db (
        record_transaction (
          transaction_of row (some sub.tx_hash) none (str sub.engine_result)
            (get "result" sub.submit_result)))

  -- What follows a submission; whether to try again. `more` is `attempt < MAX_SUBMIT_RETRIES`.
  unfoldable pub act_on : Bool → OutboxRow → String → Submission → Action (World L) Bool
  act_on more row account sub =
      let class = classify_result sub.engine_result in
      if is_sequence_error sub.engine_result && more
      then invalidate account >> pause >> pure true
      else if is_retry class && more
      then pause >> pure true
      else if is_success class
      then conclude row sub >> pure false
      else reject row sub >> pure false

  -- The body of the `try`.
  unfoldable pub attempt : Bool → OutboxRow → String → Action (World L) Bool
  attempt more row account = do
    sub ← with_account_sequence account (submit_with row account)
    act_on more row account sub

  -- The `catch`.
  unfoldable pub recover : Bool → OutboxRow → String → String → Action (World L) Bool
  recover more row account message =
      if is_retryable_error message && more
      then (do invalidate account; pause; or_caught tt (on_ledger calls.connect); pure true)
      else (do on_db (update_outbox row.id (failed_patch "submit_error: " message)); pure false)

  unfoldable pub attempt_once : Bool → OutboxRow → String → Action (World L) Bool
  attempt_once more row account = try_catch (attempt more row account) (recover more row account)

  -- `left` is how many more attempts may follow: `MAX_SUBMIT_RETRIES - attempt`.
  unfoldable pub sign_and_submit : ℕ → OutboxRow → String → Action (World L) (Unit {0})
  sign_and_submit zero row account = attempt_once false row account >> pure tt
  sign_and_submit (suc left) row account = do
    again ← attempt_once true row account
    elim again [ true ↦ sign_and_submit left row account | false ↦ pure tt ]
