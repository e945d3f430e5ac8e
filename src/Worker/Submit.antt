-- ===== src/Worker/Submit.antt =====
-- `_signAndSubmit` of apps/ledger-worker/src/tx-executor.js, over `withAccountSequence` and
-- `invalidate` of apps/ledger-worker/src/sequence-coordinator.js.
pub mod Attempts
pub mod Concludes
pub mod Settles
pub mod Numbers
use xrpl_credit_orchestrator.Prelude.{
  ℕ, zero, suc, String, Bool, true, false, not, ◌&&◌, ◌||◌, Option, none, some, List, [], ◌∷◌, ◌==◌,
  ◌+++◌, or_else, if◌then◌else◌, Action, ok, pure, throw, ◌>>=◌, ◌>>◌, try_catch, or_caught, modify,
  gets,
}
use xrpl_credit_orchestrator.Json.{Json, null, num, str, obj, end, field}
use xrpl_credit_orchestrator.Json.Field.{get, put, remove, or_json, as_text, as_num}
use xrpl_credit_orchestrator.Json.Print.{to_string}
use xrpl_credit_orchestrator.Shared.{OutboxStatus}
use xrpl_credit_orchestrator.Database.{Store, OutboxRow}
use xrpl_credit_orchestrator.Database.Outbox.{update_outbox}
use xrpl_credit_orchestrator.Database.Ledgers.{TransactionInput, record_transaction}
use xrpl_credit_orchestrator.Database.Sequences.{
  SequenceMap, reserve_account_sequence, forget_account_sequence,
}
use xrpl_credit_orchestrator.Worker.State.{Calls, World, on_db, on_ledger}
use xrpl_credit_orchestrator.Worker.Results.{
  Class, success, retry, manual_review, fail, classify_result, is_retryable_error, is_success,
}
use xrpl_credit_orchestrator.Worker.Lookup.{lookup_tx, tx_lookup_retries}

abbrev pub max_submit_retries : ℕ
max_submit_retries = 2

abbrev pub retry_delay_ms : ℕ
retry_delay_ms = 3000

-- The account of a transaction, which its builder has made a text.
abbrev pub account_of : OutboxRow → String
account_of row = to_string (get "Account" row.tx_json)

-- `txJson.Borrower ?? txJson.Counterparty ?? null`
abbrev pub counterparty_of : OutboxRow → Json
counterparty_of row =
    or_json (get "Borrower" row.tx_json) (or_json (get "Counterparty" row.tx_json) null)

abbrev pub transaction_of : OutboxRow → Option String → Option Json → Json → Json → TransactionInput
transaction_of row hash ledger_index code raw = record {
  tx_hash = hash;
  tx_type = get "TransactionType" row.tx_json;
  account = get "Account" row.tx_json;
  counterparty = counterparty_of row;
  ledger_index = ledger_index;
  result_code = code;
  raw_json = raw;
}

-- `result?.engine_result ?? 'unknown'`
abbrev pub engine_result_of : Json → String
engine_result_of answer = or_else (as_text (get "engine_result" (get "result" answer))) "unknown"

-- `validated.meta?.TransactionResult ?? engineResult`
abbrev pub final_code : Json → String → String
final_code validated engine_result =
    or_else (as_text (get "TransactionResult" (get "meta" validated))) engine_result

abbrev pub final_status : String → OutboxStatus
final_status code =
    if is_success (classify_result code) then OutboxStatus.validated else OutboxStatus.failed

-- What one submission gave.
pub record Submission : Type 0 where
  pub tx_hash : String
  pub prepared : Json
  pub engine_result : String
  pub submit_result : Json

-- The transaction to fill in: the fields that signing sets are taken off.
abbrev pub unsigned_tx : Json → ℕ → Json
unsigned_tx tx_json reserved = put "Sequence" (num reserved) (
    remove "TxnSignature"
      (remove "SigningPubKey" (remove "LastLedgerSequence" (remove "Fee" tx_json))))

-- The patches of the four ways in which a submission ends.
abbrev pub validated_patch : Submission → Json → OutboxRow → OutboxRow
validated_patch sub validated r = record r {
  status = final_status (final_code validated sub.engine_result);
  tx_hash = some sub.tx_hash;
  submitted_tx_json = sub.prepared;
  tx_result = validated;
}

abbrev pub not_validated_patch : Submission → OutboxRow → OutboxRow
not_validated_patch sub r = record r {
  status = OutboxStatus.manual_review;
  tx_hash = some sub.tx_hash;
  submitted_tx_json = sub.prepared;
  tx_result = get "result" sub.submit_result;
  error = some ("submitted_but_not_validated: " +++ sub.engine_result);
}

abbrev is_manual_review : Class → Bool
is_manual_review manual_review = true
is_manual_review _ = false

abbrev pub rejected_patch : Submission → OutboxRow → OutboxRow
rejected_patch sub r =
    let manual = is_manual_review (classify_result sub.engine_result) in
    record r {
      status = if manual then OutboxStatus.manual_review else OutboxStatus.failed;
      tx_hash = some sub.tx_hash;
      submitted_tx_json = sub.prepared;
      tx_result = get "result" sub.submit_result;
      error = some (if manual then "manual_review: " +++ sub.engine_result else sub.engine_result);
    }

abbrev pub failed_patch : String → String → OutboxRow → OutboxRow
failed_patch prefix message r = record r {
  status = OutboxStatus.failed;
  error = some (prefix +++ message);
}

abbrev pub is_sequence_error : String → Bool
is_sequence_error code = code == "terPRE_SEQ" || code == "tefPAST_SEQ"

abbrev pub is_retry : Class → Bool
is_retry retry = true
is_retry _ = false
