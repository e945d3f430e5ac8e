-- ===== src/Loans/Writes.antt =====
-- The writes to a row of the outbox that the program makes beside the two signatures of
-- apps/control-api/src/services/loans.service.js: those of apps/worker/src/services/tx-executor.js,
-- ledger-indexer.js and reconciliation.js. None of them makes up a signature.
use xrpl_credit_orchestrator.Prelude.{
  String, Bool, true, false, Option, List, ◌≡◌, refl, ◌∙◌, inl, arith,
}
use xrpl_credit_orchestrator.Json.{Json, null, undefined, bool, num, str, arr, obj, end}
use xrpl_credit_orchestrator.Json.Field.{put, or_json}
use xrpl_credit_orchestrator.Database.{OutboxRow}
use xrpl_credit_orchestrator.Loans.Cosign.{
  IsOrdered, marks_of, marks_of-put, is_mark, is_signed_status, kept-IsOrdered,
}
use xrpl_credit_orchestrator.Worker.Metadata.{Enriched, TxMetadata, enriched_json, metadata_json}
use xrpl_credit_orchestrator.Worker.Submit.{
  Submission, validated_patch, not_validated_patch, rejected_patch, failed_patch, final_code,
  final_status,
}
use xrpl_credit_orchestrator.Worker.Executor.{
  blocked_patch, prepared_patch, submitted_patch, blob_metadata, blob_validated_patch,
  awaiting_patch, blob_rejected_patch,
}
use xrpl_credit_orchestrator.Worker.Indexer.{result_patch, indexed_metadata, indexed_patch}
use xrpl_credit_orchestrator.Worker.Reconciliation.{Mismatch, Checked, reconciled_patch, new_status}

-- One write of the worker, of the indexer or of the reconciliation to the row `item`.
pub data IsWrite (item : OutboxRow) : (OutboxRow → OutboxRow) → Type 0 where
  validated : (sub : Submission) (v : Json) → IsWrite item (validated_patch sub v)
  not_validated : (sub : Submission) → IsWrite item (not_validated_patch sub)
  rejected : (sub : Submission) → IsWrite item (rejected_patch sub)
  failed : (prefix message : String) → IsWrite item (failed_patch prefix message)
  blocked : (reason : String) → IsWrite item (blocked_patch reason)
  prepared : (hash : String) → IsWrite item (prepared_patch item hash)
  submitted : IsWrite item submitted_patch
  blob_validated :
      (hash : Option String) (v : Json) (code now : String)
      → IsWrite item (blob_validated_patch item hash v code now)
  awaiting :
      (hash : Option String) (result last : Json) (now : String)
      → IsWrite item (awaiting_patch item hash result last now)
  blob_rejected :
      (hash : Option String) (result : Json) (code : String)
      → IsWrite item (blob_rejected_patch hash result code)
  looked_up : (v : Json) → IsWrite item (result_patch v)
  indexed :
      (now : String) (e : Enriched) (meta : TxMetadata)
      → IsWrite item (indexed_patch (indexed_metadata item now e meta))
  reconciled :
      (checked : Checked) (detail : Json) (now : String)
      → IsWrite item (reconciled_patch item checked detail now)

pub IsWrite-id :
    {item : OutboxRow} {patch : OutboxRow → OutboxRow}
    → IsWrite item patch
    → (r : OutboxRow) → (patch r).id ≡ r.id
IsWrite-id (validated sub v) r = refl
IsWrite-id (not_validated sub) r = refl
IsWrite-id (rejected sub) r = refl
IsWrite-id (failed prefix message) r = refl
IsWrite-id (blocked reason) r = refl
IsWrite-id (prepared hash) r = refl
IsWrite-id submitted r = refl
IsWrite-id (blob_validated hash v code now) r = refl
IsWrite-id (awaiting hash result last now) r = refl
IsWrite-id (blob_rejected hash result code) r = refl
IsWrite-id (looked_up v) r = refl
IsWrite-id (indexed now e meta) r = refl
IsWrite-id (reconciled checked detail now) r = refl

marks_of-or_json : (m : Json) → marks_of (or_json m (obj end)) ≡ marks_of m
marks_of-or_json null = refl
marks_of-or_json undefined = refl
marks_of-or_json (bool _) = refl
marks_of-or_json (num _) = refl
marks_of-or_json (str _) = refl
marks_of-or_json (arr _) = refl
marks_of-or_json (obj _) = refl

-- The metadata with fields written over it that are no marks.
data IsOver (m : Json) : Json → Type 0 where
  given : IsOver m (or_json m (obj end))
  field_over :
      {n : Json} → IsOver m n → (k : String) (v : Json) → is_mark k ≡ false → IsOver m (put k v n)

IsOver-marks_of : {m n : Json} → IsOver m n → marks_of n ≡ marks_of m
IsOver-marks_of {m} given = marks_of-or_json m
IsOver-marks_of (field_over {n} over k v h) = marks_of-put k v n h ∙ IsOver-marks_of over

blob_metadata-IsOver :
    (item : OutboxRow) (now : String) → IsOver item.metadata (blob_metadata item now)
blob_metadata-IsOver item now = field_over given "submittedAt" (str now) refl

indexed_metadata-IsOver :
    (item : OutboxRow) (now : String) (e : Enriched) (meta : TxMetadata)
    → IsOver item.metadata (indexed_metadata item now e meta)
indexed_metadata-IsOver item now e meta =
    let started = field_over given "indexedAt" (str now) refl in
    let found = field_over started "indexed" (enriched_json e) refl in
    let read = field_over found "txMeta" (metadata_json meta) refl in
    field_over (field_over read "ledgerIndex" meta.ledger_index refl) "transactionIndex"
      meta.transaction_index refl

final_status_unsigned : (code : String) → is_signed_status (final_status code) ≡ false
final_status_unsigned code = ground arith

blob_rejected_unsigned :
    (hash : Option String) (result : Json) (code : String) (r : OutboxRow)
    → is_signed_status (blob_rejected_patch hash result code r).status ≡ false
blob_rejected_unsigned hash result code r = ground arith

rejected_unsigned :
    (sub : Submission) (r : OutboxRow) → is_signed_status (rejected_patch sub r).status ≡ false
rejected_unsigned sub r = ground arith

new_status_unsigned : (found : List Mismatch) → is_signed_status (new_status found) ≡ false
new_status_unsigned found = ground arith

pub IsWrite-IsOrdered :
    (P : Json → Bool) {item : OutboxRow} {patch : OutboxRow → OutboxRow}
    → IsWrite item patch
    → IsOrdered P item
    → IsOrdered P (patch item)
IsWrite-IsOrdered P {item} (validated sub v) =
    kept-IsOrdered P item (validated_patch sub v item) refl
      (inl (final_status_unsigned (final_code v sub.engine_result))) refl
IsWrite-IsOrdered P {item} (not_validated sub) =
    kept-IsOrdered P item (not_validated_patch sub item) refl (inl refl) refl
IsWrite-IsOrdered P {item} (rejected sub) =
    kept-IsOrdered P item (rejected_patch sub item) refl (inl (rejected_unsigned sub item)) refl
IsWrite-IsOrdered P {item} (failed prefix message) =
    kept-IsOrdered P item (failed_patch prefix message item) refl (inl refl) refl
IsWrite-IsOrdered P {item} (blocked reason) =
    kept-IsOrdered P item (blocked_patch reason item) refl (inl refl) refl
IsWrite-IsOrdered P {item} (prepared hash) =
    kept-IsOrdered P item (prepared_patch item hash item) refl (inl refl) refl
IsWrite-IsOrdered P {item} submitted =
    kept-IsOrdered P item (submitted_patch item) refl (inl refl) refl
IsWrite-IsOrdered P {item} (blob_validated hash v code now) =
    kept-IsOrdered P item (blob_validated_patch item hash v code now item) refl
      (inl (final_status_unsigned (final_code v code)))
      (IsOver-marks_of
        (field_over (blob_metadata-IsOver item now) "validationSource" (str "lookup") refl))
IsWrite-IsOrdered P {item} (awaiting hash result last now) =
    kept-IsOrdered P item (awaiting_patch item hash result last now item) refl (inl refl) (
      IsOver-marks_of (
        field_over
          (field_over (blob_metadata-IsOver item now) "awaitingValidation" (bool true) refl)
          "lastLedgerSequence" last refl))
IsWrite-IsOrdered P {item} (blob_rejected hash result code) =
    kept-IsOrdered P item (blob_rejected_patch hash result code item) refl
      (inl (blob_rejected_unsigned hash result code item)) refl
IsWrite-IsOrdered P {item} (looked_up v) = λ h. h
IsWrite-IsOrdered P {item} (indexed now e meta) =
    kept-IsOrdered P item (indexed_patch (indexed_metadata item now e meta) item) refl (inl refl)
      (IsOver-marks_of (indexed_metadata-IsOver item now e meta))
IsWrite-IsOrdered P {item} (reconciled checked detail now) =
    kept-IsOrdered P item (reconciled_patch item checked detail now item) refl
      (inl (new_status_unsigned checked.mismatches))
      (IsOver-marks_of {m = item.metadata}
        (field_over (field_over given "reconciledAt" (str now) refl) "reconciliation" detail refl))
