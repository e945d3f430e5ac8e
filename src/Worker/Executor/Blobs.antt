-- ===== src/Worker/Executor/Blobs.antt =====
-- `_submitBlobAndLookup` of apps/ledger-worker/src/tx-executor.js takes up its row.
use xrpl_credit_orchestrator.Prelude.{
  String, ◌&&◌, Option, none, some, ◌≡◌, refl, subst, sym, inl, inr, arith, Bool-cases,
  Option-cases, Result-cases, Result, ok, if◌then◌else◌, truthy,
}
use xrpl_credit_orchestrator.Json.{Json, str, obj, end, field}
use xrpl_credit_orchestrator.Json.Field.{get, as_text}
use xrpl_credit_orchestrator.Database.{OutboxRow}
use xrpl_credit_orchestrator.Database.Outbox.{patched, update_outbox}
use xrpl_credit_orchestrator.Database.Ledgers.{record_transaction}
use xrpl_credit_orchestrator.Worker.State.{Calls, Config, World, on_ledger, on_db}
use xrpl_credit_orchestrator.Worker.Lookup.{lookup_tx, tx_lookup_retries}
use xrpl_credit_orchestrator.Worker.Lookup.Answers.{IsValidated, lookup_tx-cases}
use xrpl_credit_orchestrator.Worker.Change.{IsHandled, IsChange, update_outbox-IsChange}
use xrpl_credit_orchestrator.Worker.Submit.{failed_patch, engine_result_of}
use xrpl_credit_orchestrator.Worker.Results.{classify_result, is_success}
use xrpl_credit_orchestrator.Worker.Executor.{
  blob_validated_patch, awaiting_patch, blob_rejected_patch, write_blob_seen, conclude_blob,
  reject_blob, submit_blob_and_lookup, last_ledger_of, after_submit_blob,
}

module _ {L : Type 0} (calls : Calls L) (config : Config) where
  -- The call returns, and has taken up the row and no other.
  abbrev pub IsTaken : OutboxRow → World L → Result (Unit {0}) × World L → Type 0
  IsTaken row w res = (res.0 ≡ ok tt) × IsChange row.id IsHandled w.db.outbox res.1.db.outbox

  blob_validated-IsHandled :
      (row : OutboxRow) (hash : Option String) (v : Json) (code at now : String) (r : OutboxRow)
      → IsValidated v
      → IsHandled (patched (blob_validated_patch row hash v code at) now r)
  blob_validated-IsHandled row hash v code at now r h = ground (arith, h)

  blob_rejected-IsHandled :
      (hash : Option String) (result : Json) (code now : String) (r : OutboxRow)
      → IsHandled (patched (blob_rejected_patch hash result code) now r)
  blob_rejected-IsHandled hash result code now r = ground arith

  IsSeen : Option Json → Type 0
  IsSeen none = Unit {0}
  IsSeen (some v) = IsValidated v

  write_blob_seen-IsTaken :
      (row : OutboxRow) (hash : String) (answer : Json) (code : String) (last : Json)
      (seen : Option Json) (w : World L)
      → IsSeen seen
      → IsTaken row w (write_blob_seen calls config row hash answer code last seen w)
  unfolding write_blob_seen update_outbox record_transaction IsSeen
  write_blob_seen-IsTaken row hash answer code last (some v) w h =
      let at = w.db.host.iso w.db.now in
      (
        refl,
        update_outbox-IsChange row.id IsHandled (blob_validated_patch row (some hash) v code at)
            w.db (λ r. refl) (λ r. blob_validated-IsHandled row (some hash) v code at at r h),
      )
  write_blob_seen-IsTaken row hash answer code last none w h =
      let at = w.db.host.iso w.db.now in
      (
        refl,
        update_outbox-IsChange row.id IsHandled
            (awaiting_patch row (some hash) (get "result" answer) last at) w.db (λ r. refl)
            (λ r. refl),
      )

  conclude_blob-IsTaken :
      (row : OutboxRow) (hash : String) (answer : Json) (code : String) (last : Json) (w : World L)
      → IsTaken row w (conclude_blob calls config row hash answer code last w)
  unfolding conclude_blob IsSeen
  conclude_blob-IsTaken row hash answer code last w =
      let w' = (on_ledger (lookup_tx calls tx_lookup_retries hash last) w).1 in
      elim (lookup_tx-cases calls tx_lookup_retries hash last w.ledger) [
        | inl e ↦
            let same : conclude_blob calls config row hash answer code last w
                ≡ write_blob_seen calls config row hash answer code last none w' =
              ground (arith, e) in
            subst (IsTaken row w) (sym same)
              (write_blob_seen-IsTaken row hash answer code last none w' tt)
        | inr (v, e, h) ↦
            let same : conclude_blob calls config row hash answer code last w
                ≡ write_blob_seen calls config row hash answer code last (some v) w' =
              ground (arith, e) in
            subst (IsTaken row w) (sym same)
              (write_blob_seen-IsTaken row hash answer code last (some v) w' h)
      ]

  reject_blob-IsTaken :
      (row : OutboxRow) (hash : Option String) (answer : Json) (code : String) (w : World L)
      → IsTaken row w (reject_blob calls config row hash answer code w)
  unfolding reject_blob update_outbox record_transaction
  reject_blob-IsTaken row hash answer code w = elim (Bool-cases (truthy hash)) [
    | inl e ↦ rw e (
      refl,
      update_outbox-IsChange row.id IsHandled (blob_rejected_patch hash (get "result" answer) code)
          w.db (λ r. refl)
          (blob_rejected-IsHandled hash (get "result" answer) code (w.db.host.iso w.db.now)),
    )
    | inr e ↦ rw e (
      refl,
      update_outbox-IsChange row.id IsHandled (blob_rejected_patch hash (get "result" answer) code)
          w.db (λ r. refl)
          (blob_rejected-IsHandled hash (get "result" answer) code (w.db.host.iso w.db.now)),
    )
  ]

  after_submit_blob-IsTaken :
      (row : OutboxRow) (answer : Json) (w : World L)
      → IsTaken row w (after_submit_blob calls config row answer w)
  unfolding after_submit_blob
  after_submit_blob-IsTaken row answer w =
      let code = engine_result_of answer in
      let hash = as_text (get "hash" (get "tx_json" (get "result" answer))) in
      let last = last_ledger_of row in
      let again = after_submit_blob calls config row answer w in
      elim (Option-cases
        (if is_success (classify_result code) && truthy hash then hash else none)) [
          | inl e ↦
              let same : again ≡ reject_blob calls config row hash answer code w =
                ground (arith, e) in
              subst (IsTaken row w) (sym same) (reject_blob-IsTaken row hash answer code w)
          | inr (h, e) ↦
              let same : again ≡ conclude_blob calls config row h answer code last w =
                ground (arith, e) in
              subst (IsTaken row w) (sym same) (conclude_blob-IsTaken row h answer code last w)
        ]

  abbrev tx_blob : Json → Json
  tx_blob blob = obj (field "command" (str "submit") (field "tx_blob" blob end))

  pub submit_blob_and_lookup-IsTaken :
      (row : OutboxRow) (blob : Json) (w : World L)
      → IsTaken row w (submit_blob_and_lookup calls config row blob w)
  unfolding submit_blob_and_lookup update_outbox
  submit_blob_and_lookup-IsTaken row blob w =
      let w' = (on_ledger (calls.request (tx_blob blob)) w).1 in
      let again = submit_blob_and_lookup calls config row blob w in
      elim (Result-cases (calls.request (tx_blob blob) w.ledger).0) [
        | inl (answer, e) ↦
            let (done, change) = after_submit_blob-IsTaken row answer w' in
            let same : again ≡ after_submit_blob calls config row answer w' =
              ground (arith, e, done) in
            subst (IsTaken row w) (sym same) (done, change)
        | inr (m, e) ↦
            let same : again
                ≡ (ok tt, (on_db (update_outbox row.id (failed_patch "cosign_error: " m)) w').1) =
              ground (arith, e) in
            subst (IsTaken row w) (sym same) (
              refl,
              update_outbox-IsChange row.id IsHandled (failed_patch "cosign_error: " m) w.db
                  (λ r. refl) (λ r. refl),
            )
      ]
