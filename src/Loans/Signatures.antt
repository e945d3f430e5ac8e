-- ===== src/Loans/Signatures.antt =====
-- `recordBrokerSignature` and `recordBorrowerSignature` of apps/control-api/src/services/loans.service.js.
use xrpl_credit_orchestrator.Prelude.{
  String, Bool, true, false, not, ◌&&◌, ◌||◌, Option, none, some, ◌==◌, ◌+++◌, truthy_text, find,
  if◌then◌else◌, Action, ok, err, pure, throw_if, gets, ◌>>=◌, ◌>>◌,
}
use xrpl_credit_orchestrator.Json.{Json, str, obj, end, field}
use xrpl_credit_orchestrator.Json.Field.{put, of_text, as_text}
use xrpl_credit_orchestrator.Shared.{is_loan_set, OutboxStatus, LoanStatus, loan_status_text}
use xrpl_credit_orchestrator.Database.{Store, Loan, OutboxRow, now_iso}
use xrpl_credit_orchestrator.Database.Outbox.{update_outbox, list_outbox_by_aggregate}
use xrpl_credit_orchestrator.Database.Entities.{find_party_by_auth_user_id}
use xrpl_credit_orchestrator.Database.Lending.{get_loan}
use xrpl_credit_orchestrator.Database.Evidence.{append_evidence}
use xrpl_credit_orchestrator.Loans.{Actor, enforce_sod, or_throw}

abbrev pub is_cosign_pending : LoanStatus → Bool
is_cosign_pending LoanStatus.cosign_pending = true
is_cosign_pending _ = false

abbrev pub awaits_broker : OutboxRow → Bool
awaits_broker o =
    is_loan_set o.kind
    && (elim o.status [ OutboxStatus.pending ↦ true | OutboxStatus.processing ↦ true | _ ↦ false ])

-- The patch that stores what the broker's call was given, which is not checked: the blob and the hash
-- may be missing, and are `undefined` then. The column of the hash holds texts.
abbrev pub broker_signed : Json → Json → String → OutboxRow → OutboxRow
broker_signed blob tx_hash now o = record o {
  status = OutboxStatus.signed_1;
  tx_hash = as_text tx_hash;
  metadata =
      put "brokerSignedHash" tx_hash
        (put "brokerSignedAt" (str now) (put "brokerSignedBlob" blob o.metadata));
}

unfoldable pub record_broker_signature : String → Json → Json → Actor → Action Store OutboxRow
record_broker_signature loan_id blob tx_hash actor = do
  found ← get_loan loan_id
  loan ← or_throw found "loan_not_found"
  throw_if (not (is_cosign_pending loan.status))
      ("invalid_state: expected cosign_pending, got " +++ loan_status_text loan.status)
  enforce_sod "loan" loan_id actor "LOAN_SUBMIT"
  items ← list_outbox_by_aggregate "loan" loan_id
  item ← or_throw (find awaits_broker items) "no_pending_outbox_for_loan"
  now ← gets now_iso
  update_outbox item.id (broker_signed blob tx_hash now)
  append_evidence "loan" loan_id "loan.broker_signed" (
      obj (
        field "actor" (of_text actor) (
          field "action" (str "broker_sign")
            (field "txHash" tx_hash (field "outboxId" (str item.id) end)))))
  pure item

abbrev pub awaits_borrower : OutboxRow → Bool
awaits_borrower o =
    is_loan_set o.kind && (elim o.status [ OutboxStatus.signed_1 ↦ true | _ ↦ false ])

abbrev pub same_party : Option String → String → Bool
same_party none id = false
same_party (some p) id = p == id

-- The actor is the borrower party, or the user who is linked to it.
abbrev pub is_borrower : Loan → String → Store → Bool
is_borrower loan sub s =
    same_party loan.borrower_party_id sub || (elim (find_party_by_auth_user_id sub s).0 [
      | ok found ↦ elim found [ none ↦ false | some p ↦ same_party loan.borrower_party_id p.id ]
      | err _ ↦ false
    ])

abbrev pub may_sign : Loan → Actor → Store → Bool
may_sign loan none s = true
may_sign loan (some sub) s = if truthy_text sub then is_borrower loan sub s else true

-- The patch that stores what the borrower's call was given, which is not checked.
abbrev pub borrower_signed : Json → String → OutboxRow → OutboxRow
borrower_signed blob now o = record o {
  status = OutboxStatus.signed_2;
  metadata = put "counterpartySignedAt" (str now) (put "counterpartySignedTxBlob" blob o.metadata);
}

unfoldable pub record_borrower_signature : String → Json → Actor → Action Store OutboxRow
record_borrower_signature loan_id blob actor = do
  found ← get_loan loan_id
  loan ← or_throw found "loan_not_found"
  allowed ← gets (may_sign loan actor)
  throw_if (not allowed)
      "borrower_identity_mismatch: actor is not the assigned borrower for this loan"
  items ← list_outbox_by_aggregate "loan" loan_id
  item ← or_throw (find awaits_borrower items) "no_broker_signed_outbox: broker must sign first"
  now ← gets now_iso
  update_outbox item.id (borrower_signed blob now)
  append_evidence "loan" loan_id "loan.borrower_signed" (
      obj (
        field "actor" (of_text actor)
          (field "action" (str "borrower_sign") (field "outboxId" (str item.id) end))))
  pure item
