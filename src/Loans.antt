-- ===== src/Loans.antt =====
-- apps/control-api/src/services/loans.service.js: approval, and the two signatures of a LoanSet.
pub mod Signatures
pub mod Duties
pub mod Frame
pub mod Cosign
pub mod Writes
pub mod Order
pub mod Unsigned
use xrpl_credit_orchestrator.Prelude.{
  String, Bool, true, false, not, ◌&&◌, ◌||◌, Option, none, some, List, [], ◌∷◌, ◌==◌, ◌+++◌,
  or_else, truthy, truthy_text, includes, to_upper, starts_with, find, if◌then◌else◌, Action, ok,
  err, pure, throw, throw_if, gets, modify, ◌>>=◌, ◌>>◌,
}
use xrpl_credit_orchestrator.Json.{Json, null, num, str, arr, obj, nil, cons, Fields, end, field}
use xrpl_credit_orchestrator.Json.Field.{get, put, as_text, of_text}
use xrpl_credit_orchestrator.Shared.{
  TxKind, is_loan_set, OutboxStatus, LoanStatus, loan_status_text, sod_constraints,
}
use xrpl_credit_orchestrator.Evidence.{EvidenceEvent}
use xrpl_credit_orchestrator.Builders.{build_loan_set_tx}
use xrpl_credit_orchestrator.Database.{Store, Loan, LoanBroker, OutboxRow, now_iso}
use xrpl_credit_orchestrator.Database.Outbox.{
  TxInput, enqueue_tx, update_outbox, list_outbox_by_aggregate,
}
use xrpl_credit_orchestrator.Database.Entities.{find_party_by_auth_user_id}
use xrpl_credit_orchestrator.Database.Lending.{
  LoanInput, create_loan, get_loan, update_loan, get_loan_broker,
}
use xrpl_credit_orchestrator.Database.Evidence.{append_evidence, get_evidence}

-- Who calls: `actor?.sub`, the id of the authenticated user.
abbrev pub Actor : Type 0
Actor = Option String

-- `e.payload?.actor === sub`, and its action stands in the way.
abbrev pub is_conflict : String → List String → EvidenceEvent → Bool
is_conflict sub constraint e = elim (as_text (get "actor" e.payload)) [
  | none ↦ false
  | some a ↦
      if a == sub
      then elim (as_text (get "action" e.payload)) [
        | none ↦ false
        | some prior ↦ truthy_text prior && includes constraint (to_upper prior)
      ]
      else false
]

abbrev pub violation_message : String → EvidenceEvent → String → String
violation_message sub e action =
    "sod_violation: user "
    +++ sub
    +++ " already performed "
    +++ or_else (as_text (get "action" e.payload)) ""
    +++ ", cannot perform "
    +++ action

-- The event that forbids the action to this actor, if there is one.
abbrev pub conflict_of : String → String → String → String → Store → Option EvidenceEvent
conflict_of aggregate_type aggregate_id sub action s = elim (sod_constraints action) [
  | none ↦ none
  | some constraint ↦ find (is_conflict sub constraint) (get_evidence aggregate_type aggregate_id s)
]

-- `enforceSoD`
unfoldable pub enforce_sod : String → String → Actor → String → Action Store (Unit {0})
enforce_sod aggregate_type aggregate_id none action s = (ok tt, s)
enforce_sod aggregate_type aggregate_id (some sub) action s =
    if truthy_text sub
    then elim (conflict_of aggregate_type aggregate_id sub action s) [
      | none ↦ (ok tt, s)
      | some e ↦ (err (violation_message sub e action), s)
    ]
    else (ok tt, s)

-- `if (!row) throw new Error(message)`
abbrev pub or_throw : {A : Type 0} → Option A → String → Action Store A
or_throw none message s = (err message, s)
or_throw (some a) message s = (ok a, s)

unfoldable pub create : LoanInput → Actor → Action Store Loan
create input actor = do
  row ← create_loan input
  append_evidence "loan" row.id "loan.approved" (
      obj (
        field "actor" (of_text actor) (
          field "action" (str "loan_approve") (
            field "reason" (str (or_else input.reason "standard_approval")) (
              field "principal" (str row.principal)
                (field "interestRate" row.interest_rate end))))))
  pure row

-- `!id || id.startsWith('UNSET')`
abbrev pub is_unset : Option String → Bool
is_unset none = true
is_unset (some id) = not (truthy_text id) || starts_with id "UNSET"

-- The argument of `buildLoanSetTx`.
abbrev pub loan_set_input : Loan → LoanBroker → Json
loan_set_input loan broker = obj (
    field "account" (str broker.owner_address) (
      field "borrower" (str loan.borrower_address) (
        field "loanBrokerId" (of_text broker.xrpl_loan_broker_id) (
          field "principalRequested" (str loan.principal) (
            field "interestRate" loan.interest_rate (
              field "paymentsTotal" loan.payment_total (
                field "paymentInterval" loan.payment_interval (
                  field "gracePeriod" loan.grace_period (
                    field "loanOriginationFee" (str loan.loan_origination_fee)
                      (field "loanServiceFee" (str loan.loan_service_fee) end))))))))))

abbrev signer : Json → String → Json → Json
signer step role account = obj (
    field "step" step
      (field "role" (str role) (field "account" account (field "status" (str "pending") end))))

-- Account signs first, then Borrower.
abbrev pub cosign_packet : Loan → Json → String → Json
cosign_packet loan tx now = obj (
    field "loanId" (str loan.id) (
      field "unsignedTx" tx (
        field "signingOrder"
          (arr (
            cons (signer (num 1) "broker" (get "Account" tx))
              (cons (signer (num 2) "borrower" (get "Borrower" tx)) nil)))
          (field "createdAt" (str now) end))))

abbrev pub cosign_request : Loan → Json → Json → Actor → TxInput
cosign_request loan tx packet actor = record {
  kind = TxKind.loan_set;
  aggregate_type = "loan";
  aggregate_id = loan.id;
  dedupe_key = some ("loan_set_" +++ loan.id);
  requested_by_user = actor;
  tx_json = tx;
  metadata = obj (
      field "mode" (str "cosign_two_phase") (
        field "cosignPacket" packet
          (field "brokerSignedBlob" null (field "counterpartySignedTxBlob" null end))));
}

-- The writes of `prepareCosignPacket`, once the transaction is built.
unfoldable pub record_packet : Loan → Json → Actor → Action Store (Json × OutboxRow)
record_packet loan tx actor = do
  now ← gets now_iso
  let packet = cosign_packet loan tx now
  outbox ← enqueue_tx (cosign_request loan tx packet actor)
  update_loan loan.id (λ l. record l {
    status = LoanStatus.cosign_pending;
    cosign_packet = packet;
    partially_signed_tx_json = null;
  })
  append_evidence "loan" loan.id "loan.cosign_packet.created" (
      obj (
        field "actor" (of_text actor) (
          field "action" (str "prepare_cosign") (
            field "account" (get "Account" tx) (
              field "borrower" (get "Borrower" tx) (
                field "paymentsTotal" (get "PaymentsTotal" tx)
                  (field "outboxId" (str outbox.id) end)))))))
  pure (packet, outbox)

unfoldable pub prepare_cosign_packet : String → Actor → Action Store (Json × OutboxRow)
prepare_cosign_packet loan_id actor = do
  found ← get_loan loan_id
  loan ← or_throw found "loan_not_found"
  enforce_sod "loan" loan_id actor "LOAN_SUBMIT"
  broker? ← get_loan_broker loan.loan_broker_id
  broker ← or_throw broker? "loan_broker_not_found"
  throw_if (is_unset broker.xrpl_loan_broker_id)
      "loan_broker_not_ready: xrplLoanBrokerId not yet written back"
  tx ← build_loan_set_tx (loan_set_input loan broker)
  record_packet loan tx actor
