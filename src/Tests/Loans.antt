-- ===== src/Tests/Loans.antt =====
-- The loan service's theorems at a concrete loan.
use xrpl_credit_orchestrator.Prelude.{
  suc, Bool, true, false, none, some, [], ◌∷◌, ◌++◌, ◌≡◌, refl, map, length, Result, ok, err, All,
  sym, to_upper,
}
use mathlib.Core.List.{append-nil}
use xrpl_credit_orchestrator.Json.{Json, null, undefined, str}
use xrpl_credit_orchestrator.Json.Print.{decimal, to_string}
use xrpl_credit_orchestrator.Shared.{LoanStatus}
use xrpl_credit_orchestrator.Builders.{build_loan_set_tx, is_string}
use xrpl_credit_orchestrator.Evidence.{create_evidence_event}
use xrpl_credit_orchestrator.Database.{Store, Loan, OutboxRow}
use xrpl_credit_orchestrator.Database.Lending.{create_loan, update_loan}
use xrpl_credit_orchestrator.Database.Evidence.{append_evidence, get_evidence}
use xrpl_credit_orchestrator.Database.Outbox.{
  enqueue_tx, claimed, claim_pending_outbox, update_outbox,
}
use xrpl_credit_orchestrator.Database.Outbox.Claim.{claimable}
use xrpl_credit_orchestrator.Database.Outbox.Dedupe.{fresh_row}
use xrpl_credit_orchestrator.Database.Outbox.Identity.{IsDistinct, ids}
use xrpl_credit_orchestrator.Loans.{create, enforce_sod, record_packet, prepare_cosign_packet}
use xrpl_credit_orchestrator.Loans.Signatures.{record_broker_signature, record_borrower_signature}
use xrpl_credit_orchestrator.Loans.Cosign.{
  IsOrdered, is_signed_status, has_broker_blob, has_borrower_blob,
}
use xrpl_credit_orchestrator.Loans.Duties.{IsRefused, approver_cannot_submit}
use xrpl_credit_orchestrator.Loans.Order.{
  here, next, approves, prepares, broker_signs, borrower_signs, Reach-IsOrdered,
}
use xrpl_credit_orchestrator.Loans.Unsigned.{prepare_cosign_packet-claimed}
use xrpl_credit_orchestrator.Tests.Data.{ticks-IsInjective, store, loan_input, deposit}

-- `u1` approves the loan, `u2` prepares its packet.
abbrev approved : Store
approved = (create loan_input (some "u1") store).1

abbrev prepared : Store
prepared = (prepare_cosign_packet "" (some "u2") approved).1

abbrev by_broker : Store
by_broker = (record_broker_signature "" (str "B10B") (str "HASH") (some "u2") prepared).1

Reach-IsOrdered_example :
    let t = (record_borrower_signature "" (str "B20B") (some "p1") by_broker).1 in
    All (IsOrdered is_string) t.outbox × IsDistinct (ids t.outbox)
Reach-IsOrdered_example =
    Reach-IsOrdered is_string store
      (record_borrower_signature "" (str "B20B") (some "p1") by_broker).1 refl ticks-IsInjective
      (next
        (next (next (next here (approves loan_input (some "u1"))) (prepares "" (some "u2")))
          (broker_signs "" (str "B10B") (str "HASH") (some "u2") refl))
        (borrower_signs "" (str "B20B") (some "p1")))

-- A broker's call with no blob at all counts as a signature.
abbrev by_nobody : Store
by_nobody = (record_broker_signature "" undefined undefined (some "u2") prepared).1

no_blob :
    map {B = Bool × Bool}
      (λ (r : OutboxRow). (is_signed_status r.status, has_broker_blob r))
      by_nobody.outbox
    ≡ (true, false) ∷ []
unfolding record_broker_signature prepare_cosign_packet create create_loan append_evidence
    enforce_sod get_evidence record_packet enqueue_tx build_loan_set_tx update_loan
    create_evidence_event to_upper to_string decimal update_outbox
no_blob = refl

abbrev ok_or : {A : Type 0} → A → Result A → A
ok_or a (ok b) = b
ok_or a (err _) = a

abbrev no_row : OutboxRow
no_row = fresh_row deposit store

abbrev outcome : Json × OutboxRow
outcome = ok_or (null, no_row) (prepare_cosign_packet "" (some "u2") approved).0

prepare_cosign_packet_succeeds :
    (prepare_cosign_packet "" (some "u2") approved).0 ≡ ok (outcome.0, outcome.1)
unfolding prepare_cosign_packet create create_loan append_evidence enforce_sod get_evidence
    record_packet enqueue_tx build_loan_set_tx update_loan create_evidence_event to_upper to_string
    decimal
prepare_cosign_packet_succeeds = refl

prepare_cosign_packet-claimed_example :
    (has_broker_blob outcome.1 ≡ false)
    × (has_borrower_blob outcome.1 ≡ false)
    × ((claim_pending_outbox (suc (length (claimable approved.outbox))) prepared).0
        ≡ ok (
            map
              (claimed (prepared.host.iso prepared.now))
              (claimable approved.outbox ++ outcome.1 ∷ [])))
prepare_cosign_packet-claimed_example =
    prepare_cosign_packet-claimed "" (some "u2") approved outcome.0 outcome.1
      prepare_cosign_packet_succeeds

abbrev no_loan : Loan
no_loan = record {
  id = "";
  application_id = none;
  xrpl_loan_id = none;
  xrpl_loan_seq = none;
  loan_broker_id = "";
  borrower_party_id = none;
  borrower_address = "";
  principal = "";
  interest_rate = null;
  payment_total = null;
  payment_interval = null;
  grace_period = null;
  loan_origination_fee = "";
  loan_service_fee = "";
  status = LoanStatus.approved;
  cosign_packet = null;
  partially_signed_tx_json = null;
  created_at = "";
  updated_at = "";
}

abbrev the_loan : Loan
the_loan = ok_or no_loan (create loan_input (some "u1") store).0

create_succeeds : (create loan_input (some "u1") store).0 ≡ ok the_loan
unfolding create create_loan append_evidence create_evidence_event
create_succeeds = refl

approver_cannot_submit_example :
    IsRefused (prepare_cosign_packet the_loan.id (some "u1") approved) approved
    × IsRefused
        (record_broker_signature the_loan.id (str "B10B") (str "HASH") (some "u1") approved)
        approved
approver_cannot_submit_example =
    approver_cannot_submit loan_input "u1" (str "B10B") (str "HASH") store approved the_loan [] refl
      create_succeeds (sym (append-nil (get_evidence "loan" the_loan.id approved)))
