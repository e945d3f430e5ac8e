-- ===== src/Loans/Frame.antt =====
-- What the calls of apps/control-api/src/services/loans.service.js leave alone in the database.
use xrpl_credit_orchestrator.Prelude.{
  suc, ◌≤◌, String, none, some, [], ◌∷◌, ◌++◌, ◌≡◌, refl, inl, inr, arith, find, Option-cases,
  Result-cases, Bool-cases, ok, err, Result, Action, ◌⊎◌, throw_if, ◌>>=◌, ◌>>◌, subst, sym,
}
use xrpl_credit_orchestrator.Json.{Json}
use xrpl_credit_orchestrator.Database.{Store, OutboxRow, Loan, LoanBroker}
use xrpl_credit_orchestrator.Database.Outbox.{update_outbox, duplicate_of, duplicate_message}
use xrpl_credit_orchestrator.Database.Outbox.Dedupe.{
  fresh_row, enqueue_tx_pushes, enqueue_tx_refuses,
}
use xrpl_credit_orchestrator.Database.Lending.{
  LoanInput, create_loan, update_loan, is_loan, is_broker,
}
use xrpl_credit_orchestrator.Database.Evidence.{append_evidence}
use xrpl_credit_orchestrator.Builders.{build_loan_set_tx}
use xrpl_credit_orchestrator.Builders.Shape.{build_loan_set_tx_keeps}
use xrpl_credit_orchestrator.Loans.{
  Actor, create, enforce_sod, record_packet, prepare_cosign_packet, cosign_request, cosign_packet,
  loan_set_input, is_unset,
}
use xrpl_credit_orchestrator.Loans.Signatures.{record_broker_signature, record_borrower_signature}

-- The host is the same, and no identifier is given back.
abbrev pub IsLater : Store → Store → Type 0
IsLater s t = (t.host ≡ s.host) × (s.drawn ≤ t.drawn)

pub enforce_sod_keeps :
    (t i : String) (actor : Actor) (action : String) (s : Store)
    → (enforce_sod t i actor action s).1 ≡ s
unfolding enforce_sod
enforce_sod_keeps t i none action s = refl
enforce_sod_keeps t i (some sub) action s = ground arith

pub create-IsLater :
    (input : LoanInput) (actor : Actor) (s : Store)
    → IsLater s (create input actor s).1 × ((create input actor s).1.outbox ≡ s.outbox)
unfolding create create_loan append_evidence
create-IsLater input actor s = ((refl, omega arith), refl)

pub record_broker_signature-IsLater :
    (id : String) (blob tx_hash : Json) (actor : Actor) (s : Store)
    → IsLater s (record_broker_signature id blob tx_hash actor s).1
unfolding record_broker_signature update_outbox append_evidence
record_broker_signature-IsLater id blob tx_hash actor s =
    ground (arith, enforce_sod_keeps "loan" id actor "LOAN_SUBMIT" s)

pub record_borrower_signature-IsLater :
    (id : String) (blob : Json) (actor : Actor) (s : Store)
    → IsLater s (record_borrower_signature id blob actor s).1
unfolding record_borrower_signature update_outbox append_evidence
record_borrower_signature-IsLater id blob actor s = ground arith

-- A packet is recorded with its row at the end of the outbox, or is refused and nothing changes.
pub record_packet_outcome :
    (loan : Loan) (tx : Json) (actor : Actor) (s : Store)
    → let (r, t) = record_packet loan tx actor s in
      let q = cosign_request loan tx (cosign_packet loan tx (s.host.iso s.now)) actor in
      ((m : String) × (r ≡ err m) × (t ≡ s))
      ⊎ ((r ≡ ok (cosign_packet loan tx (s.host.iso s.now), fresh_row q s))
          × (duplicate_of q.dedupe_key s.outbox ≡ none)
          × (t.outbox ≡ s.outbox ++ fresh_row q s ∷ [])
          × IsLater s t
          × (suc s.drawn ≤ t.drawn))
unfolding record_packet update_loan append_evidence
record_packet_outcome loan tx actor s =
    let q = cosign_request loan tx (cosign_packet loan tx (s.host.iso s.now)) actor in
    elim (Option-cases (duplicate_of q.dedupe_key s.outbox)) [
      | inr (r, e) ↦ inl (
        duplicate_message q.dedupe_key r,
        ground (arith, enqueue_tx_refuses q s r e),
        ground (arith, enqueue_tx_refuses q s r e),
      )
      | inl e ↦ inr (ground (arith, enqueue_tx_pushes q s e))
    ]

-- The end of `prepareCosignPacket`, for a loan and its broker.
packet_of : Loan → LoanBroker → Actor → Action Store (Json × OutboxRow)
packet_of loan broker actor = do
  throw_if (is_unset broker.xrpl_loan_broker_id)
      "loan_broker_not_ready: xrplLoanBrokerId not yet written back"
  tx ← build_loan_set_tx (loan_set_input loan broker)
  record_packet loan tx actor

-- Preparing a packet throws and changes nothing, or appends the loan's request to the outbox.
abbrev pub IsPrepared : Actor → Store → Result (Json × OutboxRow) × Store → Type 0
IsPrepared actor s (r, t) =
    ((m : String) × (r ≡ err m) × (t ≡ s))
    ⊎ ((loan : Loan) × (tx : Json) × let q =
            cosign_request loan tx (cosign_packet loan tx (s.host.iso s.now)) actor in
          (r ≡ ok (cosign_packet loan tx (s.host.iso s.now), fresh_row q s))
          × (duplicate_of q.dedupe_key s.outbox ≡ none)
          × (t.outbox ≡ s.outbox ++ fresh_row q s ∷ [])
          × IsLater s t
          × (suc s.drawn ≤ t.drawn))

record_packet-IsPrepared :
    (loan : Loan) (tx : Json) (actor : Actor) (s : Store)
    → IsPrepared actor s (record_packet loan tx actor s)
record_packet-IsPrepared loan tx actor s = elim (record_packet_outcome loan tx actor s) [
  | inl refused ↦ inl refused
  | inr (a, b, c, d, e) ↦ inr (loan, tx, (a, b, c, d, e))
]

packet_of-IsPrepared :
    (loan : Loan) (broker : LoanBroker) (actor : Actor) (s : Store)
    → IsPrepared actor s (packet_of loan broker actor s)
unfolding packet_of
packet_of-IsPrepared loan broker actor s =
    let input = loan_set_input loan broker in
    let keeps = build_loan_set_tx_keeps input s in
    elim (Bool-cases (is_unset broker.xrpl_loan_broker_id)) [
      | inl unset ↦ inl (
        "loan_broker_not_ready: xrplLoanBrokerId not yet written back",
        ground arith,
        ground arith,
      )
      | inr ready ↦ elim (Result-cases (build_loan_set_tx input s).0) [
        | inr (m, e) ↦ inl (m, ground (arith, keeps), ground (arith, keeps))
        | inl (tx, e) ↦
            let same : packet_of loan broker actor s ≡ record_packet loan tx actor s =
              ground (arith, keeps) in
            subst (IsPrepared actor s) (sym same) (record_packet-IsPrepared loan tx actor s)
      ]
    ]

pub prepare_cosign_packet-IsPrepared :
    (id : String) (actor : Actor) (s : Store)
    → IsPrepared actor s (prepare_cosign_packet id actor s)
unfolding prepare_cosign_packet packet_of
prepare_cosign_packet-IsPrepared id actor s =
    let sod = enforce_sod "loan" id actor "LOAN_SUBMIT" s in
    let keeps = enforce_sod_keeps "loan" id actor "LOAN_SUBMIT" s in
    elim (Option-cases (find (is_loan id) s.loans)) [
      | inl e ↦ inl ("loan_not_found", ground arith, ground arith)
      | inr (loan, found) ↦ elim (Result-cases sod.0) [
        | inr (m, e) ↦ inl (m, ground (arith, keeps), ground (arith, keeps))
        | inl (_, allowed) ↦
            elim (Option-cases (find (is_broker loan.loan_broker_id) s.loan_brokers)) [
              | inl e ↦ inl ("loan_broker_not_found", ground (arith, keeps), ground (arith, keeps))
              | inr (broker, known) ↦
                  let same : prepare_cosign_packet id actor s ≡ packet_of loan broker actor s =
                    ground (arith, keeps) in
                  subst (IsPrepared actor s) (sym same) (packet_of-IsPrepared loan broker actor s)
            ]
      ]
    ]
