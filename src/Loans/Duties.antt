-- ===== src/Loans/Duties.antt =====
-- Separation of duties in apps/control-api/src/services/loans.service.js.
use xrpl_credit_orchestrator.Prelude.{
  String, true, some, List, [], ◌∷◌, ◌++◌, ◌≡◌, inl, inr, arith, eq_refl, truthy_text, to_upper,
  find, filter, filter-append, find-append_none, find-append_some, Option-cases, ok, err, Result,
  not, ◌+++◌, Bool-cases, subst, or_else,
}
use xrpl_credit_orchestrator.Json.Print.{to_string}
use xrpl_credit_orchestrator.Shared.{loan_status_text}
use mathlib.Core.List.{map-append}
use xrpl_credit_orchestrator.Json.{Json, str, obj, end, field}
use xrpl_credit_orchestrator.Evidence.{EvidenceEvent, create_evidence_event}
use xrpl_credit_orchestrator.Database.{Store, StoredEvent, Loan}
use xrpl_credit_orchestrator.Database.Lending.{LoanInput, create_loan, is_loan}
use xrpl_credit_orchestrator.Database.Evidence.{
  append_evidence, get_evidence, events, next_event, is_about,
}
use xrpl_credit_orchestrator.Loans.{
  enforce_sod, is_conflict, violation_message, create, prepare_cosign_packet,
}
use xrpl_credit_orchestrator.Loans.Signatures.{record_broker_signature, is_cosign_pending}

-- Histories only grow.
get_evidence-append_evidence :
    (t i t' i' k : String) (payload : Json) (s : Store)
    → get_evidence t i (append_evidence t' i' k payload s).1
      ≡ get_evidence t i s ++ filter (is_about t i) (next_event t' i' k payload s ∷ [])
unfolding get_evidence append_evidence
get_evidence-append_evidence t i t' i' k payload s =
    rw (map-append (λ (r : StoredEvent). r.event) s.evidence _)
      (filter-append (is_about t i) (events s.evidence) _)

-- The actions that stand in the way of LOAN_SUBMIT.
abbrev pub before_submit : List String
before_submit = "LOAN_APPROVE" ∷ "RECONCILIATION_CLOSE" ∷ []

-- The user did something to the loan that forbids him to submit it.
abbrev pub HasConflict : String → String → Store → Type 0
HasConflict id sub s =
    (e : EvidenceEvent) × (find (is_conflict sub before_submit) (get_evidence "loan" id s) ≡ some e)

abbrev pub approval : String → String → String → Json → Json
approval sub reason principal rate = obj (
    field "actor" (str sub) (
      field "action" (str "loan_approve") (
        field "reason" (str reason)
          (field "principal" (str principal) (field "interestRate" rate end)))))

approval-is_conflict :
    (sub i reason principal : String) (rate : Json) (s : Store)
    → let e = next_event "loan" i "loan.approved" (approval sub reason principal rate) s in
      (is_about "loan" i e ≡ true) × (is_conflict sub before_submit e ≡ true)
unfolding create_evidence_event to_upper
approval-is_conflict sub i reason principal rate s = (rw (eq_refl i), rw (eq_refl sub))

approval-HasConflict :
    (sub i reason principal : String) (rate : Json) (s : Store)
    → HasConflict i sub
        (append_evidence "loan" i "loan.approved" (approval sub reason principal rate) s).1
approval-HasConflict sub i reason principal rate s =
    let p = approval sub reason principal rate in
    let e = next_event "loan" i "loan.approved" p s in
    let fits = approval-is_conflict sub i reason principal rate s in
    let old = get_evidence "loan" i s in
    elim (Option-cases (find (is_conflict sub before_submit) old)) [
      | inr (f, h) ↦ (
        f,
        rw (get_evidence-append_evidence "loan" i "loan" i "loan.approved" p s)
            (find-append_some (is_conflict sub before_submit) old _ f h),
      )
      | inl h ↦ (
        e,
        rw
            (
              get_evidence-append_evidence "loan" i "loan" i "loan.approved" p s,
              fits.0,
              find-append_none (is_conflict sub before_submit) old (e ∷ []) h,
            )
            (rw fits.1),
      )
    ]

-- A call that throws and changes nothing.
abbrev pub IsRefused : {A : Type 0} → Result A × Store → Store → Type 0
IsRefused r s = (m : String) × (r ≡ (err m, s))

enforce_sod-IsRefused :
    (id sub : String) (s : Store)
    → truthy_text sub ≡ true
    → HasConflict id sub s
    → IsRefused (enforce_sod "loan" id (some sub) "LOAN_SUBMIT" s) s
unfolding enforce_sod
enforce_sod-IsRefused id sub s t (e, h) = (violation_message sub e "LOAN_SUBMIT", rw (t, h))

prepare_cosign_packet-IsRefused :
    (id sub : String) (s : Store)
    → truthy_text sub ≡ true
    → HasConflict id sub s
    → IsRefused (prepare_cosign_packet id (some sub) s) s
unfolding prepare_cosign_packet
prepare_cosign_packet-IsRefused id sub s t h =
    let (m, e) = enforce_sod-IsRefused id sub s t h in
    elim (Option-cases (find (is_loan id) s.loans)) [
      | inl missing ↦ ("loan_not_found", rw missing)
      | inr (loan, found) ↦ (m, rw found (ground (arith, e)))
    ]

record_broker_signature-IsRefused :
    (id sub : String) (blob tx_hash : Json) (s : Store)
    → truthy_text sub ≡ true
    → HasConflict id sub s
    → IsRefused (record_broker_signature id blob tx_hash (some sub) s) s
unfolding record_broker_signature
record_broker_signature-IsRefused id sub blob tx_hash s t h =
    let (m, e) = enforce_sod-IsRefused id sub s t h in
    elim (Option-cases (find (is_loan id) s.loans)) [
      | inl missing ↦ ("loan_not_found", rw missing)
      | inr (loan, found) ↦ elim (Bool-cases (not (is_cosign_pending loan.status))) [
        | inl other ↦ (
          "invalid_state: expected cosign_pending, got " +++ loan_status_text loan.status,
          rw (found, other),
        )
        | inr pending ↦ (m, rw (found, pending) (ground (arith, e)))
      ]
    ]

create-HasConflict :
    (input : LoanInput) (sub : String) (s : Store) (row : Loan)
    → (create input (some sub) s).0 ≡ ok row
    → HasConflict row.id sub (create input (some sub) s).1
unfolding create create_loan append_evidence
create-HasConflict input sub s row e =
    subst (λ i. HasConflict i sub (create input (some sub) s).1) (ground arith)
      (approval-HasConflict sub (s.host.uuid s.drawn) (or_else input.reason "standard_approval")
        (to_string input.principal) input.interest_rate (create_loan input s).1)

-- A user with a non-empty id who approved a loan can neither prepare its cosign packet nor record the broker's signature:
-- in every later state whose evidence of the loan extends the one that the approval left, both calls
-- throw and change nothing.
pub approver_cannot_submit :
    (input : LoanInput) (sub : String) (blob tx_hash : Json) (s u : Store) (row : Loan)
    (rest : List EvidenceEvent)
    → truthy_text sub ≡ true
    → (create input (some sub) s).0 ≡ ok row
    → get_evidence "loan" row.id u
      ≡ get_evidence "loan" row.id (create input (some sub) s).1 ++ rest
    → IsRefused (prepare_cosign_packet row.id (some sub) u) u
      × IsRefused (record_broker_signature row.id blob tx_hash (some sub) u) u
approver_cannot_submit input sub blob tx_hash s u row rest t e later =
    let (f, h) = create-HasConflict input sub s row e in
    let still : HasConflict row.id sub u = (
      f,
      rw later (
          find-append_some (is_conflict sub before_submit)
            (get_evidence "loan" row.id (create input (some sub) s).1) rest f h),
    ) in
    (
      prepare_cosign_packet-IsRefused row.id sub u t still,
      record_broker_signature-IsRefused row.id sub blob tx_hash u t still,
    )
