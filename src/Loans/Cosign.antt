-- ===== src/Loans/Cosign.antt =====
-- The order of the two signatures in apps/control-api/src/services/loans.service.js: the broker
-- signs first, whatever calls the service, the operators and the worker's claims make.
use xrpl_credit_orchestrator.Prelude.{
  String, Bool, true, false, ◌&&◌, ◌||◌, some, ◌≡◌, ◌==◌, ap, sym, subst, ◌∙◌, inl, inr, arith,
  find, filter, Option-cases, if◌then◌else◌, ◌⊎◌, update_first,
}
use xrpl_credit_orchestrator.Json.{Json, str}
use xrpl_credit_orchestrator.Json.Field.{get, put, get-put, truthy_json}
use xrpl_credit_orchestrator.Shared.{is_loan_set, OutboxStatus}
use xrpl_credit_orchestrator.Builders.{is_string}
use xrpl_credit_orchestrator.Database.{Store, OutboxRow}
use xrpl_credit_orchestrator.Database.Outbox.{
  claimed, has_id, patched, update_outbox, is_of_aggregate,
}
use xrpl_credit_orchestrator.Database.Evidence.{append_evidence}
use xrpl_credit_orchestrator.Loans.Frame.{enforce_sod_keeps}
use xrpl_credit_orchestrator.Loans.{Actor}
use xrpl_credit_orchestrator.Loans.Signatures.{
  record_broker_signature, record_borrower_signature, awaits_broker, awaits_borrower, broker_signed,
  borrower_signed,
}

abbrev pub is_signed_status : OutboxStatus → Bool
is_signed_status OutboxStatus.signed_1 = true
is_signed_status OutboxStatus.signed_2 = true
is_signed_status _ = false

abbrev pub has_broker_blob : OutboxRow → Bool
has_broker_blob r = is_string (get "brokerSignedBlob" r.metadata)

abbrev pub has_borrower_blob : OutboxRow → Bool
has_borrower_blob r = truthy_json (get "counterpartySignedTxBlob" r.metadata)

-- What `recordBrokerSignature` and `recordBorrowerSignature` leave in a row's metadata: two values that
-- they were given, and two times.
pub record Marks : Type 0 where
  pub broker_blob : Json
  pub broker_at : Json
  pub borrower_blob : Json
  pub borrower_at : Json

abbrev pub marks_of : Json → Marks
marks_of metadata = record {
  broker_blob = get "brokerSignedBlob" metadata;
  broker_at = get "brokerSignedAt" metadata;
  borrower_blob = get "counterpartySignedTxBlob" metadata;
  borrower_at = get "counterpartySignedAt" metadata;
}

-- The broker's call came, with a value that passes the test.
abbrev pub is_by_broker : (Json → Bool) → Marks → Bool
is_by_broker P m = is_string m.broker_at && P m.broker_blob

abbrev pub is_by_borrower : Marks → Bool
is_by_borrower m = truthy_json m.borrower_blob || is_string m.borrower_at

abbrev is_in_order : (Json → Bool) → Bool → OutboxStatus → Marks → Bool
is_in_order P loan_set status m =
    if loan_set && (is_signed_status status || is_by_borrower m) then is_by_broker P m else true

-- A LoanSet row that counts as signed, or that the borrower has signed, was signed by the broker before.
abbrev pub IsOrdered : (Json → Bool) → OutboxRow → Type 0
IsOrdered P r = is_in_order P (is_loan_set r.kind) r.status (marks_of r.metadata) ≡ true

-- A row of the same kind and marks that counts as signed only if the other does keeps the order.
pub kept-IsOrdered :
    (P : Json → Bool) (r n : OutboxRow)
    → n.kind ≡ r.kind
    → (is_signed_status n.status ≡ false) ⊎ (n.status ≡ r.status)
    → marks_of n.metadata ≡ marks_of r.metadata
    → IsOrdered P r
    → IsOrdered P n
kept-IsOrdered P r n kind (inl e) same h =
    subst (λ m. is_in_order P (is_loan_set n.kind) n.status m ≡ true) (sym same)
      (ground (arith, kind))
kept-IsOrdered P r n kind (inr e) same h =
    subst (λ m. is_in_order P (is_loan_set n.kind) n.status m ≡ true) (sym same)
      (subst (λ k. is_in_order P (is_loan_set k) n.status (marks_of r.metadata) ≡ true) (sym kind)
        (subst (λ x. is_in_order P (is_loan_set r.kind) x (marks_of r.metadata) ≡ true) (sym e) h))

-- The keys of the marks.
abbrev pub is_mark : String → Bool
is_mark k =
    (k == "brokerSignedBlob" || k == "brokerSignedAt")
    || (k == "counterpartySignedTxBlob" || k == "counterpartySignedAt")

pub marks_of-put : (k : String) (v m : Json) → is_mark k ≡ false → marks_of (put k v m) ≡ marks_of m
marks_of-put k v m h = ground (
  arith,
  h,
  get-put k "brokerSignedBlob" v m,
  get-put k "brokerSignedAt" v m,
  get-put k "counterpartySignedTxBlob" v m,
  get-put k "counterpartySignedAt" v m,
)

pub broker_signed-IsOrdered :
    (P : Json → Bool) (blob tx_hash : Json) (at now : String) (r : OutboxRow)
    → P blob ≡ true
    → IsOrdered P (patched (broker_signed blob tx_hash at) now r)
broker_signed-IsOrdered P blob tx_hash at now r h =
    let given = put "brokerSignedBlob" blob r.metadata in
    let timed = put "brokerSignedAt" (str at) given in
    ground (
      arith,
      h,
      ap P (
          get-put "brokerSignedHash" "brokerSignedBlob" tx_hash timed
          ∙ get-put "brokerSignedAt" "brokerSignedBlob" (str at) given
          ∙ get-put "brokerSignedBlob" "brokerSignedBlob" blob r.metadata),
      get-put "brokerSignedHash" "brokerSignedAt" tx_hash timed,
      get-put "brokerSignedAt" "brokerSignedAt" (str at) given,
    )

pub borrower_signed-IsOrdered :
    (P : Json → Bool) (blob : Json) (at now : String) (r : OutboxRow)
    → is_by_broker P (marks_of r.metadata) ≡ true
    → IsOrdered P (patched (borrower_signed blob at) now r)
borrower_signed-IsOrdered P blob at now r h =
    let given = put "counterpartySignedTxBlob" blob r.metadata in
    ground (
      arith,
      h,
      ap P (
          get-put "counterpartySignedAt" "brokerSignedBlob" (str at) given
          ∙ get-put "counterpartySignedTxBlob" "brokerSignedBlob" blob r.metadata),
      get-put "counterpartySignedAt" "brokerSignedAt" (str at) given,
      get-put "counterpartySignedTxBlob" "brokerSignedAt" blob r.metadata,
    )

pub claimed-IsOrdered :
    (P : Json → Bool) (now : String) (r : OutboxRow) → IsOrdered P r → IsOrdered P (claimed now r)
claimed-IsOrdered P now r h = ground arith

-- The outbox after a call: as before, or with one patched row that the test found.
abbrev pub IsPatch : (OutboxRow → Bool) → (OutboxRow → OutboxRow) → String → Store → Store → Type 0
IsPatch test patch id s t =
    (t.outbox ≡ s.outbox)
    ⊎ ((item : OutboxRow) × (find test (filter (is_of_aggregate "loan" id) s.outbox) ≡ some item)
        × (t.outbox ≡ update_first (has_id item.id) (patched patch (s.host.iso s.now)) s.outbox))

pub record_broker_signature-IsPatch :
    (id : String) (blob tx_hash : Json) (actor : Actor) (s : Store)
    → IsPatch awaits_broker
        (broker_signed blob tx_hash (s.host.iso s.now))
        id
        s
        (record_broker_signature id blob tx_hash actor s).1
unfolding record_broker_signature update_outbox append_evidence
record_broker_signature-IsPatch id blob tx_hash actor s =
    elim (Option-cases (find awaits_broker (filter (is_of_aggregate "loan" id) s.outbox))) [
      | inl none_waits ↦ inl (ground (arith, enforce_sod_keeps "loan" id actor "LOAN_SUBMIT" s))
      | inr (item, found) ↦ ground (arith, enforce_sod_keeps "loan" id actor "LOAN_SUBMIT" s)
    ]

pub record_borrower_signature-IsPatch :
    (id : String) (blob : Json) (actor : Actor) (s : Store)
    → IsPatch awaits_borrower
        (borrower_signed blob (s.host.iso s.now))
        id
        s
        (record_borrower_signature id blob actor s).1
unfolding record_borrower_signature update_outbox append_evidence
record_borrower_signature-IsPatch id blob actor s =
    elim (Option-cases (find awaits_borrower (filter (is_of_aggregate "loan" id) s.outbox))) [
      | inl none_waits ↦ inl (ground arith)
      | inr (item, found) ↦ ground arith
    ]
