-- ===== src/Audit.antt =====
-- `buildAuditBundle` of packages/evidence-sdk/src/index.js, and
-- apps/control-api/src/services/audit.service.js.
pub mod Bundle
use xrpl_credit_orchestrator.Prelude.{
  ℕ, String, Bool, true, false, ◌&&◌, Option, none, some, List, [], ◌∷◌, ◌++◌, ◌==◌, map, filter,
  any, find, length, nat_eq, if◌then◌else◌,
}
use xrpl_credit_orchestrator.Json.{Json, null, bool, num, str, arr, obj, end, field}
use xrpl_credit_orchestrator.Json.Field.{get, or_json, truthy_json, of_text, of_list}
use xrpl_credit_orchestrator.Evidence.{EvidenceEvent, Verdict, verify_chain}
use xrpl_credit_orchestrator.Evidence.Canonical.{canonicalize}
use xrpl_credit_orchestrator.Database.{
  Store, Vault, LoanBroker, Loan, OutboxRow, TransactionRow, ReconciliationRun, now_iso,
}
use xrpl_credit_orchestrator.Database.Anchor.{Anchor, generate_chain_anchor, get_chain_anchor}
use xrpl_credit_orchestrator.Database.Evidence.{get_evidence}
use xrpl_credit_orchestrator.Database.Outbox.{is_of_aggregate}
use xrpl_credit_orchestrator.Database.Ledgers.{is_hash_of, newest}
use xrpl_credit_orchestrator.Database.Entities.{is_vault}
use xrpl_credit_orchestrator.Database.Lending.{is_broker, is_loan}

-- The equality of a `Set`: objects and arrays are equal to themselves only, and no two events share one.
abbrev pub same_value : Json → Json → Bool
same_value (str a) (str b) = a == b
same_value (num a) (num b) = nat_eq a b
same_value (bool true) (bool true) = true
same_value _ _ = false

-- `set.add(v)`
abbrev pub add_value : Json → List Json → List Json
add_value v vs = if any (same_value v) vs then vs else vs ++ v ∷ []

-- The loop over the events, which collects who acted.
unfoldable pub collect_actors : List Json → List EvidenceEvent → List Json
collect_actors actors [] = actors
collect_actors actors (e ∷ es) =
    let actor = get "actor" e.payload in
    collect_actors (if truthy_json actor then add_value actor actors else actors) es

pub record TimelineEntry : Type 0 where
  pub at : String
  pub kind : String
  pub actor : Json
  pub action : Json
  pub tx_hash : Json

abbrev pub timeline_entry : EvidenceEvent → TimelineEntry
timeline_entry e = record {
  at = e.created_at;
  kind = e.event_type;
  actor = or_json (get "actor" e.payload) null;
  action = or_json (get "action" e.payload) (str e.event_type);
  tx_hash = or_json (get "txHash" e.payload) null;
}

pub record AuditChain : Type 0 where
  pub verify : Verdict
  pub anchor : Anchor
  pub event_count : ℕ
  pub events : List EvidenceEvent

pub record AuditBundle : Type 0 where
  pub generated_at : String
  pub aggregate_type : Option String
  pub aggregate_id : Option String
  pub chain : AuditChain
  pub timeline : List TimelineEntry
  pub related_transactions : List TransactionRow
  pub outbox_history : List OutboxRow
  pub reconciliation_history : List ReconciliationRun
  pub operators : List Json
  pub export_hash : String

abbrev type_of : List EvidenceEvent → Option String
type_of [] = none
type_of (e ∷ _) = some e.aggregate_type

abbrev id_of : List EvidenceEvent → Option String
id_of [] = none
id_of (e ∷ _) = some e.aggregate_id

-- The object whose hash is the hash of the export.
abbrev pub export_input : List EvidenceEvent → List TransactionRow → String → Json
export_input events transactions now = obj (
    field "events" (arr (of_list (map (λ e. str e.payload_hash) events))) (
      field "txHashes" (arr (of_list (map (λ t. of_text t.tx_hash) transactions)))
        (field "generatedAt" (str now) end)))

unfoldable pub build_audit_bundle :
    (String → String)
    → String
    → List EvidenceEvent
    → List TransactionRow
    → List OutboxRow
    → List ReconciliationRun
    → AuditBundle
build_audit_bundle sha now events transactions outbox_items runs = record {
  generated_at = now;
  aggregate_type = type_of events;
  aggregate_id = id_of events;
  chain = record {
    verify = verify_chain sha events;
    anchor = generate_chain_anchor sha now events;
    event_count = length events;
    events = events;
  };
  timeline = map timeline_entry events;
  related_transactions = transactions;
  outbox_history = outbox_items;
  reconciliation_history = runs;
  operators = collect_actors [] events;
  export_hash = sha (canonicalize (export_input events transactions now));
}

pub data Aggregate : Type 0 where
  of_vault : Option Vault → Aggregate
  of_broker : Option LoanBroker → Aggregate
  of_loan : Option Loan → Aggregate
  unknown : Aggregate

unfoldable pub resolve_aggregate : String → String → Store → Aggregate
resolve_aggregate aggregate_type aggregate_id s =
    if aggregate_type == "vault"
    then of_vault (find (is_vault aggregate_id) s.vaults)
    else if aggregate_type == "loan_broker"
    then of_broker (find (is_broker aggregate_id) s.loan_brokers)
    else if aggregate_type == "loan"
    then of_loan (find (is_loan aggregate_id) s.loans)
    else unknown

-- The bundle, with the aggregate and the names that it was asked for under.
pub record Export : Type 0 where
  pub bundle : AuditBundle
  pub aggregate : Aggregate
  pub aggregate_type : String
  pub aggregate_id : String

abbrev pub is_run_of : String → String → ReconciliationRun → Bool
is_run_of aggregate_type aggregate_id r =
    r.target_type == aggregate_type && r.target_id == aggregate_id

unfoldable pub export_aggregate_bundle : String → String → Store → Export
export_aggregate_bundle aggregate_type aggregate_id s =
    let outbox_items = filter (is_of_aggregate aggregate_type aggregate_id) s.outbox in
    record {
      bundle =
          build_audit_bundle s.host.sha256 (now_iso s) (get_evidence aggregate_type aggregate_id s)
            (filter (is_hash_of outbox_items) s.transactions) outbox_items
            (filter (is_run_of aggregate_type aggregate_id) (newest 50 s.reconciliations));
      aggregate = resolve_aggregate aggregate_type aggregate_id s;
      aggregate_type = aggregate_type;
      aggregate_id = aggregate_id;
    }

-- `verifyChain` of the service
abbrev pub verify_aggregate : String → String → Store → Verdict
verify_aggregate aggregate_type aggregate_id s =
    verify_chain s.host.sha256 (get_evidence aggregate_type aggregate_id s)
