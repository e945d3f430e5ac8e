-- ===== src/Database/Evidence.antt =====
-- `appendEvidence` and `getEvidence` of apps/control-api/src/db/memory.js, which
-- apps/control-api/src/services/evidence.service.js passes on.
pub mod Chains
use xrpl_credit_orchestrator.Prelude.{
  String, Bool, Option, List, [], ◌∷◌, ◌++◌, ◌==◌, ◌&&◌, map, filter, last?, Action, ok, pure, gets,
  modify, ◌>>=◌, ◌>>◌,
}
use xrpl_credit_orchestrator.Json.{Json}
use xrpl_credit_orchestrator.Evidence.{EvidenceEvent, make_chain_scope, create_evidence_event}
use xrpl_credit_orchestrator.Evidence.Verify.{last_hash}
use xrpl_credit_orchestrator.Database.Tables.{Store, StoredEvent, random_uuid, now_iso}

-- `e.chainScope === scope`
abbrev pub in_scope : String → EvidenceEvent → Bool
in_scope scope e = e.chain_scope == scope

abbrev pub events : List StoredEvent → List EvidenceEvent
events = map (λ r. r.event)

-- The event that `createEvidenceEvent` makes, chained to the last one of its scope.
abbrev pub next_event : String → String → String → Json → Store → EvidenceEvent
next_event aggregate_type aggregate_id event_type payload s =
    let scope = make_chain_scope aggregate_type aggregate_id in
    let prev_hash = last_hash (last? (filter (in_scope scope) (events s.evidence))) in
    create_evidence_event s.host.sha256 aggregate_type aggregate_id event_type payload prev_hash
      (now_iso s)

unfoldable pub append_evidence : String → String → String → Json → Action Store StoredEvent
append_evidence aggregate_type aggregate_id event_type payload = do
  event ← gets (next_event aggregate_type aggregate_id event_type payload)
  id ← random_uuid
  let stored : StoredEvent = record { id = id; event = event }
  modify (λ s. record s { evidence = s.evidence ++ stored ∷ [] })
  pure stored

abbrev pub is_about : String → String → EvidenceEvent → Bool
is_about aggregate_type aggregate_id e =
    e.aggregate_type == aggregate_type && e.aggregate_id == aggregate_id

unfoldable pub get_evidence : String → String → Store → List EvidenceEvent
get_evidence aggregate_type aggregate_id s =
    filter (is_about aggregate_type aggregate_id) (events s.evidence)
