-- ===== src/Evidence.antt =====
-- packages/evidence-sdk/src/index.js: the hash chain of evidence events. `sha` is the SHA-256 of
-- the crypto module, in hexadecimal, on texts.
pub mod Canonical
pub mod Order
pub mod KeyOrder
pub mod Size
pub mod Verify
pub mod Scope
use xrpl_credit_orchestrator.Prelude.{
  ℕ, suc, String, Bool, true, false, Option, none, some, List, [], ◌∷◌, ◌==◌, ◌+++◌, or_else,
  if◌then◌else◌, length,
}
use xrpl_credit_orchestrator.Json.{Json, undefined, str, arr, obj, nil, cons, end, field}
use xrpl_credit_orchestrator.Json.Field.{get, put, truthy_json, of_text, of_list}
use Canonical.{canonicalize}

pub record EvidenceEvent : Type 0 where
  pub chain_scope : String
  pub aggregate_type : String
  pub aggregate_id : String
  pub event_type : String
  pub payload : Json
  pub payload_hash : String
  pub prev_hash : Option String
  pub created_at : String

abbrev pub make_chain_scope : String → String → String
make_chain_scope aggregate_type aggregate_id = aggregate_type +++ ":" +++ aggregate_id

-- The object that `hashEvent` hands to `canonicalize`.
abbrev pub hash_input : String → String → String → String → Json → Option String → Json
hash_input scope aggregate_type aggregate_id event_type payload prev_hash = obj (
    field "chainScope" (str scope) (
      field "aggregateType" (str aggregate_type) (
        field "aggregateId" (str aggregate_id) (
          field "eventType" (str event_type)
            (field "payload" payload (field "prevHash" (of_text prev_hash) end))))))

unfoldable pub hash_event :
    (String → String) → String → String → String → String → Json → Option String → String
hash_event sha scope aggregate_type aggregate_id event_type payload prev_hash =
    sha (canonicalize (hash_input scope aggregate_type aggregate_id event_type payload prev_hash))

-- `validatePayload`
abbrev pub payload_warnings : Json → List Json
payload_warnings payload =
    let rest = if truthy_json (get "action" payload) then [] else str "missing_action" ∷ [] in
    if truthy_json (get "actor" payload) then rest else str "missing_actor" ∷ rest

abbrev pub warnings_field : List Json → Json
warnings_field [] = undefined
warnings_field (w ∷ ws) = arr (cons w (of_list ws))

-- `enrichedPayload`
abbrev pub enrich : Json → Json
enrich payload =
    put "_warnings" (warnings_field (payload_warnings payload))
      (put "_evidenceVersion" (str "2.0") payload)

-- The payload is an object, as it is in every call of the services; of null it would throw.
unfoldable pub create_evidence_event :
    (String → String) → String → String → String → Json → Option String → String → EvidenceEvent
create_evidence_event sha aggregate_type aggregate_id event_type payload prev_hash created_at =
    record {
      chain_scope = make_chain_scope aggregate_type aggregate_id;
      aggregate_type = aggregate_type;
      aggregate_id = aggregate_id;
      event_type = event_type;
      payload = enrich payload;
      payload_hash =
          hash_event sha (make_chain_scope aggregate_type aggregate_id) aggregate_type aggregate_id
            event_type (enrich payload) prev_hash;
      prev_hash = prev_hash;
      created_at = created_at;
    }

-- What `verifyChain` returns.
pub data Verdict : Type 0 where
  valid : (chain_length : ℕ) (head_hash : Option String) → Verdict
  broken :
      (failed_at : ℕ) (failed_event : EvidenceEvent) (expected : String) (chain_length : ℕ)
      → Verdict

-- The hash that an event should bear after `prev_hash`.
abbrev pub expected_hash : (String → String) → EvidenceEvent → Option String → String
expected_hash sha e prev_hash =
    hash_event sha e.chain_scope e.aggregate_type e.aggregate_id e.event_type e.payload prev_hash

-- The loop, at index `i` of a chain of `n` events.
pub verify_from : (String → String) → ℕ → ℕ → Option String → List EvidenceEvent → Verdict
verify_from sha n i prev_hash [] = valid n prev_hash
verify_from sha n i prev_hash (e ∷ es) =
    let rest = verify_from sha n (suc i) (some e.payload_hash) es in
    if expected_hash sha e prev_hash == e.payload_hash
    then rest
    else broken i e (expected_hash sha e prev_hash) n

unfoldable pub verify_chain : (String → String) → List EvidenceEvent → Verdict
unfolding verify_from
verify_chain sha events = verify_from sha (length events) 0 none events
