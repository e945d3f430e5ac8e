-- ===== src/Database/Postgres.antt =====
-- `appendEvidence` and `getEvidence` of apps/control-api/src/db/pg.js. The table keeps its rows in
-- the order of `created_at`; a `jsonb` column holds what `JSON.stringify` writes of a value.
pub mod Broken
pub mod Outbox
pub mod Leases
use xrpl_credit_orchestrator.Prelude.{
  String, Option, none, some, List, [], ◌∷◌, ◌++◌, filter, last?,
}
use xrpl_credit_orchestrator.Json.{
  Json, null, undefined, bool, num, str, arr, obj, Items, nil, cons, Fields, end, field,
}
use xrpl_credit_orchestrator.Evidence.{EvidenceEvent, make_chain_scope, create_evidence_event}
use xrpl_credit_orchestrator.Evidence.Verify.{last_hash}
use xrpl_credit_orchestrator.Database.Evidence.{in_scope, is_about}

-- `JSON.parse(JSON.stringify(v))`: fields that are `undefined` are dropped, elements become `null`.
unfoldable mutual
  pub jsonb : Json → Json
  jsonb null = null
  jsonb undefined = undefined
  jsonb (bool b) = bool b
  jsonb (num n) = num n
  jsonb (str s) = str s
  jsonb (arr vs) = arr (jsonb_items vs)
  jsonb (obj fs) = obj (jsonb_fields fs)

  pub jsonb_items : Items → Items
  jsonb_items nil = nil
  jsonb_items (cons undefined vs) = cons null (jsonb_items vs)
  jsonb_items (cons v vs) = cons (jsonb v) (jsonb_items vs)

  pub jsonb_fields : Fields → Fields
  jsonb_fields end = end
  jsonb_fields (field k undefined fs) = jsonb_fields fs
  jsonb_fields (field k v fs) = field k (jsonb v) (jsonb_fields fs)

-- The row that the insert statement writes: the hash is the event's, the payload the argument's.
unfoldable pub inserted :
    (String → String) → String → String → String → Json → Option String → String → EvidenceEvent
inserted sha aggregate_type aggregate_id event_type payload prev_hash created_at =
    let event =
      create_evidence_event sha aggregate_type aggregate_id event_type payload prev_hash
        created_at in
    record event { payload = jsonb payload }

unfoldable pub append_evidence :
    (String → String)
    → String
    → String
    → String
    → Json
    → String
    → List EvidenceEvent
    → List EvidenceEvent
append_evidence sha aggregate_type aggregate_id event_type payload created_at table =
    let scope = make_chain_scope aggregate_type aggregate_id in
    let prev_hash = last_hash (last? (filter (in_scope scope) table)) in
    table ++ inserted sha aggregate_type aggregate_id event_type payload prev_hash created_at ∷ []

unfoldable pub get_evidence : String → String → List EvidenceEvent → List EvidenceEvent
get_evidence aggregate_type aggregate_id table = filter (is_about aggregate_type aggregate_id) table
