-- ===== src/Worker/Metadata/Nodes.antt =====
-- The affected nodes of a transaction's metadata, and the objects that it created, as
-- apps/ledger-worker/src/runs/xrpl-state.js reads them.
use xrpl_credit_orchestrator.Prelude.{
  String, Bool, true, false, not, ◌&&◌, ◌||◌, Option, none, some, List, [], ◌∷◌, map, filter,
  if◌then◌else◌, Result, ok, err, map_ok,
}
use xrpl_credit_orchestrator.Json.{Json, null, undefined, str, arr, obj, end, Items, nil, cons}
use xrpl_credit_orchestrator.Json.Field.{get, or_json, truthy_json, is_text}

pub data NodeAction : Type 0 where
  created modified deleted : NodeAction

abbrev pub action_text : NodeAction → String
action_text created = "created"
action_text modified = "modified"
action_text deleted = "deleted"

pub record Node : Type 0 where
  pub action : NodeAction
  pub entry_type : Json
  pub ledger_index : Json
  pub new_fields : Json
  pub final_fields : Json
  pub previous_fields : Json

-- `n.LedgerIndex ?? n.ledger_index ?? null`
abbrev index_of : Json → Json
index_of n = or_json (get "LedgerIndex" n) (or_json (get "ledger_index" n) null)

abbrev created_node : Json → Node
created_node n = record {
  action = created;
  entry_type = get "LedgerEntryType" n;
  ledger_index = index_of n;
  new_fields = or_json (get "NewFields" n) (obj end);
  final_fields = null;
  previous_fields = null;
}

abbrev modified_node : Json → Node
modified_node n = record {
  action = modified;
  entry_type = get "LedgerEntryType" n;
  ledger_index = index_of n;
  new_fields = null;
  final_fields = or_json (get "FinalFields" n) (obj end);
  previous_fields = or_json (get "PreviousFields" n) (obj end);
}

abbrev deleted_node : Json → Node
deleted_node n = record {
  action = deleted;
  entry_type = get "LedgerEntryType" n;
  ledger_index = index_of n;
  new_fields = null;
  final_fields = or_json (get "FinalFields" n) (obj end);
  previous_fields = or_json (get "PreviousFields" n) null;
}

abbrev classified : Json → Option Node
classified item =
    if truthy_json (get "CreatedNode" item)
    then some (created_node (get "CreatedNode" item))
    else if truthy_json (get "ModifiedNode" item)
    then some (modified_node (get "ModifiedNode" item))
    else if truthy_json (get "DeletedNode" item)
    then some (deleted_node (get "DeletedNode" item))
    else none

-- `item.CreatedNode` of nothing throws.
abbrev pub normalized : Json → Result (Option Node)
normalized null = err "Cannot read properties of null (reading 'CreatedNode')"
normalized undefined = err "Cannot read properties of undefined (reading 'CreatedNode')"
normalized item = ok (classified item)

-- `filter(Boolean)`
abbrev pub kept : Option Node → List Node → List Node
kept none nodes = nodes
kept (some node) nodes = node ∷ nodes

-- `nodes.map(…)` stops at the first item that throws.
unfoldable pub normalize_items : Items → Result (List Node)
normalize_items nil = ok []
normalize_items (cons item items) =
    let rest = normalize_items items in
    elim (normalized item) [ err e ↦ err e | ok node ↦ map_ok (kept node) rest ]

-- `meta?.AffectedNodes ?? []`, of which `map` is called.
abbrev pub normalize_list : Json → Result (List Node)
normalize_list null = ok []
normalize_list undefined = ok []
normalize_list (arr items) = normalize_items items
normalize_list _ = err "nodes.map is not a function"

unfoldable pub normalize_affected_nodes : Json → Result (List Node)
normalize_affected_nodes meta = normalize_list (get "AffectedNodes" meta)

-- A result without affected nodes, or with an array of them that holds no null.
abbrev pub all_present : Items → Bool
all_present nil = true
all_present (cons null items) = false
all_present (cons undefined items) = false
all_present (cons _ items) = all_present items

abbrev pub is_list : Json → Bool
is_list null = true
is_list undefined = true
is_list (arr items) = all_present items
is_list _ = false

abbrev pub is_readable : Json → Bool
is_readable result = is_list (get "AffectedNodes" (get "meta" result))

pub record CreatedIds : Type 0 where
  pub vault_id : Json
  pub loan_broker_id : Json
  pub loan_id : Json
  pub loan_seq : Json
  pub affected_types : List Json
  pub normalized_nodes : List Node

abbrev pub is_created : Node → Bool
is_created n = elim n.action [ created ↦ true | _ ↦ false ]

abbrev pub is_modified : Node → Bool
is_modified n = elim n.action [ modified ↦ true | _ ↦ false ]

abbrev pub is_broker_type : Json → Bool
is_broker_type t = is_text "LoanBroker" t || is_text "LoanManager" t

-- `node.ledgerIndex ?? node.newFields?.index ?? null`
abbrev pub id_of : Node → Json
id_of n = or_json n.ledger_index (or_json (get "index" n.new_fields) null)

-- One round of the loop: the first created object of each type is kept.
abbrev pub take_node : CreatedIds → Node → CreatedIds
take_node out n =
    if not (is_created n)
    then out
    else if is_text "Vault" n.entry_type && not (truthy_json out.vault_id)
    then record out { vault_id = id_of n }
    else if is_broker_type n.entry_type && not (truthy_json out.loan_broker_id)
    then record out { loan_broker_id = id_of n }
    else if is_text "Loan" n.entry_type && not (truthy_json out.loan_id)
    then record out { loan_id = id_of n; loan_seq = or_json (get "LoanSeq" n.new_fields) null }
    else out

abbrev pub take_nodes : CreatedIds → List Node → CreatedIds
take_nodes out [] = out
take_nodes out (n ∷ ns) = take_nodes (take_node out n) ns

abbrev entry_types : List Node → List Json
entry_types ns = filter truthy_json (map (λ n. n.entry_type) ns)

abbrev pub created_ids : List Node → CreatedIds
created_ids nodes =
    let none_yet : CreatedIds = record {
      vault_id = null;
      loan_broker_id = null;
      loan_id = null;
      loan_seq = null;
      affected_types = entry_types nodes;
      normalized_nodes = nodes;
    } in
    take_nodes none_yet nodes

unfoldable pub extract_created_ledger_ids : Json → Result CreatedIds
extract_created_ledger_ids result =
    map_ok created_ids (normalize_affected_nodes (get "meta" result))

pub record TxMetadata : Type 0 where
  pub tx_hash : Json
  pub ledger_index : Json
  pub transaction_index : Json
  pub result_code : Json
  pub delivered_amount : Json
  pub nodes : List Node

abbrev pub tx_metadata : Json → List Node → TxMetadata
tx_metadata result nodes =
    let meta = get "meta" result in
    record {
      tx_hash = or_json (get "hash" result) null;
      ledger_index = or_json (get "ledger_index" result) (or_json (get "inLedger" result) null);
      transaction_index = or_json (get "TransactionIndex" meta) null;
      result_code = or_json (get "TransactionResult" meta) (str "unknown");
      delivered_amount = or_json (get "delivered_amount" meta) null;
      nodes = nodes;
    }

unfoldable pub extract_tx_metadata : Json → Result TxMetadata
extract_tx_metadata result =
    map_ok (tx_metadata result) (normalize_affected_nodes (get "meta" result))
