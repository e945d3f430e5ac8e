-- ===== src/Database/Outbox.antt =====
-- The outbox table of apps/control-api/src/db/memory.js.
pub mod Dedupe
pub mod Identity
pub mod Claim
pub mod Update
pub mod Reconciled
use xrpl_credit_orchestrator.Prelude.{
  ℕ, ◌+◌, String, Bool, true, false, not, ◌&&◌, Option, none, some, List, [], ◌∷◌, ◌++◌, ◌==◌,
  ◌+++◌, truthy, or_else, find, filter, take, update_first, if◌then◌else◌, Action, Result, ok, err,
  pure, throw, zero, suc, map, gets, modify, ◌>>=◌, ◌>>◌,
}
use xrpl_credit_orchestrator.Json.{Json, null, obj, end}
use xrpl_credit_orchestrator.Json.Field.{or_json}
use xrpl_credit_orchestrator.Shared.{TxKind, OutboxStatus, status_text}
use xrpl_credit_orchestrator.Database.Tables.{Store, OutboxRow, random_uuid, now_iso}

pub record TxInput : Type 0 where
  pub kind : TxKind
  pub aggregate_type : String
  pub aggregate_id : String
  pub dedupe_key : Option String
  pub requested_by_user : Option String
  pub tx_json : Json
  pub metadata : Json

-- `terminalStatuses.includes(status)`
abbrev pub is_terminal : OutboxStatus → Bool
is_terminal OutboxStatus.validated = true
is_terminal OutboxStatus.indexed = true
is_terminal OutboxStatus.failed = true
is_terminal OutboxStatus.closed = true
is_terminal _ = false

-- `o.dedupeKey === dedupeKey`
abbrev pub has_key : String → OutboxRow → Bool
has_key k r = elim r.dedupe_key [ none ↦ false | some j ↦ j == k ]

abbrev pub is_live_duplicate : String → OutboxRow → Bool
is_live_duplicate k r = has_key k r && not (is_terminal r.status)

-- The row that stands in the way of a new one with this key, if there is one.
abbrev pub duplicate_of : Option String → List OutboxRow → Option OutboxRow
duplicate_of none rows = none
duplicate_of (some k) rows = if truthy (some k) then find (is_live_duplicate k) rows else none

abbrev pub duplicate_message : Option String → OutboxRow → String
duplicate_message k r =
    "duplicate_outbox: dedupeKey="
    +++ or_else k ""
    +++ " already exists (outbox="
    +++ r.id
    +++ ", status="
    +++ status_text r.status
    +++ ")"

abbrev pub new_row : TxInput → String → String → OutboxRow
new_row input id now = record {
  id = id;
  kind = input.kind;
  status = OutboxStatus.pending;
  aggregate_type = input.aggregate_type;
  aggregate_id = input.aggregate_id;
  requested_by_user = input.requested_by_user;
  dedupe_key = input.dedupe_key;
  tx_json = input.tx_json;
  submitted_tx_json = null;
  tx_hash = none;
  tx_result = null;
  metadata = or_json input.metadata (obj end);
  error = none;
  attempts = 0;
  created_at = now;
  updated_at = now;
}

push_row : TxInput → Action Store OutboxRow
push_row input = do
  id ← random_uuid
  now ← gets now_iso
  let row = new_row input id now
  modify (λ s. record s { outbox = s.outbox ++ row ∷ [] })
  pure row

unfoldable pub enqueue_tx : TxInput → Action Store OutboxRow
unfolding push_row
enqueue_tx input s = elim (duplicate_of input.dedupe_key s.outbox) [
  | none ↦ push_row input s
  | some row ↦ throw (duplicate_message input.dedupe_key row) s
]

-- `claimable.includes(status)`
abbrev pub is_claimable : OutboxStatus → Bool
is_claimable OutboxStatus.pending = true
is_claimable OutboxStatus.signed_2 = true
is_claimable _ = false

abbrev pub claimed : String → OutboxRow → OutboxRow
claimed now r = record r {
  status = OutboxStatus.processing;
  attempts = r.attempts + 1;
  updated_at = now;
}

-- The table after a claim: the first `limit` claimable rows are marked.
unfoldable pub claim_table : String → ℕ → List OutboxRow → List OutboxRow
claim_table now zero rows = rows
claim_table now (suc n) [] = []
claim_table now (suc n) (r ∷ rows) = elim (is_claimable r.status) [
  | true ↦ claimed now r ∷ claim_table now n rows
  | false ↦ r ∷ claim_table now (suc n) rows
]

-- The rows that the claim hands out, as they are once marked.
abbrev pub claim_result : String → ℕ → List OutboxRow → List OutboxRow
claim_result now limit rows =
    map (claimed now) (take limit (filter (λ r. is_claimable r.status) rows))

unfoldable pub claim_pending_outbox : ℕ → Action Store (List OutboxRow)
unfolding claim_table
claim_pending_outbox limit s = (
  ok (claim_result (now_iso s) limit s.outbox),
  record s { outbox = claim_table (now_iso s) limit s.outbox },
)

abbrev pub has_id : String → OutboxRow → Bool
has_id id r = r.id == id

-- `Object.assign(row, patch, { updatedAt })`: a patch is the function that writes its fields.
abbrev pub patched : (OutboxRow → OutboxRow) → String → OutboxRow → OutboxRow
patched patch now r = let r' = patch r in record r' { updated_at = now }

unfoldable pub update_outbox : String → (OutboxRow → OutboxRow) → Action Store (Option OutboxRow)
update_outbox id patch s =
    let rows = update_first (has_id id) (patched patch (now_iso s)) s.outbox in
    (ok (find (has_id id) rows), record s { outbox = rows })

abbrev pub get_outbox_by_id : String → Action Store (Option OutboxRow)
get_outbox_by_id id = gets (λ s. find (has_id id) s.outbox)

abbrev pub list_outbox : Option String → Action Store (List OutboxRow)
list_outbox status = gets (λ s.
    filter (λ r. if truthy status then status_text r.status == or_else status "" else true)
      s.outbox)

abbrev pub is_of_aggregate : String → String → OutboxRow → Bool
is_of_aggregate aggregate_type aggregate_id r =
    r.aggregate_type == aggregate_type && r.aggregate_id == aggregate_id

abbrev pub list_outbox_by_aggregate : String → String → Action Store (List OutboxRow)
list_outbox_by_aggregate aggregate_type aggregate_id =
    gets (λ s. filter (is_of_aggregate aggregate_type aggregate_id) s.outbox)

abbrev pub needs_index : OutboxStatus → Bool
needs_index OutboxStatus.submitted = true
needs_index OutboxStatus.validated = true
needs_index _ = false

abbrev pub list_outbox_needing_index : ℕ → Action Store (List OutboxRow)
list_outbox_needing_index limit =
    gets (λ s. take limit (filter (λ r. needs_index r.status) s.outbox))

abbrev pub needs_reconciliation : OutboxStatus → Bool
needs_reconciliation OutboxStatus.validated = true
needs_reconciliation OutboxStatus.indexed = true
needs_reconciliation OutboxStatus.prepared = true
needs_reconciliation _ = false

abbrev pub list_outbox_for_reconciliation : ℕ → Action Store (List OutboxRow)
list_outbox_for_reconciliation limit =
    gets (λ s. take limit (filter (λ r. needs_reconciliation r.status) s.outbox))
