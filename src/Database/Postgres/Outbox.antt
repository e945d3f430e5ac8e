-- ===== src/Database/Postgres/Outbox.antt =====
-- The outbox of apps/control-api/src/db/pg.js, with the unique index that
-- infra/postgres/001_init.sql puts on it. The table keeps its rows in the order of `created_at`; what a
-- statement refuses is an error of PostgreSQL. Of several rows that a query without an order may
-- return, the first is taken.
pub mod Slots
use xrpl_credit_orchestrator.Prelude.{
  ℕ, suc, String, Bool, true, false, not, ◌&&◌, Option, none, some, List, [], ◌∷◌, ◌++◌, ◌==◌, find,
  filter, take, map, includes, or_else, is_some, if◌then◌else◌, Action, ok, err, pure, gets, throw,
  ◌>>=◌, ◌>>◌,
}
use xrpl_credit_orchestrator.Json.{Json, null, undefined}
use xrpl_credit_orchestrator.Shared.{OutboxStatus, kind_text}
use xrpl_credit_orchestrator.Database.Tables.{Store, OutboxRow, now_iso}
use xrpl_credit_orchestrator.Database.Outbox.{
  TxInput, duplicate_of, duplicate_message, new_row, is_claimable, claimed, has_id,
}
use xrpl_credit_orchestrator.Database.Postgres.{jsonb}

-- The columns of `idx_tx_outbox_dedupe` are those of the row, and its key is not null.
abbrev pub occupies : TxInput → OutboxRow → Bool
occupies input r = elim input.dedupe_key [
  | none ↦ false
  | some k ↦ elim r.dedupe_key [
    | none ↦ false
    | some j ↦
        j == k
        && (r.aggregate_type == input.aggregate_type
            && (r.aggregate_id == input.aggregate_id && kind_text r.kind == kind_text input.kind))
  ]
]

abbrev pub unique_violation : String
unique_violation = "duplicate key value violates unique constraint \"idx_tx_outbox_dedupe\""

-- The row that the insert statement writes.
abbrev pub stored_row : TxInput → Store → OutboxRow
stored_row input s =
    let r = new_row input (s.host.uuid s.drawn) (now_iso s) in
    record r { tx_json = jsonb input.tx_json; metadata = jsonb r.metadata }

-- `insert into tx_outbox ... returning ...`
unfoldable pub insert_tx : TxInput → Action Store OutboxRow
insert_tx input s = elim (find (occupies input) s.outbox) [
  | some r ↦ (err unique_violation, s)
  | none ↦
      let r = stored_row input s in
      (ok r, record s { drawn = suc s.drawn; outbox = s.outbox ++ r ∷ [] })
]

-- `enqueueTx`: a query for a row with the key that is not in a terminal status, and the insert.
unfoldable pub enqueue_tx : TxInput → Action Store OutboxRow
enqueue_tx input s = elim (duplicate_of input.dedupe_key s.outbox) [
  | some r ↦ (err (duplicate_message input.dedupe_key r), s)
  | none ↦ insert_tx input s
]

-- The fields of a patch that have a column; the others are left aside.
pub record Patch : Type 0 where
  pub status : Option OutboxStatus
  pub submitted_tx_json : Option Json
  pub tx_hash : Option (Option String)
  pub tx_result : Option Json
  pub error : Option (Option String)
  pub metadata : Option Json

-- `fields.length`
abbrev pub has_fields : Patch → Bool
has_fields p = not (
    not (is_some p.status)
    && (not (is_some p.submitted_tx_json)
        && (not (is_some p.tx_hash)
            && (not (is_some p.tx_result) && (not (is_some p.error) && not (is_some p.metadata))))))

-- A `jsonb` column, when an object or a list is written to it, or nothing.
abbrev pub column : Option Json → Json → Json
column none old = old
column (some v) old = jsonb v

-- `set column = value, ..., updated_at = now()`
abbrev pub set_columns : Patch → String → OutboxRow → OutboxRow
set_columns p now r = record r {
  status = or_else p.status r.status;
  submitted_tx_json = column p.submitted_tx_json r.submitted_tx_json;
  tx_hash = or_else p.tx_hash r.tx_hash;
  tx_result = column p.tx_result r.tx_result;
  error = or_else p.error r.error;
  metadata = column p.metadata r.metadata;
  updated_at = now;
}

-- `update tx_outbox set ... where test`
unfoldable pub update_where :
    (OutboxRow → Bool) → (OutboxRow → OutboxRow) → List OutboxRow → List OutboxRow
update_where test write rows = map (λ r. if test r then write r else r) rows

-- The columns that are selected leave out the key.
abbrev pub selected : OutboxRow → OutboxRow
selected r = record r { dedupe_key = none }

abbrev pub get_outbox_by_id : String → Action Store (Option OutboxRow)
get_outbox_by_id id =
    gets (λ s. elim (find (has_id id) s.outbox) [ none ↦ none | some r ↦ some (selected r) ])

unfoldable pub update_outbox : String → Patch → Action Store (Option OutboxRow)
update_outbox id p s =
    if has_fields p
    then get_outbox_by_id id
        (record s { outbox = update_where (has_id id) (set_columns p (now_iso s)) s.outbox })
    else get_outbox_by_id id s

-- The identifiers that a claim selects; `locked` are the rows that other statements hold, which it skips.
abbrev pub claimable_ids : (OutboxRow → Bool) → ℕ → List OutboxRow → List String
claimable_ids locked limit rows =
    map (λ (r : OutboxRow). r.id)
      (take limit (filter (λ r. is_claimable r.status && not (locked r)) rows))

-- The rows come back as they are once marked, in the table's order here.
unfoldable pub claim_pending_outbox : (OutboxRow → Bool) → ℕ → Action Store (List OutboxRow)
claim_pending_outbox locked limit s =
    let ids = claimable_ids locked limit s.outbox in
    let is_chosen = λ (r : OutboxRow). includes ids r.id in
    (
      ok (map (λ r. selected (claimed (now_iso s) r)) (filter is_chosen s.outbox)),
      record s { outbox = update_where is_chosen (claimed (now_iso s)) s.outbox },
    )
