-- ===== src/Database/Ledgers.antt =====
-- The transactions, checkpoints and reconciliation runs of apps/control-api/src/db/memory.js.
pub mod Saved
use xrpl_credit_orchestrator.Prelude.{
  ℕ, String, Bool, true, false, Option, none, some, List, [], ◌∷◌, ◌++◌, ◌==◌, truthy, find, filter,
  any, take, update_first, if◌then◌else◌, Action, ok, pure, gets, modify, ◌>>=◌, ◌>>◌,
}
use mathlib.Core.List.{reverse}
use xrpl_credit_orchestrator.Json.{Json, undefined}
use xrpl_credit_orchestrator.Database.Tables.{
  Store, OutboxRow, TransactionRow, Checkpoint, ReconciliationRun, random_uuid, now_iso,
}
use xrpl_credit_orchestrator.Database.Outbox.{is_of_aggregate}

-- What a caller records of a transaction; `ledger_index` is `none` where the argument leaves it out.
pub record TransactionInput : Type 0 where
  pub tx_hash : Option String
  pub tx_type : Json
  pub account : Json
  pub counterparty : Json
  pub ledger_index : Option Json
  pub result_code : Json
  pub raw_json : Json

-- `x.txHash === hash`, where both may be `null`
abbrev pub same_hash : Option String → Option String → Bool
same_hash none none = true
same_hash (some a) (some b) = a == b
same_hash none (some _) = false
same_hash (some _) none = false

abbrev pub with_hash : Option String → TransactionRow → Bool
with_hash hash r = same_hash r.tx_hash hash

abbrev or_undefined : Option Json → Json
or_undefined none = undefined
or_undefined (some v) = v

abbrev or_kept : Option Json → Json → Json
or_kept none v = v
or_kept (some w) _ = w

abbrev pub transaction_row : TransactionInput → String → TransactionRow
transaction_row tx now = record {
  tx_hash = tx.tx_hash;
  tx_type = tx.tx_type;
  account = tx.account;
  counterparty = tx.counterparty;
  ledger_index = or_undefined tx.ledger_index;
  result_code = tx.result_code;
  raw_json = tx.raw_json;
  observed_at = now;
}

-- `Object.assign(existing, tx)`
abbrev pub reassigned : TransactionInput → TransactionRow → TransactionRow
reassigned tx r = record {
  tx_hash = tx.tx_hash;
  tx_type = tx.tx_type;
  account = tx.account;
  counterparty = tx.counterparty;
  ledger_index = or_kept tx.ledger_index r.ledger_index;
  result_code = tx.result_code;
  raw_json = tx.raw_json;
  observed_at = r.observed_at;
}

abbrev recorded : TransactionInput → String → List TransactionRow → List TransactionRow
recorded tx now rows = elim (find (with_hash tx.tx_hash) rows) [
  | none ↦ rows ++ transaction_row tx now ∷ []
  | some _ ↦ update_first (with_hash tx.tx_hash) (reassigned tx) rows
]

unfoldable pub record_transaction : TransactionInput → Action Store (Unit {0})
record_transaction tx s =
    (ok tt, record s { transactions = recorded tx (now_iso s) s.transactions })

abbrev pub get_transaction_by_hash : Option String → Action Store (Option TransactionRow)
get_transaction_by_hash hash = gets (λ s. find (with_hash hash) s.transactions)

-- `[...rows].slice(-limit).reverse()` for a positive limit: the newest first.
abbrev pub newest {ℓ} : {A : Type ℓ} → ℕ → List A → List A
newest limit rows = take limit (reverse rows)

abbrev pub list_transactions : ℕ → Action Store (List TransactionRow)
list_transactions limit = gets (λ s. newest limit s.transactions)

-- `ids.has(x.txHash)`, where `ids` holds the truthy hashes of the aggregate's rows
abbrev pub is_hash_of : List OutboxRow → TransactionRow → Bool
is_hash_of rows t =
    any (λ r. if truthy r.tx_hash then same_hash r.tx_hash t.tx_hash else false) rows

abbrev pub list_transactions_by_aggregate : String → String → Action Store (List TransactionRow)
list_transactions_by_aggregate aggregate_type aggregate_id = gets (λ s.
    filter (is_hash_of (filter (is_of_aggregate aggregate_type aggregate_id) s.outbox))
      s.transactions)

abbrev is_named : String → Checkpoint → Bool
is_named name c = c.name == name

-- The checkpoints are an object keyed by name.
unfoldable pub save_checkpoint : String → ℕ → Action Store Checkpoint
save_checkpoint name ledger_index s =
    let c : Checkpoint = record {
      name = name;
      last_validated_ledger = ledger_index;
      updated_at = now_iso s;
    } in
    (
      ok c,
      record s {
        checkpoints = elim (find (is_named name) s.checkpoints) [
          | none ↦ s.checkpoints ++ c ∷ []
          | some _ ↦ update_first (is_named name) (λ _. c) s.checkpoints
        ];
      },
    )

abbrev pub get_checkpoint : String → Action Store (Option Checkpoint)
get_checkpoint name = gets (λ s. find (is_named name) s.checkpoints)

pub record RunInput : Type 0 where
  pub job_name : String
  pub target_type : String
  pub target_id : String
  pub outcome : String
  pub detail : Json

unfoldable pub save_reconciliation_run : RunInput → Action Store ReconciliationRun
save_reconciliation_run row = do
  id ← random_uuid
  now ← gets now_iso
  let stored : ReconciliationRun = record {
    id = id;
    created_at = now;
    job_name = row.job_name;
    target_type = row.target_type;
    target_id = row.target_id;
    outcome = row.outcome;
    detail = row.detail;
  }
  modify (λ s. record s { reconciliations = s.reconciliations ++ stored ∷ [] })
  pure stored

abbrev pub list_reconciliation_runs : ℕ → Action Store (List ReconciliationRun)
list_reconciliation_runs limit = gets (λ s. newest limit s.reconciliations)
